-- ===== src/Versions/Settles.antt =====
-- The insight of a completed update comes to rest (internal/controller/clusterversions/impl.go).
use openshift_update_experie.Prelude.{
  ℕ, String, ◌≡◌, ◌≢◌, refl, sym, ap, ◌∙◌, Bool, true, false, not, ◌&&◌, List, [], ◌∷◌, Option,
  none, some, if◌then◌else◌, as_list, arith, eq_refl,
}
use openshift_update_experie.Meta.{
  Time, Condition, ConditionStatus, ConditionsApi, condition_true, condition_false,
  condition_unknown, condition_other, stamp,
}
use openshift_update_experie.Meta.Laws.{condition_of, find_status_condition-condition_of}
use openshift_update_experie.Meta.Stamps.{condition_of-type, set_first, stamp_again, stamp-type}
use openshift_update_experie.Api.{ClusterVersionProgressInsightStatus}
use openshift_update_experie.Cluster.{
  ClusterVersion, ClusterOperator, StatusCondition, UpdateHistory, UpdateState, completed_update,
  partial_update, other_update, found,
}
use openshift_update_experie.Client.{Answers}
use openshift_update_experie.Health.{SyncAnswers}
use openshift_update_experie.Versions.Float.{Float64, whole}
use openshift_update_experie.Versions.Updating.{is_control_plane_updating, by_status}
use openshift_update_experie.Versions.Assessment.{
  updating_of, assessment_of_status, is_over, co_completion, observed_progress, previous_conditions,
  version_conditions, version_insight_with, assess_cluster_version,
}
use openshift_update_experie.Versions.Reconcile.{
  Libraries, VersionReads, listed, reconcile_version, reconcile_read, write_version, synchronize,
  health_insights,
}
use openshift_update_experie.Versions.Tolerance.{has_significant_difference_lem}

some_injective : (s t : ClusterVersionProgressInsightStatus) → some s ≡ some t → s ≡ t
some_injective s t h = cc h

observed_once :
    (now later : Time) (previous : Option ClusterVersionProgressInsightStatus) (n : ℕ)
    (s : ClusterVersionProgressInsightStatus)
    → now ≢ 0
    → s.last_observed_progress ≡ observed_progress now previous n
    → s.completion ≡ n
    → observed_progress later (some s) n ≡ s.last_observed_progress
unfolding observed_progress
observed_once now later previous n s h e f = ground arith

-- By the status, the state and the completion time of the item.
module _ (p : StatusCondition) (started : Time) (version image : String) where
  abbrev Zero : ConditionStatus → UpdateState → Option Time → Type 0
  Zero s state completed =
      let c =
        (by_status s p record {
          state = state;
          started_time = started;
          completion_time = completed;
          version = version;
          image = image;
        }).0 in
      record c { last_transition_time = 0 } ≡ c

  by_status_unset :
      (s : ConditionStatus) (state : UpdateState) (completed : Option Time) → Zero s state completed
  by_status_unset condition_true partial_update none = refl
  by_status_unset condition_true partial_update (some t) = refl
  by_status_unset condition_true completed_update completed = refl
  by_status_unset condition_true (other_update o) completed = refl
  by_status_unset condition_false completed_update none = refl
  by_status_unset condition_false completed_update (some t) = refl
  by_status_unset condition_false partial_update completed = refl
  by_status_unset condition_false (other_update o) completed = refl
  by_status_unset condition_unknown state completed = refl
  by_status_unset (condition_other o) state completed = refl

verdict_zero :
    (p : Option StatusCondition) (item : Option UpdateHistory)
    → let c = (is_control_plane_updating p item).0 in record c { last_transition_time = 0 } ≡ c
unfolding is_control_plane_updating
verdict_zero none item = refl
verdict_zero (some p) none = refl
verdict_zero (some p) (some item) =
    by_status_unset p item.started_time item.version item.image p.status item.state
      item.completion_time

-- The verdict's time is left for `SetStatusCondition` to fill in.
updating_zero :
    (cv : ClusterVersion)
    → record (updating_of cv).0 { last_transition_time = 0 } ≡ (updating_of cv).0
unfolding updating_of
updating_zero cv = verdict_zero _ _

abbrev type_or : String → Option Condition → String
type_or t none = t
type_or t (some c) = c.type

module _ (api : ConditionsApi) (wall later : Time) (u : Condition)
    (zero : record u { last_transition_time = 0 } ≡ u) where
  abbrev previous_updating : Option ClusterVersionProgressInsightStatus → Option Condition
  previous_updating previous = api.find_status_condition (previous_conditions previous) u.type

  conditions_stamped :
      (previous : Option ClusterVersionProgressInsightStatus)
      → version_conditions api wall previous u ≡ stamp wall (previous_updating previous) u ∷ []
  conditions_stamped previous = set_first api wall (previous_updating previous) u (λ c h.
      condition_of-type u.type (previous_conditions previous) c
        (sym (find_status_condition-condition_of api (previous_conditions previous) u.type) ∙ h))

  stamped_first :
      (old : Option Condition)
      → condition_of u.type (stamp wall old u ∷ []) ≡ some (stamp wall old u)
  unfolding condition_of
  stamped_first none = rw (eq_refl u.type) refl
  stamped_first (some o) = rw (eq_refl u.type) refl

  -- The condition of the previous insight, found and set again, is as it was.
  conditions_again :
      (previous : Option ClusterVersionProgressInsightStatus)
      (s : ClusterVersionProgressInsightStatus)
      → s.conditions ≡ stamp wall (previous_updating previous) u ∷ []
      → version_conditions api later (some s) u ≡ s.conditions
  conditions_again previous s h =
      let kept = stamp wall (previous_updating previous) u in
      let there : api.find_status_condition s.conditions u.type ≡ some kept =
        find_status_condition-condition_of api s.conditions u.type
        ∙ ap (condition_of u.type) h
        ∙ stamped_first (previous_updating previous) in
      ap (λ o. api.set_status_condition later (as_list o) u) there
      ∙ set_first api later (some kept) u (λ c e.
        ap (λ o. type_or u.type o) (sym e) ∙ stamp-type wall (previous_updating previous) u)
      ∙ ap (λ c. c ∷ [])
          (ap (stamp later (some kept)) (sym zero)
            ∙ stamp_again wall later 0 (previous_updating previous) u)
      ∙ sym h

-- No estimate is asked for once the update is over.
unasked :
    (b c : Bool) (o : Option (Option Time))
    → c ≡ true
    → (if b && not c then o else some none) ≡ some none
unasked true true o h = refl
unasked false true o h = refl
unasked b false o h = cc h

module _ {F : Type 0} (float : Float64 F) (libraries : Libraries) (wall later now again : Time)
    (cv : ClusterVersion) (previous : Option ClusterVersionProgressInsightStatus)
    (operators : List ClusterOperator) (over : (updating_of cv).0.status ≡ condition_false) where
  abbrev api : ConditionsApi
  api = libraries.conditions

  abbrev insight_at :
      Time → Time → Option ClusterVersionProgressInsightStatus → ClusterVersionProgressInsightStatus
  insight_at w t prev = version_insight_with float api w t cv prev operators none

  assessed_over :
      (w t : Time) (prev : Option ClusterVersionProgressInsightStatus)
      → assess_cluster_version float api w t cv prev operators ≡ some (insight_at w t prev)
  unfolding assess_cluster_version
  assessed_over w t prev =
      ap
        (λ o. elim o [
          | none ↦ none
          | some e ↦ some (version_insight_with float api w t cv prev operators e)
        ])
        (unasked (float.le (co_completion float cv operators) (whole float 1)) _ _
          (ap (λ status. is_over (assessment_of_status status)) over))

  insight_again :
      now ≢ 0
      → insight_at later again (some (insight_at wall now previous)) ≡ insight_at wall now previous
  insight_again h =
      let first = insight_at wall now previous in
      let u = (updating_of cv).0 in
      let kept =
        conditions_again api wall later u (updating_zero cv) previous first
          (conditions_stamped api wall later u (updating_zero cv) previous) in
      let progress = observed_once now again previous first.completion first h refl refl in
      λ i. record first { conditions = kept i; last_observed_progress = progress i }

  -- Once the insight of a completed update is written, reconciling again, however much later, makes no
  -- call for it while the cluster version and the operators are as before; only the health insights
  -- are synchronized.
  pub reconcile_version_settles :
      (answers : Answers) (sync : SyncAnswers) (forced_now : Time) (reads : VersionReads)
      (s : ClusterVersionProgressInsightStatus)
      → now ≢ 0
      → assess_cluster_version float api wall now cv previous operators ≡ some s
      → reads.get_version ≡ found cv
      → reads.get_insight ≡ found s
      → reads.list_operators ≡ listed operators
      → reconcile_version libraries answers sync float later again forced_now reads
        ≡ some (
            synchronize libraries answers sync [] reads.list_insights
              (health_insights libraries answers sync cv forced_now))
  unfolding reconcile_version
  reconcile_version_settles answers sync forced_now reads s h a f g l =
      let first = insight_at wall now previous in
      let e : s ≡ first = some_injective s first (sym a ∙ assessed_over wall now previous) in
      let again_same : assess_cluster_version float api later again cv (some s) operators ≡ some s =
        ap (λ p. assess_cluster_version float api later again cv (some p) operators) e
        ∙ assessed_over later again (some first)
        ∙ ap some (insight_again h ∙ sym e) in
      let read : reconcile_version libraries answers sync float later again forced_now reads
          ≡ reconcile_read libraries answers sync float later again forced_now reads.list_insights
              operators (some cv) (some s) =
        rw (f, g, l) refl in
      read
      ∙ ap
          (λ o. elim o [
            | none ↦ none
            | some status ↦ some (
                write_version libraries answers sync [] (some s) status reads.list_insights
                  (health_insights libraries answers sync cv forced_now))
          ])
          again_same
      ∙ rw (has_significant_difference_lem s s).0 refl
