-- ===== src/Versions/Tolerance.antt =====
-- When two statuses of the cluster version's insight count as alike
-- (internal/controller/clusterversions/impl.go).
use openshift_update_experie.Prelude.{
  ℕ, ◌+◌, ◌^◌, ◌≤◌, ◌<◌, ◌≡◌, refl, ap, ◌↔◌, Bool, true, false, not, ◌&&◌, ◌||◌, List, [], ◌∷◌,
  Option, none, some, ◌==◌, eq_iff, eq_refl, eqb, arith,
}
use openshift_update_experie.Meta.{
  Time, Condition, status_eq, ConditionStatus, condition_true, condition_false, condition_unknown,
  condition_other,
}
use openshift_update_experie.Meta.Laws.{content, contents}
use openshift_update_experie.Meta.Stamps.{status_eq_same}
use openshift_update_experie.Api.{
  ClusterVersionProgressInsightStatus, ClusterVersionAssessment, version_unknown,
  version_progressing, version_completed, version_degraded, Version,
}
use openshift_update_experie.Versions.Difference.{
  significant_time_difference, time_fields_equal_with_tolerance, optional_times_equal,
  assessment_eq, previous_equal, condition_equal, conditions_equal, has_significant_difference,
}

-- Two times of which none is the zero time count as equal exactly if they are less than 30 seconds
-- apart, if they are less than 2 ^ 63 nanoseconds apart; and if the new time is earlier than the old
-- one by that or more, they count as equal too, since the difference does not fit. The zero time
-- equals only itself, on either side.
pub time_fields_equal_with_tolerance_lem :
    (old new : Time)
    → (0 < old
        → 0 < new
        → old < new + 2 ^ 63
        → (time_fields_equal_with_tolerance old new ≡ true)
          ↔ ((old < new + significant_time_difference) × (new < old + significant_time_difference)))
      × (0 < new → new + 2 ^ 63 ≤ old → time_fields_equal_with_tolerance old new ≡ true)
      × ((time_fields_equal_with_tolerance old 0 ≡ true) ↔ (old ≡ 0))
      × ((time_fields_equal_with_tolerance 0 new ≡ true) ↔ (new ≡ 0))
unfolding time_fields_equal_with_tolerance
time_fields_equal_with_tolerance_lem old new =
    (λ h k l. ground arith, λ h k. ground arith, ground arith, ground arith)

same_time : (t : Time) → time_fields_equal_with_tolerance t t ≡ true
unfolding time_fields_equal_with_tolerance
same_time t = ground arith

same_optional : (t : Option Time) → optional_times_equal t t ≡ true
same_optional none = refl
same_optional (some t) = same_time t

same_assessment : (a : ClusterVersionAssessment) → assessment_eq a a ≡ true
same_assessment version_unknown = refl
same_assessment version_progressing = refl
same_assessment version_completed = refl
same_assessment version_degraded = refl

same_previous : (v : Option Version) → previous_equal v v ≡ true
same_previous none = refl
same_previous (some v) = eq_refl v.version

same_conditions : (cs : List Condition) → conditions_equal cs cs ≡ true
same_conditions [] = refl
same_conditions (c ∷ cs) =
    rw
      (
        eq_refl c.type,
        status_eq_same c.status,
        eq_refl c.reason,
        eq_refl c.message,
        same_time c.last_transition_time,
        same_conditions cs,
      )
      refl

same_number : (n : ℕ) → eqb n n ≡ true
same_number n = ground arith

status_eq-equal : (s t : ConditionStatus) → status_eq s t ≡ true → s ≡ t
status_eq-equal condition_true condition_true h = refl
status_eq-equal condition_false condition_false h = refl
status_eq-equal condition_unknown condition_unknown h = refl
status_eq-equal (condition_other s) (condition_other t) h = ap condition_other ((eq_iff s t).0 h)
status_eq-equal condition_true condition_false h = cc h
status_eq-equal condition_true condition_unknown h = cc h
status_eq-equal condition_true (condition_other t) h = cc h
status_eq-equal condition_false condition_true h = cc h
status_eq-equal condition_false condition_unknown h = cc h
status_eq-equal condition_false (condition_other t) h = cc h
status_eq-equal condition_unknown condition_true h = cc h
status_eq-equal condition_unknown condition_false h = cc h
status_eq-equal condition_unknown (condition_other t) h = cc h
status_eq-equal (condition_other s) condition_true h = cc h
status_eq-equal (condition_other s) condition_false h = cc h
status_eq-equal (condition_other s) condition_unknown h = cc h

and_left : (a b : Bool) → (a && b) ≡ true → a ≡ true
and_left true b h = refl
and_left false b h = h

and_right : (a b : Bool) → (a && b) ≡ true → b ≡ true
and_right true b h = h
and_right false b h = cc h

condition_equal-content : (c d : Condition) → condition_equal c d ≡ true → content c ≡ content d
condition_equal-content c d h =
    let h1 = and_right (c.type == d.type) _ h in
    let h2 = and_right (status_eq c.status d.status) _ h1 in
    let h3 = and_right (c.reason == d.reason) _ h2 in
    let e0 = (eq_iff c.type d.type).0 (and_left (c.type == d.type) _ h) in
    let e1 = status_eq-equal c.status d.status (and_left (status_eq c.status d.status) _ h1) in
    let e2 = (eq_iff c.reason d.reason).0 (and_left (c.reason == d.reason) _ h2) in
    let e3 = (eq_iff c.message d.message).0 (and_left (c.message == d.message) _ h3) in
    λ i. record { type = e0 i; status = e1 i; reason = e2 i; message = e3 i }

conditions_equal-contents :
    (cs ds : List Condition) → conditions_equal cs ds ≡ true → contents cs ≡ contents ds
conditions_equal-contents [] [] h = refl
conditions_equal-contents [] (d ∷ ds) h = cc h
conditions_equal-contents (c ∷ cs) [] h = cc h
conditions_equal-contents (c ∷ cs) (d ∷ ds) h =
    let e =
      condition_equal-content c d (and_left (condition_equal c d) (conditions_equal cs ds) h) in
    let es =
      conditions_equal-contents cs ds
        (and_right (condition_equal c d) (conditions_equal cs ds) h) in
    λ i. e i ∷ es i

not-false : (b : Bool) → not b ≡ false → b ≡ true
not-false true h = refl
not-false false h = cc h

same_count : (m n : ℕ) → eqb m n ≡ true → m ≡ n
same_count m n h = ground arith

neither : (a b : Bool) → (not a || b) ≡ false → (a ≡ true) × (b ≡ false)
neither true b h = (refl, h)
neither false b h = cc h

-- A status does not differ significantly from itself; and if a new one does not, then nothing that
-- it says but times and the metadata of versions has changed, so leaving the old one loses no more.
pub has_significant_difference_lem :
    (old new : ClusterVersionProgressInsightStatus)
    → (has_significant_difference old old ≡ false)
      × (has_significant_difference old new ≡ false
          → (old.name ≡ new.name)
            × (assessment_eq old.assessment new.assessment ≡ true)
            × (old.completion ≡ new.completion)
            × (old.versions.target.version ≡ new.versions.target.version)
            × (previous_equal old.versions.previous new.versions.previous ≡ true)
            × (contents old.conditions ≡ contents new.conditions))
unfolding has_significant_difference
has_significant_difference_lem old new = (
  rw
      (
        eq_refl old.name,
        same_assessment old.assessment,
        same_number old.completion,
        eq_refl old.versions.target.version,
        same_previous old.versions.previous,
        same_time old.started_at,
        same_time old.last_observed_progress,
        same_optional old.completed_at,
        same_optional old.estimated_completed_at,
        same_conditions old.conditions,
      )
      refl,
  λ h.
      let (top, h1) = neither _ _ h in
      let (vs, h2) = neither _ _ h1 in
      let (_, h3) = neither (time_fields_equal_with_tolerance old.started_at new.started_at) _ h2 in
      let (_, h4) =
        neither
          (time_fields_equal_with_tolerance old.last_observed_progress new.last_observed_progress) _
          h3 in
      let (_, h5) = neither (optional_times_equal old.completed_at new.completed_at) _ h4 in
      let (_, h6) =
        neither (optional_times_equal old.estimated_completed_at new.estimated_completed_at) _ h5 in
      let rest = and_right (old.name == new.name) _ top in
      (
        (eq_iff old.name new.name).0 (and_left (old.name == new.name) _ top),
        and_left (assessment_eq old.assessment new.assessment) _ rest,
        same_count old.completion new.completion
            (and_right (assessment_eq old.assessment new.assessment) _ rest),
        (eq_iff old.versions.target.version new.versions.target.version).0
            (and_left (old.versions.target.version == new.versions.target.version) _ vs),
        and_right (old.versions.target.version == new.versions.target.version) _ vs,
        conditions_equal-contents old.conditions new.conditions (not-false _ h6),
      ),
)
