-- ===== src/Versions/Determined.antt =====
-- What the cluster version's insight and the command say of the update
-- (internal/controller/clusterversions/impl.go and cmd/oc-update-status/controlplane.go).
use openshift_update_experie.Prelude.{
  String, ◌≡◌, refl, true, false, List, [], ◌∷◌, Option, none, some,
}
use openshift_update_experie.Meta.{
  Time, Condition, ConditionStatus, condition_true, condition_false, condition_unknown,
  condition_other,
}
use openshift_update_experie.Cluster.{
  StatusCondition, UpdateHistory, UpdateState, completed_update, partial_update, other_update,
}
use openshift_update_experie.Versions.Predicates.{state_eq}
use openshift_update_experie.Versions.Updating.{
  is_control_plane_updating, versions_from_history, versions_from_insight, by_status,
}

-- What a verdict on the control plane rests on.
abbrev pub Grounds : UpdateHistory → Condition × Time × Time → Type 0
Grounds item r =
    (r.0.status ≡ condition_true
      → (item.state ≡ partial_update)
        × (item.completion_time ≡ none)
        × (r.1 ≡ item.started_time)
        × (r.2 ≡ 0))
    × (r.0.status ≡ condition_false
        → (item.state ≡ completed_update)
          × (item.completion_time ≡ some r.2)
          × (r.1 ≡ item.started_time))
    × (r.0.status ≡ condition_unknown → (r.1 ≡ 0) × (r.2 ≡ 0))

-- The item, by its fields.
abbrev item_of : UpdateState → Time → Option Time → String → String → UpdateHistory
item_of state started completed version image = record {
  state = state;
  started_time = started;
  completion_time = completed;
  version = version;
  image = image;
}

module _ (p : StatusCondition) (started : Time) (version image : String) where
  abbrev Holds : ConditionStatus → UpdateState → Option Time → Type 0
  Holds s state completed =
      Grounds (item_of state started completed version image)
        (by_status s p (item_of state started completed version image))

  grounded :
      (s : ConditionStatus) (state : UpdateState) (completed : Option Time)
      → p.status ≡ s
      → Holds s state completed
  grounded condition_true partial_update none e =
      rw e (λ h. (refl, refl, refl, refl), λ h. cc h, λ h. cc h)
  grounded condition_true partial_update (some t) e = (λ h. cc h, λ h. cc h, λ h. (refl, refl))
  grounded condition_true completed_update completed e = (λ h. cc h, λ h. cc h, λ h. (refl, refl))
  grounded condition_true (other_update o) completed e = (λ h. cc h, λ h. cc h, λ h. (refl, refl))
  grounded condition_false completed_update none e = (λ h. cc h, λ h. cc h, λ h. (refl, refl))
  grounded condition_false completed_update (some t) e =
      rw e (λ h. cc h, λ h. (refl, refl, refl), λ h. cc h)
  grounded condition_false partial_update completed e = (λ h. cc h, λ h. cc h, λ h. (refl, refl))
  grounded condition_false (other_update o) completed e = (λ h. cc h, λ h. cc h, λ h. (refl, refl))
  grounded condition_unknown state completed e = rw e (λ h. cc h, λ h. cc h, λ h. (refl, refl))
  grounded (condition_other o) state completed e = rw e (λ h. cc h, λ h. cc h, λ h. (refl, refl))

-- The control plane is said to be updating only if the last history item is partial and has no
-- completion time, and then the update started when the item did; it is said not to be updating only
-- if the item is completed, at the time that is given; and where it cannot be told, no time is given.
is_control_plane_updating_lem :
    (p : StatusCondition) (item : UpdateHistory)
    → Grounds item (is_control_plane_updating (some p) (some item))
unfolding is_control_plane_updating
is_control_plane_updating_lem p item =
    grounded p item.started_time item.version item.image p.status item.state item.completion_time
      refl

partial_shown :
    (h : UpdateHistory) (state : UpdateState) (started : Time) (completed : Option Time)
    (version image : String) (rest : List UpdateHistory)
    → (versions_from_insight (
        versions_from_history
          (h ∷ item_of state started completed version image ∷ rest))).is_previous_partial
      ≡ state_eq state partial_update
unfolding versions_from_insight versions_from_history
partial_shown h completed_update started completed version image rest = refl
partial_shown h partial_update started completed version image rest = refl
partial_shown h (other_update o) started completed version image rest = refl

-- The versions that the command shows are those of the history: the target is the latest item's; a
-- history of one item is an installation, without a previous version; otherwise the previous version
-- is the second item's, and is partial exactly if that item is. Without a history it is unknown.
versions_from_insight_lem :
    (h k : UpdateHistory) (rest : List UpdateHistory)
    → let installed = versions_from_insight (versions_from_history (h ∷ [])) in
      let updated = versions_from_insight (versions_from_history (h ∷ k ∷ rest)) in
      (installed.target ≡ h.version)
      × (installed.previous ≡ "")
      × (installed.is_target_install ≡ true)
      × (updated.target ≡ h.version)
      × (updated.previous ≡ k.version)
      × (updated.is_target_install ≡ false)
      × (updated.is_previous_partial ≡ state_eq k.state partial_update)
      × ((versions_from_insight (versions_from_history [])).previous ≡ "unknown")
unfolding versions_from_insight versions_from_history
versions_from_insight_lem h k rest = (
  refl,
  refl,
  refl,
  refl,
  refl,
  refl,
  partial_shown h k.state k.started_time k.completion_time k.version k.image rest,
  refl,
)
