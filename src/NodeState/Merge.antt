-- ===== src/NodeState/Merge.antt =====
-- How internal/controller/nodestate/conditions.go merges its three conditions into the existing ones.
use openshift_update_experie.Prelude.{
  ◌≡◌, refl, Bool, true, false, not, List, [], ◌∷◌, ◌++◌, some, if◌then◌else◌, ◌==◌, eq_iff, select,
  arith,
}
use openshift_update_experie.Meta.{Time, Condition, ConditionsApi, stamp}
use openshift_update_experie.Meta.Laws.{
  put, condition_of, condition_of-put, set_status_condition-put,
}
use openshift_update_experie.Meta.Lookup.{
  condition_of-select, condition_of-append, condition_of-guarded, has_type-put, has_type-select,
}
use openshift_update_experie.Api.{updating_type, available_type, degraded_type}
use openshift_update_experie.NodeState.Conditions.{merge_conditions, is_managed}

pub managed_updating : (c : Condition) → (c.type == updating_type) ≡ true → is_managed c ≡ true
managed_updating c h = ground arith

pub managed_available : (c : Condition) → (c.type == available_type) ≡ true → is_managed c ≡ true
managed_available c h = ground arith

pub managed_degraded : (c : Condition) → (c.type == degraded_type) ≡ true → is_managed c ≡ true
managed_degraded c h = ground arith

kept_updating :
    (cs : List Condition)
    → condition_of updating_type (select is_managed cs) ≡ condition_of updating_type cs
kept_updating cs = condition_of-select is_managed updating_type cs true managed_updating

kept_available :
    (cs : List Condition)
    → condition_of available_type (select is_managed cs) ≡ condition_of available_type cs
kept_available cs = condition_of-select is_managed available_type cs true managed_available

kept_degraded :
    (cs : List Condition)
    → condition_of degraded_type (select is_managed cs) ≡ condition_of degraded_type cs
kept_degraded cs = condition_of-select is_managed degraded_type cs true managed_degraded

abbrev pub is_not_available : Condition → Bool
is_not_available c = not (c.type == available_type)

pub passes_updating : (c : Condition) → (c.type == updating_type) ≡ true → is_not_available c ≡ true
passes_updating c h = rw ((eq_iff c.type updating_type).0 h) refl

pub passes_degraded : (c : Condition) → (c.type == degraded_type) ≡ true → is_not_available c ≡ true
passes_degraded c h = rw ((eq_iff c.type degraded_type).0 h) refl

pub drops_available :
    (c : Condition) → (c.type == available_type) ≡ true → is_not_available c ≡ false
drops_available c h = ground arith

-- The merge with the helpers replaced by plain recursions.
abbrev pub merged :
    Time → List Condition → Bool → Condition → Condition → Condition → List Condition
merged wall existing un u a d = put wall d (
    if un
    then select is_not_available (put wall u (select is_managed existing)) ++ a ∷ []
    else put wall a (put wall u (select is_managed existing)))

pub merge_conditions-merged :
    (api : ConditionsApi) (wall : Time) (existing : List Condition) (un : Bool) (u a d : Condition)
    → merge_conditions api wall existing un u a d ≡ merged wall existing un u a d
unfolding merge_conditions
merge_conditions-merged api wall existing un u a d = simp (set_status_condition-put api)

module _ (wall : Time) (existing : List Condition) (u a d : Condition) (hu : u.type ≡ updating_type)
    (ha : a.type ≡ available_type) (hd : d.type ≡ degraded_type) where
  pub merged_updating :
      (un : Bool)
      → condition_of updating_type (merged wall existing un u a d)
        ≡ some (stamp wall (condition_of updating_type existing) u)
  merged_updating true =
      simp
        (
          condition_of-put,
          condition_of-append,
          hd,
          hu,
          ha,
          has_type-select is_not_available updating_type _ true passes_updating,
          has_type-put,
          condition_of-select is_not_available updating_type _ true passes_updating,
          kept_updating,
        )
        (ground arith)
  merged_updating false = simp (condition_of-put, hd, hu, ha, kept_updating)

  pub merged_available :
      (un : Bool)
      → condition_of available_type (merged wall existing un u a d)
        ≡ some (if un then a else stamp wall (condition_of available_type existing) a)
  merged_available true = simp (
    condition_of-put,
    condition_of-append,
    hd,
    ha,
    has_type-select is_not_available available_type _ false drops_available,
  )
  merged_available false = simp (condition_of-put, hd, hu, ha, kept_available)

  pub merged_degraded :
      (un : Bool)
      → condition_of degraded_type (merged wall existing un u a d)
        ≡ some (stamp wall (condition_of degraded_type existing) d)
  merged_degraded true =
      simp
        (
          condition_of-put,
          condition_of-append,
          hd,
          hu,
          ha,
          has_type-select is_not_available degraded_type _ true passes_degraded,
          has_type-put,
          condition_of-select is_not_available degraded_type _ true passes_degraded,
          kept_degraded,
        )
        (ground (
          arith,
          condition_of-guarded degraded_type existing,
          has_type-select is_managed degraded_type existing true managed_degraded,
        ))
  merged_degraded false = simp (condition_of-put, hd, hu, ha, kept_degraded)
