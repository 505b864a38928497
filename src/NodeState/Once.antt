-- ===== src/NodeState/Once.antt =====
-- The condition list of internal/controller/nodestate/conditions.go has each managed type once.
use openshift_update_experie.Prelude.{
  ◌≤◌, ◌<◌, ◌+◌, String, ◌≡◌, refl, ap, ◌∙◌, Bool, true, false, not, ◌&&◌, List, [], ◌∷◌, ◌++◌,
  Option, none, some, if◌then◌else◌, ◌==◌, eq_iff, arith, all, select,
}
use openshift_update_experie.Meta.{Time, Condition, ConditionsApi, stamp, has_type}
use openshift_update_experie.Meta.Laws.{occurrences, occurrences-put, put}
use openshift_update_experie.Meta.Contents.{all-put, all-select, all-append, all-select_of_all}
use openshift_update_experie.Mco.{Node, MachineConfigPool, LayeredNodeState}
use openshift_update_experie.Api.{updating_type, available_type, degraded_type}
use openshift_update_experie.NodeState.Conditions.{
  determine_updating, determine_available, determine_degraded, determine_conditions, is_managed,
}
use openshift_update_experie.NodeState.Merge.{
  merged, merge_conditions-merged, is_not_available, managed_updating, managed_available,
  managed_degraded, passes_updating, passes_degraded, drops_available,
}
use openshift_update_experie.NodeState.Verdict.{updating_agrees, available-type, degraded-type}

managed_stamp :
    (wall : Time) (c : Condition) (o : Option Condition)
    → is_managed c ≡ true
    → is_managed (stamp wall o c) ≡ true
managed_stamp wall c none h = h
managed_stamp wall c (some x) h = h

module _ (wall : Time) (existing : List Condition) (u a d : Condition) (hu : is_managed u ≡ true)
    (ha : is_managed a ≡ true) (hd : is_managed d ≡ true) where
  merged_managed : (un : Bool) → all is_managed (merged wall existing un u a d) ≡ true
  merged_managed un = all-put is_managed wall d _ (λ o. managed_stamp wall d o hd) (go un)
    where
      updated : all is_managed (put wall u (select is_managed existing)) ≡ true
      updated =
          all-put is_managed wall u (select is_managed existing) (λ o. managed_stamp wall u o hu)
            (all-select is_managed existing)

      go :
          (b : Bool)
          → all is_managed (
              if b
              then select is_not_available (put wall u (select is_managed existing)) ++ a ∷ []
              else put wall a (put wall u (select is_managed existing)))
            ≡ true
      go true =
          all-append is_managed (select is_not_available (put wall u (select is_managed existing)))
            (a ∷ [])
            (all-select_of_all is_managed is_not_available (put wall u (select is_managed existing))
              updated)
            (ground (arith, ha))
      go false =
          all-put is_managed wall a (put wall u (select is_managed existing))
            (λ o. managed_stamp wall a o ha) updated

-- How a filter changes the number of conditions of a type.
occurrences-select :
    (p : Condition → Bool) (t : String) (cs : List Condition) (keep : Bool)
    → ((c : Condition) → (c.type == t) ≡ true → p c ≡ keep)
    → occurrences t (select p cs) ≡ (if keep then occurrences t cs else 0)
occurrences-select p t [] keep h = ground arith
occurrences-select p t (c ∷ cs) keep h = ground (arith, h c, occurrences-select p t cs keep h)

occurrences-append :
    (t : String) (cs : List Condition) (c : Condition)
    → occurrences t (cs ++ c ∷ []) ≡ occurrences t cs + (if c.type == t then 1 else 0)
occurrences-append t [] c = ground arith
occurrences-append t (x ∷ cs) c = ground (arith, occurrences-append t cs c)

occurrences-pos : (t : String) (cs : List Condition) → has_type t cs ≡ true → 0 < occurrences t cs
occurrences-pos t [] h = cc
occurrences-pos t (c ∷ cs) h = ground (arith, occurrences-pos t cs)

-- A put leaves one condition of its type, if there was at most one.
once-put :
    (wall : Time) (c : Condition) (t : String) (cs : List Condition)
    → occurrences t cs ≤ 1
    → c.type ≡ t
    → occurrences t (put wall c cs) ≡ 1
once-put wall c t cs h e =
    ground (arith, occurrences-put wall c t cs, occurrences-pos t cs, eq_iff c.type t)

-- A put leaves the number of conditions of another type alone.
other-put :
    (wall : Time) (c : Condition) (t s : String) (cs : List Condition)
    → c.type ≡ s
    → (s == t) ≡ false
    → occurrences t (put wall c cs) ≡ occurrences t cs
other-put wall c t s cs e h = occurrences-put wall c t cs ∙ rw e (rw h refl)

append_other :
    (t s : String) (cs : List Condition) (c : Condition)
    → c.type ≡ s
    → (s == t) ≡ false
    → occurrences t (cs ++ c ∷ []) ≡ occurrences t cs
append_other t s cs c e h = ground (arith, occurrences-append t cs c, eq_iff c.type t, eq_iff s t)

append_once :
    (t : String) (cs : List Condition) (c : Condition)
    → c.type ≡ t
    → occurrences t cs ≡ 0
    → occurrences t (cs ++ c ∷ []) ≡ 1
append_once t cs c e h = ground (arith, occurrences-append t cs c, eq_iff c.type t)

module _ (wall : Time) (existing : List Condition) (u a d : Condition) (hu : u.type ≡ updating_type)
    (ha : a.type ≡ available_type) (hd : d.type ≡ degraded_type)
    (one_updating : occurrences updating_type existing ≤ 1)
    (one_available : occurrences available_type existing ≤ 1)
    (one_degraded : occurrences degraded_type existing ≤ 1) where
  abbrev kept : List Condition
  kept = select is_managed existing

  abbrev updated : List Condition
  updated = put wall u kept

  kept_updating : occurrences updating_type kept ≤ 1
  kept_updating =
      rw (occurrences-select is_managed updating_type existing true managed_updating) one_updating

  kept_available : occurrences available_type kept ≤ 1
  kept_available =
      rw (occurrences-select is_managed available_type existing true managed_available)
        one_available

  kept_degraded : occurrences degraded_type kept ≤ 1
  kept_degraded =
      rw (occurrences-select is_managed degraded_type existing true managed_degraded) one_degraded

  once_updating : (un : Bool) → occurrences updating_type (merged wall existing un u a d) ≡ 1
  once_updating true =
      other-put wall d updating_type degraded_type (select is_not_available updated ++ a ∷ []) hd
        refl
      ∙ append_other updating_type available_type (select is_not_available updated) a ha refl
      ∙ occurrences-select is_not_available updating_type updated true passes_updating
      ∙ once-put wall u updating_type kept kept_updating hu
  once_updating false =
      other-put wall d updating_type degraded_type (put wall a updated) hd refl
      ∙ other-put wall a updating_type available_type updated ha refl
      ∙ once-put wall u updating_type kept kept_updating hu

  once_available : (un : Bool) → occurrences available_type (merged wall existing un u a d) ≡ 1
  once_available true =
      other-put wall d available_type degraded_type (select is_not_available updated ++ a ∷ []) hd
        refl
      ∙ append_once available_type (select is_not_available updated) a ha
          (occurrences-select is_not_available available_type updated false drops_available)
  once_available false =
      other-put wall d available_type degraded_type (put wall a updated) hd refl
      ∙ once-put wall a available_type updated
          (rw (other-put wall u available_type updating_type kept hu refl) kept_available) ha

  once_degraded : (un : Bool) → occurrences degraded_type (merged wall existing un u a d) ≡ 1
  once_degraded true =
      once-put wall d degraded_type (select is_not_available updated ++ a ∷ [])
        (rw (append_other degraded_type available_type (select is_not_available updated) a ha refl)
          (rw (occurrences-select is_not_available degraded_type updated true passes_degraded)
            (rw (other-put wall u degraded_type updating_type kept hu refl) kept_degraded)))
        hd
  once_degraded false =
      once-put wall d degraded_type (put wall a updated)
        (rw (other-put wall a degraded_type available_type updated ha refl)
          (rw (other-put wall u degraded_type updating_type kept hu refl) kept_degraded))
        hd

of_updating : (c : Condition) → c.type ≡ updating_type → is_managed c ≡ true
of_updating c e = managed_updating c ((eq_iff c.type updating_type).1 e)

of_available : (c : Condition) → c.type ≡ available_type → is_managed c ≡ true
of_available c e = managed_available c ((eq_iff c.type available_type).1 e)

of_degraded : (c : Condition) → c.type ≡ degraded_type → is_managed c ≡ true
of_degraded c e = managed_degraded c ((eq_iff c.type degraded_type).1 e)

-- From existing conditions without duplicates of the three managed types, the result has each of
-- them exactly once, and no condition of any other type.
determine_conditions_once :
    (api : ConditionsApi) (wall : Time) (pool : MachineConfigPool) (node : Node)
    (is_updating is_updated is_unavailable is_degraded : Bool) (lns : LayeredNodeState)
    (existing : List Condition) (now : Time)
    → occurrences updating_type existing ≤ 1
    → occurrences available_type existing ≤ 1
    → occurrences degraded_type existing ≤ 1
    → let r =
        (determine_conditions api wall pool node is_updating is_updated is_unavailable is_degraded
          lns existing now).0 in
      (all is_managed r ≡ true)
      × (occurrences updating_type r ≡ 1)
      × (occurrences available_type r ≡ 1)
      × (occurrences degraded_type r ≡ 1)
unfolding determine_conditions
determine_conditions_once api wall pool node is_updating is_updated is_unavailable is_degraded lns
      existing now h1 h2 h3 =
    let un = is_unavailable && not is_updating in
    let u = (determine_updating pool node is_updating is_updated now).1 in
    let a = determine_available lns un now in
    let d = determine_degraded node is_degraded now in
    let hu = (updating_agrees pool node is_updating is_updated now).0 in
    let ha = available-type lns un now in
    let hd = degraded-type node is_degraded now in
    let plain = merge_conditions-merged api wall existing un u a d in
    (
      ap (all is_managed) plain
          ∙ merged_managed wall existing u a d (of_updating u hu) (of_available a ha)
              (of_degraded d hd) un,
      ap (occurrences updating_type) plain ∙ once_updating wall existing u a d hu ha hd h1 h2 h3 un,
      ap (occurrences available_type) plain
          ∙ once_available wall existing u a d hu ha hd h1 h2 h3 un,
      ap (occurrences degraded_type) plain ∙ once_degraded wall existing u a d hu ha hd h1 h2 h3 un,
    )
