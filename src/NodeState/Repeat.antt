-- ===== src/NodeState/Repeat.antt =====
-- A second evaluation of an unchanged node (internal/controller/nodestate/conditions.go).
use openshift_update_experie.Prelude.{
  String, ◌≡◌, refl, sym, subst, ap, ◌∙◌, ◌⊎◌, inl, inr, Bool, true, false, not, ◌&&◌, List, [],
  ◌∷◌, arith, map,
}
use openshift_update_experie.Meta.{Time, Condition, ConditionsApi, has_type}
use openshift_update_experie.Meta.Laws.{Content, content, contents}
use openshift_update_experie.Meta.Contents.{has_content, put_content}
use openshift_update_experie.Mco.{Node, MachineConfigPool, LayeredNodeState}
use openshift_update_experie.Api.{updating_type, available_type, degraded_type}
use openshift_update_experie.NodeState.Conditions.{
  determine_updating, determine_available, determine_degraded, determine_conditions,
}
use openshift_update_experie.NodeState.Merge.{merge_conditions-merged}
use openshift_update_experie.NodeState.Stability.{
  merged_contents, contents-merged, settled_in_place, settled_at_end, unavailable_shape,
}
use openshift_update_experie.NodeState.Verdict.{updating_agrees, available-type, degraded-type}

updating-content :
    (pool : MachineConfigPool) (node : Node) (is_updating is_updated : Bool) (now now' : Time)
    → content (determine_updating pool node is_updating is_updated now').1
      ≡ content (determine_updating pool node is_updating is_updated now).1
unfolding determine_updating
updating-content pool node is_updating is_updated now now' = ground arith

available-content :
    (lns : LayeredNodeState) (un : Bool) (now now' : Time)
    → content (determine_available lns un now') ≡ content (determine_available lns un now)
unfolding determine_available
available-content lns true now now' = refl
available-content lns false now now' = refl

degraded-content :
    (node : Node) (b : Bool) (now now' : Time)
    → content (determine_degraded node b now') ≡ content (determine_degraded node b now)
unfolding determine_degraded
degraded-content node true now now' = refl
degraded-content node false now now' = refl

has_content-contents :
    (t : String) (cs : List Condition) → has_content t (contents cs) ≡ has_type t cs
has_content-contents t [] = refl
has_content-contents t (c ∷ cs) = ground (arith, has_content-contents t cs)

module _ (u a d : Content) (hu : u.type ≡ updating_type) (ha : a.type ≡ available_type)
    (hd : d.type ≡ degraded_type) (existing : List Content) where
  settled :
      (un : Bool)
      → (un ≡ false) ⊎ (has_content degraded_type existing ≡ true)
      → merged_contents (merged_contents existing un u a d) un u a d
        ≡ merged_contents existing un u a d
  settled false h = settled_in_place u a d hu ha hd existing
  settled true (inl e) = cc
  settled true (inr h) =
      subst (λ r. merged_contents r true u a d ≡ r)
        (sym (unavailable_shape u a d hu ha hd existing h))
        (settled_at_end u a d hu ha hd existing h)

module _ (u a d : Content) (hu : u.type ≡ updating_type) (ha : a.type ≡ available_type)
    (hd : d.type ≡ degraded_type) where
  first_round : merged_contents [] true u a d ≡ u ∷ a ∷ d ∷ []
  unfolding put_content
  first_round = simp (hu, ha, hd)

  second_round : merged_contents (u ∷ a ∷ d ∷ []) true u a d ≡ u ∷ d ∷ a ∷ []
  unfolding put_content
  second_round = simp (hu, ha, hd)

types-contents : (cs : List Condition) → map (λ c. c.type) cs ≡ map (λ k. k.type) (contents cs)
types-contents [] = refl
types-contents (c ∷ cs) = ap (λ ts. c.type ∷ ts) (types-contents cs)

module _ (api : ConditionsApi) (pool : MachineConfigPool) (node : Node)
    (is_updating is_updated is_unavailable is_degraded : Bool) (lns : LayeredNodeState) where
  -- The conditions of one evaluation, at a time and from the existing conditions.
  abbrev pub evaluated : Time → List Condition → Time → List Condition
  evaluated wall existing now =
      (determine_conditions api wall pool node is_updating is_updated is_unavailable is_degraded lns
        existing now).0

  abbrev un : Bool
  un = is_unavailable && not is_updating

  abbrev round : List Content → Time → List Content
  round cs now =
      merged_contents cs un (content (determine_updating pool node is_updating is_updated now).1)
        (content (determine_available lns un now))
        (content (determine_degraded node is_degraded now))

  evaluated-round :
      (wall : Time) (existing : List Condition) (now : Time)
      → contents (evaluated wall existing now) ≡ round (contents existing) now
  unfolding determine_conditions
  evaluated-round wall existing now =
      ap contents (
        merge_conditions-merged api wall existing un
          (determine_updating pool node is_updating is_updated now).1
          (determine_available lns un now) (determine_degraded node is_degraded now))
      ∙ contents-merged wall existing un (determine_updating pool node is_updating is_updated now).1
          (determine_available lns un now) (determine_degraded node is_degraded now)

  round_later : (cs : List Content) (now now' : Time) → round cs now' ≡ round cs now
  round_later cs now now' = λ i.
      merged_contents cs un (updating-content pool node is_updating is_updated now now' i)
        (available-content lns un now now' i) (degraded-content node is_degraded now now' i)

  -- Evaluating again with the same findings, from the conditions of the evaluation before and at
  -- any later time, changes no type, status, reason, message or position of a condition, if the node
  -- is available or being updated, or if the first evaluation already found a Degraded condition.
  pub determine_conditions-stable :
      (wall wall' : Time) (existing : List Condition) (now now' : Time)
      → (un ≡ false) ⊎ (has_type degraded_type existing ≡ true)
      → contents (evaluated wall' (evaluated wall existing now) now')
        ≡ contents (evaluated wall existing now)
  determine_conditions-stable wall wall' existing now now' h =
      evaluated-round wall' (evaluated wall existing now) now'
      ∙ ap (λ cs. round cs now') (evaluated-round wall existing now)
      ∙ round_later (round (contents existing) now) now now'
      ∙ settled (content (determine_updating pool node is_updating is_updated now).1)
          (content (determine_available lns un now))
          (content (determine_degraded node is_degraded now))
          (updating_agrees pool node is_updating is_updated now).0 (available-type lns un now)
          (degraded-type node is_degraded now) (contents existing) un
          (subst (λ b. (un ≡ false) ⊎ (b ≡ true))
            (sym (has_content-contents degraded_type existing)) h)
      ∙ sym (evaluated-round wall existing now)

  -- A node that becomes unavailable on its first evaluation, with no existing conditions, is the
  -- exception: the second evaluation finds the same and yet returns the conditions in another order,
  -- Available after Degraded instead of before it.
  pub first_unavailable_reorders :
      (wall wall' now now' : Time)
      → un ≡ true
      → (map (λ c. c.type) (evaluated wall [] now)
          ≡ updating_type ∷ available_type ∷ degraded_type ∷ [])
        × (map (λ c. c.type) (evaluated wall' (evaluated wall [] now) now')
            ≡ updating_type ∷ degraded_type ∷ available_type ∷ [])
  first_unavailable_reorders wall wall' now now' h =
      let u = content (determine_updating pool node is_updating is_updated now).1 in
      let a = content (determine_available lns un now) in
      let d = content (determine_degraded node is_degraded now) in
      let hu = (updating_agrees pool node is_updating is_updated now).0 in
      let ha = available-type lns un now in
      let hd = degraded-type node is_degraded now in
      let one : contents (evaluated wall [] now) ≡ u ∷ a ∷ d ∷ [] =
        evaluated-round wall [] now
        ∙ ap (λ b. merged_contents [] b u a d) h
        ∙ first_round u a d hu ha hd in
      let two : contents (evaluated wall' (evaluated wall [] now) now') ≡ u ∷ d ∷ a ∷ [] =
        evaluated-round wall' (evaluated wall [] now) now'
        ∙ round_later (contents (evaluated wall [] now)) now now'
        ∙ ap (λ cs. merged_contents cs un u a d) one
        ∙ ap (λ b. merged_contents (u ∷ a ∷ d ∷ []) b u a d) h
        ∙ second_round u a d hu ha hd in
      (
        types-contents (evaluated wall [] now)
            ∙ ap (map (λ k. k.type)) one
            ∙ (λ i. hu i ∷ ha i ∷ hd i ∷ []),
        types-contents (evaluated wall' (evaluated wall [] now) now')
            ∙ ap (map (λ k. k.type)) two
            ∙ (λ i. hu i ∷ hd i ∷ ha i ∷ []),
      )
