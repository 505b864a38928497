-- ===== src/Mco/Since.antt =====
-- `GetUnavailableSince` of internal/mco/layered_node_state.go finds the earliest time.
use openshift_update_experie.Prelude.{◌≤◌, ◌≡◌, ◌≢◌, refl, ◌⊎◌, inl, inr, List, [], ◌∷◌, arith}
use openshift_update_experie.Meta.{Time}
use openshift_update_experie.Mco.NodeState.{
  BadCondition, LayeredNodeState, earliest, earlier, get_unavailable_since,
}

-- No condition with a time has an earlier one.
abbrev pub NoneBefore : Time → List BadCondition → Type 0
NoneBefore t [] = Unit {0}
NoneBefore t (c ∷ cs) =
    ((c.last_transition_time ≡ 0) ⊎ (t ≤ c.last_transition_time)) × NoneBefore t cs

-- A condition has this time.
abbrev pub OccursAt : Time → List BadCondition → Type 0
OccursAt t [] = ⊥
OccursAt t (c ∷ cs) = (c.last_transition_time ≡ t) ⊎ OccursAt t cs

-- No condition has a time.
abbrev pub Timeless : List BadCondition → Type 0
Timeless [] = Unit {0}
Timeless (c ∷ cs) = (c.last_transition_time ≡ 0) × Timeless cs

earliest-NoneBefore :
    (ret : Time) (cs : List BadCondition)
    → NoneBefore (earliest ret cs) cs × ((ret ≡ 0) ⊎ (earliest ret cs ≤ ret))
unfolding earliest
earliest-NoneBefore ret [] = (tt, inr (omega arith))
earliest-NoneBefore ret (c ∷ cs) = ground (arith, earliest-NoneBefore (earlier ret c) cs)

earliest-OccursAt :
    (ret : Time) (cs : List BadCondition) → (earliest ret cs ≡ ret) ⊎ OccursAt (earliest ret cs) cs
unfolding earliest
earliest-OccursAt ret [] = inl refl
earliest-OccursAt ret (c ∷ cs) = ground (arith, earliest-OccursAt (earlier ret c) cs)

earliest_zero :
    (ret : Time) (cs : List BadCondition) → earliest ret cs ≡ 0 → (ret ≡ 0) × Timeless cs
unfolding earliest
earliest_zero ret [] h = (h, tt)
earliest_zero ret (c ∷ cs) h = ground (arith, earliest_zero (earlier ret c) cs)

-- The time since when a node is unavailable is the zero time exactly if no reason has a time, and
-- otherwise it is the time of one of the reasons, and no reason with a time has an earlier one.
get_unavailable_since-earliest :
    (l : LayeredNodeState)
    → (((get_unavailable_since l ≡ 0) × Timeless l.unavailable)
        ⊎ ((get_unavailable_since l ≢ 0) × OccursAt (get_unavailable_since l) l.unavailable))
      × NoneBefore (get_unavailable_since l) l.unavailable
unfolding get_unavailable_since
get_unavailable_since-earliest l = ground (
  arith,
  earliest-NoneBefore 0 l.unavailable,
  earliest-OccursAt 0 l.unavailable,
  earliest_zero 0 l.unavailable,
)
