-- ===== src/NodeState/Walks.antt =====
-- What the store of node states promises (internal/controller/nodestate/state.go).
use openshift_update_experie.Prelude.{
  append_assoc, append_nil, ℕ, suc, ◌+◌, String, ◌≡◌, refl, ◌∙◌, ap, sym, true, Bool-cases, inl,
  inr, List, [], ◌∷◌, ◌++◌, none, some, if◌then◌else◌, ◌==◌, lookup-insert, lookup-remove, length,
  select, arith,
}
use openshift_update_experie.Mco.{is_some}
use openshift_update_experie.NodeState.State.{NodeState}
use openshift_update_experie.NodeState.States.{
  Store, get_state, set_state, delete_state, range, count_states, get_all, get_by_pool,
}

-- The states in the order of the entries.
abbrev pub states_of : Store → List NodeState
states_of [] = []
states_of ((_, state) ∷ s) = state ∷ states_of s

pub get_state-delete_state :
    (s : Store) (name other : String)
    → get_state (delete_state s name).0 other ≡ (if name == other then none else get_state s other)
unfolding get_state delete_state
get_state-delete_state s name other = lookup-remove name other s

-- Reading a name after a write or a deletion of any name, and what a deletion answers.
pub get_state-after :
    (s : Store) (name other : String) (state : NodeState)
    → (get_state (set_state s name state) other
        ≡ (if name == other then some state else get_state s other))
      × (get_state (delete_state s name).0 other
          ≡ (if name == other then none else get_state s other))
      × ((delete_state s name).1 ≡ is_some (get_state s name))
unfolding get_state set_state delete_state
get_state-after s name other state =
    (lookup-insert name other state s, lookup-remove name other s, refl)

count_from : (s : Store) (n : ℕ) → range (λ _ _ n. (suc n, true)) s n ≡ n + length (states_of s)
unfolding range
count_from [] n = omega arith
count_from ((k, x) ∷ s) n = omega (arith, count_from s (suc n))

all_from :
    (s : Store) (acc : List NodeState)
    → range (λ _ state states. (states ++ state ∷ [], true)) s acc ≡ acc ++ states_of s
unfolding range
all_from [] acc = rw (append_nil acc) refl
all_from ((k, x) ∷ s) acc = all_from s (acc ++ x ∷ []) ∙ append_assoc acc (x ∷ []) (states_of s)

pool_from :
    (s : Store) (pool : String) (acc : List NodeState)
    → range
        (λ _ state states.
          (if state.pool_ref.name == pool then states ++ state ∷ [] else states, true))
        s
        acc
      ≡ acc ++ select (λ state. state.pool_ref.name == pool) (states_of s)
unfolding range
pool_from [] pool acc = rw (append_nil acc) refl
pool_from ((k, x) ∷ s) pool acc = elim (Bool-cases (x.pool_ref.name == pool)) [
  | inl e ↦ rw e (
      pool_from s pool (acc ++ x ∷ [])
      ∙ append_assoc acc (x ∷ []) (select (λ state. state.pool_ref.name == pool) (states_of s)))
  | inr e ↦ rw e (pool_from s pool acc)
]

-- The three walks over the store agree: the number of states is the length of the list of them all,
-- and the states of a pool are those of the list whose pool has the name.
walks_agree :
    (s : Store) (pool : String)
    → (count_states s ≡ length (get_all s))
      × (get_by_pool s pool ≡ select (λ state. state.pool_ref.name == pool) (get_all s))
unfolding count_states get_all get_by_pool
walks_agree s pool =
    let listed = all_from s [] in
    (
      rw (count_from s 0, listed) (omega arith),
      pool_from s pool [] ∙ ap (select (λ state. state.pool_ref.name == pool)) (sym listed),
    )
