-- ===== src/NodeState/States.antt =====
-- `Store` of internal/controller/nodestate/state.go: a `sync.Map` from node names to states. The
-- order of the list stands for the order in which `Range` happens to visit the entries.
use openshift_update_experie.Prelude.{
  ℕ, suc, String, Bool, true, List, [], ◌∷◌, ◌++◌, Option, if◌then◌else◌, ◌==◌, lookup, insert,
  remove,
}
use openshift_update_experie.Mco.{is_some}
use openshift_update_experie.NodeState.State.{NodeState}

abbrev pub Store : Type 0
Store = List (String × NodeState)

unfoldable pub get_state : Store → String → Option NodeState
get_state s name = lookup name s

unfoldable pub set_state : Store → String → NodeState → Store
set_state s name state = insert name state s

-- `LoadAndDelete`.
unfoldable pub delete_state : Store → String → Store × Bool
delete_state s name = (remove name s, is_some (lookup name s))

-- `Range`: the callback works on the caller's variables `A` and says whether to go on.
unfoldable pub range {ℓ} : {A : Type ℓ} → (String → NodeState → A → A × Bool) → Store → A → A
range f [] a = a
range f ((name, state) ∷ s) a =
    let rest = range f s (f name state a).0 in
    if (f name state a).1 then rest else (f name state a).0

unfoldable pub count_states : Store → ℕ
unfolding range
count_states s = range (λ _ _ n. (suc n, true)) s 0

unfoldable pub get_all : Store → List NodeState
unfolding range
get_all s = range (λ _ state states. (states ++ state ∷ [], true)) s []

unfoldable pub get_by_pool : Store → String → List NodeState
unfolding range
get_by_pool s pool =
    range
      (λ _ state states.
        (if state.pool_ref.name == pool then states ++ state ∷ [] else states, true))
      s []
