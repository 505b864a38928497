-- ===== src/NodeState/Filed.antt =====
-- A store that is in order: each state is filed under its node's name, once, and belongs to a pool
-- (internal/controller/nodestate/state.go).
use openshift_update_experie.Prelude.{
  String, ◌≡◌, refl, sym, ◌∙◌, false, [], ◌∷◌, none, ◌==◌, eq_iff, lookup, insert, remove,
  lookup-insert, lookup-remove, arith, Bool-cases, inl, inr,
}
use openshift_update_experie.NodeState.State.{NodeState}
use openshift_update_experie.NodeState.States.{Store, set_state, delete_state}

abbrev pub Filed : Store → Type 0
Filed [] = Unit
Filed ((name, state) ∷ s) =
    (state.name ≡ name) × ((state.pool_ref.name == "") ≡ false) × (lookup name s ≡ none) × Filed s

insert-Filed :
    (name : String) (state : NodeState) (s : Store)
    → state.name ≡ name
    → (state.pool_ref.name == "") ≡ false
    → Filed s
    → Filed (insert name state s)
unfolding insert lookup
insert-Filed name state [] h k f = (h, k, refl, tt)
insert-Filed name state ((other, old) ∷ s) h k (e, p, fresh, rest) =
    elim (Bool-cases (other == name)) [
      | inl q ↦ rw q (h ∙ sym ((eq_iff other name).0 q), k, fresh, rest)
      | inr q ↦ rw q (
        e,
        p,
        lookup-insert name other state s ∙ ground (arith, eq_iff name other, eq_iff other name),
        insert-Filed name state s h k rest,
      )
    ]

remove-Filed : (name : String) (s : Store) → Filed s → Filed (remove name s)
unfolding remove lookup
remove-Filed name [] f = tt
remove-Filed name ((other, old) ∷ s) (e, p, fresh, rest) = elim (Bool-cases (other == name)) [
  | inl q ↦ rw q (remove-Filed name s rest)
  | inr q ↦ rw q (e, p, lookup-remove name other s ∙ ground arith, remove-Filed name s rest)
]

pub set_state-Filed :
    (s : Store) (name : String) (state : NodeState)
    → state.name ≡ name
    → (state.pool_ref.name == "") ≡ false
    → Filed s
    → Filed (set_state s name state)
unfolding set_state
set_state-Filed s name state h k f = insert-Filed name state s h k f

pub delete_state-Filed : (s : Store) (name : String) → Filed s → Filed (delete_state s name).0
unfolding delete_state
delete_state-Filed s name f = remove-Filed name s f
