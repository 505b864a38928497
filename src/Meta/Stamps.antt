-- ===== src/Meta/Stamps.antt =====
-- Times of conditions that are set again.
use openshift_update_experie.Prelude.{
  String, ◌≡◌, refl, ◌∙◌, ap, true, false, List, [], ◌∷◌, Option, none, some, ◌==◌, eq_iff, eq_refl,
  arith, as_list, sym, inl, inr, Bool-cases,
}
use openshift_update_experie.Meta.Defs.{
  Time, Condition, ConditionsApi, ConditionStatus, condition_true, condition_false,
  condition_unknown, condition_other, stamp, status_eq,
}
use openshift_update_experie.Meta.Laws.{
  condition_of, put, condition_of-put, set_status_condition-put,
}

pub status_eq_same : (s : ConditionStatus) → status_eq s s ≡ true
status_eq_same condition_true = refl
status_eq_same condition_false = refl
status_eq_same condition_unknown = refl
status_eq_same (condition_other s) = ground (arith, eq_iff s s)

pub condition_of-type :
    (t : String) (cs : List Condition) (c : Condition) → condition_of t cs ≡ some c → c.type ≡ t
unfolding condition_of
condition_of-type t [] c h = cc
condition_of-type t (x ∷ cs) c h = ground (arith, eq_iff x.type t, condition_of-type t cs c)

-- The same condition set again, with a later time, changes nothing.
pub stamp_again :
    (wall later now : Time) (old : Option Condition) (u : Condition)
    → stamp later (some (stamp wall old u)) (record u { last_transition_time = now })
      ≡ stamp wall old u
stamp_again wall later now none u = rw (status_eq_same u.status) refl
stamp_again wall later now (some old) u = rw (status_eq_same u.status) refl

-- A condition set where at most one of its type is, and nothing else.
pub put_alone : (wall : Time) (u : Condition) → put wall u [] ≡ stamp wall none u ∷ []
unfolding put
put_alone wall u = refl

pub put_after :
    (wall : Time) (x u : Condition) (cs : List Condition)
    → (x.type == u.type) ≡ false
    → put wall u (x ∷ cs) ≡ x ∷ put wall u cs
unfolding put
put_after wall x u cs h = rw h refl

pub put_over :
    (wall : Time) (x u : Condition) (cs : List Condition)
    → x.type ≡ u.type
    → put wall u (x ∷ cs) ≡ stamp wall (some x) u ∷ cs
unfolding put
put_over wall x u cs h = rw ((eq_iff _ _).1 h) refl

some_injective : (x y : Condition) → some x ≡ some y → x ≡ y
some_injective x y h = cc h

here :
    (t : String) (x : Condition) (cs : List Condition)
    → (x.type == t) ≡ true
    → some x ≡ condition_of t (x ∷ cs)
unfolding condition_of
here t x cs e = rw e refl

there :
    (t : String) (x : Condition) (cs : List Condition)
    → (x.type == t) ≡ false
    → condition_of t (x ∷ cs) ≡ condition_of t cs
unfolding condition_of
there t x cs e = rw e refl

-- What the condition helpers stored is not changed by storing the same again.
put_again :
    (wall later : Time) (old : Option Condition) (u : Condition) (cs : List Condition)
    → record u { last_transition_time = 0 } ≡ u
    → condition_of u.type cs ≡ some (stamp wall old u)
    → put later u cs ≡ cs
unfolding put condition_of
put_again wall later old u [] z h = cc h
put_again wall later old u (x ∷ cs) z h = elim (Bool-cases (x.type == u.type)) [
  | inl e ↦
      let same : x ≡ stamp wall old u =
        some_injective x (stamp wall old u) (here u.type x cs e ∙ h) in
      rw e (
        ap (λ y. stamp later (some y) u ∷ cs) same
        ∙ ap (λ w. stamp later (some (stamp wall old u)) w ∷ cs) (sym z)
        ∙ ap (λ y. y ∷ cs) (stamp_again wall later 0 old u)
        ∙ ap (λ y. y ∷ cs) (sym same))
  | inr e ↦ rw e (ap (λ l. x ∷ l) (put_again wall later old u cs z (sym (there u.type x cs e) ∙ h)))
]

pub stamp-type :
    (wall : Time) (old : Option Condition) (u : Condition) → (stamp wall old u).type ≡ u.type
stamp-type wall none u = refl
stamp-type wall (some o) u = refl

-- Two conditions of different types set again over what they gave.
pub put_both_again :
    (wall later : Time) (u v : Condition) (cs : List Condition)
    → record u { last_transition_time = 0 } ≡ u
    → record v { last_transition_time = 0 } ≡ v
    → (u.type == v.type) ≡ false
    → put later v (put later u (put wall v (put wall u cs))) ≡ put wall v (put wall u cs)
put_both_again wall later u v cs hu hv d =
    let l = put wall v (put wall u cs) in
    let u_there : condition_of u.type l ≡ some (stamp wall (condition_of u.type cs) u) =
      condition_of-put wall v u.type (put wall u cs)
      ∙ ground (
        arith,
        eq_iff u.type v.type,
        eq_iff v.type u.type,
        eq_iff u.type u.type,
        condition_of-put wall u u.type cs,
      ) in
    let v_there : condition_of v.type l
        ≡ some (stamp wall (condition_of v.type (put wall u cs)) v) =
      condition_of-put wall v v.type (put wall u cs) ∙ rw (eq_refl v.type) refl in
    ap (put later v) (put_again wall later (condition_of u.type cs) u l hu u_there)
    ∙ put_again wall later (condition_of v.type (put wall u cs)) v l hv v_there

-- A condition set where there is only its predecessor, if any.
module _ (api : ConditionsApi) where
  pub set_first :
      (wall : Time) (old : Option Condition) (u : Condition)
      → ((c : Condition) → old ≡ some c → c.type ≡ u.type)
      → api.set_status_condition wall (as_list old) u ≡ stamp wall old u ∷ []
  set_first wall none u h = set_status_condition-put api wall [] u ∙ put_alone wall u
  set_first wall (some c) u h =
      set_status_condition-put api wall (c ∷ []) u ∙ put_over wall c u [] (h c refl)
