-- ===== src/Meta/Laws.antt =====
-- What the laws of the condition helpers determine: each helper agrees with a plain recursion.
use openshift_update_experie.Prelude.{
  String, ◌≡◌, refl, sym, ◌∙◌, ap, Bool, false, List, [], ◌∷◌, ◌++◌, map, Option, none, some,
  if◌then◌else◌, ◌==◌, eq_iff, arith, Bool-cases, inl, inr, count, ℕ, any-append,
}
use mathlib.Core.List.{append-nil, append_assoc}
use openshift_update_experie.Meta.Defs.{
  Time, Condition, ConditionStatus, ConditionsApi, has_type, stamp,
}

-- The first condition of a type.
unfoldable pub condition_of : String → List Condition → Option Condition
condition_of t [] = none
condition_of t (c ∷ cs) = if c.type == t then some c else condition_of t cs

-- Replace the first condition of the type of `c`, or append.
unfoldable pub put : Time → Condition → List Condition → List Condition
put wall c [] = stamp wall none c ∷ []
put wall c (o ∷ cs) = if o.type == c.type then stamp wall (some o) c ∷ cs else o ∷ put wall c cs

-- The parts of a condition that say something of the object, without the time.
pub record Content : Type 0 where
  pub type : String
  pub status : ConditionStatus
  pub reason : String
  pub message : String

abbrev pub content : Condition → Content
content c = record { type = c.type; status = c.status; reason = c.reason; message = c.message }

abbrev pub contents : List Condition → List Content
contents = map content

module _ (api : ConditionsApi) where
  set-prefix :
      (wall : Time) (c : Condition) (pre cs : List Condition)
      → has_type c.type pre ≡ false
      → api.set_status_condition wall (pre ++ cs) c ≡ pre ++ put wall c cs
  unfolding put
  set-prefix wall c pre [] h = rw append-nil (api.set_appends wall pre c h)
  set-prefix wall c pre (o ∷ cs) h = elim (Bool-cases (o.type == c.type)) [
    | inl e ↦ rw e (api.set_updates wall pre cs o c h ((eq_iff _ _).0 e))
    | inr e ↦ rw e (
        ap (λ l. api.set_status_condition wall l c) (sym (append_assoc pre (o ∷ []) cs))
        ∙ set-prefix wall c (pre ++ o ∷ []) cs (any-append _ pre (o ∷ []) ∙ ground (arith, h, e))
        ∙ append_assoc pre (o ∷ []) (put wall c cs))
  ]

  find-prefix :
      (t : String) (pre cs : List Condition)
      → has_type t pre ≡ false
      → api.find_status_condition (pre ++ cs) t ≡ condition_of t cs
  unfolding condition_of
  find-prefix t pre [] h = rw append-nil (api.find_misses t pre h)
  find-prefix t pre (o ∷ cs) h = elim (Bool-cases (o.type == t)) [
    | inl e ↦ rw e (api.find_first t pre cs o h ((eq_iff _ _).0 e))
    | inr e ↦ rw e (
        ap (λ l. api.find_status_condition l t) (sym (append_assoc pre (o ∷ []) cs))
        ∙ find-prefix t (pre ++ o ∷ []) cs (any-append _ pre (o ∷ []) ∙ ground (arith, h, e)))
  ]

  pub set_status_condition-put :
      (wall : Time) (cs : List Condition) (c : Condition)
      → api.set_status_condition wall cs c ≡ put wall c cs
  set_status_condition-put wall cs c = set-prefix wall c [] cs refl

  pub find_status_condition-condition_of :
      (cs : List Condition) (t : String) → api.find_status_condition cs t ≡ condition_of t cs
  find_status_condition-condition_of cs t = find-prefix t [] cs refl

pub condition_of-put :
    (wall : Time) (c : Condition) (t : String) (cs : List Condition)
    → condition_of t (put wall c cs)
      ≡ (if c.type == t then some (stamp wall (condition_of t cs) c) else condition_of t cs)
unfolding condition_of put
condition_of-put wall c t [] = refl
condition_of-put wall c t (o ∷ cs) =
    ground
      (arith, eq_iff o.type c.type, eq_iff c.type t, eq_iff o.type t, condition_of-put wall c t cs)

-- Storing what is already there leaves the contents alone.
contents-put_same :
    (wall : Time) (c : Condition) (cs : List Condition) {o : Condition}
    → condition_of c.type cs ≡ some o
    → content o ≡ content c
    → contents (put wall c cs) ≡ contents cs
unfolding condition_of put
contents-put_same wall c [] h e = cc
contents-put_same wall c (x ∷ cs) {o} h e = ground (arith, contents-put_same wall c cs {o = o})

abbrev of_type : String → Condition → Bool
of_type t c = c.type == t

-- How many conditions have the type.
abbrev pub occurrences : String → List Condition → ℕ
occurrences t = count (of_type t)

pub occurrences-put :
    (wall : Time) (c : Condition) (t : String) (cs : List Condition)
    → occurrences t (put wall c cs)
      ≡ (if c.type == t then (if has_type t cs then occurrences t cs else 1) else occurrences t cs)
unfolding put
occurrences-put wall c t [] = ground arith
occurrences-put wall c t (o ∷ cs) =
    ground
      (arith, eq_iff o.type c.type, eq_iff c.type t, eq_iff o.type t, occurrences-put wall c t cs)
