-- ===== src/Meta/Lookup.antt =====
-- Finding a condition of a type in a filtered or extended list.
use openshift_update_experie.Prelude.{
  String, ◌≡◌, refl, Bool, true, List, [], ◌∷◌, ◌++◌, none, some, if◌then◌else◌, ◌==◌, select,
  arith, ◌||◌, ◌&&◌, eq_iff,
}
use openshift_update_experie.Meta.Defs.{Condition, has_type, Time}
use openshift_update_experie.Meta.Laws.{condition_of, put}

-- What a filter keeps of a type, when it passes or drops all conditions of that type.
pub condition_of-select :
    (p : Condition → Bool) (t : String) (cs : List Condition) (keep : Bool)
    → ((c : Condition) → (c.type == t) ≡ true → p c ≡ keep)
    → condition_of t (select p cs) ≡ (if keep then condition_of t cs else none)
unfolding condition_of
condition_of-select p t [] keep h = ground arith
condition_of-select p t (c ∷ cs) keep h = ground (arith, h c, condition_of-select p t cs keep h)

pub condition_of-append :
    (t : String) (cs : List Condition) (c : Condition)
    → condition_of t (cs ++ c ∷ [])
      ≡ (if has_type t cs then condition_of t cs else if c.type == t then some c else none)
unfolding condition_of
condition_of-append t [] c = refl
condition_of-append t (x ∷ cs) c = ground (arith, condition_of-append t cs c)

pub condition_of-guarded :
    (t : String) (cs : List Condition)
    → (if has_type t cs then condition_of t cs else none) ≡ condition_of t cs
unfolding condition_of
condition_of-guarded t [] = refl
condition_of-guarded t (c ∷ cs) = ground (arith, condition_of-guarded t cs)

pub has_type-put :
    (wall : Time) (c : Condition) (t : String) (cs : List Condition)
    → has_type t (put wall c cs) ≡ (has_type t cs || c.type == t)
unfolding put
has_type-put wall c t [] = ground arith
has_type-put wall c t (x ∷ cs) = ground (arith, eq_iff x.type c.type, has_type-put wall c t cs)

pub has_type-select :
    (p : Condition → Bool) (t : String) (cs : List Condition) (keep : Bool)
    → ((c : Condition) → (c.type == t) ≡ true → p c ≡ keep)
    → has_type t (select p cs) ≡ (keep && has_type t cs)
has_type-select p t [] keep h = ground arith
has_type-select p t (c ∷ cs) keep h = ground (arith, h c, has_type-select p t cs keep h)
