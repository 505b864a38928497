-- ===== src/Meta/Contents.antt =====
-- The condition helpers at the level of contents, where times are left out.
use openshift_update_experie.Prelude.{
  String, ◌≡◌, refl, sym, subst, Bool, true, List, [], ◌∷◌, ◌++◌, Option, none, some, if◌then◌else◌,
  ◌==◌, eq_iff, select, arith, ◌||◌, any, all,
}
use openshift_update_experie.Meta.Defs.{Condition, Time, stamp}
use openshift_update_experie.Meta.Laws.{put, Content, content, contents}

unfoldable pub put_content : Content → List Content → List Content
put_content c [] = c ∷ []
put_content c (o ∷ cs) = if o.type == c.type then c ∷ cs else o ∷ put_content c cs

unfoldable pub find_content : String → List Content → Option Content
find_content t [] = none
find_content t (c ∷ cs) = if c.type == t then some c else find_content t cs

abbrev pub has_content : String → List Content → Bool
has_content t = any (λ c. c.type == t)

pub contents-put :
    (wall : Time) (c : Condition) (cs : List Condition)
    → contents (put wall c cs) ≡ put_content (content c) (contents cs)
unfolding put put_content
contents-put wall c [] = refl
contents-put wall c (o ∷ cs) = ground (arith, contents-put wall c cs)

pub contents-select :
    (p : Content → Bool) (cs : List Condition)
    → contents (select (λ c. p (content c)) cs) ≡ select p (contents cs)
contents-select p [] = refl
contents-select p (c ∷ cs) = ground (arith, contents-select p cs)

pub contents-append : (xs ys : List Condition) → contents (xs ++ ys) ≡ contents xs ++ contents ys
contents-append [] ys = refl
contents-append (x ∷ xs) ys = ground (arith, contents-append xs ys)

put_content_same :
    (c : Content) (cs : List Content) → find_content c.type cs ≡ some c → put_content c cs ≡ cs
unfolding put_content find_content
put_content_same c [] h = cc
put_content_same c (o ∷ cs) h = ground (arith, put_content_same c cs)

-- Putting what is there already changes nothing.
pub put_content_at :
    (t : String) (c : Content) (cs : List Content)
    → c.type ≡ t
    → find_content t cs ≡ some c
    → put_content c cs ≡ cs
put_content_at t c cs e h =
    put_content_same c cs (subst (λ t'. find_content t' cs ≡ some c) (sym e) h)

pub find_content-put_content :
    (c : Content) (t : String) (cs : List Content)
    → find_content t (put_content c cs) ≡ (if c.type == t then some c else find_content t cs)
unfolding put_content find_content
find_content-put_content c t [] = refl
find_content-put_content c t (o ∷ cs) =
    ground (
      arith,
      eq_iff o.type c.type,
      eq_iff c.type t,
      eq_iff o.type t,
      find_content-put_content c t cs,
    )

find_content-append :
    (t : String) (xs ys : List Content)
    → find_content t (xs ++ ys)
      ≡ (if has_content t xs then find_content t xs else find_content t ys)
unfolding find_content
find_content-append t [] ys = refl
find_content-append t (x ∷ xs) ys = ground (arith, find_content-append t xs ys)

pub put_content-append :
    (c : Content) (xs ys : List Content)
    → has_content c.type xs ≡ true
    → put_content c (xs ++ ys) ≡ put_content c xs ++ ys
unfolding put_content
put_content-append c [] ys h = cc
put_content-append c (x ∷ xs) ys h = ground (arith, put_content-append c xs ys)

pub has_content-put_content :
    (c : Content) (t : String) (cs : List Content)
    → has_content t (put_content c cs) ≡ (has_content t cs || c.type == t)
unfolding put_content
has_content-put_content c t [] = ground arith
has_content-put_content c t (x ∷ cs) =
    ground (arith, eq_iff x.type c.type, has_content-put_content c t cs)

pub all-put_content :
    (p : Content → Bool) (c : Content) (cs : List Content)
    → p c ≡ true
    → all p cs ≡ true
    → all p (put_content c cs) ≡ true
unfolding put_content
all-put_content p c [] h hs = ground arith
all-put_content p c (x ∷ cs) h hs = ground (arith, all-put_content p c cs h)

module _ {ℓ} {A : Type ℓ} (p : A → Bool) where
  pub all-select : (cs : List A) → all p (select p cs) ≡ true
  all-select [] = refl
  all-select (c ∷ cs) = ground (arith, all-select cs)

  pub select-append : (xs ys : List A) → select p (xs ++ ys) ≡ select p xs ++ select p ys
  select-append [] ys = refl
  select-append (x ∷ xs) ys = ground (arith, select-append xs ys)

pub has_content-select :
    (p : Content → Bool) (t : String) (cs : List Content)
    → ((c : Content) → (c.type == t) ≡ true → p c ≡ true)
    → has_content t (select p cs) ≡ has_content t cs
has_content-select p t [] h = refl
has_content-select p t (c ∷ cs) h = ground (arith, h c, has_content-select p t cs h)

pub find_content-select :
    (p : Content → Bool) (t : String) (cs : List Content)
    → ((c : Content) → (c.type == t) ≡ true → p c ≡ true)
    → find_content t (select p cs) ≡ find_content t cs
unfolding find_content
find_content-select p t [] h = refl
find_content-select p t (c ∷ cs) h = ground (arith, h c, find_content-select p t cs h)

module _ {ℓ} {A : Type ℓ} (p : A → Bool) where
  pub all-append : (xs ys : List A) → all p xs ≡ true → all p ys ≡ true → all p (xs ++ ys) ≡ true
  all-append [] ys hx hy = hy
  all-append (x ∷ xs) ys hx hy = ground (arith, all-append xs ys)

  pub all-select_of_all :
      (q : A → Bool) (xs : List A) → all p xs ≡ true → all p (select q xs) ≡ true
  all-select_of_all q [] h = refl
  all-select_of_all q (x ∷ xs) h = ground (arith, all-select_of_all q xs)

pub find_content-append_some :
    (t : String) (xs ys : List Content) (c : Content)
    → find_content t xs ≡ some c
    → find_content t (xs ++ ys) ≡ some c
unfolding find_content
find_content-append_some t [] ys c h = cc
find_content-append_some t (x ∷ xs) ys c h = ground (arith, find_content-append_some t xs ys c)

pub all-put :
    (p : Condition → Bool) (wall : Time) (c : Condition) (cs : List Condition)
    → ((o : Option Condition) → p (stamp wall o c) ≡ true)
    → all p cs ≡ true
    → all p (put wall c cs) ≡ true
unfolding put
all-put p wall c [] h hs = ground (arith, h none)
all-put p wall c (x ∷ cs) h hs = ground (arith, h (some x), all-put p wall c cs h)
