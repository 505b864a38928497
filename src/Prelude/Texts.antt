-- ===== src/Prelude/Texts.antt =====
-- Texts, and Go's maps with text keys as association lists.
use Prim.Native.Char.{Char, code}
use Prim.Native.Nat.{ℕ}
use Prim.Native.String.{String, ◌++◌}
use mathlib.Core.Path.{◌≡◌, refl}
use mathlib.Core.Bool.{◌&&◌}
use mathlib.Core.Option.{Option, none, some}
use mathlib.Core.List.{List, [], ◌∷◌}
use native.Mathlib.Omega.{arith}
use text.Mathlib.Text.{◌==◌}
use text.Mathlib.TextEquality.{eq_iff}
use openshift_update_experie.Prelude.Tests.{if◌then◌else◌, eqb}

infixr 66 ◌<>◌
-- Concatenation of texts.
abbrev pub ◌<>◌ : String → String → String
s <> t = s ++ t

-- `strings.Join`.
abbrev pub join : String → List String → String
join sep [] = ""
join sep (x ∷ []) = x
join sep (x ∷ y ∷ rest) = x <> sep <> join sep (y ∷ rest)

-- `strings.Split(s, sep)[0]` at a separator of one character: the text before its first occurrence.
abbrev pub before_first : ℕ → String → String
before_first sep String.[] = String.[]
before_first sep (String.◌∷◌ c s) =
    if eqb (code c) sep then String.[] else String.◌∷◌ c (before_first sep s)

-- `strings.TrimRight` with one character.
unfoldable pub trim_right : ℕ → String → String
trim_right char String.[] = String.[]
trim_right char (String.◌∷◌ c s) =
    let rest = trim_right char s in
    if eqb (code c) char && rest == "" then String.[] else String.◌∷◌ c rest

-- The letter in the place of `c`, if a letter of the alphabet is `c`.
abbrev pub replaced : String → String → Char → Char
replaced String.[] lower c = c
replaced (String.◌∷◌ u us) String.[] c = c
replaced (String.◌∷◌ u us) (String.◌∷◌ l ls) c =
    if eqb (code u) (code c) then l else replaced us ls c

-- `strings.ToLower` on a text in ASCII.
unfoldable pub to_lower : String → String
to_lower String.[] = String.[]
to_lower (String.◌∷◌ c s) =
    String.◌∷◌ (replaced "ABCDEFGHIJKLMNOPQRSTUVWXYZ" "abcdefghijklmnopqrstuvwxyz" c) (to_lower s)

abbrev pub onto_first : (String → String) → List String → List String
onto_first f [] = f "" ∷ []
onto_first f (part ∷ parts) = f part ∷ parts

-- `strings.Split(s, sep)` at a separator of one character.
unfoldable pub split_on : ℕ → String → List String
split_on sep String.[] = "" ∷ []
split_on sep (String.◌∷◌ c s) =
    let parts = split_on sep s in
    if eqb (code c) sep then "" ∷ parts else onto_first (λ part. String.◌∷◌ c part) parts

module _ {ℓ} {A : Type ℓ} where
  -- `v, ok := m[k]`.
  unfoldable pub lookup : String → List (String × A) → Option A
  lookup key [] = none
  lookup key ((name, value) ∷ entries) = if name == key then some value else lookup key entries

  -- `m[k] = v`.
  unfoldable pub insert : String → A → List (String × A) → List (String × A)
  insert key new [] = (key, new) ∷ []
  insert key new ((name, value) ∷ entries) =
      if name == key then (name, new) ∷ entries else (name, value) ∷ insert key new entries

  -- `delete(m, k)`.
  unfoldable pub remove : String → List (String × A) → List (String × A)
  remove key [] = []
  remove key ((name, value) ∷ entries) =
      let kept = remove key entries in if name == key then kept else (name, value) ∷ kept

  pub lookup-insert :
      (key other : String) (new : A) (entries : List (String × A))
      → lookup other (insert key new entries)
        ≡ (if key == other then some new else lookup other entries)
  unfolding lookup insert
  lookup-insert key other new [] = refl
  lookup-insert key other new ((name, value) ∷ entries) = ground (
    arith,
    lookup-insert key other new entries,
    eq_iff name key,
    eq_iff key other,
    eq_iff name other,
  )

  pub lookup-remove :
      (key other : String) (entries : List (String × A))
      → lookup other (remove key entries) ≡ (if key == other then none else lookup other entries)
  unfolding lookup remove
  lookup-remove key other [] = ground arith
  lookup-remove key other ((name, value) ∷ entries) =
      ground (
        arith,
        lookup-remove key other entries,
        eq_iff name key,
        eq_iff key other,
        eq_iff name other,
      )
