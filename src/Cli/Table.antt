-- ===== src/Cli/Table.antt =====
-- The table of updating operators (cmd/oc-update-status/controlplane.go).
use Prim.Native.Char.{Char, code}
use openshift_update_experie.Prelude.{
  ℕ, String, ◌≡◌, refl, Bool, true, false, not, ◌&&◌, ◌||◌, List, [], ◌∷◌, if◌then◌else◌, if-elim,
  ◌==◌, eq_iff, eqb, any, all, arith, Bool-cases, inl, inr, split_on, trim_right, onto_first,
  sub_times,
}
use openshift_update_experie.Meta.{Time}
use openshift_update_experie.Cli.ControlPlane.{
  Operator, Row, operator_row, further_row, line_rows, operator_rows,
}

abbrev has_other : ℕ → String → Bool
has_other c String.[] = false
has_other c (String.◌∷◌ x s) = not (eqb (code x) c) || has_other c s

abbrev pub is_further : Row → Bool
is_further (operator_row name since reason line) = false
is_further (further_row line) = true

trimmed :
    (c : ℕ) (x : Char) (rest : String) (a b : Bool)
    → eqb (code x) c ≡ a
    → (b ≡ false → has_other c rest ≡ true)
    → ((if a && b then String.[] else String.◌∷◌ x rest) == "") ≡ false
    → has_other c (if a && b then String.[] else String.◌∷◌ x rest) ≡ true
trimmed c x rest true true e ih h = cc h
trimmed c x rest true false e ih h = rw e (ih refl)
trimmed c x rest false b e ih h = rw e refl

-- What is left after trimming is empty or has a character that is not trimmed.
trim_right-has_other :
    (c : ℕ) (s : String) → (trim_right c s == "") ≡ false → has_other c (trim_right c s) ≡ true
unfolding trim_right
trim_right-has_other c String.[] h = cc h
trim_right-has_other c (String.◌∷◌ x s) h =
    trimmed c x (trim_right c s) (eqb (code x) c) (trim_right c s == "") refl
      (trim_right-has_other c s) h

cons_nonempty : (x : Char) (s : String) → (String.◌∷◌ x s == "") ≡ false
cons_nonempty x s = elim (Bool-cases (String.◌∷◌ x s == "")) [
  | inl e ↦ cc ((eq_iff (String.◌∷◌ x s) "").0 e)
  | inr e ↦ e
]

onto_first-nonempty :
    (x : Char) (parts : List String)
    → any (λ line. not (line == "")) (onto_first (λ part. String.◌∷◌ x part) parts) ≡ true
onto_first-nonempty x [] = rw (cons_nonempty x "") refl
onto_first-nonempty x (part ∷ parts) = rw (cons_nonempty x part) refl

lined :
    (c : ℕ) (x : Char) (s : String) (a : Bool)
    → eqb (code x) c ≡ a
    → (has_other c s ≡ true → any (λ line. not (line == "")) (split_on c s) ≡ true)
    → has_other c (String.◌∷◌ x s) ≡ true
    → any
        (λ line. not (line == ""))
        (if a then "" ∷ split_on c s else onto_first (λ part. String.◌∷◌ x part) (split_on c s))
      ≡ true
lined c x s true e ih h = ih (ground arith)
lined c x s false e ih h = onto_first-nonempty x (split_on c s)

-- So one of its lines is not empty.
split_on-nonempty :
    (c : ℕ) (s : String)
    → has_other c s ≡ true
    → any (λ line. not (line == "")) (split_on c s) ≡ true
unfolding split_on
split_on-nonempty c String.[] h = cc h
split_on-nonempty c (String.◌∷◌ x s) h = lined c x s (eqb (code x) c) refl (split_on-nonempty c s) h

further_only :
    (o : Operator) (now : Time) (lines : List String)
    → all is_further (line_rows o now false lines) ≡ true
unfolding line_rows
further_only o now [] = refl
further_only o now (line ∷ lines) =
    if-elim (λ rows. all is_further rows ≡ true) (line == "") (line_rows o now false lines)
      (further_row line ∷ line_rows o now false lines) (further_only o now lines)
      (further_only o now lines)

-- The rows of one operator, from the first one on.
abbrev pub Headed : Operator → Time → List Row → Type 0
Headed o now rows =
    (line : String) × (rest : List Row) × (rows
      ≡ operator_row o.name (sub_times now o.condition.last_transition_time)
          (if o.condition.reason == "" then "-" else o.condition.reason) line
        ∷ rest)
    × (all is_further rest ≡ true)

first_named :
    (o : Operator) (now : Time) (lines : List String)
    → any (λ line. not (line == "")) lines ≡ true
    → Headed o now (line_rows o now true lines)
unfolding line_rows
first_named o now [] h = cc h
first_named o now (line ∷ lines) h = elim (Bool-cases (line == "")) [
  | inl e ↦ rw e (first_named o now lines (ground arith))
  | inr e ↦ rw e (line, line_rows o now false lines, refl, further_only o now lines)
]

-- Whatever its message, an operator has one row with its name, the time since its condition and its
-- reason, or a dash if there is none; it comes first, and the rows after it hold further lines only.
pub operator_rows_lem : (o : Operator) (now : Time) → Headed o now (operator_rows o now)
unfolding operator_rows
operator_rows_lem o now =
    let message = trim_right b'\n' o.condition.message in
    elim (Bool-cases (message == "")) [
      | inl e ↦ rw e ("", [], refl, refl)
      | inr e ↦ rw e (
          first_named o now (split_on b'\n' message)
            (split_on-nonempty b'\n' message (trim_right-has_other b'\n' o.condition.message e)))
    ]
