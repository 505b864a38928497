-- ===== src/Meta/Defs.antt =====
-- Conditions of Kubernetes objects, and the helpers that the program calls on them.
use openshift_update_experie.Prelude.{
  ℕ, String, ◌≡◌, Bool, true, false, List, [], ◌∷◌, ◌++◌, Option, none, some, if◌then◌else◌, eqb,
  any, ◌==◌,
}

-- An instant, in nanoseconds after the zero `time.Time`, which is 0.
abbrev pub Time : Type 0
Time = ℕ

abbrev pub is_zero : Time → Bool
is_zero t = eqb t 0

-- The type is a Go string: a value that is none of the three constants is `condition_other`.
pub data ConditionStatus : Type 0 where
  condition_true condition_false condition_unknown : ConditionStatus
  condition_other : String → ConditionStatus

abbrev pub status_name : ConditionStatus → String
status_name condition_true = "True"
status_name condition_false = "False"
status_name condition_unknown = "Unknown"
status_name (condition_other s) = s

abbrev pub status_eq : ConditionStatus → ConditionStatus → Bool
status_eq condition_true condition_true = true
status_eq condition_false condition_false = true
status_eq condition_unknown condition_unknown = true
status_eq (condition_other s) (condition_other t) = s == t
status_eq _ _ = false

pub record Condition : Type 0 where
  pub type : String
  pub status : ConditionStatus
  pub reason : String
  pub message : String
  pub last_transition_time : Time

abbrev pub has_type : String → List Condition → Bool
has_type t = any (λ c. c.type == t)

-- A condition without a time takes the time of the call.
abbrev pub or_wall : Time → Time → Time
or_wall wall t = if is_zero t then wall else t

-- What is stored for `c`, given the condition of the same type that was there.
abbrev pub stamp : Time → Option Condition → Condition → Condition
stamp wall none c = record c { last_transition_time = or_wall wall c.last_transition_time }
stamp wall (some old) c = record c {
  last_transition_time =
      if status_eq old.status c.status
      then old.last_transition_time
      else or_wall wall c.last_transition_time;
}

-- `meta.SetStatusCondition` and `meta.FindStatusCondition`, with what their documentation says. The
-- first argument of the former is the time of the call, which it reads from the clock.
pub record ConditionsApi : Type 0 where
  pub set_status_condition : Time → List Condition → Condition → List Condition
  pub find_status_condition : List Condition → String → Option Condition
  pub set_appends :
      (wall : Time) (cs : List Condition) (c : Condition)
      → has_type c.type cs ≡ false
      → set_status_condition wall cs c ≡ cs ++ stamp wall none c ∷ []
  pub set_updates :
      (wall : Time) (pre post : List Condition) (old c : Condition)
      → has_type c.type pre ≡ false
      → old.type ≡ c.type
      → set_status_condition wall (pre ++ old ∷ post) c ≡ pre ++ stamp wall (some old) c ∷ post
  pub find_misses :
      (t : String) (cs : List Condition) → has_type t cs ≡ false → find_status_condition cs t ≡ none
  pub find_first :
      (t : String) (pre post : List Condition) (old : Condition)
      → has_type t pre ≡ false
      → old.type ≡ t
      → find_status_condition (pre ++ old ∷ post) t ≡ some old
