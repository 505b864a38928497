-- ===== src/Cli/ControlPlane.antt =====
-- cmd/oc-update-status/controlplane.go: what the command shows of the control plane. Of a duration
-- its text is left out; a completion, which is shown as a float64, is kept as its int32.
use openshift_update_experie.Prelude.{
  ℕ, ◌*◌, ◌-◌, suc, ℤ, pos, negsuc, exceeds, sub_times, round_duration, String, Bool, true, false,
  not, ◌&&◌, ◌||◌, List, [], ◌∷◌, ◌++◌, map, Option, none, some, if◌then◌else◌, ◌==◌, ◌<>◌, ltb,
  length, join, split_on, trim_right,
}
use openshift_update_experie.Meta.{
  Time, Condition, ConditionsApi, condition_true, condition_false, status_eq,
}
use openshift_update_experie.Mco.{minute}
use openshift_update_experie.Client.{second}
use openshift_update_experie.Api.{
  ClusterVersionProgressInsightStatus, ClusterVersionAssessment,
  ClusterOperatorProgressInsightStatus, operator_updating_type, operator_healthy_type,
  operator_reason_updated, operator_reason_pending, operator_healthy_unavailable,
  operator_healthy_degraded,
}
use openshift_update_experie.Versions.{Versions, versions_from_insight}

-- `versions.String`.
unfoldable pub versions_text : Versions → String
versions_text v =
    if v.is_target_install
    then v.target <> " (installation)"
    else if v.is_previous_partial
    then v.target <> " (from incomplete " <> v.previous <> ")"
    else if v.is_multi_arch_migration
    then v.target <> " to Multi-Architecture"
    else v.target <> " (from " <> v.previous <> ")"

pub record Operator : Type 0 where
  pub name : String
  pub condition : Condition

pub record Operators : Type 0 where
  pub total : ℕ
  pub healthy : List Operator
  pub unavailable : List Operator
  pub degraded : List Operator
  pub updated : List Operator
  pub waiting : List Operator
  pub updating : List Operator

abbrev pub no_operators : Operators
no_operators = record {
  total = 0;
  healthy = [];
  unavailable = [];
  degraded = [];
  updated = [];
  waiting = [];
  updating = [];
}

-- What the parts of `StatusSummary` count.
pub data SummaryPart : Type 0 where
  healthy_part unavailable_part degraded_part unknown_part : SummaryPart

abbrev pub shown_part : SummaryPart → ℕ → List (SummaryPart × ℕ)
shown_part p n = if ltb 0 n then (p, n) ∷ [] else []

-- `StatusSummary`. The unknown operators are shown if there are more than none, which the subtraction
-- on an int and the one on ℕ agree on.
unfoldable pub status_summary : Operators → List (SummaryPart × ℕ)
status_summary o =
    (healthy_part, length o.healthy) ∷ shown_part unavailable_part (length o.unavailable)
    ++ shown_part degraded_part (length o.degraded)
    ++ shown_part unknown_part
        (o.total - length o.healthy - length o.unavailable - length o.degraded)

-- `d < -n`.
abbrev pub below_minus : ℤ → ℕ → Bool
below_minus (pos d) n = false
below_minus (negsuc d) n = ltb n (suc d)

-- `roundDuration`.
unfoldable pub rounded : ℤ → ℤ
rounded d =
    if exceeds d (10 * minute) || below_minus d (10 * minute)
    then round_duration d minute
    else round_duration d second

-- The four texts of `vagueUnder`.
pub data Estimate : Type 0 where
  multi_arch_migration : Estimate
  overdue under about : ℤ → Estimate

unfoldable pub vague_under : ℤ → ℤ → Bool → Estimate
vague_under actual estimated is_migration =
    if is_migration
    then multi_arch_migration
    else if below_minus actual (10 * minute)
    then overdue estimated
    else if not (exceeds actual (10 * minute - 1))
    then under (pos (10 * minute))
    else about actual

-- `commaJoinOperatorNames`.
abbrev pub comma_join_operator_names : List Operator → String
comma_join_operator_names operators = join ", " (map (λ o. o.name) operators)

pub record ControlPlaneDisplayData : Type 0 where
  pub assessment : ClusterVersionAssessment
  pub completion : ℕ
  pub duration : ℤ
  pub est_duration : ℤ
  pub est_time_to_complete : ℤ
  pub is_multi_arch_migration : Bool
  pub operators : Operators
  pub target_version : Versions

-- The `switch` on the Updating condition, and the one on the Healthy condition.
abbrev pub sort_updating : String → Option Condition → Operators → Operators
sort_updating name none o = o
sort_updating name (some c) o =
    let op : Operator = record { name = name; condition = c } in
    if status_eq c.status condition_true
    then record o { updating = o.updating ++ op ∷ [] }
    else if status_eq c.status condition_false && c.reason == operator_reason_updated
    then record o { updated = o.updated ++ op ∷ [] }
    else if status_eq c.status condition_false && c.reason == operator_reason_pending
    then record o { waiting = o.waiting ++ op ∷ [] }
    else o

abbrev pub sort_healthy : String → Option Condition → Operators → Operators
sort_healthy name none o = o
sort_healthy name (some c) o =
    let op : Operator = record { name = name; condition = c } in
    if status_eq c.status condition_true
    then record o { healthy = o.healthy ++ op ∷ [] }
    else if status_eq c.status condition_false && c.reason == operator_healthy_unavailable
    then record o { unavailable = o.unavailable ++ op ∷ [] }
    else if status_eq c.status condition_false && c.reason == operator_healthy_degraded
    then record o { degraded = o.degraded ++ op ∷ [] }
    else o

module _ (api : ConditionsApi) where
  abbrev pub sort_operator : ClusterOperatorProgressInsightStatus → Operators → Operators
  sort_operator co o =
      sort_healthy co.name (api.find_status_condition co.conditions operator_healthy_type) (
        sort_updating co.name (api.find_status_condition co.conditions operator_updating_type)
          (record o { total = suc o.total }))

  unfoldable pub sort_operators : List ClusterOperatorProgressInsightStatus → Operators → Operators
  sort_operators [] o = o
  sort_operators (co ∷ cos) o = sort_operators cos (sort_operator co o)

  -- The duration so far, or that of a completed update.
  abbrev pub updating_for : ClusterVersionProgressInsightStatus → Time → ℤ
  updating_for cv now = elim cv.completed_at [
    | none ↦ sub_times now cv.started_at
    | some completed ↦ sub_times completed cv.started_at
  ]

  abbrev pub estimated_from : ClusterVersionProgressInsightStatus → Time → ℤ
  estimated_from cv start = elim cv.estimated_completed_at [
    | none ↦ pos 0
    | some estimated ↦ rounded (sub_times estimated start)
  ]

  -- The flag of the migration is never set.
  unfoldable pub assess_control_plane_status :
      ClusterVersionProgressInsightStatus
      → List ClusterOperatorProgressInsightStatus
      → Time
      → ControlPlaneDisplayData
  unfolding rounded sort_operators
  assess_control_plane_status cv cos now = record {
    assessment = cv.assessment;
    completion = cv.completion;
    duration = rounded (updating_for cv now);
    est_duration = estimated_from cv cv.started_at;
    est_time_to_complete = estimated_from cv now;
    is_multi_arch_migration = false;
    operators = sort_operators cos no_operators;
    target_version = versions_from_insight cv.versions;
  }

-- A row of the table of updating operators: a new operator, with the time since its condition, its
-- reason and the first line of its message, or a further line.
pub data Row : Type 0 where
  operator_row : String → ℤ → String → String → Row
  further_row : String → Row

-- The loop over the lines; the flag says whether none was written yet.
unfoldable pub line_rows : Operator → Time → Bool → List String → List Row
line_rows o now is_first [] = []
line_rows o now is_first (line ∷ lines) =
    let others = line_rows o now false lines in
    let same = line_rows o now is_first lines in
    let reason = if o.condition.reason == "" then "-" else o.condition.reason in
    if line == ""
    then same
    else if is_first
    then operator_row o.name (sub_times now o.condition.last_transition_time) reason line ∷ others
    else further_row line ∷ others

unfoldable pub operator_rows : Operator → Time → List Row
unfolding line_rows split_on trim_right
operator_rows o now =
    let message = trim_right b'\n' o.condition.message in
    let reason = if o.condition.reason == "" then "-" else o.condition.reason in
    if message == ""
    then operator_row o.name (sub_times now o.condition.last_transition_time) reason "" ∷ []
    else line_rows o now true (split_on b'\n' message)
