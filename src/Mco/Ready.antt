-- ===== src/Mco/Ready.antt =====
-- `checkNodeReady` of internal/mco/layered_node_state.go: its error and the reasons it records.
use openshift_update_experie.Prelude.{
  ◌≤◌, ◌<◌, String, ◌≡◌, refl, Bool, true, false, not, ◌||◌, List, [], ◌∷◌, Option, none, some,
  if◌then◌else◌, arith, any, length, length-append, suc,
}
use openshift_update_experie.Mco.Objects.{NodeCondition, is_some}
use openshift_update_experie.Mco.NodeState.{BadCondition, LayeredNodeState}
use openshift_update_experie.Mco.Readiness.{
  check_condition, check_conditions, check_node_ready, is_node_ready, is_not_ready,
  has_disk_pressure, has_network_unavailable, report,
}

-- One of the node's own conditions makes it not ready.
abbrev pub is_bad : NodeCondition → Bool
is_bad c = is_not_ready c || (has_disk_pressure c || has_network_unavailable c)

report_error :
    (t : Bool) (b : BadCondition) (e : String) (s : List BadCondition × Option String)
    → is_some (report t b e s).1 ≡ (is_some s.1 || t)
report_error true b e (bs, none) = refl
report_error true b e (bs, some x) = refl
report_error false b e (bs, none) = refl
report_error false b e (bs, some x) = refl

-- Reasons are only added.
length-report :
    (t : Bool) (b : BadCondition) (e : String) (s : List BadCondition × Option String)
    → length (report t b e s).0 ≡ (if t then suc (length s.0) else length s.0)
length-report true b e (bs, ret) = omega (arith, length-append bs (b ∷ []))
length-report false b e s = refl

or_assoc₃ : (a b c d : Bool) → ((a || b) || c) || d ≡ (a || (b || (c || d)))
or_assoc₃ a b c d = ground arith

check_condition_error :
    (name : String) (c : NodeCondition) (s : List BadCondition × Option String)
    → is_some (check_condition name c s).1 ≡ (is_some s.1 || is_bad c)
unfolding check_condition
check_condition_error name c s =
    rw (report_error, report_error, report_error) (or_assoc₃ (is_some s.1) _ _ _)

check_condition_reasons :
    (name : String) (c : NodeCondition) (s : List BadCondition × Option String)
    → (is_bad c ≡ true → length s.0 < length (check_condition name c s).0)
      × (length s.0 ≤ length (check_condition name c s).0)
unfolding check_condition
check_condition_reasons name c s = rw (length-report, length-report, length-report) (ground arith)

check_conditions_error :
    (name : String) (cs : List NodeCondition) (s : List BadCondition × Option String)
    → is_some (check_conditions name cs s).1 ≡ (is_some s.1 || any is_bad cs)
unfolding check_conditions
check_conditions_error name [] s = ground arith
check_conditions_error name (c ∷ cs) s = ground (
  arith,
  check_conditions_error name cs (check_condition name c s),
  check_condition_error name c s,
)

check_conditions_reasons :
    (name : String) (cs : List NodeCondition) (s : List BadCondition × Option String)
    → (any is_bad cs ≡ true → length s.0 < length (check_conditions name cs s).0)
      × (length s.0 ≤ length (check_conditions name cs s).0)
unfolding check_conditions
check_conditions_reasons name [] s = ground arith
check_conditions_reasons name (c ∷ cs) s = ground (
  arith,
  check_conditions_reasons name cs (check_condition name c s),
  check_condition_reasons name c s,
)

-- A node is ready exactly if none of its conditions is bad and it is schedulable.
pub is_node_ready_lem :
    (l : LayeredNodeState)
    → (is_node_ready l).1 ≡ not (any is_bad l.node.conditions || l.node.unschedulable)
unfolding is_node_ready check_node_ready
is_node_ready_lem l = rw report_error (rw check_conditions_error refl)

pub is_node_ready_reasons :
    (l : LayeredNodeState)
    → (is_node_ready l).1 ≡ false
    → length l.unavailable < length (is_node_ready l).0.unavailable
unfolding is_node_ready check_node_ready
is_node_ready_reasons l h = rw length-report (
    ground (
      arith,
      is_node_ready_lem l,
      check_conditions_reasons l.node.name l.node.conditions (l.unavailable, none),
    ))

pub is_node_ready_node : (l : LayeredNodeState) → (is_node_ready l).0.node ≡ l.node
unfolding is_node_ready check_node_ready
is_node_ready_node l = refl
