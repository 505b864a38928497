-- ===== src/Examples/Data.antt =====
-- The inputs of the examples: states, controllers, reads and insights, on top of its children's.
mod Helpers
mod Objects
pub use Helpers.*
pub use Objects.*
use openshift_update_experie.Prelude.{
  String, ◌≡◌, sym, ap, false, List, [], ◌∷◌, none, some, if◌then◌else◌, ◌==◌,
}
use openshift_update_experie.Meta.{Time, Condition, ConditionStatus, condition_true}
use openshift_update_experie.Mco.{Node, MachineConfigPool}
use openshift_update_experie.Api.{
  NodeProgressInsightStatus, ClusterVersionProgressInsightStatus, version_progressing,
  version_updating_type, worker_pool_scope, updating_type, available_type,
}
use openshift_update_experie.Cluster.{ClusterOperator, GetResult, found, not_found, get_error}
use openshift_update_experie.Client.{Answers, written}
use openshift_update_experie.NodeState.{NodeState, phase_completed, phase_draining}
use openshift_update_experie.NodeState.Channel.{Channel, Select}
use openshift_update_experie.NodeState.Controller.{Controller, Reads}

abbrev pub plain_condition : String → ConditionStatus → Condition
plain_condition t s = record {
  type = t;
  status = s;
  reason = "r";
  message = "";
  last_transition_time = 60;
}

-- A state of a node, with a phase, in a pool.
abbrev pub state_in : String → NodeState
state_in pool = record {
  name = "worker-0";
  uid = "u0";
  pool_ref = record { group = "g"; resource = "machineconfigpools"; name = pool; namespace = "" };
  scope = worker_pool_scope;
  version = "4.18.0";
  desired_version = "4.19.0";
  current_config = "rendered-1";
  desired_config = "rendered-2";
  conditions = plain_condition updating_type condition_true ∷ [];
  phase = phase_draining;
  message = "";
  last_evaluated = 60;
  evaluation_count = 3;
  source_generation = 0;
  state_hash = 7;
}

abbrev pub done_state : NodeState
done_state = record (state_in "worker") {
  name = "worker-2";
  version = "4.19.0";
  phase = phase_completed;
  conditions = plain_condition available_type condition_true ∷ [];
}

abbrev pub three_nodes : List NodeState
three_nodes = done_state ∷ state_in "worker" ∷ state_in "worker" ∷ []

abbrev pub open_channel : Channel
open_channel = record { queue = "worker-9" ∷ []; closed = false }

abbrev pub waiting : Select
waiting = record { done = false; picks_send = false }

-- A controller that knows of `worker-0` in the pool `infra`.
abbrev pub controller : Controller pairs
controller = record {
  state_store = ("worker-0", state_in "infra") ∷ ("worker-2", done_state) ∷ [];
  mcp_selectors =
      ("worker", some (("role", "worker") ∷ [])) ∷ ("infra", some (("role", "infra") ∷ [])) ∷ [];
  machine_config_versions = versions;
  total_evaluations = 3;
  node_insight_events = open_channel;
  mcp_insight_events = open_channel;
}

abbrev pub reads : Reads
reads = record {
  get_node = found draining_node;
  get_pool = λ name. if name == "worker" then found worker_pool else not_found;
  get_cluster_version = found cluster_version;
}

abbrev pub reads_gone : Reads
reads_gone = record reads { get_node = not_found }

abbrev pub progressing_operator : ClusterOperator
progressing_operator = record {
  name = "etcd";
  versions = record { name = "operator"; version = "4.18.0" } ∷ [];
  conditions =
      record {
        type = "Available";
        status = condition_true;
        reason = "";
        message = "";
        last_transition_time = 5;
      }
      ∷ record {
        type = "Progressing";
        status = condition_true;
        reason = "Rolling";
        message = "2 of 3";
        last_transition_time = 6;
      }
      ∷ [];
}

abbrev pub answers : Answers
answers = record { on_create = written; on_delete = written; on_update = written }

abbrev pub degraded_node : Node
degraded_node = record broken_node {
  annotations =
      some
        ((state_key, "Degraded") ∷ (desired_key, "rendered-2") ∷ (current_key, "rendered-1") ∷ []);
}

abbrev pub insight_with : List Condition → NodeProgressInsightStatus
insight_with conditions = record {
  conditions = conditions;
  name = "worker-0";
  pool_resource = record {
    group = "g";
    resource = "machineconfigpools";
    name = "worker";
    namespace = "";
  };
  scope = worker_pool_scope;
  version = "4.18.0";
  estimated_to_complete = none;
  message = "";
}

-- A controller without states.
abbrev pub fresh_controller : Controller pairs
fresh_controller = record controller { state_store = [] }

-- Reads that find one pool under any name.
abbrev pub reads_worker : Reads
reads_worker = record reads { get_pool = λ name. found worker_pool }

abbrev name_found : GetResult MachineConfigPool → String
name_found (found pool) = pool.name
name_found not_found = ""
name_found (get_error e) = ""

pub not_infra :
    (pool : MachineConfigPool) → found worker_pool ≡ found pool → (pool.name == "infra") ≡ false
not_infra pool e = ap (λ r. name_found r == "infra") (sym e)

abbrev pub version_insight : ClusterVersionProgressInsightStatus
version_insight = record {
  conditions = plain_condition version_updating_type condition_true ∷ [];
  name = "version";
  assessment = version_progressing;
  versions = record {
    previous = some (record { version = "4.18.0"; metadata = [] });
    target = record { version = "4.19.0"; metadata = [] };
  };
  completion = 40;
  last_observed_progress = 50;
  started_at = 40;
  completed_at = none;
  estimated_completed_at = none;
}

-- The same, with a later observation.
abbrev pub later_insight : ClusterVersionProgressInsightStatus
later_insight = record version_insight { last_observed_progress = 55 }

-- Two instants that are 20 seconds apart.
abbrev pub old_time : Time
old_time = 40000000000

abbrev pub new_time : Time
new_time = 60000000000
