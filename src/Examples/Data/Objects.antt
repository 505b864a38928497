-- ===== src/Examples/Data/Objects.antt =====
-- The objects of a cluster: nodes, pools, configs and a cluster version.
use openshift_update_experie.Prelude.{
  String, true, false, List, [], ◌∷◌, Option, none, some, if◌then◌else◌, ◌==◌,
}
use openshift_update_experie.Meta.{condition_true, condition_false}
use openshift_update_experie.Mco.{Node, NodeCondition, MachineConfigPool, MachineConfig}
use openshift_update_experie.Cluster.{
  ClusterVersion, UpdateHistory, completed_update, partial_update,
}

abbrev pub state_key : String
state_key = "machineconfiguration.openshift.io/state"

abbrev pub desired_key : String
desired_key = "machineconfiguration.openshift.io/desiredConfig"

abbrev pub current_key : String
current_key = "machineconfiguration.openshift.io/currentConfig"

abbrev pub ready : NodeCondition
ready = record { type = "Ready"; status = condition_true; message = ""; last_transition_time = 50 }

abbrev pub not_ready : NodeCondition
not_ready = record {
  type = "Ready";
  status = condition_false;
  message = "the kubelet has stopped";
  last_transition_time = 70;
}

-- A node that is being drained for its new config.
abbrev pub draining_node : Node
draining_node = record {
  name = "worker-0";
  uid = "u0";
  labels = some (("role", "worker") ∷ []);
  annotations = some (
      (state_key, "Working")
      ∷ (desired_key, "rendered-2")
      ∷ (current_key, "rendered-1")
      ∷ ("machineconfiguration.openshift.io/desiredDrain", "drain-2")
      ∷ ("machineconfiguration.openshift.io/lastAppliedDrain", "uncordon-1")
      ∷ []);
  conditions = ready ∷ [];
  unschedulable = true;
}

-- A node that has not been asked to update, and is not ready.
abbrev pub broken_node : Node
broken_node = record {
  name = "worker-1";
  uid = "u1";
  labels = some (("role", "worker") ∷ []);
  annotations =
      some ((state_key, "Done") ∷ (desired_key, "rendered-1") ∷ (current_key, "rendered-1") ∷ []);
  conditions = not_ready ∷ [];
  unschedulable = false;
}

abbrev pub worker_pool : MachineConfigPool
worker_pool = record {
  name = "worker";
  labels = none;
  annotations = none;
  configuration_name = "rendered-2";
  paused = false;
  node_selector = some (record { match_labels = ("role", "worker") ∷ [] });
}

-- The versions of the two configs.
abbrev pub versions : List (String × String)
versions = ("rendered-1", "4.18.0") ∷ ("rendered-2", "4.19.0") ∷ []

abbrev pub version_of_config : String → Option String
version_of_config c =
    if c == "rendered-1" then some "4.18.0" else if c == "rendered-2" then some "4.19.0" else none

abbrev pub labelled_config : MachineConfig
labelled_config = record {
  name = "rendered-2";
  annotations = some (("machineconfiguration.openshift.io/release-image-version", "4.19.1") ∷ []);
}

abbrev pub history : List UpdateHistory
history =
    record {
      state = partial_update;
      started_time = 40;
      completion_time = none;
      version = "4.19.0";
      image = "i2";
    }
    ∷ record {
      state = completed_update;
      started_time = 10;
      completion_time = some 20;
      version = "4.18.0";
      image = "i1";
    }
    ∷ []

abbrev pub cluster_version : ClusterVersion
cluster_version = record {
  name = "version";
  annotations = none;
  desired_version = "4.19.0";
  history = history;
  conditions = [];
}
