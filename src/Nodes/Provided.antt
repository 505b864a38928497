-- ===== src/Nodes/Provided.antt =====
-- internal/controller/nodeprogressinsight_controller.go: the insight of a node from the state that
-- the central controller provides.
use openshift_update_experie.Prelude.{String, List, [], ◌∷◌, Option, none, some}
use openshift_update_experie.Api.{NodeProgressInsightStatus}
use openshift_update_experie.Cluster.{GetResult, found, not_found, get_error}
use openshift_update_experie.Client.{
  WriteResult, written, conflict, already_exists, write_error, Answers, Call, create, delete,
  update_status, Outcome, finished, failed, error_of,
}
use openshift_update_experie.NodeState.{NodeState, SelectorApi}
use openshift_update_experie.NodeState.Controller.{Controller, get_node_state}
use openshift_update_experie.Nodes.Reconcile.{write_ended}

abbrev Status : Type 0
Status = NodeProgressInsightStatus

-- `nodeStateToInsightStatus`: the estimate is left nil.
unfoldable pub node_state_to_insight_status : NodeState → Status
node_state_to_insight_status state = record {
  conditions = state.conditions;
  name = state.name;
  pool_resource = state.pool_ref;
  scope = state.scope;
  version = state.version;
  estimated_to_complete = none;
  message = state.message;
}

-- The node has no state: `IgnoreNotFound` of the read, or the deletion.
abbrev pub clean_untracked : GetResult Status → Answers → List (Call Status) × Outcome
clean_untracked (get_error e) answers = ([], failed e)
clean_untracked not_found answers = ([], finished)
clean_untracked (found old) answers = (delete ∷ [], write_ended answers.on_delete)

abbrev pub create_then_update : WriteResult → Status → Answers → List (Call Status) × Outcome
create_then_update written status answers =
    (create ∷ update_status status ∷ [], write_ended answers.on_update)
create_then_update conflict status answers = (create ∷ [], failed (error_of conflict))
create_then_update already_exists status answers = (create ∷ [], failed (error_of already_exists))
create_then_update (write_error e) status answers = (create ∷ [], failed e)

-- The status is written whether it has changed or not, and a conflict is an error.
abbrev pub write_provided : Status → GetResult Status → Answers → List (Call Status) × Outcome
write_provided status (get_error e) answers = ([], failed e)
write_provided status not_found answers = create_then_update answers.on_create status answers
write_provided status (found old) answers =
    (update_status status ∷ [], write_ended answers.on_update)

unfoldable pub reconcile_state :
    Option NodeState → GetResult Status → Answers → List (Call Status) × Outcome
unfolding node_state_to_insight_status
reconcile_state none insight answers = clean_untracked insight answers
reconcile_state (some state) insight answers =
    write_provided (node_state_to_insight_status state) insight answers

-- `reconcileWithProvider`, with the central controller as the provider.
unfoldable pub reconcile_with_provider :
    {api : SelectorApi}
    → Controller api
    → String
    → GetResult Status
    → Answers
    → List (Call Status) × Outcome
unfolding reconcile_state
reconcile_with_provider c name insight answers =
    reconcile_state (get_node_state c name) insight answers
