-- ===== src/Nodes/Reconcile.antt =====
-- The state and `Reconcile` of internal/controller/nodes/impl.go.
use openshift_update_experie.Prelude.{
  String, Bool, true, List, [], ◌∷◌, Option, none, some, if◌then◌else◌, ◌==◌,
}
use openshift_update_experie.Meta.{Time, Condition, ConditionsApi}
use openshift_update_experie.Mco.{Node, MachineConfigPool, MachineConfig}
use openshift_update_experie.Api.{NodeProgressInsightStatus}
use openshift_update_experie.Cluster.{ClusterVersion, GetResult, found, not_found, get_error}
use openshift_update_experie.Client.{
  WriteResult, written, conflict, already_exists, write_error, Answers, Call, create, delete,
  update_status, Outcome, finished, requeue_after, failed, second, error_of,
}
use openshift_update_experie.NodeState.{
  SelectorApi, SelectorCache, VersionCache, ingest_selector, ingest_version, which_mcp, version_for,
}
use openshift_update_experie.NodeState.Controller.{Reads, first_version}
use openshift_update_experie.Nodes.Assessment.{assess_existing}

abbrev Status : Type 0
Status = NodeProgressInsightStatus

-- `warmed_up` stands for the `sync.Once`.
pub record Reconciler (api : SelectorApi) : Type 0 where
  pub warmed_up : Bool
  pub mcp_selectors : SelectorCache api
  pub machine_config_versions : VersionCache

-- What the reads of one reconciliation answer; the lists are read once, and `none` is an error. The
-- objects are those that the central controller reads too.
pub record NodeReads : Type 0 where
  pub list_pools : Option (List MachineConfigPool)
  pub list_configs : Option (List MachineConfig)
  pub get_insight : GetResult Status
  pub objects : Reads

-- `ctrl.Result{}, err` with the error of a write.
abbrev pub write_ended : WriteResult → Outcome
write_ended written = finished
write_ended conflict = failed (error_of conflict)
write_ended already_exists = failed (error_of already_exists)
write_ended (write_error e) = failed e

abbrev pub status_ended : WriteResult → Outcome
status_ended conflict = requeue_after second
status_ended written = finished
status_ended already_exists = failed (error_of already_exists)
status_ended (write_error e) = failed e

-- The insight is deleted if it was found.
abbrev pub clean_up : GetResult Status → Answers → List (Call Status) × Outcome
clean_up (found old) answers = (delete ∷ [], write_ended answers.on_delete)
clean_up not_found answers = ([], finished)
clean_up (get_error e) answers = ([], failed e)

abbrev pub conditions_read : Option Status → List Condition
conditions_read none = []
conditions_read (some old) = old.conditions

module _ (selectors : SelectorApi) where
  -- The loops of `initializeMachineConfigPools` and `initializeMachineConfigVersions`.
  unfoldable pub ingest_all_pools :
      SelectorCache selectors → List MachineConfigPool → SelectorCache selectors
  ingest_all_pools cache [] = cache
  ingest_all_pools cache (pool ∷ pools) =
      ingest_all_pools (ingest_selector selectors cache pool.name pool.node_selector).0 pools

  abbrev pub initialize_machine_config_pools :
      SelectorCache selectors → Option (List MachineConfigPool) → SelectorCache selectors
  initialize_machine_config_pools cache none = cache
  initialize_machine_config_pools cache (some pools) = ingest_all_pools cache pools

unfoldable pub ingest_all_versions : VersionCache → List MachineConfig → VersionCache
ingest_all_versions cache [] = cache
ingest_all_versions cache (mc ∷ mcs) = ingest_all_versions (ingest_version cache mc).0 mcs

abbrev pub initialize_machine_config_versions :
    VersionCache → Option (List MachineConfig) → VersionCache
initialize_machine_config_versions cache none = cache
initialize_machine_config_versions cache (some mcs) = ingest_all_versions cache mcs

module _ (selectors : SelectorApi) where
  -- The first part, which runs once: an error on one list does not keep the other from being read.
  unfoldable pub warm_up : Reconciler selectors → NodeReads → Reconciler selectors
  warm_up r reads = if r.warmed_up then r else record {
    warmed_up = true;
    mcp_selectors = initialize_machine_config_pools selectors r.mcp_selectors reads.list_pools;
    machine_config_versions =
        initialize_machine_config_versions r.machine_config_versions reads.list_configs;
  }

module _ (same : Option Status → Status → Bool) where
  -- From the comparison with the status that was read on; `same` is `cmp.Diff(...) == ""`, and a new
  -- insight has an empty status, `none`.
  abbrev pub write_node : Answers → Option Status → Status → List (Call Status) × Outcome
  write_node answers old status =
      if same old status
      then ([], finished)
      else (update_status status ∷ [], status_ended answers.on_update)

  abbrev pub create_node : WriteResult → Answers → Status → List (Call Status) × Outcome
  create_node written answers status =
      let (calls, outcome) = write_node answers none status in (create ∷ calls, outcome)
  create_node conflict answers status = (create ∷ [], failed (error_of conflict))
  create_node already_exists answers status = (create ∷ [], failed (error_of already_exists))
  create_node (write_error e) answers status = (create ∷ [], failed e)

module _ (selectors : SelectorApi) (conditions : ConditionsApi) (group : String)
    (same : Option Status → Status → Bool) (wall now : Time) (answers : Answers) where
  abbrev pub write_assessed :
      Reconciler selectors
      → Node
      → MachineConfigPool
      → ClusterVersion
      → GetResult Status
      → List (Call Status) × Outcome
  write_assessed r node mcp cv (get_error e) = ([], failed e)
  write_assessed r node mcp cv not_found = create_node same answers.on_create answers (
      assess_existing conditions group wall node mcp (version_for r.machine_config_versions)
        (first_version cv.history) (conditions_read none) now)
  write_assessed r node mcp cv (found old) = write_node same answers (some old) (
      assess_existing conditions group wall node mcp (version_for r.machine_config_versions)
        (first_version cv.history) (conditions_read (some old)) now)

  abbrev pub read_version :
      Reconciler selectors
      → Node
      → MachineConfigPool
      → GetResult ClusterVersion
      → GetResult Status
      → List (Call Status) × Outcome
  read_version r node mcp (get_error e) insight = ([], failed e)
  read_version r node mcp not_found insight = ([], failed "not found")
  read_version r node mcp (found cv) insight = write_assessed r node mcp cv insight

  abbrev pub read_pool :
      Reconciler selectors
      → NodeReads
      → Node
      → GetResult MachineConfigPool
      → List (Call Status) × Outcome
  read_pool r reads node (get_error e) = ([], failed e)
  read_pool r reads node not_found = ([], finished)
  read_pool r reads node (found mcp) =
      read_version r node mcp reads.objects.get_cluster_version reads.get_insight

  abbrev pub read_node :
      Reconciler selectors
      → NodeReads
      → GetResult Node
      → GetResult Status
      → List (Call Status) × Outcome
  read_node r reads (get_error e) insight = ([], failed e)
  read_node r reads not_found insight = clean_up insight answers
  read_node r reads (found node) (get_error e) = ([], failed e)
  read_node r reads (found node) insight =
      let mcp_name = which_mcp selectors r.mcp_selectors node.labels in
      if mcp_name == ""
      then clean_up insight answers
      else read_pool r reads node (reads.objects.get_pool mcp_name)

  unfoldable pub reconcile_node :
      Reconciler selectors → NodeReads → Reconciler selectors × (List (Call Status) × Outcome)
  unfolding warm_up
  reconcile_node r reads = (
    warm_up selectors r reads,
    read_node (warm_up selectors r reads) reads reads.objects.get_node reads.get_insight,
  )
