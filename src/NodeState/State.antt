-- ===== src/NodeState/State.antt =====
-- internal/controller/nodestate/state.go: the state of a node and its hash.
use openshift_update_experie.Prelude.{ℕ, String, List, [], ◌∷◌, Bool, true, false}
use openshift_update_experie.Meta.{Time, Condition, status_name}
use openshift_update_experie.Api.{ResourceRef, ScopeType, scope_name}
use openshift_update_experie.NodeState.Fnv.{write_all, offset64}

pub data UpdatePhase : Type 0 where
  phase_pending phase_draining phase_updating phase_rebooting phase_paused phase_completed :
      UpdatePhase

abbrev pub phase_name : UpdatePhase → String
phase_name phase_pending = "Pending"
phase_name phase_draining = "Draining"
phase_name phase_updating = "Updating"
phase_name phase_rebooting = "Rebooting"
phase_name phase_paused = "Paused"
phase_name phase_completed = "Completed"

abbrev pub is_completed : UpdatePhase → Bool
is_completed phase_completed = true
is_completed _ = false

abbrev pub is_draining : UpdatePhase → Bool
is_draining phase_draining = true
is_draining _ = false

abbrev pub is_paused : UpdatePhase → Bool
is_paused phase_paused = true
is_paused _ = false

-- `Phase == UpdatePhaseUpdating || Phase == UpdatePhaseRebooting`.
abbrev pub is_applying : UpdatePhase → Bool
is_applying phase_updating = true
is_applying phase_rebooting = true
is_applying _ = false

-- The counters are an int64, kept as a bit pattern.
pub record NodeState : Type 0 where
  pub name : String
  pub uid : String
  pub pool_ref : ResourceRef
  pub scope : ScopeType
  pub version : String
  pub desired_version : String
  pub current_config : String
  pub desired_config : String
  pub conditions : List Condition
  pub phase : UpdatePhase
  pub message : String
  pub last_evaluated : Time
  pub evaluation_count : ℕ
  pub source_generation : ℕ
  pub state_hash : ℕ

-- The four texts of each condition.
unfoldable pub hashed_conditions : List Condition → List String
hashed_conditions [] = []
hashed_conditions (c ∷ cs) =
    c.type ∷ status_name c.status ∷ c.reason ∷ c.message ∷ hashed_conditions cs

-- What `ComputeHash` writes, in its order.
unfoldable pub hashed_texts : NodeState → List String
unfolding hashed_conditions
hashed_texts s =
    s.name
    ∷ s.pool_ref.name
    ∷ s.pool_ref.group
    ∷ s.pool_ref.resource
    ∷ scope_name s.scope
    ∷ s.version
    ∷ s.desired_version
    ∷ s.current_config
    ∷ s.desired_config
    ∷ phase_name s.phase
    ∷ s.message
    ∷ hashed_conditions s.conditions

unfoldable pub compute_hash : NodeState → ℕ
unfolding hashed_texts write_all
compute_hash s = write_all offset64 (hashed_texts s)
