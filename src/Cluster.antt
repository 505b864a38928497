-- ===== src/Cluster.antt =====
-- The objects of `config.openshift.io` that the controllers read: the fields that they use.
use openshift_update_experie.Prelude.{String, List, Option}
use openshift_update_experie.Meta.{Time, ConditionStatus}
use openshift_update_experie.Mco.{StringMap}

-- `UpdateState`, a Go string with two constants.
pub data UpdateState : Type 0 where
  completed_update partial_update : UpdateState
  other_update : String → UpdateState

pub record UpdateHistory : Type 0 where
  pub state : UpdateState
  pub started_time : Time
  pub completion_time : Option Time
  pub version : String
  pub image : String

-- `ClusterOperatorStatusCondition`, the condition type of both objects.
pub record StatusCondition : Type 0 where
  pub type : String
  pub status : ConditionStatus
  pub reason : String
  pub message : String
  pub last_transition_time : Time

pub record ClusterVersion : Type 0 where
  pub name : String
  pub annotations : StringMap
  pub desired_version : String
  pub history : List UpdateHistory
  pub conditions : List StatusCondition

pub record OperandVersion : Type 0 where
  pub name : String
  pub version : String

pub record ClusterOperator : Type 0 where
  pub name : String
  pub versions : List OperandVersion
  pub conditions : List StatusCondition

-- What `client.Get` of controller-runtime answers.
pub data GetResult {ℓ} (A : Type ℓ) : Type ℓ where
  found : A → GetResult A
  not_found : GetResult A
  get_error : String → GetResult A
