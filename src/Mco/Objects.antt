-- ===== src/Mco/Objects.antt =====
-- The cluster objects that the code under internal/mco and internal/controller reads: the fields of
-- `corev1.Node`, `mcfgv1.MachineConfigPool` and `mcfgv1.MachineConfig` that it uses.
use openshift_update_experie.Prelude.{String, Bool, true, false, List, Option, none, some, lookup}
use openshift_update_experie.Meta.{Time, ConditionStatus}

-- `map[string]string`; `none` is the nil map.
abbrev pub StringMap : Type 0
StringMap = Option (List (String × String))

-- `v, ok := m[k]`: a nil map has no key.
unfoldable pub get? : StringMap → String → Option String
unfolding lookup
get? none k = none
get? (some m) k = lookup k m

-- `m[k]`: the empty text for a missing key.
abbrev pub or_empty : Option String → String
or_empty none = ""
or_empty (some v) = v

abbrev pub get : StringMap → String → String
get m k = or_empty (get? m k)

abbrev pub is_some {ℓ} : {A : Type ℓ} → Option A → Bool
is_some none = false
is_some (some _) = true

pub record NodeCondition : Type 0 where
  pub type : String
  pub status : ConditionStatus
  pub message : String
  pub last_transition_time : Time

pub record Node : Type 0 where
  pub name : String
  pub uid : String
  pub labels : StringMap
  pub annotations : StringMap
  pub conditions : List NodeCondition
  pub unschedulable : Bool

-- A label selector as the API holds it; only the selector library reads it.
pub record LabelSelector : Type 0 where
  pub match_labels : List (String × String)

pub record MachineConfigPool : Type 0 where
  pub name : String
  pub labels : StringMap
  pub annotations : StringMap
  pub configuration_name : String
  pub paused : Bool
  pub node_selector : Option LabelSelector

pub record MachineConfig : Type 0 where
  pub name : String
  pub annotations : StringMap
