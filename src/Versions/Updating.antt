-- ===== src/Versions/Updating.antt =====
-- `isControlPlaneUpdating`, `cvProgressingToUpdating`, `setCannotDetermineUpdating` and
-- `versionsFromHistory` of internal/controller/clusterversions/impl.go, and
-- `versionsFromClusterVersionProgressInsight` of cmd/oc-update-status/controlplane.go.
use openshift_update_experie.Prelude.{
  String, Bool, true, false, not, ◌&&◌, List, [], ◌∷◌, Option, none, some, ◌==◌, ◌<>◌,
}
use openshift_update_experie.Meta.{
  Time, Condition, ConditionStatus, condition_true, condition_false, condition_unknown,
  condition_other, status_name,
}
use openshift_update_experie.Api.{
  version_updating_type, version_reason_cannot_determine, version_reason_progressing,
  version_reason_not_progressing, Version, VersionMetadata, ControlPlaneUpdateVersions,
  installation_metadata, partial_metadata, architecture_metadata,
}
use openshift_update_experie.Cluster.{
  StatusCondition, UpdateHistory, completed_update, partial_update,
}

abbrev pub updating_condition : ConditionStatus → String → String → Condition
updating_condition status reason message = record {
  type = version_updating_type;
  status = status;
  reason = reason;
  message = message;
  last_transition_time = 0;
}

-- `setCannotDetermineUpdating` on the condition that is being built.
abbrev pub cannot_determine : String → Condition
cannot_determine message =
    updating_condition condition_unknown version_reason_cannot_determine message

abbrev progressing_text : StatusCondition → String
progressing_text p =
    "ClusterVersion has Progressing="
    <> status_name p.status
    <> "(Reason="
    <> p.reason
    <> ") | Message='"
    <> p.message
    <> "'"

-- `cvProgressingToUpdating`, by the status.
abbrev pub progressing_to_updating : ConditionStatus → ConditionStatus × String
progressing_to_updating condition_true = (condition_true, version_reason_progressing)
progressing_to_updating condition_false = (condition_false, version_reason_not_progressing)
progressing_to_updating condition_unknown = (condition_unknown, version_reason_cannot_determine)
progressing_to_updating (condition_other s) = (condition_unknown, version_reason_cannot_determine)

abbrev pub plain_updating : StatusCondition → Condition
plain_updating p =
    updating_condition (progressing_to_updating p.status).0 (progressing_to_updating p.status).1
      (progressing_text p)

-- Progressing is true: the last history item should be partial and without a completion time.
abbrev while_progressing : StatusCondition → UpdateHistory → Condition × Time × Time
while_progressing p item = elim item.state [
  | partial_update ↦ elim item.completion_time [
    | none ↦ (plain_updating p, item.started_time, 0)
    | some t ↦ (
      cannot_determine
          "Progressing=True in ClusterVersion but last history item has completion time",
      0,
      0,
    )
  ]
  | _ ↦ (
    cannot_determine "Progressing=True in ClusterVersion but last history item is not Partial",
    0,
    0,
  )
]

-- Progressing is false: the last history item should be completed and have a completion time.
abbrev while_settled : StatusCondition → UpdateHistory → Condition × Time × Time
while_settled p item = elim item.state [
  | completed_update ↦ elim item.completion_time [
    | some t ↦ (plain_updating p, item.started_time, t)
    | none ↦ (
      cannot_determine "Progressing=False in ClusterVersion but no completion in last history item",
      0,
      0,
    )
  ]
  | _ ↦ (
    cannot_determine "Progressing=False in ClusterVersion but last history item is not completed",
    0,
    0,
  )
]

abbrev pub by_status : ConditionStatus → StatusCondition → UpdateHistory → Condition × Time × Time
by_status condition_true p item = while_progressing p item
by_status condition_false p item = while_settled p item
by_status condition_unknown p item = (plain_updating p, 0, 0)
by_status (condition_other s) p item = (plain_updating p, 0, 0)

-- The Updating condition, and the times of the start and the completion of the update; the zero time
-- where there is none.
unfoldable pub is_control_plane_updating :
    Option StatusCondition → Option UpdateHistory → Condition × Time × Time
is_control_plane_updating none item =
    (cannot_determine "No Progressing condition in ClusterVersion", 0, 0)
is_control_plane_updating (some p) none = (cannot_determine "Empty history in ClusterVersion", 0, 0)
is_control_plane_updating (some p) (some item) = by_status p.status p item

abbrev plain_version : String → Version
plain_version v = record { version = v; metadata = [] }

abbrev previous_version : UpdateHistory → Version
previous_version h = record {
  version = h.version;
  metadata = elim h.state [
    | partial_update ↦ record { key = partial_metadata; value = "" } ∷ []
    | _ ↦ []
  ];
}

unfoldable pub versions_from_history : List UpdateHistory → ControlPlaneUpdateVersions
versions_from_history [] = record { previous = none; target = plain_version "" }
versions_from_history (h ∷ []) = record {
  previous = none;
  target = record {
    version = h.version;
    metadata = record { key = installation_metadata; value = "" } ∷ [];
  };
}
versions_from_history (h ∷ k ∷ rest) = record {
  previous = some (previous_version k);
  target = plain_version h.version;
}

-- `versions` of the command.
pub record Versions : Type 0 where
  pub target : String
  pub previous : String
  pub is_target_install : Bool
  pub is_previous_partial : Bool
  pub is_multi_arch_migration : Bool

-- The loop over the target's metadata: `none` if it finds the installation, else the architecture.
abbrev target_arch : String → List VersionMetadata → Option String
target_arch arch [] = some arch
target_arch arch (m ∷ ms) = elim m.key [
  | installation_metadata ↦ none
  | architecture_metadata ↦ target_arch m.value ms
  | partial_metadata ↦ target_arch arch ms
]

abbrev previous_arch : String → List VersionMetadata → String
previous_arch arch [] = arch
previous_arch arch (m ∷ ms) = elim m.key [
  | architecture_metadata ↦ previous_arch m.value ms
  | _ ↦ previous_arch arch ms
]

abbrev has_partial : List VersionMetadata → Bool
has_partial [] = false
has_partial (m ∷ ms) = elim m.key [ partial_metadata ↦ true | _ ↦ has_partial ms ]

abbrev is_multi_migration : String → String → Bool
is_multi_migration target previous = target == "multi" && not (previous == "multi")

abbrev with_target_arch : String → Option Version → Option String → Versions
with_target_arch target previous none = record {
  target = target;
  previous = "";
  is_target_install = true;
  is_previous_partial = false;
  is_multi_arch_migration = false;
}
with_target_arch target none (some arch) = record {
  target = target;
  previous = "unknown";
  is_target_install = false;
  is_previous_partial = false;
  is_multi_arch_migration = is_multi_migration arch "";
}
with_target_arch target (some p) (some arch) = record {
  target = target;
  previous = p.version;
  is_target_install = false;
  is_previous_partial = has_partial p.metadata;
  is_multi_arch_migration = is_multi_migration arch (previous_arch "" p.metadata);
}

unfoldable pub versions_from_insight : ControlPlaneUpdateVersions → Versions
versions_from_insight v =
    with_target_arch v.target.version v.previous (target_arch "" v.target.metadata)
