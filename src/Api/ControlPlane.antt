-- ===== src/Api/ControlPlane.antt =====
-- api/v1alpha1/clusterversionprogressinsight_types.go.
use openshift_update_experie.Prelude.{ℕ, String, List, Option}
use openshift_update_experie.Meta.{Condition, Time}

pub data ClusterVersionAssessment : Type 0 where
  version_unknown version_progressing version_completed version_degraded : ClusterVersionAssessment

abbrev pub version_assessment_name : ClusterVersionAssessment → String
version_assessment_name version_unknown = "Unknown"
version_assessment_name version_progressing = "Progressing"
version_assessment_name version_completed = "Completed"
version_assessment_name version_degraded = "Degraded"

abbrev pub version_updating_type : String
version_updating_type = "Updating"

abbrev pub version_reason_cannot_determine : String
version_reason_cannot_determine = "CannotDetermineUpdating"

abbrev pub version_reason_progressing : String
version_reason_progressing = "Progressing"

abbrev pub version_reason_not_progressing : String
version_reason_not_progressing = "NotProgressing"

pub data VersionMetadataKey : Type 0 where
  installation_metadata partial_metadata architecture_metadata : VersionMetadataKey

pub record VersionMetadata : Type 0 where
  pub key : VersionMetadataKey
  pub value : String

pub record Version : Type 0 where
  pub version : String
  pub metadata : List VersionMetadata

pub record ControlPlaneUpdateVersions : Type 0 where
  pub previous : Option Version
  pub target : Version

-- `Completion` is an int32, kept as its bit pattern.
pub record ClusterVersionProgressInsightStatus : Type 0 where
  pub conditions : List Condition
  pub name : String
  pub assessment : ClusterVersionAssessment
  pub versions : ControlPlaneUpdateVersions
  pub completion : ℕ
  pub last_observed_progress : Time
  pub started_at : Time
  pub completed_at : Option Time
  pub estimated_completed_at : Option Time
