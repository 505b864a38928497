-- ===== src/Api/Health.antt =====
-- api/v1alpha1/updatehealthinsight_types.go and the label of internal/health/insights.go.
use openshift_update_experie.Prelude.{String, List, Option}
use openshift_update_experie.Meta.{Time}
use openshift_update_experie.Api.Common.{ResourceRef, ScopeType}

pub record InsightScope : Type 0 where
  pub type : ScopeType
  pub resources : List ResourceRef

pub data InsightImpactLevel : Type 0 where
  unknown_level info_level warning_level error_level critical_level : InsightImpactLevel

abbrev pub impact_level_name : InsightImpactLevel → String
impact_level_name unknown_level = "Unknown"
impact_level_name info_level = "Info"
impact_level_name warning_level = "Warning"
impact_level_name error_level = "Error"
impact_level_name critical_level = "Critical"

pub data InsightImpactType : Type 0 where
  none_impact unknown_impact api_availability cluster_capacity application_availability
        application_outage data_loss update_speed update_stalled :
      InsightImpactType

abbrev pub impact_type_name : InsightImpactType → String
impact_type_name none_impact = "None"
impact_type_name unknown_impact = "Unknown"
impact_type_name api_availability = "API Availability"
impact_type_name cluster_capacity = "Cluster Capacity"
impact_type_name application_availability = "Application Availability"
impact_type_name application_outage = "Application Outage"
impact_type_name data_loss = "Data Loss"
impact_type_name update_speed = "Update Speed"
impact_type_name update_stalled = "Update Stalled"

pub record InsightImpact : Type 0 where
  pub level : InsightImpactLevel
  pub type : InsightImpactType
  pub summary : String
  pub description : String

pub record InsightRemediation : Type 0 where
  pub reference : String
  pub estimated_finish : Option Time

pub record UpdateHealthInsightStatus : Type 0 where
  pub started_at : Time
  pub scope : InsightScope
  pub impact : InsightImpact
  pub remediation : InsightRemediation
