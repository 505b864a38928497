-- ===== src/Health/Forced.antt =====
-- `forcedHealthInsight` and `nameForHealthInsight` of internal/controller/clusterversions/impl.go.
use openshift_update_experie.Prelude.{
  to_lower, trim_right, String, List, [], ◌∷◌, Option, none, some, if◌then◌else◌, ◌<>◌,
}
use openshift_update_experie.Meta.{Time}
use openshift_update_experie.Mco.{get?, is_some}
use openshift_update_experie.Api.{
  ResourceRef, UpdateHealthInsightStatus, control_plane_scope, info_level, none_impact,
}
use openshift_update_experie.Cluster.{ClusterVersion}

-- `uscForceHealthInsightAnnotation`.
abbrev pub force_health_insight_annotation : String
force_health_insight_annotation = "oue.openshift.muller.dev/force-health-insight"

-- `group` is the name of the config API group, a constant of the vendored API.
unfoldable pub forced_health_insight :
    String → ClusterVersion → Time → Option UpdateHealthInsightStatus
unfolding get?
forced_health_insight group cv now =
    if is_some (get? cv.annotations force_health_insight_annotation)
    then some record {
      started_at = now;
      scope = record {
        type = control_plane_scope;
        resources =
            record { group = group; resource = "clusterversions"; name = cv.name; namespace = "" }
            ∷ [];
      };
      impact = record {
        level = info_level;
        type = none_impact;
        summary = "Forced health insight for ClusterVersion " <> cv.name;
        description =
            "The resource has a \"" <> force_health_insight_annotation
            <> "\" annotation which forces USC to generate this health insight for testing purposes.";
      };
      remediation = record {
        reference = "https://issues.redhat.com/browse/OTA-1418";
        estimated_finish = none;
      };
    }
    else none

-- What is written to the hash for the resources.
abbrev pub hashed_resources : List ResourceRef → String
hashed_resources [] = ""
hashed_resources (r ∷ rs) = r.group <> r.resource <> r.namespace <> r.name <> hashed_resources rs

-- `digest` is the MD5 sum of a text in base 32, a text in ASCII with its padding.
unfoldable pub name_for_health_insight :
    (String → String) → String → UpdateHealthInsightStatus → String
unfolding to_lower trim_right
name_for_health_insight digest prefix insight =
    prefix
    <> "-"
    <> to_lower (
        trim_right b'='
          (digest (insight.impact.summary <> hashed_resources insight.scope.resources)))
