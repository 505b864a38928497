-- ===== src/Versions/Agreement.antt =====
-- Two ways to see whether an operator has reached the target version
-- (internal/controller/clusterversions/impl.go and internal/controller/clusteroperators/impl.go).
use openshift_update_experie.Prelude.{
  ◌≤◌, String, ◌≡◌, refl, Bool, false, List, [], ◌∷◌, ◌==◌, count, arith,
}
use openshift_update_experie.Cluster.{OperandVersion}
use openshift_update_experie.Operators.{is_version_updated, operator_version_name}
use openshift_update_experie.Versions.Assessment.{has_target_version}

abbrev pub names_operator : OperandVersion → Bool
names_operator v = v.name == operator_version_name

none_updated :
    (target : String) (versions : List OperandVersion)
    → count names_operator versions ≤ 0
    → is_version_updated target versions ≡ false
unfolding is_version_updated
none_updated target [] h = refl
none_updated target (v ∷ vs) h = ground (arith, none_updated target vs)

-- The cluster version's insight, which stops at the first version of the operator itself, and the
-- operator's own insight, which looks at all of them, agree on whether the operator is updated if it
-- reports at most one such version.
pub has_target_version-agrees :
    (target : String) (versions : List OperandVersion)
    → count names_operator versions ≤ 1
    → has_target_version target versions ≡ is_version_updated target versions
unfolding has_target_version is_version_updated
has_target_version-agrees target [] h = refl
has_target_version-agrees target (v ∷ vs) h =
    ground (arith, has_target_version-agrees target vs, none_updated target vs)
