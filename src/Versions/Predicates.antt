-- ===== src/Versions/Predicates.antt =====
-- internal/clusterversions/predicates.go. An object that is no ClusterVersion, which the predicates
-- refuse, is left out.
use openshift_update_experie.Prelude.{
  String, Bool, true, false, not, ◌||◌, List, [], ◌∷◌, Option, none, some, if◌then◌else◌, ◌==◌,
}
use openshift_update_experie.Meta.{status_eq}
use openshift_update_experie.Cluster.{
  ClusterVersion, StatusCondition, UpdateHistory, UpdateState, completed_update, partial_update,
  other_update,
}
use openshift_update_experie.Operators.{find_operator_status_condition, operator_progressing}

abbrev pub state_eq : UpdateState → UpdateState → Bool
state_eq completed_update completed_update = true
state_eq partial_update partial_update = true
state_eq (other_update s) (other_update t) = s == t
state_eq _ _ = false

unfoldable pub is_version : String → Bool
is_version name = name == "version"

unfoldable pub desired_version_changed : ClusterVersion → ClusterVersion → Bool
desired_version_changed before after = not (before.desired_version == after.desired_version)

-- Equal lengths are compared by walking both lists.
abbrev pub same_length {ℓ} : {A : Type ℓ} → List A → List A → Bool
same_length [] [] = true
same_length [] (y ∷ ys) = false
same_length (x ∷ xs) [] = false
same_length (x ∷ xs) (y ∷ ys) = same_length xs ys

abbrev pub top_changed : UpdateHistory → UpdateHistory → Bool
top_changed x y =
    not (state_eq x.state y.state) || (not (x.version == y.version) || not (x.image == y.image))

abbrev pub histories_changed : List UpdateHistory → List UpdateHistory → Bool
histories_changed [] [] = false
histories_changed [] (y ∷ ys) = true
histories_changed (x ∷ xs) [] = true
histories_changed (x ∷ xs) (y ∷ ys) = if not (same_length xs ys) then true else top_changed x y

unfoldable pub history_changed : ClusterVersion → ClusterVersion → Bool
history_changed before after = histories_changed before.history after.history

abbrev pub conditions_changed : Option StatusCondition → Option StatusCondition → Bool
conditions_changed none none = false
conditions_changed none (some d) = true
conditions_changed (some c) none = true
conditions_changed (some c) (some d) = not (status_eq c.status d.status)

unfoldable pub progressing_changed : ClusterVersion → ClusterVersion → Bool
progressing_changed before after =
    conditions_changed (find_operator_status_condition before.conditions operator_progressing)
      (find_operator_status_condition after.conditions operator_progressing)

unfoldable pub started_or_completed_updating : ClusterVersion → ClusterVersion → Bool
started_or_completed_updating before after =
    progressing_changed before after
    || (history_changed before after || desired_version_changed before after)
