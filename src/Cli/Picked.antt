-- ===== src/Cli/Picked.antt =====
-- The lists that the command sorts the operators into (cmd/oc-update-status/controlplane.go).
use openshift_update_experie.Prelude.{
  Bool, Bool-cases, inl, inr, ◌&&◌, ◌==◌, if◌then◌else◌, append_nil, append_assoc, eq_iff, sym, ◌∙◌,
  ap, suc, String, ◌≡◌, refl, false, List, [], ◌∷◌, ◌++◌, Option, none, some, subst, arith,
}
use openshift_update_experie.Meta.{
  Condition, ConditionsApi, condition_true, condition_false, status_eq,
}
use openshift_update_experie.Api.{
  ClusterOperatorProgressInsightStatus, operator_updating_type, operator_healthy_type,
  operator_reason_updated, operator_reason_pending, operator_healthy_unavailable,
  operator_healthy_degraded,
}
use openshift_update_experie.Cli.ControlPlane.{
  Operator, Operators, sort_updating, sort_healthy, sort_operator, sort_operators,
}

-- What the command has of an operator, if its condition passes the test.
abbrev pub pick : (Condition → Bool) → String → Option Condition → List Operator
pick test name none = []
pick test name (some c) = if test c then record { name = name; condition = c } ∷ [] else []

-- The operators whose condition of the type passes the test, in their order.
abbrev pub picked :
    ConditionsApi
    → String
    → (Condition → Bool)
    → List ClusterOperatorProgressInsightStatus
    → List Operator
picked api type test [] = []
picked api type test (co ∷ cos) =
    pick test co.name (api.find_status_condition co.conditions type) ++ picked api type test cos

abbrev pub is_true : Condition → Bool
is_true c = status_eq c.status condition_true

abbrev pub is_false_for : String → Condition → Bool
is_false_for reason c = status_eq c.status condition_false && c.reason == reason

-- The six lists, each picked by one test on one condition.
abbrev pub IsSortedAs :
    ConditionsApi → List ClusterOperatorProgressInsightStatus → Operators → Type 0
IsSortedAs api cos o =
    (o.updating ≡ picked api operator_updating_type is_true cos)
    × (o.updated ≡ picked api operator_updating_type (is_false_for operator_reason_updated) cos)
    × (o.waiting ≡ picked api operator_updating_type (is_false_for operator_reason_pending) cos)
    × (o.healthy ≡ picked api operator_healthy_type is_true cos)
    × (o.unavailable
        ≡ picked api operator_healthy_type (is_false_for operator_healthy_unavailable) cos)
    × (o.degraded ≡ picked api operator_healthy_type (is_false_for operator_healthy_degraded) cos)

distinct : (s a b : String) → (a == b) ≡ false → (s == a && s == b) ≡ false
distinct s a b h = elim (Bool-cases (s == a)) [
  | inl e ↦ rw e (subst (λ t. (t == b) ≡ false) (sym ((eq_iff s a).0 e)) h)
  | inr e ↦ rw e refl
]

-- What each switch adds to the lists.
updating_sorted :
    (name : String) (c : Option Condition) (o : Operators)
    → let s = sort_updating name c o in
      (s.updating ≡ o.updating ++ pick is_true name c)
      × (s.updated ≡ o.updated ++ pick (is_false_for operator_reason_updated) name c)
      × (s.waiting ≡ o.waiting ++ pick (is_false_for operator_reason_pending) name c)
      × (s.healthy ≡ o.healthy)
      × (s.unavailable ≡ o.unavailable)
      × (s.degraded ≡ o.degraded)
updating_sorted name none o =
    (sym (append_nil _), sym (append_nil _), sym (append_nil _), refl, refl, refl)
updating_sorted name (some c) o = ground (
  arith,
  append_nil o.updating,
  append_nil o.updated,
  append_nil o.waiting,
  distinct c.reason operator_reason_updated operator_reason_pending refl,
)

healthy_sorted :
    (name : String) (c : Option Condition) (o : Operators)
    → let s = sort_healthy name c o in
      (s.healthy ≡ o.healthy ++ pick is_true name c)
      × (s.unavailable ≡ o.unavailable ++ pick (is_false_for operator_healthy_unavailable) name c)
      × (s.degraded ≡ o.degraded ++ pick (is_false_for operator_healthy_degraded) name c)
      × (s.updating ≡ o.updating)
      × (s.updated ≡ o.updated)
      × (s.waiting ≡ o.waiting)
healthy_sorted name none o =
    (sym (append_nil _), sym (append_nil _), sym (append_nil _), refl, refl, refl)
healthy_sorted name (some c) o = ground (
  arith,
  append_nil o.healthy,
  append_nil o.unavailable,
  append_nil o.degraded,
  distinct c.reason operator_healthy_unavailable operator_healthy_degraded refl,
)

-- An item before the ones to come.
joined : (xs ys zs ws all : List Operator) → ws ≡ xs ++ ys → all ≡ ws ++ zs → all ≡ xs ++ (ys ++ zs)
joined xs ys zs ws all h k = k ∙ ap (λ l. l ++ zs) h ∙ append_assoc xs ys zs

-- The same, with an item by the second switch.
joined_after :
    (xs vs ys zs ws all : List Operator)
    → ws ≡ vs ++ ys
    → vs ≡ xs
    → all ≡ ws ++ zs
    → all ≡ xs ++ (ys ++ zs)
joined_after xs vs ys zs ws all h e k = joined xs ys zs ws all (h ∙ ap (λ l. l ++ ys) e) k

module _ (api : ConditionsApi) where
  abbrev pub Extends : List ClusterOperatorProgressInsightStatus → Operators → Operators → Type 0
  Extends cos o s =
      (s.updating ≡ o.updating ++ picked api operator_updating_type is_true cos)
      × (s.updated
          ≡ o.updated
            ++ picked api operator_updating_type (is_false_for operator_reason_updated) cos)
      × (s.waiting
          ≡ o.waiting
            ++ picked api operator_updating_type (is_false_for operator_reason_pending) cos)
      × (s.healthy ≡ o.healthy ++ picked api operator_healthy_type is_true cos)
      × (s.unavailable
          ≡ o.unavailable
            ++ picked api operator_healthy_type (is_false_for operator_healthy_unavailable) cos)
      × (s.degraded
          ≡ o.degraded
            ++ picked api operator_healthy_type (is_false_for operator_healthy_degraded) cos)

  pub sort_operators-Extends :
      (cos : List ClusterOperatorProgressInsightStatus) (o : Operators)
      → Extends cos o (sort_operators api cos o)
  unfolding sort_operators
  sort_operators-Extends [] o = (
    sym (append_nil _),
    sym (append_nil _),
    sym (append_nil _),
    sym (append_nil _),
    sym (append_nil _),
    sym (append_nil _),
  )
  sort_operators-Extends (co ∷ cos) o =
      let counted : Operators = record o { total = suc o.total } in
      let u = api.find_status_condition co.conditions operator_updating_type in
      let between = sort_updating co.name u counted in
      let (u1, u2, u3, u4, u5, u6) = updating_sorted co.name u counted in
      let (h1, h2, h3, h4, h5, h6) =
        healthy_sorted co.name (api.find_status_condition co.conditions operator_healthy_type)
          between in
      let (r1, r2, r3, r4, r5, r6) = sort_operators-Extends cos (sort_operator api co o) in
      (
        joined _ _ _ _ _ (h4 ∙ u1) r1,
        joined _ _ _ _ _ (h5 ∙ u2) r2,
        joined _ _ _ _ _ (h6 ∙ u3) r3,
        joined_after _ _ _ _ _ _ h1 u4 r4,
        joined_after _ _ _ _ _ _ h2 u5 r5,
        joined_after _ _ _ _ _ _ h3 u6 r6,
      )
