-- ===== src/Versions/Completion.antt =====
-- The completion, the assessment and the estimate of the cluster version's insight
-- (internal/controller/clusterversions/impl.go).
use openshift_update_experie.Prelude.{
  ℕ, ℤ, ◌≤◌, ◌<◌, ◌^◌, ◌%◌, pos, signed, String, ◌≡◌, ◌≢◌, refl, sym, ap, ◌∙◌, inl, inr, Bool, true,
  false, not, ◌&&◌, List, [], ◌∷◌, Option, none, some, if◌then◌else◌, length, count, subst,
  count-le-length, arith, Bool-cases,
}
use openshift_update_experie.Meta.{
  Time, is_zero, ConditionStatus, ConditionsApi, condition_true, condition_false, condition_unknown,
  condition_other,
}
use openshift_update_experie.Api.{
  ClusterVersionProgressInsightStatus, ClusterVersionAssessment, version_unknown,
  version_progressing, version_completed, version_degraded,
}
use openshift_update_experie.Cluster.{
  ClusterVersion, ClusterOperator, UpdateHistory, UpdateState, StatusCondition, completed_update,
  partial_update, other_update,
}
use openshift_update_experie.Versions.Float.{Float64, IsOrdered, whole}
use openshift_update_experie.Versions.Updating.{is_control_plane_updating, by_status}
use openshift_update_experie.Versions.Estimate.{baseline_duration}
use openshift_update_experie.Versions.Assessment.{
  has_target_version, updating_of, assessment_of_status, is_over, operator_completion,
  co_completion, estimated_at, observed_progress, version_insight_with, assess_cluster_version,
}

signed_small : (n : ℕ) → n < 2 ^ 31 → signed (2 ^ 32) (n % 2 ^ 32) ≡ pos n
signed_small n h = ground arith

and_false : (b : Bool) → (b && false) ≡ false
and_false true = refl
and_false false = refl

-- The estimate is there exactly if it is asked for, whatever the baseline.
estimated :
    (b c : Bool) (o : Option ℤ) (f : ℤ → Time)
    → b ≡ true
    → c ≡ false
    → (if b && not c then (elim o [ none ↦ none | some x ↦ some (some (f x)) ]) else some none)
      ≢ some none
estimated true false none f h k e = cc e
estimated true false (some x) f h k e = cc e
estimated true true o f h k e = cc k
estimated false c o f h k e = cc h

is_over-completed : (a : ClusterVersionAssessment) → is_over a ≡ true → a ≡ version_completed
is_over-completed version_completed h = refl
is_over-completed version_unknown h = cc h
is_over-completed version_progressing h = cc h
is_over-completed version_degraded h = cc h

some_equal : (x y : Option Time) → some x ≡ some y → x ≡ y
some_equal x y h = cc h

-- Without the verdict that the update is over there is no time of its completion.
module _ (p : StatusCondition) (started : Time) (version image : String) where
  abbrev Untimed : ConditionStatus → UpdateState → Option Time → Type 0
  Untimed s state completed =
      let r = by_status s p record {
        state = state;
        started_time = started;
        completion_time = completed;
        version = version;
        image = image;
      } in
      is_over (assessment_of_status r.0.status) ≡ false → r.2 ≡ 0

  untimed :
      (s : ConditionStatus) (state : UpdateState) (completed : Option Time)
      → p.status ≡ s
      → Untimed s state completed
  untimed condition_true partial_update none e h = refl
  untimed condition_true partial_update (some t) e h = refl
  untimed condition_true completed_update completed e h = refl
  untimed condition_true (other_update o) completed e h = refl
  untimed condition_false completed_update none e h = refl
  untimed condition_false completed_update (some t) e h = cc h
  untimed condition_false partial_update completed e h = refl
  untimed condition_false (other_update o) completed e h = refl
  untimed condition_unknown state completed e h = refl
  untimed (condition_other o) state completed e h = refl

updating_untimed :
    (p : Option StatusCondition) (item : Option UpdateHistory)
    → let r = is_control_plane_updating p item in
      is_over (assessment_of_status r.0.status) ≡ false → r.2 ≡ 0
unfolding is_control_plane_updating
updating_untimed none item h = refl
updating_untimed (some p) none h = refl
updating_untimed (some p) (some item) h =
    untimed p item.started_time item.version item.image p.status item.state item.completion_time
      refl h

module _ {F : Type 0} (float : Float64 F) (laws : IsOrdered float) where
  -- The share of the updated operators lies between zero and one.
  operator_completion-between :
      (target : String) (operators : List ClusterOperator)
      → length operators < 2 ^ 31
      → (float.le (whole float 0) (operator_completion float target operators) ≡ true)
        × (float.le (operator_completion float target operators) (whole float 1) ≡ true)
  unfolding operator_completion
  operator_completion-between target [] h =
      (laws.whole_le 0 0 (omega arith) (omega arith), laws.whole_le 0 1 (omega arith) (omega arith))
  operator_completion-between target (co ∷ cos) h =
      let updated = count (λ o. has_target_version target o.versions) (co ∷ cos) in
      let most = count-le-length (λ o. has_target_version target o.versions) (co ∷ cos) in
      let share : operator_completion float target (co ∷ cos)
          ≡ float.div (whole float updated) (whole float (length (co ∷ cos))) =
        ap (λ i. float.div (float.of_int i) (whole float (length (co ∷ cos))))
          (signed_small updated (omega (arith, most, h))) in
      (
        ap (λ x. float.le (whole float 0) x) share
            ∙ laws.zero_le_div updated (length (co ∷ cos)) (omega (arith, most, h)) (omega arith) h,
        ap (λ x. float.le x (whole float 1)) share
            ∙ laws.div_le_one updated (length (co ∷ cos)) most (omega arith) h,
      )

  chosen :
      (b : Bool) (target : String) (operators : List ClusterOperator)
      → length operators < 2 ^ 31
      → let share = if b then whole float 1 else operator_completion float target operators in
        (float.le (whole float 0) share ≡ true) × (float.le share (whole float 1) ≡ true)
  chosen true target operators h =
      (laws.whole_le 0 1 (omega arith) (omega arith), laws.whole_le 1 1 (omega arith) (omega arith))
  chosen false target operators h = operator_completion-between target operators h

  -- So does the share that counts, and its percentage is at most 100.
  percentage :
      (x : F)
      → float.le (whole float 0) x ≡ true
      → float.le x (whole float 1) ≡ true
      → float.to_int32 (float.mul x (whole float 100)) ≤ 100
  percentage x h k =
      laws.to_int32_le _ 100 (omega arith) (laws.zero_mul_le x 100 h k (omega arith)) (
        laws.le_trans _ (float.mul (whole float 1) (whole float 100)) _
          (laws.mul_le x (whole float 1) 100 h k (laws.whole_le 1 1 (omega arith) (omega arith))
            (omega arith))
          (ap (λ y. float.le y (whole float 100)) (laws.one_mul 100 (omega arith))
            ∙ laws.whole_le 100 100 (omega arith) (omega arith)))

  whole_percentage : float.to_int32 (float.mul (whole float 1) (whole float 100)) ≡ 100
  whole_percentage =
      ap float.to_int32 (laws.one_mul 100 (omega arith)) ∙ laws.to_int32_whole 100 (omega arith)

  module _ (api : ConditionsApi) (wall now : Time) (cv : ClusterVersion)
      (previous : Option ClusterVersionProgressInsightStatus) (operators : List ClusterOperator)
      (few : length operators < 2 ^ 31) (s : ClusterVersionProgressInsightStatus)
      (assessed : assess_cluster_version float api wall now cv previous operators ≡ some s) where
    abbrev share : F
    share = co_completion float cv operators

    abbrev progress : Time
    progress = observed_progress now previous (float.to_int32 (float.mul share (whole float 100)))

    abbrev completed : Bool
    completed = is_over (assessment_of_status (updating_of cv).0.status)

    abbrev Written : Option Time → Type 0
    Written e =
        (estimated_at float now cv operators progress ≡ some e)
        × (version_insight_with float api wall now cv previous operators e ≡ s)

    split :
        (o : Option (Option Time))
        → estimated_at float now cv operators progress ≡ o
        → (elim o [
          | none ↦ none
          | some e ↦ some (version_insight_with float api wall now cv previous operators e)
        ])
          ≡ some s
        → (e : Option Time) × Written e
    split none h k = cc k
    split (some e) h k = (e, (h, cc k))

    written : (e : Option Time) × Written e
    unfolding assess_cluster_version
    written = split (estimated_at float now cv operators progress) refl assessed

    no_completion :
        completed ≡ false
        → (if is_zero (updating_of cv).2 then none else some (updating_of cv).2) ≡ none
    unfolding updating_of
    no_completion h = rw (updating_untimed _ _ h) refl

    no_estimate : completed ≡ true → estimated_at float now cv operators progress ≡ some none
    no_estimate h = rw (h, and_false (float.le (whole float 1) (whole float 1))) refl

    with_estimate :
        completed ≡ false
        → float.le share (whole float 1) ≡ true
        → estimated_at float now cv operators progress ≢ some none
    with_estimate h k e =
        estimated (float.le share (whole float 1)) completed (baseline_duration cv.history) _ k h e

    -- Whenever an insight is assessed of fewer than 2 ^ 31 operators: a completed update is at 100
    -- percent and has no estimate; any other has an estimate and no time of completion. The completion
    -- is at most 100 percent. The float64 is relied on to keep 31-bit integers exact and the order.
    pub assess_cluster_version_lem :
        (s.assessment ≡ version_completed
          → (s.completion ≡ 100) × (s.estimated_completed_at ≡ none))
        × (s.assessment ≢ version_completed
            → (s.estimated_completed_at ≢ none) × (s.completed_at ≡ none))
        × (s.completion ≤ 100)
    assess_cluster_version_lem =
        let (e, (h, k)) = written in
        let assessed_as = ap (λ i. i.assessment) k in
        let estimated_as = ap (λ i. i.estimated_completed_at) k in
        let between = chosen completed cv.desired_version operators few in
        (
          λ c.
              let done = ap is_over (assessed_as ∙ c) in
              (
                ap (λ i. i.completion) (sym k)
                    ∙ ap (λ x. float.to_int32 (float.mul x (whole float 100)))
                        (ap
                          (λ b.
                            if b
                            then whole float 1
                            else operator_completion float cv.desired_version operators)
                          done)
                    ∙ whole_percentage,
                sym estimated_as ∙ some_equal e none (sym h ∙ no_estimate done),
              ),
          λ c. elim (Bool-cases completed) [
            | inl done ↦ absurd (c (sym assessed_as ∙ is_over-completed _ done))
            | inr going ↦ (
              λ z. with_estimate going between.1 (h ∙ ap some (estimated_as ∙ z)),
              ap (λ i. i.completed_at) (sym k) ∙ no_completion going,
            )
          ],
          subst (λ n. n ≤ 100) (ap (λ i. i.completion) k) (percentage share between.0 between.1),
        )
