-- ===== src/Versions/Estimate.antt =====
-- `baselineDuration`, `estimateCompletion` and `timewiseComplete` of
-- internal/controller/clusterversions/impl.go.
use openshift_update_experie.Prelude.{
  ℕ, ◌*◌, ℤ, pos, exceeds, times, quotient, remainder, sub_times, round_duration, ◌&&◌, List, [],
  ◌∷◌, Option, none, some, if◌then◌else◌,
}
use openshift_update_experie.Mco.{minute}
use openshift_update_experie.Client.{second}
use openshift_update_experie.Cluster.{UpdateHistory, completed_update, partial_update, other_update}
use openshift_update_experie.Versions.Float.{Float64, whole}

abbrev pub hour : ℤ
hour = pos (60 * minute)

-- `item.CompletionTime.Sub(item.StartedTime.Time)`; `none` is the panic on a nil pointer.
abbrev pub duration_of : UpdateHistory → Option ℤ
duration_of item = elim item.completion_time [
  | none ↦ none
  | some completed ↦ some (sub_times completed item.started_time)
]

-- The loop over the items but for the last one.
unfoldable pub first_completed : List UpdateHistory → Option ℤ
first_completed [] = some hour
first_completed (last ∷ []) = some hour
first_completed (item ∷ next ∷ rest) = elim item.state [
  | completed_update ↦ duration_of item
  | partial_update ↦ first_completed (next ∷ rest)
  | other_update s ↦ first_completed (next ∷ rest)
]

-- The first item is the update at hand; fewer than three items end in the second clause of the loop.
unfoldable pub baseline_duration : List UpdateHistory → Option ℤ
unfolding first_completed
baseline_duration [] = some hour
baseline_duration (current ∷ rest) = first_completed rest

module _ {F : Type 0} (float : Float64 F) where
  open float use {of_int, decimal, plus, minus, mul, div, pow, lt, le, to_int64}

  -- `d.Seconds()`.
  abbrev pub seconds : ℤ → F
  seconds d =
      plus (of_int (quotient d second)) (div (of_int (remainder d second)) (whole float second))

  abbrev pub negative_decimal : ℕ → ℕ → F
  negative_decimal n k = minus (whole float 0) (decimal n k)

  unfoldable pub timewise_complete : F → F
  timewise_complete x =
      let x2 = mul x x in
      let x3 = mul (mul x x) x in
      let x4 = pow x (whole float 4) in
      if lt x (decimal 25 2)
      then minus (plus (negative_decimal 3078788 8) (mul (decimal 262886 5) x))
          (mul (decimal 3823954 6) x2)
      else if lt x (decimal 9 1)
      then minus
          (plus
            (minus (plus (decimal 1851215 7) (mul (decimal 164994 5) x))
              (mul (decimal 4676898 6) x2))
            (mul (decimal 5451824 6) x3))
          (mul (decimal 2125286 6) x4)
      else plus
          (minus
            (plus (minus (decimal 2505332 2) (mul (decimal 1073943 1) x))
              (mul (decimal 1725272 1) x2))
            (mul (whole float 123107) x3))
          (mul (decimal 3292181 2) x4)

  -- The estimate of the whole update in seconds: from the progress of the operators once there is
  -- some and it took more than five minutes, else from the baseline.
  abbrev pub estimate_total : ℤ → ℤ → F → F
  estimate_total baseline to_last_observed co_completion =
      let completion = timewise_complete co_completion in
      if lt (whole float 0) co_completion
        && (lt (whole float 0) completion && exceeds to_last_observed (5 * minute))
      then div (seconds to_last_observed) completion
      else seconds baseline

  -- 1.2, or its reciprocal for an update that lasts longer than estimated.
  abbrev pub overestimate : F → F
  overestimate remaining =
      if lt remaining (whole float 0) then div (whole float 1) (decimal 12 1) else decimal 12 1

  unfoldable pub estimate_completion : ℤ → ℤ → ℤ → F → ℤ
  unfolding timewise_complete
  estimate_completion baseline to_last_observed updating_for co_completion =
      let remaining =
        minus (estimate_total baseline to_last_observed co_completion) (seconds updating_for) in
      let estimated = times (to_int64 (mul remaining (overestimate remaining))) second in
      if le (whole float 1) co_completion
      then pos 0
      else if exceeds estimated (10 * minute)
      then round_duration estimated minute
      else round_duration estimated second
