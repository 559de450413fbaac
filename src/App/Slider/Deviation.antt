-- ===== src/App/Slider/Deviation.antt =====
-- `CalculateADEV` and `CalculateTDEV` of src/internal/app/window_metrics.go. `tauSamples`, at least 1
-- where the program calls them, is a natural number. A loop is on fuel, the number of the samples,
-- which is enough for a counter that grows to at most that number.
use timesync_analyzer.Common.{
  ℕ, zero, suc, ◌+◌, ◌-◌, ◌*◌, ◌≤◌, ◌≡◌, List, if◌then◌else◌, ltb, leb, length, arith, ◌∙◌,
  Bool-cases, inl, inr, nat_beq,
}
use timesync_analyzer.Common.Int.{pos}
use timesync_analyzer.Common.Float.{Float64, FloatOps}
use timesync_analyzer.App.Slider.Mtie.{Sample, offset_at}

-- The variables `sumSq` and `count`.
pub record Acc : Type 0 where
  pub sum_sq : Float64
  pub count : ℕ

module _ (ops : FloatOps) where
  abbrev pub number : ℕ → Float64
  number n = ops.of_int64 (pos n)

  abbrev pub empty_acc : Acc
  empty_acc = record { sum_sq = number 0; count = 0 }

  -- `sumSq += d * d; count++`
  abbrev pub add_square : Acc → Float64 → Acc
  add_square acc d = record { sum_sq = ops.add acc.sum_sq (ops.mul d d); count = suc acc.count }

  -- The second difference of the offsets, at distance `tau_samples`.
  unfoldable pub second_difference : List Sample → ℕ → ℕ → Float64
  second_difference samples tau_samples i =
      ops.add
        (ops.sub (ops.of_int64 (offset_at samples (i + 2 * tau_samples)))
          (ops.mul (number 2) (ops.of_int64 (offset_at samples (i + tau_samples)))))
        (ops.of_int64 (offset_at samples i))

  pub adev_loop : List Sample → ℕ → ℕ → ℕ → Acc → Acc
  adev_loop samples tau_samples zero i acc = acc
  adev_loop samples tau_samples (suc fuel) i acc =
      let next = add_square acc (second_difference samples tau_samples i) in
      let rest = adev_loop samples tau_samples fuel (suc i) next in
      if ltb (i + 2 * tau_samples) (length samples) then rest else acc

  unfoldable pub calculate_adev : List Sample → ℕ → Float64 → Float64
  calculate_adev samples tau_samples tau_seconds =
      let tau_ns = ops.mul tau_seconds (number 1000000000) in
      let acc = adev_loop samples tau_samples (length samples) 0 empty_acc in
      if ltb (length samples) (2 * tau_samples + 1)
      then number 0
      else if ops.le tau_ns (number 0)
      then number 0
      else if nat_beq acc.count 0
      then number 0
      else ops.sqrt (
          ops.div acc.sum_sq
            (ops.mul (ops.mul (ops.mul (number 2) (number acc.count)) tau_ns) tau_ns))

  -- The inner loop: `count` rounds from `j` on.
  unfoldable pub tdev_sum : List Sample → ℕ → ℕ → ℕ → ℕ → Float64 → Float64
  tdev_sum samples tau_samples i zero j sum = sum
  tdev_sum samples tau_samples i (suc count) j sum =
      tdev_sum samples tau_samples i count (suc j)
        (ops.add sum (second_difference samples tau_samples (i + j)))

  pub tdev_loop : List Sample → ℕ → ℕ → ℕ → Acc → Acc
  tdev_loop samples tau_samples zero i acc = acc
  tdev_loop samples tau_samples (suc fuel) i acc =
      let next = add_square acc (tdev_sum samples tau_samples i tau_samples 0 (number 0)) in
      let rest = tdev_loop samples tau_samples fuel (suc i) next in
      if leb (i + 3 * tau_samples) (length samples) then rest else acc

  unfoldable pub calculate_tdev : List Sample → ℕ → Float64
  calculate_tdev samples tau_samples =
      let acc = tdev_loop samples tau_samples (length samples) 0 empty_acc in
      let m = number tau_samples in
      if ltb (length samples) (3 * tau_samples)
      then number 0
      else if nat_beq acc.count 0
      then number 0
      else ops.sqrt
          (ops.div acc.sum_sq (ops.mul (ops.mul (ops.mul (number 6) m) m) (number acc.count)))

  adev_loop-count :
      (samples : List Sample) (tau_samples fuel i : ℕ) (acc : Acc)
      → length samples ≤ i + fuel
      → (adev_loop samples tau_samples fuel i acc).count
        ≡ acc.count + (length samples - 2 * tau_samples - i)
  unfolding adev_loop
  adev_loop-count samples t zero i acc h = omega arith
  adev_loop-count samples t (suc fuel) i acc h =
      elim (Bool-cases (ltb (i + 2 * t) (length samples))) [
        | inl more ↦ rw more (
            let next = add_square acc (second_difference samples t i) in
            adev_loop-count samples t fuel (suc i) next (omega arith) ∙ ground arith)
        | inr done ↦ rw done (ground arith)
      ]

  tdev_loop-count :
      (samples : List Sample) (tau_samples fuel i : ℕ) (acc : Acc)
      → 1 ≤ tau_samples
      → length samples ≤ i + fuel
      → (tdev_loop samples tau_samples fuel i acc).count
        ≡ acc.count + (length samples + 1 - 3 * tau_samples - i)
  unfolding tdev_loop
  tdev_loop-count samples t zero i acc one h = omega arith
  tdev_loop-count samples t (suc fuel) i acc one h =
      elim (Bool-cases (leb (i + 3 * t) (length samples))) [
        | inl more ↦ rw more (
            let next = add_square acc (tdev_sum samples t i t 0 (number 0)) in
            tdev_loop-count samples t fuel (suc i) next one (omega arith) ∙ ground arith)
        | inr done ↦ rw done (ground arith)
      ]

  -- Past the guard on the length, the loop of `CalculateADEV` adds one term for each of the
  -- `n - 2 * tauSamples` starts at which the three samples exist, so it never divides by zero terms.
  pub adev_loop_lem :
      (samples : List Sample) (tau_samples : ℕ)
      → 2 * tau_samples + 1 ≤ length samples
      → ((adev_loop samples tau_samples (length samples) 0 empty_acc).count + 2 * tau_samples
          ≡ length samples)
        × (1 ≤ (adev_loop samples tau_samples (length samples) 0 empty_acc).count)
  adev_loop_lem samples t h =
      let e = adev_loop-count samples t (length samples) 0 empty_acc (omega arith) in
      (omega arith, omega arith)

  -- With `tauSamples` at least 1 and past the guard on the length, the loop of `CalculateTDEV` adds one
  -- term for each of the `n - 3 * tauSamples + 1` starts, so it never divides by zero terms.
  pub tdev_loop_lem :
      (samples : List Sample) (tau_samples : ℕ)
      → 1 ≤ tau_samples
      → 3 * tau_samples ≤ length samples
      → ((tdev_loop samples tau_samples (length samples) 0 empty_acc).count + 3 * tau_samples
          ≡ length samples + 1)
        × (1 ≤ (tdev_loop samples tau_samples (length samples) 0 empty_acc).count)
  tdev_loop_lem samples t one h =
      let e = tdev_loop-count samples t (length samples) 0 empty_acc one (omega arith) in
      (omega arith, omega arith)
