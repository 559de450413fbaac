-- ===== src/App/Slider/Mtie/Invariant.antt =====
-- The invariant of the loop of `CalculateMTIE` in src/internal/app/window_metrics.go.
use timesync_analyzer.Common.{
  ℕ, zero, suc, ◌+◌, ◌-◌, ◌^◌, ◌≤◌, ◌<◌, ◌≡◌, ◌⊎◌, inl, inr, refl, List, true, false, ◌&&◌, arith,
  ltb, length, Bool-cases,
}
use timesync_analyzer.Common.Int.{ℤ, pos, negsuc, sub64, ◌-ℤ◌, ◌≤ℤ◌, -ℤ_parts, wrap64_of_range}
use timesync_analyzer.Common.Float.{Float64, FloatOps}
use timesync_analyzer.App.Slider.Deque.{Covers, push-Covers, pop_front-Covers}
use timesync_analyzer.App.Slider.Mtie.{
  Sample, Window, offset_at, time_at, max_le, min_le, push, too_far, advance, shrink,
}

-- What the proof needs of float64 numbers: subtraction is monotone, rounding included.
pub record FloatOrder (ops : FloatOps) : Type 0 where
  pub later_minuend :
      (x a b c : Float64)
      → ops.le a b ≡ true
      → ops.lt x (ops.sub a c) ≡ true
      → ops.lt x (ops.sub b c) ≡ true
  pub earlier_subtrahend :
      (x a b c : Float64)
      → ops.le a b ≡ true
      → ops.lt x (ops.sub c b) ≡ true
      → ops.lt x (ops.sub c a) ≡ true

-- The samples come in the order of time, and their offsets lie within 2 ^ 62 of zero, so that a
-- difference of two does not wrap.
pub record InOrder (ops : FloatOps) (samples : List Sample) : Type 0 where
  pub sorted :
      (i j : ℕ) → i ≤ j → j < length samples → ops.le (time_at samples i) (time_at samples j) ≡ true
  pub lower : (i : ℕ) → i < length samples → negsuc (2 ^ 62 - 1) ≤ℤ offset_at samples i
  pub upper : (i : ℕ) → i < length samples → offset_at samples i ≤ℤ pos (2 ^ 62 - 1)

pub sub64_of_small :
    (a b : ℤ)
    → negsuc (2 ^ 62 - 1) ≤ℤ a
    → a ≤ℤ pos (2 ^ 62 - 1)
    → negsuc (2 ^ 62 - 1) ≤ℤ b
    → b ≤ℤ pos (2 ^ 62 - 1)
    → sub64 a b ≡ a -ℤ b
unfolding sub64
sub64_of_small a b al ah bl bh =
    wrap64_of_range (a -ℤ b) (omega (arith, -ℤ_parts a b)) (omega (arith, -ℤ_parts a b))

module _ (ops : FloatOps) (samples : List Sample) (tau : Float64) where
  -- The window between two samples, both included, spans at most `tau`.
  abbrev pub Near : ℕ → ℕ → Type 0
  Near lo hi = too_far ops samples tau hi lo ≡ false

  abbrev pub diff : ℕ → ℕ → ℤ
  diff i j = offset_at samples i -ℤ offset_at samples j

  -- The deques stand for the samples from `left` up to, and without, `next`.
  pub record Shaped (next : ℕ) (w : Window) : Type 0 where
    pub max_covers : Covers (max_le ops samples tau) w.left w.max_deque next
    pub min_covers : Covers (min_le ops samples tau) w.left w.min_deque next

  -- What was left of the window is too far from sample `next` and from all later ones.
  abbrev pub Passed : ℕ → ℕ → Type 0
  Passed next left =
      (i j : ℕ) → i < left → next ≤ j → j < length samples → too_far ops samples tau j i ≡ true

  pub push-Shaped :
      (right : ℕ) (w : Window)
      → w.left ≤ right
      → Shaped right w
      → Shaped (suc right) (push ops samples tau right w)
  unfolding push
  push-Shaped right w l s = record {
    max_covers =
        push-Covers (max_le ops samples tau) (λ i j k a b. ground arith) right (λ i. ground arith) l
          s.max_covers;
    min_covers =
        push-Covers (min_le ops samples tau) (λ i j k a b. ground arith) right (λ i. ground arith) l
          s.min_covers;
  }

  advance-Shaped : (next : ℕ) (w : Window) → Shaped next w → Shaped next (advance ops samples tau w)
  unfolding advance
  advance-Shaped next w s = record {
    max_covers = pop_front-Covers (max_le ops samples tau) (suc w.left) (omega arith) s.max_covers;
    min_covers = pop_front-Covers (min_le ops samples tau) (suc w.left) (omega arith) s.min_covers;
  }

  -- After the inner loop.
  pub record Shrunk (right : ℕ) (w : Window) (mtie : ℤ) : Type 0 where
    pub shaped : Shaped (suc right) w
    pub within : w.left ≤ right
    pub passed : Passed right w.left
    pub stopped : (too_far ops samples tau right w.left ≡ false) ⊎ (w.left ≡ right)
    pub same : w.mtie ≡ mtie

  module _ (order : FloatOrder ops) (sound : InOrder ops samples) where
    advance-Passed :
        (right : ℕ) (w : Window)
        → Passed right w.left
        → too_far ops samples tau right w.left ≡ true
        → Passed right (suc w.left)
    advance-Passed right w p far i j li rj jn = elim (Bool-cases (ltb i w.left)) [
      | inl before ↦ p i j (ground arith) rj jn
      | inr here' ↦
          let e : i ≡ w.left = ground arith in
          rw e (
            order.later_minuend tau (time_at samples right) (time_at samples j)
              (time_at samples w.left) (sound.sorted right j rj jn) far)
    ]

    pub shrink-Shrunk :
        (fuel right : ℕ) (w : Window)
        → right < length samples
        → right ≤ w.left + fuel
        → w.left ≤ right
        → Shaped (suc right) w
        → Passed right w.left
        → Shrunk right (shrink ops samples tau fuel right w) w.mtie
    unfolding shrink advance
    shrink-Shrunk zero right w inside enough l s p = record {
      shaped = s;
      within = l;
      passed = p;
      stopped = inr (omega arith);
      same = refl;
    }
    shrink-Shrunk (suc fuel) right w inside enough l s p =
        elim (Bool-cases (ltb w.left right && too_far ops samples tau right w.left)) [
          | inl go ↦
              rw (go, shrink)
                (shrink-Shrunk fuel right (advance ops samples tau w) inside (omega arith)
                  (ground arith) (advance-Shaped (suc right) w s)
                  (advance-Passed right w p (ground arith)))
          | inr stop ↦
              rw (stop, shrink)
                (record { shaped = s; within = l; passed = p; stopped = ground arith; same = refl })
        ]
