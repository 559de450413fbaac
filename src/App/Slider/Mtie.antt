-- ===== src/App/Slider/Mtie.antt =====
-- `CalculateMTIE` of src/internal/app/window_metrics.go: the maximum time interval error by a sliding
-- window with two deques. The operations on float64 are a parameter; offsets are int64.
pub mod Invariant
pub mod Correct
use timesync_analyzer.Common.{
  ℕ, zero, suc, ◌+◌, List, [], ◌∷◌, Bool, true, false, ◌&&◌, Option, none, some, if◌then◌else◌, ltb,
  length, get_or,
}
use timesync_analyzer.Common.Int.{ℤ, pos, leb_ℤ, ltb_ℤ, sub64}
use timesync_analyzer.Common.Float.{Float64, FloatOps}
use timesync_analyzer.App.Slider.Deque.{Deque, pop_back_while, pop_front_while, front}

pub record Sample : Type 0 where
  pub time_sec : Float64
  pub offset_ns : ℤ

-- `samples[i]`. An index past the end, a panic in Go, reads as this sample; the theorems speak of
-- indices within the list only.
abbrev pub out_of_range : Sample
out_of_range = record { time_sec = 0; offset_ns = pos 0 }

abbrev pub offset_at : List Sample → ℕ → ℤ
offset_at samples i = (get_or samples i out_of_range).offset_ns

abbrev pub time_at : List Sample → ℕ → Float64
time_at samples i = (get_or samples i out_of_range).time_sec

-- The variables of the loop.
pub record Window : Type 0 where
  pub max_deque : Deque
  pub min_deque : Deque
  pub left : ℕ
  pub mtie : ℤ

abbrev pub empty_window : Window
empty_window = record { max_deque = []; min_deque = []; left = 0; mtie = pos 0 }

module _ (ops : FloatOps) (samples : List Sample) (tau : Float64) where
  abbrev pub max_le : ℕ → ℕ → Bool
  max_le i j = leb_ℤ (offset_at samples i) (offset_at samples j)

  abbrev pub min_le : ℕ → ℕ → Bool
  min_le i j = leb_ℤ (offset_at samples j) (offset_at samples i)

  -- The two loops that pop the back, each with its push.
  pub push : ℕ → Window → Window
  push right w = record w {
    max_deque = right ∷ pop_back_while (λ idx. max_le idx right) w.max_deque;
    min_deque = right ∷ pop_back_while (λ idx. min_le idx right) w.min_deque;
  }

  -- `samples[right].TimeSec-samples[left].TimeSec > tauSeconds`
  abbrev pub too_far : ℕ → ℕ → Bool
  too_far right left = ops.lt tau (ops.sub (time_at samples right) (time_at samples left))

  -- One round of the loop that moves `left`.
  pub advance : Window → Window
  advance w = record w {
    left = suc w.left;
    max_deque = pop_front_while (λ idx. ltb idx (suc w.left)) w.max_deque;
    min_deque = pop_front_while (λ idx. ltb idx (suc w.left)) w.min_deque;
  }

  -- The loop, on fuel: each round makes `right - left` smaller, so `right` rounds are enough.
  pub shrink : ℕ → ℕ → Window → Window
  shrink zero right w = w
  shrink (suc fuel) right w = elim (ltb w.left right && too_far right w.left) [
    | true ↦ shrink fuel right (advance w)
    | false ↦ w
  ]

  -- The difference of the two fronts, if both deques hold something and it is a new maximum.
  pub raise : Window → Option ℕ → Option ℕ → Window
  raise w (some i) (some j) =
      let diff = sub64 (offset_at samples i) (offset_at samples j) in
      if ltb_ℤ w.mtie diff then record w { mtie = diff } else w
  raise w none j = w
  raise w (some i) none = w

  pub measure : Window → Window
  measure w = raise w (front w.max_deque) (front w.min_deque)

  -- The body of the loop over `right`.
  pub turn : ℕ → Window → Window
  turn right w = measure (shrink right right (push right w))

  -- `count` rounds from `right` on.
  pub turns : ℕ → ℕ → Window → Window
  turns zero right w = w
  turns (suc count) right w = turns count (suc right) (turn right w)

  pub calculate_mtie : ℤ
  calculate_mtie =
      if ltb (length samples) 2 then pos 0 else (turns (length samples) 0 empty_window).mtie
