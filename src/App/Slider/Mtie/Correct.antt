-- ===== src/App/Slider/Mtie/Correct.antt =====
-- `CalculateMTIE` of src/internal/app/window_metrics.go computes the maximum time interval error.
use timesync_analyzer.Common.{
  ℕ, zero, suc, ◌+◌, ◌≤◌, ◌<◌, ◌≡◌, ◌⊎◌, inl, inr, refl, List, true, false, some, if◌then◌else◌,
  arith, ltb, length, Bool-cases,
}
use timesync_analyzer.Common.Int.{ℤ, pos, leb_ℤ, ltb_ℤ, sub64, ◌-ℤ◌, ◌≤ℤ◌, -ℤ_parts}
use timesync_analyzer.Common.Float.{Float64, FloatOps}
use timesync_analyzer.App.Slider.Deque.{nothing, front-best, front}
use timesync_analyzer.App.Slider.Mtie.{
  Sample, Window, offset_at, max_le, min_le, push, raise, measure, turn, turns, empty_window,
  calculate_mtie,
}
use timesync_analyzer.App.Slider.Mtie.Invariant.{
  FloatOrder, InOrder, sub64_of_small, Near, diff, Shaped, Passed, push-Shaped, Shrunk,
  shrink-Shrunk,
}

-- A value is zero, or the difference of two samples of a window that spans at most `tau` (or is one
-- sample long).
pub data Attained (ops : FloatOps) (samples : List Sample) (tau : Float64) (v : ℤ) : Type 0 where
  nothing_measured : v ≡ pos 0 → Attained ops samples tau v
  measured :
      (lo hi i j : ℕ)
      → hi < length samples
      → (Near ops samples tau lo hi) ⊎ (lo ≡ hi)
      → (lo ≤ i) × (i ≤ hi) × (lo ≤ j) × (j ≤ hi)
      → v ≡ diff ops samples tau i j
      → Attained ops samples tau v

≤ℤ_refl : (a : ℤ) → a ≤ℤ a
≤ℤ_refl a = omega arith

le_of_ltb_ℤ : (a b : ℤ) → ltb_ℤ a b ≡ true → a ≤ℤ b
le_of_ltb_ℤ a b h = ground arith

le_of_not_ltb_ℤ : (a b : ℤ) → ltb_ℤ a b ≡ false → b ≤ℤ a
le_of_not_ltb_ℤ a b h = ground arith

-- A difference between a greatest and a least number is a greatest difference.
between : (a b f g v : ℤ) → leb_ℤ a f ≡ true → leb_ℤ g b ≡ true → f -ℤ g ≤ℤ v → a -ℤ b ≤ℤ v
between a b f g v af gb best = ground (arith, -ℤ_parts a b, -ℤ_parts f g)

module _ (ops : FloatOps) (samples : List Sample) (tau : Float64) where
  -- A value bounds the differences within the windows that end before sample `next`.
  abbrev pub Bounds : ℕ → ℤ → Type 0
  Bounds next v =
      (i j : ℕ)
      → i ≤ j
      → j < next
      → Near ops samples tau i j
      → (diff ops samples tau i j ≤ℤ v) × (diff ops samples tau j i ≤ℤ v)

  -- The state between two rounds.
  pub record Inv (next : ℕ) (w : Window) : Type 0 where
    pub shaped : Shaped ops samples tau next w
    pub within : w.left ≤ next
    pub passed : Passed ops samples tau next w.left
    pub nonneg : pos 0 ≤ℤ w.mtie
    pub bounds : Bounds next w.mtie
    pub attained : Attained ops samples tau w.mtie

  -- What `measure` does once both fronts are known.
  measured_window :
      (w : Window) (f g : ℕ)
      → front w.max_deque ≡ some f
      → front w.min_deque ≡ some g
      → sub64 (offset_at samples f) (offset_at samples g) ≡ diff ops samples tau f g
      → measure ops samples tau w ≡ (
          if ltb_ℤ w.mtie (diff ops samples tau f g)
          then record w { mtie = diff ops samples tau f g }
          else w)
  unfolding measure raise
  measured_window w f g max min small = rw (max, min, small) refl

  module _ (order : FloatOrder ops) (sound : InOrder ops samples) where
    -- The window once a value has been measured that bounds the differences with sample `right`.
    raised :
        (right f g : ℕ) (w : Window) (mtie v : ℤ)
        → right < length samples
        → Shrunk ops samples tau right w mtie
        → pos 0 ≤ℤ mtie
        → Bounds right mtie
        → mtie ≤ℤ v
        → diff ops samples tau f g ≤ℤ v
        → ((i : ℕ) → w.left ≤ i → i < suc right → max_le ops samples tau i f ≡ true)
        → ((i : ℕ) → w.left ≤ i → i < suc right → min_le ops samples tau i g ≡ true)
        → Attained ops samples tau v
        → Inv (suc right) (record w { mtie = v })
    raised right f g w mtie v inside s nonneg bounds up best below above attained = record {
      shaped = record { max_covers = s.shaped.max_covers; min_covers = s.shaped.min_covers };
      within = omega (arith, s.within);
      passed = λ i j il rj. s.passed i j il (omega arith);
      nonneg = omega arith;
      bounds = λ i j ij jr near. elim (Bool-cases (ltb j right)) [
        | inl old ↦
            let (one, other) = bounds i j ij (ground arith) near in (omega arith, omega arith)
        | inr new ↦
            let e : j ≡ right = ground arith in
            elim (Bool-cases (ltb i w.left)) [
              | inl gone ↦ absurd (ground (arith, s.passed i right (ground arith) (omega arith)))
              | inr kept ↦
                  let l : w.left ≤ i = ground arith in
                  (
                    between _ _ _ _ v (below i l (omega arith)) (above j (omega arith) jr) best,
                    between _ _ _ _ v (below j (omega arith) jr) (above i l (omega arith)) best,
                  )
            ]
      ];
      attained = attained;
    }

    -- With both fronts known.
    fronts-Inv :
        (right f g : ℕ) (w : Window) (mtie : ℤ)
        → right < length samples
        → Shrunk ops samples tau right w mtie
        → pos 0 ≤ℤ mtie
        → Bounds right mtie
        → Attained ops samples tau mtie
        → front w.max_deque ≡ some f
        → front w.min_deque ≡ some g
        → (w.left ≤ f) × (f < suc right) × (w.left ≤ g) × (g < suc right)
        → ((i : ℕ) → w.left ≤ i → i < suc right → max_le ops samples tau i f ≡ true)
        → ((i : ℕ) → w.left ≤ i → i < suc right → min_le ops samples tau i g ≡ true)
        → Inv (suc right) (measure ops samples tau w)
    fronts-Inv right f g w mtie inside s nonneg bounds attained is_f is_g (lf, fr, lg, gr) best_f
          best_g =
        let small =
          sub64_of_small (offset_at samples f) (offset_at samples g) (sound.lower f (omega arith))
            (sound.upper f (omega arith)) (sound.lower g (omega arith))
            (sound.upper g (omega arith)) in
        rw (measured_window w f g is_f is_g small)
          (elim (Bool-cases (ltb_ℤ w.mtie (diff ops samples tau f g))) [
            | inl more ↦ rw more (
                raised right f g w mtie (diff ops samples tau f g) inside s nonneg bounds
                  (rw (← s.same) (le_of_ltb_ℤ w.mtie (diff ops samples tau f g) more))
                  (≤ℤ_refl (diff ops samples tau f g)) best_f best_g
                  (measured w.left right f g inside s.stopped (lf, omega arith, lg, omega arith)
                    refl))
            | inr less ↦ rw less (
                raised right f g w mtie w.mtie inside s nonneg bounds (rw s.same (≤ℤ_refl mtie))
                  (le_of_not_ltb_ℤ w.mtie (diff ops samples tau f g) less) best_f best_g
                  (rw s.same attained))
          ])

    measure-Inv :
        (right : ℕ) (w : Window) (mtie : ℤ)
        → right < length samples
        → Shrunk ops samples tau right w mtie
        → pos 0 ≤ℤ mtie
        → Bounds right mtie
        → Attained ops samples tau mtie
        → Inv (suc right) (measure ops samples tau w)
    measure-Inv right w mtie inside s nonneg bounds attained =
        let (f, is_f, lf, fr, best_f) =
          front-best (max_le ops samples tau) (λ i j k a b. ground arith) (λ i j a. ground arith)
            s.shaped.max_covers (omega (arith, s.within)) in
        let (g, is_g, lg, gr, best_g) =
          front-best (min_le ops samples tau) (λ i j k a b. ground arith) (λ i j a. ground arith)
            s.shaped.min_covers (omega (arith, s.within)) in
        fronts-Inv right f g w mtie inside s nonneg bounds attained is_f is_g (lf, fr, lg, gr)
          best_f best_g

    turns-Inv :
        (count right : ℕ) (w : Window)
        → right + count ≡ length samples
        → Inv right w
        → Inv (length samples) (turns ops samples tau count right w)
    unfolding turns turn push
    turns-Inv zero right w e v = let e' : right ≡ length samples = omega arith in rw (← e') v
    turns-Inv (suc count) right w e v = turns-Inv count (suc right) _ (omega arith) (
        measure-Inv right _ w.mtie (omega arith)
          (shrink-Shrunk ops samples tau order sound right right (push ops samples tau right w)
            (omega arith) (omega arith) v.within
            (push-Shaped ops samples tau right w v.within v.shaped) v.passed)
          v.nonneg v.bounds v.attained)

    start : Inv 0 empty_window
    start = record {
      shaped = record { max_covers = nothing (omega arith); min_covers = nothing (omega arith) };
      within = omega arith;
      passed = λ i j il. absurd (omega arith);
      nonneg = omega arith;
      bounds = λ i j ij j0. absurd (omega arith);
      attained = nothing_measured refl;
    }

    calculate_mtie_both :
        Bounds (length samples) (calculate_mtie ops samples tau)
        × Attained ops samples tau (calculate_mtie ops samples tau)
    unfolding calculate_mtie
    calculate_mtie_both = elim (Bool-cases (ltb (length samples) 2)) [
      | inl few ↦ rw few (
        (λ i j ij jn near.
            let same_index : i ≡ j = ground arith in
            rw same_index (
              omega (arith, -ℤ_parts (offset_at samples j) (offset_at samples j)),
              omega (arith, -ℤ_parts (offset_at samples j) (offset_at samples j)),
            )),
        nothing_measured refl,
      )
      | inr enough ↦ rw enough (
          let v = turns-Inv (length samples) 0 empty_window (omega arith) start in
          (v.bounds, v.attained))
    ]

    -- On samples in the order of time, with offsets within 2 ^ 62 of zero, and where float64
    -- subtraction is monotone: `CalculateMTIE` returns at least the difference of the offsets, in both
    -- directions, of any two samples that lie within `tauSeconds` of each other.
    pub calculate_mtie-diff :
        (i j : ℕ)
        → i ≤ j
        → j < length samples
        → Near ops samples tau i j
        → (diff ops samples tau i j ≤ℤ calculate_mtie ops samples tau)
          × (diff ops samples tau j i ≤ℤ calculate_mtie ops samples tau)
    calculate_mtie-diff = calculate_mtie_both.0

    -- Under the same conditions the result is no larger than needed: it is zero, or the difference of
    -- two samples of one window that spans at most `tauSeconds` or is one sample long.
    pub calculate_mtie-Attained : Attained ops samples tau (calculate_mtie ops samples tau)
    calculate_mtie-Attained = calculate_mtie_both.1
