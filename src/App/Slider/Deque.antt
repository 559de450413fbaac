-- ===== src/App/Slider/Deque.antt =====
-- The `container/list` deques of `CalculateMTIE` in src/internal/app/window_metrics.go, as lists of
-- sample indices with the back first, and why the front of one is the best sample of the window.
use timesync_analyzer.Common.{
  ℕ, suc, ◌≤◌, ◌<◌, ◌≡◌, ◌⊎◌, refl, List, [], ◌∷◌, Bool, true, false, ◌&&◌, Option, none, some,
  if◌then◌else◌, arith, ltb, Bool-cases, inl, inr,
}
use timesync_analyzer.Common.Text.{is_empty}

abbrev pub Deque : Type 0
Deque = List ℕ

-- `for d.Len() > 0 { if test(d.Back()) { d.Remove(d.Back()) } else { break } }`
pub pop_back_while : (ℕ → Bool) → Deque → Deque
pop_back_while test [] = []
pop_back_while test (i ∷ d) = if test i then pop_back_while test d else i ∷ d

-- `for d.Len() > 0 && test(d.Front()) { d.Remove(d.Front()) }`
pub pop_front_while : (ℕ → Bool) → Deque → Deque
pop_front_while test [] = []
pop_front_while test (i ∷ d) =
    let rest = pop_front_while test d in if is_empty rest && test i then [] else i ∷ rest

pub front : Deque → Option ℕ
front [] = none
front (i ∷ []) = some i
front (i ∷ j ∷ d) = front (j ∷ d)

-- `le i j` says that sample `i` is no better than sample `j`.
module _ (le : ℕ → ℕ → Bool) where
  abbrev pub Above : ℕ → Deque → Type 0
  Above i [] = Unit {0}
  Above i (k ∷ d) = le k i ≡ false

  -- The deque stands for the samples from `lo` up to, and without, `hi`: each index is the last of a
  -- block of which it is the best, and the blocks behind it are better.
  pub data Covers (lo : ℕ) : Deque → ℕ → Type 0 where
    nothing : {hi : ℕ} → hi ≤ lo → Covers lo [] hi
    block :
        (i m : ℕ) {d : Deque} {hi : ℕ}
        → hi ≡ suc i
        → lo ≤ i
        → m ≤ i
        → ((j : ℕ) → m ≤ j → j ≤ i → le j i ≡ true)
        → Above i d
        → Covers lo d m
        → Covers lo (i ∷ d) hi

  -- The rest of a deque once a new sample `r` has popped what it beats.
  abbrev Popped : ℕ → ℕ → Deque → Type 0
  Popped lo r d =
      (m : ℕ) × (m ≤ r) × ((j : ℕ) → m ≤ j → j ≤ r → le j r ≡ true) × Above r d × Covers lo d m

  module _ (trans : (i j k : ℕ) → le i j ≡ true → le j k ≡ true → le i k ≡ true) where
    pop_back-Popped :
        {lo : ℕ} (r : ℕ) {d : Deque} {hi : ℕ}
        → Covers lo d hi
        → hi ≤ r
        → ((j : ℕ) → hi ≤ j → j ≤ r → le j r ≡ true)
        → Popped lo r (pop_back_while (λ idx. le idx r) d)
    unfolding pop_back_while
    pop_back-Popped r {hi = hi} (nothing h) below best = (hi, below, best, tt, nothing h)
    pop_back-Popped r {hi = hi} (block i m {d} e l b dom above c) below best =
        elim (Bool-cases (le i r)) [
          | inl beaten ↦ rw beaten (
              pop_back-Popped r c (omega arith) (λ j lj jr. elim (Bool-cases (ltb i j)) [
                | inl after ↦ best j (ground arith) jr
                | inr within ↦ trans j i r (dom j lj (ground arith)) beaten
              ]))
          | inr stays ↦ rw stays (hi, below, best, stays, block i m e l b dom above c)
        ]

    -- The two statements that bring sample `r` into the window.
    pub push-Covers :
        {lo : ℕ} (r : ℕ) {d : Deque}
        → ((i : ℕ) → le i i ≡ true)
        → lo ≤ r
        → Covers lo d r
        → Covers lo (r ∷ pop_back_while (λ idx. le idx r) d) (suc r)
    push-Covers r refl_le l c =
        let (m, b, dom, above, rest) =
          pop_back-Popped r c (omega arith)
            (λ j lj jr. let e : j ≡ r = omega arith in rw e (refl_le r)) in
        block r m refl l b dom above rest

  pop_front_while-Above :
      (test : ℕ → Bool) (i : ℕ) (d : Deque) → Above i d → Above i (pop_front_while test d)
  unfolding pop_front_while
  pop_front_while-Above test i [] h = tt
  pop_front_while-Above test i (k ∷ d) h =
      elim (Bool-cases (is_empty (pop_front_while test d) && test k)) [
        | inl gone ↦ rw gone tt
        | inr stays ↦ rw stays h
      ]

  empty-or-lt : {lo : ℕ} {d : Deque} {hi : ℕ} → Covers lo d hi → (is_empty d ≡ true) ⊎ (lo < hi)
  empty-or-lt (nothing h) = inl refl
  empty-or-lt (block i m e l b dom above c) = inr (omega arith)

  -- The window's left end moves on.
  pub pop_front-Covers :
      {lo : ℕ} (left : ℕ) {d : Deque} {hi : ℕ}
      → lo ≤ left
      → Covers lo d hi
      → Covers left (pop_front_while (λ idx. ltb idx left) d) hi
  unfolding pop_front_while
  pop_front-Covers left l (nothing h) = nothing (omega arith)
  pop_front-Covers left l (block i m {d} e li b dom above c) =
      let rest = pop_front_while (λ idx. ltb idx left) d in
      let ih = pop_front-Covers left l c in
      elim (Bool-cases (is_empty rest && ltb i left)) [
        | inl gone ↦ rw gone (nothing (ground arith))
        | inr stays ↦ rw stays (
            block i m e (ground (arith, empty-or-lt ih)) b dom
              (pop_front_while-Above (λ idx. ltb idx left) i d above) ih)
      ]

  module _ (trans : (i j k : ℕ) → le i j ≡ true → le j k ≡ true → le i k ≡ true)
      (total : (i j : ℕ) → le i j ≡ false → le j i ≡ true) where
    -- The front of the deque is a best sample of the window.
    pub front-best :
        {lo : ℕ} {d : Deque} {hi : ℕ}
        → Covers lo d hi
        → lo < hi
        → (f : ℕ) × (front d ≡ some f)
          × (lo ≤ f)
          × (f < hi)
          × ((j : ℕ) → lo ≤ j → j < hi → le j f ≡ true)
    unfolding front
    front-best (nothing h) room = absurd (omega arith)
    front-best (block i m {d} e l b dom above (nothing h)) room =
        (i, refl, l, omega arith, λ j lj jh. dom j (omega arith) (omega arith))
    front-best (block i m e l b dom above (block k n e' l' b' dom' above' c)) room =
        let (f, is_front, lf, fh, best) =
          front-best (block k n e' l' b' dom' above' c) (omega arith) in
        (
          f,
          is_front,
          lf,
          omega arith,
          λ j lj jh. elim (Bool-cases (ltb j m)) [
            | inl before ↦ best j lj (ground arith)
            | inr within ↦
                trans j i f (dom j (ground arith) (omega arith))
                  (trans i k f (total k i above) (best k l' (omega arith)))
          ],
        )
