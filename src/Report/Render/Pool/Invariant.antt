-- ===== src/Report/Render/Pool/Invariant.antt =====
-- What every step of the goroutines of `renderGrafanaCharts` in src/internal/report/grafana.go keeps.
use timesync_analyzer.Common.{
  ℕ, zero, suc, ◌+◌, ◌≤◌, ◌<◌, ◌≡◌, refl, ap, List, [], ◌∷◌, ◌++◌, Option, none, some, length,
  get_elem?, set, replicate, All, arith, nat_beq, if◌then◌else◌,
}
use timesync_analyzer.Report.Render.{RenderResult}
use timesync_analyzer.Report.Render.Pool.{Worker, idle, busy, returned}

abbrev pub at : ℕ → ℕ → ℕ
at i j = if nat_beq i j then 1 else 0

-- How many workers render index `i`, how many render at all, and how many still wait for a job.
abbrev pub busy_with : ℕ → List Worker → ℕ
busy_with i [] = 0
busy_with i (idle ∷ ws) = busy_with i ws
busy_with i (busy j ∷ ws) = at j i + busy_with i ws
busy_with i (returned ∷ ws) = busy_with i ws

abbrev pub busy_total : List Worker → ℕ
busy_total [] = 0
busy_total (idle ∷ ws) = busy_total ws
busy_total (busy j ∷ ws) = suc (busy_total ws)
busy_total (returned ∷ ws) = busy_total ws

abbrev pub idle_total : List Worker → ℕ
idle_total [] = 0
idle_total (idle ∷ ws) = suc (idle_total ws)
idle_total (busy j ∷ ws) = suc (idle_total ws)
idle_total (returned ∷ ws) = idle_total ws

abbrev pub returned_total : List Worker → ℕ
returned_total [] = 0
returned_total (idle ∷ ws) = returned_total ws
returned_total (busy j ∷ ws) = returned_total ws
returned_total (returned ∷ ws) = suc (returned_total ws)

-- How many waiting results have index `i`.
abbrev pub waiting_for : ℕ → List RenderResult → ℕ
waiting_for i [] = 0
waiting_for i (r ∷ rs) = at r.index i + waiting_for i rs

abbrev pub filled : Option (Option RenderResult) → ℕ
filled (some (some r)) = 1
filled (some none) = 0
filled none = 0

abbrev pub filled_total : List (Option RenderResult) → ℕ
filled_total [] = 0
filled_total (none ∷ os) = filled_total os
filled_total (some r ∷ os) = suc (filled_total os)

module _ (i : ℕ) where
  busy_with-append :
      (xs ys : List Worker) → busy_with i (xs ++ ys) ≡ busy_with i xs + busy_with i ys
  busy_with-append [] ys = omega arith
  busy_with-append (idle ∷ xs) ys = busy_with-append xs ys
  busy_with-append (busy j ∷ xs) ys = omega (arith, busy_with-append xs ys)
  busy_with-append (returned ∷ xs) ys = busy_with-append xs ys

  pub waiting_for-append :
      (xs ys : List RenderResult) → waiting_for i (xs ++ ys) ≡ waiting_for i xs + waiting_for i ys
  waiting_for-append [] ys = omega arith
  waiting_for-append (r ∷ xs) ys = omega (arith, waiting_for-append xs ys)

totals-append :
    (xs ys : List Worker)
    → (busy_total (xs ++ ys) ≡ busy_total xs + busy_total ys)
      × (idle_total (xs ++ ys) ≡ idle_total xs + idle_total ys)
      × (returned_total (xs ++ ys) ≡ returned_total xs + returned_total ys)
      × (length (xs ++ ys) ≡ length xs + length ys)
totals-append [] ys = omega arith
totals-append (idle ∷ xs) ys = omega (arith, totals-append xs ys)
totals-append (busy j ∷ xs) ys = omega (arith, totals-append xs ys)
totals-append (returned ∷ xs) ys = omega (arith, totals-append xs ys)

-- The totals with one worker taken out of the list and put back as another.
pub record Around (w v : Worker) (ws vs : List Worker) : Type 0 where
  pub busy_change : busy_total vs + busy_total (w ∷ []) ≡ busy_total ws + busy_total (v ∷ [])
  pub idle_change : idle_total vs + idle_total (w ∷ []) ≡ idle_total ws + idle_total (v ∷ [])
  pub returned_change :
      returned_total vs + returned_total (w ∷ []) ≡ returned_total ws + returned_total (v ∷ [])
  pub with_change :
      (i : ℕ) → busy_with i vs + busy_with i (w ∷ []) ≡ busy_with i ws + busy_with i (v ∷ [])
  pub same_length : length vs ≡ length ws

pub around :
    (w v : Worker) (ws before after : List Worker)
    → ws ≡ before ++ w ∷ after
    → Around w v ws (before ++ v ∷ after)
around w v ws before after e = rw e (record {
  busy_change = omega (
    arith,
    totals-append before (w ∷ after),
    totals-append before (v ∷ after),
    totals-append (w ∷ []) after,
    totals-append (v ∷ []) after,
  );
  idle_change = omega (
    arith,
    totals-append before (w ∷ after),
    totals-append before (v ∷ after),
    totals-append (w ∷ []) after,
    totals-append (v ∷ []) after,
  );
  returned_change = omega (
    arith,
    totals-append before (w ∷ after),
    totals-append before (v ∷ after),
    totals-append (w ∷ []) after,
    totals-append (v ∷ []) after,
  );
  with_change = λ i. omega (
    arith,
    busy_with-append i before (w ∷ after),
    busy_with-append i before (v ∷ after),
    busy_with-append i (w ∷ []) after,
    busy_with-append i (v ∷ []) after,
  );
  same_length = omega (arith, totals-append before (w ∷ after), totals-append before (v ∷ after));
})

pub busy_with-le-busy_total : (i : ℕ) (ws : List Worker) → busy_with i ws ≤ busy_total ws
busy_with-le-busy_total i [] = omega arith
busy_with-le-busy_total i (idle ∷ ws) = busy_with-le-busy_total i ws
busy_with-le-busy_total i (busy j ∷ ws) = ground (arith, busy_with-le-busy_total i ws)
busy_with-le-busy_total i (returned ∷ ws) = busy_with-le-busy_total i ws

pub totals-All-returned :
    (ws : List Worker) → All (λ w. w ≡ returned) ws → (idle_total ws ≡ 0) × (busy_total ws ≡ 0)
totals-All-returned [] all = omega arith
totals-All-returned (idle ∷ ws) (e, all) = cc
totals-All-returned (busy j ∷ ws) (e, all) = cc
totals-All-returned (returned ∷ ws) (e, all) = totals-All-returned ws all

pub filled_total-set :
    (os : List (Option RenderResult)) (i : ℕ) (r : RenderResult)
    → get_elem? os i ≡ some none
    → filled_total (set os i (some r)) ≡ suc (filled_total os)
filled_total-set [] i r h = cc
filled_total-set (none ∷ os) zero r h = refl
filled_total-set (some q ∷ os) zero r h = cc
filled_total-set (none ∷ os) (suc i) r h = filled_total-set os i r h
filled_total-set (some q ∷ os) (suc i) r h = ap suc (filled_total-set os i r h)

-- An unfilled place of the list.
pub get_elem?-filled :
    (os : List (Option RenderResult)) (i : ℕ)
    → i < length os
    → filled (get_elem? os i) ≡ 0
    → get_elem? os i ≡ some none
get_elem?-filled [] i inside h = absurd (omega arith)
get_elem?-filled (none ∷ os) zero inside h = refl
get_elem?-filled (some q ∷ os) zero inside h = absurd (omega arith)
get_elem?-filled (o ∷ os) (suc i) inside h = get_elem?-filled os i (omega arith) h

pub filled-replicate : (n i : ℕ) → filled (get_elem? (replicate n none) i) ≡ 0
filled-replicate zero i = refl
filled-replicate (suc n) zero = refl
filled-replicate (suc n) (suc i) = filled-replicate n i

pub filled_total-replicate : (n : ℕ) → filled_total (replicate n none) ≡ 0
filled_total-replicate zero = refl
filled_total-replicate (suc n) = filled_total-replicate n

pub totals-replicate :
    (n : ℕ) → (busy_total (replicate n idle) ≡ 0) × (returned_total (replicate n idle) ≡ 0)
totals-replicate zero = omega arith
totals-replicate (suc n) = totals-replicate n

pub replicate-empty :
    (n i : ℕ) (r : RenderResult) → get_elem? (replicate n none) i ≡ some (some r) → ⊥
replicate-empty zero i r h = cc
replicate-empty (suc n) zero r h = cc
replicate-empty (suc n) (suc i) r h = replicate-empty n i r h

pub busy_total-le-idle_total : (ws : List Worker) → busy_total ws ≤ idle_total ws
busy_total-le-idle_total [] = omega arith
busy_total-le-idle_total (idle ∷ ws) = omega (arith, busy_total-le-idle_total ws)
busy_total-le-idle_total (busy j ∷ ws) = omega (arith, busy_total-le-idle_total ws)
busy_total-le-idle_total (returned ∷ ws) = busy_total-le-idle_total ws
