-- ===== src/Report/Render/Pool/Outcome.antt =====
-- What the goroutines of `renderGrafanaCharts` in src/internal/report/grafana.go end with, and that
-- they end.
use timesync_analyzer.Common.{
  ℕ, zero, suc, ◌+◌, ◌<◌, ◌≡◌, refl, ap, sym, ◌∙◌, List, [], ◌∷◌, Option, none, some, length, map,
  get_elem?, arith,
}
use timesync_analyzer.Reportd.Groups.{Parsed}
use timesync_analyzer.Report.Render.{
  Panel, RenderResult, render, render_from, fetched, decoded, summarize,
}
use timesync_analyzer.Report.Render.Pool.{
  PoolState, Reach, IsFinished, stored, outcome, render_at, result_of,
}
use timesync_analyzer.Report.Render.Pool.Invariant.{
  waiting_for, filled, busy_with-le-busy_total, busy_total-le-idle_total,
}
use timesync_analyzer.Report.Render.Pool.Kept.{Kept, Reach-Kept}

-- Lists that agree at every place.
list_ext {ℓ} :
    {A : Type ℓ} (xs ys : List A)
    → length xs ≡ length ys
    → ((i : ℕ) → i < length xs → get_elem? xs i ≡ get_elem? ys i)
    → xs ≡ ys
list_ext [] [] len same = refl
list_ext [] (y ∷ ys) len same = absurd (omega arith)
list_ext (x ∷ xs) [] len same = absurd (omega arith)
list_ext (x ∷ xs) (y ∷ ys) len same =
    let rest = list_ext xs ys (omega arith) (λ i h. same (suc i) (omega arith)) in
    cc (same 0 (omega arith))

stored-filled :
    (os : List (Option RenderResult)) (i : ℕ)
    → filled (get_elem? os i) ≡ 1
    → (r : RenderResult) × (get_elem? os i ≡ some (some r)) × (get_elem? (map stored os) i ≡ some r)
stored-filled [] i h = absurd (omega arith)
stored-filled (none ∷ os) zero h = absurd (omega arith)
stored-filled (some r ∷ os) zero h = (r, refl, refl)
stored-filled (o ∷ os) (suc i) h = stored-filled os i h

length-map-stored : (os : List (Option RenderResult)) → length (map stored os) ≡ length os
length-map-stored [] = refl
length-map-stored (o ∷ os) = ap suc (length-map-stored os)

module _ (fetch : ℕ → Panel → Parsed (List ℕ)) (decode : List ℕ → Parsed (ℕ × ℕ × List ℕ)) where
  pub index-render_at : (i : ℕ) (p : Option Panel) → (render_at fetch decode i p).index ≡ i
  unfolding render fetched decoded
  index-render_at i none = refl
  index-render_at i (some p) = ground arith

  length-render_from :
      (k : ℕ) (panels : List Panel) → length (render_from fetch decode k panels) ≡ length panels
  unfolding render_from
  length-render_from k [] = refl
  length-render_from k (p ∷ panels) = ap suc (length-render_from (suc k) panels)

  get_elem?-render_from :
      (k : ℕ) (panels : List Panel) (i : ℕ)
      → i < length panels
      → get_elem? (render_from fetch decode k panels) i
        ≡ some (render_at fetch decode (k + i) (get_elem? panels i))
  unfolding render_from render render_at
  get_elem?-render_from k [] i h = absurd (omega arith)
  get_elem?-render_from k (p ∷ panels) zero h =
      let e : k ≡ k + 0 = omega arith in ap (λ j. some (render_at fetch decode j (some p))) e
  get_elem?-render_from k (p ∷ panels) (suc i) h =
      let e : suc k + i ≡ k + suc i = omega arith in
      get_elem?-render_from (suc k) panels i (omega arith)
      ∙ ap (λ j. some (render_at fetch decode j (get_elem? panels i))) e

  module _ (panels : List Panel) {workers : ℕ} {s : PoolState}
      (reach : Reach (length panels) (result_of fetch decode panels) workers s) where
    kept : Kept (length panels) (result_of fetch decode panels) workers s
    kept =
        Reach-Kept (length panels) (result_of fetch decode panels)
          (λ i. index-render_at i (get_elem? panels i)) reach

    every_place-filled :
        IsFinished s → (i : ℕ) → i < length panels → filled (get_elem? s.ordered i) ≡ 1
    every_place-filled done i h = ground (
      arith,
      kept.placed i,
      kept.shut done.closed,
      busy_with-le-busy_total i s.workers,
      busy_total-le-idle_total s.workers,
      ap (waiting_for i) done.empty,
    )

    get_elem?-stored :
        IsFinished s
        → (i : ℕ) → i < length panels
        → get_elem? (map stored s.ordered) i ≡ some (result_of fetch decode panels i)
    get_elem?-stored done i h =
        let (r, place, shown) = stored-filled s.ordered i (every_place-filled done i h) in
        shown ∙ ap some (kept.right i r place)

    stored-eq-render_from : IsFinished s → map stored s.ordered ≡ render_from fetch decode 0 panels
    stored-eq-render_from done =
        list_ext (map stored s.ordered) (render_from fetch decode 0 panels)
          (omega (arith, kept.sized, length-map-stored s.ordered, length-render_from 0 panels))
          (λ i h.
            let inside : i < length panels =
              omega (arith, kept.sized, length-map-stored s.ordered) in
            let e : i ≡ 0 + i = omega arith in
            get_elem?-stored done i inside
            ∙ ap (λ j. some (render_at fetch decode j (get_elem? panels i))) e
            ∙ sym (get_elem?-render_from 0 panels i inside))

    -- Whichever workers take the jobs and in whichever order their results arrive, the caller ends
    -- with what rendering the panels one after the other, in their order, gives.
    pub outcome-eq-summarize :
        IsFinished s → outcome s ≡ summarize (render_from fetch decode 0 panels)
    unfolding outcome
    outcome-eq-summarize done = ap summarize (stored-eq-render_from done)
