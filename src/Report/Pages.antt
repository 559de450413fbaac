-- ===== src/Report/Pages.antt =====
-- The pages of charts in src/internal/report/pdf_maroto.go.
use timesync_analyzer.Common.{
  ℕ, zero, suc, ◌-◌, ◌≤◌, ◌≡◌, refl, ap, sym, ◌∙◌, List, [], ◌∷◌, ◌++◌, if◌then◌else◌, length, take,
  drop, All, arith, length-take, take-append-drop,
}
use timesync_analyzer.Common.Int.{ℤ, pos, pos_part, leb_ℤ, ltb_ℤ}
use timesync_analyzer.Common.Text.{is_empty}
use timesync_analyzer.Report.Render.{Chart}

-- `chartsPerPage` in its bounds.
unfoldable pub per_page : ℤ → ℕ
per_page n = if leb_ℤ n (pos 0) then 1 else if ltb_ℤ (pos 4) n then 4 else pos_part n

-- The inner loop: the charts that have an image.
unfoldable pub with_image : List Chart → List Chart
with_image [] = []
with_image (chart ∷ charts) =
    let rest = with_image charts in if is_empty chart.png then rest else chart ∷ rest

-- A page is only added if it has rows.
abbrev pub add_page : List Chart → List (List Chart) → List (List Chart)
add_page [] pages = pages
add_page (chart ∷ charts) pages = (chart ∷ charts) ∷ pages

-- The outer loop over the charts from `start` on, on fuel.
unfoldable pub pages_from : ℕ → ℕ → List Chart → List (List Chart)
pages_from zero size charts = []
pages_from (suc fuel) size charts =
    let rest = pages_from fuel size (drop size charts) in
    if is_empty charts then [] else add_page (with_image (take size charts)) rest

-- The charts of each page of `addMarotoChartPages`; every round passes at least one chart.
unfoldable pub chart_pages : ℤ → List Chart → List (List Chart)
unfolding pages_from with_image
chart_pages charts_per_page charts = pages_from (length charts) (per_page charts_per_page) charts

abbrev pub concat : List (List Chart) → List Chart
concat [] = []
concat (page ∷ pages) = page ++ concat pages

with_image-append : (xs ys : List Chart) → with_image (xs ++ ys) ≡ with_image xs ++ with_image ys
unfolding with_image
with_image-append [] ys = refl
with_image-append (x ∷ xs) ys = ground (arith, with_image-append xs ys)

length-with_image : (xs : List Chart) → length (with_image xs) ≤ length xs
unfolding with_image
length-with_image [] = omega arith
length-with_image (x ∷ xs) = ground (arith, length-with_image xs)

concat-add_page :
    (page : List Chart) (pages : List (List Chart))
    → concat (add_page page pages) ≡ page ++ concat pages
concat-add_page [] pages = refl
concat-add_page (c ∷ page) pages = refl

length-drop : (n : ℕ) (xs : List Chart) → length (drop n xs) ≡ length xs - n
length-drop zero xs = omega arith
length-drop (suc n) [] = omega arith
length-drop (suc n) (x ∷ xs) = omega (arith, length-drop n xs)

pages_from-concat :
    (fuel size : ℕ) (charts : List Chart)
    → 1 ≤ size
    → length charts ≤ fuel
    → concat (pages_from fuel size charts) ≡ with_image charts
unfolding pages_from with_image
pages_from-concat zero size [] positive enough = refl
pages_from-concat zero size (c ∷ charts) positive enough = absurd (omega arith)
pages_from-concat (suc fuel) size [] positive enough = refl
pages_from-concat (suc fuel) size (c ∷ charts) positive enough =
    concat-add_page (with_image (take size (c ∷ charts)))
      (pages_from fuel size (drop size (c ∷ charts)))
    ∙ ap (λ l. with_image (take size (c ∷ charts)) ++ l)
        (pages_from-concat fuel size (drop size (c ∷ charts)) positive
          (omega (arith, length-drop size (c ∷ charts))))
    ∙ sym (with_image-append (take size (c ∷ charts)) (drop size (c ∷ charts)))
    ∙ ap with_image (take-append-drop size (c ∷ charts))

abbrev pub IsPage : ℕ → List Chart → Type 0
IsPage size page = (1 ≤ length page) × (length page ≤ size)

add_page-All :
    (size : ℕ) (page : List Chart) (pages : List (List Chart))
    → length page ≤ size
    → All (IsPage size) pages
    → All (IsPage size) (add_page page pages)
add_page-All size [] pages fits all = all
add_page-All size (c ∷ page) pages fits all = ((omega arith, fits), all)

pages_from-All :
    (fuel size : ℕ) (charts : List Chart) → All (IsPage size) (pages_from fuel size charts)
unfolding pages_from
pages_from-All zero size charts = tt
pages_from-All (suc fuel) size [] = tt
pages_from-All (suc fuel) size (c ∷ charts) =
    add_page-All size (with_image (take size (c ∷ charts))) _
      (omega (arith, length-with_image (take size (c ∷ charts)), length-take size (c ∷ charts)))
      (pages_from-All fuel size (drop size (c ∷ charts)))

-- The pages hold every chart that has an image, once and in order; no page is empty, and none has more
-- than the number of charts asked for, which is kept between one and four.
pub chart_pages_lem :
    (charts_per_page : ℤ) (charts : List Chart)
    → (concat (chart_pages charts_per_page charts) ≡ with_image charts)
      × All (IsPage (per_page charts_per_page)) (chart_pages charts_per_page charts)
      × (1 ≤ per_page charts_per_page)
      × (per_page charts_per_page ≤ 4)
unfolding chart_pages per_page
chart_pages_lem charts_per_page charts = (
  pages_from-concat (length charts) (per_page charts_per_page) charts (ground arith) (omega arith),
  pages_from-All (length charts) (per_page charts_per_page) charts,
  ground arith,
  ground arith,
)
