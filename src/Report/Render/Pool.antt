-- ===== src/Report/Render/Pool.antt =====
-- The goroutines of `renderGrafanaCharts` in src/internal/report/grafana.go: one that sends the jobs,
-- the workers, and the caller, which stores the results in the order of their indices. `jobs` is an
-- unbuffered channel, `results` one with room for every panel.
pub mod Invariant
pub mod Kept
pub mod Outcome
pub mod Progress
use timesync_analyzer.Common.{
  ℕ, zero, suc, ◌<◌, ◌≡◌, List, [], ◌∷◌, ◌++◌, Bool, true, false, Option, none, some, length, map,
  get_elem?, set, replicate, All,
}
use timesync_analyzer.Common.Int.{pos_part}
use timesync_analyzer.Reportd.Types.{GrafanaConfig}
use timesync_analyzer.Reportd.Groups.{Parsed}
use timesync_analyzer.Report.Render.{
  Panel, Chart, RenderResult, zero_result, render, normalized, summarize,
}

-- A worker waits for a job, renders the panel with an index, or has returned.
pub data Worker : Type 0 where
  idle : Worker
  busy : ℕ → Worker
  returned : Worker

-- `sent` is the index of the next job, `ordered` is `orderedResults`, with `none` for a zero value.
pub record PoolState : Type 0 where
  pub sent : ℕ
  pub workers : List Worker
  pub results : List RenderResult
  pub ordered : List (Option RenderResult)
  pub closed : Bool

-- `total` is the number of panels, `result_of` what the worker sends for an index.
module _ (total : ℕ) (result_of : ℕ → RenderResult) where
  abbrev pub start : ℕ → PoolState
  start workers = record {
    sent = 0;
    workers = replicate workers idle;
    results = [];
    ordered = replicate total none;
    closed = false;
  }

  pub data Step (s : PoolState) : PoolState → Type 0 where
    -- `jobs <- renderJob{…}` meets a worker at `range jobs`.
    hands :
        (before after : List Worker)
        → s.sent < total
        → s.workers ≡ before ++ idle ∷ after
        → Step s (record s { sent = suc s.sent; workers = before ++ busy s.sent ∷ after })
    -- `results <- …`, which waits while the channel is full.
    renders :
        (i : ℕ) (before after : List Worker)
        → length s.results < total
        → s.workers ≡ before ++ busy i ∷ after
        → Step s
            (record s { workers = before ++ idle ∷ after; results = s.results ++ result_of i ∷ [] })
    -- The jobs were sent and `jobs` is closed: the worker leaves its loop.
    returns :
        (before after : List Worker)
        → s.sent ≡ total
        → s.workers ≡ before ++ idle ∷ after
        → Step s (record s { workers = before ++ returned ∷ after })
    -- `wg.Wait()` and `close(results)`.
    closes :
        s.closed ≡ false
        → s.sent ≡ total
        → All (λ w. w ≡ returned) s.workers
        → Step s (record s { closed = true })
    -- One round of `for result := range results`.
    collects :
        (r : RenderResult) (rest : List RenderResult)
        → s.results ≡ r ∷ rest
        → Step s (record s { results = rest; ordered = set s.ordered r.index (some r) })

  pub data Reach (workers : ℕ) : PoolState → Type 0 where
    here : Reach workers (start workers)
    next : {s t : PoolState} → Reach workers s → Step s t → Reach workers t

-- The caller leaves its loop: `results` is closed and empty.
pub record IsFinished (s : PoolState) : Type 0 where
  pub closed : s.closed ≡ true
  pub empty : s.results ≡ []

abbrev pub stored : Option RenderResult → RenderResult
stored none = zero_result
stored (some r) = r

-- What the caller returns.
pub outcome : PoolState → Parsed (List Chart)
outcome s = summarize (map stored s.ordered)

abbrev pub worker_count : GrafanaConfig → List Panel → ℕ
unfolding normalized
worker_count cfg panels = pos_part (normalized cfg (length panels)).render_workers

-- What a worker sends for the panel of an index; there is no job past the last panel.
module _ (fetch : ℕ → Panel → Parsed (List ℕ)) (decode : List ℕ → Parsed (ℕ × ℕ × List ℕ)) where
  abbrev pub render_at : ℕ → Option Panel → RenderResult
  unfolding render
  render_at i none = record zero_result { index = i }
  render_at i (some panel) = render fetch decode i panel

  abbrev pub result_of : List Panel → ℕ → RenderResult
  result_of panels i = render_at i (get_elem? panels i)
