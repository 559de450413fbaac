-- ===== src/Report/Render/Pool/Progress.antt =====
-- That the goroutines of `renderGrafanaCharts` in src/internal/report/grafana.go end.
use timesync_analyzer.Common.{
  ℕ, suc, ◌+◌, ◌*◌, ◌-◌, ◌≤◌, ◌<◌, ◌≡◌, refl, ap, List, [], ◌∷◌, ◌++◌, Bool, true, false, length,
  get_elem?, All, arith, length-append, ◌⊎◌, inl, inr, Bool-cases, dec_lt,
}
use timesync_analyzer.Reportd.Types.{GrafanaConfig}
use timesync_analyzer.Reportd.Groups.{Parsed}
use timesync_analyzer.Report.Render.{Panel, RenderResult, normalized}
use timesync_analyzer.Report.Render.Pool.{
  Worker, idle, busy, returned, PoolState, Step, hands, renders, returns, closes, collects, Reach,
  IsFinished, worker_count, result_of,
}
use timesync_analyzer.Report.Render.Pool.Invariant.{busy_total, idle_total, returned_total, around}
use timesync_analyzer.Report.Render.Pool.Kept.{Kept, Reach-Kept}
use timesync_analyzer.Report.Render.Pool.Outcome.{index-render_at}

-- Some worker renders, or none does and some worker waits for a job, or all have returned.
data Crew (ws : List Worker) : Type 0 where
  one_busy : (i : ℕ) (before after : List Worker) → ws ≡ before ++ busy i ∷ after → Crew ws
  one_idle :
      (before after : List Worker) → busy_total ws ≡ 0 → ws ≡ before ++ idle ∷ after → Crew ws
  all_returned : All (λ w. w ≡ returned) ws → Crew ws

Crew-after-idle : (ws : List Worker) → Crew ws → Crew (idle ∷ ws)
Crew-after-idle ws (one_busy i before after e) =
    one_busy i (idle ∷ before) after (ap (λ l. idle ∷ l) e)
Crew-after-idle ws (one_idle before after none_busy e) = one_idle [] ws none_busy refl
Crew-after-idle ws (all_returned all) = one_idle [] ws (returned_none_busy ws all) refl
  where
    returned_none_busy : (vs : List Worker) → All (λ w. w ≡ returned) vs → busy_total vs ≡ 0
    returned_none_busy [] h = refl
    returned_none_busy (idle ∷ vs) (e, h) = cc
    returned_none_busy (busy j ∷ vs) (e, h) = cc
    returned_none_busy (returned ∷ vs) (e, h) = returned_none_busy vs h

Crew-after-returned : (ws : List Worker) → Crew ws → Crew (returned ∷ ws)
Crew-after-returned ws (one_busy i before after e) =
    one_busy i (returned ∷ before) after (ap (λ l. returned ∷ l) e)
Crew-after-returned ws (one_idle before after none_busy e) =
    one_idle (returned ∷ before) after none_busy (ap (λ l. returned ∷ l) e)
Crew-after-returned ws (all_returned all) = all_returned (refl, all)

crew : (ws : List Worker) → Crew ws
crew [] = all_returned tt
crew (idle ∷ ws) = Crew-after-idle ws (crew ws)
crew (busy j ∷ ws) = one_busy j [] ws refl
crew (returned ∷ ws) = Crew-after-returned ws (crew ws)

returned_total-All : (ws : List Worker) → All (λ w. w ≡ returned) ws → returned_total ws ≡ length ws
returned_total-All [] all = refl
returned_total-All (idle ∷ ws) (e, all) = cc
returned_total-All (busy j ∷ ws) (e, all) = cc
returned_total-All (returned ∷ ws) (e, all) = ap suc (returned_total-All ws all)

abbrev pub open_weight : Bool → ℕ
open_weight true = 0
open_weight false = 1

module _ (total : ℕ) (result_of : ℕ → RenderResult) where
  -- What is left to do: three steps for a job not sent, two for one that is being rendered, one for
  -- a waiting result, one for a worker that has not returned, one for closing `results`.
  abbrev pub work_left : PoolState → ℕ
  work_left s =
      3 * (total - s.sent)
      + 2 * busy_total s.workers
      + length s.results
      + idle_total s.workers
      + open_weight s.closed

  Step-work_left :
      {s t : PoolState} → s.sent ≤ total → Step total result_of s t → work_left t < work_left s
  Step-work_left {s} h (hands before after more split) =
      let a = around idle (busy s.sent) s.workers before after split in
      omega (arith, a.busy_change, a.idle_change)
  Step-work_left {s} h (renders i before after room split) =
      let a = around (busy i) idle s.workers before after split in
      omega (arith, a.busy_change, a.idle_change, length-append s.results (result_of i ∷ []))
  Step-work_left {s} h (returns before after sent split) =
      let a = around idle returned s.workers before after split in
      omega (arith, a.busy_change, a.idle_change)
  Step-work_left {s} h (closes opened sent all) = ground arith
  Step-work_left {s} h (collects r rest split) = omega (arith, ap length split)

  abbrev pub Goes : PoolState → Type 0
  Goes s = IsFinished s ⊎ ((t : PoolState) × Step total result_of s t)

  module _ {workers : ℕ} {s : PoolState} (kept : Kept total result_of workers s)
      (some_worker : 1 ≤ workers) where
    Goes-Crew : Crew s.workers → s.results ≡ [] → Goes s
    Goes-Crew (one_busy i before after split) empty = inr (
      _,
      renders i before after
          (omega (
            arith,
            kept.counted,
            kept.bounded,
            (around (busy i) idle s.workers before after split).busy_change,
          ))
          split,
    )
    Goes-Crew (one_idle before after none_busy split) empty = elim (dec_lt s.sent total) [
      | yes h ↦ inr (_, hands before after h split)
      | no h ↦ inr (_, returns before after (omega (arith, kept.bounded)) split)
    ]
    Goes-Crew (all_returned all) empty = elim (Bool-cases s.closed) [
      | inl h ↦ inl (record { closed = h; empty = empty })
      | inr h ↦ inr (
        _,
        closes h (kept.late (omega (arith, kept.staffed, returned_total-All s.workers all))) all,
      )
    ]

    Goes-results : (rs : List RenderResult) → s.results ≡ rs → Goes s
    Goes-results [] empty = Goes-Crew (crew s.workers) empty
    Goes-results (r ∷ rest) split = inr (_, collects r rest split)

    pub goes : Goes s
    goes = Goes-results s.results refl

module _ (fetch : ℕ → Panel → Parsed (List ℕ)) (decode : List ℕ → Parsed (ℕ × ℕ × List ℕ))
    (cfg : GrafanaConfig) (panels : List Panel) where
  worker_count-positive : 1 ≤ length panels → 1 ≤ worker_count cfg panels
  unfolding worker_count normalized
  worker_count-positive h = ground arith

  -- With at least one panel, every state that the goroutines reach is finished or has a step, whatever
  -- was scheduled before, and every step lowers the work that is left: no schedule gets stuck or
  -- goes on for ever.
  pub Reach-Goes :
      {s : PoolState}
      → 1 ≤ length panels
      → Reach (length panels) (result_of fetch decode panels) (worker_count cfg panels) s
      → Goes (length panels) (result_of fetch decode panels) s
        × ((t : PoolState)
            → Step (length panels) (result_of fetch decode panels) s t
            → work_left (length panels) (result_of fetch decode panels) t
              < work_left (length panels) (result_of fetch decode panels) s)
  Reach-Goes h reach =
      let total = length panels in
      let results = result_of fetch decode panels in
      let kept =
        Reach-Kept total results (λ i. index-render_at fetch decode i (get_elem? panels i)) reach in
      (
        goes total results kept (worker_count-positive h),
        λ t step. Step-work_left total results kept.bounded step,
      )
