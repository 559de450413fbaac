-- ===== src/Report/Render/Pool/Kept.antt =====
-- The invariant of the goroutines of `renderGrafanaCharts` in src/internal/report/grafana.go, and
-- that every step keeps it.
use timesync_analyzer.Common.{
  ℕ, suc, ◌+◌, ◌≤◌, ◌<◌, ◌≡◌, ap, sym, subst, ◌∙◌, List, [], ◌∷◌, ◌++◌, true, none, some, length,
  get_elem?, set, replicate, All, All-append, arith, ltb, if◌then◌else◌, length-append, length-set,
  length-replicate, get_elem?-set,
}
use timesync_analyzer.Report.Render.{RenderResult}
use timesync_analyzer.Report.Render.Pool.{
  Worker, idle, busy, returned, PoolState, Step, hands, renders, returns, closes, collects, Reach,
  here, next, start,
}
use timesync_analyzer.Report.Render.Pool.Invariant.{
  at, busy_with, busy_total, idle_total, returned_total, waiting_for, filled, filled_total,
  waiting_for-append, around, busy_with-le-busy_total, totals-All-returned, filled_total-set,
  get_elem?-filled, filled-replicate, filled_total-replicate, totals-replicate, replicate-empty,
}

module _ (total : ℕ) (result_of : ℕ → RenderResult) where
  -- Every index below `sent` is with one worker, or waits as one result, or is stored, and what is
  -- stored or waits is the result of its index.
  pub record Kept (workers : ℕ) (s : PoolState) : Type 0 where
    pub bounded : s.sent ≤ total
    pub sized : length s.ordered ≡ total
    pub placed :
        (i : ℕ)
        → busy_with i s.workers + waiting_for i s.results + filled (get_elem? s.ordered i)
          ≡ (if ltb i s.sent then 1 else 0)
    pub counted : busy_total s.workers + length s.results + filled_total s.ordered ≡ s.sent
    pub honest : All (λ r. r ≡ result_of r.index) s.results
    pub right : (i : ℕ) (r : RenderResult) → get_elem? s.ordered i ≡ some (some r) → r ≡ result_of i
    pub late : 0 < returned_total s.workers → s.sent ≡ total
    pub shut : s.closed ≡ true → (s.sent ≡ total) × (idle_total s.workers ≡ 0)
    pub staffed : length s.workers ≡ workers

  start-Kept : (workers : ℕ) → Kept workers (start total result_of workers)
  start-Kept workers = record {
    bounded = omega arith;
    sized = length-replicate total none;
    placed = λ i. ground (
      arith,
      filled-replicate total i,
      busy_with-le-busy_total i (replicate workers idle),
      totals-replicate workers,
    );
    counted = omega (arith, filled_total-replicate total, totals-replicate workers);
    honest = tt;
    right = λ i r h. absurd (replicate-empty total i r h);
    late = λ h. absurd (omega (arith, totals-replicate workers));
    shut = λ h. cc;
    staffed = length-replicate workers idle;
  }

  module _ {workers : ℕ} {s : PoolState} (kept : Kept workers s)
      (indexed : (i : ℕ) → (result_of i).index ≡ i) where
    hands-Kept :
        (before after : List Worker)
        → s.sent < total
        → s.workers ≡ before ++ idle ∷ after
        → Kept workers (record s { sent = suc s.sent; workers = before ++ busy s.sent ∷ after })
    hands-Kept before after more split =
        let a = around idle (busy s.sent) s.workers before after split in
        record {
          bounded = omega arith;
          sized = kept.sized;
          placed = λ i. ground (arith, a.with_change i, kept.placed i, kept.placed s.sent);
          counted = omega (arith, a.busy_change, kept.counted);
          honest = kept.honest;
          right = kept.right;
          late = λ h. omega (arith, a.returned_change, kept.late);
          shut = λ h. omega (arith, kept.shut h, a.idle_change);
          staffed = a.same_length ∙ kept.staffed;
        }

    renders-Kept :
        (i : ℕ) (before after : List Worker)
        → s.workers ≡ before ++ busy i ∷ after
        → Kept workers
            (record s { workers = before ++ idle ∷ after; results = s.results ++ result_of i ∷ [] })
    renders-Kept i before after split =
        let a = around (busy i) idle s.workers before after split in
        record {
          bounded = kept.bounded;
          sized = kept.sized;
          placed = λ j. ground (
            arith,
            a.with_change j,
            kept.placed j,
            waiting_for-append j s.results (result_of i ∷ []),
            indexed i,
          );
          counted =
              omega
                (arith, a.busy_change, kept.counted, length-append s.results (result_of i ∷ []));
          honest =
              All-append (λ r. r ≡ result_of r.index) s.results (result_of i ∷ []) kept.honest
                (ap result_of (sym (indexed i)), tt);
          right = kept.right;
          late = λ h. omega (arith, a.returned_change, kept.late);
          shut = λ h. omega (arith, kept.shut h, a.idle_change);
          staffed = a.same_length ∙ kept.staffed;
        }

    returns-Kept :
        (before after : List Worker)
        → s.sent ≡ total
        → s.workers ≡ before ++ idle ∷ after
        → Kept workers (record s { workers = before ++ returned ∷ after })
    returns-Kept before after sent split =
        let a = around idle returned s.workers before after split in
        record {
          bounded = kept.bounded;
          sized = kept.sized;
          placed = λ j. omega (arith, a.with_change j, kept.placed j);
          counted = omega (arith, a.busy_change, kept.counted);
          honest = kept.honest;
          right = kept.right;
          late = λ h. sent;
          shut = λ h. omega (arith, kept.shut h, a.idle_change);
          staffed = a.same_length ∙ kept.staffed;
        }

    closes-Kept :
        s.sent ≡ total
        → All (λ w. w ≡ returned) s.workers
        → Kept workers (record s { closed = true })
    closes-Kept sent all = record {
      bounded = kept.bounded;
      sized = kept.sized;
      placed = kept.placed;
      counted = kept.counted;
      honest = kept.honest;
      right = kept.right;
      late = kept.late;
      shut = λ h. (sent, (totals-All-returned s.workers all).0);
      staffed = kept.staffed;
    }

    module _ (r : RenderResult) (rest : List RenderResult) (split : s.results ≡ r ∷ rest) where
      first_waits : (i : ℕ) → waiting_for i s.results ≡ at r.index i + waiting_for i rest
      first_waits i = ap (waiting_for i) split

      rest-honest : All (λ q. q ≡ result_of q.index) (r ∷ rest)
      rest-honest = subst (All (λ q. q ≡ result_of q.index)) split kept.honest

      index_sent :
          (busy_with r.index s.workers
              + waiting_for r.index rest
              + filled (get_elem? s.ordered r.index)
            ≡ 0)
          × (r.index < s.sent)
      index_sent = ground (arith, first_waits r.index, kept.placed r.index)

      -- The place of the first waiting result is still free.
      free_place : get_elem? s.ordered r.index ≡ some none
      free_place =
          get_elem?-filled s.ordered r.index (omega (arith, index_sent, kept.bounded, kept.sized))
            (omega (arith, index_sent))

      collects-Kept :
          Kept workers (record s { results = rest; ordered = set s.ordered r.index (some r) })
      collects-Kept = record {
        bounded = kept.bounded;
        sized = length-set s.ordered r.index (some r) ∙ kept.sized;
        placed = λ j. ground (
          arith,
          get_elem?-set s.ordered r.index j (some r),
          kept.sized,
          kept.bounded,
          index_sent,
          kept.placed j,
          first_waits j,
          free_place,
        );
        counted =
            omega (
              arith,
              kept.counted,
              filled_total-set s.ordered r.index r free_place,
              ap length split,
            );
        honest = rest-honest.1;
        right = λ j q h. ground (
          arith,
          get_elem?-set s.ordered r.index j (some r),
          kept.sized,
          kept.bounded,
          index_sent,
          kept.right j q,
          rest-honest.0,
        );
        late = kept.late;
        shut = kept.shut;
        staffed = kept.staffed;
      }

  Step-Kept :
      {workers : ℕ} {s t : PoolState}
      → ((i : ℕ) → (result_of i).index ≡ i)
      → Kept workers s
      → Step total result_of s t
      → Kept workers t
  Step-Kept indexed kept (hands before after more split) =
      hands-Kept kept indexed before after more split
  Step-Kept indexed kept (renders i before after room split) =
      renders-Kept kept indexed i before after split
  Step-Kept indexed kept (returns before after sent split) =
      returns-Kept kept indexed before after sent split
  Step-Kept indexed kept (closes opened sent all) = closes-Kept kept indexed sent all
  Step-Kept indexed kept (collects r rest split) = collects-Kept kept indexed r rest split

  pub Reach-Kept :
      {workers : ℕ} {s : PoolState}
      → ((i : ℕ) → (result_of i).index ≡ i)
      → Reach total result_of workers s
      → Kept workers s
  Reach-Kept {workers} indexed here = start-Kept workers
  Reach-Kept indexed (next reach step) = Step-Kept indexed (Reach-Kept indexed reach) step
