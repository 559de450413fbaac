-- ===== src/App/Queue/Delivery.antt =====
-- What becomes of the messages that `Run` of src/internal/app/app.go reads.
use timesync_analyzer.Common.{
  ℕ, suc, ◌+◌, ◌≤◌, ◌<◌, ◌≡◌, refl, ap, List, [], ◌∷◌, ◌++◌, Bool, true, false, if◌then◌else◌,
  length, length-append, arith,
}
use timesync_analyzer.App.Handlers.Messages.{MetricsWrapper}
use timesync_analyzer.App.Queue.{
  reads_on, ended, AppState, start, Step, cancels, shuts_down, terminates, sends, passes, drops,
  receives, handles, worker_returns, slider_ends, returns, Reach, here, next,
}

-- How many messages of a list a test selects.
abbrev pub picked : (MetricsWrapper → Bool) → List MetricsWrapper → ℕ
picked p [] = 0
picked p (m ∷ ms) = (if p m then 1 else 0) + picked p ms

picked-append :
    (p : MetricsWrapper → Bool) (xs ys : List MetricsWrapper)
    → picked p (xs ++ ys) ≡ picked p xs + picked p ys
picked-append p [] ys = omega arith
picked-append p (x ∷ xs) ys = omega (arith, picked-append p xs ys)

module _ (queue_size : ℕ) where
  -- Every message that was decoded was handled or dropped, or is in the channel or with a worker.
  pub record Accounted (workers : ℕ) (s : AppState) : Type 0 where
    pub balance :
        (p : MetricsWrapper → Bool)
        → picked p s.decoded
          ≡ picked p s.handled + picked p s.dropped + picked p s.queue + picked p s.handling
    pub bounded : length s.handling + s.waiting ≤ workers
    pub staffed : s.closed ≡ false → length s.handling + s.waiting ≡ workers
    pub emptied : length s.handling + s.waiting < workers → s.queue ≡ []
    pub open_loop : s.loop ≡ reads_on → s.closed ≡ false
    pub slider : s.slider_runs ≡ false → s.cancelled ≡ true
    pub finished : s.loop ≡ ended → (s.slider_runs ≡ false) × (s.handling ≡ []) × (s.waiting ≡ 0)

  start-Accounted : (workers : ℕ) → Accounted workers (start queue_size workers)
  start-Accounted workers = record {
    balance = λ p. omega arith;
    bounded = omega arith;
    staffed = λ h. omega arith;
    emptied = λ h. refl;
    open_loop = λ h. refl;
    slider = λ h. cc;
    finished = λ h. cc;
  }

  split_length :
      {handling : List MetricsWrapper} (before after : List MetricsWrapper) (m : MetricsWrapper)
      → handling ≡ before ++ m ∷ after
      → length handling ≡ suc (length (before ++ after))
  split_length before after m h =
      omega (arith, ap length h, length-append before (m ∷ after), length-append before after)

  Step-Accounted : (w : ℕ) (s t : AppState) → Accounted w s → Step queue_size s t → Accounted w t
  Step-Accounted w s _ a (cancels) = record {
    balance = λ p. a.balance p;
    bounded = grind arith;
    staffed = grind arith;
    emptied = grind arith;
    open_loop = grind arith;
    slider = grind arith;
    finished = grind arith;
  }
  Step-Accounted w s _ a (shuts_down l c) = record {
    balance = λ p. a.balance p;
    bounded = grind arith;
    staffed = grind arith;
    emptied = grind arith;
    open_loop = grind arith;
    slider = grind arith;
    finished = grind arith;
  }
  Step-Accounted w s _ a (terminates l) = record {
    balance = λ p. a.balance p;
    bounded = grind arith;
    staffed = grind arith;
    emptied = grind arith;
    open_loop = grind arith;
    slider = grind arith;
    finished = grind arith;
  }
  Step-Accounted w s _ a (sends m l c) = record {
    balance = λ p. omega (arith, a.balance p, picked-append p s.queue (m ∷ []));
    bounded = grind arith;
    staffed = grind arith;
    emptied = grind arith;
    open_loop = grind arith;
    slider = grind arith;
    finished = grind arith;
  }
  Step-Accounted w s _ a (passes m n l q e) = record {
    balance = λ p. omega (arith, a.balance p);
    bounded = grind arith;
    staffed = grind arith;
    emptied = grind arith;
    open_loop = grind arith;
    slider = grind arith;
    finished = grind arith;
  }
  Step-Accounted w s _ a (drops m l c) = record {
    balance = λ p. omega (arith, a.balance p);
    bounded = grind arith;
    staffed = grind arith;
    emptied = grind arith;
    open_loop = grind arith;
    slider = grind arith;
    finished = grind arith;
  }
  Step-Accounted w s _ a (receives m rest n q e) = record {
    balance = λ p. omega (arith, a.balance p, ap (picked p) q);
    bounded = grind arith;
    staffed = grind arith;
    emptied = grind arith;
    open_loop = grind arith;
    slider = grind arith;
    finished = grind arith;
  }
  Step-Accounted w s _ a (handles before after m h) = record {
    balance = λ p. omega (
      arith,
      a.balance p,
      ap (picked p) h,
      picked-append p before (m ∷ after),
      picked-append p before after,
    );
    bounded = omega (arith, a.bounded, split_length before after m h);
    staffed = λ c. omega (arith, a.staffed c, split_length before after m h);
    emptied = λ c. a.emptied (omega (arith, c, split_length before after m h));
    open_loop = grind arith;
    slider = grind arith;
    finished = grind arith;
  }
  Step-Accounted w s _ a (worker_returns n c q e) = record {
    balance = λ p. a.balance p;
    bounded = grind arith;
    staffed = grind arith;
    emptied = grind arith;
    open_loop = grind arith;
    slider = grind arith;
    finished = grind arith;
  }
  Step-Accounted w s _ a (slider_ends c) = record {
    balance = λ p. a.balance p;
    bounded = grind arith;
    staffed = grind arith;
    emptied = grind arith;
    open_loop = grind arith;
    slider = grind arith;
    finished = grind arith;
  }
  Step-Accounted w s _ a (returns l e h r) = record {
    balance = λ p. a.balance p;
    bounded = grind arith;
    staffed = grind arith;
    emptied = grind arith;
    open_loop = grind arith;
    slider = grind arith;
    finished = grind arith;
  }

  Reach-Accounted : (w : ℕ) (s : AppState) → Reach queue_size w s → Accounted w s
  Reach-Accounted w s here = start-Accounted w
  Reach-Accounted w s (next {s = t} r step) = Step-Accounted w t s (Reach-Accounted w t r) step

-- Once `Run` has returned, with at least one worker: the context is cancelled, and each message that was
-- decoded was handled or dropped, as often as it was decoded and never twice (`p` picks the messages
-- that are counted); none is left in the channel.
pub Reach-delivered :
    (queue_size workers : ℕ) (s : AppState)
    → Reach queue_size workers s
    → s.loop ≡ ended
    → 0 < workers
    → (s.cancelled ≡ true)
      × (s.queue ≡ [])
      × ((p : MetricsWrapper → Bool) → picked p s.decoded ≡ picked p s.handled + picked p s.dropped)
Reach-delivered queue_size workers s r e w =
    let a = Reach-Accounted queue_size workers s r in
    let f = a.finished e in
    let left = a.emptied (omega (arith, w, ap length f.1, f.2)) in
    (a.slider f.0, left, (λ p. omega (arith, a.balance p, ap (picked p) left, ap (picked p) f.1)))
