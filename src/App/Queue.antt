-- ===== src/App/Queue.antt =====
-- `Run` and `startWorkers` of src/internal/app/app.go: the loop that reads messages, the channel between
-- it and the workers, the slider, and how they end. A message is what `proto.Unmarshal` gives.
pub mod Delivery
use timesync_analyzer.Common.{ℕ, suc, ◌<◌, ◌≤◌, ◌≡◌, List, [], ◌∷◌, ◌++◌, Bool, true, false, length}
use timesync_analyzer.App.Handlers.Messages.{MetricsWrapper}

-- The loop reads, or waits in `wg.Wait()`, or `Run` has returned.
pub data Loop : Type 0 where
  reads_on waits ended : Loop

-- The workers wait, or handle a message each, or have returned. `decoded`, `handled` and `dropped` are
-- what went that way so far.
pub record AppState : Type 0 where
  pub loop : Loop
  pub cancelled : Bool
  pub closed : Bool
  pub slider_runs : Bool
  pub queue : List MetricsWrapper
  pub waiting : ℕ
  pub handling : List MetricsWrapper
  pub decoded : List MetricsWrapper
  pub handled : List MetricsWrapper
  pub dropped : List MetricsWrapper

-- `queue_size` is the capacity of `msgCh`.
module _ (queue_size : ℕ) where
  abbrev pub start : ℕ → AppState
  start num_workers = record {
    loop = reads_on;
    cancelled = false;
    closed = false;
    slider_runs = true;
    queue = [];
    waiting = num_workers;
    handling = [];
    decoded = [];
    handled = [];
    dropped = [];
  }

  -- A read or a decoding that fails, but for ETERM, changes nothing.
  pub data Step (s : AppState) : AppState → Type 0 where
    cancels : Step s (record s { cancelled = true })
    -- `case <-ctx.Done()`
    shuts_down :
        s.loop ≡ reads_on → s.cancelled ≡ true → Step s (record s { loop = waits; closed = true })
    -- `zmq4.ETERM`
    terminates : s.loop ≡ reads_on → Step s (record s { loop = waits; closed = true })
    -- `case a.msgCh <- &wrapper`: into the buffer, or to a worker that receives.
    sends :
        (m : MetricsWrapper)
        → s.loop ≡ reads_on
        → length s.queue < queue_size
        → Step s (record s { decoded = m ∷ s.decoded; queue = s.queue ++ m ∷ [] })
    passes :
        (m : MetricsWrapper) (n : ℕ)
        → s.loop ≡ reads_on
        → s.queue ≡ []
        → s.waiting ≡ suc n
        → Step s (record s { decoded = m ∷ s.decoded; waiting = n; handling = m ∷ s.handling })
    -- The default of the `select`.
    drops :
        (m : MetricsWrapper)
        → s.loop ≡ reads_on
        → queue_size ≤ length s.queue
        → Step s (record s { decoded = m ∷ s.decoded; dropped = m ∷ s.dropped })
    -- `range a.msgCh` and `handleMsg`
    receives :
        (m : MetricsWrapper) (rest : List MetricsWrapper) (n : ℕ)
        → s.queue ≡ m ∷ rest
        → s.waiting ≡ suc n
        → Step s (record s { queue = rest; waiting = n; handling = m ∷ s.handling })
    handles :
        (before after : List MetricsWrapper) (m : MetricsWrapper)
        → s.handling ≡ before ++ m ∷ after
        → Step s (record s {
          handling = before ++ after;
          waiting = suc s.waiting;
          handled = m ∷ s.handled;
        })
    worker_returns :
        (n : ℕ)
        → s.closed ≡ true
        → s.queue ≡ []
        → s.waiting ≡ suc n
        → Step s (record s { waiting = n })
    -- The slider only ends with the context.
    slider_ends : s.cancelled ≡ true → Step s (record s { slider_runs = false })
    -- `wg.Wait()`: no worker is left, nor the slider.
    returns :
        s.loop ≡ waits
        → s.waiting ≡ 0
        → s.handling ≡ []
        → s.slider_runs ≡ false
        → Step s (record s { loop = ended })

  pub data Reach (num_workers : ℕ) : AppState → Type 0 where
    here : Reach num_workers (start num_workers)
    next : {s t : AppState} → Reach num_workers s → Step s t → Reach num_workers t
