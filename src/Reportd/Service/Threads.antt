-- ===== src/Reportd/Service/Threads.antt =====
-- The service of src/internal/reportd/service.go with its goroutines: request handlers, timers and
-- workers take the lock and the channel in turn, and any of them may come between two parts of
-- another. A thread is a job id and what its goroutine does next.
pub mod Ownership
pub mod Parts
pub mod Sound
pub mod Cases
pub mod Reachable
use timesync_analyzer.Common.{
  ℕ, suc, ◌+◌, ◌<◌, ◌^◌, ◌≡◌, ◌⊎◌, List, [], ◌∷◌, ◌++◌, Bool, true, false, Option, none, some,
  if◌then◌else◌, ◌==◌,
}
use timesync_analyzer.Common.Count.{count}
use timesync_analyzer.Common.Int.{ℤ, pos, ltb_ℤ}
use timesync_analyzer.Common.Text.{Text, text, text_eq}
use timesync_analyzer.Reportd.Types.{Options, Service, ReportJob, CreateJobSpec, ReportResult}
use timesync_analyzer.Reportd.Groups.{Parsed}
use timesync_analyzer.Reportd.Service.{
  Env, register, send, unregister, next_seq, new_service, reserve_alert_fingerprint,
}
use timesync_analyzer.Reportd.Service.Run.{
  GenerateOptions, mark_job_running, mark_job_failed, release_begin, settle, work,
}

pub data Todo : Type 0 where
  -- `enqueue`: the send, and taking the job back after a full queue.
  send_new take_back : Todo
  -- `releaseScheduled`: the send, and `markJobFailed` after a full queue.
  send_released give_up : Todo
  -- `runJob`: `markJobRunning`, and then the end with this result.
  begin : Todo
  finish : Parsed ReportResult → Todo

pub record World : Type 0 where
  pub svc : Service
  pub threads : List (Text × Todo)

abbrev pub count_threads : Text → List (Text × Todo) → ℕ
count_threads id [] = 0
count_threads id ((j, todo) ∷ ts) = (if j == id then 1 else 0) + count_threads id ts

-- How many goroutines, channel slots and timers still have to do with a job.
abbrev pub tokens : Text → World → ℕ
tokens id w = count_threads id w.threads + count id w.svc.queue + count id w.svc.timers

module _ (env : Env) (generate : GenerateOptions → Parsed ReportResult) where
  -- Fewer than 2 ^ 64 jobs are ever made.
  pub data Step (w : World) : World → Type 0 where
    enqueues :
        (now : ℤ) (spec : CreateJobSpec)
        → suc w.svc.seq < 2 ^ 64
        → ltb_ℤ (pos 0) spec.delay ≡ false
        → Step w (record {
          svc = (register env now spec w.svc).1;
          threads = ((register env now spec w.svc).0.id, send_new) ∷ w.threads;
        })
    schedules :
        (now : ℤ) (spec : CreateJobSpec)
        → suc w.svc.seq < 2 ^ 64
        → ltb_ℤ (pos 0) spec.delay ≡ true
        → Step w (record w {
          svc = record (register env now spec w.svc).1 {
            timers = (register env now spec w.svc).0.id ∷ (register env now spec w.svc).1.timers;
          };
        })
    fires :
        (id : Text) (before after : List Text)
        → w.svc.timers ≡ before ++ id ∷ after
        → (release_begin id w.svc).1 ≡ true
        → Step w (record {
          svc = record (release_begin id w.svc).0 { timers = before ++ after };
          threads = (id, send_released) ∷ w.threads;
        })
    fires_late :
        (id : Text) (before after : List Text)
        → w.svc.timers ≡ before ++ id ∷ after
        → (release_begin id w.svc).1 ≡ false
        → Step w (record w { svc = record (release_begin id w.svc).0 { timers = before ++ after } })
    sends :
        (id : Text) (todo : Todo) (before after : List (Text × Todo)) (s : Service)
        → w.threads ≡ before ++ (id, todo) ∷ after
        → (todo ≡ send_new) ⊎ (todo ≡ send_released)
        → send id w.svc ≡ some s
        → Step w (record { svc = s; threads = before ++ after })
    finds_full :
        (id : Text) (todo next : Todo) (before after : List (Text × Todo))
        → w.threads ≡ before ++ (id, todo) ∷ after
        → ((todo ≡ send_new) × (next ≡ take_back)) ⊎ ((todo ≡ send_released) × (next ≡ give_up))
        → send id w.svc ≡ none
        → Step w (record w { threads = before ++ (id, next) ∷ after })
    takes_back :
        (id : Text) (before after : List (Text × Todo))
        → w.threads ≡ before ++ (id, take_back) ∷ after
        → Step w (record { svc = unregister id w.svc; threads = before ++ after })
    gives_up :
        (id message : Text) (now : ℤ) (before after : List (Text × Todo))
        → w.threads ≡ before ++ (id, give_up) ∷ after
        → Step w (record { svc = mark_job_failed id message now w.svc; threads = before ++ after })
    receives :
        (id : Text) (rest : List Text)
        → w.svc.queue ≡ id ∷ rest
        → Step w (record { svc = record w.svc { queue = rest }; threads = (id, begin) ∷ w.threads })
    begins :
        (id : Text) (now : ℤ) (before after : List (Text × Todo)) (job : ReportJob)
        → w.threads ≡ before ++ (id, begin) ∷ after
        → (mark_job_running id now w.svc).1 ≡ some job
        → Step w (record {
          svc = (mark_job_running id now w.svc).0;
          threads = before ++ (id, finish (work generate w.svc.opts job)) ∷ after;
        })
    begins_late :
        (id : Text) (now : ℤ) (before after : List (Text × Todo))
        → w.threads ≡ before ++ (id, begin) ∷ after
        → (mark_job_running id now w.svc).1 ≡ none
        → Step w (record { svc = (mark_job_running id now w.svc).0; threads = before ++ after })
    finishes :
        (id : Text) (r : Parsed ReportResult) (now : ℤ) (before after : List (Text × Todo))
        → w.threads ≡ before ++ (id, finish r) ∷ after
        → Step w (record { svc = settle env id r now w.svc; threads = before ++ after })
    -- `dropJobsForDirs` takes jobs out; here it may take any.
    forgets : (id : Text) → Step w (record w { svc = unregister id w.svc })
    reserves :
        (fingerprint : Text) (now : ℤ)
        → Step w (record w { svc = (reserve_alert_fingerprint fingerprint now w.svc).0 })

  pub data Reach (opts : Options) : World → Type 0 where
    here : Reach opts (record { svc = new_service opts; threads = [] })
    next : {w x : World} → Reach opts w → Step w x → Reach opts x
