-- ===== src/Reportd/Service/Threads/Sound.antt =====
-- The invariant of the goroutines of src/internal/reportd/service.go, and how threads are counted.
use timesync_analyzer.Common.{
  ℕ, ◌+◌, ◌≤◌, ◌≡◌, refl, List, [], ◌∷◌, ◌++◌, if◌then◌else◌, ◌==◌, arith, length,
}
use timesync_analyzer.Common.Count.{count, count-append}
use timesync_analyzer.Common.Int.{ℤ, pos_part}
use timesync_analyzer.Common.Text.{Text, text_eq}
use timesync_analyzer.Reportd.Types.{Options, Service, CreateJobSpec}
use timesync_analyzer.Reportd.Service.{
  Env, capacity, make_job, register, next_seq, reserve_alert_fingerprint,
}
use timesync_analyzer.Reportd.Service.Invariant.{Consistent}
use timesync_analyzer.Reportd.Service.Threads.{World, Todo, tokens, count_threads}
use timesync_analyzer.Reportd.Service.Threads.Ownership.{Owned}

pub count_threads-append :
    (id : Text) (xs ys : List (Text × Todo))
    → count_threads id (xs ++ ys) ≡ count_threads id xs + count_threads id ys
count_threads-append id [] ys = omega arith
count_threads-append id ((j, todo) ∷ xs) ys = omega (arith, count_threads-append id xs ys)

-- The invariant of the whole service.
pub record Sound (env : Env) (w : World) : Type 0 where
  pub consistent : Consistent w.svc
  pub owned : Owned env (λ id. tokens id w) w.svc.seq w.svc.jobs
  pub fits : length w.svc.queue ≤ capacity w.svc

-- The threads with one of them taken out, counted.
pub without :
    (id j : Text) (todo : Todo) (before after ts : List (Text × Todo))
    → ts ≡ before ++ (j, todo) ∷ after
    → count_threads id (before ++ after) + (if j == id then 1 else 0) ≡ count_threads id ts
without id j todo before after ts e = rw e (
    omega (
      arith,
      count_threads-append id before after,
      count_threads-append id before ((j, todo) ∷ after),
    ))

pub without_timer :
    (id j : Text) (before after ts : List Text)
    → ts ≡ before ++ j ∷ after
    → count id (before ++ after) + (if j == id then 1 else 0) ≡ count id ts
without_timer id j before after ts e =
    rw e (omega (arith, count-append id before after, count-append id before (j ∷ after)))

abbrev pub capacity_of : Options → ℕ
capacity_of opts = pos_part opts.queue_size

pub register-id :
    (env : Env) (now : ℤ) (spec : CreateJobSpec) (s : Service)
    → (register env now spec s).0.id ≡ env.format_id now (next_seq s)
unfolding register make_job
register-id env now spec s = refl

pub reserve_alert_fingerprint-shape :
    (fingerprint : Text) (now : ℤ) (s : Service)
    → (reserve_alert_fingerprint fingerprint now s).0
      ≡ record s { alert_last = (reserve_alert_fingerprint fingerprint now s).0.alert_last }
unfolding reserve_alert_fingerprint
reserve_alert_fingerprint-shape fingerprint now s = ground arith
