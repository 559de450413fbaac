-- ===== src/Reportd/Service.antt =====
-- src/internal/reportd/service.go. Each function takes the state and the time that it reads, and
-- returns the new state; logging is left out. `Env` is what comes from outside the repository.
pub mod Run
pub mod Invariant
pub mod Threads
pub mod Calls
use timesync_analyzer.Common.{
  ℕ, suc, ◌+◌, ◌%◌, ◌^◌, List, [], ◌∷◌, ◌++◌, Bool, true, false, not, ◌&&◌, ◌||◌, Option, none,
  some, if◌then◌else◌, ◌==◌, ltb, leb, length, take, drop, ◌≡◌,
}
use timesync_analyzer.Common.Assoc.{lookup, insert, delete}
use timesync_analyzer.Common.Count.{remove_first, delete_all}
use timesync_analyzer.Common.Int.{ℤ, pos, pos_part, leb_ℤ, ltb_ℤ, ◌+ℤ◌, ◌-ℤ◌}
use timesync_analyzer.Common.Text.{Text, text, text_eq, is_empty}
use timesync_analyzer.Reportd.Types.{
  Options, Service, ReportJob, JobStatus, scheduled, queued, running, done, failed, CreateJobSpec,
  ReportResult,
}

-- `format_id` is `fmt.Sprintf("%s-%06d", now.Format("20060102T150405Z"), seq)`; two ids with
-- different sequence numbers differ after the dash. `abs` is `filepath.Abs`.
pub record Env : Type 0 where
  pub format_id : ℤ → ℕ → Text
  pub abs : Text → Option Text
  pub format_id-seq : (t u : ℤ) (m n : ℕ) → format_id t m ≡ format_id u n → m ≡ n

abbrev pub default_to : ℤ → ℤ → ℤ
default_to d value = if leb_ℤ value (pos 0) then d else value

abbrev pub hour : ℤ
hour = pos 3_600_000_000_000

-- The defaults that `New` fills in; `AlertPeriod` falls back on the default period just chosen.
unfoldable pub with_defaults : Options → Options
with_defaults opts =
    let period = default_to hour opts.default_period in
    record opts {
      queue_size = default_to (pos 100) opts.queue_size;
      worker_count = default_to (pos 1) opts.worker_count;
      default_period = period;
      alert_period = default_to period opts.alert_period;
      job_timeout = default_to (pos 900_000_000_000) opts.job_timeout;
      charts_per_page = default_to (pos 3) opts.charts_per_page;
    }

unfoldable pub new_service : Options → Service
unfolding with_defaults
new_service opts = record {
  opts = with_defaults opts;
  queue = [];
  seq = 0;
  jobs = [];
  job_order = [];
  alert_last = [];
  timers = [];
}

-- `make(chan string, opts.QueueSize)`: the capacity is positive after `New`.
abbrev pub capacity : Service → ℕ
capacity s = pos_part s.opts.queue_size

-- `cloneJob` copies the job and its groups; values are not shared here, so the copy is the job.
abbrev pub clone_job : ReportJob → ReportJob
clone_job job = job

unfoldable pub trim_old_jobs : ℕ → Service → Service
unfolding delete_all
trim_old_jobs limit s = if leb limit 0 || leb (length s.job_order) limit then s else record s {
  jobs = delete_all (drop limit s.job_order) s.jobs;
  job_order = take limit s.job_order;
}

unfoldable pub remove_job_order : Text → Service → Service
unfolding remove_first
remove_job_order id s = record s { job_order = remove_first id s.job_order }

abbrev pub job_limit : ℕ
job_limit = 500

-- The job that `enqueue` makes.
unfoldable pub make_job : Text → ℤ → CreateJobSpec → ReportJob
make_job id now spec =
    let delayed = ltb_ℤ (pos 0) spec.delay in
    record {
      id = id;
      source = spec.source;
      status = if delayed then scheduled else queued;
      created_at = now;
      scheduled_at = if delayed then some (now +ℤ spec.delay) else none;
      started_at = none;
      finished_at = none;
      from = spec.from;
      to = spec.to;
      period = spec.period;
      node = spec.node;
      trigger_node = spec.trigger_node;
      groups = spec.group_names;
      skip_charts = spec.skip_charts;
      charts_per_page = spec.charts_per_page;
      reason = spec.reason;
      alert_fingerprint = spec.alert_fingerprint;
      report_dir = [];
      pdf_path = [];
      csv_path = [];
      rows = 0;
      charts = 0;
      error = [];
      status_url = text "/api/reports/" ++ id;
      pdf_url = text "/api/reports/" ++ (id ++ text "/summary.pdf");
      csv_url = text "/api/reports/" ++ (id ++ text "/summary.csv");
      requested_grafana_url = spec.grafana.url;
      grafana = spec.grafana;
    }

-- The number and id of the next job; the counter is an `atomic.Uint64`.
abbrev pub next_seq : Service → ℕ
next_seq s = suc s.seq % 2 ^ 64

-- The job stored, and put in front of the order.
unfoldable pub with_new_job : Text → ReportJob → Service → Service
with_new_job id job s = record s {
  seq = next_seq s;
  jobs = insert id job s.jobs;
  job_order = id ∷ s.job_order;
}

-- The first part of `enqueue`, up to the unlock: number, job, map, order, trim. The number is taken
-- before the lock; here both are one step.
unfoldable pub register : Env → ℤ → CreateJobSpec → Service → ReportJob × Service
unfolding make_job trim_old_jobs with_new_job
register env now spec s =
    let id = env.format_id now (next_seq s) in
    let job = make_job id now spec in
    (clone_job job, trim_old_jobs job_limit (with_new_job id job s))

-- `case s.queue <- id` of a `select` with a default: `none` is the default.
unfoldable pub send : Text → Service → Option Service
send id s =
    if ltb (length s.queue) (capacity s)
    then some (record s { queue = s.queue ++ id ∷ [] })
    else none

-- The default branch of `enqueue`: the job is taken back.
unfoldable pub unregister : Text → Service → Service
unfolding remove_job_order
unregister id s = remove_job_order id (record s { jobs = delete id s.jobs })

pub data Enqueued : Type 0 where
  accepted : ReportJob → Enqueued
  queue_full : Enqueued

-- `enqueue` with no other goroutine between its parts.
unfoldable pub enqueue : Env → ℤ → CreateJobSpec → Service → Service × Enqueued
enqueue env now spec s =
    let (job, s') = register env now spec s in
    if ltb_ℤ (pos 0) spec.delay
    then (record s' { timers = job.id ∷ s'.timers }, accepted job)
    else elim (send job.id s') [
      | some s'' ↦ (s'', accepted job)
      | none ↦ (unregister job.id s', queue_full)
    ]

unfoldable pub get_job : Text → Service → Option ReportJob
get_job id s = lookup id s.jobs

unfoldable pub list_from : List Text → List (Text × ReportJob) → List ReportJob
list_from [] jobs = []
list_from (id ∷ ids) jobs =
    let rest = list_from ids jobs in
    elim (lookup id jobs) [ none ↦ rest | some job ↦ clone_job job ∷ rest ]

pub list_jobs : Service → List ReportJob
unfolding list_from
list_jobs s = list_from s.job_order s.jobs

-- `now.Sub(last) < s.opts.AlertCooldown`
unfoldable pub reserve_alert_fingerprint : Text → ℤ → Service → Service × Bool
reserve_alert_fingerprint fingerprint now s =
    if leb_ℤ s.opts.alert_cooldown (pos 0)
    then (s, true)
    else elim (lookup fingerprint s.alert_last) [
      | none ↦ (record s { alert_last = insert fingerprint now s.alert_last }, true)
      | some last ↦
          if ltb_ℤ (now -ℤ last) s.opts.alert_cooldown
          then (s, false)
          else (record s { alert_last = insert fingerprint now s.alert_last }, true)
    ]
