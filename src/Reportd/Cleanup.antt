-- ===== src/Reportd/Cleanup.antt =====
-- src/internal/reportd/cleanup.go: expired report directories are removed, and their jobs dropped.
pub mod Effects
use timesync_analyzer.Common.{
  ℕ, ◌≡◌, List, [], ◌∷◌, ◌++◌, map, Bool, true, false, not, ◌&&◌, ◌||◌, Option, none, some,
  if◌then◌else◌, ltb,
}
use timesync_analyzer.Common.Assoc.{lookup}
use timesync_analyzer.Common.Count.{count}
use timesync_analyzer.Common.Int.{ℤ, ltb_ℤ, ◌-ℤ◌}
use timesync_analyzer.Common.Text.{Text, text, text_eq, is_empty, has_prefix}
use timesync_analyzer.Reportd.Types.{
  Service, ReportJob, JobStatus, scheduled, queued, running, done, failed,
}
use timesync_analyzer.Reportd.Service.{Env, list_from, unregister}
use timesync_analyzer.Reportd.Service.Run.{abs_path}

abbrev pub report_dir_prefix : Text
report_dir_prefix = text "report_"

-- An entry of `os.ReadDir`: `mod_time` is `none` where `entry.Info` fails, `removable` says whether
-- `os.RemoveAll` succeeds, and `cancelled` what `ctx.Err()` says when its turn comes.
pub record Entry : Type 0 where
  pub name : Text
  pub is_dir : Bool
  pub mod_time : Option ℤ
  pub removable : Bool
  pub cancelled : Bool

abbrev pub keys : List (Text × ReportJob) → List Text
keys = map (λ e. e.0)

abbrev pub is_active : JobStatus → Bool
is_active scheduled = true
is_active queued = true
is_active running = true
is_active _ = false

pub active_dirs : List ReportJob → List Text
active_dirs [] = []
active_dirs (job ∷ jobs) =
    let rest = active_dirs jobs in
    if is_active job.status && not (is_empty job.report_dir) then job.report_dir ∷ rest else rest

unfoldable pub active_report_dirs : Service → List Text
unfolding active_dirs
active_report_dirs s = active_dirs (list_from (keys s.jobs) s.jobs)

abbrev pub member : Text → List Text → Bool
member a xs = ltb 0 (count a xs)

-- One locked step of `dropJobsForDirs`.
pub drop_job : List Text → Text → Service → Service
unfolding unregister
drop_job removed id s = elim (lookup id s.jobs) [
  | none ↦ s
  | some job ↦
      if is_empty job.report_dir
      then s
      else if member job.report_dir removed
      then unregister id s
      else s
]

pub drop_jobs : List Text → List Text → Service → Service
unfolding drop_job
drop_jobs removed [] s = s
drop_jobs removed (id ∷ ids) s = drop_jobs removed ids (drop_job removed id s)

pub drop_jobs_for_dirs : List Text → Service → Service
unfolding drop_jobs
drop_jobs_for_dirs removed s = drop_jobs removed (keys s.jobs) s

-- `join` is `filepath.Join(s.opts.OutDir, …)`.
module _ (env : Env) (join : Text → Text) (cutoff : ℤ) (active : List Text) where
  -- Whether the loop of `runCleanup` removes an entry.
  unfoldable pub removes : Entry → Bool
  removes entry =
      if not entry.is_dir || not (has_prefix entry.name report_dir_prefix)
      then false
      else if member (abs_path env (join entry.name)) active
      then false
      else elim entry.mod_time [
        | none ↦ false
        | some mod_time ↦ if not (ltb_ℤ mod_time cutoff) then false else entry.removable
      ]

  -- The loop: the directories removed, and whether it came to its end.
  unfoldable pub clean : List Entry → List Text × Bool
  unfolding removes
  clean [] = ([], true)
  clean (entry ∷ entries) =
      let (removed, ended) = clean entries in
      if entry.cancelled
      then ([], false)
      else if removes entry
      then (abs_path env (join entry.name) ∷ removed, ended)
      else (removed, ended)

-- `runCleanup` at a time; `entries` is `none` where `os.ReadDir` fails.
pub run_cleanup : Env → (Text → Text) → ℤ → Option (List Entry) → Service → Service × List Text
unfolding clean active_report_dirs drop_jobs_for_dirs
run_cleanup env join now none s = (s, [])
run_cleanup env join now (some entries) s =
    let (removed, ended) =
      clean env join (now -ℤ s.opts.report_ttl) (active_report_dirs s) entries in
    (if ended && not (is_empty removed) then drop_jobs_for_dirs removed s else s, removed)
