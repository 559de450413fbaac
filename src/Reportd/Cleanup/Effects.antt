-- ===== src/Reportd/Cleanup/Effects.antt =====
-- What a cleanup of src/internal/reportd/cleanup.go removes, and which jobs it drops.
use timesync_analyzer.Common.{
  ℕ, ◌≡◌, ◌≢◌, ◌⊎◌, inl, inr, refl, sym, List, [], ◌∷◌, Bool, true, false, not, ◌&&◌, Option, none,
  some, if◌then◌else◌, ◌==◌, arith, Option-cases, Bool-cases,
}
use timesync_analyzer.Common.Assoc.{lookup, lookup-delete}
use timesync_analyzer.Common.Int.{ℤ, ◌<ℤ◌, ◌-ℤ◌}
use timesync_analyzer.Common.Text.{Text, text_eq, text_beq_iff, is_empty, has_prefix}
use timesync_analyzer.Reportd.Types.{Service, ReportJob, Options, done, failed}
use timesync_analyzer.Reportd.Groups.{Parsed}
use timesync_analyzer.Reportd.Types.{ReportResult}
use timesync_analyzer.Reportd.Service.{Env, list_from}
use timesync_analyzer.Reportd.Service.Run.{GenerateOptions, abs_path}
use timesync_analyzer.Reportd.Service.Invariant.{Consistent, unregister-Consistent}
use timesync_analyzer.Reportd.Service.Threads.{World, Reach, tokens}
use timesync_analyzer.Reportd.Service.Threads.Ownership.{Idle}
use timesync_analyzer.Reportd.Service.Threads.Reachable.{Reach-Sound}
use timesync_analyzer.Reportd.Cleanup.{
  Entry, keys, is_active, active_dirs, active_report_dirs, member, drop_job, drop_jobs,
  drop_jobs_for_dirs, removes, clean, run_cleanup, report_dir_prefix,
}

no_active_dirs :
    (jobs : List (Text × ReportJob)) (held : Text → ℕ) (ids : List Text)
    → ((id : Text) (job : ReportJob) → lookup id jobs ≡ some job → Idle (held id) job)
    → active_dirs (list_from ids jobs) ≡ []
unfolding list_from active_dirs
no_active_dirs jobs held [] idle = refl
no_active_dirs jobs held (id ∷ ids) idle = elim (Option-cases (lookup id jobs)) [
  | inl e ↦ rw (e, list_from) (no_active_dirs jobs held ids idle)
  | inr (job, e) ↦
      rw (e, list_from) (ground (arith, idle id job e, no_active_dirs jobs held ids idle))
]

-- In every state that the service can reach, `activeReportDirs` is empty: a job has its report
-- directory only once it is done, so no directory is ever busy for the cleanup.
pub active_report_dirs-Reach :
    (env : Env) (generate : GenerateOptions → Parsed ReportResult) {opts : Options} {w : World}
    → Reach env generate opts w
    → active_report_dirs w.svc ≡ []
unfolding active_report_dirs
active_report_dirs-Reach env generate {opts} {w} r =
    no_active_dirs w.svc.jobs (λ id. tokens id w) (keys w.svc.jobs)
      (Reach-Sound env generate r).owned.idle

-- What a job's lookup becomes.
pub kept : List Text → Option ReportJob → Option ReportJob
kept removed none = none
kept removed (some job) =
    if not (is_empty job.report_dir) && member job.report_dir removed then none else some job

lookup-drop_job :
    (removed : List Text) (id k : Text) (s : Service)
    → lookup id (drop_job removed k s).jobs
      ≡ (if k == id then kept removed (lookup id s.jobs) else lookup id s.jobs)
unfolding drop_job kept
lookup-drop_job removed id k s = ground (arith, lookup-delete k id s.jobs, text_beq_iff k id)

kept-kept :
    (removed : List Text) (o : Option ReportJob) → kept removed (kept removed o) ≡ kept removed o
unfolding kept
kept-kept removed none = refl
kept-kept removed (some job) = ground arith

lookup-drop_jobs :
    (removed : List Text) (id : Text) (ids : List Text) (s : Service)
    → lookup id (drop_jobs removed ids s).jobs
      ≡ (if member id ids then kept removed (lookup id s.jobs) else lookup id s.jobs)
unfolding drop_jobs
lookup-drop_jobs removed id [] s = refl
lookup-drop_jobs removed id (k ∷ ids) s = ground (
  arith,
  lookup-drop_jobs removed id ids (drop_job removed k s),
  lookup-drop_job removed id k s,
  kept-kept removed (lookup id s.jobs),
)

member-keys :
    (id : Text) (m : List (Text × ReportJob)) → (lookup id m ≡ none) ⊎ (member id (keys m) ≡ true)
unfolding lookup
member-keys id [] = inl refl
member-keys id ((k, job) ∷ m) = ground (arith, member-keys id m)

-- `dropJobsForDirs` takes out exactly the jobs whose report directory was removed.
pub lookup-drop_jobs_for_dirs :
    (removed : List Text) (id : Text) (s : Service)
    → lookup id (drop_jobs_for_dirs removed s).jobs ≡ kept removed (lookup id s.jobs)
unfolding drop_jobs_for_dirs kept
lookup-drop_jobs_for_dirs removed id s =
    ground (arith, lookup-drop_jobs removed id (keys s.jobs) s, member-keys id s.jobs)

drop_job-Consistent :
    (removed : List Text) (k : Text) (s : Service)
    → Consistent s
    → Consistent (drop_job removed k s)
unfolding drop_job
drop_job-Consistent removed k s c = elim (Option-cases (lookup k s.jobs)) [
  | inl e ↦ rw (e, drop_job) c
  | inr (job, e) ↦ elim (Bool-cases (is_empty job.report_dir)) [
    | inl blank ↦ rw (e, drop_job) (rw blank c)
    | inr set ↦ elim (Bool-cases (member job.report_dir removed)) [
      | inl gone ↦ rw (e, drop_job) (rw (set, gone) (unregister-Consistent k s c))
      | inr there ↦ rw (e, drop_job) (rw (set, there) c)
    ]
  ]
]

drop_jobs-Consistent :
    (removed ids : List Text) (s : Service) → Consistent s → Consistent (drop_jobs removed ids s)
unfolding drop_jobs
drop_jobs-Consistent removed [] s c = c
drop_jobs-Consistent removed (k ∷ ids) s c =
    drop_jobs-Consistent removed ids (drop_job removed k s) (drop_job-Consistent removed k s c)

-- A job that waits, or runs, and has a report directory.
abbrev pub IsBusy : ReportJob → Type 0
IsBusy job = (job.status ≢ done) × (job.status ≢ failed) × (is_empty job.report_dir ≡ false)

is_active-IsBusy : (job : ReportJob) → IsBusy job → is_active job.status ≡ true
is_active-IsBusy job (not_done, not_failed, dir) = ground arith

busy_dir-member :
    (jobs : List (Text × ReportJob)) (id : Text) (job : ReportJob) (ids : List Text)
    → lookup id jobs ≡ some job
    → IsBusy job
    → member id ids ≡ true
    → member job.report_dir (active_dirs (list_from ids jobs)) ≡ true
unfolding list_from active_dirs
busy_dir-member jobs id job [] found busy there = cc
busy_dir-member jobs id job (k ∷ ids) found busy there = elim (Option-cases (lookup k jobs)) [
  | inl e ↦
      rw (e, list_from)
        (ground (arith, e, found, text_beq_iff k id, busy_dir-member jobs id job ids found busy))
  | inr (other, e) ↦
      rw (e, list_from)
        (ground (
          arith,
          e,
          found,
          text_beq_iff k id,
          is_active-IsBusy job busy,
          text_beq_iff job.report_dir job.report_dir,
          busy_dir-member jobs id job ids found busy,
        ))
]

-- A directory of which `activeReportDirs` knows nothing is no busy job's.
not_busy :
    (s : Service) (path : Text) (id : Text) (job : ReportJob)
    → member path (active_report_dirs s) ≡ false
    → lookup id s.jobs ≡ some job
    → IsBusy job
    → job.report_dir ≢ path
unfolding active_report_dirs
not_busy s path id job free found busy same =
    ground
      (arith, same, member-keys id s.jobs, busy_dir-member s.jobs id job (keys s.jobs) found busy)

-- A directory entry that is a report, is the directory of no busy job, and was last changed before
-- the cutoff.
pub record IsExpired (path : Entry → Text) (cutoff : ℤ) (jobs : List (Text × ReportJob))
    (entry : Entry) : Type 0 where
  pub dir : entry.is_dir ≡ true
  pub report : has_prefix entry.name report_dir_prefix ≡ true
  pub free :
      (id : Text) (job : ReportJob)
      → lookup id jobs ≡ some job
      → IsBusy job
      → job.report_dir ≢ path entry
  pub old : (t : ℤ) × (entry.mod_time ≡ some t) × (t <ℤ cutoff)

-- A list of directories picked from the entries, in their order, each an expired report.
pub data Picks (path : Entry → Text) (cutoff : ℤ) (jobs : List (Text × ReportJob))
    : List Entry → List Text → Type 0 where
  stop : {entries : List Entry} → Picks path cutoff jobs entries []
  skip :
      {entry : Entry} {entries : List Entry} {dirs : List Text}
      → Picks path cutoff jobs entries dirs
      → Picks path cutoff jobs (entry ∷ entries) dirs
  pick :
      {entry : Entry} {entries : List Entry} {dirs : List Text}
      → IsExpired path cutoff jobs entry
      → Picks path cutoff jobs entries dirs
      → Picks path cutoff jobs (entry ∷ entries) (path entry ∷ dirs)

module _ (env : Env) (join : Text → Text) where
  abbrev pub entry_path : Entry → Text
  entry_path entry = abs_path env (join entry.name)

  module _ (s : Service) (cutoff : ℤ) where
    removes-IsExpired :
        (entry : Entry)
        → removes env join cutoff (active_report_dirs s) entry ≡ true
        → IsExpired entry_path cutoff s.jobs entry
    unfolding removes
    removes-IsExpired entry e = record {
      dir = ground arith;
      report = ground arith;
      free = λ id job. not_busy s (entry_path entry) id job (ground arith);
      old = elim (Option-cases entry.mod_time) [
        | inl none' ↦ absurd (ground arith)
        | inr (t, known) ↦ (t, known, ground arith)
      ];
    }

    clean_turn :
        (entry : Entry) (entries : List Entry) (rest : List Text × Bool) (cancelled removed : Bool)
        → (removed ≡ true → IsExpired entry_path cutoff s.jobs entry)
        → Picks entry_path cutoff s.jobs entries rest.0
        → let turn : List Text × Bool =
            if cancelled
            then ([], false)
            else if removed
            then (entry_path entry ∷ rest.0, rest.1)
            else (rest.0, rest.1) in
          Picks entry_path cutoff s.jobs (entry ∷ entries) turn.0
    clean_turn entry entries rest true removed h p = stop
    clean_turn entry entries rest false true h p = pick (h refl) p
    clean_turn entry entries rest false false h p = skip p

    clean-Picks :
        (entries : List Entry)
        → Picks entry_path cutoff s.jobs entries
            (clean env join cutoff (active_report_dirs s) entries).0
    unfolding clean
    clean-Picks [] = stop
    clean-Picks (entry ∷ entries) =
        clean_turn entry entries (clean env join cutoff (active_report_dirs s) entries)
          entry.cancelled (removes env join cutoff (active_report_dirs s) entry)
          (removes-IsExpired entry) (clean-Picks entries)

  -- A cleanup removes only expired report directories, in the order of the directory's entries, and
  -- none that is the report directory of a job of the table which is neither done nor failed.
  pub run_cleanup-Picks :
      (now : ℤ) (entries : List Entry) (s : Service)
      → Picks entry_path
          (now -ℤ s.opts.report_ttl)
          s.jobs
          entries
          (run_cleanup env join now (some entries) s).1
  unfolding run_cleanup
  run_cleanup-Picks now entries s = clean-Picks s _ entries

  kept-nil : (o : Option ReportJob) → kept [] o ≡ o
  unfolding kept
  kept-nil none = refl
  kept-nil (some job) = ground arith

  jobs_after :
      (id : Text) (s : Service) (removed : List Text)
      → lookup id (if not (is_empty removed) then drop_jobs_for_dirs removed s else s).jobs
        ≡ kept removed (lookup id s.jobs)
  jobs_after id s [] = sym (kept-nil (lookup id s.jobs))
  jobs_after id s (dir ∷ dirs) = lookup-drop_jobs_for_dirs (dir ∷ dirs) id s

  -- A cleanup that is not cut short takes out of the table exactly the jobs whose report directory
  -- it removed, and leaves every other job as it was.
  pub lookup-run_cleanup :
      (now : ℤ) (entries : List Entry) (s : Service)
      → (clean env join (now -ℤ s.opts.report_ttl) (active_report_dirs s) entries).1 ≡ true
      → (id : Text)
      → lookup id (run_cleanup env join now (some entries) s).0.jobs
        ≡ kept (run_cleanup env join now (some entries) s).1 (lookup id s.jobs)
  unfolding run_cleanup
  lookup-run_cleanup now entries s ended id = rw ended (jobs_after id s _)
