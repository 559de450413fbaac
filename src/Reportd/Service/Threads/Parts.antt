-- ===== src/Reportd/Service/Threads/Parts.antt =====
-- What the locked parts of src/internal/reportd/service.go do to the ownership of the jobs, and what
-- they leave alone.
use timesync_analyzer.Common.{
  ℕ, suc, ◌+◌, ◌<◌, ◌^◌, ◌≡◌, ◌⊎◌, inl, inr, refl, List, [], ◌∷◌, ◌++◌, true, none, some,
  if◌then◌else◌, ◌==◌, arith, Option-cases, Bool-cases, drop, length,
}
use timesync_analyzer.Common.Assoc.{lookup, insert, delete, lookup-delete}
use timesync_analyzer.Common.Count.{lookup-delete_all}
use timesync_analyzer.Common.Int.{ℤ}
use timesync_analyzer.Common.Text.{Text, text_eq}
use timesync_analyzer.Reportd.Types.{Service, ReportJob, CreateJobSpec, ReportResult}
use timesync_analyzer.Reportd.Groups.{Parsed, ok, err}
use timesync_analyzer.Reportd.Service.{
  Env, register, make_job, next_seq, with_new_job, trim_old_jobs, job_limit, unregister, send,
  capacity,
}
use timesync_analyzer.Reportd.Service.Run.{
  update_job, mark_job_running, mark_job_done, mark_job_failed, release_begin, is_scheduled, settle,
}
use timesync_analyzer.Reportd.Service.Threads.Ownership.{
  Owned, Owned-le, Owned-fewer, Owned-change, Owned-finish, Owned-new, is_finished,
}

-- All that the tokens of a job and the bound of the queue depend on.
abbrev pub Rest : Service → Service → Type 0
Rest s s' = (s'.seq ≡ s.seq) × (s'.queue ≡ s.queue) × (s'.timers ≡ s.timers) × (s'.opts ≡ s.opts)

pub send-some :
    (id : Text) (s s' : Service)
    → send id s ≡ some s'
    → (s' ≡ record s { queue = s.queue ++ id ∷ [] }) × (length s.queue < capacity s)
unfolding send
send-some id s s' e = ground arith

pub register-Rest :
    (env : Env) (now : ℤ) (spec : CreateJobSpec) (s : Service)
    → let s' = (register env now spec s).1 in
      (s'.seq ≡ next_seq s) × (s'.queue ≡ s.queue) × (s'.timers ≡ s.timers) × (s'.opts ≡ s.opts)
unfolding register trim_old_jobs
register-Rest env now spec s = ground arith

trim_old_jobs-fewer :
    (limit : ℕ) (s : Service) (id : Text)
    → (lookup id (trim_old_jobs limit s).jobs ≡ none)
      ⊎ (lookup id (trim_old_jobs limit s).jobs ≡ lookup id s.jobs)
unfolding trim_old_jobs
trim_old_jobs-fewer limit s id =
    ground (arith, lookup-delete_all id (drop limit s.job_order) s.jobs)

trim_old_jobs-seq : (limit : ℕ) (s : Service) → (trim_old_jobs limit s).seq ≡ s.seq
unfolding trim_old_jobs
trim_old_jobs-seq limit s = ground arith

trim_old_jobs-Owned :
    {env : Env} {held : Text → ℕ} (limit : ℕ) (s : Service)
    → Owned env held s.seq s.jobs
    → Owned env held (trim_old_jobs limit s).seq (trim_old_jobs limit s).jobs
trim_old_jobs-Owned limit s o = rw trim_old_jobs-seq (Owned-fewer _ (trim_old_jobs-fewer limit s) o)

numbered-Owned :
    (env : Env) (now : ℤ) (job : ReportJob) (n seq : ℕ) (jobs : List (Text × ReportJob))
    (held held' : Text → ℕ)
    → n ≡ suc seq
    → ((j : Text) → held' j ≡ held j + (if env.format_id now n == j then 1 else 0))
    → job.report_dir ≡ []
    → Owned env held seq jobs
    → Owned env held' n (insert (env.format_id now n) job jobs)
numbered-Owned env now job n seq jobs held held' e starts blank o =
    rw e (Owned-new held' now job (rw e at starts) blank o)

pub register-Owned :
    (env : Env) (now : ℤ) (spec : CreateJobSpec) (s : Service) (held held' : Text → ℕ)
    → suc s.seq < 2 ^ 64
    → ((j : Text) → held' j ≡ held j + (if env.format_id now (next_seq s) == j then 1 else 0))
    → Owned env held s.seq s.jobs
    → Owned env held' (register env now spec s).1.seq (register env now spec s).1.jobs
unfolding register make_job with_new_job
register-Owned env now spec s held held' small starts o =
    trim_old_jobs-Owned job_limit
      (with_new_job (env.format_id now (next_seq s))
        (make_job (env.format_id now (next_seq s)) now spec) s)
      (numbered-Owned env now (make_job (env.format_id now (next_seq s)) now spec) (next_seq s)
        s.seq s.jobs held held' (omega arith) starts refl o)

pub unregister-Owned :
    {env : Env} {held : Text → ℕ} (id : Text) (s : Service)
    → Owned env held s.seq s.jobs
    → Owned env held (unregister id s).seq (unregister id s).jobs
unfolding unregister
unregister-Owned id s o =
    Owned-fewer (delete id s.jobs) (λ j. ground (arith, lookup-delete id j s.jobs)) o

pub mark_job_running-Owned :
    {env : Env} {held : Text → ℕ} (id : Text) (now : ℤ) (s : Service)
    → 0 < held id
    → Owned env held s.seq s.jobs
    → let s' = (mark_job_running id now s).0 in Owned env held s'.seq s'.jobs
unfolding mark_job_running
mark_job_running-Owned id now s has o = elim (Option-cases (lookup id s.jobs)) [
  | inl e ↦ rw (e, mark_job_running) o
  | inr (job, e) ↦ rw (e, mark_job_running) (Owned-change id job _ e has (λ h. h) o)
]

pub release_begin-Owned :
    {env : Env} {held : Text → ℕ} (id : Text) (s : Service)
    → 0 < held id
    → Owned env held s.seq s.jobs
    → let s' = (release_begin id s).0 in Owned env held s'.seq s'.jobs
unfolding release_begin
release_begin-Owned id s has o = elim (Option-cases (lookup id s.jobs)) [
  | inl e ↦ rw (e, release_begin) o
  | inr (job, e) ↦ elim (Bool-cases (is_scheduled job)) [
    | inl it_is ↦ rw (e, release_begin) (rw it_is (Owned-change id job _ e has (λ h. h) o))
    | inr it_is_not ↦ rw (e, release_begin) (rw it_is_not o)
  ]
]

update_job-finish :
    {env : Env} {held : Text → ℕ} (id : Text) (change : ReportJob → ReportJob) (held' : Text → ℕ)
    (s : Service)
    → ((job : ReportJob) → is_finished (change job).status ≡ true)
    → ((j : Text) → held' j + (if id == j then 1 else 0) ≡ held j)
    → Owned env held s.seq s.jobs
    → Owned env held' (update_job id change s).seq (update_job id change s).jobs
unfolding update_job
update_job-finish id change held' s fin ends o = elim (Option-cases (lookup id s.jobs)) [
  | inl e ↦ rw (e, update_job) (Owned-le held' (λ j. omega (arith, ends j)) o)
  | inr (job, e) ↦ rw (e, update_job) (Owned-finish id held' job (change job) e ends (fin job) o)
]

module _ {env : Env} {held : Text → ℕ} (id : Text) (held' : Text → ℕ) (now : ℤ) (s : Service)
    (ends : (j : Text) → held' j + (if id == j then 1 else 0) ≡ held j)
    (o : Owned env held s.seq s.jobs) where
  pub mark_job_failed-Owned :
      (message : Text)
      → Owned env held'
          (mark_job_failed id message now s).seq
          (mark_job_failed id message now s).jobs
  unfolding mark_job_failed
  mark_job_failed-Owned message = update_job-finish id _ held' s (λ job. refl) ends o

  pub settle-Owned :
      (r : Parsed ReportResult)
      → Owned env held' (settle env id r now s).seq (settle env id r now s).jobs
  unfolding settle mark_job_done
  settle-Owned (err e) = mark_job_failed-Owned e
  settle-Owned (ok result) = update_job-finish id _ held' s (λ job. refl) ends o

pub update_job-Rest :
    (id : Text) (change : ReportJob → ReportJob) (s : Service) → Rest s (update_job id change s)
unfolding update_job
update_job-Rest id change s = ground arith

pub mark_job_running-Rest :
    (id : Text) (now : ℤ) (s : Service) → Rest s (mark_job_running id now s).0
unfolding mark_job_running
mark_job_running-Rest id now s = ground arith

pub release_begin-Rest : (id : Text) (s : Service) → Rest s (release_begin id s).0
unfolding release_begin
release_begin-Rest id s = ground arith

pub settle-Rest :
    (env : Env) (id : Text) (r : Parsed ReportResult) (now : ℤ) (s : Service)
    → Rest s (settle env id r now s)
unfolding settle mark_job_done mark_job_failed
settle-Rest env id (ok result) now s = update_job-Rest id _ s
settle-Rest env id (err e) now s = update_job-Rest id _ s

pub mark_job_failed-Rest :
    (id message : Text) (now : ℤ) (s : Service) → Rest s (mark_job_failed id message now s)
unfolding mark_job_failed
mark_job_failed-Rest id message now s = update_job-Rest id _ s
