-- ===== src/Reportd/Service/Invariant.antt =====
-- The job table of src/internal/reportd/service.go: `jobs` and `jobOrder` agree, and stay within the
-- limit of 500.
use timesync_analyzer.Common.{
  ℕ, ◌+◌, ◌≤◌, ◌<◌, ◌≡◌, refl, ap, sym, ◌∙◌, List, [], ◌∷◌, some, arith, length, take, drop,
  take-append-drop, length-take, Bool-cases, Option-cases, inl, inr,
}
use timesync_analyzer.Common.Assoc.{lookup, insert, lookup-insert, lookup-delete}
use timesync_analyzer.Common.Count.{
  present, count, count-append, remove_first, count-remove_first, lookup-delete_all,
}
use timesync_analyzer.Common.Int.{ℤ}
use timesync_analyzer.Common.Text.{Text, text_eq, text_beq_iff}
use timesync_analyzer.Reportd.Types.{Service, ReportJob, CreateJobSpec, ReportResult}
use timesync_analyzer.Reportd.Service.{
  Env, trim_old_jobs, job_limit, make_job, next_seq, with_new_job, register, unregister,
}
use timesync_analyzer.Reportd.Groups.{Parsed, ok, err}
use timesync_analyzer.Reportd.Service.Run.{
  update_job, mark_job_running, mark_job_done, mark_job_failed, release_begin, is_scheduled, settle,
}

-- Each key of `jobs` stands in `jobOrder` exactly once, and nothing else does; a job stands under its
-- own id; and there are at most 500.
pub record Consistent (s : Service) : Type 0 where
  pub keyed : (id : Text) → count id s.job_order ≡ present (lookup id s.jobs)
  pub named : (id : Text) (job : ReportJob) → lookup id s.jobs ≡ some job → job.id ≡ id
  pub bounded : length s.job_order ≤ job_limit

-- The same but for the limit.
pub record Agree (s : Service) : Type 0 where
  pub keyed : (id : Text) → count id s.job_order ≡ present (lookup id s.jobs)
  pub named : (id : Text) (job : ReportJob) → lookup id s.jobs ≡ some job → job.id ≡ id

count-take-drop :
    (limit : ℕ) (id : Text) (xs : List Text)
    → count id (take limit xs) + count id (drop limit xs) ≡ count id xs
count-take-drop limit id xs =
    sym (count-append id (take limit xs) (drop limit xs))
    ∙ ap (count id) (take-append-drop limit xs)

trim_old_jobs-Agree : (limit : ℕ) (s : Service) → Agree s → Agree (trim_old_jobs limit s)
unfolding trim_old_jobs
trim_old_jobs-Agree limit s a = record {
  keyed = λ id. ground (
    arith,
    a.keyed id,
    count-take-drop limit id s.job_order,
    lookup-delete_all id (drop limit s.job_order) s.jobs,
  );
  named = λ id job e.
      ground (arith, a.named id job, lookup-delete_all id (drop limit s.job_order) s.jobs);
}

length-trim_old_jobs-le :
    (limit : ℕ) (s : Service) → 0 < limit → length (trim_old_jobs limit s).job_order ≤ limit
unfolding trim_old_jobs
length-trim_old_jobs-le limit s h = ground (arith, length-take limit s.job_order)

insert_new-Agree :
    (s : Service) (seq : ℕ) (job : ReportJob)
    → Agree s
    → count job.id s.job_order ≡ 0
    → Agree
        (record s { seq = seq; jobs = insert job.id job s.jobs; job_order = job.id ∷ s.job_order })
insert_new-Agree s seq job a fresh = record {
  keyed = λ id. ground (
    arith,
    a.keyed id,
    a.keyed job.id,
    lookup-insert job.id id job s.jobs,
    text_beq_iff job.id id,
  );
  named = λ id j e.
      ground (arith, a.named id j, lookup-insert job.id id job s.jobs, text_beq_iff job.id id);
}

-- `enqueue` with an id that is not in use keeps the table consistent, up to the unlock.
pub register-Consistent :
    (env : Env) (now : ℤ) (spec : CreateJobSpec) (s : Service)
    → Consistent s
    → count (env.format_id now (next_seq s)) s.job_order ≡ 0
    → Consistent (register env now spec s).1
unfolding register make_job
register-Consistent env now spec s c fresh =
    let id = env.format_id now (next_seq s) in
    let grown = with_new_job id (make_job id now spec) s in
    let a = trim_old_jobs-Agree job_limit grown (
      insert_new-Agree s (next_seq s) (make_job id now spec)
        (record { keyed = c.keyed; named = c.named }) fresh) in
    record {
      keyed = a.keyed;
      named = a.named;
      bounded = length-trim_old_jobs-le job_limit grown (omega arith);
    }

length-remove_first-le : (id : Text) (xs : List Text) → length (remove_first id xs) ≤ length xs
unfolding remove_first
length-remove_first-le id [] = omega arith
length-remove_first-le id (x ∷ xs) = ground (arith, length-remove_first-le id xs)

-- Taking a job out keeps the table consistent.
pub unregister-Consistent : (id : Text) (s : Service) → Consistent s → Consistent (unregister id s)
unfolding unregister
unregister-Consistent id s c = record {
  keyed = λ j. ground (
    arith,
    c.keyed j,
    count-remove_first id j s.job_order,
    lookup-delete id j s.jobs,
    text_beq_iff id j,
  );
  named = λ j job e. ground (arith, c.named j job, lookup-delete id j s.jobs);
  bounded = omega (arith, c.bounded, length-remove_first-le id s.job_order);
}

replace-Consistent :
    (id : Text) (s : Service) (old job : ReportJob)
    → Consistent s
    → lookup id s.jobs ≡ some old
    → job.id ≡ old.id
    → Consistent (record s { jobs = insert id job s.jobs })
replace-Consistent id s old job c found same = record {
  keyed = λ j. ground (arith, c.keyed j, lookup-insert id j job s.jobs, text_beq_iff id j);
  named = λ j k e.
      ground (
        arith,
        c.named j k,
        c.named id old found,
        lookup-insert id j job s.jobs,
        text_beq_iff id j,
      );
  bounded = c.bounded;
}

update_job-Consistent :
    (id : Text) (change : ReportJob → ReportJob) (s : Service)
    → ((job : ReportJob) → (change job).id ≡ job.id)
    → Consistent s
    → Consistent (update_job id change s)
unfolding update_job
update_job-Consistent id change s same c = elim (Option-cases (lookup id s.jobs)) [
  | inl e ↦ rw (e, update_job) c
  | inr (job, e) ↦ rw (e, update_job) (replace-Consistent id s job (change job) c e (same job))
]

pub mark_job_running-Consistent :
    (id : Text) (now : ℤ) (s : Service) → Consistent s → Consistent (mark_job_running id now s).0
unfolding mark_job_running
mark_job_running-Consistent id now s c = elim (Option-cases (lookup id s.jobs)) [
  | inl e ↦ rw (e, mark_job_running) c
  | inr (job, e) ↦ rw (e, mark_job_running) (replace-Consistent id s job _ c e refl)
]

pub release_begin-Consistent :
    (id : Text) (s : Service) → Consistent s → Consistent (release_begin id s).0
unfolding release_begin
release_begin-Consistent id s c = elim (Option-cases (lookup id s.jobs)) [
  | inl e ↦ rw (e, release_begin) c
  | inr (job, e) ↦ elim (Bool-cases (is_scheduled job)) [
    | inl yes' ↦ rw (e, release_begin) (rw yes' (replace-Consistent id s job _ c e refl))
    | inr no' ↦ rw (e, release_begin) (rw no' c)
  ]
]

pub settle-Consistent :
    (env : Env) (id : Text) (r : Parsed ReportResult) (now : ℤ) (s : Service)
    → Consistent s
    → Consistent (settle env id r now s)
unfolding settle mark_job_failed mark_job_done
settle-Consistent env id (err e) now s c = update_job-Consistent id _ s (λ job. refl) c
settle-Consistent env id (ok result) now s c = update_job-Consistent id _ s (λ job. refl) c

pub mark_job_failed-Consistent :
    (id message : Text) (now : ℤ) (s : Service)
    → Consistent s
    → Consistent (mark_job_failed id message now s)
unfolding mark_job_failed
mark_job_failed-Consistent id message now s c = update_job-Consistent id _ s (λ job. refl) c
