-- ===== src/Reportd/Service/Calls.antt =====
-- What a caller of src/internal/reportd/service.go sees of `enqueue`, `getJob`, `listJobs` and
-- `reserveAlertFingerprint`.
use timesync_analyzer.Common.{
  ℕ, suc, ◌≤◌, ◌<◌, ◌≡◌, ◌↔◌, ◌⊎◌, inl, inr, refl, ap, ◌∙◌, List, [], ◌∷◌, map, true, false, some,
  arith, Option-cases, length, take, drop, beq_refl, All, take-append-drop,
}
use timesync_analyzer.Common.Assoc.{lookup, insert, lookup-insert}
use timesync_analyzer.Common.Count.{count, count-append, present, remove_first, lookup-delete_all}
use timesync_analyzer.Common.Int.{ℤ, pos, ◌-ℤ◌, ◌<ℤ◌, ◌≤ℤ◌}
use timesync_analyzer.Common.Text.{Text, text_eq}
use timesync_analyzer.Reportd.Types.{Service, ReportJob, CreateJobSpec}
use timesync_analyzer.Reportd.Service.{
  Env, accepted, queue_full, enqueue, register, with_new_job, make_job, next_seq, send, unregister,
  remove_job_order, trim_old_jobs, job_limit, capacity, get_job, list_jobs, list_from,
  reserve_alert_fingerprint,
}
use timesync_analyzer.Reportd.Service.Invariant.{Consistent}
use timesync_analyzer.Reportd.Service.Threads.Parts.{register-Rest}

-- `enqueue` refuses exactly the requests without a delay that find the channel full.
pub enqueue-queue_full :
    (env : Env) (now : ℤ) (spec : CreateJobSpec) (s : Service)
    → ((enqueue env now spec s).1 ≡ queue_full)
      ↔ ((spec.delay ≤ℤ pos 0) × (capacity s ≤ length s.queue))
unfolding enqueue send
enqueue-queue_full env now spec s = ground (arith, register-Rest env now spec s)

-- The order after one more job, trimmed and taken back.
taken_back :
    (limit : ℕ) (id : Text) (job : ReportJob) (s : Service)
    → length s.job_order ≡ suc limit
    → remove_first id (trim_old_jobs (suc limit) (with_new_job id job s)).job_order
      ≡ take limit s.job_order
unfolding trim_old_jobs remove_first with_new_job
taken_back limit id job s full = ground (arith, beq_refl id)

-- The newest job is not trimmed.
newest_stays :
    (limit : ℕ) (id : Text) (s : Service) (job : ReportJob)
    → count id s.job_order ≡ 0
    → lookup id (trim_old_jobs (suc limit) (with_new_job id job s)).jobs ≡ some job
unfolding trim_old_jobs with_new_job
newest_stays limit id s job fresh = ground (
  arith,
  lookup-delete_all id (drop limit s.job_order) (insert id job s.jobs),
  lookup-insert id id job s.jobs,
  beq_refl id,
  count-append id (take limit s.job_order) (drop limit s.job_order),
  ap (count id) (take-append-drop limit s.job_order),
)

register-job :
    (env : Env) (now : ℤ) (spec : CreateJobSpec) (s : Service)
    → count (env.format_id now (next_seq s)) s.job_order ≡ 0
    → let r = register env now spec s in lookup r.0.id r.1.jobs ≡ some r.0
unfolding register make_job
register-job env now spec s fresh =
    newest_stays 499 (env.format_id now (next_seq s)) s
      (make_job (env.format_id now (next_seq s)) now spec) fresh

register-order :
    (env : Env) (now : ℤ) (spec : CreateJobSpec) (s : Service)
    → length s.job_order ≡ job_limit
    → let r = register env now spec s in (unregister r.0.id r.1).job_order ≡ take 499 s.job_order
unfolding register make_job unregister remove_job_order
register-order env now spec s full =
    taken_back 499 (env.format_id now (next_seq s))
      (make_job (env.format_id now (next_seq s)) now spec) s full

enqueue_refused :
    (env : Env) (now : ℤ) (spec : CreateJobSpec) (s : Service)
    → (enqueue env now spec s).1 ≡ queue_full
    → let r = register env now spec s in (enqueue env now spec s).0 ≡ unregister r.0.id r.1
unfolding enqueue
enqueue_refused env now spec s refused = ground arith

-- Where the new id is not in `jobOrder` yet: a job that `enqueue` accepts is there for `getJob`, under
-- its id, as it was returned.
pub enqueue-get_job :
    (env : Env) (now : ℤ) (spec : CreateJobSpec) (s : Service) (job : ReportJob)
    → count (env.format_id now (next_seq s)) s.job_order ≡ 0
    → (enqueue env now spec s).1 ≡ accepted job
    → get_job job.id (enqueue env now spec s).0 ≡ some job
unfolding enqueue get_job send
enqueue-get_job env now spec s job fresh e = ground (arith, register-job env now spec s fresh)

-- With 500 ids in `jobOrder`, a request that is refused because the channel is full still costs the
-- oldest job its place: afterwards `jobOrder` holds only the 499 newest of the old ids.
pub enqueue_full_evicts :
    (env : Env) (now : ℤ) (spec : CreateJobSpec) (s : Service)
    → length s.job_order ≡ job_limit
    → (enqueue env now spec s).1 ≡ queue_full
    → (enqueue env now spec s).0.job_order ≡ take 499 s.job_order
enqueue_full_evicts env now spec s full refused =
    ap (λ t. t.job_order) (enqueue_refused env now spec s refused)
    ∙ register-order env now spec s full

every_counted :
    (xs ys : List Text) → ((id : Text) → count id xs ≤ count id ys) → All (λ id. 0 < count id ys) xs
every_counted [] ys le = tt
every_counted (x ∷ xs) ys le =
    (ground (arith, le x, beq_refl x), every_counted xs ys (λ id. omega (arith, le id)))

list_from-ids :
    (jobs : List (Text × ReportJob)) (ids : List Text)
    → All (λ id. 0 < present (lookup id jobs)) ids
    → ((id : Text) (job : ReportJob) → lookup id jobs ≡ some job → job.id ≡ id)
    → map (λ job. job.id) (list_from ids jobs) ≡ ids
unfolding list_from
list_from-ids jobs [] all named = refl
list_from-ids jobs (id ∷ ids) all named = elim (Option-cases (lookup id jobs)) [
  | inl e ↦ absurd (ground arith)
  | inr (job, e) ↦
      rw (e, list_from) (ground (arith, named id job e, list_from-ids jobs ids all.1 named))
]

every_present :
    (order ids : List Text) (jobs : List (Text × ReportJob))
    → ((id : Text) → count id order ≡ present (lookup id jobs))
    → All (λ id. 0 < count id order) ids
    → All (λ id. 0 < present (lookup id jobs)) ids
every_present order [] jobs keyed all = tt
every_present order (id ∷ ids) jobs keyed all =
    (omega (arith, keyed id, all.0), every_present order ids jobs keyed all.1)

-- `listJobs` lists every job of a consistent table, in the order of `jobOrder`: no entry is skipped.
pub list_jobs-ids : (s : Service) → Consistent s → map (λ job. job.id) (list_jobs s) ≡ s.job_order
unfolding list_jobs
list_jobs-ids s c =
    list_from-ids s.jobs s.job_order
      (every_present s.job_order s.job_order s.jobs c.keyed
        (every_counted s.job_order s.job_order (λ id. omega arith)))
      c.named

-- With a positive cooldown, a fingerprint that was reserved can be reserved again exactly once the
-- cooldown has passed; until then it is refused, and the refusal changes nothing.
pub reserve_twice :
    (fingerprint : Text) (now later : ℤ) (s : Service)
    → pos 0 <ℤ s.opts.alert_cooldown
    → (reserve_alert_fingerprint fingerprint now s).1 ≡ true
    → let r =
        reserve_alert_fingerprint fingerprint later
          (reserve_alert_fingerprint fingerprint now s).0 in
      ((r.1 ≡ true) × (s.opts.alert_cooldown ≤ℤ (later -ℤ now)))
      ⊎ ((r.1 ≡ false)
          × ((later -ℤ now) <ℤ s.opts.alert_cooldown)
          × (r.0 ≡ (reserve_alert_fingerprint fingerprint now s).0))
unfolding reserve_alert_fingerprint
reserve_twice fingerprint now later s on won =
    ground (arith, lookup-insert fingerprint fingerprint now s.alert_last, beq_refl fingerprint)
