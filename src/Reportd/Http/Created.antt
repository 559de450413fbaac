-- ===== src/Reportd/Http/Created.antt =====
-- A POST to `handleReports` of src/internal/reportd/handlers.go, down to the queue of
-- src/internal/reportd/service.go.
use timesync_analyzer.Common.{ℕ, ◌≡◌, refl, [], ◌∷◌, ◌++◌, some, arith}
use timesync_analyzer.Common.Count.{count}
use timesync_analyzer.Common.Int.{ℤ, pos, ◌<ℤ◌}
use timesync_analyzer.Common.Text.{Text, text, text_eq}
use timesync_analyzer.Reportd.Types.{Service, ReportJob, CreateJobSpec, queued}
use timesync_analyzer.Reportd.Groups.{Parsed, ok, err}
use timesync_analyzer.Reportd.Service.{
  Env, Enqueued, accepted, queue_full, enqueue, get_job, next_seq, make_job, register, send,
}
use timesync_analyzer.Reportd.Service.Calls.{enqueue-get_job}
use timesync_analyzer.Reportd.Http.{Request, created}
use timesync_analyzer.Reportd.Http.Requests.{TimeLib, read_create_report_request}
use timesync_analyzer.Reportd.Http.Requests.Accepted.{>>=-value, create_spec_from_request-accepted}
use timesync_analyzer.Reportd.Http.Files.{PathLib}
use timesync_analyzer.Reportd.Http.Routes.{
  answer_enqueue, create_report, requested_spec, handle_reports,
}

enqueue-make_job :
    (env : Env) (now : ℤ) (spec : CreateJobSpec) (s : Service) (job : ReportJob)
    → spec.delay ≡ pos 0
    → (enqueue env now spec s).1 ≡ accepted job
    → (job ≡ make_job (env.format_id now (next_seq s)) now spec)
      × ((enqueue env now spec s).0.queue ≡ s.queue ++ job.id ∷ [])
unfolding enqueue register send make_job
enqueue-make_job env now spec s job delay e = ground arith

module _ (env : Env) (lib : TimeLib) (paths : PathLib) (format_alert : ℤ → ℕ → Text) (now : ℤ)
    (clock : ℕ → ℤ) where
  -- What is known of the service after a POST that was accepted.
  abbrev pub Taken : Service → ReportJob → Service → Type 0
  Taken s job s' =
      (get_job job.id s' ≡ some job)
      × (s'.queue ≡ s.queue ++ job.id ∷ [])
      × (job.status ≡ queued)
      × (job.from <ℤ job.to)
      × (pos 0 <ℤ job.period)

  answer-accepted :
      (answer : Service × Enqueued) (job : ReportJob)
      → (answer_enqueue env lib paths format_alert now clock answer).1 ≡ created job
      → (answer.1 ≡ accepted job)
        × ((answer_enqueue env lib paths format_alert now clock answer).0 ≡ answer.0)
  unfolding answer_enqueue
  answer-accepted (s, accepted found) job e = (cc, refl)
  answer-accepted (s, queue_full) job e = cc

  module _ (s : Service) (job : ReportJob)
      (fresh : count (env.format_id (clock 2) (next_seq s)) s.job_order ≡ 0) where
    accepted-Taken :
        (spec : CreateJobSpec)
        → (spec.from <ℤ spec.to) × (pos 0 <ℤ spec.period) × (spec.delay ≡ pos 0)
        → (enqueue env (clock 2) spec s).1 ≡ accepted job
        → Taken s job (enqueue env (clock 2) spec s).0
    unfolding make_job
    accepted-Taken spec (ordered, positive, delay) e =
        let (made, queue) = enqueue-make_job env (clock 2) spec s job delay e in
        (
          enqueue-get_job env (clock 2) spec s job fresh e,
          queue,
          ground (arith, made, delay),
          ground (arith, made, ordered),
          ground (arith, made, positive),
        )

    create_report-Taken :
        (r : Request) (spec : Parsed CreateJobSpec)
        → requested_spec env lib paths format_alert now clock r s ≡ spec
        → (create_report env lib paths format_alert now clock s spec).1 ≡ created job
        → Taken s job (create_report env lib paths format_alert now clock s spec).0
    unfolding create_report requested_spec
    create_report-Taken r (err e) asked answered = cc
    create_report-Taken r (ok spec) asked answered =
        let (req, made, _) = >>=-value (read_create_report_request r) _ asked in
        let (ordered, positive, delay, _) =
          create_spec_from_request-accepted lib s.opts now clock req s.opts.default_period
            s.opts.default_groups (text "manual") made in
        let (e, same) = answer-accepted (enqueue env (clock 2) spec s) job answered in
        rw same (accepted-Taken spec (ordered, positive, delay) e)

    -- Where the new id is not in use: a POST that is answered with a job has put that job, and no
    -- other, at the end of the queue; `getJob` knows it, it is queued, its interval is not empty and
    -- its period is positive.
    pub handle_reports-created :
        (r : Request)
        → r.method ≡ text "POST"
        → (handle_reports env lib paths format_alert now clock r s).1 ≡ created job
        → Taken s job (handle_reports env lib paths format_alert now clock r s).0
    unfolding handle_reports requested_spec read_create_report_request
    handle_reports-created r post answered =
        rw post (create_report-Taken r _ refl (rw post at answered))
