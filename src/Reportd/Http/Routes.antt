-- ===== src/Reportd/Http/Routes.antt =====
-- The handlers of src/internal/reportd/handlers.go and its `Routes`. The lock that each of the calls
-- on the jobs takes is left out: no other goroutine runs between them.
use timesync_analyzer.Common.{
  ℕ, List, [], ◌∷◌, Bool, true, false, not, Option, none, some, if◌then◌else◌, ◌==◌, drop, length,
}
use timesync_analyzer.Common.Int.{ℤ}
use timesync_analyzer.Common.Text.{Text, text, text_eq, is_empty, has_prefix, split, trim_of}
use timesync_analyzer.Reportd.Types.{
  Service, ReportJob, JobStatus, scheduled, queued, running, done, failed, CreateJobSpec,
}
use timesync_analyzer.Reportd.Groups.{Parsed, ok, err}
use timesync_analyzer.Reportd.Service.{
  Env, Enqueued, accepted, queue_full, enqueue, get_job, list_jobs,
}
use timesync_analyzer.Reportd.Alerts.{handle_grafana_alerts}
use timesync_analyzer.Reportd.Http.{
  Request, HttpResponse, failure, health, listing, created, shown, file, alerts, no_route, Handler,
  with_auth, with_cors,
}
use timesync_analyzer.Reportd.Http.Strconv.{parse_bool}
use timesync_analyzer.Reportd.Http.Requests.{
  TimeLib, create_spec_from_request, read_create_report_request, ◌>>=◌,
}
use timesync_analyzer.Reportd.Http.Files.{PathLib, download_filename}

abbrev pub method_not_allowed : HttpResponse
method_not_allowed = failure 405 (text "method not allowed")

unfoldable pub handle_health : Handler
handle_health r s = if r.method == text "GET" then (s, health) else (s, method_not_allowed)

-- `strings.TrimPrefix`
unfoldable pub trim_prefix : Text → Text → Text
trim_prefix value prefix = if has_prefix value prefix then drop (length prefix) value else value

unfoldable pub is_done : JobStatus → Bool
is_done scheduled = false
is_done queued = false
is_done running = false
is_done done = true
is_done failed = false

-- An error of `strconv.ParseBool` comes with `false`.
abbrev pub true_if : Parsed Bool → Bool
true_if (ok b) = b
true_if (err e) = false

-- `clock` gives the times that are read; the ones after the second are those of the alerts.
module _ (env : Env) (lib : TimeLib) (paths : PathLib) (format_alert : ℤ → ℕ → Text) (now : ℤ)
    (clock : ℕ → ℤ) where
  -- The answer to `enqueue`.
  unfoldable pub answer_enqueue : Service × Enqueued → Service × HttpResponse
  answer_enqueue (s, accepted job) = (s, created job)
  answer_enqueue (s, queue_full) = (s, failure 503 (text "report queue is full"))

  unfoldable pub create_report : Service → Parsed CreateJobSpec → Service × HttpResponse
  create_report s (err e) = (s, failure 400 e)
  create_report s (ok spec) = answer_enqueue (enqueue env (clock 2) spec s)

  -- The spec of a POST.
  unfoldable pub requested_spec : Request → Service → Parsed CreateJobSpec
  requested_spec r s = read_create_report_request r >>= λ req.
      create_spec_from_request lib s.opts now clock req s.opts.default_period s.opts.default_groups
        (text "manual")

  unfoldable pub handle_reports : Handler
  handle_reports r s =
      if r.method == text "GET"
      then (s, listing (list_jobs s))
      else if r.method == text "POST"
      then create_report s (requested_spec r s)
      else (s, method_not_allowed)

  unfoldable pub serve_report_file : Request → ReportJob → (path content_type : Text) → HttpResponse
  serve_report_file r job path content_type =
      file content_type
        (if true_if (parse_bool (r.query (text "inline")))
          then text "inline"
          else text "attachment")
        (download_filename paths job path) path

  -- The `switch` on the name of the file.
  unfoldable pub serve_artifact : Request → ReportJob → Text → HttpResponse
  serve_artifact r job artifact =
      if artifact == text "summary.pdf"
      then (if is_empty job.pdf_path
          then failure 404 (text "pdf not found")
          else serve_report_file r job job.pdf_path (text "application/pdf"))
      else if artifact == text "summary.csv"
      then (if is_empty job.csv_path
          then failure 404 (text "csv not found")
          else serve_report_file r job job.csv_path (text "text/csv; charset=utf-8"))
      else failure 404 (text "report artifact not found")

  -- From the answer of `getJob` on, with the parts of the path after the id.
  unfoldable pub show_job : Request → List Text → Option ReportJob → HttpResponse
  show_job r rest none = failure 404 (text "report not found")
  show_job r [] (some job) = if r.method == text "GET" then shown job else method_not_allowed
  show_job r (artifact ∷ rest) (some job) =
      if not (r.method == text "GET")
      then method_not_allowed
      else if not (is_done job.status)
      then failure 409 (text "report is not ready")
      else serve_artifact r job artifact

  unfoldable pub show_parts : Request → Service → List Text → HttpResponse
  show_parts r s [] = failure 404 (text "report not found")
  show_parts r s (id ∷ rest) =
      if is_empty id then failure 404 (text "report not found") else show_job r rest (get_job id s)

  unfoldable pub report_path : Text → List Text
  report_path path = split b'/' (trim_of b'/' (trim_prefix path (text "/api/reports/")))

  unfoldable pub handle_report_by_id : Handler
  handle_report_by_id r s = (s, show_parts r s (report_path r.path))

  unfoldable pub answer_alerts : Handler
  answer_alerts r s =
      let (s', answer) =
        handle_grafana_alerts env lib.durations format_alert (λ i. clock i)
          (r.method == text "POST") r.payload now s in
      (s', alerts answer)

  -- `Routes`: the multiplexer, on a path that it does not redirect.
  unfoldable pub route : Handler
  route r s =
      if r.path == text "/healthz"
      then handle_health r s
      else if r.path == text "/api/reports"
      then with_auth handle_reports r s
      else if has_prefix r.path (text "/api/reports/")
      then with_auth handle_report_by_id r s
      else if r.path == text "/api/grafana/alerts"
      then with_auth answer_alerts r s
      else (s, no_route)

  -- `Handler`
  unfoldable pub serve : Handler
  serve = with_cors route
