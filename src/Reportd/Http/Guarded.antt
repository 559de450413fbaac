-- ===== src/Reportd/Http/Guarded.antt =====
-- What the handlers of src/internal/reportd/handlers.go let through.
use timesync_analyzer.Common.{
  ℕ, ◌≡◌, ◌≢◌, refl, List, [], ◌∷◌, true, false, not, Option, some, none, arith, Bool-cases, inl,
  inr, ◌⊎◌, ◌==◌, All, eq_of_beq, if_holds, subst, ap,
}
use timesync_analyzer.Common.Int.{ℤ}
use timesync_analyzer.Common.Text.{Text, text, text_eq, is_empty, has_prefix}
use timesync_analyzer.Reportd.Types.{
  Service, ReportJob, JobStatus, scheduled, queued, running, done, failed, CreateJobSpec,
}
use timesync_analyzer.Reportd.Groups.{Parsed, ok, err}
use timesync_analyzer.Reportd.Service.{Env, Enqueued, accepted, queue_full, enqueue, get_job}
use timesync_analyzer.Reportd.Http.{
  Request, HttpResponse, failure, file, no_content, no_route, Handler, bearer_token, with_auth,
  with_cors,
}
use timesync_analyzer.Reportd.Http.Requests.{TimeLib}
use timesync_analyzer.Reportd.Http.Files.{
  PathLib, sanitize_char, sanitize_filename, download_filename,
}
use timesync_analyzer.Reportd.Http.Paths.{Asks, split-Asks}
use timesync_analyzer.Reportd.Http.Routes.{
  is_done, answer_enqueue, create_report, handle_reports, serve_report_file, serve_artifact,
  show_job, show_parts, report_path, handle_report_by_id, answer_alerts, handle_health, route,
  serve,
}

-- A character that would end a quoted file name, or leave its directory or its line.
abbrev pub IsPlain : ℕ → Type 0
IsPlain c = (c ≢ b'"') × (c ≢ 92) × (c ≢ b'/') × (c ≢ 13) × (c ≢ 10)

sanitize_char-IsPlain : (c : ℕ) → IsPlain (sanitize_char c)
unfolding sanitize_char
sanitize_char-IsPlain c = ground arith

pub sanitize_filename-IsPlain : (name : Text) → All IsPlain (sanitize_filename name)
unfolding sanitize_filename
sanitize_filename-IsPlain [] = tt
sanitize_filename-IsPlain (c ∷ name) = (sanitize_char-IsPlain c, sanitize_filename-IsPlain name)

with_auth-unauthorized :
    (next : Handler) (r : Request) (s : Service)
    → is_empty s.opts.token ≡ false
    → bearer_token r ≢ s.opts.token
    → with_auth next r s ≡ (s, failure 401 (text "unauthorized"))
unfolding with_auth
with_auth-unauthorized next r s set differ = elim (Bool-cases (bearer_token r == s.opts.token)) [
  | inl h ↦ absurd (differ (eq_of_beq (bearer_token r) s.opts.token h))
  | inr h ↦ ground (arith, h)
]

module _ (env : Env) (lib : TimeLib) (paths : PathLib) (format_alert : ℤ → ℕ → Text) (now : ℤ)
    (clock : ℕ → ℤ) where
  abbrev pub Refused : Service → Service × HttpResponse → Type 0
  Refused s r =
      (r.0 ≡ s)
      × ((r.1 ≡ failure 401 (text "unauthorized")) ⊎ (r.1 ≡ no_content) ⊎ (r.1 ≡ no_route))

  -- With a token set, a request for anything but `/healthz` that does not bring the token changes
  -- nothing, and the answer is 401, or that of OPTIONS, or that there is no such path.
  pub serve-unauthorized :
      (r : Request) (s : Service)
      → is_empty s.opts.token ≡ false
      → bearer_token r ≢ s.opts.token
      → (r.path == text "/healthz") ≡ false
      → Refused s (serve env lib paths format_alert now clock r s)
  unfolding serve with_cors route
  serve-unauthorized r s set differ api = ground (
    arith,
    with_auth-unauthorized (handle_reports env lib paths format_alert now clock) r s set differ,
    with_auth-unauthorized (handle_report_by_id env lib paths format_alert now clock) r s set
        differ,
    with_auth-unauthorized (answer_alerts env lib paths format_alert now clock) r s set differ,
  )

  -- The file of a job that a request's path asks for.
  abbrev pub IsFile : ReportJob → (artifact path : Text) → Type 0
  IsFile job artifact path =
      ((artifact ≡ text "summary.pdf") × (path ≡ job.pdf_path))
      ⊎ ((artifact ≡ text "summary.csv") × (path ≡ job.csv_path))

  -- The job that a request's path asks for, its file, and the name in the header.
  abbrev pub FileOf : Request → Service → (name path : Text) → Type 0
  FileOf r s name path =
      (id : Text) × (artifact : Text) × (job : ReportJob) × Asks r.path id artifact
      × (get_job id s ≡ some job)
      × (job.status ≡ done)
      × (is_empty path ≡ false)
      × IsFile job artifact path
      × All IsPlain name

  -- What an answer says of the service, if it is a file.
  abbrev Served : Request → Service → HttpResponse → Type 0
  Served r s (file content_type disposition name path) = FileOf r s name path
  Served r s answer = Unit {0}

  done-of-is_done : (status : JobStatus) → is_done status ≡ true → status ≡ done
  unfolding is_done
  done-of-is_done scheduled h = cc
  done-of-is_done queued h = cc
  done-of-is_done running h = cc
  done-of-is_done done h = refl
  done-of-is_done failed h = cc

  module _ (r : Request) (s : Service) where
    module _ (id artifact : Text) (job : ReportJob) (asked : Asks r.path id artifact)
        (known : get_job id s ≡ some job) (ready : job.status ≡ done) where
      serve_report_file-Served :
          (path content_type : Text)
          → is_empty path ≡ false
          → IsFile job artifact path
          → Served r s
              (serve_report_file env lib paths format_alert now clock r job path content_type)
      unfolding serve_report_file download_filename
      serve_report_file-Served path content_type present which =
          (id, artifact, job, asked, known, ready, present, which, sanitize_filename-IsPlain _)

      serve_artifact-Served :
          Served r s (serve_artifact env lib paths format_alert now clock r job artifact)
      unfolding serve_artifact
      serve_artifact-Served =
          if_holds (Served r s) (artifact == text "summary.pdf") _ _
            (λ pdf.
              if_holds (Served r s) (is_empty job.pdf_path) _ _ (λ h. tt)
                (λ present.
                  serve_report_file-Served job.pdf_path _ present
                    (inl (eq_of_beq artifact (text "summary.pdf") pdf, refl))))
            (λ h.
              if_holds (Served r s) (artifact == text "summary.csv") _ _
                (λ csv.
                  if_holds (Served r s) (is_empty job.csv_path) _ _ (λ h. tt)
                    (λ present.
                      serve_report_file-Served job.csv_path _ present
                        (inr (eq_of_beq artifact (text "summary.csv") csv, refl))))
                (λ h. tt))

    show_job-Served :
        (id : Text) (rest : List Text) (found : Option ReportJob)
        → ((artifact : Text) (more : List Text) → rest ≡ artifact ∷ more → Asks r.path id artifact)
        → get_job id s ≡ found
        → Served r s (show_job env lib paths format_alert now clock r rest found)
    unfolding show_job
    show_job-Served id rest none asked known = tt
    show_job-Served id [] (some job) asked known =
        if_holds (Served r s) (r.method == text "GET") _ _ (λ h. tt) (λ h. tt)
    show_job-Served id (artifact ∷ rest) (some job) asked known =
        if_holds (Served r s) (not (r.method == text "GET")) _ _ (λ h. tt)
          (λ h.
            if_holds (Served r s) (not (is_done job.status)) _ _ (λ h. tt)
              (λ ready.
                serve_artifact-Served id artifact job (asked artifact rest refl) known
                  (done-of-is_done job.status (ground (arith, ready)))))

    show_parts-Served :
        (parts : List Text)
        → ((id artifact : Text) (more : List Text)
            → parts ≡ id ∷ artifact ∷ more
            → Asks r.path id artifact)
        → Served r s (show_parts env lib paths format_alert now clock r s parts)
    unfolding show_parts
    show_parts-Served [] asked = tt
    show_parts-Served (id ∷ rest) asked =
        if_holds (Served r s) (is_empty id) _ _ (λ h. tt)
          (λ h.
            show_job-Served id rest (get_job id s)
              (λ artifact more e. asked id artifact more (ap (λ ps. id ∷ ps) e)) refl)

    answer_enqueue-Served :
        (answer : Service × Enqueued)
        → Served r s (answer_enqueue env lib paths format_alert now clock answer).1
    unfolding answer_enqueue
    answer_enqueue-Served (s', accepted job) = tt
    answer_enqueue-Served (s', queue_full) = tt

    create_report-Served :
        (spec : Parsed CreateJobSpec)
        → Served r s (create_report env lib paths format_alert now clock s spec).1
    unfolding create_report
    create_report-Served (ok spec) = answer_enqueue-Served (enqueue env (clock 2) spec s)
    create_report-Served (err e) = tt

    -- The answer, whatever the state afterwards.
    abbrev AnswerServed : Service × HttpResponse → Type 0
    AnswerServed a = Served r s a.1

    with_auth-Served :
        (next : Handler) → AnswerServed (next r s) → AnswerServed (with_auth next r s)
    unfolding with_auth
    with_auth-Served next h =
        if_holds AnswerServed (is_empty s.opts.token) _ _ (λ e. h)
          (λ e. if_holds AnswerServed (not (bearer_token r == s.opts.token)) _ _ (λ e. tt) (λ e. h))

    handle_reports-Served : AnswerServed (handle_reports env lib paths format_alert now clock r s)
    unfolding handle_reports
    handle_reports-Served =
        if_holds AnswerServed (r.method == text "GET") _ _ (λ h. tt)
          (λ h.
            if_holds AnswerServed (r.method == text "POST") _ _ (λ h. create_report-Served _)
              (λ h. tt))

    serve-Served : Served r s (serve env lib paths format_alert now clock r s).1
    unfolding serve with_cors route handle_report_by_id answer_alerts handle_health report_path
    serve-Served =
        if_holds AnswerServed (r.method == text "OPTIONS") _ _ (λ h. tt)
          (λ h.
            if_holds AnswerServed (r.path == text "/healthz") _ _
              (λ h. if_holds AnswerServed (r.method == text "GET") _ _ (λ h. tt) (λ h. tt))
              (λ h.
                if_holds AnswerServed (r.path == text "/api/reports") _ _
                  (λ h. with_auth-Served _ handle_reports-Served)
                  (λ h.
                    if_holds AnswerServed (has_prefix r.path (text "/api/reports/")) _ _
                      (λ under. with_auth-Served _ (
                        show_parts-Served (report_path env lib paths format_alert now clock r.path)
                          (λ id artifact more e. split-Asks r.path id artifact more under e)))
                      (λ h.
                        if_holds AnswerServed (r.path == text "/api/grafana/alerts") _ _
                          (λ h. with_auth-Served _ tt) (λ h. tt)))))

    -- A file is only served to a request for `/api/reports/<id>/summary.pdf` or `summary.csv`, where
    -- slashes before the id and whatever follows the name after a slash do not count. The service
    -- knows the job with this id and it is done; the file is the report or the table of that job, as
    -- the request asks, its path is not empty, and the name in the header has no quote, slash,
    -- backslash or line end.
    pub serve-FileOf :
        (content_type disposition name path : Text)
        → (serve env lib paths format_alert now clock r s).1
          ≡ file content_type disposition name path
        → FileOf r s name path
    serve-FileOf content_type disposition name path e = subst (Served r s) e serve-Served
