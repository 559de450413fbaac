-- ===== src/Tests/Reportd/Http.antt =====
-- The theorems on the HTTP handlers of src/internal/reportd at concrete inputs.
use timesync_analyzer.Common.{ℕ, ◌+◌, ◌-◌, ◌*◌, ◌≡◌, refl, [], ◌∷◌, ltb, leb, none}
use timesync_analyzer.Common.Assoc.{lookup}
use timesync_analyzer.Common.Int.{ℤ, pos, pos_part, ◌<ℤ◌}
use timesync_analyzer.Common.Text.{Text, text, has_prefix, trim_space, to_lower, trim_of, split}
use timesync_analyzer.Reportd.Types.{Service, ReportJob, CreateJobSpec, done}
use timesync_analyzer.Reportd.Groups.{Parsed, ok, err, split_csv, trimmed_parts, first_non_empty}
use timesync_analyzer.Reportd.Service.{
  get_job, enqueue, register, make_job, trim_old_jobs, with_new_job, send,
}
use timesync_analyzer.Reportd.Durations.{DurationLib, parse_now_expression}
use timesync_analyzer.Reportd.Http.{
  CreateReportRequest, Request, bearer_token, with_auth, with_cors,
}
use timesync_analyzer.Reportd.Http.Strconv.{parse_int, parse_digits, parse_bool}
use timesync_analyzer.Reportd.Http.Requests.{
  TimeLib, create_spec_from_request, parse_api_time, parse_number_or_time, period_of, groups_of,
  read_create_report_request, fill_from_query, build_spec,
}
use timesync_analyzer.Reportd.Http.Requests.Accepted.{GroupsFit, create_spec_from_request-accepted}
use timesync_analyzer.Reportd.Http.Files.{
  PathLib, download_filename, sanitize_filename, sanitize_char,
}
use timesync_analyzer.Reportd.Http.Routes.{
  route, handle_report_by_id, show_parts, show_job, serve_artifact, serve_report_file, report_path,
  trim_prefix, is_done, serve, handle_reports, create_report, requested_spec, answer_enqueue,
}
use timesync_analyzer.Reportd.Http.Guarded.{Refused, FileOf, serve-unauthorized, serve-FileOf}
use timesync_analyzer.Reportd.Http.Created.{Taken, handle_reports-created}
use timesync_analyzer.Tests.Reportd.Data.{test_env, test_options, idle, after_one, test_spec}

abbrev test_durations : DurationLib
test_durations = record {
  ops = record {
    add = λ a b. a + b;
    sub = λ a b. a - b;
    mul = λ a b. a * b;
    div = λ a b. a;
    sqrt = λ a. a;
    lt = ltb;
    le = leb;
    of_int64 = pos_part;
    of_uint64 = λ n. n;
    to_int64 = pos;
  };
  parse_float = λ t. err (text "invalid syntax");
  parse_duration = λ t. err (text "invalid duration");
}

abbrev test_times : TimeLib
test_times = record {
  durations = test_durations;
  parse_rfc3339 = λ t. err (text "cannot parse");
  parse_local = λ layout t. err (text "cannot parse");
}

abbrev test_paths : PathLib
test_paths = record { base = λ path. path; dir = λ path. path }

-- An hour, in seconds since the epoch.
abbrev one_hour : CreateReportRequest
one_hour = record {
  from = text "3600";
  to = text "7200";
  period = [];
  period_seconds = pos 0;
  node = [];
  groups = [];
  skip_charts = none;
  charts_per_page = pos 0;
  source = [];
  reason = [];
  grafana_url = [];
  grafana_token = [];
  grafana_user = [];
  grafana_password = [];
}

abbrev post_hour : Request
post_hour = record {
  method = text "POST";
  path = text "/api/reports";
  authorization = text "Bearer wrong";
  report_token = [];
  query = λ name. [];
  body = ok one_hour;
  payload = none;
}

abbrev no_format : ℤ → ℕ → Text
no_format t i = []

abbrev at_five : ℕ → ℤ
at_five i = pos 5

abbrev hour_spec : Parsed CreateJobSpec
hour_spec =
    create_spec_from_request test_times test_options (pos 5) at_five one_hour (pos 3600)
      test_options.default_groups (text "manual")

abbrev spec_of : Parsed CreateJobSpec → CreateJobSpec → CreateJobSpec
spec_of (ok spec) other = spec
spec_of (err e) other = other

abbrev accepted_spec : CreateJobSpec
accepted_spec = spec_of hour_spec test_spec

hour_spec-accepted : hour_spec ≡ ok accepted_spec
unfolding create_spec_from_request parse_api_time parse_now_expression parse_number_or_time
    parse_int parse_digits period_of groups_of has_prefix trim_space to_lower
hour_spec-accepted = refl

create_spec_from_request-accepted_example :
    (accepted_spec.from <ℤ accepted_spec.to)
    × (pos 0 <ℤ accepted_spec.period)
    × (accepted_spec.delay ≡ pos 0)
    × GroupsFit test_times test_options
        (pos 5)
        at_five
        one_hour
        (pos 3600)
        test_options.default_groups
        (text "manual")
        accepted_spec
create_spec_from_request-accepted_example =
    create_spec_from_request-accepted test_times test_options (pos 5) at_five one_hour (pos 3600)
      test_options.default_groups (text "manual") hour_spec-accepted

abbrev guarded : Service
guarded = record idle { opts = record test_options { token = text "secret" } }

serve-unauthorized_example :
    Refused test_env test_times test_paths no_format
      (pos 5)
      at_five
      guarded
      (serve test_env test_times test_paths no_format (pos 5) at_five post_hour guarded)
unfolding bearer_token has_prefix trim_space to_lower
serve-unauthorized_example =
    serve-unauthorized test_env test_times test_paths no_format (pos 5) at_five post_hour guarded
      refl (λ e. cc) refl

abbrev get_pdf : Request
get_pdf = record post_hour { method = text "GET"; path = text "/api/reports/a/summary.pdf" }

-- The job of `after_one` is done and has a report.
abbrev finished : Service
finished = record after_one {
  jobs =
      (
        text "a",
        record (make_job (text "a") (pos 5) test_spec) {
          status = done;
          report_dir = text "/out/x";
          pdf_path = text "/out/x/summary.pdf";
        },
      )
      ∷ [];
}

serve-FileOf_example :
    FileOf test_env test_times test_paths no_format
      (pos 5)
      at_five
      get_pdf
      finished
      (text "_out_x_summary.pdf-_out_x_summary.pdf")
      (text "/out/x/summary.pdf")
unfolding serve with_cors route handle_report_by_id show_parts show_job serve_artifact
    serve_report_file download_filename sanitize_filename sanitize_char report_path trim_prefix
    trim_of split has_prefix get_job lookup is_done parse_bool make_job with_auth
serve-FileOf_example =
    serve-FileOf test_env test_times test_paths no_format (pos 5) at_five get_pdf finished
      (text "application/pdf") (text "attachment") _ _ refl

abbrev new_job : ReportJob
unfolding register
new_job = (register test_env (pos 5) accepted_spec idle).0

handle_reports-created_example :
    Taken test_env test_times test_paths no_format
      (pos 5)
      at_five
      idle
      new_job
      (handle_reports test_env test_times test_paths no_format (pos 5) at_five post_hour idle).0
unfolding handle_reports create_report requested_spec read_create_report_request fill_from_query
    create_spec_from_request parse_api_time parse_now_expression parse_number_or_time parse_int
    parse_digits trim_space to_lower split_csv trimmed_parts first_non_empty period_of groups_of
    has_prefix answer_enqueue enqueue register send make_job trim_old_jobs with_new_job build_spec
handle_reports-created_example =
    handle_reports-created test_env test_times test_paths no_format (pos 5) at_five idle new_job
      refl post_hour refl refl
