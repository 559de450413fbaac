-- ===== src/Tests/Reportd/Data.antt =====
-- Test data for src/internal/reportd.
use timesync_analyzer.Common.{ℕ, ◌≡◌, [], ◌∷◌, true, false, some}
use timesync_analyzer.Common.Int.{pos}
use timesync_analyzer.Common.Text.{text, text_eq}
use timesync_analyzer.Reportd.Types.{
  GrafanaConfig, Options, Service, ReportJob, CreateJobSpec, ReportResult, done,
}
use timesync_analyzer.Reportd.Groups.{Parsed, err, no_groups}
use timesync_analyzer.Reportd.Service.{Env, make_job}
use timesync_analyzer.Reportd.Service.Run.{GenerateOptions}

pub plain_id-seq : (m n : ℕ) → m ∷ [] ≡ n ∷ [] → m ≡ n
plain_id-seq m n e = cc

abbrev pub test_env : Env
test_env = record {
  format_id = λ t n. n ∷ [];
  abs = λ path. some path;
  format_id-seq = λ t u m n e. plain_id-seq m n e;
}

abbrev pub test_grafana : GrafanaConfig
test_grafana = record {
  url = text "http://grafana";
  user = [];
  password = [];
  token = [];
  width = pos 1000;
  height = pos 500;
  node = text "n1";
  render_workers = pos 2;
  render_timeout = pos 10;
}

-- A channel with one place.
abbrev pub test_options : Options
test_options = record {
  out_dir = text "/out";
  dashboard_path = [];
  network_dashboard_path = [];
  system_dashboard_path = [];
  grafana = test_grafana;
  default_groups = no_groups;
  alert_groups = no_groups;
  default_period = pos 3600;
  alert_period = pos 3600;
  alert_delay = pos 0;
  alert_cooldown = pos 60;
  job_timeout = pos 900;
  charts_per_page = pos 3;
  default_skip_charts = false;
  queue_size = pos 1;
  worker_count = pos 1;
  token = [];
  report_ttl = pos 100;
  cleanup_interval = pos 10;
  auto_report_interval = pos 0;
  auto_report_window = pos 0;
}

abbrev pub test_spec : CreateJobSpec
test_spec = record {
  from = pos 10;
  to = pos 20;
  period = pos 10;
  delay = pos 0;
  node = text "n1";
  trigger_node = [];
  groups = no_groups;
  group_names = text "offset" ∷ [];
  skip_charts = true;
  charts_per_page = pos 3;
  source = text "api";
  reason = [];
  alert_fingerprint = [];
  grafana = test_grafana;
}

abbrev pub idle : Service
idle = record {
  opts = test_options;
  queue = [];
  seq = 0;
  jobs = [];
  job_order = [];
  alert_last = [];
  timers = [];
}

-- The same with its channel full.
abbrev pub full : Service
full = record idle { queue = text "x" ∷ [] }

-- One finished job with a report.
abbrev pub old_job : ReportJob
old_job = record (make_job (text "a") (pos 1) test_spec) {
  status = done;
  report_dir = text "report_1";
}

abbrev pub after_one : Service
after_one = record idle { seq = 1; jobs = (text "a", old_job) ∷ []; job_order = text "a" ∷ [] }

abbrev pub no_report : GenerateOptions → Parsed ReportResult
no_report o = err (text "no report")
