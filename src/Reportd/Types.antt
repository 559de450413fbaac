-- ===== src/Reportd/Types.antt =====
-- src/internal/reportd/types.go and the types of src/internal/report/types.go that it uses. Times and
-- durations are integers, counted in nanoseconds.
use timesync_analyzer.Common.{ℕ, List, Option, Bool}
use timesync_analyzer.Common.Int.{ℤ}
use timesync_analyzer.Common.Text.{Text}

pub record GrafanaConfig : Type 0 where
  pub url : Text
  pub user : Text
  pub password : Text
  pub token : Text
  pub width : ℤ
  pub height : ℤ
  pub node : Text
  pub render_workers : ℤ
  pub render_timeout : ℤ

pub record RenderGroups : Type 0 where
  pub all : Bool
  pub frequency : Bool
  pub offset : Bool
  pub path_delay : Bool
  pub status : Bool
  pub network : Bool
  pub system : Bool

pub data JobStatus : Type 0 where
  scheduled queued running done failed : JobStatus

pub record Options : Type 0 where
  pub out_dir : Text
  pub dashboard_path : Text
  pub network_dashboard_path : Text
  pub system_dashboard_path : Text
  pub grafana : GrafanaConfig
  pub default_groups : RenderGroups
  pub alert_groups : RenderGroups
  pub default_period : ℤ
  pub alert_period : ℤ
  pub alert_delay : ℤ
  pub alert_cooldown : ℤ
  pub job_timeout : ℤ
  pub charts_per_page : ℤ
  pub default_skip_charts : Bool
  pub queue_size : ℤ
  pub worker_count : ℤ
  pub token : Text
  pub report_ttl : ℤ
  pub cleanup_interval : ℤ
  pub auto_report_interval : ℤ
  pub auto_report_window : ℤ

pub record ReportJob : Type 0 where
  pub id : Text
  pub source : Text
  pub status : JobStatus
  pub created_at : ℤ
  pub scheduled_at : Option ℤ
  pub started_at : Option ℤ
  pub finished_at : Option ℤ
  pub from : ℤ
  pub to : ℤ
  pub period : ℤ
  pub node : Text
  pub trigger_node : Text
  pub groups : List Text
  pub skip_charts : Bool
  pub charts_per_page : ℤ
  pub reason : Text
  pub alert_fingerprint : Text
  pub report_dir : Text
  pub pdf_path : Text
  pub csv_path : Text
  pub rows : ℕ
  pub charts : ℕ
  pub error : Text
  pub status_url : Text
  pub pdf_url : Text
  pub csv_url : Text
  pub requested_grafana_url : Text
  pub grafana : GrafanaConfig

pub record CreateJobSpec : Type 0 where
  pub from : ℤ
  pub to : ℤ
  pub period : ℤ
  pub delay : ℤ
  pub node : Text
  pub trigger_node : Text
  pub groups : RenderGroups
  pub group_names : List Text
  pub skip_charts : Bool
  pub charts_per_page : ℤ
  pub source : Text
  pub reason : Text
  pub alert_fingerprint : Text
  pub grafana : GrafanaConfig

-- `report.Result`
pub record ReportResult : Type 0 where
  pub report_dir : Text
  pub csv_path : Text
  pub pdf_path : Text
  pub rows : ℕ
  pub charts : ℕ

-- `Service` without its logger and its stats loader. `queue` is what the channel holds, oldest first;
-- `timers` are the jobs whose `time.AfterFunc` has not fired.
pub record Service : Type 0 where
  pub opts : Options
  pub queue : List Text
  pub seq : ℕ
  pub jobs : List (Text × ReportJob)
  pub job_order : List Text
  pub alert_last : List (Text × ℤ)
  pub timers : List Text
