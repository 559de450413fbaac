-- ===== src/Reportd/Service/Run.antt =====
-- How a job runs: `releaseScheduled`, `runJob` and the `markJob…` functions of
-- src/internal/reportd/service.go.
use timesync_analyzer.Common.{[], ◌∷◌, Bool, true, false, Option, none, some, if◌then◌else◌}
use timesync_analyzer.Common.Assoc.{lookup, insert}
use timesync_analyzer.Common.Int.{ℤ}
use timesync_analyzer.Common.Text.{Text, text, text_eq, is_empty}
use timesync_analyzer.Reportd.Types.{
  Options, Service, ReportJob, RenderGroups, GrafanaConfig, scheduled, queued, running, done,
  failed, ReportResult,
}
use timesync_analyzer.Reportd.Groups.{Parsed, ok, err, parse_render_group_list, first_non_empty}
use timesync_analyzer.Reportd.Service.{Env, send, clone_job}

-- A locked change of the job with this id, if it is still there.
unfoldable pub update_job : Text → (ReportJob → ReportJob) → Service → Service
update_job id change s = elim (lookup id s.jobs) [
  | none ↦ s
  | some job ↦ record s { jobs = insert id (change job) s.jobs }
]

pub abs_path : Env → Text → Text
abs_path env path =
    if is_empty path then [] else elim (env.abs path) [ some abs ↦ abs | none ↦ path ]

unfoldable pub mark_job_running : Text → ℤ → Service → Service × Option ReportJob
mark_job_running id now s = elim (lookup id s.jobs) [
  | none ↦ (s, none)
  | some job ↦
      let job' = record job { status = running; started_at = some now } in
      (record s { jobs = insert id job' s.jobs }, some (clone_job job'))
]

unfoldable pub mark_job_done : Env → Text → ReportResult → ℤ → Service → Service
unfolding update_job abs_path
mark_job_done env id result now = update_job id λ job. record job {
  status = done;
  finished_at = some now;
  report_dir = abs_path env result.report_dir;
  pdf_path = abs_path env result.pdf_path;
  csv_path = abs_path env result.csv_path;
  rows = result.rows;
  charts = result.charts;
}

unfoldable pub mark_job_failed : Text → Text → ℤ → Service → Service
unfolding update_job
mark_job_failed id message now =
    update_job id λ job. record job { status = failed; finished_at = some now; error = message }

abbrev pub is_scheduled : ReportJob → Bool
is_scheduled job = elim job.status [ scheduled ↦ true | _ ↦ false ]

-- The locked part of `releaseScheduled`; the Boolean says whether it goes on to send the job.
unfoldable pub release_begin : Text → Service → Service × Bool
release_begin id s = elim (lookup id s.jobs) [
  | none ↦ (s, false)
  | some job ↦
      if is_scheduled job
      then (record s { jobs = insert id (record job { status = queued }) s.jobs }, true)
      else (s, false)
]

unfoldable pub release_scheduled : Text → ℤ → Service → Service
unfolding release_begin send mark_job_failed
release_scheduled id now s =
    let (s', go_on) = release_begin id s in
    if go_on
    then elim (send id s') [
      | some s'' ↦ s''
      | none ↦ mark_job_failed id (text "queue full when scheduled job became ready") now s'
    ]
    else s'

-- What `runJob` hands to `report.Generate`.
pub record GenerateOptions : Type 0 where
  pub from : ℤ
  pub to : ℤ
  pub out_dir : Text
  pub dashboard_path : Text
  pub network_dashboard_path : Text
  pub system_dashboard_path : Text
  pub grafana : GrafanaConfig
  pub groups : RenderGroups
  pub skip_charts : Bool
  pub charts_per_page : ℤ

unfoldable pub job_grafana : Options → ReportJob → GrafanaConfig
job_grafana opts job =
    let base = if is_empty job.grafana.url then opts.grafana else job.grafana in
    record base { node = first_non_empty (job.node ∷ base.node ∷ []) }

unfoldable pub generate_options : Options → RenderGroups → ReportJob → GenerateOptions
unfolding job_grafana
generate_options opts groups job = record {
  from = job.from;
  to = job.to;
  out_dir = opts.out_dir;
  dashboard_path = opts.dashboard_path;
  network_dashboard_path = opts.network_dashboard_path;
  system_dashboard_path = opts.system_dashboard_path;
  grafana = job_grafana opts job;
  groups = groups;
  skip_charts = job.skip_charts;
  charts_per_page = job.charts_per_page;
}

-- The part of `runJob` after `markJobRunning`, up to the result of `report.Generate`.
unfoldable pub work :
    (GenerateOptions → Parsed ReportResult) → Options → ReportJob → Parsed ReportResult
unfolding parse_render_group_list generate_options
work generate opts job = elim (parse_render_group_list job.groups) [
  | err e ↦ err e
  | ok groups ↦ generate (generate_options opts groups job)
]

-- The end of `runJob`.
unfoldable pub settle : Env → Text → Parsed ReportResult → ℤ → Service → Service
unfolding mark_job_failed mark_job_done
settle env id (err e) now s = mark_job_failed id e now s
settle env id (ok result) now s = mark_job_done env id result now s

-- `runJob` with no other goroutine between its parts: it starts at `start` and ends at `finish`.
unfoldable pub run_job :
    Env → (GenerateOptions → Parsed ReportResult) → Text → ℤ → ℤ → Service → Service
unfolding mark_job_running work settle
run_job env generate id start finish s =
    let (s', started) = mark_job_running id start s in
    elim started [ none ↦ s' | some job ↦ settle env job.id (work generate s.opts job) finish s' ]
