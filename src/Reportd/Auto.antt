-- ===== src/Reportd/Auto.antt =====
-- src/internal/reportd/auto.go: reports made at a fixed interval.
use timesync_analyzer.Common.{◌≡◌, refl, ◌∙◌, ap, Bool-cases, inl, inr, [], ◌∷◌, if◌then◌else◌}
use timesync_analyzer.Common.Int.{ℤ, pos, leb_ℤ, ◌+ℤ◌, ◌-ℤ◌}
use timesync_analyzer.Common.Text.{Text, text, is_empty}
use timesync_analyzer.Reportd.Types.{Options, Service, RenderGroups, CreateJobSpec, ReportResult}
use timesync_analyzer.Reportd.Groups.{Parsed, render_group_names, first_non_empty}
use timesync_analyzer.Reportd.Groups.Roundtrip.{parse-render_group_names}
use timesync_analyzer.Reportd.Service.{Env, enqueue, make_job}
use timesync_analyzer.Reportd.Service.Run.{GenerateOptions, generate_options, job_grafana, work}
use timesync_analyzer.Reportd.Alerts.{
  Alert, Labels, alert_groups_of, alert_delay_of, label, alert_spec,
}
use timesync_analyzer.Reportd.Durations.{DurationLib}

-- The window of `autoReportLoop`.
unfoldable pub auto_window : Options → ℤ
auto_window opts =
    if leb_ℤ opts.auto_report_window (pos 0)
    then opts.auto_report_interval
    else opts.auto_report_window

pub auto_spec : Options → ℤ → ℤ → CreateJobSpec
auto_spec opts window now = record {
  from = now -ℤ window;
  to = now;
  period = window;
  delay = pos 0;
  node = first_non_empty (opts.grafana.node ∷ text ".*" ∷ []);
  trigger_node = [];
  groups = opts.default_groups;
  group_names = render_group_names opts.default_groups;
  skip_charts = opts.default_skip_charts;
  charts_per_page = opts.charts_per_page;
  source = text "auto";
  reason = text "auto-generated";
  alert_fingerprint = [];
  grafana = opts.grafana;
}

-- `triggerAutoReport` at `now`, with the time `later` that `enqueue` reads; a refusal is only logged.
unfoldable pub trigger_auto_report : Env → ℤ → ℤ → ℤ → Service → Service
trigger_auto_report env window now later s = (enqueue env later (auto_spec s.opts window now) s).0

work_of_names :
    (generate : GenerateOptions → Parsed ReportResult) (opts : Options) (id : Text) (at : ℤ)
    (spec : CreateJobSpec) (groups : RenderGroups)
    → spec.group_names ≡ render_group_names groups
    → work generate opts (make_job id at spec)
      ≡ generate (generate_options opts groups (make_job id at spec))
unfolding work make_job
work_of_names generate opts id at spec groups e = rw (e, parse-render_group_names groups, work) refl

-- The options of a report over a period, for a node, with the service's own paths and Grafana.
abbrev pub report_options : Options → (from to : ℤ) → (node : Text) → RenderGroups → GenerateOptions
report_options opts from to node groups = record {
  from = from;
  to = to;
  out_dir = opts.out_dir;
  dashboard_path = opts.dashboard_path;
  network_dashboard_path = opts.network_dashboard_path;
  system_dashboard_path = opts.system_dashboard_path;
  grafana = record opts.grafana { node = first_non_empty (node ∷ opts.grafana.node ∷ []) };
  groups = groups;
  skip_charts = opts.default_skip_charts;
  charts_per_page = opts.charts_per_page;
}

options_of_spec :
    (opts : Options) (id : Text) (at : ℤ) (spec : CreateJobSpec) (groups : RenderGroups)
    → spec.grafana ≡ opts.grafana
    → spec.skip_charts ≡ opts.default_skip_charts
    → spec.charts_per_page ≡ opts.charts_per_page
    → generate_options opts groups (make_job id at spec)
      ≡ report_options opts spec.from spec.to spec.node groups
unfolding generate_options make_job job_grafana
options_of_spec opts id at spec groups g s c = elim (Bool-cases (is_empty spec.grafana.url)) [
  | inl h ↦ rw (h, s, c) refl
  | inr h ↦ rw (h, g, s, c) refl
]

-- A job that an automatic report made is generated over its window up to now, with the default groups,
-- for the configured node or else for all. A job that an alert made is generated over the alert
-- period that ends when its delay has passed, with the groups that were chosen for the alert, for the
-- node that its labels ask for or else for the configured one. Neither fails on its group names.
pub work-spec :
    (generate : GenerateOptions → Parsed ReportResult) (lib : DurationLib) (opts : Options)
    (id : Text) (at window now : ℤ) (alert : Alert) (common : Labels) (fingerprint : Text)
    → (work generate opts (make_job id at (auto_spec opts window now))
        ≡ generate (
            report_options opts
              (now -ℤ window)
              now
              (first_non_empty (opts.grafana.node ∷ text ".*" ∷ []))
              opts.default_groups))
      × (work generate opts (make_job id at (alert_spec lib opts alert common fingerprint now))
          ≡ generate (
              report_options opts
                ((now +ℤ alert_delay_of lib opts alert common) -ℤ opts.alert_period)
                (now +ℤ alert_delay_of lib opts alert common)
                (first_non_empty (
                  label alert.labels (text "report_node")
                  ∷ label common (text "report_node")
                  ∷ opts.grafana.node
                  ∷ []))
                (alert_groups_of opts alert common)))
unfolding auto_spec alert_spec
work-spec generate lib opts id at window now alert common fingerprint = (
  work_of_names generate opts id at (auto_spec opts window now) opts.default_groups refl
      ∙ ap generate (options_of_spec opts id at (auto_spec opts window now) _ refl refl refl),
  work_of_names generate opts id at (alert_spec lib opts alert common fingerprint now)
        (alert_groups_of opts alert common) refl
      ∙ ap generate (
          options_of_spec opts id at (alert_spec lib opts alert common fingerprint now) _ refl refl
            refl),
)
