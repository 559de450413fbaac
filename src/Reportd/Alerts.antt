-- ===== src/Reportd/Alerts.antt =====
-- src/internal/reportd/grafana.go: firing alerts of a Grafana webhook become report jobs.
pub mod Accounts
use timesync_analyzer.Common.{
  ℕ, suc, List, [], ◌∷◌, ◌++◌, Bool, true, false, not, Option, none, some, if◌then◌else◌, ◌==◌,
}
use timesync_analyzer.Common.Assoc.{lookup}
use timesync_analyzer.Common.Int.{ℤ, pos, ltb_ℤ, ◌+ℤ◌, ◌-ℤ◌}
use timesync_analyzer.Common.Text.{Text, text, text_eq, is_empty}
use timesync_analyzer.Reportd.Types.{Options, Service, RenderGroups, ReportJob, CreateJobSpec}
use timesync_analyzer.Reportd.Groups.{
  Parsed, ok, err, parse_render_groups, render_group_names, first_non_empty,
}
use timesync_analyzer.Reportd.Service.{
  Env, Enqueued, accepted, queue_full, enqueue, reserve_alert_fingerprint,
}
use timesync_analyzer.Reportd.Durations.{DurationLib, parse_loose_duration}

abbrev pub Labels : Type 0
Labels = List (Text × Text)

-- `labels[key]`: the empty string where the key is missing.
unfoldable pub label : Labels → Text → Text
label labels key = elim (lookup key labels) [ none ↦ [] | some value ↦ value ]

-- The fields of `grafanaWebhookAlert` and `grafanaWebhookPayload` that are read.
pub record Alert : Type 0 where
  pub status : Text
  pub labels : Labels
  pub fingerprint : Text
  pub panel_url : Text

pub record Payload : Type 0 where
  pub status : Text
  pub common_labels : Labels
  pub alerts : List Alert

-- The label of the alert, or else the common one.
abbrev pub either_label : Alert → Labels → Text → Text
either_label alert common key = first_non_empty (label alert.labels key ∷ label common key ∷ [])

-- The loop of `alertFingerprint` over the keys.
unfoldable pub fingerprint_parts : Alert → Labels → List Text → List Text
fingerprint_parts alert common [] = []
fingerprint_parts alert common (key ∷ keys) =
    let value = either_label alert common key in
    let rest = fingerprint_parts alert common keys in
    if is_empty value then rest else (key ++ text "=" ++ value) ∷ rest

-- `strings.Join(parts, "|")`
unfoldable pub join_bar : List Text → Text
join_bar [] = []
join_bar (part ∷ []) = part
join_bar (part ∷ next ∷ parts) = part ++ text "|" ++ join_bar (next ∷ parts)

unfoldable pub alert_fingerprint : Alert → Labels → Text
alert_fingerprint alert common =
    if not (is_empty alert.fingerprint)
    then alert.fingerprint
    else join_bar (
        fingerprint_parts alert common
          (text "alertname" ∷ text "node" ∷ text "hostname" ∷ text "instance" ∷ []))

abbrev pub groups_or : RenderGroups → Parsed RenderGroups → RenderGroups
groups_or default (ok groups) = groups
groups_or default (err e) = default

abbrev pub delay_or : ℤ → Parsed ℤ → ℤ
delay_or default (ok parsed) = if ltb_ℤ parsed (pos 0) then default else parsed
delay_or default (err e) = default

unfoldable pub alert_groups_of : Options → Alert → Labels → RenderGroups
alert_groups_of opts alert common =
    let raw = either_label alert common (text "report_groups") in
    if is_empty raw
    then opts.alert_groups
    else groups_or opts.alert_groups (parse_render_groups raw)

unfoldable pub alert_delay_of : DurationLib → Options → Alert → Labels → ℤ
alert_delay_of lib opts alert common =
    let raw = either_label alert common (text "report_delay") in
    if is_empty raw
    then opts.alert_delay
    else delay_or opts.alert_delay (parse_loose_duration lib raw)

unfoldable pub alert_reason : Alert → Labels → Text → Text
alert_reason alert common trigger_node =
    first_non_empty (
      label alert.labels (text "alertname")
      ∷ label common (text "alertname")
      ∷ text "grafana alert"
      ∷ [])
    ++ (if is_empty trigger_node then [] else text " [trigger=" ++ trigger_node ++ text "]")
    ++ (if is_empty alert.panel_url then [] else text " " ++ alert.panel_url)

unfoldable pub alert_spec : DurationLib → Options → Alert → Labels → Text → ℤ → CreateJobSpec
alert_spec lib opts alert common fingerprint now =
    let trigger_node = first_non_empty (
      label alert.labels (text "node")
      ∷ label alert.labels (text "hostname")
      ∷ label common (text "node")
      ∷ label common (text "hostname")
      ∷ []) in
    let groups = alert_groups_of opts alert common in
    let delay = alert_delay_of lib opts alert common in
    record {
      from = (now +ℤ delay) -ℤ opts.alert_period;
      to = now +ℤ delay;
      period = opts.alert_period;
      delay = delay;
      node = first_non_empty (
          label alert.labels (text "report_node")
          ∷ label common (text "report_node")
          ∷ opts.grafana.node
          ∷ []);
      trigger_node = trigger_node;
      groups = groups;
      group_names = render_group_names groups;
      skip_charts = opts.default_skip_charts;
      charts_per_page = opts.charts_per_page;
      source = text "grafana_alert";
      reason = alert_reason alert common trigger_node;
      alert_fingerprint = fingerprint;
      grafana = opts.grafana;
    }

-- What becomes of one alert.
pub data Outcome : Type 0 where
  skipped : Text → Outcome
  created : ReportJob → Outcome
  refused : Outcome

abbrev pub outcome_of : Enqueued → Outcome
outcome_of (accepted job) = created job
outcome_of queue_full = refused

-- The response of the handler: its status and its body.
pub data Response : Type 0 where
  method_not_allowed bad_request service_unavailable : Response
  answered : (http_status : ℕ) (jobs : List ReportJob) (skips : List Text) → Response

abbrev pub status_of : List ReportJob → ℕ
status_of [] = 200
status_of (job ∷ jobs) = 202

-- `format_alert` is `fmt.Sprintf("alert-%d-%d", …)`; `clock` is the time that `enqueue` reads.
module _ (env : Env) (lib : DurationLib) (format_alert : ℤ → ℕ → Text) (clock : ℕ → ℤ) where
  -- A firing alert, from the reservation of its fingerprint on.
  unfoldable pub fire : Labels → ℤ → ℕ → Text → Alert → Service → Service × Outcome
  fire common now i fingerprint alert s =
      let (s', won) = reserve_alert_fingerprint fingerprint now s in
      let (s'', answer) =
        enqueue env (clock i) (alert_spec lib s.opts alert common fingerprint now) s' in
      if won then (s'', outcome_of answer) else (s', skipped (fingerprint ++ text ": cooldown"))

  -- The body of the loop.
  unfoldable pub handle_alert : Payload → ℤ → ℕ → Alert → Service → Service × Outcome
  handle_alert payload now i alert s =
      let status = first_non_empty (alert.status ∷ payload.status ∷ []) in
      let own = alert_fingerprint alert payload.common_labels in
      let fingerprint = if is_empty own then format_alert now i else own in
      if not (status == text "firing")
      then (s, skipped (text "status=" ++ status))
      else fire payload.common_labels now i fingerprint alert s

  -- The loop, with what it has gathered.
  pub handle_alerts :
      Payload → ℤ → ℕ → List Alert → List ReportJob → List Text → Service → Service × Response
  handle_alerts payload now i [] jobs skips s = (s, answered (status_of jobs) jobs skips)
  handle_alerts payload now i (alert ∷ alerts) jobs skips s =
      let (s', outcome) = handle_alert payload now i alert s in
      elim outcome [
        | skipped reason ↦ handle_alerts payload now (suc i) alerts jobs (skips ++ reason ∷ []) s'
        | created job ↦ handle_alerts payload now (suc i) alerts (jobs ++ job ∷ []) skips s'
        | refused ↦ (s', service_unavailable)
      ]

  -- `handleGrafanaAlerts`, given whether the method is POST and the decoded body.
  pub handle_grafana_alerts : Bool → Option Payload → ℤ → Service → Service × Response
  handle_grafana_alerts false body now s = (s, method_not_allowed)
  handle_grafana_alerts true none now s = (s, bad_request)
  handle_grafana_alerts true (some payload) now s =
      handle_alerts payload now 0 payload.alerts [] [] s
