-- ===== src/Tests/Reportd/Alerted.antt =====
-- The theorems on src/internal/reportd/grafana.go and auto.go at concrete inputs.
use timesync_analyzer.Common.{ℕ, ◌≡◌, refl, [], ◌∷◌, ◌++◌, true, false, some, arith}
use timesync_analyzer.Common.Assoc.{lookup, insert}
use timesync_analyzer.Common.Int.{ℤ, pos, ◌-ℤ◌, ◌+ℤ◌}
use timesync_analyzer.Common.Text.{Text, text, text_eq, trim_space}
use timesync_analyzer.Reportd.Types.{Service}
use timesync_analyzer.Reportd.Groups.{err, first_non_empty, no_groups}
use timesync_analyzer.Reportd.Service.{
  register, make_job, trim_old_jobs, with_new_job, send, enqueue, unregister, remove_job_order,
  reserve_alert_fingerprint,
}
use timesync_analyzer.Reportd.Service.Run.{work}
use timesync_analyzer.Reportd.Durations.{DurationLib}
use timesync_analyzer.Reportd.Alerts.{
  Alert, Payload, handle_alert, handle_grafana_alerts, fire, alert_fingerprint, alert_groups_of,
  alert_delay_of, label, alert_spec, skipped,
}
use timesync_analyzer.Reportd.Alerts.Accounts.{
  Accounted, handle_grafana_alerts-Accounted, handle_alert_lost,
}
use timesync_analyzer.Reportd.Auto.{auto_spec, report_options, work-spec}
use timesync_analyzer.Tests.Reportd.Data.{test_env, test_options, idle, full, no_report}

abbrev test_lib : DurationLib
test_lib = record {
  ops = record {
    add = λ a b. a;
    sub = λ a b. a;
    mul = λ a b. a;
    div = λ a b. a;
    sqrt = λ a. a;
    lt = λ a b. false;
    le = λ a b. false;
    of_int64 = λ a. 0;
    of_uint64 = λ a. a;
    to_int64 = pos;
  };
  parse_float = λ value. err (text "no number");
  parse_duration = λ value. err (text "no duration");
}

abbrev test_alert : Alert
test_alert = record { status = []; labels = []; fingerprint = text "f"; panel_url = [] }

abbrev test_payload : Payload
test_payload = record {
  status = text "firing";
  common_labels = [];
  alerts = test_alert ∷ test_alert ∷ [];
}

abbrev no_format : ℤ → ℕ → Text
no_format now i = []

handle_grafana_alerts-Accounted_example :
    Accounted 2
      (handle_grafana_alerts test_env test_lib no_format
        (λ i. pos 5)
        true
        (some test_payload)
        (pos 1)
        idle).1
handle_grafana_alerts-Accounted_example =
    handle_grafana_alerts-Accounted test_env test_lib no_format (λ i. pos 5) test_payload (pos 1)
      idle

work-spec_example :
    (work no_report test_options
        (make_job (text "a") (pos 5) (auto_spec test_options (pos 60) (pos 100)))
      ≡ no_report (
          report_options test_options
            (pos 100 -ℤ pos 60)
            (pos 100)
            (first_non_empty (test_options.grafana.node ∷ text ".*" ∷ []))
            no_groups))
    × (work no_report test_options (
          make_job
            (text "a")
            (pos 5)
            (alert_spec test_lib test_options test_alert [] (text "f") (pos 100)))
        ≡ no_report (
            report_options test_options
              ((pos 100 +ℤ alert_delay_of test_lib test_options test_alert [])
                -ℤ test_options.alert_period)
              (pos 100 +ℤ alert_delay_of test_lib test_options test_alert [])
              (first_non_empty (
                label test_alert.labels (text "report_node")
                ∷ label [] (text "report_node")
                ∷ test_options.grafana.node
                ∷ []))
              (alert_groups_of test_options test_alert [])))
work-spec_example =
    work-spec no_report test_lib test_options (text "a") (pos 5) (pos 60) (pos 100) test_alert []
      (text "f")

-- The service after the alert met a full channel, and then found it empty.
abbrev after_alert : Service
after_alert = record idle { alert_last = (text "f", pos 1) ∷ [] }

handle_alert_lost_example :
    (handle_alert test_env test_lib no_format
      (λ i. pos 5)
      test_payload
      (pos 30)
      0
      test_alert
      after_alert).1
    ≡ skipped (alert_fingerprint test_alert [] ++ text ": cooldown")
unfolding handle_alert fire first_non_empty alert_fingerprint reserve_alert_fingerprint enqueue
    register send unregister remove_job_order make_job with_new_job trim_old_jobs lookup insert
    alert_spec trim_space alert_delay_of label ◌-ℤ◌
handle_alert_lost_example =
    handle_alert_lost test_env test_lib no_format (λ i. pos 5) test_payload (pos 1) (pos 30) 0 0
      test_alert full after_alert refl refl (omega arith) refl refl refl (omega arith)
