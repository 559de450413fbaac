-- ===== src/Reportd/Alerts/Accounts.antt =====
-- What the alert handler of src/internal/reportd/grafana.go accounts for, and an alert that it loses.
use timesync_analyzer.Common.{
  ℕ, suc, ◌+◌, ◌≡◌, ◌⊎◌, refl, List, [], ◌∷◌, ◌++◌, Bool, true, false, some, if◌then◌else◌, arith,
  length, length-append, beq_refl, sym, ap, ◌∙◌, inl, inr,
}
use timesync_analyzer.Common.Assoc.{lookup-insert}
use timesync_analyzer.Common.Int.{ℤ, pos, ◌-ℤ◌, ◌<ℤ◌}
use timesync_analyzer.Common.Text.{Text, text, text_eq, is_empty}
use timesync_analyzer.Reportd.Types.{Service, ReportJob, CreateJobSpec}
use timesync_analyzer.Reportd.Groups.{first_non_empty}
use timesync_analyzer.Reportd.Service.{
  Env, enqueue, send, register, unregister, with_new_job, trim_old_jobs, remove_job_order,
  reserve_alert_fingerprint,
}
use timesync_analyzer.Reportd.Durations.{DurationLib}
use timesync_analyzer.Reportd.Alerts.{
  Labels, Alert, Payload, alert_fingerprint, alert_spec, Outcome, skipped, created, refused, fire,
  handle_alert, Response, service_unavailable, answered, status_of, handle_alerts,
  handle_grafana_alerts,
}

Outcome-cases :
    (o : Outcome)
    → ((reason : Text) × (o ≡ skipped reason))
      ⊎ ((job : ReportJob) × (o ≡ created job))
      ⊎ (o ≡ refused)
Outcome-cases (skipped reason) = inl (reason, refl)
Outcome-cases (created job) = inr (inl (job, refl))
Outcome-cases refused = inr (inr refl)

-- A response that is 503, or lists as many jobs and skips as the total, with the status that fits.
abbrev pub Accounted : ℕ → Response → Type 0
Accounted total r =
    (r ≡ service_unavailable)
    ⊎ ((jobs : List ReportJob) × (skips : List Text) × (r ≡ answered (status_of jobs) jobs skips)
        × (length jobs + length skips ≡ total))

Accounted-eq : (m n : ℕ) (r : Response) → m ≡ n → Accounted m r → Accounted n r
Accounted-eq m n r e h = rw (← e) h

module _ (env : Env) (lib : DurationLib) (format_alert : ℤ → ℕ → Text) (clock : ℕ → ℤ) where
  handle_alerts-Accounted :
      (payload : Payload) (now : ℤ) (i : ℕ) (alerts : List Alert) (jobs : List ReportJob)
      (skips : List Text) (s : Service)
      → Accounted
          (length jobs + length skips + length alerts)
          (handle_alerts env lib format_alert clock payload now i alerts jobs skips s).1
  unfolding handle_alerts
  handle_alerts-Accounted payload now i [] jobs skips s = inr (jobs, skips, refl, omega arith)
  handle_alerts-Accounted payload now i (alert ∷ alerts) jobs skips s =
      let s' = (handle_alert env lib format_alert clock payload now i alert s).0 in
      elim (Outcome-cases (handle_alert env lib format_alert clock payload now i alert s).1) [
        | inl (reason, e) ↦
            rw (e, handle_alerts)
              (Accounted-eq _ _ _ (omega (arith, length-append skips (reason ∷ [])))
                (handle_alerts-Accounted payload now (suc i) alerts jobs (skips ++ reason ∷ []) s'))
        | inr (inl (job, e)) ↦
            rw (e, handle_alerts)
              (Accounted-eq _ _ _ (omega (arith, length-append jobs (job ∷ [])))
                (handle_alerts-Accounted payload now (suc i) alerts (jobs ++ job ∷ []) skips s'))
        | inr (inr e) ↦ rw (e, handle_alerts) (inl refl)
      ]

  -- The answer to a webhook is 503, or accounts for every alert of the payload, as a job or as skipped,
  -- with status 202 exactly if there is a job and 200 otherwise.
  pub handle_grafana_alerts-Accounted :
      (payload : Payload) (now : ℤ) (s : Service)
      → Accounted
          (length payload.alerts)
          (handle_grafana_alerts env lib format_alert clock true (some payload) now s).1
  unfolding handle_grafana_alerts
  handle_grafana_alerts-Accounted payload now s =
      Accounted-eq _ _ _ (omega arith)
        (handle_alerts-Accounted payload now 0 payload.alerts [] [] s)

  enqueue-alert_last :
      (at : ℤ) (spec : CreateJobSpec) (s : Service)
      → (enqueue env at spec s).0.alert_last ≡ s.alert_last
  unfolding enqueue send register unregister with_new_job trim_old_jobs remove_job_order
  enqueue-alert_last at spec s = ground arith

  -- Once reserved, a fingerprint is refused within the cooldown.
  reserved_again :
      (fingerprint : Text) (now later : ℤ) (s s' : Service)
      → pos 0 <ℤ s.opts.alert_cooldown
      → (reserve_alert_fingerprint fingerprint now s).1 ≡ true
      → s'.opts ≡ s.opts
      → s'.alert_last ≡ (reserve_alert_fingerprint fingerprint now s).0.alert_last
      → (later -ℤ now) <ℤ s.opts.alert_cooldown
      → (reserve_alert_fingerprint fingerprint later s').1 ≡ false
  unfolding reserve_alert_fingerprint
  reserved_again fingerprint now later s s' on won opts kept soon =
      rw (opts, kept)
        (ground
          (arith, lookup-insert fingerprint fingerprint now s.alert_last, beq_refl fingerprint))

  won_of_refused :
      (won : Bool) (x y : Service × Outcome) (reason : Text)
      → y.1 ≡ skipped reason
      → (if won then x else y).1 ≡ refused
      → won ≡ true
  won_of_refused true x y reason lost e = refl
  won_of_refused false x y reason lost e = cc

  fire-refused :
      (common : Labels) (now : ℤ) (i : ℕ) (fingerprint : Text) (alert : Alert) (s : Service)
      → (fire env lib format_alert clock common now i fingerprint alert s).1 ≡ refused
      → ((reserve_alert_fingerprint fingerprint now s).1 ≡ true)
        × ((fire env lib format_alert clock common now i fingerprint alert s).0.alert_last
            ≡ (reserve_alert_fingerprint fingerprint now s).0.alert_last)
  unfolding fire
  fire-refused common now i fingerprint alert s e =
      let won = won_of_refused (reserve_alert_fingerprint fingerprint now s).1 _ _ _ refl e in
      (
        won,
        rw (won, fire)
            (enqueue-alert_last (clock i) (alert_spec lib s.opts alert common fingerprint now)
              (reserve_alert_fingerprint fingerprint now s).0),
      )

  -- A firing alert that brings its fingerprint.
  handle_alert-fire :
      (payload : Payload) (now : ℤ) (i : ℕ) (alert : Alert) (s : Service)
      → first_non_empty (alert.status ∷ payload.status ∷ []) ≡ text "firing"
      → is_empty (alert_fingerprint alert payload.common_labels) ≡ false
      → handle_alert env lib format_alert clock payload now i alert s
        ≡ fire env lib format_alert clock payload.common_labels now i
            (alert_fingerprint alert payload.common_labels)
            alert
            s
  unfolding handle_alert
  handle_alert-fire payload now i alert s firing named = rw (firing, named) refl

  fire-cooldown :
      (common : Labels) (later : ℤ) (j : ℕ) (fingerprint : Text) (alert : Alert) (s : Service)
      → (reserve_alert_fingerprint fingerprint later s).1 ≡ false
      → (fire env lib format_alert clock common later j fingerprint alert s).1
        ≡ skipped (fingerprint ++ text ": cooldown")
  unfolding fire
  fire-cooldown common later j fingerprint alert s lost = rw (lost, fire) refl

  -- A firing alert with a fingerprint of its own that is refused because the channel is full, with a
  -- positive cooldown, is lost: when Grafana sends it again within the cooldown, it is skipped, whatever
  -- has become of the channel and the jobs, since the first attempt used up its cooldown.
  pub handle_alert_lost :
      (payload : Payload) (now later : ℤ) (i j : ℕ) (alert : Alert) (s s' : Service)
      → first_non_empty (alert.status ∷ payload.status ∷ []) ≡ text "firing"
      → is_empty (alert_fingerprint alert payload.common_labels) ≡ false
      → pos 0 <ℤ s.opts.alert_cooldown
      → (handle_alert env lib format_alert clock payload now i alert s).1 ≡ refused
      → s'.opts ≡ s.opts
      → s'.alert_last ≡ (handle_alert env lib format_alert clock payload now i alert s).0.alert_last
      → (later -ℤ now) <ℤ s.opts.alert_cooldown
      → (handle_alert env lib format_alert clock payload later j alert s').1
        ≡ skipped (alert_fingerprint alert payload.common_labels ++ text ": cooldown")
  handle_alert_lost payload now later i j alert s s' firing named on no_room opts kept soon =
      let fp = alert_fingerprint alert payload.common_labels in
      let first = handle_alert-fire payload now i alert s firing named in
      let (won, last) =
        fire-refused payload.common_labels now i fp alert s (ap (λ r. r.1) (sym first) ∙ no_room) in
      ap (λ r. r.1) (handle_alert-fire payload later j alert s' firing named)
      ∙ fire-cooldown payload.common_labels later j fp alert s' (
          reserved_again fp now later s s' on won opts
            (kept ∙ ap (λ r. r.0.alert_last) first ∙ last) soon)
