-- ===== src/Reportd/Http/Requests.antt =====
-- From a request to a job: `readCreateReportRequest` and `createSpecFromRequest` of
-- src/internal/reportd/handlers.go, `parseAPITime` of src/internal/reportd/parse.go and
-- `ParseTimeOrDefault` of src/internal/report/util.go.
pub mod Accepted
use timesync_analyzer.Common.{
  ℕ, ◌+◌, ◌*◌, ◌-◌, ◌^◌, List, [], ◌∷◌, ◌++◌, Bool, true, false, not, ◌&&◌, ◌||◌, Option, none,
  some, if◌then◌else◌, ◌==◌, ltb, leb, nat_beq,
}
use timesync_analyzer.Common.Int.{ℤ, pos, negsuc, leb_ℤ, ltb_ℤ, ◌-ℤ◌, wrap64, int_beq}
use timesync_analyzer.Common.Text.{Text, text, text_eq, is_empty, trim_space}
use timesync_analyzer.Reportd.Types.{Options, RenderGroups, CreateJobSpec, GrafanaConfig}
use timesync_analyzer.Reportd.Groups.{
  Parsed, ok, err, split_csv, parse_render_group_list, normalize_group_names, render_group_names,
  first_non_empty,
}
use timesync_analyzer.Reportd.Durations.{DurationLib, parse_loose_duration, parse_now_expression}
use timesync_analyzer.Reportd.Http.Strconv.{parse_int, parse_bool}
use timesync_analyzer.Reportd.Http.{CreateReportRequest, Request}

infixl 5 ◌>>=◌
abbrev pub ◌>>=◌ : {A B : Type 0} → Parsed A → (A → Parsed B) → Parsed B
err why >>= next = err why
ok value >>= next = next value

-- `fmt.Errorf` in front of an error.
abbrev pub context : {A : Type 0} → Text → Parsed A → Parsed A
context what (ok a) = ok a
context what (err e) = err (what ++ e)

abbrev pub require : Bool → Text → Parsed (Unit {0})
require false why = err why
require true why = ok tt

abbrev pub times : ℕ → ℤ → ℤ
times k (pos n) = pos (k * n)
times k (negsuc n) = negsuc (k * n + k - 1)

-- `time.Parse` with RFC 3339, and `time.ParseInLocation` with a layout in the local zone.
pub record TimeLib : Type 0 where
  pub durations : DurationLib
  pub parse_rfc3339 : Text → Parsed ℤ
  pub parse_local : (layout value : Text) → Parsed ℤ

module _ (lib : TimeLib) where
  -- The loop over the layouts, with the last error.
  unfoldable pub parse_layouts : Text → List Text → Text → Parsed ℤ
  parse_layouts value [] last_err = err last_err
  parse_layouts value (layout ∷ layouts) last_err = elim (lib.parse_local layout value) [
    | ok parsed ↦ ok parsed
    | err e ↦ parse_layouts value layouts e
  ]

  unfoldable pub parse_time_or_default : Text → ℤ → Parsed ℤ
  parse_time_or_default value fallback =
      if is_empty (trim_space value) then ok fallback else elim (lib.parse_rfc3339 value) [
        | ok parsed ↦ ok parsed
        | err e ↦
            parse_layouts value
              (text "2006-01-02 15:04:05" ∷ text "2006-01-02T15:04:05" ∷ text "2006-01-02" ∷ []) []
      ]

  -- A number is a count of milliseconds if it is large, else of seconds.
  unfoldable pub parse_number_or_time : Text → ℤ → Parsed ℤ
  parse_number_or_time value fallback = elim (parse_int value) [
    | ok numeric ↦ ok (
        if ltb_ℤ (pos 100_000_000_000) numeric
        then times 1_000_000 numeric
        else times 1_000_000_000 numeric)
    | err e ↦ parse_time_or_default value fallback
  ]

  -- `now` is the time that the function reads.
  unfoldable pub parse_api_time : ℤ → Text → ℤ → Parsed ℤ
  parse_api_time now text_value fallback =
      let value = trim_space text_value in
      if is_empty value then ok fallback else elim (parse_now_expression lib.durations value now) [
        | err e ↦ err e
        | ok (some parsed) ↦ ok parsed
        | ok none ↦ parse_number_or_time value fallback
      ]

  unfoldable pub period_of : CreateReportRequest → ℤ → Parsed ℤ
  period_of req default_period =
      (if is_empty req.period
        then ok default_period
        else context (text "parse period: ") (parse_loose_duration lib.durations req.period))
      >>= λ period. ok (
          if ltb_ℤ (pos 0) req.period_seconds
          then wrap64 (times 1_000_000_000 req.period_seconds)
          else period)

  -- The groups and their names.
  unfoldable pub groups_of : CreateReportRequest → RenderGroups → Parsed (RenderGroups × List Text)
  groups_of req default_groups =
      if is_empty req.groups
      then ok (default_groups, render_group_names default_groups)
      else (parse_render_group_list req.groups >>= λ groups.
          ok (groups, normalize_group_names req.groups))

  abbrev pub value_or : {A : Type 0} → A → Option A → A
  value_or d none = d
  value_or d (some a) = a

  unfoldable pub spec_grafana : CreateReportRequest → GrafanaConfig → GrafanaConfig
  spec_grafana req cfg = record cfg {
    url = first_non_empty (req.grafana_url ∷ cfg.url ∷ []);
    token = first_non_empty (req.grafana_token ∷ cfg.token ∷ []);
    user = first_non_empty (req.grafana_user ∷ cfg.user ∷ []);
    password = first_non_empty (req.grafana_password ∷ cfg.password ∷ []);
  }

  -- The value that `createSpecFromRequest` returns at its end.
  unfoldable pub build_spec :
      Options
      → CreateReportRequest
      → (from to period : ℤ) → RenderGroups × List Text
      → Text
      → CreateJobSpec
  build_spec opts req from to period (groups, group_names) default_source =
      let grafana = spec_grafana req opts.grafana in
      record {
        from = from;
        to = to;
        period = period;
        delay = pos 0;
        node = first_non_empty (req.node ∷ grafana.node ∷ text ".*" ∷ []);
        trigger_node = [];
        groups = groups;
        group_names = group_names;
        skip_charts = value_or opts.default_skip_charts req.skip_charts;
        charts_per_page =
            if ltb_ℤ (pos 0) req.charts_per_page then req.charts_per_page else opts.charts_per_page;
        source = first_non_empty (req.source ∷ default_source ∷ []);
        reason = req.reason;
        alert_fingerprint = [];
        grafana = grafana;
      }

  -- `clock` gives the times that the two calls of `parseAPITime` read.
  unfoldable pub create_spec_from_request :
      Options → ℤ → (ℕ → ℤ) → CreateReportRequest → ℤ → RenderGroups → Text → Parsed CreateJobSpec
  create_spec_from_request opts now clock req default_period default_groups default_source = do
    period ← period_of req default_period
    _ ← require (ltb_ℤ (pos 0) period) (text "period must be positive")
    to ← context (text "parse to: ") (parse_api_time (clock 0) req.to now)
    from ← context (text "parse from: ") (parse_api_time (clock 1) req.from (to -ℤ period))
    _ ← require (ltb_ℤ from to) (text "from must be before to")
    groups ← groups_of req default_groups
    ok (build_spec opts req from to period groups default_source)

-- A field of the body, or else a value of the query.
abbrev pub or_query : Text → Text → Text
or_query field value = if is_empty field then value else field

-- A value of the query that is parsed if the field is not set and the value is there.
abbrev pub parsed_query : {A : Type 0} → Bool → A → Text → Text → (Text → Parsed A) → Parsed A
parsed_query set field value what parse =
    if set || is_empty value then ok field else context what (parse value)

abbrev pub set_flag : Option Bool → Bool
set_flag none = false
set_flag (some b) = true

abbrev pub parse_flag : Text → Parsed (Option Bool)
unfolding parse_bool
parse_flag value = parse_bool value >>= λ b. ok (some b)

-- The part after the body is decoded.
unfoldable pub fill_from_query : (Text → Text) → CreateReportRequest → Parsed CreateReportRequest
fill_from_query q req = do
  period_seconds ←
      parsed_query (not (int_beq req.period_seconds (pos 0))) req.period_seconds
        (q (text "period_seconds")) (text "parse period_seconds: ") parse_int
  skip_charts ←
      parsed_query (set_flag req.skip_charts) req.skip_charts (q (text "skip_charts"))
        (text "parse skip_charts: ") parse_flag
  charts_per_page ←
      parsed_query (not (int_beq req.charts_per_page (pos 0))) req.charts_per_page
        (q (text "charts_per_page")) (text "parse charts_per_page: ") parse_int
  ok (record req {
    from = or_query req.from (q (text "from"));
    to = or_query req.to (q (text "to"));
    period = or_query req.period (q (text "period"));
    period_seconds = period_seconds;
    node = or_query req.node (q (text "node"));
    groups =
        if is_empty req.groups
        then split_csv (first_non_empty (q (text "groups") ∷ q (text "group") ∷ []))
        else req.groups;
    skip_charts = skip_charts;
    charts_per_page = charts_per_page;
    source = or_query req.source (q (text "source"));
    reason = or_query req.reason (q (text "reason"));
    grafana_url = or_query req.grafana_url (q (text "grafana_url"));
  })

unfoldable pub read_create_report_request : Request → Parsed CreateReportRequest
read_create_report_request r = r.body >>= fill_from_query r.query
