-- ===== src/Tests/Report.antt =====
-- The theorems on src/internal/report at concrete inputs.
use timesync_analyzer.Common.{
  ℕ, zero, suc, ◌≡◌, ◌++◌, ◌<◌, ◌≤◌, All, ◌⊎◌, refl, List, [], ◌∷◌, some, true, false, arith,
}
use timesync_analyzer.Common.Int.{pos}
use timesync_analyzer.Common.Text.{text, trim_of, trim_space, to_lower}
use timesync_analyzer.Reportd.Types.{GrafanaConfig}
use timesync_analyzer.Reportd.Groups.{Parsed, ok, err, no_groups}
use timesync_analyzer.Reportd.Service.Run.{GenerateOptions}
use timesync_analyzer.Report.Generate.{
  Outside, makes_dir, writes_csv, writes_pdf, completed, write_files, run_steps, with_loader,
  generate,
}
use timesync_analyzer.Report.Generate.Steps.{Ends, generate-Ends}
use timesync_analyzer.Report.Render.{
  Panel, Chart, RenderResult, render, fetched, decoded, render_from, collected, summarize,
}
use timesync_analyzer.Report.Pages.{
  per_page, with_image, pages_from, chart_pages, concat, IsPage, chart_pages_lem,
}
use timesync_analyzer.Report.Panels.{is_allowed, safe_loop, safe_name}
use timesync_analyzer.Report.Panels.Names.{Tidy, safe_name-Tidy}
use timesync_analyzer.Report.Render.Pool.{
  PoolState, busy, idle, returned, Step, hands, renders, returns, closes, collects, Reach, here,
  next, start, outcome, result_of, worker_count,
}
use timesync_analyzer.Report.Render.Pool.Outcome.{outcome-eq-summarize}
use timesync_analyzer.Report.Render.Pool.Progress.{Goes, work_left, Reach-Goes}

-- The second panel cannot be fetched.
abbrev fetch_one : ℕ → Panel → Parsed (List ℕ)
fetch_one zero panel = ok (1 ∷ [])
fetch_one (suc n) panel = err (text "HTTP 500")

abbrev decode_pixel : List ℕ → Parsed (ℕ × ℕ × List ℕ)
decode_pixel png = ok (1, 1, 9 ∷ 9 ∷ 9 ∷ [])

abbrev offset_panel : Panel
offset_panel = record {
  title = text "offset";
  panel_type = text "timeseries";
  uid = text "u";
  slug = text "s";
  panel_id = pos 4;
}

abbrev two_panels : List Panel
two_panels = offset_panel ∷ record offset_panel { title = text "frequency" } ∷ []

abbrev four_workers : GrafanaConfig
four_workers = record {
  url = text "http://localhost";
  user = [];
  password = [];
  token = [];
  width = pos 0;
  height = pos 0;
  node = [];
  render_workers = pos 4;
  render_timeout = pos 0;
}

abbrev result_at : ℕ → RenderResult
result_at = result_of fetch_one decode_pixel two_panels

-- Both workers are busy, and the second finishes first.
abbrev last_state : PoolState
last_state = record {
  sent = 2;
  workers = returned ∷ returned ∷ [];
  results = [];
  ordered = some (result_at 0) ∷ some (result_at 1) ∷ [];
  closed = true;
}

Reach-last : Reach 2 result_at 2 last_state
unfolding render fetched decoded
Reach-last =
    next
      (next
        (next
          (next
            (next
              (next
                (next
                  (next (next here (hands [] (idle ∷ []) (omega arith) refl))
                    (hands (busy 0 ∷ []) [] (omega arith) refl))
                  (renders 1 (busy 0 ∷ []) [] (omega arith) refl))
                (renders 0 [] (idle ∷ []) (omega arith) refl))
              (collects (result_at 1) (result_at 0 ∷ []) refl))
            (returns [] (idle ∷ []) refl refl))
          (collects (result_at 0) [] refl))
        (returns (returned ∷ []) [] refl refl))
      (closes refl refl (refl, (refl, tt)))

outcome-eq-summarize_example :
    outcome last_state ≡ summarize (render_from fetch_one decode_pixel 0 two_panels)
outcome-eq-summarize_example =
    outcome-eq-summarize fetch_one decode_pixel two_panels Reach-last
      (record { closed = refl; empty = refl })

Reach-Goes_example :
    Goes 2 result_at (start 2 result_at (worker_count four_workers two_panels))
    × ((t : PoolState)
        → Step 2 result_at (start 2 result_at (worker_count four_workers two_panels)) t
        → work_left 2 result_at t
          < work_left 2 result_at (start 2 result_at (worker_count four_workers two_panels)))
Reach-Goes_example = Reach-Goes fetch_one decode_pixel four_workers two_panels (omega arith) here

-- One chart is left, and the failure of the other panel is only a warning.
one_chart :
    summarize (render_from fetch_one decode_pixel 0 two_panels)
    ≡ ok ((render fetch_one decode_pixel 0 offset_panel).chart ∷ [])
unfolding summarize collected render_from render fetched decoded
one_chart = refl

abbrev chart : ℕ → Chart
chart n = record { title = n ∷ []; width = 1; height = 1; png = 7 ∷ []; rgb = n ∷ [] }

-- Five charts, the second without an image, on pages of two.
abbrev five_charts : List Chart
five_charts = chart 1 ∷ record (chart 2) { png = [] } ∷ chart 3 ∷ chart 4 ∷ chart 5 ∷ []

chart_pages_lem_example :
    (concat (chart_pages (pos 2) five_charts) ≡ with_image five_charts)
    × All (IsPage (per_page (pos 2))) (chart_pages (pos 2) five_charts)
    × (1 ≤ per_page (pos 2))
    × (per_page (pos 2) ≤ 4)
chart_pages_lem_example = chart_pages_lem (pos 2) five_charts

two_on_a_page :
    chart_pages (pos 2) five_charts
    ≡ (chart 1 ∷ []) ∷ (chart 3 ∷ chart 4 ∷ []) ∷ (chart 5 ∷ []) ∷ []
unfolding chart_pages pages_from with_image per_page
two_on_a_page = refl

safe_name-Tidy_example :
    (safe_name (text " Sync / Analysis! ") ≡ []) ⊎ Tidy true (safe_name (text " Sync / Analysis! "))
safe_name-Tidy_example = safe_name-Tidy (text " Sync / Analysis! ")

sync_analysis : safe_name (text " Sync / Analysis! ") ≡ text "sync_analysis"
unfolding safe_name safe_loop is_allowed trim_of trim_space to_lower
sync_analysis = refl

-- A renderer that fails, and a disk that takes everything.
abbrev test_outside : Outside ℕ
test_outside = record {
  stats_loader = some (λ from to. ok (4 ∷ 5 ∷ []));
  mkdir_all = λ path. ok tt;
  join = λ dir name. dir ++ (text "/" ++ name);
  dir_name = λ from to. text "report";
  read_dashboard = λ path. err (text "no such file");
  render_grafana_charts = λ cfg panels from to. err (text "all Grafana chart renders failed");
  write_csv = λ path from to stats. ok tt;
  write_pdf = λ path from to stats charts per_page. ok tt;
}

abbrev an_hour : GenerateOptions
an_hour = record {
  from = pos 0;
  to = pos 3600;
  out_dir = [];
  dashboard_path = [];
  network_dashboard_path = [];
  system_dashboard_path = [];
  grafana = four_workers;
  groups = no_groups;
  skip_charts = false;
  charts_per_page = pos 2;
}

generate-Ends_example : Ends test_outside an_hour (generate test_outside an_hour)
generate-Ends_example = generate-Ends test_outside an_hour

into_reports :
    (generate test_outside an_hour).0
    ≡ makes_dir (text "reports")
      ∷ makes_dir (text "reports/report")
      ∷ writes_csv (text "reports/report/summary.csv")
      ∷ writes_pdf (text "reports/report/summary.pdf")
      ∷ []
unfolding generate with_loader run_steps write_files completed
into_reports = refl
