-- ===== src/Report/Generate.antt =====
-- `Generate` of src/internal/report/report.go: its steps in order, with the calls that it makes on the
-- files and on the renderer of the PDF.
pub mod Steps
use timesync_analyzer.Common.{
  ℕ, List, [], ◌∷◌, ◌++◌, Bool, true, false, Option, none, some, if◌then◌else◌, length,
}
use timesync_analyzer.Common.Int.{ℤ, ltb_ℤ}
use timesync_analyzer.Common.Text.{Text, text, is_empty}
use timesync_analyzer.Reportd.Types.{GrafanaConfig, RenderGroups, ReportResult}
use timesync_analyzer.Reportd.Groups.{Parsed, ok, err}
use timesync_analyzer.Reportd.Service.Run.{GenerateOptions}
use timesync_analyzer.Report.Render.{Panel, Chart}
use timesync_analyzer.Report.Panels.{DashboardFile, chosen_panels}

-- What `Generate` calls: the statistics of a period, directories, dashboards, `renderGrafanaCharts` and
-- the two writers. `stats_loader` is `none` for a nil loader; `dir_name` is `reportDirName`, `join` is `filepath.Join`.
pub record Outside (Stats : Type 0) : Type 0 where
  pub stats_loader : Option ((from to : ℤ) → Parsed (List Stats))
  pub mkdir_all : Text → Parsed (Unit {0})
  pub join : Text → Text → Text
  pub dir_name : (from to : ℤ) → Text
  pub read_dashboard : Text → Parsed DashboardFile
  pub render_grafana_charts : GrafanaConfig → List Panel → (from to : ℤ) → Parsed (List Chart)
  pub write_csv : Text → (from to : ℤ) → List Stats → Parsed (Unit {0})
  pub write_pdf : Text → (from to : ℤ) → List Stats → List Chart → ℤ → Parsed (Unit {0})

-- The calls that write.
pub data FileCall : Type 0 where
  makes_dir writes_csv writes_pdf : (path : Text) → FileCall

-- The calls made so far, and the value or the error.
abbrev pub Io : Type 0 → Type 0
Io A = List FileCall × Parsed A

abbrev pub and_next : {A B : Type 0} → List FileCall → Parsed A → (A → Io B) → Io B
and_next calls (err why) next = (calls, err why)
and_next calls (ok value) next = let (more, result) = next value in (calls ++ more, result)

infixl 5 ◌>>=◌
abbrev pub ◌>>=◌ : {A B : Type 0} → Io A → (A → Io B) → Io B
◌>>=◌ (calls, result) next = and_next calls result next

abbrev pub no_call : {A : Type 0} → Parsed A → Io A
no_call result = ([], result)

-- An error with what `Generate` puts in front of it.
abbrev pub wrapped : {A : Type 0} → Text → Parsed A → Parsed A
wrapped what (ok value) = ok value
wrapped what (err why) = err (what ++ why)

abbrev pub or_text : Text → Text → Text
or_text d value = if is_empty value then d else value

-- The defaults of the options.
unfoldable pub completed : GenerateOptions → GenerateOptions
completed opts = record opts {
  out_dir = or_text (text "reports") opts.out_dir;
  dashboard_path = or_text (text "grafana/dashboards/sync_analysys.json") opts.dashboard_path;
  network_dashboard_path =
      or_text (text "grafana/dashboards/network.json") opts.network_dashboard_path;
  system_dashboard_path =
      or_text (text "grafana/dashboards/system_resources.json") opts.system_dashboard_path;
  grafana = record opts.grafana { url = or_text (text "http://localhost:3000") opts.grafana.url };
}

-- `charts` keeps what `renderGrafanaCharts` returns with an error: nothing.
abbrev pub or_none : Parsed (List Chart) → List Chart
or_none (ok charts) = charts
or_none (err why) = []

abbrev pub ordered : Bool → Parsed (Unit {0})
ordered true = ok tt
ordered false = err (text "from must be before to")

module _ {Stats : Type 0} (out : Outside Stats) where
  unfoldable pub charts_of : GenerateOptions → List Chart
  charts_of opts =
      if opts.skip_charts
      then []
      else or_none (
          out.render_grafana_charts opts.grafana
            (chosen_panels (out.read_dashboard opts.dashboard_path)
              (out.read_dashboard opts.network_dashboard_path)
              (out.read_dashboard opts.system_dashboard_path) opts.groups)
            opts.from opts.to)

  abbrev pub report_dir : GenerateOptions → Text
  report_dir opts = out.join opts.out_dir (out.dir_name opts.from opts.to)

  -- From the files on.
  unfoldable pub write_files : GenerateOptions → List Stats → Io ReportResult
  write_files opts stats = do
    let dir = report_dir opts
    let charts = charts_of opts
    let csv_path = out.join dir (text "summary.csv")
    let pdf_path = out.join dir (text "summary.pdf")
    _ ← (
      writes_csv csv_path ∷ [],
      wrapped (text "write csv: ") (out.write_csv csv_path opts.from opts.to stats),
    )
    _ ← (
      writes_pdf pdf_path ∷ [],
      wrapped (text "write pdf: ")
          (out.write_pdf pdf_path opts.from opts.to stats charts opts.charts_per_page),
    )
    no_call (
        ok (record {
          report_dir = dir;
          csv_path = csv_path;
          pdf_path = pdf_path;
          rows = length stats;
          charts = length charts;
        }))

  -- After the checks, with the defaults filled in.
  unfoldable pub run_steps :
      ((from to : ℤ) → Parsed (List Stats)) → GenerateOptions → Io ReportResult
  run_steps load_report_stats opts = do
    stats ← no_call (wrapped (text "load stats: ") (load_report_stats opts.from opts.to))
    _ ← (
      makes_dir opts.out_dir ∷ [],
      wrapped (text "create output dir: ") (out.mkdir_all opts.out_dir),
    )
    _ ← (
      makes_dir (report_dir opts) ∷ [],
      wrapped (text "create report dir: ") (out.mkdir_all (report_dir opts)),
    )
    write_files opts stats

  -- Knowing the loader.
  unfoldable pub with_loader :
      Option ((from to : ℤ) → Parsed (List Stats)) → GenerateOptions → Io ReportResult
  with_loader none opts = no_call (err (text "report stats loader is nil"))
  with_loader (some load_report_stats) opts = no_call (ordered (ltb_ℤ opts.from opts.to)) >>= λ _.
      run_steps load_report_stats (completed opts)

  unfoldable pub generate : GenerateOptions → Io ReportResult
  generate opts = with_loader out.stats_loader opts
