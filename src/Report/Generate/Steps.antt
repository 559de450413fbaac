-- ===== src/Report/Generate/Steps.antt =====
-- The order of the steps of `Generate` of src/internal/report/report.go, where it stops, and what its
-- success means.
use timesync_analyzer.Common.{
  ◌≡◌, refl, List, [], ◌∷◌, ◌++◌, Option, none, some, length, arith, ◌⊎◌, if◌then◌else◌, inl, inr,
  Bool-cases,
}
use timesync_analyzer.Common.Int.{ℤ, ltb_ℤ, ◌<ℤ◌, ◌≤ℤ◌}
use timesync_analyzer.Common.Text.{Text, text}
use timesync_analyzer.Reportd.Types.{ReportResult}
use timesync_analyzer.Reportd.Groups.{Parsed, ok, err}
use timesync_analyzer.Reportd.Service.Run.{GenerateOptions}
use timesync_analyzer.Report.Generate.{
  Outside, FileCall, makes_dir, writes_csv, writes_pdf, Io, completed, charts_of, report_dir,
  write_files, run_steps, with_loader, generate,
}
use timesync_analyzer.Report.Render.{Chart}
use timesync_analyzer.Report.Panels.{chosen_panels}

module _ {Stats : Type 0} (out : Outside Stats) where
  abbrev pub csv_path_of : GenerateOptions → Text
  csv_path_of opts = out.join (report_dir out opts) (text "summary.csv")

  abbrev pub pdf_path_of : GenerateOptions → Text
  pdf_path_of opts = out.join (report_dir out opts) (text "summary.pdf")

  -- The charts of the report: none where they are skipped, and none where they cannot be rendered.
  abbrev pub rendered : GenerateOptions → List Chart
  rendered opts =
      if opts.skip_charts
      then []
      else elim (out.render_grafana_charts opts.grafana
          (chosen_panels (out.read_dashboard opts.dashboard_path)
            (out.read_dashboard opts.network_dashboard_path)
            (out.read_dashboard opts.system_dashboard_path) opts.groups)
          opts.from opts.to) [ ok charts ↦ charts | err why ↦ [] ]

  abbrev pub pdf_of : GenerateOptions → List Stats → Parsed (Unit {0})
  pdf_of opts stats =
      out.write_pdf (pdf_path_of opts) opts.from opts.to stats (rendered opts) opts.charts_per_page

  -- The calls of a run that comes to its last step: the directories, then the files in the inner one.
  abbrev pub all_calls : GenerateOptions → List FileCall
  all_calls opts =
      makes_dir opts.out_dir
      ∷ makes_dir (report_dir out opts)
      ∷ writes_csv (csv_path_of opts)
      ∷ writes_pdf (pdf_path_of opts)
      ∷ []

  -- How a run ends once its statistics are loaded. Each error is the one of the first step that fails,
  -- the steps before it went well, and no later call is made.
  pub data EndsWith (opts : GenerateOptions) (stats : List Stats) : Io ReportResult → Type 0 where
    no_out_dir :
        (why : Text)
        → out.mkdir_all opts.out_dir ≡ err why
        → EndsWith opts stats (makes_dir opts.out_dir ∷ [], err (text "create output dir: " ++ why))
    no_report_dir :
        (why : Text)
        → out.mkdir_all opts.out_dir ≡ ok tt
        → out.mkdir_all (report_dir out opts) ≡ err why
        → EndsWith opts stats (
          makes_dir opts.out_dir ∷ makes_dir (report_dir out opts) ∷ [],
          err (text "create report dir: " ++ why),
        )
    no_csv :
        (why : Text)
        → out.mkdir_all opts.out_dir ≡ ok tt
        → out.mkdir_all (report_dir out opts) ≡ ok tt
        → out.write_csv (csv_path_of opts) opts.from opts.to stats ≡ err why
        → EndsWith opts stats (
          makes_dir opts.out_dir
              ∷ makes_dir (report_dir out opts)
              ∷ writes_csv (csv_path_of opts)
              ∷ [],
          err (text "write csv: " ++ why),
        )
    no_pdf :
        (why : Text)
        → out.mkdir_all opts.out_dir ≡ ok tt
        → out.mkdir_all (report_dir out opts) ≡ ok tt
        → out.write_csv (csv_path_of opts) opts.from opts.to stats ≡ ok tt
        → pdf_of opts stats ≡ err why
        → EndsWith opts stats (all_calls opts, err (text "write pdf: " ++ why))
    written :
        out.mkdir_all opts.out_dir ≡ ok tt
        → out.mkdir_all (report_dir out opts) ≡ ok tt
        → out.write_csv (csv_path_of opts) opts.from opts.to stats ≡ ok tt
        → pdf_of opts stats ≡ ok tt
        → EndsWith opts stats (
          all_calls opts,
          ok (record {
            report_dir = report_dir out opts;
            csv_path = csv_path_of opts;
            pdf_path = pdf_path_of opts;
            rows = length stats;
            charts = length (rendered opts);
          }),
        )

  -- How a run ends: the calls that it made, and its error or its result.
  pub data Ends (opts : GenerateOptions) : Io ReportResult → Type 0 where
    no_loader : out.stats_loader ≡ none → Ends opts ([], err (text "report stats loader is nil"))
    not_ordered :
        (load : (from to : ℤ) → Parsed (List Stats))
        → out.stats_loader ≡ some load
        → opts.to ≤ℤ opts.from
        → Ends opts ([], err (text "from must be before to"))
    not_loaded :
        (load : (from to : ℤ) → Parsed (List Stats)) (why : Text)
        → out.stats_loader ≡ some load
        → opts.from <ℤ opts.to
        → load opts.from opts.to ≡ err why
        → Ends opts ([], err (text "load stats: " ++ why))
    loaded :
        (load : (from to : ℤ) → Parsed (List Stats)) (stats : List Stats) (r : Io ReportResult)
        → out.stats_loader ≡ some load
        → opts.from <ℤ opts.to
        → load opts.from opts.to ≡ ok stats
        → EndsWith (completed opts) stats r
        → Ends opts r

  Parsed-cases :
      {A : Type 0} (p : Parsed A) → ((why : Text) × (p ≡ err why)) ⊎ ((a : A) × (p ≡ ok a))
  Parsed-cases (ok a) = inr (a, refl)
  Parsed-cases (err why) = inl (why, refl)

  write_files-EndsWith :
      (opts : GenerateOptions) (stats : List Stats)
      → out.mkdir_all opts.out_dir ≡ ok tt
      → out.mkdir_all (report_dir out opts) ≡ ok tt
      → EndsWith opts stats (
        makes_dir opts.out_dir ∷ makes_dir (report_dir out opts) ∷ (write_files out opts stats).0,
        (write_files out opts stats).1,
      )
  unfolding write_files charts_of
  write_files-EndsWith opts stats d d' =
      elim (Parsed-cases (out.write_csv (csv_path_of opts) opts.from opts.to stats)) [
        | inl (why, e) ↦ rw (e, write_files) (no_csv why d d' e)
        | inr (_, e) ↦ elim (Parsed-cases (pdf_of opts stats)) [
          | inl (why, e') ↦ rw (e, e', write_files) (no_pdf why d d' e e')
          | inr (_, e') ↦ rw (e, e', write_files) (written d d' e e')
        ]
      ]

  run_steps-EndsWith :
      (load : (from to : ℤ) → Parsed (List Stats)) (opts : GenerateOptions) (stats : List Stats)
      → load opts.from opts.to ≡ ok stats
      → EndsWith opts stats (run_steps out load opts)
  unfolding run_steps
  run_steps-EndsWith load opts stats l = elim (Parsed-cases (out.mkdir_all opts.out_dir)) [
    | inl (why, e) ↦ rw (l, e, run_steps) (no_out_dir why e)
    | inr (_, e) ↦ elim (Parsed-cases (out.mkdir_all (report_dir out opts))) [
      | inl (why, e') ↦ rw (l, e, e', run_steps) (no_report_dir why e e')
      | inr (_, e') ↦ rw (l, e, e', run_steps) (write_files-EndsWith opts stats e e')
    ]
  ]

  with_loader-Ends :
      (loader : Option ((from to : ℤ) → Parsed (List Stats))) (opts : GenerateOptions)
      → out.stats_loader ≡ loader
      → Ends opts (with_loader out loader opts)
  unfolding with_loader run_steps completed write_files charts_of
  with_loader-Ends none opts e = no_loader e
  with_loader-Ends (some load) opts e = elim (Bool-cases (ltb_ℤ opts.from opts.to)) [
    | inr h ↦ rw (h, with_loader) (not_ordered load e (ground (arith, h)))
    | inl h ↦ elim (Parsed-cases (load opts.from opts.to)) [
      | inl (why, l) ↦
          rw (h, l, with_loader, run_steps, completed) (not_loaded load why e (ground (arith, h)) l)
      | inr (stats, l) ↦
          rw (h, with_loader)
            (loaded load stats _ e (ground (arith, h)) l
              (run_steps-EndsWith load (completed opts) stats l))
    ]
  ]

  -- `Generate` checks the loader and the period, loads the statistics, makes its two directories, then
  -- writes the CSV and then the PDF. At the first step that fails it stops: it returns the error of this
  -- step, with what it puts in front, and makes no later call. If none fails, the result has the number
  -- of the statistics, the number of the charts and the paths of the two files. Charts that cannot be
  -- rendered are no error.
  pub generate-Ends : (opts : GenerateOptions) → Ends opts (generate out opts)
  unfolding generate
  generate-Ends opts = with_loader-Ends out.stats_loader opts refl
