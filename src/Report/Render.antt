-- ===== src/Report/Render.antt =====
-- `renderGrafanaCharts` of src/internal/report/grafana.go, but for its goroutines, which stand in Pool.
-- What one panel gives, the HTTP answer and the decoded image, is a parameter.
pub mod Pool
use timesync_analyzer.Common.{
  ℕ, zero, suc, List, [], ◌∷◌, ◌++◌, Bool, true, false, not, Option, none, some, if◌then◌else◌,
  length, map, ◌&&◌,
}
use timesync_analyzer.Common.Int.{ℤ, pos, pos_part, leb_ℤ, ltb_ℤ}
use timesync_analyzer.Common.Text.{Text, text, is_empty, trim_space}
use timesync_analyzer.Reportd.Types.{GrafanaConfig}
use timesync_analyzer.Reportd.Groups.{Parsed, ok, err}

-- `grafanaPanel`
pub record Panel : Type 0 where
  pub title : Text
  pub panel_type : Text
  pub uid : Text
  pub slug : Text
  pub panel_id : ℤ

-- `pdfChart`; a byte is a number.
pub record Chart : Type 0 where
  pub title : Text
  pub width : ℕ
  pub height : ℕ
  pub png : List ℕ
  pub rgb : List ℕ

pub record RenderResult : Type 0 where
  pub index : ℕ
  pub chart : Chart
  pub failure : Text

abbrev pub no_chart : Chart
no_chart = record { title = []; width = 0; height = 0; png = []; rgb = [] }

-- The zero value of a `renderResult`.
abbrev pub zero_result : RenderResult
zero_result = record { index = 0; chart = no_chart; failure = [] }

abbrev pub or_default : ℤ → ℤ → ℤ
or_default d value = if leb_ℤ value (pos 0) then d else value

-- The start of `renderGrafanaCharts`: the configuration with its defaults, for so many panels.
pub normalized : GrafanaConfig → ℕ → GrafanaConfig
normalized cfg panels =
    let workers = or_default (pos 1) cfg.render_workers in
    record cfg {
      width = or_default (pos 1200) cfg.width;
      height = or_default (pos 420) cfg.height;
      render_workers = if ltb_ℤ (pos panels) workers then pos panels else workers;
      render_timeout = or_default (pos 120_000_000_000) cfg.render_timeout;
      node = if is_empty (trim_space cfg.node) then text ".*" else cfg.node;
    }

-- `fetch` is `fetchGrafanaPanel`, `decode` is `png.Decode` with `imageToRGB`: the width, the height and
-- the pixels.
module _ (fetch : ℕ → Panel → Parsed (List ℕ)) (decode : List ℕ → Parsed (ℕ × ℕ × List ℕ)) where
  -- `decodePNGChart`, and what a worker makes of its error.
  unfoldable pub decoded : ℕ → Panel → List ℕ → Parsed (ℕ × ℕ × List ℕ) → RenderResult
  decoded index panel png (err e) = record {
    index = index;
    chart = no_chart;
    failure = panel.title ++ (text ": decode png: " ++ e);
  }
  decoded index panel png (ok (width, height, rgb)) = record {
    index = index;
    chart = record { title = panel.title; width = width; height = height; png = png; rgb = rgb };
    failure = [];
  }

  unfoldable pub fetched : ℕ → Panel → Parsed (List ℕ) → RenderResult
  fetched index panel (err e) = record {
    index = index;
    chart = no_chart;
    failure = panel.title ++ (text ": " ++ e);
  }
  fetched index panel (ok png) = decoded index panel png (decode png)

  -- What a worker sends for one job.
  unfoldable pub render : ℕ → Panel → RenderResult
  render index panel = fetched index panel (fetch index panel)

  -- The results of all panels, from an index on.
  unfoldable pub render_from : ℕ → List Panel → List RenderResult
  render_from index [] = []
  render_from index (panel ∷ panels) = render index panel ∷ render_from (suc index) panels

-- The loop over the ordered results: the charts, and the failures.
unfoldable pub collected : List RenderResult → List Chart × List Text
collected [] = ([], [])
collected (result ∷ results) =
    let (charts, failed) = collected results in
    if not (is_empty result.failure)
    then (charts, result.failure ∷ failed)
    else if not (is_empty result.chart.rgb)
    then (result.chart ∷ charts, failed)
    else (charts, failed)

-- The end of `renderGrafanaCharts`, from the ordered results on.
unfoldable pub summarize : List RenderResult → Parsed (List Chart)
summarize results =
    let (charts, failed) = collected results in
    if is_empty charts && not (is_empty failed)
    then err (text "all Grafana chart renders failed")
    else ok charts
