-- ===== src/App/Slider/Windows.antt =====
-- `calculateSlideWindows` of src/internal/app/window_metrics.go and its helpers. The order in which Go
-- walks the map `tables` is a parameter.
pub mod Rows
use timesync_analyzer.Common.{
  ℕ, ◌-◌, ◌≡◌, refl, List, [], ◌∷◌, ◌++◌, Bool, true, false, Option, none, some, if◌then◌else◌, ltb,
  length, map, Bool-cases, inl, inr, ◌∙◌, sym, ap,
}
use mathlib.Core.List.{append-nil, append_assoc}
use timesync_analyzer.Common.Int.{ℤ, pos, ltb_ℤ, pos_part}
use timesync_analyzer.Common.Float.{Float64, FloatOps}
use timesync_analyzer.Common.Text.{Text}
use timesync_analyzer.App.Slider.Mtie.{Sample, calculate_mtie}
use timesync_analyzer.App.Slider.Deviation.{number, calculate_adev, calculate_tdev}

-- `storage.OffsetRow`
pub record OffsetRow : Type 0 where
  pub time_ns : ℤ
  pub offset_ns : ℤ

-- The arguments of `InsertSlideMetrics`.
pub record SlideRow : Type 0 where
  pub table : Text
  pub ts : ℤ
  pub node_id : ℤ
  pub window_size : ℕ
  pub mtie : ℤ
  pub tdev : Float64
  pub adev : Float64

-- The methods of `Storage` that are called here, over the state of an implementation. `none` and
-- `false` are errors.
pub record SlideStorage (S : Type 0) : Type 0 where
  pub get_node_id_list : S → Option (List ℤ)
  pub get_offsets : S → Text → ℤ → Option (List OffsetRow)
  pub insert_slide_metrics : S → SlideRow → Bool × S

-- A storage with the rows handed to it, in their order.
pub record World (S : Type 0) : Type 0 where
  pub store : S
  pub rows : List SlideRow

abbrev pub tau_seconds : List ℕ
tau_seconds = 1 ∷ 2 ∷ 5 ∷ 10 ∷ 20 ∷ 50 ∷ 100 ∷ 200 ∷ 500 ∷ 1000 ∷ []

module _ (ops : FloatOps) where
  unfoldable pub to_samples : List OffsetRow → List Sample
  to_samples = map (λ o. record {
    time_sec = ops.div (ops.of_int64 o.time_ns) (number ops 1000000000);
    offset_ns = o.offset_ns;
  })

  unfoldable pub sum_diffs : Float64 → List Sample → Float64
  sum_diffs sum [] = sum
  sum_diffs sum (s ∷ []) = sum
  sum_diffs sum (s ∷ t ∷ samples) =
      sum_diffs (ops.add sum (ops.sub t.time_sec s.time_sec)) (t ∷ samples)

  unfoldable pub estimate_tau0 : List Sample → Float64
  estimate_tau0 samples =
      let avg = ops.div (sum_diffs (number ops 0) samples) (number ops (length samples - 1)) in
      if ltb (length samples) 2
      then number ops 1
      else if ops.le avg (number ops 0)
      then number ops 1
      else avg

  -- `tauSamples`, at least 1.
  unfoldable pub tau_samples_of : Float64 → ℕ → ℕ
  tau_samples_of tau0 tau =
      let tau_samples = ops.to_int64 (ops.div (number ops tau) tau0) in
      if ltb_ℤ tau_samples (pos 1) then 1 else pos_part tau_samples

  unfoldable pub slide_row : Text → ℤ → ℤ → List Sample → ℕ → SlideRow
  slide_row name now node_id samples tau =
      let tau_samples = tau_samples_of (estimate_tau0 samples) tau in
      record {
        table = name;
        ts = now;
        node_id = node_id;
        window_size = tau;
        mtie = calculate_mtie ops samples (number ops tau);
        tdev = calculate_tdev ops samples tau_samples;
        adev = calculate_adev ops samples tau_samples (number ops tau);
      }

  module _ {S : Type 0} (b : SlideStorage S) (now : ℤ) where
    -- An insertion whose error is only logged.
    pub insert_row : SlideRow → World S → World S
    insert_row row w = record {
      store = (b.insert_slide_metrics w.store row).1;
      rows = w.rows ++ row ∷ [];
    }

    pub insert_taus : (ℕ → SlideRow) → List ℕ → World S → World S
    insert_taus row [] w = w
    insert_taus row (tau ∷ taus) w = insert_taus row taus (insert_row (row tau) w)

    -- What follows the answer of `GetOffsets`.
    pub slide_offsets : Text → ℤ → Option (List OffsetRow) → World S → World S
    slide_offsets name node_id none w = w
    slide_offsets name node_id (some offsets) w =
        if ltb (length offsets) 3
        then w
        else insert_taus (slide_row name now node_id (to_samples offsets)) tau_seconds w

    pub slide_nodes : Text × Text → List ℤ → World S → World S
    slide_nodes table [] w = w
    slide_nodes table (node_id ∷ nodes) w =
        slide_nodes table nodes
          (slide_offsets table.1 node_id (b.get_offsets w.store table.0 node_id) w)

    pub slide_tables : List (Text × Text) → List ℤ → World S → World S
    slide_tables [] nodes w = w
    slide_tables (table ∷ tables) nodes w = slide_tables tables nodes (slide_nodes table nodes w)

    -- What follows the answer of `GetNodeIDList`.
    pub slide_all : List (Text × Text) → Option (List ℤ) → World S → Bool × World S
    slide_all tables none w = (false, w)
    slide_all tables (some nodes) w = (true, slide_tables tables nodes w)

    -- `calculateSlideWindows`, with whether its error is nil.
    pub calculate_slide_windows : List (Text × Text) → World S → Bool × World S
    calculate_slide_windows tables w = slide_all tables (b.get_node_id_list w.store) w
