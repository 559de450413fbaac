-- ===== src/App/Slider/Windows/Rows.antt =====
-- The rows that `calculateSlideWindows` of src/internal/app/window_metrics.go hands to the storage.
use timesync_analyzer.Common.{
  ℕ, ◌≡◌, refl, List, [], ◌∷◌, ◌++◌, true, false, arith, Option, none, some, if◌then◌else◌, ltb,
  length, map, Bool-cases, inl, inr, ◌∙◌, sym, ap,
}
use mathlib.Core.List.{append-nil, append_assoc}
use timesync_analyzer.Common.Int.{ℤ, pos, pos_part, leb_ℤ}
use timesync_analyzer.Common.Float.{FloatOps}
use timesync_analyzer.Common.Text.{Text}
use timesync_analyzer.App.Slider.Mtie.{Sample, calculate_mtie}
use timesync_analyzer.App.Slider.Deviation.{calculate_adev, calculate_tdev}
use timesync_analyzer.App.Slider.Windows.{
  OffsetRow, SlideRow, SlideStorage, World, tau_seconds, to_samples, slide_row, insert_row,
  estimate_tau0, tau_samples_of, insert_taus, slide_offsets, slide_nodes, slide_tables, slide_all,
  calculate_slide_windows,
}

module _ (ops : FloatOps) where
  module _ {S : Type 0} (b : SlideStorage S) (now : ℤ) where
    -- The samples of a series: seconds and nanoseconds.
    abbrev pub samples_of : List OffsetRow → List Sample
    samples_of [] = []
    samples_of (o ∷ offsets) =
        record {
          time_sec = ops.div (ops.of_int64 o.time_ns) (ops.of_int64 (pos 1_000_000_000));
          offset_ns = o.offset_ns;
        }
        ∷ samples_of offsets

    -- A window in samples: its seconds over the time between two samples, at least 1.
    abbrev pub samples_in : List Sample → ℕ → ℕ
    samples_in samples tau =
        let n = ops.to_int64 (ops.div (ops.of_int64 (pos tau)) (estimate_tau0 ops samples)) in
        if leb_ℤ (pos 1) n then pos_part n else 1

    -- The row of one window of `tau` seconds over a series.
    abbrev pub window_row : Text → ℤ → List Sample → ℕ → SlideRow
    window_row name node_id samples tau = record {
      table = name;
      ts = now;
      node_id = node_id;
      window_size = tau;
      mtie = calculate_mtie ops samples (ops.of_int64 (pos tau));
      tdev = calculate_tdev ops samples (samples_in samples tau);
      adev = calculate_adev ops samples (samples_in samples tau) (ops.of_int64 (pos tau));
    }

    -- The rows that one series is worth: none for fewer than three offsets, else one for each window.
    abbrev pub series : Text → ℤ → Option (List OffsetRow) → List SlideRow
    series name node_id none = []
    series name node_id (some offsets) =
        if ltb (length offsets) 3
        then []
        else (let row = window_row name node_id (samples_of offsets) in
            row 1
            ∷ row 2
            ∷ row 5
            ∷ row 10
            ∷ row 20
            ∷ row 50
            ∷ row 100
            ∷ row 200
            ∷ row 500
            ∷ row 1000
            ∷ [])

    to_samples-eq : (offsets : List OffsetRow) → to_samples ops offsets ≡ samples_of offsets
    unfolding to_samples
    to_samples-eq [] = refl
    to_samples-eq (o ∷ offsets) = cc (to_samples-eq offsets)

    samples_in-eq :
        (samples : List Sample) (tau : ℕ)
        → tau_samples_of ops (estimate_tau0 ops samples) tau ≡ samples_in samples tau
    unfolding tau_samples_of
    samples_in-eq samples tau = ground arith

    slide_row-eq :
        (name : Text) (node_id : ℤ) (offsets : List OffsetRow) (tau : ℕ)
        → slide_row ops name now node_id (to_samples ops offsets) tau
          ≡ window_row name node_id (samples_of offsets) tau
    unfolding slide_row
    slide_row-eq name node_id offsets tau =
        rw (to_samples-eq offsets, samples_in-eq (samples_of offsets) tau) refl

    series-eq :
        (name : Text) (node_id : ℤ) (offsets : List OffsetRow)
        → ltb (length offsets) 3 ≡ false
        → map (slide_row ops name now node_id (to_samples ops offsets)) tau_seconds
          ≡ series name node_id (some offsets)
    series-eq name node_id offsets enough =
        let e = slide_row-eq name node_id offsets in
        rw enough (cc (e 1, e 2, e 5, e 10, e 20, e 50, e 100, e 200, e 500, e 1000))

    -- The rows of one table and of all, for what `GetOffsets` returns.
    abbrev pub node_rows :
        (Text → ℤ → Option (List OffsetRow)) → Text × Text → List ℤ → List SlideRow
    node_rows offsets table [] = []
    node_rows offsets table (node_id ∷ nodes) =
        series table.1 node_id (offsets table.0 node_id) ++ node_rows offsets table nodes

    abbrev pub all_rows :
        (Text → ℤ → Option (List OffsetRow)) → List (Text × Text) → List ℤ → List SlideRow
    all_rows offsets [] nodes = []
    all_rows offsets (table ∷ tables) nodes =
        node_rows offsets table nodes ++ all_rows offsets tables nodes

    insert_taus-rows :
        (row : ℕ → SlideRow) (taus : List ℕ) (w : World S)
        → (insert_taus ops b now row taus w).rows ≡ w.rows ++ map row taus
    unfolding insert_taus insert_row
    insert_taus-rows row [] w = sym (append-nil w.rows)
    insert_taus-rows row (tau ∷ taus) w =
        insert_taus-rows row taus (insert_row ops b now (row tau) w)
        ∙ append_assoc w.rows (row tau ∷ []) (map row taus)

    -- What `GetOffsets` says of a store.
    abbrev Says : (Text → ℤ → Option (List OffsetRow)) → S → Type 0
    Says offsets s =
        (table : Text) (node_id : ℤ) → b.get_offsets s table node_id ≡ offsets table node_id

    module _
        (keeps_reads : (s : S) (row : SlideRow) (table : Text) (node_id : ℤ)
          → b.get_offsets (b.insert_slide_metrics s row).1 table node_id
            ≡ b.get_offsets s table node_id)
        (offsets : Text → ℤ → Option (List OffsetRow)) where
      insert_taus-Says :
          (row : ℕ → SlideRow) (taus : List ℕ) (w : World S)
          → Says offsets w.store
          → Says offsets (insert_taus ops b now row taus w).store
      unfolding insert_taus insert_row
      insert_taus-Says row [] w h = h
      insert_taus-Says row (tau ∷ taus) w h =
          insert_taus-Says row taus _
            (λ table node_id. keeps_reads w.store (row tau) table node_id ∙ h table node_id)

      -- After a step the reads are the same and the rows have grown by the given ones.
      abbrev Grown : World S → List SlideRow → World S → Type 0
      Grown before rows after = Says offsets after.store × (after.rows ≡ before.rows ++ rows)

      grow :
          (a b c : World S) (one two : List SlideRow)
          → a.rows ++ one ≡ b.rows
          → Grown b two c
          → Grown a (one ++ two) c
      grow a b c one two e (says, e') =
          (says, e' ∙ ap (λ rows. rows ++ two) (sym e) ∙ append_assoc a.rows one two)

      slide_offsets-Grown :
          (name : Text) (node_id : ℤ) (found : Option (List OffsetRow)) (w : World S)
          → Says offsets w.store
          → Grown w (series name node_id found) (slide_offsets ops b now name node_id found w)
      unfolding slide_offsets
      slide_offsets-Grown name node_id none w h = (h, sym (append-nil w.rows))
      slide_offsets-Grown name node_id (some found) w h = elim (Bool-cases (ltb (length found) 3)) [
        | inl few ↦ rw few (h, sym (append-nil w.rows))
        | inr enough ↦
            let row = slide_row ops name now node_id (to_samples ops found) in
            (
              rw enough (insert_taus-Says row tau_seconds w h),
              rw (enough, slide_offsets) (insert_taus-rows row tau_seconds w)
                  ∙ ap (λ rows. w.rows ++ rows) (series-eq name node_id found enough),
            )
      ]

      slide_nodes-Grown :
          (table : Text × Text) (nodes : List ℤ) (w : World S)
          → Says offsets w.store
          → Grown w (node_rows offsets table nodes) (slide_nodes ops b now table nodes w)
      unfolding slide_nodes
      slide_nodes-Grown table [] w h = (h, sym (append-nil w.rows))
      slide_nodes-Grown table (node_id ∷ nodes) w h =
          rw (h table.0 node_id, slide_nodes)
            (let (says, e) = slide_offsets-Grown table.1 node_id (offsets table.0 node_id) w h in
              grow w (slide_offsets ops b now table.1 node_id (offsets table.0 node_id) w) _ _ _
                (sym e) (slide_nodes-Grown table nodes _ says))

      slide_tables-Grown :
          (tables : List (Text × Text)) (nodes : List ℤ) (w : World S)
          → Says offsets w.store
          → Grown w (all_rows offsets tables nodes) (slide_tables ops b now tables nodes w)
      unfolding slide_tables
      slide_tables-Grown [] nodes w h = (h, sym (append-nil w.rows))
      slide_tables-Grown (table ∷ tables) nodes w h =
          let (says, e) = slide_nodes-Grown table nodes w h in
          grow w (slide_nodes ops b now table nodes w) _ _ _ (sym e)
            (slide_tables-Grown tables nodes _ says)

      -- Where an insertion of slide metrics does not change what `GetOffsets` returns, one pass hands
      -- the storage, whichever insertions fail, for every node and table with at least three offsets,
      -- and in their order, exactly the rows of the windows of 1, 2, 5, 10, 20, 50, 100, 200, 500 and
      -- 1000 seconds, each with the MTIE, the TDEV and the ADEV of that window, and no other row.
      pub calculate_slide_windows-rows :
          (tables : List (Text × Text)) (nodes : List ℤ) (w : World S)
          → Says offsets w.store
          → b.get_node_id_list w.store ≡ some nodes
          → ((calculate_slide_windows ops b now tables w).0 ≡ true)
            × ((calculate_slide_windows ops b now tables w).1.rows
                ≡ w.rows ++ all_rows offsets tables nodes)
      unfolding calculate_slide_windows slide_all
      calculate_slide_windows-rows tables nodes w h e =
          rw e (refl, (slide_tables-Grown tables nodes w h).1)
