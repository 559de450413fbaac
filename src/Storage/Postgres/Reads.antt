-- ===== src/Storage/Postgres/Reads.antt =====
-- `GetNodeIDList` and `GetOffsets` of src/internal/storage/postgres.go.
use timesync_analyzer.Common.{List, [], ◌∷◌, ◌++◌, Bool, Option, none, some}
use timesync_analyzer.Common.Int.{ℤ}
use timesync_analyzer.Common.Text.{Text}
use timesync_analyzer.Storage.Postgres.{Rows, Database}
use timesync_analyzer.App.Slider.Windows.{OffsetRow}

-- The loop over the rows: nothing once a row cannot be read, and with what was read whether
-- `rows.Err` is nil.
unfoldable pub scan_all : {A : Type 0} → List A → List (Option A) → Bool → Option (List A × Bool)
scan_all result [] complete = some (result, complete)
scan_all result (none ∷ rows) complete = none
scan_all result (some row ∷ rows) complete = scan_all (result ++ row ∷ []) rows complete

unfoldable pub scan : {A : Type 0} → Option (Rows A) → Option (List A × Bool)
scan none = none
scan (some rows) = scan_all [] rows.scanned rows.complete

module _ {D T : Type 0} (db : Database D T) where
  unfoldable pub get_node_id_list : D → Option (List ℤ × Bool)
  get_node_id_list pool = scan (db.select_active_nodes pool)

  unfoldable pub get_offsets :
      (table : Text) (node_id period : ℤ) → D → Option (List OffsetRow × Bool)
  get_offsets table node_id period pool = scan (db.select_offsets table node_id period pool)
