-- ===== src/Storage/Tx/Handed.antt =====
-- Which rows the calls of `copyViaTempTable` in src/internal/storage/batch_pg.go hand to a table.
use timesync_analyzer.Common.{
  ◌≡◌, refl, List, [], ◌∷◌, ◌++◌, map, Option, none, some, String, arith,
}
use mathlib.Core.List.{append-nil}
use timesync_analyzer.Storage.Rows.{Value}
use timesync_analyzer.Storage.Tx.{
  Outcomes, DbCall, acquired, begun, committed, rollback, release, exec, copied,
  copy_via_temp_table, copy_in_tx,
}

-- A row that was copied into a temporary table, and the statement that moved it on from there.
pub record Handed : Type 0 where
  pub insert_sql : String
  pub temp_table : String
  pub columns : List String
  pub values : List Value

-- A copied row, once a statement moves it on.
abbrev pub Copied : Type 0
Copied = String → Handed

abbrev pub copied_row : String → List String → List Value → Copied
copied_row temp_table columns values insert_sql = record {
  insert_sql = insert_sql;
  temp_table = temp_table;
  columns = columns;
  values = values;
}

-- The rows that calls hand on for good: those that were copied in a transaction, then moved on by a
-- statement of it, if it was then committed. The temporary table does not outlast its transaction.
unfoldable pub committed_rows :
    (copies : List Copied) (moved : List Handed) → List DbCall → List Handed
committed_rows copies moved [] = []
committed_rows copies moved (acquired ∷ calls) = committed_rows copies moved calls
committed_rows copies moved (begun ∷ calls) = committed_rows [] [] calls
committed_rows copies moved (copied temp_table columns rows ∷ calls) =
    committed_rows (copies ++ map (copied_row temp_table columns) rows) moved calls
committed_rows copies moved (exec sql ∷ calls) =
    committed_rows copies (moved ++ map (λ row. row sql) copies) calls
committed_rows copies moved (committed ∷ calls) = moved ++ committed_rows [] [] calls
committed_rows copies moved (rollback ∷ calls) = committed_rows [] [] calls
committed_rows copies moved (release ∷ calls) = committed_rows copies moved calls

module _ (temp_table : String) (columns : List String) (insert_sql : String) where
  abbrev pub handed_rows : List (List Value) → List Handed
  handed_rows = map (λ values. copied_row temp_table columns values insert_sql)

  moved-rows :
      (rows : List (List Value))
      → map (λ row. row insert_sql) (map (copied_row temp_table columns) rows) ≡ handed_rows rows
  moved-rows [] = refl
  moved-rows (row ∷ rows) = cc (moved-rows rows)

  module _ (out : Outcomes) (create_temp_sql : String) (rows : List (List Value)) where
    -- All of the rows without an error, none with one.
    pub copy_via_temp_table-handed :
        (calls : List DbCall) (error : Option String)
        → copy_via_temp_table out create_temp_sql temp_table columns rows insert_sql
          ≡ (calls, error)
        → committed_rows [] [] calls ≡ (elim error [ none ↦ handed_rows rows | some e ↦ [] ])
    unfolding copy_via_temp_table copy_in_tx committed_rows
    copy_via_temp_table-handed calls error e =
        ground (arith, moved-rows rows, append-nil (handed_rows rows))
