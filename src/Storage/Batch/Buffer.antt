-- ===== src/Storage/Batch/Buffer.antt =====
-- One buffer of `BatchPostgresStorage` and what an insert and a flush do to it. The seven buffers of
-- src/internal/storage/batch_pg.go share this code line by line; Flush and Inserts name each.
use timesync_analyzer.Common.{
  ℕ, ◌≡◌, refl, List, [], ◌∷◌, ◌++◌, map, Bool, Option, none, some, String, leb, length, ap, sym,
  ◌∙◌, inl, inr, ◌⊎◌,
}
use mathlib.Core.List.{append-nil, append_assoc, map-append}
use timesync_analyzer.Storage.Rows.{Value}
use timesync_analyzer.Storage.Tx.{Outcomes, DbCall, copy_via_temp_table}
use timesync_analyzer.Storage.Tx.Handed.{
  Handed, committed_rows, handed_rows, copy_via_temp_table-handed,
}

-- `written` is what the database calls of the flushes have handed on, read off these calls.
pub record Buffered (A : Type 0) : Type 0 where
  pub buf : List A
  pub written : List Handed

abbrev pub empty : {A : Type 0} → Buffered A
empty = record { buf = []; written = [] }

-- The arguments of `copyViaTempTable`, with the row function of `pgx.CopyFromSlice`.
pub record Copy (A : Type 0) : Type 0 where
  pub create_temp_sql : String
  pub temp_table : String
  pub columns : List String
  pub values : A → List Value
  pub insert_sql : String

pub record Flushed (A : Type 0) : Type 0 where
  pub rest : Buffered A
  pub calls : List DbCall
  pub error : Option String

module _ {A : Type 0} where
  -- The locked part of an insert.
  unfoldable pub append : A → Buffered A → Buffered A
  append row b = record b { buf = b.buf ++ row ∷ [] }

  -- `len(buf) >= maxSize`
  unfoldable pub should_flush : ℕ → Buffered A → Bool
  should_flush max_size b = leb max_size (length b.buf)

  -- The end of a flush: on an error the rows go back in front of what the buffer holds by now.
  unfoldable pub finish : List A → Option String → Buffered A → Buffered A
  finish rows (some e) b = record b { buf = rows ++ b.buf }
  finish rows none b = b

  -- What the calls of a flush hand on.
  unfoldable pub records : List DbCall → Buffered A → Buffered A
  records calls b = record b { written = b.written ++ committed_rows [] [] calls }

  unfoldable pub flush_rows : Copy A → Outcomes → List A → Buffered A → Flushed A
  flush_rows c out [] b = record { rest = b; calls = []; error = none }
  flush_rows c out (row ∷ rows) b =
      let (calls, error) =
        copy_via_temp_table out c.create_temp_sql c.temp_table c.columns (map c.values (row ∷ rows))
          c.insert_sql in
      record { rest = records calls (finish (row ∷ rows) error b); calls = calls; error = error }

  -- The locked part at the start of a flush.
  unfoldable pub take_rows : Buffered A → List A × Buffered A
  take_rows b = (b.buf, record b { buf = [] })

  -- A flush with no other goroutine between its two locked parts: the buffer is taken, emptied,
  -- copied, and put back on an error.
  unfoldable pub flush : Copy A → Outcomes → Buffered A → Flushed A
  unfolding flush_rows finish take_rows
  flush c out b = let (rows, b') = take_rows b in flush_rows c out rows b'

  -- What a copy should hand on for a row.
  abbrev pub handed_row : Copy A → A → Handed
  handed_row c row = record {
    insert_sql = c.insert_sql;
    temp_table = c.temp_table;
    columns = c.columns;
    values = c.values row;
  }

  -- What the buffer has taken in, in order: the rows that were handed on, then those that wait.
  abbrev pub accepted : Copy A → Buffered A → List Handed
  accepted c b = b.written ++ map (handed_row c) b.buf

  handed_rows-values :
      (c : Copy A) (rows : List A)
      → handed_rows c.temp_table c.columns c.insert_sql (map c.values rows)
        ≡ map (handed_row c) rows
  handed_rows-values c [] = refl
  handed_rows-values c (row ∷ rows) = cc (handed_rows-values c rows)

  -- What is left of the rows, and what the calls handed on of them.
  pub flush_rows_cases :
      (c : Copy A) (out : Outcomes) (rows : List A) (b : Buffered A)
      → let r = flush_rows c out rows b in
        ((r.error ≡ none) × (r.rest ≡ record b { written = b.written ++ map (handed_row c) rows }))
        ⊎ ((e : String) × (r.error ≡ some e) × (r.rest ≡ record b { buf = rows ++ b.buf }))
  unfolding flush_rows finish records
  flush_rows_cases c out [] b = inl (refl, rw append-nil refl)
  flush_rows_cases c out (row ∷ rows) b = of_answer _ refl
    where
      of_answer :
          (r : List DbCall × Option String)
          → copy_via_temp_table out c.create_temp_sql c.temp_table c.columns
              (map c.values (row ∷ rows))
              c.insert_sql
            ≡ r
          → ((r.1 ≡ none)
              × (records r.0 (finish (row ∷ rows) r.1 b)
                  ≡ record b { written = b.written ++ map (handed_row c) (row ∷ rows) }))
            ⊎ ((e : String) × (r.1 ≡ some e)
                × (records r.0 (finish (row ∷ rows) r.1 b)
                    ≡ record b { buf = (row ∷ rows) ++ b.buf }))
      of_answer (calls, none) e =
          let h =
            copy_via_temp_table-handed c.temp_table c.columns c.insert_sql out c.create_temp_sql
              (map c.values (row ∷ rows)) calls none e in
          inl (
            refl,
            ap (λ rows'. record b { written = b.written ++ rows' })
                (h ∙ handed_rows-values c (row ∷ rows)),
          )
      of_answer (calls, some why) e =
          let h =
            copy_via_temp_table-handed c.temp_table c.columns c.insert_sql out c.create_temp_sql
              (map c.values (row ∷ rows)) calls (some why) e in
          inr (
            why,
            refl,
            ap (λ rows'. record b { written = b.written ++ rows'; buf = (row ∷ rows) ++ b.buf }) h
                ∙ ap (λ rows'. record b { written = rows'; buf = (row ∷ rows) ++ b.buf })
                    (append-nil b.written),
          )

  -- A flush hands all that waited on, or nothing.
  pub flush_cases :
      (c : Copy A) (out : Outcomes) (b : Buffered A)
      → let r = flush c out b in
        ((r.error ≡ none) × (r.rest ≡ record { buf = []; written = accepted c b }))
        ⊎ ((e : String) × (r.error ≡ some e) × (r.rest ≡ b))
  unfolding flush take_rows
  flush_cases c out b = elim (flush_rows_cases c out b.buf (record b { buf = [] })) [
    | inl (ok, e) ↦ inl (ok, e)
    | inr (why, failed, e) ↦
        inr (why, failed, e ∙ ap (λ rows. record b { buf = rows }) (append-nil b.buf))
  ]

  pub accepted-flush :
      (c : Copy A) (out : Outcomes) (b : Buffered A)
      → accepted c (flush c out b).rest ≡ accepted c b
  accepted-flush c out b = elim (flush_cases c out b) [
    | inl (ok, e) ↦ ap (accepted c) e ∙ append-nil (accepted c b)
    | inr (why, failed, e) ↦ ap (accepted c) e
  ]

  pub accepted-append :
      (c : Copy A) (row : A) (b : Buffered A)
      → accepted c (append row b) ≡ accepted c b ++ handed_row c row ∷ []
  unfolding append
  accepted-append c row b =
      ap (λ rows. b.written ++ rows) (map-append (handed_row c) b.buf (row ∷ []))
      ∙ sym (append_assoc b.written (map (handed_row c) b.buf) (handed_row c row ∷ []))
