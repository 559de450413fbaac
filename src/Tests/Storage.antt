-- ===== src/Tests/Storage.antt =====
-- The theorems on src/internal/storage/batch_pg.go at concrete inputs.
use timesync_analyzer.Common.{
  ℕ, ◌+◌, ◌-◌, ◌*◌, ◌≡◌, ◌<◌, ◌↔◌, refl, List, [], ◌∷◌, none, some, ltb, leb, arith, length,
}
use timesync_analyzer.Common.Int.{pos, negsuc, pos_part}
use timesync_analyzer.Common.Float.{FloatOps}
use timesync_analyzer.Storage.Rows.{Ptp4lRow, PpsRow, int}
use timesync_analyzer.Storage.Tx.{
  Outcomes, copy_in_tx, copy_via_temp_table, count, weight_release, weight_acquired, weight_ended,
  weight_begun, weight_committed, as_number, copy_via_temp_table_balanced,
}
use timesync_analyzer.Storage.Tx.Handed.{Handed, committed_rows}
use timesync_analyzer.Storage.Batch.History
use timesync_analyzer.Storage.Batch.Interleaved
use timesync_analyzer.Storage.Batch.{BatchStorage}
use timesync_analyzer.Storage.Batch.Buffer.{
  empty, append, take_rows, finish, records, handed_row, should_flush, flush, flush_rows,
}
use timesync_analyzer.Storage.Batch.Flush.{AllOutcomes, flush_all, flush_ptp4l, pps_copy}
use timesync_analyzer.Storage.Batch.Inserts.{insert_ptp4l}
use timesync_analyzer.Storage.Batch.History.{
  Op, put, Request, ptp4l, pps, insert, run, logs, note_all,
}
use timesync_analyzer.Storage.Batch.History.Keeps.{logs-run}
use timesync_analyzer.Storage.Batch.Bounds.{waiting, insert-lt-max_size}
use timesync_analyzer.Storage.Batch.Shutdown.{
  pending, flush_all_drains, done, run_loop, shutdown_gives_up,
}
use timesync_analyzer.Storage.Batch.Interleaved.{
  Shared, Step, Reach, here, next, take, finishes, Conserved, Reach-Conserved,
}

-- Natural numbers in place of float64.
abbrev test_ops : FloatOps
test_ops = record {
  add = λ a b. a + b;
  sub = λ a b. a - b;
  mul = λ a b. a * b;
  div = λ a b. a;
  sqrt = λ a. a;
  lt = ltb;
  le = leb;
  of_int64 = pos_part;
  of_uint64 = λ n. n;
  to_int64 = pos;
}

abbrev all_well : Outcomes
all_well = record {
  acquire = none;
  begin = none;
  create_temp = none;
  copy_from = none;
  insert_select = none;
  commit = none;
}

abbrev no_connection : Outcomes
no_connection = record all_well { acquire = some "no connection" }

abbrev copy_fails : Outcomes
copy_fails = record all_well { copy_from = some "copy failed" }

abbrev tick_outcomes : AllOutcomes
tick_outcomes = record {
  ptp4l = no_connection;
  phc2sys = all_well;
  pps = all_well;
  network = all_well;
  cpu = all_well;
  memory = all_well;
  temperature = all_well;
}

abbrev ptp4l_row : Ptp4lRow
ptp4l_row = record {
  ts = pos 9;
  node_id = pos 1;
  offset_ns = negsuc 41;
  frequency = pos 7;
  path_delay = pos 3;
}

abbrev pps_row : PpsRow
pps_row = record { ts = pos 9; node_id = pos 1; offset_ns = pos 4 }

-- Two rows make a batch; one ptp4l row waits.
abbrev small : BatchStorage
small = record {
  max_size = 2;
  flush_interval = pos 1;
  ptp4l = record { buf = ptp4l_row ∷ []; written = [] };
  phc2sys = empty;
  pps = empty;
  network = empty;
  cpu = empty;
  memory = empty;
  temperature = empty;
  calls = [];
}

abbrev trace : List Op
trace =
    put copy_fails (ptp4l ptp4l_row)
    ∷ put all_well (pps pps_row)
    ∷ History.tick tick_outcomes
    ∷ put all_well (ptp4l ptp4l_row)
    ∷ []

logs-run_example :
    logs test_ops (run test_ops trace small) ≡ note_all test_ops (logs test_ops small) trace
logs-run_example = logs-run test_ops trace small

copy_via_temp_table_balanced_example :
    let r =
      copy_via_temp_table copy_fails "create" "temp"
        ("ts" ∷ [])
        ((int (pos 1) ∷ []) ∷ [])
        "insert" in
    (count weight_release r.0 ≡ count weight_acquired r.0)
    × (count weight_ended r.0 ≡ count weight_begun r.0)
    × (count weight_committed r.0 ≡ as_number r.1)
copy_via_temp_table_balanced_example =
    copy_via_temp_table_balanced copy_fails "create" "temp" ("ts" ∷ []) ((int (pos 1) ∷ []) ∷ [])
      "insert"

insert-lt-max_size_example :
    waiting (ptp4l ptp4l_row) (insert test_ops all_well (ptp4l ptp4l_row) small).0 < 2
unfolding insert insert_ptp4l append should_flush flush flush_rows records finish take_rows
    flush_ptp4l copy_in_tx copy_via_temp_table
insert-lt-max_size_example =
    insert-lt-max_size test_ops all_well (ptp4l ptp4l_row) small (omega arith) refl

flush_all_drains_example :
    ((flush_all test_ops tick_outcomes small).1 ≡ none)
    ↔ (pending (flush_all test_ops tick_outcomes small).0 ≡ 0)
flush_all_drains_example = flush_all_drains test_ops tick_outcomes small

shutdown_gives_up_example :
    let s' = run_loop test_ops (done tick_outcomes ∷ []) small in
    (s'.ptp4l ≡ small.ptp4l)
    × (s'.phc2sys ≡ small.phc2sys)
    × (s'.pps ≡ small.pps)
    × (s'.network ≡ small.network)
    × (s'.cpu ≡ small.cpu)
    × (s'.memory ≡ small.memory)
    × (s'.temperature ≡ small.temperature)
shutdown_gives_up_example =
    shutdown_gives_up test_ops tick_outcomes [] small "no connection" (omega arith) refl

-- Two rows are inserted; a flush takes the first before the second comes, and fails; the next flush
-- hands both on.
abbrev pps_second : PpsRow
pps_second = record { ts = pos 10; node_id = pos 1; offset_ns = pos 5 }

abbrev put_back : Shared PpsRow
put_back = record {
  buffer = record { buf = pps_row ∷ pps_second ∷ []; written = [] };
  inflight = [];
  inserted = pps_row ∷ pps_second ∷ [];
}

abbrev both_handed : Shared PpsRow
both_handed = record {
  buffer = record {
    buf = [];
    written = handed_row pps_copy pps_row ∷ handed_row pps_copy pps_second ∷ [];
  };
  inflight = [];
  inserted = pps_row ∷ pps_second ∷ [];
}

put_back-Reach : Reach pps_copy put_back
unfolding append take_rows flush_rows finish records committed_rows copy_via_temp_table copy_in_tx
put_back-Reach =
    next (next (next (next here (Interleaved.insert pps_row)) take) (Interleaved.insert pps_second))
      (finishes [] [] (pps_row ∷ []) copy_fails refl)

both_handed-Reach : Reach pps_copy both_handed
unfolding append take_rows flush_rows finish records committed_rows copy_via_temp_table copy_in_tx
both_handed-Reach =
    next (next put_back-Reach take) (finishes [] [] (pps_row ∷ pps_second ∷ []) all_well refl)

abbrev any_weight : Handed → ℕ
any_weight row = length row.values

Reach-Conserved_example : Conserved pps_copy any_weight both_handed
Reach-Conserved_example = Reach-Conserved pps_copy any_weight both_handed-Reach
