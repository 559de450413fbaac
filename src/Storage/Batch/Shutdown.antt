-- ===== src/Storage/Batch/Shutdown.antt =====
-- What `FlushAll` of src/internal/storage/batch_pg.go leaves behind, and the loop `Run` with its last
-- flush at shutdown.
use timesync_analyzer.Common.{
  ℕ, ◌+◌, ◌<◌, ◌≡◌, refl, ◌↔◌, ◌⊎◌, inl, inr, ap, sym, subst, List, [], ◌∷◌, none, some, String,
  arith, length,
}
use timesync_analyzer.Storage.Rows.{Ptp4lRow}
use timesync_analyzer.Common.Float.{FloatOps}
use timesync_analyzer.Storage.Tx.{Outcomes, copy_via_temp_table}
use timesync_analyzer.Storage.Batch.{BatchStorage}
use timesync_analyzer.Storage.Batch.Buffer.{
  Buffered, Copy, take_rows, flush, flush_rows, flush_cases,
}
use timesync_analyzer.Storage.Batch.Flush.{
  AllOutcomes, flush_all, ◌and_then◌, flush_ptp4l, ptp4l_copy, flush_phc2sys, phc2sys_copy,
  flush_pps, pps_copy, flush_network, network_copy, flush_cpu, cpu_copy, flush_memory, memory_copy,
  flush_temperature, temperature_copy,
}

-- The rows that wait in the seven buffers.
pub pending : BatchStorage → ℕ
pending s =
    length s.ptp4l.buf
    + length s.phc2sys.buf
    + length s.pps.buf
    + length s.network.buf
    + length s.cpu.buf
    + length s.memory.buf
    + length s.temperature.buf

abbrev Drained : {A : Type 0} → Copy A → Outcomes → Buffered A → Type 0
Drained c out b =
    ((flush c out b).error ≡ none) × (length (flush c out b).rest.buf ≡ 0)
    ⊎ ((e : String) × ((flush c out b).error ≡ some e) × (0 < length (flush c out b).rest.buf))

failed_rows :
    {A : Type 0} (c : Copy A) (out : Outcomes) (rows : List A) (b : Buffered A) (why : String)
    → (flush_rows c out rows b).error ≡ some why
    → 0 < length rows
unfolding flush_rows
failed_rows c out [] b why failed = cc
failed_rows c out (row ∷ rows) b why failed = omega arith

Drained-flush : {A : Type 0} (c : Copy A) (out : Outcomes) (b : Buffered A) → Drained c out b
unfolding flush take_rows
Drained-flush c out b = elim (flush_cases c out b) [
  | inl (ok, e) ↦ inl (ok, ap (λ r. length r.buf) e)
  | inr (why, failed, e) ↦ inr (
    why,
    failed,
    subst (λ r. 0 < length r.buf) (sym e)
        (failed_rows c out b.buf (record b { buf = [] }) why failed),
  )
]

-- `FlushAll` returns no error exactly if no row waits in any of the seven buffers afterwards.
pub flush_all_drains :
    (ops : FloatOps) (out : AllOutcomes) (s : BatchStorage)
    → ((flush_all ops out s).1 ≡ none) ↔ (pending (flush_all ops out s).0 ≡ 0)
unfolding flush_all pending ◌and_then◌ flush_ptp4l flush_phc2sys flush_pps flush_network flush_cpu
    flush_memory flush_temperature
flush_all_drains ops out s = ground (
  arith,
  Drained-flush ptp4l_copy out.ptp4l s.ptp4l,
  Drained-flush phc2sys_copy out.phc2sys s.phc2sys,
  Drained-flush pps_copy out.pps s.pps,
  Drained-flush network_copy out.network s.network,
  Drained-flush cpu_copy out.cpu s.cpu,
  Drained-flush (memory_copy ops) out.memory s.memory,
  Drained-flush temperature_copy out.temperature s.temperature,
)

-- What the `select` of `Run` receives; the tick's error is only logged, and so is the last one.
pub data Event : Type 0 where
  tick done : AllOutcomes → Event

pub run_loop : FloatOps → List Event → BatchStorage → BatchStorage
run_loop ops [] s = s
run_loop ops (tick out ∷ es) s = run_loop ops es (flush_all ops out s).0
run_loop ops (done out ∷ es) s = (flush_all ops out s).0

fails_rows :
    (out : Outcomes) (rows : List Ptp4lRow) (b : Buffered Ptp4lRow) (e : String)
    → 0 < length rows
    → out.acquire ≡ some e
    → (flush_rows ptp4l_copy out rows b).error ≡ some e
unfolding flush_rows copy_via_temp_table
fails_rows out [] b e waits failed = absurd (omega arith)
fails_rows out (row ∷ rows) b e waits failed = rw (failed, copy_via_temp_table) refl

fails :
    (out : Outcomes) (b : Buffered Ptp4lRow) (e : String)
    → 0 < length b.buf
    → out.acquire ≡ some e
    → ((flush ptp4l_copy out b).rest ≡ b) × ((flush ptp4l_copy out b).error ≡ some e)
unfolding flush take_rows
fails out b e waits failed =
    let error = fails_rows out b.buf (record b { buf = [] }) e waits failed in
    elim (flush_cases ptp4l_copy out b) [
      | inl (ok, all_gone) ↦ cc (error, ok)
      | inr (why, failed, same) ↦ (same, error)
    ]

-- At shutdown one failed copy is not tried again, and the tables behind it are not tried at all: if
-- rows wait for ptp4l and the pool hands out no connection for them, `Run` returns with all seven
-- buffers and all that was written as they were, whatever the later copies would have done.
pub shutdown_gives_up :
    (ops : FloatOps) (out : AllOutcomes) (es : List Event) (s : BatchStorage) (e : String)
    → 0 < length s.ptp4l.buf
    → out.ptp4l.acquire ≡ some e
    → let s' = run_loop ops (done out ∷ es) s in
      (s'.ptp4l ≡ s.ptp4l)
      × (s'.phc2sys ≡ s.phc2sys)
      × (s'.pps ≡ s.pps)
      × (s'.network ≡ s.network)
      × (s'.cpu ≡ s.cpu)
      × (s'.memory ≡ s.memory)
      × (s'.temperature ≡ s.temperature)
unfolding run_loop flush_all ◌and_then◌ flush_ptp4l
shutdown_gives_up ops out es s e waits failed =
    ground (arith, fails out.ptp4l s.ptp4l e waits failed)
