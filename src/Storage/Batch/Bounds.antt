-- ===== src/Storage/Batch/Bounds.antt =====
-- How full a buffer of src/internal/storage/batch_pg.go gets, and what `FlushAll` and `Run` leave.
use timesync_analyzer.Common.{ℕ, ◌<◌, ◌≡◌, none, arith, length, ap, inl, inr}
use timesync_analyzer.Common.Float.{FloatOps}
use timesync_analyzer.Storage.Tx.{Outcomes}
use timesync_analyzer.Storage.Batch.{BatchStorage}
use timesync_analyzer.Storage.Batch.Buffer.{
  Buffered, Copy, append, should_flush, flush, flush_cases,
}
use timesync_analyzer.Storage.Batch.Flush.{
  flush_ptp4l, ptp4l_copy, flush_phc2sys, phc2sys_copy, flush_pps, pps_copy, flush_network,
  network_copy, flush_cpu, cpu_copy, flush_memory, memory_copy, flush_temperature, temperature_copy,
}
use timesync_analyzer.Storage.Batch.Inserts.{
  insert_ptp4l, insert_phc2sys, insert_pps, insert_network, insert_cpu, insert_memory,
  insert_temperature,
}
use timesync_analyzer.Storage.Batch.History.{
  Request, ptp4l, phc2sys, pps, network, cpu, memory, temperature, insert,
}

-- The number of rows that wait for the table of a request.
pub waiting : Request → BatchStorage → ℕ
waiting (ptp4l r) s = length s.ptp4l.buf
waiting (phc2sys r) s = length s.phc2sys.buf
waiting (pps r) s = length s.pps.buf
waiting (network r) s = length s.network.buf
waiting (cpu r) s = length s.cpu.buf
waiting (memory r) s = length s.memory.buf
waiting (temperature r) s = length s.temperature.buf

flush-room :
    {A : Type 0} (c : Copy A) (out : Outcomes) (b : Buffered A) (n : ℕ)
    → 0 < n
    → (flush c out b).error ≡ none
    → length (flush c out b).rest.buf < n
flush-room c out b n h ok = elim (flush_cases c out b) [
  | inl (_, e) ↦ rw (ap (λ r. r.buf) e) h
  | inr (why, failed, e) ↦ cc (ok, failed)
]

-- With a positive `maxSize`, an insert that reports no error leaves fewer than `maxSize` rows in its
-- buffer.
pub insert-lt-max_size :
    (ops : FloatOps) (out : Outcomes) (r : Request) (s : BatchStorage)
    → 0 < s.max_size
    → (insert ops out r s).1 ≡ none
    → waiting r (insert ops out r s).0 < s.max_size
unfolding insert waiting should_flush insert_ptp4l insert_phc2sys insert_pps insert_network
    insert_cpu insert_memory insert_temperature flush_ptp4l flush_phc2sys flush_pps flush_network
    flush_cpu flush_memory flush_temperature
insert-lt-max_size ops out (ptp4l r) s h ok =
    ground (arith, flush-room ptp4l_copy out (append r s.ptp4l) s.max_size h)
insert-lt-max_size ops out (phc2sys r) s h ok =
    ground (arith, flush-room phc2sys_copy out (append r s.phc2sys) s.max_size h)
insert-lt-max_size ops out (pps r) s h ok =
    ground (arith, flush-room pps_copy out (append r s.pps) s.max_size h)
insert-lt-max_size ops out (network r) s h ok =
    ground (arith, flush-room network_copy out (append r s.network) s.max_size h)
insert-lt-max_size ops out (cpu r) s h ok =
    ground (arith, flush-room cpu_copy out (append r s.cpu) s.max_size h)
insert-lt-max_size ops out (memory r) s h ok =
    ground (arith, flush-room (memory_copy ops) out (append r s.memory) s.max_size h)
insert-lt-max_size ops out (temperature r) s h ok =
    ground (arith, flush-room temperature_copy out (append r s.temperature) s.max_size h)
