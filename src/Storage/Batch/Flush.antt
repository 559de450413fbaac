-- ===== src/Storage/Batch/Flush.antt =====
-- The seven flushes of src/internal/storage/batch_pg.go, each with its SQL and its row function, and
-- `FlushAll`. An operation takes the outcomes of its database calls and returns the new storage with
-- the error.
use timesync_analyzer.Common.{[], ◌∷◌, ◌++◌, Option, none, some, String}
use timesync_analyzer.Common.Float.{FloatOps}
use timesync_analyzer.Storage.Rows.{
  Ptp4lRow, Phc2sysRow, PpsRow, NetworkRow, CpuRow, MemoryRow, TemperatureRow, time, int, float,
}
use timesync_analyzer.Storage.Tx.{Outcomes}
use timesync_analyzer.Storage.Batch.{BatchStorage}
use timesync_analyzer.Storage.Batch.Buffer.{Copy, flush}

abbrev pub ptp4l_copy : Copy Ptp4lRow
ptp4l_copy = record {
  create_temp_sql =
      "CREATE TEMP TABLE batch_ptp4l_metrics (LIKE timesync.ptp4l_metrics INCLUDING DEFAULTS) ON COMMIT DROP";
  temp_table = "batch_ptp4l_metrics";
  columns = "time" ∷ "node_id" ∷ "offset_ns" ∷ "frequency" ∷ "path_delay" ∷ [];
  values =
      λ r. time r.ts ∷ int r.node_id ∷ int r.offset_ns ∷ int r.frequency ∷ int r.path_delay ∷ [];
  insert_sql =
      "INSERT INTO timesync.ptp4l_metrics (time, node_id, offset_ns, frequency, path_delay) SELECT time, node_id, offset_ns, frequency, path_delay FROM batch_ptp4l_metrics ON CONFLICT (node_id, time) DO NOTHING";
}

unfoldable pub flush_ptp4l : Outcomes → BatchStorage → BatchStorage × Option String
flush_ptp4l out s =
    let r = flush ptp4l_copy out s.ptp4l in
    (record s { ptp4l = r.rest; calls = s.calls ++ r.calls }, r.error)

abbrev pub phc2sys_copy : Copy Phc2sysRow
phc2sys_copy = record {
  create_temp_sql =
      "CREATE TEMP TABLE batch_phc2sys_metrics (LIKE timesync.phc2sys_metrics INCLUDING DEFAULTS) ON COMMIT DROP";
  temp_table = "batch_phc2sys_metrics";
  columns = "time" ∷ "node_id" ∷ "offset_ns" ∷ "frequency" ∷ "path_delay" ∷ [];
  values =
      λ r. time r.ts ∷ int r.node_id ∷ int r.offset_ns ∷ int r.frequency ∷ int r.path_delay ∷ [];
  insert_sql =
      "INSERT INTO timesync.phc2sys_metrics (time, node_id, offset_ns, frequency, path_delay) SELECT time, node_id, offset_ns, frequency, path_delay FROM batch_phc2sys_metrics ON CONFLICT (node_id, time) DO NOTHING";
}

unfoldable pub flush_phc2sys : Outcomes → BatchStorage → BatchStorage × Option String
flush_phc2sys out s =
    let r = flush phc2sys_copy out s.phc2sys in
    (record s { phc2sys = r.rest; calls = s.calls ++ r.calls }, r.error)

abbrev pub pps_copy : Copy PpsRow
pps_copy = record {
  create_temp_sql =
      "CREATE TEMP TABLE batch_pps_metrics (LIKE timesync.pps_metrics INCLUDING DEFAULTS) ON COMMIT DROP";
  temp_table = "batch_pps_metrics";
  columns = "time" ∷ "node_id" ∷ "offset_ns" ∷ [];
  values = λ r. time r.ts ∷ int r.node_id ∷ int r.offset_ns ∷ [];
  insert_sql =
      "INSERT INTO timesync.pps_metrics (time, node_id, offset_ns) SELECT time, node_id, offset_ns FROM batch_pps_metrics ON CONFLICT (node_id, time) DO NOTHING";
}

unfoldable pub flush_pps : Outcomes → BatchStorage → BatchStorage × Option String
flush_pps out s =
    let r = flush pps_copy out s.pps in
    (record s { pps = r.rest; calls = s.calls ++ r.calls }, r.error)

abbrev pub network_copy : Copy NetworkRow
network_copy = record {
  create_temp_sql =
      "CREATE TEMP TABLE batch_network_metrics (LIKE timesync.network_metrics INCLUDING DEFAULTS) ON COMMIT DROP";
  temp_table = "batch_network_metrics";
  columns =
      "time" ∷ "node_id" ∷ "rx_packets" ∷ "tx_packets" ∷ "rx_dropped" ∷ "tx_dropped" ∷ "rx_errors"
      ∷ "tx_errors" ∷ "collisions" ∷ [];
  values = λ r.
      time r.ts
      ∷ int r.node_id
      ∷ int r.rx_packets
      ∷ int r.tx_packets
      ∷ int r.rx_dropped
      ∷ int r.tx_dropped
      ∷ int r.rx_errors
      ∷ int r.tx_errors
      ∷ int r.collisions
      ∷ [];
  insert_sql =
      "INSERT INTO timesync.network_metrics (time, node_id, rx_packets, tx_packets, rx_dropped, tx_dropped, rx_errors, tx_errors, collisions) SELECT time, node_id, rx_packets, tx_packets, rx_dropped, tx_dropped, rx_errors, tx_errors, collisions FROM batch_network_metrics ON CONFLICT (node_id, time) DO NOTHING";
}

unfoldable pub flush_network : Outcomes → BatchStorage → BatchStorage × Option String
flush_network out s =
    let r = flush network_copy out s.network in
    (record s { network = r.rest; calls = s.calls ++ r.calls }, r.error)

abbrev pub cpu_copy : Copy CpuRow
cpu_copy = record {
  create_temp_sql =
      "CREATE TEMP TABLE batch_cpu_metrics (LIKE timesync.cpu_metrics INCLUDING DEFAULTS) ON COMMIT DROP";
  temp_table = "batch_cpu_metrics";
  columns =
      "time" ∷ "node_id" ∷ "usage_percent" ∷ "context_switches" ∷ "interrupts" ∷ "softirqs" ∷ [];
  values = λ r.
      time r.ts
      ∷ int r.node_id
      ∷ float r.usage_percent
      ∷ int r.ctx_switches
      ∷ int r.interrupts
      ∷ int r.softirqs
      ∷ [];
  insert_sql =
      "INSERT INTO timesync.cpu_metrics (time, node_id, usage_percent, context_switches, interrupts, softirqs) SELECT time, node_id, usage_percent, context_switches, interrupts, softirqs FROM batch_cpu_metrics ON CONFLICT (node_id, time) DO NOTHING";
}

unfoldable pub flush_cpu : Outcomes → BatchStorage → BatchStorage × Option String
flush_cpu out s =
    let r = flush cpu_copy out s.cpu in
    (record s { cpu = r.rest; calls = s.calls ++ r.calls }, r.error)

abbrev pub memory_copy : FloatOps → Copy MemoryRow
memory_copy ops = record {
  create_temp_sql =
      "CREATE TEMP TABLE batch_memory_metrics (LIKE timesync.memory_metrics INCLUDING DEFAULTS) ON COMMIT DROP";
  temp_table = "batch_memory_metrics";
  columns =
      "time" ∷ "node_id" ∷ "mem_available_kb" ∷ "mem_free_kb" ∷ "swap_total_kb" ∷ "swap_free_kb"
      ∷ "buffers_kb" ∷ [];
  values = λ r.
      time r.ts
      ∷ int r.node_id
      ∷ int (ops.to_int64 r.mem_available_kb)
      ∷ int r.mem_free_kb
      ∷ int r.swap_total_kb
      ∷ int r.swap_free_kb
      ∷ int r.buffers_kb
      ∷ [];
  insert_sql =
      "INSERT INTO timesync.memory_metrics (time, node_id, mem_available_kb, mem_free_kb, swap_total_kb, swap_free_kb, buffers_kb) SELECT time, node_id, mem_available_kb, mem_free_kb, swap_total_kb, swap_free_kb, buffers_kb FROM batch_memory_metrics ON CONFLICT (node_id, time) DO NOTHING";
}

unfoldable pub flush_memory : FloatOps → Outcomes → BatchStorage → BatchStorage × Option String
flush_memory ops out s =
    let r = flush (memory_copy ops) out s.memory in
    (record s { memory = r.rest; calls = s.calls ++ r.calls }, r.error)

abbrev pub temperature_copy : Copy TemperatureRow
temperature_copy = record {
  create_temp_sql =
      "CREATE TEMP TABLE batch_temperature_metrics (LIKE timesync.temperature_metrics INCLUDING DEFAULTS) ON COMMIT DROP";
  temp_table = "batch_temperature_metrics";
  columns = "time" ∷ "sensor_id" ∷ "temperature" ∷ [];
  values = λ r. time r.ts ∷ int r.sensor_id ∷ int r.temperature ∷ [];
  insert_sql =
      "INSERT INTO timesync.temperature_metrics (time, sensor_id, temperature) SELECT time, sensor_id, temperature FROM batch_temperature_metrics";
}

unfoldable pub flush_temperature : Outcomes → BatchStorage → BatchStorage × Option String
flush_temperature out s =
    let r = flush temperature_copy out s.temperature in
    (record s { temperature = r.rest; calls = s.calls ++ r.calls }, r.error)

-- The outcomes of each flush of one `FlushAll`.
pub record AllOutcomes : Type 0 where
  pub ptp4l : Outcomes
  pub phc2sys : Outcomes
  pub pps : Outcomes
  pub network : Outcomes
  pub cpu : Outcomes
  pub memory : Outcomes
  pub temperature : Outcomes

-- The next flush, unless the last one failed.
infixl 5 ◌and_then◌
unfoldable pub ◌and_then◌ :
    BatchStorage × Option String
    → (BatchStorage → BatchStorage × Option String)
    → BatchStorage × Option String
r and_then next = elim r.1 [ none ↦ next r.0 | some e ↦ r ]

unfoldable pub flush_all : FloatOps → AllOutcomes → BatchStorage → BatchStorage × Option String
flush_all ops out s =
    flush_ptp4l out.ptp4l s
    and_then flush_phc2sys out.phc2sys
    and_then flush_pps out.pps
    and_then flush_network out.network
    and_then flush_cpu out.cpu
    and_then flush_memory ops out.memory
    and_then flush_temperature out.temperature
