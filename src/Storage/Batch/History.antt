-- ===== src/Storage/Batch/History.antt =====
-- The history of the buffered storage: what any sequence of inserts and flushes keeps.
use timesync_analyzer.Common.{
  ◌≡◌, refl, ◌∙◌, ap, sym, Bool-cases, inl, inr, List, [], ◌∷◌, ◌++◌, Option, none, some, String,
  arith, ℕ, ◌<◌,
}
use timesync_analyzer.Common.Float.{FloatOps}
use timesync_analyzer.Storage.Rows.{
  Ptp4lRow, Phc2sysRow, PpsRow, NetworkRow, CpuRow, MemoryRow, TemperatureRow, Value, time, int,
  float,
}
pub mod Keeps
use timesync_analyzer.Storage.Tx.{Outcomes}
use timesync_analyzer.Storage.Tx.Handed.{Handed}
use timesync_analyzer.Storage.Batch.{BatchStorage}
use timesync_analyzer.Storage.Batch.Buffer.{
  Copy, accepted, append, flush, should_flush, accepted-flush, accepted-append,
}
use timesync_analyzer.Storage.Batch.Flush.{
  AllOutcomes, flush_all, ◌and_then◌, flush_ptp4l, ptp4l_copy, flush_phc2sys, phc2sys_copy,
  flush_pps, pps_copy, flush_network, network_copy, flush_cpu, cpu_copy, flush_memory, memory_copy,
  flush_temperature, temperature_copy,
}
use timesync_analyzer.Storage.Batch.Inserts.{
  insert_ptp4l, insert_phc2sys, insert_pps, insert_network, insert_cpu, insert_memory,
  insert_temperature,
}

-- A call of one of the seven inserts.
pub data Request : Type 0 where
  ptp4l : Ptp4lRow → Request
  phc2sys : Phc2sysRow → Request
  pps : PpsRow → Request
  network : NetworkRow → Request
  cpu : CpuRow → Request
  memory : MemoryRow → Request
  temperature : TemperatureRow → Request

unfoldable pub insert : FloatOps → Outcomes → Request → BatchStorage → BatchStorage × Option String
insert ops out (ptp4l r) s = insert_ptp4l out r.ts r.node_id r.offset_ns r.frequency r.path_delay s
insert ops out (phc2sys r) s =
    insert_phc2sys out r.ts r.node_id r.offset_ns r.frequency r.path_delay s
insert ops out (pps r) s = insert_pps out r.ts r.node_id r.offset_ns s
insert ops out (network r) s =
    insert_network out r.ts r.node_id r.rx_packets r.tx_packets r.rx_dropped r.tx_dropped
      r.rx_errors r.tx_errors r.collisions s
insert ops out (cpu r) s =
    insert_cpu out r.ts r.node_id r.usage_percent r.ctx_switches r.interrupts r.softirqs s
insert ops out (memory r) s =
    insert_memory ops out r.ts r.node_id r.mem_available_kb r.mem_free_kb r.swap_total_kb
      r.swap_free_kb r.buffers_kb s
insert ops out (temperature r) s = insert_temperature out r.ts r.sensor_id r.temperature s

pub data Op : Type 0 where
  put : Outcomes → Request → Op
  tick : AllOutcomes → Op

unfoldable pub step : FloatOps → Op → BatchStorage → BatchStorage
step ops (put out r) s = (insert ops out r s).0
step ops (tick out) s = (flush_all ops out s).0

pub run : FloatOps → List Op → BatchStorage → BatchStorage
run ops [] s = s
run ops (o ∷ os) s = run ops os (step ops o s)

-- The specification: one log for each table, which only inserts extend, at its end, with the columns
-- and the values of the sample.
pub record Logs : Type 0 where
  pub ptp4l : List Handed
  pub phc2sys : List Handed
  pub pps : List Handed
  pub network : List Handed
  pub cpu : List Handed
  pub memory : List Handed
  pub temperature : List Handed

abbrev pub logs : FloatOps → BatchStorage → Logs
logs ops s = record {
  ptp4l = accepted ptp4l_copy s.ptp4l;
  phc2sys = accepted phc2sys_copy s.phc2sys;
  pps = accepted pps_copy s.pps;
  network = accepted network_copy s.network;
  cpu = accepted cpu_copy s.cpu;
  memory = accepted (memory_copy ops) s.memory;
  temperature = accepted temperature_copy s.temperature;
}

-- A row that the statements of a copy hand on.
abbrev pub sent : {A : Type 0} → Copy A → List String → List Value → Handed
sent c columns values = record {
  insert_sql = c.insert_sql;
  temp_table = c.temp_table;
  columns = columns;
  values = values;
}

pub note : FloatOps → Logs → Op → Logs
note ops l (put out (ptp4l r)) = record l {
  ptp4l =
      l.ptp4l
      ++ sent ptp4l_copy ("time" ∷ "node_id" ∷ "offset_ns" ∷ "frequency" ∷ "path_delay" ∷ [])
          (time r.ts ∷ int r.node_id ∷ int r.offset_ns ∷ int r.frequency ∷ int r.path_delay ∷ [])
        ∷ [];
}
note ops l (put out (phc2sys r)) = record l {
  phc2sys =
      l.phc2sys
      ++ sent phc2sys_copy ("time" ∷ "node_id" ∷ "offset_ns" ∷ "frequency" ∷ "path_delay" ∷ [])
          (time r.ts ∷ int r.node_id ∷ int r.offset_ns ∷ int r.frequency ∷ int r.path_delay ∷ [])
        ∷ [];
}
note ops l (put out (pps r)) = record l {
  pps =
      l.pps
      ++ sent pps_copy ("time" ∷ "node_id" ∷ "offset_ns" ∷ [])
          (time r.ts ∷ int r.node_id ∷ int r.offset_ns ∷ [])
        ∷ [];
}
note ops l (put out (network r)) = record l {
  network =
      l.network
      ++ sent network_copy
          ("time" ∷ "node_id" ∷ "rx_packets" ∷ "tx_packets" ∷ "rx_dropped" ∷ "tx_dropped"
            ∷ "rx_errors" ∷ "tx_errors" ∷ "collisions" ∷ [])
          (time r.ts
            ∷ int r.node_id
            ∷ int r.rx_packets
            ∷ int r.tx_packets
            ∷ int r.rx_dropped
            ∷ int r.tx_dropped
            ∷ int r.rx_errors
            ∷ int r.tx_errors
            ∷ int r.collisions
            ∷ [])
        ∷ [];
}
note ops l (put out (cpu r)) = record l {
  cpu =
      l.cpu
      ++ sent cpu_copy
          ("time" ∷ "node_id" ∷ "usage_percent" ∷ "context_switches" ∷ "interrupts" ∷ "softirqs"
            ∷ [])
          (time r.ts
            ∷ int r.node_id
            ∷ float r.usage_percent
            ∷ int r.ctx_switches
            ∷ int r.interrupts
            ∷ int r.softirqs
            ∷ [])
        ∷ [];
}
note ops l (put out (memory r)) = record l {
  memory =
      l.memory
      ++ sent (memory_copy ops)
          ("time" ∷ "node_id" ∷ "mem_available_kb" ∷ "mem_free_kb" ∷ "swap_total_kb"
            ∷ "swap_free_kb" ∷ "buffers_kb" ∷ [])
          (time r.ts
            ∷ int r.node_id
            ∷ int (ops.to_int64 r.mem_available_kb)
            ∷ int r.mem_free_kb
            ∷ int r.swap_total_kb
            ∷ int r.swap_free_kb
            ∷ int r.buffers_kb
            ∷ [])
        ∷ [];
}
note ops l (put out (temperature r)) = record l {
  temperature =
      l.temperature
      ++ sent temperature_copy ("time" ∷ "sensor_id" ∷ "temperature" ∷ [])
          (time r.ts ∷ int r.sensor_id ∷ int r.temperature ∷ [])
        ∷ [];
}
note ops l (tick out) = l

pub note_all : FloatOps → Logs → List Op → Logs
note_all ops l [] = l
note_all ops l (o ∷ os) = note_all ops (note ops l o) os
