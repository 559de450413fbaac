-- ===== src/Storage/Batch/Inserts.antt =====
-- The seven inserts of `BatchPostgresStorage` in src/internal/storage/batch_pg.go: append the row under
-- the lock, and flush when the buffer has reached `maxSize`.
use timesync_analyzer.Common.{if◌then◌else◌, Option, none, String}
use timesync_analyzer.Common.Int.{ℤ}
use timesync_analyzer.Common.Float.{Float64, FloatOps}
use timesync_analyzer.Storage.Tx.{Outcomes}
use timesync_analyzer.Storage.Batch.{BatchStorage}
use timesync_analyzer.Storage.Batch.Buffer.{append, should_flush}
use timesync_analyzer.Storage.Batch.Flush.{
  flush_ptp4l, flush_phc2sys, flush_pps, flush_network, flush_cpu, flush_memory, flush_temperature,
}

unfoldable pub insert_ptp4l :
    Outcomes → ℤ → ℤ → ℤ → ℤ → ℤ → BatchStorage → BatchStorage × Option String
insert_ptp4l out ts node_id offset_ns frequency path_delay s =
    let b =
      append
        (record {
          ts = ts;
          node_id = node_id;
          offset_ns = offset_ns;
          frequency = frequency;
          path_delay = path_delay;
        })
        s.ptp4l in
    let s' = record s { ptp4l = b } in
    if should_flush s.max_size b then flush_ptp4l out s' else (s', none)

unfoldable pub insert_phc2sys :
    Outcomes → ℤ → ℤ → ℤ → ℤ → ℤ → BatchStorage → BatchStorage × Option String
insert_phc2sys out ts node_id offset_ns frequency path_delay s =
    let b =
      append
        (record {
          ts = ts;
          node_id = node_id;
          offset_ns = offset_ns;
          frequency = frequency;
          path_delay = path_delay;
        })
        s.phc2sys in
    let s' = record s { phc2sys = b } in
    if should_flush s.max_size b then flush_phc2sys out s' else (s', none)

unfoldable pub insert_pps : Outcomes → ℤ → ℤ → ℤ → BatchStorage → BatchStorage × Option String
insert_pps out ts node_id offset_ns s =
    let b = append (record { ts = ts; node_id = node_id; offset_ns = offset_ns }) s.pps in
    let s' = record s { pps = b } in
    if should_flush s.max_size b then flush_pps out s' else (s', none)

unfoldable pub insert_network :
    Outcomes → ℤ → ℤ → ℤ → ℤ → ℤ → ℤ → ℤ → ℤ → ℤ → BatchStorage → BatchStorage × Option String
insert_network out ts node_id rx_packets tx_packets rx_dropped tx_dropped rx_errors tx_errors
      collisions s =
    let b =
      append
        (record {
          ts = ts;
          node_id = node_id;
          rx_packets = rx_packets;
          tx_packets = tx_packets;
          rx_dropped = rx_dropped;
          tx_dropped = tx_dropped;
          rx_errors = rx_errors;
          tx_errors = tx_errors;
          collisions = collisions;
        })
        s.network in
    let s' = record s { network = b } in
    if should_flush s.max_size b then flush_network out s' else (s', none)

unfoldable pub insert_cpu :
    Outcomes → ℤ → ℤ → Float64 → ℤ → ℤ → ℤ → BatchStorage → BatchStorage × Option String
insert_cpu out ts node_id usage_percent ctx_switches interrupts softirqs s =
    let b =
      append
        (record {
          ts = ts;
          node_id = node_id;
          usage_percent = usage_percent;
          ctx_switches = ctx_switches;
          interrupts = interrupts;
          softirqs = softirqs;
        })
        s.cpu in
    let s' = record s { cpu = b } in
    if should_flush s.max_size b then flush_cpu out s' else (s', none)

unfoldable pub insert_memory :
    FloatOps
    → Outcomes
    → ℤ
    → ℤ
    → Float64
    → ℤ
    → ℤ
    → ℤ
    → ℤ
    → BatchStorage
    → BatchStorage × Option String
insert_memory ops out ts node_id mem_available_kb mem_free_kb swap_total_kb swap_free_kb buffers_kb
      s =
    let b =
      append
        (record {
          ts = ts;
          node_id = node_id;
          mem_available_kb = mem_available_kb;
          mem_free_kb = mem_free_kb;
          swap_total_kb = swap_total_kb;
          swap_free_kb = swap_free_kb;
          buffers_kb = buffers_kb;
        })
        s.memory in
    let s' = record s { memory = b } in
    if should_flush s.max_size b then flush_memory ops out s' else (s', none)

unfoldable pub insert_temperature :
    Outcomes → ℤ → ℤ → ℤ → BatchStorage → BatchStorage × Option String
insert_temperature out ts sensor_id temperature s =
    let b =
      append (record { ts = ts; sensor_id = sensor_id; temperature = temperature }) s.temperature in
    let s' = record s { temperature = b } in
    if should_flush s.max_size b then flush_temperature out s' else (s', none)
