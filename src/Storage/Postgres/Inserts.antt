-- ===== src/Storage/Postgres/Inserts.antt =====
-- The direct inserts of src/internal/storage/postgres.go.
use timesync_analyzer.Common.{Bool}
use timesync_analyzer.Common.Int.{ℤ}
use timesync_analyzer.Common.Float.{Float64}
use timesync_analyzer.Common.Text.{Text}
use timesync_analyzer.Storage.Postgres.{
  Statement, Database, PostgresStorage, insert_into_ptp4l_metrics, insert_into_ptp4l_port_events,
  insert_into_pps_metrics, insert_into_phc2sys_metrics, insert_into_network_metrics,
  insert_into_cpu_metrics, insert_into_memory_metrics, insert_into_temperature_metrics,
  insert_into_quality_metrics,
}

module _ {D T : Type 0} (db : Database D T) where
  -- One `Exec` on the pool.
  unfoldable pub execute : Statement → PostgresStorage D → Bool × PostgresStorage D
  execute statement s = let (ok, pool) = db.exec statement s.pool in (ok, record s { pool = pool })

  unfoldable pub insert_ptp4l :
      (ts node_id offset_ns frequency path_delay : ℤ) → PostgresStorage D → Bool × PostgresStorage D
  insert_ptp4l ts node_id offset_ns frequency path_delay = execute (
      insert_into_ptp4l_metrics (record {
        ts = ts;
        node_id = node_id;
        offset_ns = offset_ns;
        frequency = frequency;
        path_delay = path_delay;
      }))

  unfoldable pub insert_ptp4l_port_event :
      (ts node_id port_num : ℤ) (port_name from_state to_state event_trigger : Text)
      → PostgresStorage D
      → Bool × PostgresStorage D
  insert_ptp4l_port_event ts node_id port_num port_name from_state to_state event_trigger =
      execute (
        insert_into_ptp4l_port_events ts node_id port_num port_name from_state to_state
          event_trigger)

  unfoldable pub insert_pps :
      (ts node_id offset_ns : ℤ) → PostgresStorage D → Bool × PostgresStorage D
  insert_pps ts node_id offset_ns =
      execute
        (insert_into_pps_metrics (record { ts = ts; node_id = node_id; offset_ns = offset_ns }))

  unfoldable pub insert_phc2sys :
      (ts node_id offset_ns frequency path_delay : ℤ) → PostgresStorage D → Bool × PostgresStorage D
  insert_phc2sys ts node_id offset_ns frequency path_delay = execute (
      insert_into_phc2sys_metrics (record {
        ts = ts;
        node_id = node_id;
        offset_ns = offset_ns;
        frequency = frequency;
        path_delay = path_delay;
      }))

  unfoldable pub insert_network :
      (ts node_id rx_packets tx_packets rx_dropped tx_dropped rx_errors tx_errors collisions : ℤ)
      → PostgresStorage D
      → Bool × PostgresStorage D
  insert_network ts node_id rx_packets tx_packets rx_dropped tx_dropped rx_errors tx_errors
        collisions =
      execute (
        insert_into_network_metrics (record {
          ts = ts;
          node_id = node_id;
          rx_packets = rx_packets;
          tx_packets = tx_packets;
          rx_dropped = rx_dropped;
          tx_dropped = tx_dropped;
          rx_errors = rx_errors;
          tx_errors = tx_errors;
          collisions = collisions;
        }))

  unfoldable pub insert_cpu :
      (ts node_id : ℤ) (usage_percent : Float64) (ctx_switches interrupts softirqs : ℤ)
      → PostgresStorage D
      → Bool × PostgresStorage D
  insert_cpu ts node_id usage_percent ctx_switches interrupts softirqs = execute (
      insert_into_cpu_metrics (record {
        ts = ts;
        node_id = node_id;
        usage_percent = usage_percent;
        ctx_switches = ctx_switches;
        interrupts = interrupts;
        softirqs = softirqs;
      }))

  unfoldable pub insert_memory :
      (ts node_id : ℤ) (mem_available_kb : Float64)
      (mem_free_kb swap_total_kb swap_free_kb buffers_kb : ℤ)
      → PostgresStorage D
      → Bool × PostgresStorage D
  insert_memory ts node_id mem_available_kb mem_free_kb swap_total_kb swap_free_kb buffers_kb =
      execute (
        insert_into_memory_metrics (record {
          ts = ts;
          node_id = node_id;
          mem_available_kb = mem_available_kb;
          mem_free_kb = mem_free_kb;
          swap_total_kb = swap_total_kb;
          swap_free_kb = swap_free_kb;
          buffers_kb = buffers_kb;
        }))

  unfoldable pub insert_temperature :
      (ts sensor_id temperature : ℤ) → PostgresStorage D → Bool × PostgresStorage D
  insert_temperature ts sensor_id temperature = execute (
      insert_into_temperature_metrics
        (record { ts = ts; sensor_id = sensor_id; temperature = temperature }))

  unfoldable pub insert_slide_metrics :
      (protocol : Text) (ts node_id window_size mtie : ℤ) (tdev adev : Float64)
      → PostgresStorage D
      → Bool × PostgresStorage D
  insert_slide_metrics protocol ts node_id window_size mtie tdev adev =
      execute (insert_into_quality_metrics ts protocol node_id window_size mtie tdev adev)
