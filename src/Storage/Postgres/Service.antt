-- ===== src/Storage/Postgres/Service.antt =====
-- `PostgresStorage` of src/internal/storage/postgres.go behind the interface `Storage` of
-- src/internal/storage/storage.go, as far as the handlers of src/internal/app/app.go call it.
pub mod Agreement
use timesync_analyzer.Common.{Bool, true, false, Option, none, some}
use timesync_analyzer.Common.Int.{ℤ}
use timesync_analyzer.Common.Text.{Text}
use timesync_analyzer.App.Handlers.Messages.{Call, Backend}
use timesync_analyzer.App.Handlers.Messages
use timesync_analyzer.Storage.Postgres.{Database, SensorKey, PostgresStorage}
use timesync_analyzer.Storage.Postgres.Caches.{
  touch_node, insert_node, update_node_info, resolve_node_id, resolve_sensor_id,
}
use timesync_analyzer.Storage.Postgres.Inserts.{
  insert_ptp4l, insert_ptp4l_port_event, insert_pps, insert_phc2sys, insert_network, insert_cpu,
  insert_memory, insert_temperature,
}
use timesync_analyzer.Storage.Postgres.Topology.{insert_ptp_topology_snapshot}

unfoldable pub is_some : {A : Type 0} → Option A → Bool
is_some none = false
is_some (some a) = true

-- `clock` is what `time.Now` gives a call.
module _ {D T : Type 0} (db : Database D T) (clock : PostgresStorage D → ℤ) where
  abbrev pub sensor_key : (node_id : ℤ) (sensor label : Text) → SensorKey
  sensor_key node_id sensor label = record { node_id = node_id; sensor = sensor; label = label }

  pub perform : PostgresStorage D → Call → Bool × PostgresStorage D
  perform s (Messages.resolve_sensor_id node_id sensor label) =
      let (answer, s') = resolve_sensor_id db (sensor_key node_id sensor label) s in
      (is_some answer, s')
  perform s (Messages.insert_ptp4l ts node_id offset_ns frequency path_delay) =
      insert_ptp4l db ts node_id offset_ns frequency path_delay s
  perform s (Messages.insert_phc2sys ts node_id offset_ns frequency path_delay) =
      insert_phc2sys db ts node_id offset_ns frequency path_delay s
  perform s (Messages.insert_pps ts node_id offset_ns) = insert_pps db ts node_id offset_ns s
  perform s (Messages.insert_network ts node_id net) =
      insert_network db ts node_id net.rx_packets net.tx_packets net.rx_dropped net.tx_dropped
        net.rx_errors net.tx_errors net.collisions s
  perform s (Messages.insert_cpu ts node_id cpu) =
      insert_cpu db ts node_id cpu.usage_percent cpu.context_switches cpu.interrupts cpu.softirqs s
  perform s (Messages.insert_memory ts node_id available mem_free swap_total swap_free buffers) =
      insert_memory db ts node_id available mem_free swap_total swap_free buffers s
  perform s (Messages.insert_temperature ts sensor_id temperature) =
      insert_temperature db ts sensor_id temperature s
  perform s (Messages.update_node_info hostname role net_interface adapter_name) =
      update_node_info db hostname role net_interface adapter_name s
  perform s (Messages.insert_node hostname) = insert_node db (clock s) hostname s
  perform s
        (Messages.insert_port_event ts node_id port_num port_name from_state to_state
          event_trigger) =
      insert_ptp4l_port_event db ts node_id port_num port_name from_state to_state event_trigger s
  perform s (Messages.insert_topology ts node_id snapshot) =
      insert_ptp_topology_snapshot db ts node_id snapshot s
  perform s (Messages.touch_node node_id) = (true, touch_node db (clock s) node_id s)

  abbrev pub postgres_backend : Backend (PostgresStorage D)
  postgres_backend = record {
    resolve_node_id = resolve_node_id db;
    sensor_id =
        λ s node_id sensor label. (resolve_sensor_id db (sensor_key node_id sensor label) s).0;
    perform = perform;
  }
