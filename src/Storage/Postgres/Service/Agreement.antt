-- ===== src/Storage/Postgres/Service/Agreement.antt =====
-- The handlers of src/internal/app/app.go on the storage of src/internal/storage/postgres.go.
use timesync_analyzer.Common.{List, [], ◌≡◌, sym, subst, Bool, Option, some, inl, inr}
use timesync_analyzer.Common.Int.{ℤ}
use timesync_analyzer.Common.Float.{Float64}
use timesync_analyzer.Common.Text.{Text}
use timesync_analyzer.App.Handlers.Messages.{Call, World, MetricsWrapper, PtpTopologySnapshot}
use timesync_analyzer.App.Handlers.Messages
use timesync_analyzer.App.Handlers.{handle_all}
use timesync_analyzer.App.Handlers.Preserves.{handle_all-kept}
use timesync_analyzer.Storage.Postgres.{Statement, Database, SensorKey, PostgresStorage}
use timesync_analyzer.Storage.Postgres.Caches.{
  new_postgres_storage, resolve_node_id, resolve_sensor_id,
}
use timesync_analyzer.Storage.Postgres.Caches.Numbers.{
  Key, node_row, sensor_row, NumberLaws, Coherent, Keeps, Keeps-Coherent,
}
use timesync_analyzer.Storage.Postgres.Caches.Coherent.{
  touch_node-Coherent, insert_node-Coherent, update_node_info-Coherent, resolve_sensor_id-Coherent,
  new_postgres_storage-Coherent, resolve_sensor_id-number,
}
use timesync_analyzer.Storage.Postgres.Inserts.{
  execute, insert_ptp4l, insert_ptp4l_port_event, insert_pps, insert_phc2sys, insert_network,
  insert_cpu, insert_memory, insert_temperature,
}
use timesync_analyzer.Storage.Postgres.Topology.{insert_ptp_topology_snapshot}
use timesync_analyzer.Storage.Postgres.Topology.Atomic.{
  TxLaws, Outcome, insert_ptp_topology_snapshot-atomic,
}
use timesync_analyzer.Storage.Postgres.Service.{perform, sensor_key, postgres_backend}

module _ {D T : Type 0} (db : Database D T) (clock : PostgresStorage D → ℤ) (base : T → D)
    (number_of : D → Key → Option ℤ) (tx_laws : TxLaws db base)
    (laws : NumberLaws db base number_of) where
  execute-Coherent :
      (st : Statement) {s : PostgresStorage D}
      → Coherent number_of s
      → Coherent number_of (execute db st s).1
  unfolding execute
  execute-Coherent st {s} c =
      Keeps-Coherent number_of c (db.exec st s.pool).1 (λ k id. laws.exec_keeps st s.pool k)

  topology-Keeps :
      (ts node_id : ℤ) (snapshot : PtpTopologySnapshot) (pool : D) (r : Bool × D)
      → Outcome db base tx_laws ts node_id snapshot pool r
      → Keeps number_of pool r.1
  topology-Keeps ts node_id snapshot pool r (inl (failed, same, why)) k id h = rw same h
  topology-Keeps ts node_id snapshot pool r (inr (tx, after, began, written, same, committed)) k id
        h =
      rw (← committed) (laws.commit_keeps after k (rw same h))

  topology-Coherent :
      (ts node_id : ℤ) (snapshot : PtpTopologySnapshot) {s : PostgresStorage D}
      → Coherent number_of s
      → Coherent number_of (insert_ptp_topology_snapshot db ts node_id snapshot s).1
  topology-Coherent ts node_id snapshot {s} c =
      let (outcome, caches) =
        insert_ptp_topology_snapshot-atomic db base tx_laws ts node_id snapshot s in
      subst (Coherent number_of) (sym caches)
        (Keeps-Coherent number_of c _ (topology-Keeps ts node_id snapshot s.pool _ outcome))

  perform-Coherent :
      (s : PostgresStorage D) (c : Call)
      → Coherent number_of s
      → Coherent number_of (perform db clock s c).1
  unfolding perform insert_ptp4l insert_phc2sys insert_pps insert_network insert_cpu insert_memory
      insert_temperature insert_ptp4l_port_event
  perform-Coherent s (Messages.resolve_sensor_id node_id sensor label) c =
      resolve_sensor_id-Coherent db base number_of laws (sensor_key db clock node_id sensor label) c
  perform-Coherent s (Messages.insert_ptp4l ts node_id offset_ns frequency path_delay) c =
      execute-Coherent _ c
  perform-Coherent s (Messages.insert_phc2sys ts node_id offset_ns frequency path_delay) c =
      execute-Coherent _ c
  perform-Coherent s (Messages.insert_pps ts node_id offset_ns) c = execute-Coherent _ c
  perform-Coherent s (Messages.insert_network ts node_id net) c = execute-Coherent _ c
  perform-Coherent s (Messages.insert_cpu ts node_id cpu) c = execute-Coherent _ c
  perform-Coherent s
        (Messages.insert_memory ts node_id available mem_free swap_total swap_free buffers) c =
      execute-Coherent _ c
  perform-Coherent s (Messages.insert_temperature ts sensor_id temperature) c = execute-Coherent _ c
  perform-Coherent s (Messages.update_node_info hostname role net_interface adapter_name) c =
      update_node_info-Coherent db base number_of laws hostname role net_interface adapter_name c
  perform-Coherent s (Messages.insert_node hostname) c =
      insert_node-Coherent db base number_of laws (clock s) hostname c
  perform-Coherent s
        (Messages.insert_port_event ts node_id port_num port_name from_state to_state event_trigger)
        c =
      execute-Coherent _ c
  perform-Coherent s (Messages.insert_topology ts node_id snapshot) c =
      topology-Coherent ts node_id snapshot c
  perform-Coherent s (Messages.touch_node node_id) c =
      touch_node-Coherent db base number_of laws (clock s) node_id c

  -- Of a storage that was opened and then worked any messages off, both caches only answer with what
  -- the tables hold: a host name is resolved to the number of its row, and a sensor too, whether it was
  -- cached or asked for.
  pub handle_all-agrees :
      (to_float64 : ℤ → Float64) (pool : Option D) (pinged : Bool) {s : PostgresStorage D}
      (wrappers : List MetricsWrapper)
      → new_postgres_storage db pool pinged ≡ some s
      → ((hostname : Text) (id : ℤ)
          → resolve_node_id db
              (handle_all
                (postgres_backend db clock)
                to_float64
                wrappers
                (record { store = s; calls = [] })).store
              hostname
            ≡ some id
          → number_of
              (handle_all
                (postgres_backend db clock)
                to_float64
                wrappers
                (record { store = s; calls = [] })).store.pool
              (node_row hostname)
            ≡ some id)
        × ((key : SensorKey) (id : ℤ)
            → (resolve_sensor_id db key
                (handle_all
                  (postgres_backend db clock)
                  to_float64
                  wrappers
                  (record { store = s; calls = [] })).store).0
              ≡ some id
            → number_of
                (resolve_sensor_id db key
                  (handle_all
                    (postgres_backend db clock)
                    to_float64
                    wrappers
                    (record { store = s; calls = [] })).store).1.pool
                (sensor_row key)
              ≡ some id)
  unfolding resolve_node_id
  handle_all-agrees to_float64 pool pinged {s} wrappers opened =
      let c =
        handle_all-kept (postgres_backend db clock) (Coherent number_of) perform-Coherent to_float64
          wrappers (record { store = s; calls = [] })
          (new_postgres_storage-Coherent db base number_of laws pool pinged s opened) in
      (c.nodes, λ key id. resolve_sensor_id-number db base number_of laws key _ id c)
