-- ===== src/App/Handlers.antt =====
-- The handlers of src/internal/app/app.go: one message becomes calls on the storage. Logging is left
-- out: an error that a handler logs and goes on from is ignored here.
pub mod Messages
pub mod Trace
pub mod Isolation
pub mod Preserves
use timesync_analyzer.Common.{
  List, [], ◌∷◌, Bool, true, false, not, Option, none, some, if◌then◌else◌,
}
use timesync_analyzer.Common.Int.{ℤ, wrap64}
use timesync_analyzer.Common.Float.{Float64}
use timesync_analyzer.Common.Text.{Text, text, contains, to_lower}
use timesync_analyzer.App.Handlers.Messages.{
  MessageType, ClockMetrics, PortEvent, NetworkStats, CpuStats, MemoryStats, Reading, SystemMetrics,
  PtpTopologySnapshot, MetricsWrapper, Call, Backend, World, phc2sys, ptp4l, system, pps,
  ptp4l_port_event, ptp_topology, other, resolve_sensor_id, insert_ptp4l, insert_phc2sys,
  insert_pps, insert_network, insert_cpu, insert_memory, insert_temperature, update_node_info,
  insert_node, insert_port_event, insert_topology, touch_node,
}

module _ {S : Type 0} (b : Backend S) where
  -- A call whose error the handler only logs.
  pub call : Call → World S → World S
  call c w = record { store = (b.perform w.store c).1; calls = c ∷ w.calls }

  -- The second lookup, if the insertion gave no error. `none` is an error.
  pub second_lookup : Text → Bool → S → Option ℤ
  second_lookup hostname true store = b.resolve_node_id store hostname
  second_lookup hostname false store = none

  -- What follows the answer of the first lookup.
  pub or_insert_node : Text → World S → Option ℤ → Option ℤ × World S
  or_insert_node hostname w (some node_id) = (some node_id, w)
  or_insert_node hostname w none =
      let (ok, store) = b.perform w.store (insert_node hostname) in
      (
        second_lookup hostname ok store,
        record { store = store; calls = insert_node hostname ∷ w.calls },
      )

  -- `resolveOrInsertNode`
  pub resolve_or_insert_node : Text → World S → Option ℤ × World S
  resolve_or_insert_node hostname w = or_insert_node hostname w (b.resolve_node_id w.store hostname)

  -- The rest of a handler, once its node is known.
  pub touched : (ℤ → World S → World S) → Option ℤ × World S → World S
  touched rest (none, w) = w
  touched rest (some node_id, w) = rest node_id (call (touch_node node_id) w)

  -- The start that all handlers share: a nil message, the node, and `TouchNode`.
  pub with_node : {M : Type 0} → Text → Option M → (M → ℤ → World S → World S) → World S → World S
  with_node node none rest w = w
  with_node node (some m) rest w = touched (rest m) (resolve_or_insert_node node w)

  pub write_port_event : Text → ℤ → PortEvent → ℤ → World S → World S
  write_port_event node ts m node_id w =
      let known =
        if contains m.interface (text "/")
        then w
        else call (update_node_info node (to_lower m.to_state) m.interface m.adapter_name) w in
      call (insert_port_event ts node_id m.port m.interface m.from_state m.to_state m.event_trigger)
        known

  pub handle_ptp4l_port_event : Text → ℤ → Option PortEvent → World S → World S
  handle_ptp4l_port_event node ts m = with_node node m (write_port_event node ts)

  pub handle_ptp_topology : Text → ℤ → Option PtpTopologySnapshot → World S → World S
  handle_ptp_topology node ts m =
      with_node node m (λ s node_id. call (insert_topology ts node_id s))

  pub handle_ptp4l : Text → ℤ → Option ClockMetrics → World S → World S
  handle_ptp4l node ts m =
      with_node node m
        (λ c node_id. call (insert_ptp4l ts node_id c.offset_ns c.frequency c.path_delay))

  pub handle_pps : Text → ℤ → Option ℤ → World S → World S
  handle_pps node ts m =
      with_node node m (λ offset_ns node_id. call (insert_pps ts node_id offset_ns))

  pub handle_phc2sys : Text → ℤ → Option ClockMetrics → World S → World S
  handle_phc2sys node ts m =
      with_node node m
        (λ c node_id. call (insert_phc2sys ts node_id c.offset_ns c.frequency c.path_delay))

  -- One round of the loop over the readings, with the answer of `ResolveSensorID`.
  pub write_reading : ℤ → Reading → Option ℤ → World S → World S
  write_reading ts r none w = w
  write_reading ts r (some sensor_id) w = call (insert_temperature ts sensor_id r.temperature) w

  pub write_readings : ℤ → ℤ → List Reading → World S → World S
  write_readings ts node_id [] w = w
  write_readings ts node_id (r ∷ readings) w = write_readings ts node_id readings (
      write_reading ts r (b.sensor_id w.store node_id r.sensor r.label)
        (call (resolve_sensor_id node_id r.sensor r.label) w))

  pub write_temperature : ℤ → ℤ → Option (List Reading) → World S → World S
  write_temperature ts node_id none w = w
  write_temperature ts node_id (some readings) w = write_readings ts node_id readings w

  -- `if m != nil { ... }` around one call.
  pub if_present : {M : Type 0} → Option M → (M → Call) → World S → World S
  if_present none f w = w
  if_present (some m) f w = call (f m) w

  -- `int64(net.RxPackets)` and so on.
  pub network_call : ℤ → ℤ → NetworkStats → Call
  network_call ts node_id net = insert_network ts node_id (record {
    rx_packets = wrap64 net.rx_packets;
    tx_packets = wrap64 net.tx_packets;
    rx_dropped = wrap64 net.rx_dropped;
    tx_dropped = wrap64 net.tx_dropped;
    rx_errors = wrap64 net.rx_errors;
    tx_errors = wrap64 net.tx_errors;
    collisions = wrap64 net.collisions;
  })

  pub cpu_call : ℤ → ℤ → CpuStats → Call
  cpu_call ts node_id cpu = insert_cpu ts node_id (record {
    usage_percent = cpu.usage_percent;
    context_switches = wrap64 cpu.context_switches;
    interrupts = wrap64 cpu.interrupts;
    softirqs = wrap64 cpu.softirqs;
  })

  -- `float64` of a counter, whose type is generated, is a parameter.
  module _ (to_float64 : ℤ → Float64) where
    pub memory_call : ℤ → ℤ → MemoryStats → Call
    memory_call ts node_id mem =
        insert_memory ts node_id (to_float64 mem.mem_available_kb) (wrap64 mem.mem_free_kb)
          (wrap64 mem.swap_total_kb) (wrap64 mem.swap_free_kb) (wrap64 mem.buffers_kb)

    pub write_system : ℤ → SystemMetrics → ℤ → World S → World S
    write_system ts m node_id w = write_temperature ts node_id m.temperature_stats (
        if_present m.memory_stats (memory_call ts node_id) (
          if_present m.cpu_stats (cpu_call ts node_id)
            (if_present m.network_stats (network_call ts node_id) w)))

    pub handle_system : Text → ℤ → Option SystemMetrics → World S → World S
    handle_system node ts m = with_node node m (write_system ts)

    pub dispatch : MessageType → MetricsWrapper → World S → World S
    dispatch phc2sys wrapper w =
        handle_phc2sys wrapper.node_name wrapper.timestamp wrapper.get_phc2sys w
    dispatch ptp4l wrapper w = handle_ptp4l wrapper.node_name wrapper.timestamp wrapper.get_ptp4l w
    dispatch system wrapper w =
        handle_system wrapper.node_name wrapper.timestamp wrapper.get_system w
    dispatch pps wrapper w = handle_pps wrapper.node_name wrapper.timestamp wrapper.get_pps w
    dispatch ptp4l_port_event wrapper w =
        handle_ptp4l_port_event wrapper.node_name wrapper.timestamp wrapper.get_port_event w
    dispatch ptp_topology wrapper w =
        handle_ptp_topology wrapper.node_name wrapper.timestamp wrapper.get_topology w
    dispatch (other kind) wrapper w = w

    pub handle_msg : MetricsWrapper → World S → World S
    handle_msg wrapper w = dispatch wrapper.message_type wrapper w

    -- The messages of the queue, one after the other: the loop of `Run` in one worker.
    pub handle_all : List MetricsWrapper → World S → World S
    handle_all [] w = w
    handle_all (wrapper ∷ wrappers) w = handle_all wrappers (handle_msg wrapper w)
