-- ===== src/App/Handlers/Preserves.antt =====
-- What every call on the storage keeps, a message that a handler of src/internal/app/app.go works off
-- keeps.
use timesync_analyzer.Common.{List, [], ◌∷◌, Option, none, some, Bool-cases, inl, inr}
use timesync_analyzer.Common.Int.{ℤ}
use timesync_analyzer.Common.Float.{Float64}
use timesync_analyzer.Common.Text.{Text, text, contains}
use timesync_analyzer.App.Handlers.Messages.{
  MessageType, Reading, SystemMetrics, PortEvent, MetricsWrapper, Call, Backend, World, phc2sys,
  ptp4l, system, pps, ptp4l_port_event, ptp_topology, other, insert_node, touch_node,
}
use timesync_analyzer.App.Handlers.{
  call, or_insert_node, resolve_or_insert_node, touched, with_node, write_port_event,
  handle_ptp4l_port_event, handle_ptp_topology, handle_ptp4l, handle_pps, handle_phc2sys,
  write_reading, write_readings, write_temperature, if_present, write_system, handle_system,
  dispatch, handle_msg, handle_all,
}

module _ {S : Type 0} (b : Backend S) (P : S → Type 0)
    (kept : (s : S) (c : Call) → P s → P (b.perform s c).1) where
  call-kept : (c : Call) (w : World S) → P w.store → P (call b c w).store
  unfolding call
  call-kept c w p = kept w.store c p

  or_insert_node-kept :
      (host : Text) (w : World S) (found : Option ℤ)
      → P w.store
      → P (or_insert_node b host w found).1.store
  unfolding or_insert_node
  or_insert_node-kept host w (some n) p = p
  or_insert_node-kept host w none p = kept w.store (insert_node host) p

  touched-kept :
      (rest : ℤ → World S → World S) (r : Option ℤ × World S)
      → ((n : ℤ) (w : World S) → P w.store → P (rest n w).store)
      → P r.1.store
      → P (touched b rest r).store
  unfolding touched
  touched-kept rest (none, w) h p = p
  touched-kept rest (some n, w) h p = h n _ (call-kept (touch_node n) w p)

  with_node-kept :
      {M : Type 0} (host : Text) (m : Option M) (rest : M → ℤ → World S → World S) (w : World S)
      → ((m : M) (n : ℤ) (w : World S) → P w.store → P (rest m n w).store)
      → P w.store
      → P (with_node b host m rest w).store
  unfolding with_node resolve_or_insert_node
  with_node-kept host none rest w h p = p
  with_node-kept host (some m) rest w h p =
      touched-kept (rest m) _ (h m) (or_insert_node-kept host w (b.resolve_node_id w.store host) p)

  write_reading-kept :
      (ts : ℤ) (r : Reading) (found : Option ℤ) (w : World S)
      → P w.store
      → P (write_reading b ts r found w).store
  unfolding write_reading
  write_reading-kept ts r none w p = p
  write_reading-kept ts r (some n) w p = call-kept _ w p

  write_readings-kept :
      (ts node_id : ℤ) (readings : List Reading) (w : World S)
      → P w.store
      → P (write_readings b ts node_id readings w).store
  unfolding write_readings
  write_readings-kept ts node_id [] w p = p
  write_readings-kept ts node_id (r ∷ readings) w p =
      write_readings-kept ts node_id readings _ (write_reading-kept ts r _ _ (call-kept _ w p))

  write_temperature-kept :
      (ts node_id : ℤ) (m : Option (List Reading)) (w : World S)
      → P w.store
      → P (write_temperature b ts node_id m w).store
  unfolding write_temperature
  write_temperature-kept ts node_id none w p = p
  write_temperature-kept ts node_id (some readings) w p =
      write_readings-kept ts node_id readings w p

  if_present-kept :
      {M : Type 0} (m : Option M) (f : M → Call) (w : World S)
      → P w.store
      → P (if_present b m f w).store
  unfolding if_present
  if_present-kept none f w p = p
  if_present-kept (some m) f w p = call-kept (f m) w p

  write_port_event-kept :
      (host : Text) (ts : ℤ) (m : PortEvent) (n : ℤ) (w : World S)
      → P w.store
      → P (write_port_event b host ts m n w).store
  unfolding write_port_event
  write_port_event-kept host ts m n w p = elim (Bool-cases (contains m.interface (text "/"))) [
    | inl slash ↦ rw slash (call-kept _ w p)
    | inr plain ↦ rw plain (call-kept _ _ (call-kept _ w p))
  ]

  module _ (to_float64 : ℤ → Float64) where
    write_system-kept :
        (ts : ℤ) (m : SystemMetrics) (n : ℤ) (w : World S)
        → P w.store
        → P (write_system b to_float64 ts m n w).store
    unfolding write_system
    write_system-kept ts m n w p = write_temperature-kept ts n m.temperature_stats _ (
        if_present-kept m.memory_stats _ _
          (if_present-kept m.cpu_stats _ _ (if_present-kept m.network_stats _ w p)))

    dispatch-kept :
        (kind : MessageType) (wrapper : MetricsWrapper) (w : World S)
        → P w.store
        → P (dispatch b to_float64 kind wrapper w).store
    unfolding dispatch handle_ptp4l_port_event handle_ptp_topology handle_ptp4l handle_pps
        handle_phc2sys handle_system
    dispatch-kept phc2sys wrapper w p =
        with_node-kept wrapper.node_name wrapper.get_phc2sys _ w (λ m n v. call-kept _ v) p
    dispatch-kept ptp4l wrapper w p =
        with_node-kept wrapper.node_name wrapper.get_ptp4l _ w (λ m n v. call-kept _ v) p
    dispatch-kept system wrapper w p =
        with_node-kept wrapper.node_name wrapper.get_system _ w
          (write_system-kept wrapper.timestamp) p
    dispatch-kept pps wrapper w p =
        with_node-kept wrapper.node_name wrapper.get_pps _ w (λ m n v. call-kept _ v) p
    dispatch-kept ptp4l_port_event wrapper w p =
        with_node-kept wrapper.node_name wrapper.get_port_event _ w
          (write_port_event-kept wrapper.node_name wrapper.timestamp) p
    dispatch-kept ptp_topology wrapper w p =
        with_node-kept wrapper.node_name wrapper.get_topology _ w (λ m n v. call-kept _ v) p
    dispatch-kept (other kind) wrapper w p = p

    pub handle_msg-kept :
        (wrapper : MetricsWrapper) (w : World S)
        → P w.store
        → P (handle_msg b to_float64 wrapper w).store
    unfolding handle_msg
    handle_msg-kept wrapper w p = dispatch-kept wrapper.message_type wrapper w p

    pub handle_all-kept :
        (wrappers : List MetricsWrapper) (w : World S)
        → P w.store
        → P (handle_all b to_float64 wrappers w).store
    unfolding handle_all
    handle_all-kept [] w p = p
    handle_all-kept (wrapper ∷ wrappers) w p =
        handle_all-kept wrappers _ (handle_msg-kept wrapper w p)
