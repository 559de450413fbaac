-- ===== src/App/Handlers/Trace.antt =====
-- What the handlers of src/internal/app/app.go write, whatever the storage answers.
use timesync_analyzer.Common.{
  List, [], ◌∷◌, ◌++◌, Bool, true, false, Option, none, some, All, All-append, ◌≡◌, refl, sym, ap,
  ◌∙◌, Bool-cases, inl, inr,
}
use mathlib.Core.List.{append_assoc}
use timesync_analyzer.Common.Int.{ℤ}
use timesync_analyzer.Common.Float.{Float64}
use timesync_analyzer.Common.Text.{Text, text, contains, to_lower}
use timesync_analyzer.App.Handlers.Messages.{
  MessageType, PortEvent, Reading, SystemMetrics, MetricsWrapper, Call, Backend, World, phc2sys,
  ptp4l, system, pps, ptp4l_port_event, ptp_topology, other, resolve_sensor_id, insert_ptp4l,
  insert_phc2sys, insert_pps, insert_network, insert_cpu, insert_memory, insert_temperature,
  update_node_info, insert_node, insert_port_event, insert_topology, touch_node,
}
use timesync_analyzer.App.Handlers.{
  call, second_lookup, or_insert_node, resolve_or_insert_node, touched, with_node, write_port_event,
  handle_ptp4l_port_event, handle_ptp_topology, handle_ptp4l, handle_pps, handle_phc2sys,
  write_reading, write_readings, write_temperature, if_present, network_call, cpu_call, memory_call,
  write_system, handle_system, dispatch, handle_msg,
}

module _ {S : Type 0} (b : Backend S) where
  -- A call that writes for one node, its host name and one time only; a temperature goes to a sensor
  -- that the storage named for this node.
  abbrev pub IsWrite : Text → ℤ → ℤ → Call → Type 0
  IsWrite host ts node_id (resolve_sensor_id n sensor label) = n ≡ node_id
  IsWrite host ts node_id (insert_ptp4l t n o f d) = (t ≡ ts) × (n ≡ node_id)
  IsWrite host ts node_id (insert_phc2sys t n o f d) = (t ≡ ts) × (n ≡ node_id)
  IsWrite host ts node_id (insert_pps t n o) = (t ≡ ts) × (n ≡ node_id)
  IsWrite host ts node_id (insert_network t n m) = (t ≡ ts) × (n ≡ node_id)
  IsWrite host ts node_id (insert_cpu t n m) = (t ≡ ts) × (n ≡ node_id)
  IsWrite host ts node_id (insert_memory t n a f st sf c) = (t ≡ ts) × (n ≡ node_id)
  IsWrite host ts node_id (insert_temperature t s v) =
      (t ≡ ts)
      × (store : S) × (sensor : Text) × (label : Text) × (b.sensor_id store node_id sensor label
          ≡ some s)
  IsWrite host ts node_id (update_node_info h r i a) = h ≡ host
  IsWrite host ts node_id (insert_node h) = ⊥
  IsWrite host ts node_id (insert_port_event t n p i f s e) = (t ≡ ts) × (n ≡ node_id)
  IsWrite host ts node_id (insert_topology t n s) = (t ≡ ts) × (n ≡ node_id)
  IsWrite host ts node_id (touch_node n) = ⊥

  -- How the world looks after the start of a handler: as before, or with one `InsertNode`.
  pub data Begun (host : Text) (before : World S) : World S → Type 0 where
    known : Begun host before before
    inserted :
        b.resolve_node_id before.store host ≡ none
        → Begun host before (record {
          store = (b.perform before.store (insert_node host)).1;
          calls = insert_node host ∷ before.calls;
        })

  -- What one message may do to the storage.
  pub data Handled (host : Text) (ts : ℤ) (before after : World S) : Type 0 where
    dropped : Begun host before after → Handled host ts before after
    written :
        (node_id : ℤ) (start : World S) (writes : List Call)
        → Begun host before start
        → b.resolve_node_id start.store host ≡ some node_id
        → All (IsWrite host ts node_id) writes
        → after.calls ≡ writes ++ touch_node node_id ∷ start.calls
        → Handled host ts before after

  second_lookup-eq :
      (host : Text) (ok : Bool) (store : S) (node_id : ℤ)
      → second_lookup b host ok store ≡ some node_id
      → b.resolve_node_id store host ≡ some node_id
  unfolding second_lookup
  second_lookup-eq host true store node_id e = e
  second_lookup-eq host false store node_id e = cc

  -- The world that a resolved node comes with, and that its host name is known there.
  abbrev Resolves : Text → World S → Option ℤ × World S → Type 0
  Resolves host w (found, after) =
      Begun host w after
      × ((node_id : ℤ) → found ≡ some node_id → b.resolve_node_id after.store host ≡ some node_id)

  or_insert_node-Resolves :
      (host : Text) (w : World S) (found : Option ℤ)
      → b.resolve_node_id w.store host ≡ found
      → Resolves host w (or_insert_node b host w found)
  unfolding or_insert_node
  or_insert_node-Resolves host w (some n) e = (known, λ node_id h. e ∙ h)
  or_insert_node-Resolves host w none e =
      let answer = b.perform w.store (insert_node host) in
      (inserted e, λ node_id h. second_lookup-eq host answer.0 answer.1 node_id h)

  -- The rest of a handler only adds writes for the node.
  abbrev Writes : Text → ℤ → (ℤ → World S → World S) → Type 0
  Writes host ts rest =
      (node_id : ℤ) (w : World S)
      → (writes : List Call) × All (IsWrite host ts node_id) writes
        × ((rest node_id w).calls ≡ writes ++ w.calls)

  touched-Handled :
      (host : Text) (ts : ℤ) (rest : ℤ → World S → World S) (w : World S) (r : Option ℤ × World S)
      → Writes host ts rest
      → Resolves host w r
      → Handled host ts w (touched b rest r)
  unfolding touched call
  touched-Handled host ts rest w (none, after) writes (begun, known_after) = dropped begun
  touched-Handled host ts rest w (some n, after) writes (begun, known_after) =
      let (added, all, e) = writes n (call b (touch_node n) after) in
      written n after added begun (known_after n refl) all e

  with_node-Handled :
      {M : Type 0} (host : Text) (ts : ℤ) (m : Option M) (rest : M → ℤ → World S → World S)
      (w : World S)
      → ((m : M) → Writes host ts (rest m))
      → Handled host ts w (with_node b host m rest w)
  unfolding with_node resolve_or_insert_node
  with_node-Handled host ts none rest w writes = dropped known
  with_node-Handled host ts (some m) rest w writes =
      touched-Handled host ts (rest m) w _ (writes m) (or_insert_node-Resolves host w _ refl)

  write_reading-Writes :
      (host : Text) (ts node_id : ℤ) (r : Reading) (store : S) (sensor : Option ℤ) (w : World S)
      → b.sensor_id store node_id r.sensor r.label ≡ sensor
      → (writes : List Call) × All (IsWrite host ts node_id) writes
        × ((write_reading b ts r sensor w).calls ≡ writes ++ w.calls)
  unfolding write_reading call
  write_reading-Writes host ts node_id r store none w e = ([], tt, refl)
  write_reading-Writes host ts node_id r store (some s) w e =
      (insert_temperature ts s r.temperature ∷ [], ((refl, store, r.sensor, r.label, e), tt), refl)

  -- One rest after another.
  then-Writes :
      (host : Text) (ts node_id : ℤ) (before middle after : List Call)
      → ((one : List Call) × All (IsWrite host ts node_id) one × (middle ≡ one ++ before))
      → ((two : List Call) × All (IsWrite host ts node_id) two × (after ≡ two ++ middle))
      → (all : List Call) × All (IsWrite host ts node_id) all × (after ≡ all ++ before)
  then-Writes host ts node_id before middle after (one, h, e) (two, h', e') = (
    two ++ one,
    All-append (IsWrite host ts node_id) two one h' h,
    e' ∙ ap (λ calls. two ++ calls) e ∙ sym (append_assoc two one before),
  )

  write_readings-Writes :
      (host : Text) (ts : ℤ) (readings : List Reading)
      → Writes host ts (λ node_id. write_readings b ts node_id readings)
  unfolding write_readings call
  write_readings-Writes host ts [] node_id w = ([], tt, refl)
  write_readings-Writes host ts (r ∷ readings) node_id w =
      then-Writes host ts node_id w.calls _ _
        (then-Writes host ts node_id w.calls _ _
          (resolve_sensor_id node_id r.sensor r.label ∷ [], (refl, tt), refl)
          (write_reading-Writes host ts node_id r w.store _ _ refl))
        (write_readings-Writes host ts readings node_id _)

  write_temperature-Writes :
      (host : Text) (ts : ℤ) (m : Option (List Reading))
      → Writes host ts (λ node_id. write_temperature b ts node_id m)
  unfolding write_temperature
  write_temperature-Writes host ts none node_id w = ([], tt, refl)
  write_temperature-Writes host ts (some readings) node_id w =
      write_readings-Writes host ts readings node_id w

  if_present-Writes :
      {M : Type 0} (host : Text) (ts node_id : ℤ) (m : Option M) (f : M → Call) (w : World S)
      → ((m : M) → IsWrite host ts node_id (f m))
      → (all : List Call) × All (IsWrite host ts node_id) all
        × ((if_present b m f w).calls ≡ all ++ w.calls)
  unfolding if_present call
  if_present-Writes host ts node_id none f w h = ([], tt, refl)
  if_present-Writes host ts node_id (some m) f w h = (f m ∷ [], (h m, tt), refl)

  write_port_event-Writes :
      (host : Text) (ts : ℤ) (m : PortEvent) → Writes host ts (write_port_event b host ts m)
  unfolding write_port_event call
  write_port_event-Writes host ts m node_id w =
      let inserted_event =
        insert_port_event ts node_id m.port m.interface m.from_state m.to_state m.event_trigger in
      elim (Bool-cases (contains m.interface (text "/"))) [
        | inl slash ↦ rw slash (inserted_event ∷ [], ((refl, refl), tt), refl)
        | inr plain ↦ rw plain (
          inserted_event
              ∷ update_node_info host (to_lower m.to_state) m.interface m.adapter_name
              ∷ [],
          ((refl, refl), (refl, tt)),
          refl,
        )
      ]

  module _ (to_float64 : ℤ → Float64) where
    write_system-Writes :
        (host : Text) (ts : ℤ) (m : SystemMetrics) → Writes host ts (write_system b to_float64 ts m)
    unfolding write_system network_call cpu_call memory_call
    write_system-Writes host ts m node_id w =
        then-Writes host ts node_id w.calls _ _
          (then-Writes host ts node_id w.calls _ _
            (then-Writes host ts node_id w.calls _ _
              (if_present-Writes host ts node_id m.network_stats _ w (λ net. (refl, refl)))
              (if_present-Writes host ts node_id m.cpu_stats _ _ (λ cpu. (refl, refl))))
            (if_present-Writes host ts node_id m.memory_stats _ _ (λ mem. (refl, refl))))
          (write_temperature-Writes host ts m.temperature_stats node_id _)

    dispatch-Handled :
        (kind : MessageType) (wrapper : MetricsWrapper) (w : World S)
        → Handled wrapper.node_name wrapper.timestamp w (dispatch b to_float64 kind wrapper w)
    unfolding dispatch handle_ptp4l_port_event handle_ptp_topology handle_ptp4l handle_pps
        handle_phc2sys handle_system call
    dispatch-Handled phc2sys wrapper w =
        with_node-Handled wrapper.node_name wrapper.timestamp wrapper.get_phc2sys _ w (λ c n u. (
          insert_phc2sys wrapper.timestamp n c.offset_ns c.frequency c.path_delay ∷ [],
          ((refl, refl), tt),
          refl,
        ))
    dispatch-Handled ptp4l wrapper w =
        with_node-Handled wrapper.node_name wrapper.timestamp wrapper.get_ptp4l _ w (λ c n u. (
          insert_ptp4l wrapper.timestamp n c.offset_ns c.frequency c.path_delay ∷ [],
          ((refl, refl), tt),
          refl,
        ))
    dispatch-Handled system wrapper w =
        with_node-Handled wrapper.node_name wrapper.timestamp wrapper.get_system _ w
          (write_system-Writes wrapper.node_name wrapper.timestamp)
    dispatch-Handled pps wrapper w =
        with_node-Handled wrapper.node_name wrapper.timestamp wrapper.get_pps _ w
          (λ offset n u. (insert_pps wrapper.timestamp n offset ∷ [], ((refl, refl), tt), refl))
    dispatch-Handled ptp4l_port_event wrapper w =
        with_node-Handled wrapper.node_name wrapper.timestamp wrapper.get_port_event _ w
          (write_port_event-Writes wrapper.node_name wrapper.timestamp)
    dispatch-Handled ptp_topology wrapper w =
        with_node-Handled wrapper.node_name wrapper.timestamp wrapper.get_topology _ w
          (λ s n u. (insert_topology wrapper.timestamp n s ∷ [], ((refl, refl), tt), refl))
    dispatch-Handled (other kind) wrapper w = dropped known

    -- Whatever the storage answers, one message is dropped, with at most one `InsertNode` made for an
    -- unknown host, or its node is known to the storage, is touched first and once, and all writes
    -- after that are for this node or a sensor that the storage named for it, for its host name and for
    -- the time of the message.
    pub handle_msg-Handled :
        (wrapper : MetricsWrapper) (w : World S)
        → Handled wrapper.node_name wrapper.timestamp w (handle_msg b to_float64 wrapper w)
    unfolding handle_msg
    handle_msg-Handled wrapper w = dispatch-Handled wrapper.message_type wrapper w
