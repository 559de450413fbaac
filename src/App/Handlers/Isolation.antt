-- ===== src/App/Handlers/Isolation.antt =====
-- `handleSystem` of src/internal/app/app.go: a failure of one of its calls does not stop the others.
use mathlib.Core.List.{append_assoc}
use timesync_analyzer.Common.{
  List, [], ◌∷◌, ◌++◌, Option, none, some, All, ◌≡◌, refl, ap, sym, ◌∙◌, subst, inl, inr, ◌⊎◌,
}
use timesync_analyzer.Common.Int.{ℤ, wrap64}
use timesync_analyzer.Common.Float.{Float64}
use timesync_analyzer.Common.Text.{Text}
use timesync_analyzer.App.Handlers.Messages.{
  Reading, SystemMetrics, Call, Backend, World, resolve_sensor_id, insert_temperature,
  insert_network, insert_cpu, insert_memory,
}
use timesync_analyzer.App.Handlers.{
  call, or_insert_node, resolve_or_insert_node, touched, with_node, write_reading, write_readings,
  write_temperature, if_present, network_call, cpu_call, memory_call, write_system, handle_system,
}

-- A call was made.
abbrev pub Made : Call → List Call → Type 0
Made c [] = ⊥
Made c (x ∷ calls) = (c ≡ x) ⊎ Made c calls

-- What a message carries was written.
abbrev pub Given : {M : Type 0} → Option M → (M → Call) → List Call → Type 0
Given none f calls = Unit
Given (some m) f calls = Made (f m) calls

-- The calls after a sensor was asked for: the reading goes to the sensor, if the storage has one.
abbrev pub stored : ℤ → Reading → Option ℤ → List Call → List Call
stored ts r none asked = asked
stored ts r (some sensor_id) asked = insert_temperature ts sensor_id r.temperature ∷ asked

-- The calls of which these are the earlier ones.
abbrev pub Since : List Call → List Call → Type 0
Since earlier calls = (later : List Call) × (calls ≡ later ++ earlier)

Since-trans : {one two three : List Call} → Since one two → Since two three → Since one three
Since-trans {one} (xs, e) (ys, e') =
    (ys ++ xs, e' ∙ ap (λ l. ys ++ l) e ∙ sym (append_assoc ys xs one))

Since-from : {one two calls : List Call} → one ≡ two → Since one calls → Since two calls
Since-from {calls = calls} e h = subst (λ earlier. Since earlier calls) e h

module _ {S : Type 0} (b : Backend S) where
  -- The state of a storage after calls, the last first.
  pub replay : S → List Call → S
  replay s [] = s
  replay s (c ∷ calls) = (b.perform (replay s calls) c).1

  -- Somewhere in the calls the sensor of a reading was asked for, and what the storage then answered
  -- was followed at once by the insertion of its temperature.
  abbrev pub Measured : S → (ts node_id : ℤ) → List Call → Reading → Type 0
  Measured s ts node_id calls r =
      (earlier : List Call) × Since
        (stored ts r (b.sensor_id (replay s earlier) node_id r.sensor r.label)
          (resolve_sensor_id node_id r.sensor r.label ∷ earlier))
        calls

  abbrev pub AllMeasured : S → (ts node_id : ℤ) → Option (List Reading) → List Call → Type 0
  AllMeasured s ts node_id none calls = Unit
  AllMeasured s ts node_id (some readings) calls = All (Measured s ts node_id calls) readings

  write_reading-Made :
      (c : Call) (ts : ℤ) (r : Reading) (found : Option ℤ) (w : World S)
      → Made c w.calls
      → Made c (write_reading b ts r found w).calls
  unfolding write_reading call
  write_reading-Made c ts r none w h = h
  write_reading-Made c ts r (some s) w h = inr h

  write_readings-Made :
      (c : Call) (ts node_id : ℤ) (readings : List Reading) (w : World S)
      → Made c w.calls
      → Made c (write_readings b ts node_id readings w).calls
  unfolding write_readings call
  write_readings-Made c ts node_id [] w h = h
  write_readings-Made c ts node_id (r ∷ readings) w h =
      write_readings-Made c ts node_id readings _ (write_reading-Made c ts r _ _ (inr h))

  write_temperature-Made :
      (c : Call) (ts node_id : ℤ) (m : Option (List Reading)) (w : World S)
      → Made c w.calls
      → Made c (write_temperature b ts node_id m w).calls
  unfolding write_temperature
  write_temperature-Made c ts node_id none w h = h
  write_temperature-Made c ts node_id (some readings) w h =
      write_readings-Made c ts node_id readings w h

  if_present-Made :
      {M : Type 0} (c : Call) (m : Option M) (f : M → Call) (w : World S)
      → Made c w.calls
      → Made c (if_present b m f w).calls
  unfolding if_present call
  if_present-Made c none f w h = h
  if_present-Made c (some m) f w h = inr h

  -- A world whose calls led from `s` to its store.
  abbrev Logged : S → World S → Type 0
  Logged s w = w.store ≡ replay s w.calls

  call-Logged : (s : S) (c : Call) (w : World S) → Logged s w → Logged s (call b c w)
  unfolding call replay
  call-Logged s c w h = ap (λ store. (b.perform store c).1) h

  if_present-Logged :
      {M : Type 0} (s : S) (m : Option M) (f : M → Call) (w : World S)
      → Logged s w
      → Logged s (if_present b m f w)
  unfolding if_present
  if_present-Logged s none f w h = h
  if_present-Logged s (some m) f w h = call-Logged s (f m) w h

  write_reading-Logged :
      (s : S) (ts : ℤ) (r : Reading) (found : Option ℤ) (w : World S)
      → Logged s w
      → Logged s (write_reading b ts r found w)
  unfolding write_reading
  write_reading-Logged s ts r none w h = h
  write_reading-Logged s ts r (some i) w h = call-Logged s _ w h

  write_reading-stored :
      (ts : ℤ) (r : Reading) (found : Option ℤ) (w : World S)
      → (write_reading b ts r found w).calls ≡ stored ts r found w.calls
  unfolding write_reading call
  write_reading-stored ts r none w = refl
  write_reading-stored ts r (some i) w = refl

  stored-Since :
      (ts : ℤ) (r : Reading) (found : Option ℤ) (calls : List Call)
      → Since calls (stored ts r found calls)
  stored-Since ts r none calls = ([], refl)
  stored-Since ts r (some i) calls = (insert_temperature ts i r.temperature ∷ [], refl)

  write_readings-Since :
      (ts node_id : ℤ) (readings : List Reading) (w : World S)
      → Since w.calls (write_readings b ts node_id readings w).calls
  unfolding write_readings call
  write_readings-Since ts node_id [] w = ([], refl)
  write_readings-Since ts node_id (r ∷ readings) w =
      let asked = call b (resolve_sensor_id node_id r.sensor r.label) w in
      let found = b.sensor_id w.store node_id r.sensor r.label in
      Since-trans (resolve_sensor_id node_id r.sensor r.label ∷ [], refl)
        (Since-trans (stored-Since ts r found asked.calls) (
          Since-from (write_reading-stored ts r found asked)
            (write_readings-Since ts node_id readings (write_reading b ts r found asked))))

  -- The calls of one round.
  write_reading-calls :
      (s : S) (ts node_id : ℤ) (r : Reading) (w : World S)
      → Logged s w
      → (write_reading b ts r
          (b.sensor_id w.store node_id r.sensor r.label)
          (call b (resolve_sensor_id node_id r.sensor r.label) w)).calls
        ≡ stored ts r
            (b.sensor_id (replay s w.calls) node_id r.sensor r.label)
            (resolve_sensor_id node_id r.sensor r.label ∷ w.calls)
  unfolding call
  write_reading-calls s ts node_id r w h =
      write_reading-stored ts r _ _
      ∙ ap
          (λ store.
            stored ts r (b.sensor_id store node_id r.sensor r.label)
              (resolve_sensor_id node_id r.sensor r.label ∷ w.calls))
          h

  write_readings-Measured :
      (s : S) (ts node_id : ℤ) (readings : List Reading) (w : World S)
      → Logged s w
      → All (Measured s ts node_id (write_readings b ts node_id readings w).calls) readings
  unfolding write_readings
  write_readings-Measured s ts node_id [] w h = tt
  write_readings-Measured s ts node_id (r ∷ readings) w h =
      let asked = call b (resolve_sensor_id node_id r.sensor r.label) w in
      let found = b.sensor_id w.store node_id r.sensor r.label in
      let next = write_reading b ts r found asked in
      (
        (
          w.calls,
          Since-from (write_reading-calls s ts node_id r w h)
              (write_readings-Since ts node_id readings next),
        ),
        write_readings-Measured s ts node_id readings next
            (write_reading-Logged s ts r found asked (call-Logged s _ w h)),
      )

  write_temperature-Measured :
      (s : S) (ts node_id : ℤ) (m : Option (List Reading)) (w : World S)
      → Logged s w
      → AllMeasured s ts node_id m (write_temperature b ts node_id m w).calls
  unfolding write_temperature
  write_temperature-Measured s ts node_id none w h = tt
  write_temperature-Measured s ts node_id (some readings) w h =
      write_readings-Measured s ts node_id readings w h

  -- A part that is present is still there once the later parts were written.
  if_present-Given :
      {M : Type 0} (m : Option M) (f : M → Call) (w : World S) (calls : List Call)
      → ((c : Call) → Made c (if_present b m f w).calls → Made c calls)
      → Given m f calls
  unfolding if_present call
  if_present-Given none f w calls later = tt
  if_present-Given (some m) f w calls later = later (f m) (inl refl)

  module _ (to_float64 : ℤ → Float64) where
    -- All parts of a message for a node are in the calls that a storage was given since it was `s`.
    pub record Complete (s : S) (ts node_id : ℤ) (m : SystemMetrics) (calls : List Call)
        : Type 0 where
      pub network :
          Given m.network_stats
            (λ net. insert_network ts node_id (record {
              rx_packets = wrap64 net.rx_packets;
              tx_packets = wrap64 net.tx_packets;
              rx_dropped = wrap64 net.rx_dropped;
              tx_dropped = wrap64 net.tx_dropped;
              rx_errors = wrap64 net.rx_errors;
              tx_errors = wrap64 net.tx_errors;
              collisions = wrap64 net.collisions;
            }))
            calls
      pub cpu :
          Given m.cpu_stats
            (λ cpu. insert_cpu ts node_id (record {
              usage_percent = cpu.usage_percent;
              context_switches = wrap64 cpu.context_switches;
              interrupts = wrap64 cpu.interrupts;
              softirqs = wrap64 cpu.softirqs;
            }))
            calls
      pub memory :
          Given m.memory_stats
            (λ mem.
              insert_memory ts node_id
                (to_float64 mem.mem_available_kb)
                (wrap64 mem.mem_free_kb)
                (wrap64 mem.swap_total_kb)
                (wrap64 mem.swap_free_kb)
                (wrap64 mem.buffers_kb))
            calls
      pub temperature : AllMeasured s ts node_id m.temperature_stats calls

    write_system-Complete :
        (s : S) (ts node_id : ℤ) (m : SystemMetrics) (w : World S)
        → Logged s w
        → Complete s ts node_id m (write_system b to_float64 ts m node_id w).calls
    unfolding write_system network_call cpu_call memory_call
    write_system-Complete s ts node_id m w h = record {
      network = if_present-Given m.network_stats _ w _ (λ c h.
          write_temperature-Made c ts node_id m.temperature_stats _
            (if_present-Made c m.memory_stats _ _ (if_present-Made c m.cpu_stats _ _ h)));
      cpu = if_present-Given m.cpu_stats _ _ _ (λ c h.
          write_temperature-Made c ts node_id m.temperature_stats _
            (if_present-Made c m.memory_stats _ _ h));
      memory =
          if_present-Given m.memory_stats _ _ _
            (λ c h. write_temperature-Made c ts node_id m.temperature_stats _ h);
      temperature = write_temperature-Measured s ts node_id m.temperature_stats _ (
          if_present-Logged s m.memory_stats _ _
            (if_present-Logged s m.cpu_stats _ _ (if_present-Logged s m.network_stats _ w h)));
    }

    -- For a host that the storage knows, `handleSystem` hands every part that the message carries to
    -- the storage, with the values of the message, whichever of the calls fail. The sensor of every
    -- reading is asked for, and where the storage has it, the temperature is inserted for it at once.
    pub handle_system-Complete :
        (host : Text) (ts node_id : ℤ) (m : SystemMetrics) (s : S)
        → b.resolve_node_id s host ≡ some node_id
        → Complete s ts node_id m
            (handle_system b to_float64 host ts (some m) (record { store = s; calls = [] })).calls
    unfolding handle_system with_node touched resolve_or_insert_node or_insert_node replay
    handle_system-Complete host ts node_id m s e = rw e (
        write_system-Complete s ts node_id m _
          (call-Logged s _ (record { store = s; calls = [] }) refl))
