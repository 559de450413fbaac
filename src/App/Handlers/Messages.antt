-- ===== src/App/Handlers/Messages.antt =====
-- The messages of src/internal/app/app.go and the interface `Storage` of
-- src/internal/storage/storage.go that its handlers call. The fields of the generated protobuf types
-- that the handlers read are kept; a getter of the payload gives `none` where Go gives nil.
use timesync_analyzer.Common.{ℕ, List, Bool, Option}
use timesync_analyzer.Common.Int.{ℤ}
use timesync_analyzer.Common.Float.{Float64}
use timesync_analyzer.Common.Text.{Text}

pub data MessageType : Type 0 where
  phc2sys : MessageType
  ptp4l : MessageType
  system : MessageType
  pps : MessageType
  ptp4l_port_event : MessageType
  ptp_topology : MessageType
  other : ℕ → MessageType

pub record ClockMetrics : Type 0 where
  pub offset_ns : ℤ
  pub frequency : ℤ
  pub path_delay : ℤ

pub record PortEvent : Type 0 where
  pub port : ℤ
  pub interface : Text
  pub adapter_name : Text
  pub from_state : Text
  pub to_state : Text
  pub event_trigger : Text

pub record NetworkStats : Type 0 where
  pub rx_packets : ℤ
  pub tx_packets : ℤ
  pub rx_dropped : ℤ
  pub tx_dropped : ℤ
  pub rx_errors : ℤ
  pub tx_errors : ℤ
  pub collisions : ℤ

pub record CpuStats : Type 0 where
  pub usage_percent : Float64
  pub context_switches : ℤ
  pub interrupts : ℤ
  pub softirqs : ℤ

pub record MemoryStats : Type 0 where
  pub mem_available_kb : ℤ
  pub mem_free_kb : ℤ
  pub swap_total_kb : ℤ
  pub swap_free_kb : ℤ
  pub buffers_kb : ℤ

pub record Reading : Type 0 where
  pub sensor : Text
  pub label : Text
  pub temperature : ℤ

pub record SystemMetrics : Type 0 where
  pub network_stats : Option NetworkStats
  pub cpu_stats : Option CpuStats
  pub memory_stats : Option MemoryStats
  pub temperature_stats : Option (List Reading)

-- `storage.PtpTopologySnapshot`, which has the fields of the message.
pub record PtpTopologySnapshot : Type 0 where
  pub local_clock_identity : Text
  pub parent_clock_identity : Text
  pub parent_port : ℤ
  pub grandmaster_identity : Text
  pub steps_removed : ℤ
  pub path_delay_ns : ℤ
  pub child_port : ℤ

pub record MetricsWrapper : Type 0 where
  pub message_type : MessageType
  pub node_name : Text
  pub timestamp : ℤ
  pub get_phc2sys : Option ClockMetrics
  pub get_ptp4l : Option ClockMetrics
  pub get_system : Option SystemMetrics
  pub get_pps : Option ℤ
  pub get_port_event : Option PortEvent
  pub get_topology : Option PtpTopologySnapshot

-- A call of a method of `Storage` that may change it, with its arguments.
pub data Call : Type 0 where
  resolve_sensor_id : (node_id : ℤ) (sensor label : Text) → Call
  insert_ptp4l : (ts node_id offset_ns frequency path_delay : ℤ) → Call
  insert_phc2sys : (ts node_id offset_ns frequency path_delay : ℤ) → Call
  insert_pps : (ts node_id offset_ns : ℤ) → Call
  insert_network : (ts node_id : ℤ) → NetworkStats → Call
  insert_cpu : (ts node_id : ℤ) → CpuStats → Call
  insert_memory :
      (ts node_id : ℤ) (mem_available_kb : Float64)
      (mem_free_kb swap_total_kb swap_free_kb buffers_kb : ℤ)
      → Call
  insert_temperature : (ts sensor_id temperature : ℤ) → Call
  update_node_info : (hostname role net_interface adapter_name : Text) → Call
  insert_node : (hostname : Text) → Call
  insert_port_event :
      (ts node_id port_num : ℤ) (port_name from_state to_state event_trigger : Text) → Call
  insert_topology : (ts node_id : ℤ) → PtpTopologySnapshot → Call
  touch_node : (node_id : ℤ) → Call

-- The interface, over the state of an implementation: its two lookups, and the effect of a call with
-- whether its error is nil.
pub record Backend (S : Type 0) : Type 0 where
  pub resolve_node_id : S → Text → Option ℤ
  pub sensor_id : S → (node_id : ℤ) (sensor label : Text) → Option ℤ
  pub perform : S → Call → Bool × S

-- A storage with the calls made on it, the last first.
pub record World (S : Type 0) : Type 0 where
  pub store : S
  pub calls : List Call
