-- ===== src/Storage/Postgres.antt =====
-- `PostgresStorage` of src/internal/storage/postgres.go: the caches of node and sensor numbers, and
-- when a node was last seen. The database is outside; its calls are the parameter `Database`.
pub mod Caches
pub mod Inserts
pub mod Topology
pub mod Stale
pub mod Reads
pub mod Service
use timesync_analyzer.Common.{List, [], Bool, Option}
use timesync_analyzer.Common.Int.{ℤ}
use timesync_analyzer.Common.Float.{Float64}
use timesync_analyzer.Common.Text.{Text}
use timesync_analyzer.App.Slider.Windows.{OffsetRow}
use timesync_analyzer.Storage.Rows.{
  Ptp4lRow, Phc2sysRow, PpsRow, NetworkRow, CpuRow, MemoryRow, TemperatureRow,
}

-- The statements that the storage sends, named by their tables, with their parameters.
pub data Statement : Type 0 where
  insert_into_nodes : (hostname : Text) → Statement
  update_nodes : (hostname net_interface role adapter_name : Text) → Statement
  insert_into_sensors : (node_id : ℤ) (sensor label : Text) → Statement
  insert_into_ptp4l_metrics : Ptp4lRow → Statement
  insert_into_ptp4l_port_events :
      (ts node_id port_num : ℤ) (port_name from_state to_state event_trigger : Text) → Statement
  insert_into_ptp_clocks : (clock_identity : Text) (node : Option ℤ) (kind : Text) → Statement
  insert_into_ptp_topology_edges :
      (ts : ℤ) (edge_kind : Text) (child_clock_id : ℤ) (child_port : Option ℤ) (parent_clock_id : ℤ)
      (parent_port grandmaster steps path_delay : Option ℤ)
      → Statement
  insert_into_pps_metrics : PpsRow → Statement
  insert_into_phc2sys_metrics : Phc2sysRow → Statement
  insert_into_network_metrics : NetworkRow → Statement
  insert_into_cpu_metrics : CpuRow → Statement
  insert_into_memory_metrics : MemoryRow → Statement
  insert_into_temperature_metrics : TemperatureRow → Statement
  set_inactive : (node_id : ℤ) → Statement
  set_active : (node_id ts : ℤ) → Statement
  insert_into_quality_metrics :
      (ts : ℤ) (protocol : Text) (node_id window_size mtie : ℤ) (tdev adev : Float64) → Statement

-- What `rows` goes through: each row, or `none` where `Scan` fails, and whether `rows.Err` is nil.
pub record Rows (A : Type 0) : Type 0 where
  pub scanned : List (Option A)
  pub complete : Bool

-- The calls of pgx, over the state `D` of the database and `T` of a transaction: `Exec` gives whether
-- its error is nil, `QueryRow` with `Scan` the number of the row, `Query` and `Begin` nothing on an
-- error. A deferred `Rollback` after a `Commit` does nothing.
pub record Database (D T : Type 0) : Type 0 where
  pub exec : Statement → D → Bool × D
  pub query_row : Statement → D → Option ℤ × D
  pub select_nodes : D → Option (Rows (ℤ × Text))
  pub select_active_nodes : D → Option (Rows ℤ)
  pub select_offsets : (table : Text) (node_id period : ℤ) → D → Option (Rows OffsetRow)
  pub begin : D → Option T
  pub tx_exec : Statement → T → Bool × T
  pub tx_query_row : Statement → T → Option ℤ × T
  pub commit : T → Bool × D
  pub rollback : T → D

-- `sensorKey`
pub record SensorKey : Type 0 where
  pub node_id : ℤ
  pub sensor : Text
  pub label : Text

pub record PostgresStorage (D : Type 0) : Type 0 where
  pub pool : D
  pub node_cache : List (Text × ℤ)
  pub sensor_cache : List (SensorKey × ℤ)
  pub last_seen : List (ℤ × ℤ)
