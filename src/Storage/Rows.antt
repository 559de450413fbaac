-- ===== src/Storage/Rows.antt =====
-- The rows of src/internal/storage/batch_pg.go. A time is its count of nanoseconds, an int32 or
-- int64 field is an integer, and a float64 is a bit pattern.
use timesync_analyzer.Common.Int.{ℤ}
use timesync_analyzer.Common.Float.{Float64}

pub record Ptp4lRow : Type 0 where
  pub ts : ℤ
  pub node_id : ℤ
  pub offset_ns : ℤ
  pub frequency : ℤ
  pub path_delay : ℤ

pub record Phc2sysRow : Type 0 where
  pub ts : ℤ
  pub node_id : ℤ
  pub offset_ns : ℤ
  pub frequency : ℤ
  pub path_delay : ℤ

pub record PpsRow : Type 0 where
  pub ts : ℤ
  pub node_id : ℤ
  pub offset_ns : ℤ

pub record NetworkRow : Type 0 where
  pub ts : ℤ
  pub node_id : ℤ
  pub rx_packets : ℤ
  pub tx_packets : ℤ
  pub rx_dropped : ℤ
  pub tx_dropped : ℤ
  pub rx_errors : ℤ
  pub tx_errors : ℤ
  pub collisions : ℤ

pub record CpuRow : Type 0 where
  pub ts : ℤ
  pub node_id : ℤ
  pub usage_percent : Float64
  pub ctx_switches : ℤ
  pub interrupts : ℤ
  pub softirqs : ℤ

pub record MemoryRow : Type 0 where
  pub ts : ℤ
  pub node_id : ℤ
  pub mem_available_kb : Float64
  pub mem_free_kb : ℤ
  pub swap_total_kb : ℤ
  pub swap_free_kb : ℤ
  pub buffers_kb : ℤ

pub record TemperatureRow : Type 0 where
  pub ts : ℤ
  pub sensor_id : ℤ
  pub temperature : ℤ

-- What a row hands to `pgx.CopyFromSlice`, an `any` of Go.
pub data Value : Type 0 where
  time : ℤ → Value
  int : ℤ → Value
  float : Float64 → Value
