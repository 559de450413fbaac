-- ===== src/Storage/Batch.antt =====
-- `BatchPostgresStorage` of src/internal/storage/batch_pg.go: seven buffers, and beside each the
-- rows that committed transactions have handed to its table. `calls` logs the database calls.
pub mod Buffer
pub mod Flush
pub mod Inserts
pub mod History
pub mod Bounds
pub mod Shutdown
pub mod Interleaved
use timesync_analyzer.Common.{ℕ, if◌then◌else◌, List, []}
use timesync_analyzer.Common.Int.{ℤ, pos, pos_part, leb_ℤ}
use timesync_analyzer.Storage.Rows.{
  Ptp4lRow, Phc2sysRow, PpsRow, NetworkRow, CpuRow, MemoryRow, TemperatureRow,
}
use timesync_analyzer.Storage.Tx.{DbCall}
use Buffer.{Buffered, empty}

pub record BatchStorage : Type 0 where
  pub max_size : ℕ
  pub flush_interval : ℤ
  pub ptp4l : Buffered Ptp4lRow
  pub phc2sys : Buffered Phc2sysRow
  pub pps : Buffered PpsRow
  pub network : Buffered NetworkRow
  pub cpu : Buffered CpuRow
  pub memory : Buffered MemoryRow
  pub temperature : Buffered TemperatureRow
  pub calls : List DbCall

-- `defaultMaxSize`, and `defaultFlushInterval`: one second.
abbrev pub default_max_size : ℕ
default_max_size = 500

abbrev pub default_flush_interval : ℤ
default_flush_interval = pos 1_000_000_000

-- `NewBatchPostgresStorage`, once the connection pool is there: `cfg.Batch` with its defaults.
unfoldable pub new_batch_storage : ℤ → ℤ → BatchStorage
new_batch_storage max_size flush_interval = record {
  max_size = if leb_ℤ max_size (pos 0) then default_max_size else pos_part max_size;
  flush_interval = if leb_ℤ flush_interval (pos 0) then default_flush_interval else flush_interval;
  ptp4l = empty;
  phc2sys = empty;
  pps = empty;
  network = empty;
  cpu = empty;
  memory = empty;
  temperature = empty;
  calls = [];
}
