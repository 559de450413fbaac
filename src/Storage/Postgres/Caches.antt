-- ===== src/Storage/Postgres/Caches.antt =====
-- The node and sensor caches of src/internal/storage/postgres.go.
pub mod Numbers
pub mod Coherent
use timesync_analyzer.Common.{
  List, [], ◌∷◌, ◌≡◌, Bool, true, false, ◌&&◌, not, Option, none, some, if◌then◌else◌, Eq, ◌↔◌,
  arith,
}
use timesync_analyzer.Common.Assoc.{lookup, insert}
use timesync_analyzer.Common.Int.{ℤ, int_beq, int_eq}
use timesync_analyzer.Common.Text.{Text, text_beq, text_eq}
use timesync_analyzer.Storage.Postgres.{
  Statement, insert_into_nodes, update_nodes, insert_into_sensors, Rows, Database, SensorKey,
  PostgresStorage,
}

pub sensor_key_beq : SensorKey → SensorKey → Bool
sensor_key_beq k j =
    int_beq k.node_id j.node_id && (text_beq k.sensor j.sensor && text_beq k.label j.label)

pub sensor_key_beq_iff : (k j : SensorKey) → (sensor_key_beq k j ≡ true) ↔ (k ≡ j)
unfolding sensor_key_beq
sensor_key_beq_iff k j = ground (
  arith,
  int_eq.beq_iff k.node_id j.node_id,
  text_eq.beq_iff k.sensor j.sensor,
  text_eq.beq_iff k.label j.label,
)

instance abbrev pub sensor_key_eq : Eq SensorKey
sensor_key_eq = record { beq = sensor_key_beq; beq_iff = sensor_key_beq_iff }

module _ {D T : Type 0} (db : Database D T) where
  -- `TouchNode` at the time `now`.
  pub touch_node : (now node_id : ℤ) → PostgresStorage D → PostgresStorage D
  touch_node now node_id s = record s { last_seen = insert node_id now s.last_seen }

  pub inserted_node : ℤ → Text → PostgresStorage D → Option ℤ × D → Bool × PostgresStorage D
  inserted_node now hostname s (none, pool) = (false, record s { pool = pool })
  inserted_node now hostname s (some node_id, pool) = (
    true,
    touch_node now node_id
        (record s { pool = pool; node_cache = insert hostname node_id s.node_cache }),
  )

  -- Whether the error is nil, here and below.
  pub insert_node : ℤ → Text → PostgresStorage D → Bool × PostgresStorage D
  insert_node now hostname s =
      inserted_node now hostname s (db.query_row (insert_into_nodes hostname) s.pool)

  pub updated_node : Text → PostgresStorage D → Option ℤ × D → Bool × PostgresStorage D
  updated_node hostname s (none, pool) = (false, record s { pool = pool })
  updated_node hostname s (some node_id, pool) =
      (true, record s { pool = pool; node_cache = insert hostname node_id s.node_cache })

  pub update_node_info :
      (hostname role net_interface adapter_name : Text)
      → PostgresStorage D
      → Bool × PostgresStorage D
  update_node_info hostname role net_interface adapter_name s =
      updated_node hostname s
        (db.query_row (update_nodes hostname net_interface role adapter_name) s.pool)

  -- The loop of `loadNodeCache`: a row that cannot be read ends it.
  unfoldable pub load_rows :
      List (Option (ℤ × Text)) → Bool → List (Text × ℤ) → Bool × List (Text × ℤ)
  load_rows [] complete cache = (complete, cache)
  load_rows (none ∷ rows) complete cache = (false, cache)
  load_rows (some (node_id, hostname) ∷ rows) complete cache =
      load_rows rows complete (insert hostname node_id cache)

  unfoldable pub loaded : PostgresStorage D → Option (Rows (ℤ × Text)) → Bool × PostgresStorage D
  loaded s none = (false, s)
  loaded s (some rows) =
      let (ok, cache) = load_rows rows.scanned rows.complete s.node_cache in
      (ok, record s { node_cache = cache })

  unfoldable pub load_node_cache : PostgresStorage D → Bool × PostgresStorage D
  load_node_cache s = loaded s (db.select_nodes s.pool)

  unfoldable pub started : Bool × PostgresStorage D → Option (PostgresStorage D)
  started (false, s) = none
  started (true, s) = some s

  unfoldable pub opened : Bool → D → Option (PostgresStorage D)
  opened false pool = none
  opened true pool =
      started (
        load_node_cache
          (record { pool = pool; node_cache = []; sensor_cache = []; last_seen = [] }))

  -- `NewPostgresStorage`: whether there is a pool, and whether it answers a ping.
  unfoldable pub new_postgres_storage : Option D → Bool → Option (PostgresStorage D)
  new_postgres_storage none pinged = none
  new_postgres_storage (some pool) pinged = opened pinged pool

  unfoldable pub resolve_node_id : PostgresStorage D → Text → Option ℤ
  resolve_node_id s hostname = lookup hostname s.node_cache

  pub answered_sensor : SensorKey → PostgresStorage D → Option ℤ × D → Option ℤ × PostgresStorage D
  answered_sensor key s (none, pool) = (none, record s { pool = pool })
  answered_sensor key s (some sensor_id, pool) =
      (some sensor_id, record s { pool = pool; sensor_cache = insert key sensor_id s.sensor_cache })

  pub cached_sensor : SensorKey → PostgresStorage D → Option ℤ → Option ℤ × PostgresStorage D
  cached_sensor key s (some sensor_id) = (some sensor_id, s)
  cached_sensor key s none =
      answered_sensor key s
        (db.query_row (insert_into_sensors key.node_id key.sensor key.label) s.pool)

  -- `none` is an error.
  pub resolve_sensor_id : SensorKey → PostgresStorage D → Option ℤ × PostgresStorage D
  resolve_sensor_id key s = cached_sensor key s (lookup key s.sensor_cache)
