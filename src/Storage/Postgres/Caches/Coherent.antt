-- ===== src/Storage/Postgres/Caches/Coherent.antt =====
-- The operations of src/internal/storage/postgres.go keep the caches in agreement with the tables.
use timesync_analyzer.Common.{
  List, [], ◌∷◌, ◌≡◌, refl, subst, Bool, true, false, Option, none, some, All,
}
use timesync_analyzer.Common.Assoc.{lookup, insert}
use timesync_analyzer.Common.Int.{ℤ}
use timesync_analyzer.Common.Text.{Text, text_eq}
use timesync_analyzer.Storage.Postgres.{
  insert_into_nodes, update_nodes, insert_into_sensors, Rows, Database, SensorKey, PostgresStorage,
}
use timesync_analyzer.Storage.Postgres.Caches.{
  sensor_key_eq, touch_node, inserted_node, insert_node, updated_node, update_node_info, load_rows,
  loaded, load_node_cache, started, opened, new_postgres_storage, answered_sensor, cached_sensor,
  resolve_sensor_id,
}
use timesync_analyzer.Storage.Postgres.Caches.Numbers.{
  Key, node_row, sensor_row, NumberLaws, Coherent, Keeps, Keeps-Coherent, node_cache-Coherent,
  sensor_cache-Coherent,
}

module _ {D T : Type 0} (db : Database D T) (base : T → D) (number_of : D → Key → Option ℤ)
    (laws : NumberLaws db base number_of) where
  pub touch_node-Coherent :
      (now node_id : ℤ) {s : PostgresStorage D}
      → Coherent number_of s
      → Coherent number_of (touch_node db now node_id s)
  unfolding touch_node
  touch_node-Coherent now node_id c = record { nodes = c.nodes; sensors = c.sensors }

  inserted_node-Coherent :
      (now : ℤ) (hostname : Text) {s : PostgresStorage D} (r : Option ℤ × D)
      → Coherent number_of s
      → Keeps number_of s.pool r.1
      → ((id : ℤ) → r.0 ≡ some id → number_of r.1 (node_row hostname) ≡ some id)
      → Coherent number_of (inserted_node db now hostname s r).1
  unfolding inserted_node
  inserted_node-Coherent now hostname (none, pool) c keeps given =
      Keeps-Coherent number_of c pool keeps
  inserted_node-Coherent now hostname (some id, pool) c keeps given =
      touch_node-Coherent now id
        (node_cache-Coherent number_of c pool hostname id keeps (given id refl))

  pub insert_node-Coherent :
      (now : ℤ) (hostname : Text) {s : PostgresStorage D}
      → Coherent number_of s
      → Coherent number_of (insert_node db now hostname s).1
  unfolding insert_node
  insert_node-Coherent now hostname {s} c =
      inserted_node-Coherent now hostname (db.query_row (insert_into_nodes hostname) s.pool) c
        (λ k id. laws.query_keeps _ s.pool k) (λ id. laws.node_given s.pool hostname)

  updated_node-Coherent :
      (hostname : Text) {s : PostgresStorage D} (r : Option ℤ × D)
      → Coherent number_of s
      → Keeps number_of s.pool r.1
      → ((id : ℤ) → r.0 ≡ some id → number_of r.1 (node_row hostname) ≡ some id)
      → Coherent number_of (updated_node db hostname s r).1
  unfolding updated_node
  updated_node-Coherent hostname (none, pool) c keeps given = Keeps-Coherent number_of c pool keeps
  updated_node-Coherent hostname (some id, pool) c keeps given =
      node_cache-Coherent number_of c pool hostname id keeps (given id refl)

  pub update_node_info-Coherent :
      (hostname role net_interface adapter_name : Text) {s : PostgresStorage D}
      → Coherent number_of s
      → Coherent number_of (update_node_info db hostname role net_interface adapter_name s).1
  unfolding update_node_info
  update_node_info-Coherent hostname role net_interface adapter_name {s} c =
      updated_node-Coherent hostname
        (db.query_row (update_nodes hostname net_interface role adapter_name) s.pool) c
        (λ k id. laws.query_keeps _ s.pool k)
        (λ id. laws.update_given s.pool hostname role net_interface adapter_name)

  answered_sensor-Coherent :
      (key : SensorKey) {s : PostgresStorage D} (r : Option ℤ × D)
      → Coherent number_of s
      → Keeps number_of s.pool r.1
      → ((id : ℤ) → r.0 ≡ some id → number_of r.1 (sensor_row key) ≡ some id)
      → Coherent number_of (answered_sensor db key s r).1
  unfolding answered_sensor
  answered_sensor-Coherent key (none, pool) c keeps given = Keeps-Coherent number_of c pool keeps
  answered_sensor-Coherent key (some id, pool) c keeps given =
      sensor_cache-Coherent number_of c pool key id keeps (given id refl)

  cached_sensor-Coherent :
      (key : SensorKey) {s : PostgresStorage D} (found : Option ℤ)
      → Coherent number_of s
      → Coherent number_of (cached_sensor db key s found).1
  unfolding cached_sensor
  cached_sensor-Coherent key (some id) c = c
  cached_sensor-Coherent key {s} none c =
      answered_sensor-Coherent key
        (db.query_row (insert_into_sensors key.node_id key.sensor key.label) s.pool) c
        (λ k id. laws.query_keeps _ s.pool k) (λ id. laws.sensor_given s.pool key)

  pub resolve_sensor_id-Coherent :
      (key : SensorKey) {s : PostgresStorage D}
      → Coherent number_of s
      → Coherent number_of (resolve_sensor_id db key s).1
  unfolding resolve_sensor_id
  resolve_sensor_id-Coherent key {s} c = cached_sensor-Coherent key (lookup key s.sensor_cache) c

  -- What the rows that were read put into the cache.
  load_rows-Coherent :
      (pool : D) (rows : List (Option (ℤ × Text))) (complete : Bool) (s : PostgresStorage D)
      → All
          (λ row.
            (id : ℤ) (hostname : Text)
            → row ≡ some (id, hostname)
            → number_of s.pool (node_row hostname) ≡ some id)
          rows
      → Coherent number_of s
      → Coherent number_of (record s { node_cache = (load_rows db rows complete s.node_cache).1 })
  unfolding load_rows
  load_rows-Coherent pool [] complete s all c = c
  load_rows-Coherent pool (none ∷ rows) complete s all c = c
  load_rows-Coherent pool (some (id, hostname) ∷ rows) complete s (given, all) c =
      load_rows-Coherent pool rows complete
        (record s { node_cache = insert hostname id s.node_cache }) all
        (node_cache-Coherent number_of c s.pool hostname id (λ k n h. h) (given id hostname refl))

  loaded-Coherent :
      (s : PostgresStorage D) (answer : Option (Rows (ℤ × Text)))
      → db.select_nodes s.pool ≡ answer
      → Coherent number_of s
      → Coherent number_of (loaded db s answer).1
  unfolding loaded
  loaded-Coherent s none e c = c
  loaded-Coherent s (some rows) e c =
      load_rows-Coherent s.pool rows.scanned rows.complete s (laws.listed s.pool e) c

  pub load_node_cache-Coherent :
      (s : PostgresStorage D) → Coherent number_of s → Coherent number_of (load_node_cache db s).1
  unfolding load_node_cache
  load_node_cache-Coherent s c = loaded-Coherent s (db.select_nodes s.pool) refl c

  pub empty-Coherent :
      (pool : D)
      → Coherent number_of
          (record { pool = pool; node_cache = []; sensor_cache = []; last_seen = [] })
  unfolding lookup
  empty-Coherent pool = record { nodes = λ h id e. cc; sensors = λ k id e. cc }

  started-Coherent :
      (r : Bool × PostgresStorage D) (s : PostgresStorage D)
      → Coherent number_of r.1
      → started db r ≡ some s
      → Coherent number_of s
  unfolding started
  started-Coherent (false, r) s c e = cc
  started-Coherent (true, r) s c e = let same : r ≡ s = cc in subst (Coherent number_of) same c

  opened-Coherent :
      (pinged : Bool) (pool : D) (s : PostgresStorage D)
      → opened db pinged pool ≡ some s
      → Coherent number_of s
  unfolding opened
  opened-Coherent false pool s e = cc
  opened-Coherent true pool s e =
      started-Coherent _ s (load_node_cache-Coherent _ (empty-Coherent pool)) e

  pub new_postgres_storage-Coherent :
      (pool : Option D) (pinged : Bool) (s : PostgresStorage D)
      → new_postgres_storage db pool pinged ≡ some s
      → Coherent number_of s
  unfolding new_postgres_storage
  new_postgres_storage-Coherent none pinged s e = cc
  new_postgres_storage-Coherent (some pool) pinged s e = opened-Coherent pinged pool s e

  answered_sensor-number :
      (key : SensorKey) (s : PostgresStorage D) (id : ℤ) (r : Option ℤ × D)
      → ((n : ℤ) → r.0 ≡ some n → number_of r.1 (sensor_row key) ≡ some n)
      → (answered_sensor db key s r).0 ≡ some id
      → number_of (answered_sensor db key s r).1.pool (sensor_row key) ≡ some id
  unfolding answered_sensor
  answered_sensor-number key s id (none, pool) given e = cc
  answered_sensor-number key s id (some n, pool) given e = given id e

  cached_sensor-number :
      (key : SensorKey) (s : PostgresStorage D) (found : Option ℤ) (id : ℤ)
      → ((n : ℤ) → found ≡ some n → number_of s.pool (sensor_row key) ≡ some n)
      → (cached_sensor db key s found).0 ≡ some id
      → number_of (cached_sensor db key s found).1.pool (sensor_row key) ≡ some id
  unfolding cached_sensor
  cached_sensor-number key s (some n) id known e = known id e
  cached_sensor-number key s none id known e =
      answered_sensor-number key s id
        (db.query_row (insert_into_sensors key.node_id key.sensor key.label) s.pool)
        (λ n. laws.sensor_given s.pool key) e

  pub resolve_sensor_id-number :
      (key : SensorKey) (s : PostgresStorage D) (id : ℤ)
      → Coherent number_of s
      → (resolve_sensor_id db key s).0 ≡ some id
      → number_of (resolve_sensor_id db key s).1.pool (sensor_row key) ≡ some id
  unfolding resolve_sensor_id
  resolve_sensor_id-number key s id c e =
      cached_sensor-number key s (lookup key s.sensor_cache) id (c.sensors key) e
