-- ===== src/Storage/Postgres/Caches/Numbers.antt =====
-- The numbers that the tables of src/internal/storage/postgres.go give, and caches that agree with them.
use timesync_analyzer.Common.{◌≡◌, Option, some, arith, All}
use timesync_analyzer.Common.Assoc.{lookup, insert, lookup-insert}
use timesync_analyzer.Common.Int.{ℤ}
use timesync_analyzer.Common.Text.{Text, text_eq}
use timesync_analyzer.Storage.Postgres.{
  Statement, insert_into_nodes, update_nodes, insert_into_sensors, Rows, Database, SensorKey,
  PostgresStorage,
}
use timesync_analyzer.Storage.Postgres.Caches.{sensor_key_eq}

-- What has a number in the tables: a host name, or a sensor of a node.
pub data Key : Type 0 where
  node_row : Text → Key
  sensor_row : SensorKey → Key

-- What PostgreSQL does with the numbers, which `number_of` reads off a state: a statement of the
-- storage changes no number that is given, since none deletes a row or writes to such a column, and a
-- statement with `RETURNING` answers with the number of its row.
pub record NumberLaws {D T : Type 0} (db : Database D T) (base : T → D)
    (number_of : D → Key → Option ℤ) : Type 0 where
  pub exec_keeps :
      (st : Statement) (d : D) (k : Key) {id : ℤ}
      → number_of d k ≡ some id
      → number_of (db.exec st d).1 k ≡ some id
  pub query_keeps :
      (st : Statement) (d : D) (k : Key) {id : ℤ}
      → number_of d k ≡ some id
      → number_of (db.query_row st d).1 k ≡ some id
  pub commit_keeps :
      (t : T) (k : Key) {id : ℤ}
      → number_of (base t) k ≡ some id
      → number_of (db.commit t).1 k ≡ some id
  pub node_given :
      (d : D) (hostname : Text) {id : ℤ}
      → (db.query_row (insert_into_nodes hostname) d).0 ≡ some id
      → number_of (db.query_row (insert_into_nodes hostname) d).1 (node_row hostname) ≡ some id
  pub update_given :
      (d : D) (hostname role net_interface adapter_name : Text) {id : ℤ}
      → (db.query_row (update_nodes hostname net_interface role adapter_name) d).0 ≡ some id
      → number_of
          (db.query_row (update_nodes hostname net_interface role adapter_name) d).1
          (node_row hostname)
        ≡ some id
  pub sensor_given :
      (d : D) (key : SensorKey) {id : ℤ}
      → (db.query_row (insert_into_sensors key.node_id key.sensor key.label) d).0 ≡ some id
      → number_of
          (db.query_row (insert_into_sensors key.node_id key.sensor key.label) d).1
          (sensor_row key)
        ≡ some id
  pub listed :
      (d : D) {rows : Rows (ℤ × Text)}
      → db.select_nodes d ≡ some rows
      → All
          (λ row.
            (id : ℤ) (hostname : Text)
            → row ≡ some (id, hostname)
            → number_of d (node_row hostname) ≡ some id)
          rows.scanned

module _ {D : Type 0} (number_of : D → Key → Option ℤ) where
  -- What the caches answer is what the tables hold.
  pub record Coherent (s : PostgresStorage D) : Type 0 where
    pub nodes :
        (hostname : Text) (id : ℤ)
        → lookup hostname s.node_cache ≡ some id
        → number_of s.pool (node_row hostname) ≡ some id
    pub sensors :
        (key : SensorKey) (id : ℤ)
        → lookup key s.sensor_cache ≡ some id
        → number_of s.pool (sensor_row key) ≡ some id

  -- No number is lost.
  abbrev pub Keeps : D → D → Type 0
  Keeps d e = (k : Key) (id : ℤ) → number_of d k ≡ some id → number_of e k ≡ some id

  module _ {s : PostgresStorage D} (coherent : Coherent s) where
    pub Keeps-Coherent : (pool : D) → Keeps s.pool pool → Coherent (record s { pool = pool })
    Keeps-Coherent pool keeps = record {
      nodes = λ hostname id h. keeps (node_row hostname) id (coherent.nodes hostname id h);
      sensors = λ key id h. keeps (sensor_row key) id (coherent.sensors key id h);
    }

    pub node_cache-Coherent :
        (pool : D) (hostname : Text) (id : ℤ)
        → Keeps s.pool pool
        → number_of pool (node_row hostname) ≡ some id
        → Coherent (record s { pool = pool; node_cache = insert hostname id s.node_cache })
    node_cache-Coherent pool hostname id keeps given = record {
      nodes = λ host n h. ground (
        arith,
        h,
        lookup-insert hostname host id s.node_cache,
        text_eq.beq_iff hostname host,
        keeps (node_row host) n,
        coherent.nodes host n,
      );
      sensors = λ key n h. keeps (sensor_row key) n (coherent.sensors key n h);
    }

    pub sensor_cache-Coherent :
        (pool : D) (key : SensorKey) (id : ℤ)
        → Keeps s.pool pool
        → number_of pool (sensor_row key) ≡ some id
        → Coherent (record s { pool = pool; sensor_cache = insert key id s.sensor_cache })
    sensor_cache-Coherent pool key id keeps given = record {
      nodes = λ host n h. keeps (node_row host) n (coherent.nodes host n h);
      sensors = λ key' n h. ground (
        arith,
        h,
        lookup-insert key key' id s.sensor_cache,
        sensor_key_eq.beq_iff key key',
        keeps (sensor_row key') n,
        coherent.sensors key' n,
      );
    }
