-- ===== src/Tests/Postgres.antt =====
-- The theorems on src/internal/storage/postgres.go at concrete inputs.
use timesync_analyzer.Common.{
  ℕ, suc, ◌+◌, ◌≡◌, refl, sym, ap, subst, ◌∙◌, All, List, [], ◌∷◌, length, Bool, true, false,
  Option, none, some, if◌then◌else◌, arith,
}
use timesync_analyzer.Common.Assoc.{lookup, insert}
use timesync_analyzer.Common.Int.{ℤ, pos, pos_part, int_beq, int_eq, leb_ℤ, ◌-ℤ◌}
use timesync_analyzer.Common.Text.{Text, text}
use timesync_analyzer.App.Handlers.Messages.{MetricsWrapper, PtpTopologySnapshot, ptp_topology}
use timesync_analyzer.App.Handlers.{handle_all}
use timesync_analyzer.Storage.Postgres.{
  Statement, insert_into_nodes, update_nodes, insert_into_sensors, insert_into_ptp_clocks,
  set_inactive, set_active, Rows, Database, SensorKey, PostgresStorage,
}
use timesync_analyzer.Storage.Postgres.Caches.{
  new_postgres_storage, opened, started, load_node_cache, loaded, load_rows, resolve_node_id,
  resolve_sensor_id,
}
use timesync_analyzer.Storage.Postgres.Caches.Numbers.{Key, node_row, sensor_row, NumberLaws}
use timesync_analyzer.Storage.Postgres.Stale.{deactivate_stale_nodes, after_ok}
use timesync_analyzer.Storage.Postgres.Stale.Correct.{ActivityLaws, deactivate_stale_nodes-settles}
use timesync_analyzer.Storage.Postgres.Topology.{insert_ptp_topology_snapshot}
use timesync_analyzer.Storage.Postgres.Topology.Atomic.{
  TxLaws, Outcome, insert_ptp_topology_snapshot-atomic,
}
use timesync_analyzer.Storage.Postgres.Service.{postgres_backend}
use timesync_analyzer.Storage.Postgres.Service.Agreement.{handle_all-agrees}

-- A database that counts the statements that were carried out and gives a name the number of its
-- letters.
answer : Statement → Option ℤ
answer (insert_into_nodes hostname) = some (pos (length hostname))
answer (update_nodes hostname net_interface role adapter_name) = some (pos (length hostname))
answer (insert_into_sensors node_id sensor label) = some (pos (length sensor))
answer (insert_into_ptp_clocks clock_identity owner kind) = some (pos (length clock_identity))
answer statement = none

abbrev one_node : Rows (ℤ × Text)
one_node = record { scanned = some (pos 6, text "node-1") ∷ []; complete = true }

abbrev test_db : Database ℕ (ℕ × ℕ)
test_db = record {
  exec = λ statement d. (true, suc d);
  query_row = λ statement d. (answer statement, suc d);
  select_nodes = λ d. some one_node;
  select_active_nodes = λ d. none;
  select_offsets = λ table node_id period d. none;
  begin = λ d. some (d, 0);
  tx_exec = λ statement t. (true, (t.0, suc t.1));
  tx_query_row = λ statement t. (answer statement, (t.0, suc t.1));
  commit = λ t. (true, t.0 + t.1);
  rollback = λ t. t.0;
}

abbrev test_base : ℕ × ℕ → ℕ
test_base t = t.0

abbrev number_of : ℕ → Key → Option ℤ
number_of d (node_row hostname) = some (pos (length hostname))
number_of d (sensor_row key) = some (pos (length key.sensor))

begun-base : (d : ℕ) (t : ℕ × ℕ) → some (d, 0) ≡ some t → test_base t ≡ d
begun-base d (base, count) e = cc

test-TxLaws : TxLaws test_db test_base
test-TxLaws = record {
  begins = λ d {t} e. begun-base d t e;
  exec_keeps = λ st t. refl;
  query_keeps = λ st t. refl;
  rolls_back = λ t. refl;
}

number_of_any : (d e : ℕ) (k : Key) → number_of d k ≡ number_of e k
number_of_any d e (node_row hostname) = refl
number_of_any d e (sensor_row key) = refl

abbrev Numbered : Rows (ℤ × Text) → Type 0
Numbered rows =
    All
      (λ row.
        (id : ℤ) (hostname : Text)
        → row ≡ some (id, hostname)
        → some (pos (length hostname)) ≡ some id)
      rows.scanned

abbrev row : ℤ → Text → Option (ℤ × Text)
row id hostname = some (id, hostname)

own-number :
    (id : ℤ) (hostname : Text)
    → row (pos 6) (text "node-1") ≡ row id hostname
    → some (pos (length hostname)) ≡ some id
own-number id hostname e =
    let named : text "node-1" ≡ hostname = cc in
    let numbered : pos 6 ≡ id = cc in
    ap (λ h. some (pos (length h))) (sym named) ∙ ap (λ n. some n) numbered

listed-Numbered : (rows : Rows (ℤ × Text)) → some one_node ≡ some rows → Numbered rows
listed-Numbered rows e = let same : one_node ≡ rows = cc in subst Numbered same (own-number, tt)

test-NumberLaws : NumberLaws test_db test_base number_of
unfolding answer
test-NumberLaws = record {
  exec_keeps = λ st d k e. cc (number_of_any d (suc d) k);
  query_keeps = λ st d k e. cc (number_of_any d (suc d) k);
  commit_keeps = λ t k e. cc (number_of_any t.0 (t.0 + t.1) k);
  node_given = λ d hostname e. e;
  update_given = λ d hostname role net_interface adapter_name e. e;
  sensor_given = λ d key e. e;
  listed = λ d {rows} e. listed-Numbered rows e;
}

abbrev boundary_clock : PtpTopologySnapshot
boundary_clock = record {
  local_clock_identity = text "local";
  parent_clock_identity = text "parent";
  parent_port = pos 1;
  grandmaster_identity = text "grandmaster";
  steps_removed = pos 2;
  path_delay_ns = pos 120;
  child_port = pos 3;
}

abbrev opened_storage : PostgresStorage ℕ
opened_storage = record {
  pool = 0;
  node_cache = (text "node-1", pos 6) ∷ [];
  sensor_cache = [];
  last_seen = (pos 6, pos 100) ∷ [];
}

insert_ptp_topology_snapshot-atomic_example :
    Outcome test_db test_base test-TxLaws (pos 50) (pos 6) boundary_clock 0 (
      (insert_ptp_topology_snapshot test_db (pos 50) (pos 6) boundary_clock opened_storage).0,
      (insert_ptp_topology_snapshot test_db (pos 50) (pos 6) boundary_clock opened_storage).1.pool,
    )
    × ((insert_ptp_topology_snapshot test_db (pos 50) (pos 6) boundary_clock opened_storage).1
        ≡ record opened_storage {
          pool =
              (insert_ptp_topology_snapshot test_db
                (pos 50)
                (pos 6)
                boundary_clock
                opened_storage).1.pool;
        })
insert_ptp_topology_snapshot-atomic_example =
    insert_ptp_topology_snapshot-atomic test_db test_base test-TxLaws (pos 50) (pos 6)
      boundary_clock opened_storage

abbrev topology_message : MetricsWrapper
topology_message = record {
  message_type = ptp_topology;
  node_name = text "node-2x";
  timestamp = pos 50;
  get_phc2sys = none;
  get_ptp4l = none;
  get_system = none;
  get_pps = none;
  get_port_event = none;
  get_topology = some boundary_clock;
}

abbrev fresh_storage : PostgresStorage ℕ
fresh_storage = record {
  pool = 0;
  node_cache = (text "node-1", pos 6) ∷ [];
  sensor_cache = [];
  last_seen = [];
}

abbrev afterwards : PostgresStorage ℕ
afterwards =
    (handle_all (postgres_backend test_db (λ s. pos 100)) (λ n. pos_part n) (topology_message ∷ [])
      (record { store = fresh_storage; calls = [] })).store

handle_all-agrees_example :
    ((hostname : Text) (id : ℤ)
      → resolve_node_id test_db afterwards hostname ≡ some id
      → number_of afterwards.pool (node_row hostname) ≡ some id)
    × ((key : SensorKey) (id : ℤ)
        → (resolve_sensor_id test_db key afterwards).0 ≡ some id
        → number_of (resolve_sensor_id test_db key afterwards).1.pool (sensor_row key) ≡ some id)
unfolding new_postgres_storage opened started load_node_cache loaded load_rows insert
handle_all-agrees_example =
    handle_all-agrees test_db (λ s. pos 100) test_base number_of test-TxLaws test-NumberLaws
      (λ n. pos_part n) (some 0) true (topology_message ∷ []) refl

-- A database that is its column `is_active`.
written : Bool → Option Bool → Option Bool
written value none = none
written value (some b) = some value

apply : Statement → (ℤ → Option Bool) → ℤ → Option Bool
apply (set_inactive n) d m = if int_beq n m then written false (d m) else d m
apply (set_active n ts) d m = if int_beq n m then written true (d m) else d m
apply statement d m = d m

abbrev active_db : Database (ℤ → Option Bool) ℕ
active_db = record {
  exec = λ statement d. (true, apply statement d);
  query_row = λ statement d. (none, d);
  select_nodes = λ d. none;
  select_active_nodes = λ d. none;
  select_offsets = λ table node_id period d. none;
  begin = λ d. none;
  tx_exec = λ statement t. (false, t);
  tx_query_row = λ statement t. (none, t);
  commit = λ t. (false, λ n. none);
  rollback = λ t n. none;
}

abbrev read_active : (ℤ → Option Bool) → ℤ → Option Bool
read_active d n = d n

active-ActivityLaws : ActivityLaws active_db read_active
unfolding apply written
active-ActivityLaws = record {
  inactive = λ d n known ok. ground (arith, known, int_eq.beq_iff n n);
  activated = λ d n ts known ok. ground (arith, known, int_eq.beq_iff n n);
  inactive_others = λ d n m differ. ground (arith, differ, int_eq.beq_iff n m);
  activated_others = λ d n ts m differ. ground (arith, differ, int_eq.beq_iff n m);
}

-- The first node was seen 5 ago, the second 90; the loop takes the second first.
abbrev seen : PostgresStorage (ℤ → Option Bool)
seen = record {
  pool = λ n. some true;
  node_cache = [];
  sensor_cache = [];
  last_seen = (pos 1, pos 95) ∷ (pos 2, pos 10) ∷ [];
}

abbrev other_order : List (ℤ × ℤ)
other_order = (pos 2, pos 10) ∷ (pos 1, pos 95) ∷ []

same_entries : (n : ℤ) → lookup n other_order ≡ lookup n seen.last_seen
unfolding lookup
same_entries n = ground (arith, int_eq.beq_iff (pos 1) n, int_eq.beq_iff (pos 2) n)

deactivate_stale_nodes-settles_example :
    ((n ts : ℤ) (b : Bool)
      → lookup n seen.last_seen ≡ some ts
      → some true ≡ some b
      → read_active (deactivate_stale_nodes active_db (pos 100) (pos 60) other_order seen.pool).1 n
        ≡ some (leb_ℤ (pos 100 -ℤ ts) (pos 60)))
    × ((n : ℤ)
        → lookup n seen.last_seen ≡ none
        → read_active
            (deactivate_stale_nodes active_db (pos 100) (pos 60) other_order seen.pool).1
            n
          ≡ some true)
unfolding lookup deactivate_stale_nodes after_ok
deactivate_stale_nodes-settles_example =
    deactivate_stale_nodes-settles active_db read_active active-ActivityLaws (pos 100) (pos 60) seen
      other_order (omega arith) (omega arith) (refl, (refl, tt)) same_entries refl
