-- ===== src/Storage/Postgres/Topology.antt =====
-- `InsertPtpTopologySnapshot` of src/internal/storage/postgres.go, one transaction.
pub mod Statements
pub mod Atomic
use timesync_analyzer.Common.{
  [], ◌∷◌, Bool, true, false, ◌&&◌, not, Option, none, some, if◌then◌else◌,
}
use timesync_analyzer.Common.Int.{ℤ, pos, int_beq}
use timesync_analyzer.Common.Text.{Text, text, text_beq, is_empty}
use timesync_analyzer.App.Handlers.Messages.{PtpTopologySnapshot}
use timesync_analyzer.Storage.Postgres.{
  Statement, Database, PostgresStorage, insert_into_ptp_clocks, insert_into_ptp_topology_edges,
}

-- `none` is an error, which leaves the function.
abbrev pub InTx : Type 0 → Type 0 → Type 0
InTx T A = T → Option A × T

abbrev pub continue : {T A B : Type 0} → (A → InTx T B) → Option A × T → Option B × T
continue f (none, tx) = (none, tx)
continue f (some a, tx) = f a tx

infixl 5 ◌>>=◌
abbrev pub ◌>>=◌ : {T A B : Type 0} → InTx T A → (A → InTx T B) → InTx T B
◌>>=◌ m f tx = continue f (m tx)

-- A number that is 0 when it is not known becomes NULL.
pub or_null : ℤ → Option ℤ
or_null n = if int_beq n (pos 0) then none else some n

pub has_observed : PtpTopologySnapshot → Bool
has_observed snapshot =
    not (is_empty snapshot.parent_clock_identity)
    && not (text_beq snapshot.parent_clock_identity snapshot.local_clock_identity)

pub has_inferred : PtpTopologySnapshot → Bool
has_inferred snapshot =
    not (is_empty snapshot.grandmaster_identity)
    && (not (is_empty snapshot.parent_clock_identity)
        && not (text_beq snapshot.grandmaster_identity snapshot.parent_clock_identity))

module _ {D T : Type 0} (db : Database D T) where
  pub query : Statement → InTx T ℤ
  query statement tx = db.tx_query_row statement tx

  unfoldable pub executed : Bool → Option (Unit {0})
  executed true = some tt
  executed false = none

  pub execute_tx : Statement → InTx T (Unit {0})
  execute_tx statement tx = let (ok, tx') = db.tx_exec statement tx in (executed ok, tx')

  pub upsert_ptp_clock : Text → ℤ → Text → InTx T ℤ
  upsert_ptp_clock [] node_id kind tx = (some (pos 0), tx)
  upsert_ptp_clock (c ∷ clock_identity) node_id kind tx =
      query (insert_into_ptp_clocks (c ∷ clock_identity) (or_null node_id) kind) tx

  pub insert_ptp_topology_edge :
      (ts : ℤ) (edge_kind : Text)
      (child_clock_id child_port parent_clock_id parent_port grandmaster_clock_id steps_removed
        path_delay_ns : ℤ)
      → InTx T (Unit {0})
  insert_ptp_topology_edge ts edge_kind child_clock_id child_port parent_clock_id parent_port
        grandmaster_clock_id steps_removed path_delay_ns =
      execute_tx (
        insert_into_ptp_topology_edges ts edge_kind child_clock_id (or_null child_port)
          parent_clock_id (or_null parent_port) (or_null grandmaster_clock_id)
          (or_null steps_removed) (or_null path_delay_ns))

  pub when_true : Bool → InTx T (Unit {0}) → InTx T (Unit {0})
  when_true true m tx = m tx
  when_true false m tx = (some tt, tx)

  -- The two edges of a snapshot whose clocks have these numbers.
  pub write_edges :
      (ts : ℤ)
      → PtpTopologySnapshot
      → (local_clock_id parent_clock_id grandmaster_clock_id : ℤ) → InTx T (Unit {0})
  write_edges ts snapshot local_clock_id parent_clock_id grandmaster_clock_id =
      when_true (has_observed snapshot) (
        insert_ptp_topology_edge ts (text "observed") local_clock_id snapshot.child_port
          parent_clock_id snapshot.parent_port grandmaster_clock_id snapshot.steps_removed
          snapshot.path_delay_ns)
      >>= λ _. when_true (has_inferred snapshot) (
          insert_ptp_topology_edge ts (text "inferred") parent_clock_id (pos 0) grandmaster_clock_id
            (pos 0) grandmaster_clock_id (pos 0) (pos 0))

  -- What runs between `Begin` and `Commit`.
  pub write_snapshot : (ts node_id : ℤ) → PtpTopologySnapshot → InTx T (Unit {0})
  write_snapshot ts node_id snapshot = do
    local_clock_id ← upsert_ptp_clock snapshot.local_clock_identity node_id (text "local")
    parent_clock_id ← upsert_ptp_clock snapshot.parent_clock_identity (pos 0) (text "parent")
    grandmaster_clock_id ←
        upsert_ptp_clock snapshot.grandmaster_identity (pos 0) (text "grandmaster")
    write_edges ts snapshot local_clock_id parent_clock_id grandmaster_clock_id

  -- The commit, or the deferred rollback.
  pub end_tx : Option (Unit {0}) × T → Bool × D
  end_tx (none, tx) = (false, db.rollback tx)
  end_tx (some done, tx) = db.commit tx

  pub in_tx : (ts node_id : ℤ) → PtpTopologySnapshot → D → Option T → Bool × D
  in_tx ts node_id snapshot pool none = (false, pool)
  in_tx ts node_id snapshot pool (some tx) = end_tx (write_snapshot ts node_id snapshot tx)

  -- The rest of the function, knowing whether the identity of the local clock is empty.
  pub with_identity :
      (ts node_id : ℤ) → PtpTopologySnapshot → PostgresStorage D → Bool → Bool × PostgresStorage D
  with_identity ts node_id snapshot s true = (false, s)
  with_identity ts node_id snapshot s false =
      let (ok, pool) = in_tx ts node_id snapshot s.pool (db.begin s.pool) in
      (ok, record s { pool = pool })

  pub insert_ptp_topology_snapshot :
      (ts node_id : ℤ) → PtpTopologySnapshot → PostgresStorage D → Bool × PostgresStorage D
  insert_ptp_topology_snapshot ts node_id snapshot s =
      with_identity ts node_id snapshot s (is_empty snapshot.local_clock_identity)
