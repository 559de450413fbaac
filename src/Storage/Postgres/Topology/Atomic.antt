-- ===== src/Storage/Postgres/Topology/Atomic.antt =====
-- `InsertPtpTopologySnapshot` of src/internal/storage/postgres.go as a whole: all of its statements or
-- none.
use timesync_analyzer.Common.{
  [], ◌∷◌, ◌≡◌, refl, ◌∙◌, Bool, true, false, Option, none, some, ◌⊎◌, inl, inr,
}
use timesync_analyzer.Common.Int.{ℤ, pos}
use timesync_analyzer.Common.Text.{Text, text, is_empty}
use timesync_analyzer.App.Handlers.Messages.{PtpTopologySnapshot}
use timesync_analyzer.Storage.Postgres.{
  Statement, Database, PostgresStorage, insert_into_ptp_clocks, insert_into_ptp_topology_edges,
}
use timesync_analyzer.Storage.Postgres.Topology.{
  InTx, continue, or_null, executed, query, execute_tx, upsert_ptp_clock, insert_ptp_topology_edge,
  has_observed, has_inferred, when_true, write_edges, write_snapshot, end_tx, in_tx, with_identity,
  insert_ptp_topology_snapshot,
}
use timesync_analyzer.Storage.Postgres.Topology.Statements.{answer, Written, write_snapshot-Written}

-- What PostgreSQL does with a transaction: `base` is the state that it began with, which its
-- statements do not change, and which a rollback leaves. What an error of a commit leaves is open.
pub record TxLaws {D T : Type 0} (db : Database D T) (base : T → D) : Type 0 where
  pub begins : (d : D) {t : T} → db.begin d ≡ some t → base t ≡ d
  pub exec_keeps : (st : Statement) (t : T) → base (db.tx_exec st t).1 ≡ base t
  pub query_keeps : (st : Statement) (t : T) → base (db.tx_query_row st t).1 ≡ base t
  pub rolls_back : (t : T) → db.rollback t ≡ base t

module _ {D T : Type 0} (db : Database D T) where
  module _ (base : T → D) (laws : TxLaws db base) where
    -- A step in a transaction does not change the state that it began with.
    abbrev Stays : {A : Type 0} → InTx T A → Type 0
    Stays m = (tx : T) → base (m tx).1 ≡ base tx

    continue-Stays :
        {A B : Type 0} (f : A → InTx T B) (start : D) (r : Option A × T)
        → base r.1 ≡ start
        → ((a : A) → Stays (f a))
        → base (continue f r).1 ≡ start
    continue-Stays f start (none, s) e h = e
    continue-Stays f start (some a, s) e h = h a s ∙ e

    upsert_ptp_clock-Stays :
        (clock_identity : Text) (node_id : ℤ) (kind : Text)
        → Stays (upsert_ptp_clock db clock_identity node_id kind)
    unfolding upsert_ptp_clock query
    upsert_ptp_clock-Stays [] node_id kind s = refl
    upsert_ptp_clock-Stays (c ∷ clock_identity) node_id kind s = laws.query_keeps _ s

    when_true-Stays : (b : Bool) (st : Statement) → Stays (when_true db b (execute_tx db st))
    unfolding when_true execute_tx
    when_true-Stays true st s = laws.exec_keeps st s
    when_true-Stays false st s = refl

    write_edges-Stays :
        (ts : ℤ) (snapshot : PtpTopologySnapshot) (local_id parent_id grandmaster_id : ℤ)
        → Stays (write_edges db ts snapshot local_id parent_id grandmaster_id)
    unfolding write_edges insert_ptp_topology_edge
    write_edges-Stays ts snapshot local_id parent_id grandmaster_id s =
        continue-Stays _ (base s) _ (when_true-Stays (has_observed snapshot) _ s)
          (λ a. when_true-Stays (has_inferred snapshot) _)

    write_snapshot-Stays :
        (ts node_id : ℤ) (snapshot : PtpTopologySnapshot)
        → Stays (write_snapshot db ts node_id snapshot)
    unfolding write_snapshot
    write_snapshot-Stays ts node_id snapshot s =
        continue-Stays {B = Unit {0}} _ (base s)
          (upsert_ptp_clock db snapshot.local_clock_identity node_id (text "local") s)
          (upsert_ptp_clock-Stays snapshot.local_clock_identity node_id (text "local") s)
          (λ l s.
            continue-Stays {B = Unit {0}} _ (base s)
              (upsert_ptp_clock db snapshot.parent_clock_identity (pos 0) (text "parent") s)
              (upsert_ptp_clock-Stays snapshot.parent_clock_identity (pos 0) (text "parent") s)
              (λ p s.
                continue-Stays {B = Unit {0}} _ (base s)
                  (upsert_ptp_clock db snapshot.grandmaster_identity (pos 0) (text "grandmaster") s)
                  (upsert_ptp_clock-Stays snapshot.grandmaster_identity (pos 0) (text "grandmaster")
                    s)
                  (λ g. write_edges-Stays ts snapshot l p g)))

    -- A failed run met a statement that gave an error.
    abbrev pub StatementFailed : Type 0
    StatementFailed = (statement : Statement) × (tx : T) × ((answer db statement tx).0 ≡ false)

    abbrev Fails : {A : Type 0} → InTx T A → Type 0
    Fails m = (tx : T) → (m tx).0 ≡ none → StatementFailed

    continue-Fails :
        {A B : Type 0} (f : A → InTx T B) (r : Option A × T)
        → (r.0 ≡ none → StatementFailed)
        → ((a : A) → Fails (f a))
        → (continue f r).0 ≡ none
        → StatementFailed
    continue-Fails f (none, tx) first next failed = first refl
    continue-Fails f (some a, tx) first next failed = next a tx failed

    upsert_ptp_clock-Fails :
        (clock_identity : Text) (node_id : ℤ) (kind : Text)
        → Fails (upsert_ptp_clock db clock_identity node_id kind)
    unfolding upsert_ptp_clock query
    upsert_ptp_clock-Fails [] node_id kind tx failed = cc
    upsert_ptp_clock-Fails (c ∷ clock_identity) node_id kind tx failed =
        (insert_into_ptp_clocks (c ∷ clock_identity) (or_null node_id) kind, tx, rw failed refl)

    executed-none : (ok : Bool) → executed db ok ≡ none → ok ≡ false
    unfolding executed
    executed-none true failed = cc
    executed-none false failed = refl

    edge-Fails :
        (b : Bool) (ts : ℤ) (kind : Text)
        (child child_port parent parent_port grandmaster steps delay : ℤ)
        → Fails (
            when_true db b (
              insert_ptp_topology_edge db ts kind child child_port parent parent_port grandmaster
                steps delay))
    unfolding when_true insert_ptp_topology_edge execute_tx
    edge-Fails true ts kind child child_port parent parent_port grandmaster steps delay tx failed =
        (
          insert_into_ptp_topology_edges ts kind child (or_null child_port) parent
              (or_null parent_port) (or_null grandmaster) (or_null steps) (or_null delay),
          tx,
          executed-none _ failed,
        )
    edge-Fails false ts kind child child_port parent parent_port grandmaster steps delay tx failed =
        cc

    write_edges-Fails :
        (ts : ℤ) (snapshot : PtpTopologySnapshot) (local_id parent_id grandmaster_id : ℤ)
        → Fails (write_edges db ts snapshot local_id parent_id grandmaster_id)
    unfolding write_edges
    write_edges-Fails ts snapshot local_id parent_id grandmaster_id tx failed =
        continue-Fails _ _ (edge-Fails (has_observed snapshot) _ _ _ _ _ _ _ _ _ tx)
          (λ a. edge-Fails (has_inferred snapshot) _ _ _ _ _ _ _ _ _) failed

    write_snapshot-Fails :
        (ts node_id : ℤ) (snapshot : PtpTopologySnapshot)
        → Fails (write_snapshot db ts node_id snapshot)
    unfolding write_snapshot
    write_snapshot-Fails ts node_id snapshot tx failed =
        continue-Fails _ _
          (upsert_ptp_clock-Fails snapshot.local_clock_identity node_id (text "local") tx)
          (λ l tx failed.
            continue-Fails _ _
              (upsert_ptp_clock-Fails snapshot.parent_clock_identity (pos 0) (text "parent") tx)
              (λ p tx failed.
                continue-Fails _ _
                  (upsert_ptp_clock-Fails snapshot.grandmaster_identity (pos 0) (text "grandmaster")
                    tx)
                  (λ g. write_edges-Fails ts snapshot l p g) failed)
              failed)
          failed

    -- Why nothing was committed.
    abbrev pub Refused : PtpTopologySnapshot → D → Type 0
    Refused snapshot pool =
        (is_empty snapshot.local_clock_identity ≡ true) ⊎ (db.begin pool ≡ none) ⊎ StatementFailed

    -- No transaction was committed, the answer is an error and the state is as it was; or a transaction
    -- was begun in that state, it carried out all statements, and its commit gave the answer.
    abbrev pub Outcome : (ts node_id : ℤ) → PtpTopologySnapshot → D → Bool × D → Type 0
    Outcome ts node_id snapshot pool r =
        ((r.0 ≡ false) × (r.1 ≡ pool) × Refused snapshot pool)
        ⊎ ((tx : T) × (after : T) × (db.begin pool ≡ some tx)
            × Written db ts snapshot node_id tx after
            × (base after ≡ pool)
            × (db.commit after ≡ r))

    end_tx-Outcome :
        (ts node_id : ℤ) (snapshot : PtpTopologySnapshot) (pool : D) (tx : T)
        (r : Option (Unit {0}) × T)
        → db.begin pool ≡ some tx
        → base r.1 ≡ pool
        → ((done : Unit {0}) → r.0 ≡ some done → Written db ts snapshot node_id tx r.1)
        → (r.0 ≡ none → StatementFailed)
        → Outcome ts node_id snapshot pool (end_tx db r)
    unfolding end_tx
    end_tx-Outcome ts node_id snapshot pool tx (none, after) begun same written failed =
        inl (refl, laws.rolls_back after ∙ same, inr (inr (failed refl)))
    end_tx-Outcome ts node_id snapshot pool tx (some done, after) begun same written failed =
        inr (tx, after, begun, written done refl, same, refl)

    in_tx-Outcome :
        (ts node_id : ℤ) (snapshot : PtpTopologySnapshot) (pool : D) (begun : Option T)
        → db.begin pool ≡ begun
        → Outcome ts node_id snapshot pool (in_tx db ts node_id snapshot pool begun)
    unfolding in_tx
    in_tx-Outcome ts node_id snapshot pool none e = inl (refl, refl, inr (inl e))
    in_tx-Outcome ts node_id snapshot pool (some tx) e =
        end_tx-Outcome ts node_id snapshot pool tx _ e
          (write_snapshot-Stays ts node_id snapshot tx ∙ laws.begins pool e)
          (write_snapshot-Written db ts snapshot node_id tx)
          (write_snapshot-Fails ts node_id snapshot tx)

    with_identity-Outcome :
        (ts node_id : ℤ) (snapshot : PtpTopologySnapshot) (s : PostgresStorage D) (missing : Bool)
        → is_empty snapshot.local_clock_identity ≡ missing
        → Outcome ts node_id snapshot s.pool (
          (with_identity db ts node_id snapshot s missing).0,
          (with_identity db ts node_id snapshot s missing).1.pool,
        )
          × ((with_identity db ts node_id snapshot s missing).1
              ≡ record s { pool = (with_identity db ts node_id snapshot s missing).1.pool })
    unfolding with_identity
    with_identity-Outcome ts node_id snapshot s true e = (inl (refl, refl, inl e), refl)
    with_identity-Outcome ts node_id snapshot s false e =
        (in_tx-Outcome ts node_id snapshot s.pool (db.begin s.pool) refl, refl)

    -- The insertion of a topology is all or nothing. Either it commits nothing, because the local
    -- clock has no identity, or no transaction was begun, or a statement gave an error: its error is not
    -- nil and the state of the database is what it was. Or it commits one transaction, begun in that state, and
    -- the answer of this commit is its answer; in the transaction the clocks that the snapshot names were
    -- asked for one after the other, and the edges written with the numbers that the database gave these
    -- clocks, each statement without an error. The caches are untouched.
    pub insert_ptp_topology_snapshot-atomic :
        (ts node_id : ℤ) (snapshot : PtpTopologySnapshot) (s : PostgresStorage D)
        → Outcome ts node_id snapshot s.pool (
          (insert_ptp_topology_snapshot db ts node_id snapshot s).0,
          (insert_ptp_topology_snapshot db ts node_id snapshot s).1.pool,
        )
          × ((insert_ptp_topology_snapshot db ts node_id snapshot s).1
              ≡ record s { pool = (insert_ptp_topology_snapshot db ts node_id snapshot s).1.pool })
    unfolding insert_ptp_topology_snapshot
    insert_ptp_topology_snapshot-atomic ts node_id snapshot s =
        with_identity-Outcome ts node_id snapshot s (is_empty snapshot.local_clock_identity) refl
