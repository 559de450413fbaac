-- ===== src/Storage/Postgres/Topology/Statements.antt =====
-- The statements of a successful `InsertPtpTopologySnapshot` of src/internal/storage/postgres.go.
use timesync_analyzer.Common.{
  List, [], ◌∷◌, ◌||◌, arith, ◌≡◌, refl, subst, Bool, true, false, Option, none, some,
  if◌then◌else◌, ◌⊎◌, inl, inr,
}
use timesync_analyzer.Common.Int.{ℤ, pos}
use timesync_analyzer.Common.Text.{Text, text, text_beq, is_empty}
use timesync_analyzer.App.Handlers.Messages.{PtpTopologySnapshot}
use timesync_analyzer.Storage.Postgres.{
  Statement, Database, insert_into_ptp_clocks, insert_into_ptp_topology_edges,
}
use timesync_analyzer.Storage.Postgres.Topology.{
  InTx, continue, or_null, query, execute_tx, upsert_ptp_clock, insert_ptp_topology_edge,
  has_observed, has_inferred, executed, when_true, write_edges, write_snapshot, ◌>>=◌,
}

-- The statement for a clock whose identity is known.
abbrev pub clock_statements : Text → Option ℤ → Text → List Statement
clock_statements clock_identity node kind =
    if is_empty clock_identity then [] else insert_into_ptp_clocks clock_identity node kind ∷ []

-- The edge from the parent to the local clock, if there is another clock for parent.
abbrev pub observed_statements :
    (ts : ℤ) → PtpTopologySnapshot → (local_id parent_id grandmaster_id : ℤ) → List Statement
observed_statements ts snapshot local_id parent_id grandmaster_id =
    if is_empty snapshot.parent_clock_identity
      || text_beq snapshot.parent_clock_identity snapshot.local_clock_identity
    then []
    else insert_into_ptp_topology_edges ts (text "observed") local_id (or_null snapshot.child_port)
        parent_id (or_null snapshot.parent_port) (or_null grandmaster_id)
        (or_null snapshot.steps_removed) (or_null snapshot.path_delay_ns)
      ∷ []

-- The edge from the grandmaster to the parent, if these are known and differ.
abbrev pub inferred_statements :
    (ts : ℤ) → PtpTopologySnapshot → (parent_id grandmaster_id : ℤ) → List Statement
inferred_statements ts snapshot parent_id grandmaster_id =
    if is_empty snapshot.grandmaster_identity
      || is_empty snapshot.parent_clock_identity
      || text_beq snapshot.grandmaster_identity snapshot.parent_clock_identity
    then []
    else insert_into_ptp_topology_edges ts (text "inferred") parent_id none grandmaster_id none
        (or_null grandmaster_id) none none
      ∷ []

observed-eq :
    (snapshot : PtpTopologySnapshot) (edges : List Statement)
    → (if has_observed snapshot then edges else []) ≡ (
        if is_empty snapshot.parent_clock_identity
          || text_beq snapshot.parent_clock_identity snapshot.local_clock_identity
        then []
        else edges)
unfolding has_observed
observed-eq snapshot edges = ground arith

inferred-eq :
    (snapshot : PtpTopologySnapshot) (edges : List Statement)
    → (if has_inferred snapshot then edges else []) ≡ (
        if is_empty snapshot.grandmaster_identity
          || is_empty snapshot.parent_clock_identity
          || text_beq snapshot.grandmaster_identity snapshot.parent_clock_identity
        then []
        else edges)
unfolding has_inferred
inferred-eq snapshot edges = ground arith

module _ {D T : Type 0} (db : Database D T) where
  -- Whether a statement in a transaction gave no error, and the transaction after it: `QueryRow` for a
  -- clock, `Exec` for an edge.
  abbrev pub answer : Statement → T → Bool × T
  answer (insert_into_ptp_clocks clock_identity node kind) tx =
      let r = db.tx_query_row (insert_into_ptp_clocks clock_identity node kind) tx in
      (elim r.0 [ none ↦ false | some id ↦ true ], r.1)
  answer statement tx = db.tx_exec statement tx

  -- The statements were carried out, in order and without an error, from one state of a transaction to
  -- another.
  abbrev pub Carried : T → List Statement → T → Type 0
  Carried tx [] after = after ≡ tx
  Carried tx (statement ∷ statements) after =
      ((answer statement tx).0 ≡ true) × Carried (answer statement tx).1 statements after

  Carried-same :
      {one two : List Statement} (tx after : T)
      → one ≡ two
      → Carried tx one after
      → Carried tx two after
  Carried-same tx after e c = subst (λ statements. Carried tx statements after) e c

  -- The database gave this number to the clock in this state, or there was no identity and it is 0.
  abbrev pub IsNumber : T → Text → Option ℤ → Text → ℤ → Type 0
  IsNumber tx clock_identity node kind id =
      ((is_empty clock_identity ≡ true) × (id ≡ pos 0))
      ⊎ ((is_empty clock_identity ≡ false)
          × ((db.tx_query_row (insert_into_ptp_clocks clock_identity node kind) tx).0 ≡ some id))

  -- A successful run went from one state to another as `P` says of the two and of its value.
  abbrev Goes : {A : Type 0} → InTx T A → (T → A → T → Type 0) → Type 0
  Goes {A} m P = (tx : T) (a : A) → (m tx).0 ≡ some a → P tx a (m tx).1

  continue-Goes :
      {A B : Type 0} (f : A → InTx T B) (P : A → T → Type 0) (Q : A → T → B → T → Type 0)
      (r : Option A × T)
      → ((a : A) → r.0 ≡ some a → P a r.1)
      → ((a : A) → Goes (f a) (Q a))
      → (b : B) → (continue f r).0 ≡ some b
      → (a : A) × (middle : T) × P a middle × Q a middle b (continue f r).1
  continue-Goes f P Q (none, tx) first next b ok = cc
  continue-Goes f P Q (some a, tx) first next b ok = (a, tx, first a refl, next a tx b ok)

  upsert_ptp_clock-Goes :
      (clock_identity : Text) (node_id : ℤ) (kind : Text)
      → Goes (upsert_ptp_clock db clock_identity node_id kind) (λ tx id after.
        IsNumber tx clock_identity (or_null node_id) kind id
        × Carried tx (clock_statements clock_identity (or_null node_id) kind) after)
  unfolding upsert_ptp_clock query
  upsert_ptp_clock-Goes [] node_id kind tx id ok = (inl (refl, cc), refl)
  upsert_ptp_clock-Goes (c ∷ clock_identity) node_id kind tx id ok =
      (inr (refl, ok), (rw ok refl, refl))

  executed-ok : (ok : Bool) (done : Unit {0}) → executed db ok ≡ some done → ok ≡ true
  unfolding executed
  executed-ok true done e = refl
  executed-ok false done e = cc

  edge-Goes :
      (b : Bool) (ts : ℤ) (kind : Text) (child : ℤ) (child_port : Option ℤ) (parent : ℤ)
      (parent_port grandmaster steps delay : Option ℤ)
      → let edge =
          insert_into_ptp_topology_edges ts kind child child_port parent parent_port grandmaster
            steps delay in
        Goes
          (when_true db b (execute_tx db edge))
          (λ tx done after. Carried tx (if b then edge ∷ [] else []) after)
  unfolding when_true execute_tx
  edge-Goes true ts kind child child_port parent parent_port grandmaster steps delay tx done ok =
      (executed-ok _ done ok, refl)
  edge-Goes false ts kind child child_port parent parent_port grandmaster steps delay tx done ok =
      refl

  module _ (ts : ℤ) (snapshot : PtpTopologySnapshot) where
    -- From the edges on: the statements of both edges.
    abbrev pub EdgesWritten : (local_id parent_id grandmaster_id : ℤ) → T → T → Type 0
    EdgesWritten local_id parent_id grandmaster_id third after =
        (between : T) × Carried third
          (observed_statements ts snapshot local_id parent_id grandmaster_id) between
        × Carried between (inferred_statements ts snapshot parent_id grandmaster_id) after

    write_edges-Goes :
        (local_id parent_id grandmaster_id : ℤ)
        → Goes
            (write_edges db ts snapshot local_id parent_id grandmaster_id)
            (λ tx done after. EdgesWritten local_id parent_id grandmaster_id tx after)
    unfolding write_edges insert_ptp_topology_edge or_null
    write_edges-Goes local_id parent_id grandmaster_id tx done ok =
        let (_, middle, first, second) =
          continue-Goes _
            (λ a between.
              Carried tx (observed_statements ts snapshot local_id parent_id grandmaster_id)
                between)
            (λ a between b after.
              Carried between (inferred_statements ts snapshot parent_id grandmaster_id) after)
            _
            (λ a found.
              Carried-same tx _ (observed-eq snapshot _)
                (edge-Goes (has_observed snapshot) _ _ _ _ _ _ _ _ _ tx a found))
            (λ a between b found.
              Carried-same between _ (inferred-eq snapshot _)
                (edge-Goes (has_inferred snapshot) _ _ _ _ _ _ _ _ _ between b found))
            done ok in
        (middle, first, second)

    -- From the grandmaster on.
    abbrev pub GrandmasterWritten : (local_id parent_id : ℤ) → T → T → Type 0
    GrandmasterWritten local_id parent_id second after =
        (grandmaster_id : ℤ) × (third : T) × IsNumber second snapshot.grandmaster_identity none
          (text "grandmaster") grandmaster_id
        × Carried second (clock_statements snapshot.grandmaster_identity none (text "grandmaster"))
            third
        × EdgesWritten local_id parent_id grandmaster_id third after

    -- From the parent on.
    abbrev pub ParentWritten : (local_id : ℤ) → T → T → Type 0
    ParentWritten local_id first after =
        (parent_id : ℤ) × (second : T) × IsNumber first snapshot.parent_clock_identity none
          (text "parent") parent_id
        × Carried first (clock_statements snapshot.parent_clock_identity none (text "parent"))
            second
        × GrandmasterWritten local_id parent_id second after

    -- What a transaction did from its start to its end: the clocks were asked for one after the other,
    -- each in the state that the one before left, and then the edges were written with their numbers.
    abbrev pub Written : (node_id : ℤ) → T → T → Type 0
    Written node_id tx after =
        (local_id : ℤ) × (first : T) × IsNumber tx snapshot.local_clock_identity (or_null node_id)
          (text "local") local_id
        × Carried tx
            (clock_statements snapshot.local_clock_identity (or_null node_id) (text "local")) first
        × ParentWritten local_id first after

    -- The part of a chain for one clock.
    abbrev Clock : Text → Option ℤ → Text → T → ℤ → T → Type 0
    Clock clock_identity node kind tx id after =
        IsNumber tx clock_identity node kind id
        × Carried tx (clock_statements clock_identity node kind) after

    GrandmasterWritten-Goes :
        (local_id parent_id : ℤ)
        → Goes
            (upsert_ptp_clock db snapshot.grandmaster_identity (pos 0) (text "grandmaster")
              >>= write_edges db ts snapshot local_id parent_id)
            (λ tx done after. GrandmasterWritten local_id parent_id tx after)
    unfolding or_null
    GrandmasterWritten-Goes local_id parent_id tx done ok =
        let (g, third, clock, edges) =
          continue-Goes _ (Clock snapshot.grandmaster_identity none (text "grandmaster") tx)
            (λ g third b after. EdgesWritten local_id parent_id g third after) _
            (upsert_ptp_clock-Goes snapshot.grandmaster_identity (pos 0) (text "grandmaster") tx)
            (write_edges-Goes local_id parent_id) done ok in
        (g, third, clock.0, clock.1, edges)

    ParentWritten-Goes :
        (local_id : ℤ)
        → Goes
            (upsert_ptp_clock db snapshot.parent_clock_identity (pos 0) (text "parent")
              >>= λ parent_id.
                  upsert_ptp_clock db snapshot.grandmaster_identity (pos 0) (text "grandmaster")
                  >>= write_edges db ts snapshot local_id parent_id)
            (λ tx done after. ParentWritten local_id tx after)
    unfolding or_null
    ParentWritten-Goes local_id tx done ok =
        let (parent_id, second, clock, rest) =
          continue-Goes _ (Clock snapshot.parent_clock_identity none (text "parent") tx)
            (λ p second b after. GrandmasterWritten local_id p second after) _
            (upsert_ptp_clock-Goes snapshot.parent_clock_identity (pos 0) (text "parent") tx)
            (GrandmasterWritten-Goes local_id) done ok in
        (parent_id, second, clock.0, clock.1, rest)

    pub write_snapshot-Written :
        (node_id : ℤ) (tx : T) (done : Unit {0})
        → (write_snapshot db ts node_id snapshot tx).0 ≡ some done
        → Written node_id tx (write_snapshot db ts node_id snapshot tx).1
    unfolding write_snapshot
    write_snapshot-Written node_id tx done ok =
        let (local_id, first, clock, rest) =
          continue-Goes _ (Clock snapshot.local_clock_identity (or_null node_id) (text "local") tx)
            (λ l first b after. ParentWritten l first after) _
            (upsert_ptp_clock-Goes snapshot.local_clock_identity node_id (text "local") tx)
            ParentWritten-Goes done ok in
        (local_id, first, clock.0, clock.1, rest)
