-- ===== src/Storage/Postgres/Stale/Correct.antt =====
-- What a pass of `DeactivateStaleNodes` of src/internal/storage/postgres.go leaves in the database.
use timesync_analyzer.Common.{
  List, [], ◌∷◌, ◌≡◌, ◌≢◌, refl, ◌∙◌, Bool, true, false, not, Option, none, some, arith, Bool-cases,
  inl, inr, ap, ◌^◌, ◌-◌,
}
use timesync_analyzer.Common.Assoc.{lookup}
use timesync_analyzer.Common.Int.{ℤ, pos, negsuc, int_eq, ◌-ℤ◌, ◌≤ℤ◌, ◌<ℤ◌, leb_ℤ, sub_saturated}
use timesync_analyzer.Storage.Postgres.{Database, PostgresStorage, set_inactive, set_active}
use timesync_analyzer.Storage.Postgres.Stale.{
  is_stale, activity_statement, after_ok, deactivate_stale_nodes,
}

-- No key stands twice.
abbrev pub DistinctKeys : List (ℤ × ℤ) → Type 0
DistinctKeys [] = Unit {0}
DistinctKeys ((key, value) ∷ entries) = (lookup key entries ≡ none) × DistinctKeys entries

-- What PostgreSQL does with the two statements: `active` is the column `is_active` of a node, `none`
-- for a number that has no row. A row that is not updated keeps it.
pub record ActivityLaws {D T : Type 0} (db : Database D T) (active : D → ℤ → Option Bool)
    : Type 0 where
  pub inactive :
      (d : D) (n : ℤ) {b : Bool}
      → active d n ≡ some b
      → (db.exec (set_inactive n) d).0 ≡ true
      → active (db.exec (set_inactive n) d).1 n ≡ some false
  pub activated :
      (d : D) (n ts : ℤ) {b : Bool}
      → active d n ≡ some b
      → (db.exec (set_active n ts) d).0 ≡ true
      → active (db.exec (set_active n ts) d).1 n ≡ some true
  pub inactive_others :
      (d : D) (n m : ℤ) → n ≢ m → active (db.exec (set_inactive n) d).1 m ≡ active d m
  pub activated_others :
      (d : D) (n ts m : ℤ) → n ≢ m → active (db.exec (set_active n ts) d).1 m ≡ active d m

module _ {D T : Type 0} (db : Database D T) (active : D → ℤ → Option Bool)
    (laws : ActivityLaws db active) (now timeout : ℤ) where
  activity-own :
      (d : D) (n ts : ℤ) {b : Bool}
      → active d n ≡ some b
      → (db.exec (activity_statement now timeout n ts) d).0 ≡ true
      → active (db.exec (activity_statement now timeout n ts) d).1 n
        ≡ some (not (is_stale now timeout ts))
  unfolding activity_statement
  activity-own d n ts known ok = elim (Bool-cases (is_stale now timeout ts)) [
    | inl h ↦ ground (arith, h, laws.inactive d n known)
    | inr h ↦ ground (arith, h, laws.activated d n ts known)
  ]

  activity-others :
      (d : D) (n ts m : ℤ)
      → n ≢ m
      → active (db.exec (activity_statement now timeout n ts) d).1 m ≡ active d m
  unfolding activity_statement
  activity-others d n ts m differ = elim (Bool-cases (is_stale now timeout ts)) [
    | inl h ↦ ground (arith, h, laws.inactive_others d n m differ)
    | inr h ↦ ground (arith, h, laws.activated_others d n ts m differ)
  ]

  -- The nodes of the list, and the others.
  abbrev Settled : List (ℤ × ℤ) → D → D → Type 0
  Settled entries d e =
      ((n ts : ℤ) (b : Bool)
        → lookup n entries ≡ some ts
        → active d n ≡ some b
        → active e n ≡ some (not (is_stale now timeout ts)))
      × ((n : ℤ) → lookup n entries ≡ none → active e n ≡ active d n)

  -- One statement, and the rest of the loop after its answer.
  Settled-after :
      (entries : List (ℤ × ℤ)) (d : D) (key value : ℤ) (answer : Bool × D)
      → ((b : Bool)
          → active d key ≡ some b
          → answer.0 ≡ true
          → active answer.1 key ≡ some (not (is_stale now timeout value)))
      → ((m : ℤ) → key ≢ m → active answer.1 m ≡ active d m)
      → lookup key entries ≡ none
      → (after_ok db now timeout (deactivate_stale_nodes db now timeout entries) answer).0 ≡ true
      → ((e : D)
          → (deactivate_stale_nodes db now timeout entries e).0 ≡ true
          → Settled entries e (deactivate_stale_nodes db now timeout entries e).1)
      → Settled
          ((key, value) ∷ entries)
          d
          (after_ok db now timeout (deactivate_stale_nodes db now timeout entries) answer).1
  unfolding after_ok lookup
  Settled-after entries d key value (false, e) own others missing ok rest = cc
  Settled-after entries d key value (true, e) own others missing ok rest =
      let (inside, outside) = rest e ok in
      (
        λ n ts b found known.
            ground (arith, int_eq.beq_iff key n, inside n ts b, outside n, own b, others n),
        λ n absent. ground (arith, int_eq.beq_iff key n, outside n, others n),
      )

  settled :
      (entries : List (ℤ × ℤ)) (d : D)
      → DistinctKeys entries
      → (deactivate_stale_nodes db now timeout entries d).0 ≡ true
      → Settled entries d (deactivate_stale_nodes db now timeout entries d).1
  unfolding deactivate_stale_nodes lookup
  settled [] d distinct ok = (λ n ts b found known. cc, λ n missing. refl)
  settled ((key, value) ∷ entries) d (missing, distinct) ok =
      Settled-after entries d key value (db.exec (activity_statement now timeout key value) d)
        (λ b. activity-own d key value) (activity-others d key value) missing ok
        (λ e. settled entries e distinct)

  -- Where the timeout is a duration below the longest, the saturation of `Sub` makes no difference.
  stale-late :
      (ts : ℤ)
      → negsuc (2 ^ 63 - 1) ≤ℤ timeout
      → timeout <ℤ pos (2 ^ 63 - 1)
      → not (is_stale now timeout ts) ≡ leb_ℤ (now -ℤ ts) timeout
  unfolding is_stale sub_saturated
  stale-late ts low high = ground arith

  -- If a pass over the entries of `lastSeen`, in any order, gives no error, with a timeout that is a
  -- duration below the longest, then every node that was seen and has a row is active if it was seen
  -- within the timeout, `now - ts <= timeout`, and inactive if not, and no other node changed.
  pub deactivate_stale_nodes-settles :
      (s : PostgresStorage D) (snapshot : List (ℤ × ℤ))
      → negsuc (2 ^ 63 - 1) ≤ℤ timeout
      → timeout <ℤ pos (2 ^ 63 - 1)
      → DistinctKeys snapshot
      → ((n : ℤ) → lookup n snapshot ≡ lookup n s.last_seen)
      → (deactivate_stale_nodes db now timeout snapshot s.pool).0 ≡ true
      → ((n ts : ℤ) (b : Bool)
          → lookup n s.last_seen ≡ some ts
          → active s.pool n ≡ some b
          → active (deactivate_stale_nodes db now timeout snapshot s.pool).1 n
            ≡ some (leb_ℤ (now -ℤ ts) timeout))
        × ((n : ℤ)
            → lookup n s.last_seen ≡ none
            → active (deactivate_stale_nodes db now timeout snapshot s.pool).1 n ≡ active s.pool n)
  deactivate_stale_nodes-settles s snapshot low high distinct same ok =
      let (inside, outside) = settled snapshot s.pool distinct ok in
      (
        λ n ts b found known.
            inside n ts b (same n ∙ found) known ∙ ap some (stale-late ts low high),
        λ n absent. outside n (same n ∙ absent),
      )
