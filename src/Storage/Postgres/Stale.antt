-- ===== src/Storage/Postgres/Stale.antt =====
-- `DeactivateStaleNodes` of src/internal/storage/postgres.go. Go's order over the copied map is any.
pub mod Correct
use timesync_analyzer.Common.{List, [], ◌∷◌, Bool, true, false, if◌then◌else◌}
use timesync_analyzer.Common.Int.{ℤ, ltb_ℤ, sub_saturated}
use timesync_analyzer.Storage.Postgres.{Statement, Database, set_inactive, set_active}

-- `now.Sub(ts) > timeout`
unfoldable pub is_stale : (now timeout ts : ℤ) → Bool
is_stale now timeout ts = ltb_ℤ timeout (sub_saturated now ts)

pub activity_statement : (now timeout node_id ts : ℤ) → Statement
activity_statement now timeout node_id ts =
    if is_stale now timeout ts then set_inactive node_id else set_active node_id ts

module _ {D T : Type 0} (db : Database D T) (now timeout : ℤ) where
  -- The rest of the loop after one statement, if it gave no error.
  unfoldable pub after_ok : (D → Bool × D) → Bool × D → Bool × D
  after_ok rest (false, pool) = (false, pool)
  after_ok rest (true, pool) = rest pool

  -- The loop, over the entries of `lastSeen` in the order of this run.
  unfoldable pub deactivate_stale_nodes : List (ℤ × ℤ) → D → Bool × D
  deactivate_stale_nodes [] pool = (true, pool)
  deactivate_stale_nodes ((node_id, ts) ∷ snapshot) pool =
      after_ok (deactivate_stale_nodes snapshot)
        (db.exec (activity_statement now timeout node_id ts) pool)
