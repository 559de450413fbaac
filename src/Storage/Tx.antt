-- ===== src/Storage/Tx.antt =====
-- `copyViaTempTable` of src/internal/storage/batch_pg.go: one transaction on one connection of the
-- pool. The database is outside: each of its six calls succeeds or fails as `Outcomes` says, and
-- the calls that the function makes are its result, with the error that it returns.
pub mod Handed
use timesync_analyzer.Common.{ℕ, ◌+◌, ◌≡◌, List, [], ◌∷◌, ◌++◌, Option, none, some, String, arith}
use timesync_analyzer.Storage.Rows.{Value}

-- `none` is success.
pub record Outcomes : Type 0 where
  pub acquire : Option String
  pub begin : Option String
  pub create_temp : Option String
  pub copy_from : Option String
  pub insert_select : Option String
  pub commit : Option String

-- The calls that reach the database; `begin` stands in the list only if a transaction was begun.
pub data DbCall : Type 0 where
  acquired begun committed rollback release : DbCall
  exec : String → DbCall
  copied : String → List String → List (List Value) → DbCall

-- The statements of the transaction, under the deferred rollback: what was called, whether
-- `committed` was set, and the error.
unfoldable pub copy_in_tx :
    Outcomes
    → String
    → String
    → List String
    → List (List Value)
    → String
    → List DbCall × Option String
copy_in_tx out create_temp_sql temp_table columns rows insert_sql = elim out.create_temp [
  | some e ↦ (exec create_temp_sql ∷ rollback ∷ [], some e)
  | none ↦ elim out.copy_from [
    | some e ↦ (exec create_temp_sql ∷ copied temp_table columns rows ∷ rollback ∷ [], some e)
    | none ↦ elim out.insert_select [
      | some e ↦ (
        exec create_temp_sql ∷ copied temp_table columns rows ∷ exec insert_sql ∷ rollback ∷ [],
        some e,
      )
      | none ↦ elim out.commit [
        | some e ↦ (
          exec create_temp_sql ∷ copied temp_table columns rows ∷ exec insert_sql ∷ rollback ∷ [],
          some e,
        )
        | none ↦ (
          exec create_temp_sql ∷ copied temp_table columns rows ∷ exec insert_sql ∷ committed ∷ [],
          none,
        )
      ]
    ]
  ]
]

unfoldable pub copy_via_temp_table :
    Outcomes
    → String
    → String
    → List String
    → List (List Value)
    → String
    → List DbCall × Option String
unfolding copy_in_tx
copy_via_temp_table out create_temp_sql temp_table columns rows insert_sql = elim out.acquire [
  | some e ↦ ([], some e)
  | none ↦ elim out.begin [
    | some e ↦ (acquired ∷ release ∷ [], some e)
    | none ↦
        let (calls, error) = copy_in_tx out create_temp_sql temp_table columns rows insert_sql in
        (acquired ∷ begun ∷ calls ++ release ∷ [], error)
  ]
]

abbrev pub weight_begun : DbCall → ℕ
weight_begun begun = 1
weight_begun _ = 0

abbrev pub weight_ended : DbCall → ℕ
weight_ended committed = 1
weight_ended rollback = 1
weight_ended _ = 0

abbrev pub weight_acquired : DbCall → ℕ
weight_acquired acquired = 1
weight_acquired _ = 0

abbrev pub weight_release : DbCall → ℕ
weight_release release = 1
weight_release _ = 0

abbrev pub weight_committed : DbCall → ℕ
weight_committed committed = 1
weight_committed _ = 0

abbrev pub count : (DbCall → ℕ) → List DbCall → ℕ
count weight [] = 0
count weight (c ∷ cs) = weight c + count weight cs

abbrev pub as_number : Option String → ℕ
as_number none = 1
as_number (some _) = 0

module _ (out : Outcomes) (create_temp_sql temp_table : String) (columns : List String)
    (rows : List (List Value)) (insert_sql : String) where
  -- Whatever call fails: a connection that was acquired is released exactly once, a transaction
  -- that was begun is ended exactly once, by a commit or by a rollback, and it is committed exactly
  -- if no error is returned.
  pub copy_via_temp_table_balanced :
      let r = copy_via_temp_table out create_temp_sql temp_table columns rows insert_sql in
      (count weight_release r.0 ≡ count weight_acquired r.0)
      × (count weight_ended r.0 ≡ count weight_begun r.0)
      × (count weight_committed r.0 ≡ as_number r.1)
  unfolding copy_via_temp_table
  copy_via_temp_table_balanced = ground arith
