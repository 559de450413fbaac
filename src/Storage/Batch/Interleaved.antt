-- ===== src/Storage/Batch/Interleaved.antt =====
-- One buffer of src/internal/storage/batch_pg.go under concurrent inserts and flushes. The mutex is
-- held for the append of an insert, for the first part of a flush, which takes the rows, and for the
-- last part, which puts them back on an error; the copy between the two runs unlocked, so inserts
-- and other flushes may come in between.
use timesync_analyzer.Common.{
  ℕ, ◌+◌, ◌≡◌, refl, ap, sym, subst, inl, inr, List, [], ◌∷◌, ◌++◌, map, arith,
}
use timesync_analyzer.Storage.Tx.{Outcomes}
use timesync_analyzer.Storage.Tx.Handed.{Handed}
use timesync_analyzer.Storage.Batch.Buffer.{
  Buffered, Copy, empty, append, take_rows, flush_rows, handed_row, flush_rows_cases,
}

-- `inflight` holds the rows of the flushes between their two locked parts, `inserted` all rows ever
-- inserted.
pub record Shared (A : Type 0) : Type 0 where
  pub buffer : Buffered A
  pub inflight : List (List A)
  pub inserted : List A

abbrev pub start : {A : Type 0} → Shared A
start = record { buffer = empty; inflight = []; inserted = [] }

pub data Step {A : Type 0} (c : Copy A) (s : Shared A) : Shared A → Type 0 where
  insert :
      (row : A)
      → Step c s (record s { buffer = append row s.buffer; inserted = s.inserted ++ row ∷ [] })
  take :
      Step c s (record s {
        buffer = (take_rows s.buffer).1;
        inflight = (take_rows s.buffer).0 ∷ s.inflight;
      })
  -- The copy with its outcomes, and the last part.
  finishes :
      (before after : List (List A)) (rows : List A) (out : Outcomes)
      → s.inflight ≡ before ++ rows ∷ after
      → Step c s
          (record s { buffer = (flush_rows c out rows s.buffer).rest; inflight = before ++ after })

pub data Reach {A : Type 0} (c : Copy A) : Shared A → Type 0 where
  here : Reach c start
  next : {s t : Shared A} → Reach c s → Step c s t → Reach c t

pub total {ℓ} : {A : Type ℓ} → (A → ℕ) → List A → ℕ
total weight [] = 0
total weight (x ∷ xs) = weight x + total weight xs

total-append {ℓ} :
    {A : Type ℓ} (weight : A → ℕ) (xs ys : List A)
    → total weight (xs ++ ys) ≡ total weight xs + total weight ys
unfolding total
total-append weight [] ys = omega arith
total-append weight (x ∷ xs) ys = omega (arith, total-append weight xs ys)

-- `weight` is any weight of the rows that calls can hand on: with the one that is 1 at some row and 0 at
-- all others, this counts that row.
module _ {A : Type 0} (c : Copy A) (weight : Handed → ℕ) where
  abbrev pub weight_of : A → ℕ
  weight_of row = weight (handed_row c row)

  pub total_inflight : List (List A) → ℕ
  unfolding total
  total_inflight [] = 0
  total_inflight (xs ∷ xss) = total weight_of xs + total_inflight xss

  total_inflight-append :
      (xs ys : List (List A)) → total_inflight (xs ++ ys) ≡ total_inflight xs + total_inflight ys
  unfolding total_inflight
  total_inflight-append [] ys = omega arith
  total_inflight-append (x ∷ xs) ys = omega (arith, total_inflight-append xs ys)

  total-map : (rows : List A) → total weight (map (handed_row c) rows) ≡ total weight_of rows
  unfolding total
  total-map [] = refl
  total-map (row ∷ rows) = omega (arith, total-map rows)

  total-flush_rows :
      (out : Outcomes) (rows : List A) (b : Buffered A)
      → total weight (flush_rows c out rows b).rest.written
          + total weight_of (flush_rows c out rows b).rest.buf
        ≡ total weight b.written + total weight_of rows + total weight_of b.buf
  total-flush_rows out rows b = elim (flush_rows_cases c out rows b) [
    | inl (ok, e) ↦
        subst
          (λ r.
            total weight r.written + total weight_of r.buf
            ≡ total weight b.written + total weight_of rows + total weight_of b.buf)
          (sym e)
          (omega (arith, total-append weight b.written (map (handed_row c) rows), total-map rows))
    | inr (why, failed, e) ↦
        subst
          (λ r.
            total weight r.written + total weight_of r.buf
            ≡ total weight b.written + total weight_of rows + total weight_of b.buf)
          (sym e) (omega (arith, total-append weight_of rows b.buf))
  ]

  abbrev pub Conserved : Shared A → Type 0
  Conserved s =
      total weight_of s.inserted
      ≡ total weight s.buffer.written + total_inflight s.inflight + total weight_of s.buffer.buf

  Step-Conserved : {s t : Shared A} → Step c s t → Conserved s → Conserved t
  unfolding append take_rows total total_inflight
  Step-Conserved {s = s} (insert row) h = omega (
    arith,
    total-append weight_of s.inserted (row ∷ []),
    total-append weight_of s.buffer.buf (row ∷ []),
  )
  Step-Conserved take h = omega arith
  Step-Conserved {s = s} (finishes before after rows out e) h = omega (
    arith,
    total-flush_rows out rows s.buffer,
    total_inflight-append before after,
    total_inflight-append before (rows ∷ after),
    ap total_inflight e,
  )

  -- However inserts and flushes interleave, and whichever copies fail: each row that was inserted is,
  -- as often as it was inserted, among the rows that the calls copied, moved on by the INSERT of the
  -- copy and committed, or with a flush in flight, or in the buffer.
  pub Reach-Conserved : {s : Shared A} → Reach c s → Conserved s
  unfolding total total_inflight
  Reach-Conserved here = omega arith
  Reach-Conserved (next r st) = Step-Conserved st (Reach-Conserved r)
