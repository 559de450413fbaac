-- ===== src/Report/Panels/Names.antt =====
-- The names that `safeName` of src/internal/report/util.go gives.
use timesync_analyzer.Common.{
  ℕ, ◌≡◌, refl, sym, subst, if_holds, [], ◌∷◌, Bool, true, false, not, ◌&&◌, ◌||◌, ◌⊎◌, inl, inr,
  nat_beq, arith,
}
use timesync_analyzer.Common.Text.{
  Text, is_empty, trim_space, to_lower, trim_of, trim_left_of, trim_right_of,
}
use timesync_analyzer.Report.Panels.{is_allowed, safe_loop, safe_name}

-- Letters and digits with single underscores between; `prev` says that there may be none here.
abbrev pub Loose : Bool → Text → Type 0
Loose prev [] = Unit {0}
Loose prev (c ∷ s) =
    ((is_allowed c ≡ true) × Loose false s) ⊎ ((prev ≡ false) × (c ≡ b'_') × Loose true s)

-- The same, and none at the end.
abbrev pub Tidy : Bool → Text → Type 0
Tidy prev [] = prev ≡ false
Tidy prev (c ∷ s) =
    ((is_allowed c ≡ true) × Tidy false s) ⊎ ((prev ≡ false) × (c ≡ b'_') × Tidy true s)

Loose-step :
    (last written : Bool) (c : ℕ) (s : Text)
    → Loose false (safe_loop false true s)
    → Loose true (safe_loop true true s)
    → Loose (last || not written) (safe_loop last written s)
    → Loose (last || not written) (safe_loop last written (c ∷ s))
unfolding safe_loop
Loose-step true written c s kept joined left_out =
    if_holds (Loose true) (is_allowed c) _ _ (λ a. inl (a, kept)) (λ n. left_out)
Loose-step false false c s kept joined left_out =
    if_holds (Loose true) (is_allowed c) _ _ (λ a. inl (a, kept)) (λ n. left_out)
Loose-step false true c s kept joined left_out =
    if_holds (Loose false) (is_allowed c) _ _ (λ a. inl (a, kept)) (λ n. inr (refl, refl, joined))

safe_loop-Loose :
    (last written : Bool) (s : Text) → Loose (last || not written) (safe_loop last written s)
unfolding safe_loop
safe_loop-Loose last written [] = tt
safe_loop-Loose last written (c ∷ s) =
    Loose-step last written c s (safe_loop-Loose false true s) (safe_loop-Loose true true s)
      (safe_loop-Loose last written s)

trim_left_of-Loose : (s : Text) → Loose true s → trim_left_of b'_' s ≡ s
unfolding trim_left_of is_allowed
trim_left_of-Loose [] h = refl
trim_left_of-Loose (c ∷ s) (inl (allowed, h)) = ground arith
trim_left_of-Loose (c ∷ s) (inr (prev, e, h)) = cc

-- What a trimmed text may be.
abbrev Trimmed : Bool → Text → Type 0
Trimmed prev t = (t ≡ []) ⊎ Tidy prev t

Tidy-after-allowed :
    (c : ℕ) (rest : Text) → is_allowed c ≡ true → Trimmed false rest → Tidy true (c ∷ rest)
Tidy-after-allowed c rest allowed (inl e) = inl (allowed, subst (Tidy false) (sym e) refl)
Tidy-after-allowed c rest allowed (inr tidy) = inl (allowed, tidy)

-- Nothing is asked of what stands before an allowed character.
Tidy-any :
    (prev : Bool) (c : ℕ) (rest : Text)
    → is_allowed c ≡ true
    → Tidy true (c ∷ rest)
    → Tidy prev (c ∷ rest)
Tidy-any prev c rest allowed (inl h) = inl h
Tidy-any prev c rest allowed (inr (e, e', h)) = cc

Tidy-after-underscore :
    (c : ℕ) (rest : Text)
    → c ≡ b'_'
    → (is_empty rest && nat_beq c b'_') ≡ false
    → Trimmed true rest
    → Tidy true rest
Tidy-after-underscore c rest e kept (inl empty) = absurd (ground (arith, e, kept, empty))
Tidy-after-underscore c rest e kept (inr tidy) = tidy

trim_right_of-Tidy : (prev : Bool) (s : Text) → Loose prev s → Trimmed prev (trim_right_of b'_' s)
unfolding trim_right_of is_allowed
trim_right_of-Tidy prev [] h = inl refl
trim_right_of-Tidy prev (c ∷ s) (inl (allowed, h)) =
    if_holds (Trimmed prev) (is_empty (trim_right_of b'_' s) && nat_beq c b'_') _ _
      (λ cut. absurd (ground (arith, allowed, cut)))
      (λ kept.
        inr (
          Tidy-any prev c _ allowed
            (Tidy-after-allowed c _ allowed (trim_right_of-Tidy false s h))))
trim_right_of-Tidy prev (c ∷ s) (inr (free, e, h)) =
    if_holds (Trimmed prev) (is_empty (trim_right_of b'_' s) && nat_beq c b'_') _ _
      (λ cut. inl refl)
      (λ kept. inr (inr (free, e, Tidy-after-underscore c _ e kept (trim_right_of-Tidy true s h))))

-- A safe name is empty, or letters a to z and digits with single underscores between them, none at
-- its start or end.
pub safe_name-Tidy : (value : Text) → (safe_name value ≡ []) ⊎ Tidy true (safe_name value)
unfolding safe_name trim_of
safe_name-Tidy value =
    let raw = safe_loop false false (to_lower (trim_space value)) in
    let loose : Loose true raw = safe_loop-Loose false false (to_lower (trim_space value)) in
    rw (trim_left_of-Loose raw loose) (trim_right_of-Tidy true raw loose)
