-- ===== src/Reportd/Http/Paths.antt =====
-- The path of a request for a file of a report, as src/internal/reportd/handlers.go takes it apart.
use mathlib.Core.List.{append_assoc, append-nil}
use timesync_analyzer.Common.{
  ℕ, ◌≡◌, ◌≢◌, refl, if◌then◌else◌, ◌&&◌, ap, sym, ◌∙◌, List, [], ◌∷◌, ◌++◌, true, All, arith,
  Bool-cases, inl, inr, ◌⊎◌, drop, length, nat_beq, subst,
}
use timesync_analyzer.Common.Text.{
  Text, text, is_empty, has_prefix, split_at, split, trim_left_of, trim_right_of, trim_of,
}
use timesync_analyzer.Reportd.Http.Routes.{trim_prefix}

-- A path under `/api/reports/` with the id of a job and then the name of a file: slashes before the id,
-- and whatever follows the name after a slash, do not count.
pub record Asks (path id artifact : Text) : Type 0 where
  pub slashes : Text
  pub tail : Text
  pub only_slashes : All (λ c. c ≡ b'/') slashes
  pub plain_id : All (λ c. c ≢ b'/') id
  pub plain_artifact : All (λ c. c ≢ b'/') artifact
  pub spelled : path ≡ text "/api/reports/" ++ (slashes ++ (id ++ b'/' ∷ (artifact ++ tail)))
  pub ended : (tail ≡ []) ⊎ ((rest : Text) × (tail ≡ b'/' ∷ rest))

has_prefix-drop : (s p : Text) → has_prefix s p ≡ true → s ≡ p ++ drop (length p) s
unfolding has_prefix
has_prefix-drop s [] h = refl
has_prefix-drop [] (p ∷ ps) h = cc
has_prefix-drop (c ∷ s) (p ∷ ps) h = ground (arith, has_prefix-drop s ps)

module _ (sep : ℕ) where
  abbrev Only : Text → Type 0
  Only = All (λ c. c ≡ sep)

  abbrev Free : Text → Type 0
  Free = All (λ c. c ≢ sep)

  trim_left_of-front : (s : Text) → (front : Text) × Only front × (s ≡ front ++ trim_left_of sep s)
  unfolding trim_left_of
  trim_left_of-front [] = ([], tt, refl)
  trim_left_of-front (c ∷ s) = elim (Bool-cases (nat_beq c sep)) [
    | inl h ↦
        let (front, only, e) = trim_left_of-front s in
        (c ∷ front, (ground (arith, h), only), rw h (ap (λ t. c ∷ t) e))
    | inr h ↦ ([], tt, rw h refl)
  ]

  trim_right_of-back : (s : Text) → (back : Text) × Only back × (s ≡ trim_right_of sep s ++ back)
  unfolding trim_right_of
  trim_right_of-back [] = ([], tt, refl)
  trim_right_of-back (c ∷ s) =
      let (back, only, e) = trim_right_of-back s in trimmed_turn (trim_right_of sep s) back only e
    where
      trimmed_turn :
          (rest back : Text)
          → Only back
          → s ≡ rest ++ back
          → (b : Text) × Only b
            × (c ∷ s ≡ (if is_empty rest && (nat_beq c sep) then [] else c ∷ rest) ++ b)
      trimmed_turn [] back only e = elim (Bool-cases (nat_beq c sep)) [
        | inl h ↦ (c ∷ back, (ground (arith, h), only), rw h (ap (λ t. c ∷ t) e))
        | inr h ↦ (back, only, rw h (ap (λ t. c ∷ t) e))
      ]
      trimmed_turn (x ∷ rest) back only e = (back, only, ap (λ t. c ∷ t) e)

  -- The first part of a split, and what the other parts are of.
  abbrev Parted : Text → Text × List Text → Type 0
  Parted s (part, parts) =
      Free part
      × (((parts ≡ []) × (s ≡ part))
          ⊎ ((rest : Text) × (s ≡ part ++ sep ∷ rest) × (split sep rest ≡ parts)))

  split_at-Parted : (s : Text) → Parted s (split_at sep s)
  unfolding split_at split
  split_at-Parted [] = (tt, inl (refl, refl))
  split_at-Parted (c ∷ s) = elim (Bool-cases (nat_beq c sep)) [
    | inl h ↦ rw h (tt, inr (s, ground (arith, h), refl))
    | inr h ↦
        let (free, which) = split_at-Parted s in
        rw h (
          ((λ e. ground (arith, h, e)), free),
          elim which [
            | inl (none_left, e) ↦ inl (none_left, ap (λ t. c ∷ t) e)
            | inr (rest, e, e') ↦ inr (rest, ap (λ t. c ∷ t) e, e')
          ],
        )
  ]

  pair_of_cons :
      (r : Text × List Text) (part : Text) (parts : List Text)
      → r.0 ∷ r.1 ≡ part ∷ parts
      → r ≡ (part, parts)
  pair_of_cons (a, b) part parts e = cc e

  split-Parted :
      (s part : Text) (parts : List Text) → split sep s ≡ part ∷ parts → Parted s (part, parts)
  unfolding split
  split-Parted s part parts e =
      subst (Parted s) (pair_of_cons (split_at sep s) part parts e) (split_at-Parted s)

  -- The end of a list, which is empty or begins with the separator.
  abbrev Ended : Text → Type 0
  Ended tail = (tail ≡ []) ⊎ ((rest : Text) × (tail ≡ sep ∷ rest))

  Only-Ended : (back : Text) → Only back → Ended back
  Only-Ended [] only = inl refl
  Only-Ended (c ∷ back) (e, only) = inr (back, ap (λ x. x ∷ back) e)

  -- A split with a first and a second part.
  split_two :
      (s one two : Text) (parts : List Text)
      → split sep s ≡ one ∷ two ∷ parts
      → Free one × Free two × (tail : Text) × (s ≡ one ++ sep ∷ (two ++ tail)) × Ended tail
  split_two s one two parts e =
      let (free, which) = split-Parted s one (two ∷ parts) e in
      elim which [
        | inl (none_left, _) ↦ cc none_left
        | inr (rest, spelled, e') ↦
            let (free', which') = split-Parted rest two parts e' in
            elim which' [
              | inl (_, last) ↦ (
                free,
                free',
                [],
                spelled ∙ ap (λ t. one ++ sep ∷ t) (last ∙ sym (append-nil two)),
                inl refl,
              )
              | inr (more, after, _) ↦ (
                free,
                free',
                sep ∷ more,
                spelled ∙ ap (λ t. one ++ sep ∷ t) after,
                inr (more, refl),
              )
            ]
      ]

  with_back :
      (one two tail back : Text)
      → (one ++ sep ∷ (two ++ tail)) ++ back ≡ one ++ sep ∷ (two ++ (tail ++ back))
  with_back one two tail back =
      append_assoc one (sep ∷ (two ++ tail)) back
      ∙ ap (λ t. one ++ sep ∷ t) (append_assoc two tail back)

  Ended-append : (tail back : Text) → Ended tail → Only back → Ended (tail ++ back)
  Ended-append tail back (inl e) only =
      subst (λ t. Ended (t ++ back)) (sym e) (Only-Ended back only)
  Ended-append tail back (inr (rest, e)) only = inr (rest ++ back, ap (λ t. t ++ back) e)

  trimmed_split :
      (s one two : Text) (parts : List Text)
      → split sep (trim_of sep s) ≡ one ∷ two ∷ parts
      → Free one
        × Free two
        × (front : Text) × (tail : Text) × Only front
        × (s ≡ front ++ (one ++ sep ∷ (two ++ tail)))
        × Ended tail
  unfolding trim_of
  trimmed_split s one two parts e =
      let (front, only_front, before) = trim_left_of-front s in
      let (back, only_back, after) = trim_right_of-back (trim_left_of sep s) in
      let (free, free', tail, spelled, ended) =
        split_two (trim_right_of sep (trim_left_of sep s)) one two parts e in
      (
        free,
        free',
        front,
        tail ++ back,
        only_front,
        before
            ∙ ap (λ t. front ++ t)
                (after ∙ ap (λ t. t ++ back) spelled ∙ with_back one two tail back),
        Ended-append tail back ended only_back,
      )

trim_prefix-drop :
    (value prefix : Text)
    → has_prefix value prefix ≡ true
    → trim_prefix value prefix ≡ drop (length prefix) value
unfolding trim_prefix
trim_prefix-drop value prefix h = rw h refl

pub split-Asks :
    (path id artifact : Text) (rest : List Text)
    → has_prefix path (text "/api/reports/") ≡ true
    → split b'/' (trim_of b'/' (trim_prefix path (text "/api/reports/"))) ≡ id ∷ artifact ∷ rest
    → Asks path id artifact
split-Asks path id artifact rest h e =
    let (free, free', front, tail, only, spelled, ended) =
      trimmed_split b'/' (drop 13 path) id artifact rest (
        subst (λ u. split b'/' (trim_of b'/' u) ≡ id ∷ artifact ∷ rest)
          (trim_prefix-drop path (text "/api/reports/") h) e) in
    record {
      slashes = front;
      tail = tail;
      only_slashes = only;
      plain_id = free;
      plain_artifact = free';
      spelled =
          has_prefix-drop path (text "/api/reports/") h
          ∙ ap (λ t. text "/api/reports/" ++ t) spelled;
      ended = ended;
    }
