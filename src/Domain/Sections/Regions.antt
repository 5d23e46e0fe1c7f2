-- ===== src/Domain/Sections/Regions.antt =====
-- Which lines a target stands for.
use situation_studio.Prelude.{
  ◌≡◌, ◌≤◌, ◌∙◌, refl, sym, ap, inl, inr, ℕ, suc, ◌+◌, Bool, true, not, Option, none, some, List,
  [], ◌∷◌, ◌++◌, String, arith, length, all, is_none, Bool-cases, Option-cases, if◌then◌else◌,
}
use situation_studio.Prelude.Results.{Result, ok, err, ◌>>=◌}
use situation_studio.Domain.Sections.{
  Markdown, subheading, named_block, ResolveError, missing, ambiguous, Region, whole, range, drop,
  matches_from, the_match, length_until, end_of, subheading_match, closes, block_match,
  subheading_region, block_region, resolve_situation_section_target,
}

-- The list ends here, or goes on with a line that stops the loop.
abbrev pub StopsAt : (String → Bool) → List String → Type 0
StopsAt stop [] = Unit {0}
StopsAt stop (l ∷ lines) = stop l ≡ true

abbrev pub unmatched {ℓ} : {A : Type ℓ} → (String → Option A) → List String → Bool
unmatched f lines = all (λ l. is_none (f l)) lines

-- `lines` is `body`, no line of which stops the loop, and then what stops it.
abbrev pub Stretch : (String → Bool) → List String → ℕ → Type 0
Stretch stop lines n =
    (body : List String) × (after : List String) × (lines ≡ body ++ after)
    × (all (λ l. not (stop l)) body ≡ true)
    × StopsAt stop after
    × (n ≡ length body)

stretch :
    (stop : String → Bool) (lines : List String) → Stretch stop lines (length_until stop lines)
stretch stop [] = ([], [], refl, refl, tt, refl)
stretch stop (l ∷ lines) = elim (Bool-cases (stop l)) [
  | inl e ↦ ([], l ∷ lines, refl, refl, e, rw e refl)
  | inr e ↦
      let (body, after, parts, passed, stopped, n) = stretch stop lines in
      (l ∷ body, after, rw parts refl, rw (e, passed) refl, stopped, rw (e, n) refl)
]

-- `lines` has one line that `f` finds, at an index.
abbrev pub OnlyMatch {ℓ} : {A : Type ℓ} → (String → Option A) → List String → ℕ → A → Type ℓ
OnlyMatch f lines index a =
    (before : List String) × (line : String) × (rest : List String) × (lines
      ≡ before ++ line ∷ rest)
    × (index ≡ length before)
    × (f line ≡ some a)
    × (unmatched f before ≡ true)
    × (unmatched f rest ≡ true)

matches_skip {ℓ} :
    {A : Type ℓ} (f : String → Option A) (n : ℕ) (l : String) (lines : List String)
    → f l ≡ none
    → matches_from f n (l ∷ lines) ≡ matches_from f (suc n) lines
matches_skip f n l lines e = rw (e, matches_from) refl

matches_add {ℓ} :
    {A : Type ℓ} (f : String → Option A) (n : ℕ) (l : String) (lines : List String) (a : A)
    → f l ≡ some a
    → matches_from f n (l ∷ lines) ≡ (n, a) ∷ matches_from f (suc n) lines
matches_add f n l lines a e = rw (e, matches_from) refl

unmatched-matches_from {ℓ} :
    {A : Type ℓ} (f : String → Option A) (n : ℕ) (lines : List String)
    → matches_from f n lines ≡ []
    → unmatched f lines ≡ true
unmatched-matches_from f n [] h = refl
unmatched-matches_from f n (l ∷ lines) h = elim (Option-cases (f l)) [
  | inl e ↦
      let ih = unmatched-matches_from f (suc n) lines (sym (matches_skip f n l lines e) ∙ h) in
      rw (e, ih) refl
  | inr (a, e) ↦ let g = sym (matches_add f n l lines a e) ∙ h in absurd cc
]

-- An index that is counted from `n`.
abbrev Shifted {ℓ} : {A : Type ℓ} → (String → Option A) → ℕ → List String → ℕ × A → Type ℓ
Shifted f n lines (index, a) = (i : ℕ) × (index ≡ n + i) × OnlyMatch f lines i a

one_match {ℓ} :
    {A : Type ℓ} (f : String → Option A) (n : ℕ) (lines : List String) (m : ℕ × A)
    → matches_from f n lines ≡ m ∷ []
    → Shifted f n lines m
one_match f n [] m h = absurd cc
one_match f n (l ∷ lines) (index, b) h = elim (Option-cases (f l)) [
  | inl e ↦
      let (i, at, (before, line, rest, parts, here, found, none_before, none_after)) =
        one_match f (suc n) lines (index, b) (sym (matches_skip f n l lines e) ∙ h) in
      (
        suc i,
        omega arith,
        (
          l ∷ before,
          line,
          rest,
          ap (λ r. l ∷ r) parts,
          omega arith,
          found,
          rw (e, none_before) refl,
          none_after,
        ),
      )
  | inr (a, e) ↦
      let g = sym (matches_add f n l lines a e) ∙ h in
      let rest_nil : matches_from f (suc n) lines ≡ [] = cc in
      let index_n : index ≡ n = cc in
      let b_a : b ≡ a = cc in
      (
        0,
        omega arith,
        ([], l, lines, refl, refl, rw b_a e, refl, unmatched-matches_from f (suc n) lines rest_nil),
      )
]

drop_past :
    (before : List String) (line : String) (rest : List String)
    → drop (suc (length before)) (before ++ line ∷ rest) ≡ rest
drop_past [] line rest = refl
drop_past (b ∷ before) line rest = drop_past before line rest

-- `start` and `end` are those of the lines after the only one that `f` finds, as far as none stops the
-- loop.
abbrev pub Bounded {ℓ} :
    {A : Type ℓ} → (String → Option A) → (A → String → Bool) → List String → ℕ → ℕ → Type ℓ
Bounded {A = A} f stop lines start end =
    (before : List String) × (line : String) × (a : A) × (body : List String) × (after : List
      String)
    × (lines ≡ before ++ line ∷ (body ++ after))
    × (f line ≡ some a)
    × (unmatched f before ≡ true)
    × (unmatched f (body ++ after) ≡ true)
    × (all (λ l. not (stop a l)) body ≡ true)
    × StopsAt (stop a) after
    × (start ≡ suc (length before))
    × (end ≡ start + length body)

match-Bounded {ℓ} :
    {A : Type ℓ} (f : String → Option A) (stop : A → String → Bool) (lines : List String)
    (index : ℕ) (a : A)
    → OnlyMatch f lines index a
    → Bounded f stop lines (suc index) (end_of (stop a) (suc index) lines)
match-Bounded f stop lines index a
      (before, line, rest, parts, here, found, none_before, none_after) =
    let (body, after, split, passed, stopped, n) = stretch (stop a) rest in
    let tail : drop (suc index) lines ≡ rest = rw (here, parts) (drop_past before line rest) in
    (
      before,
      line,
      a,
      body,
      after,
      parts ∙ ap (λ r. before ++ line ∷ r) split,
      found,
      none_before,
      sym (ap (unmatched f) split) ∙ none_after,
      passed,
      stopped,
      omega (arith, here),
      ap (λ r. suc index + length_until (stop a) r) tail ∙ ap (λ k. suc index + k) n,
    )

-- How many lines `f` finds.
abbrev pub count {ℓ} : {A : Type ℓ} → (String → Option A) → List String → ℕ
count f [] = 0
count f (l ∷ lines) = if is_none (f l) then count f lines else suc (count f lines)

length-matches_from {ℓ} :
    {A : Type ℓ} (f : String → Option A) (n : ℕ) (lines : List String)
    → length (matches_from f n lines) ≡ count f lines
length-matches_from f n [] = refl
length-matches_from f n (l ∷ lines) = elim (Option-cases (f l)) [
  | inl e ↦ ap length (matches_skip f n l lines e) ∙ length-matches_from f (suc n) lines ∙ rw e refl
  | inr (a, e) ↦
      ap length (matches_add f n l lines a e)
      ∙ ap suc (length-matches_from f (suc n) lines)
      ∙ rw e refl
]

-- What a resolver answers of `lines`: the region after the only line found, `missing` where there is
-- none, `ambiguous` where there are several.
abbrev pub Answers :
    {A : Type 0}
    → (String → Option A)
    → (ℕ → ℕ → Type 0)
    → List String
    → Result ResolveError Region
    → Type 0
Answers f P lines (ok whole) = ⊥
Answers f P lines (ok (range start end)) = P start end
Answers f P lines (err missing) = unmatched f lines ≡ true
Answers f P lines (err ambiguous) = 2 ≤ count f lines

module _ {A : Type 0} (f : String → Option A) (lines : List String) where
  the_match-Answers :
      (P : ℕ → ℕ → Type 0) (region : ℕ × A → Region) (ms : List (ℕ × A))
      → matches_from f 0 lines ≡ ms
      → ((index : ℕ) (a : A)
          → OnlyMatch f lines index a
          → Answers f P lines (ok (region (index, a))))
      → Answers f P lines (the_match ms >>= λ m. ok (region m))
  the_match-Answers P region [] h k = unmatched-matches_from f 0 lines h
  the_match-Answers P region ((index, a) ∷ []) h k =
      let (i, at, only) = one_match f 0 lines (index, a) h in
      let same : index ≡ i = omega (arith, at) in k index a (rw same only)
  the_match-Answers P region (m ∷ n ∷ rest) h k =
      let c : count f lines ≡ suc (suc (length rest)) =
        sym (length-matches_from f 0 lines) ∙ ap length h in
      omega (arith, c)

module _ (md : Markdown) (lines : List String) where
  -- The region of a subheading, whatever the text: where one line is a subheading of that name, the lines
  -- after it as far as the next heading that is not below it; otherwise it is said to be missing, where
  -- no line is one, or ambiguous, where two are.
  pub subheading_located :
      (name : String)
      → Answers
          (subheading_match md name)
          (Bounded (subheading_match md name) (closes md) lines)
          lines
          (resolve_situation_section_target md (subheading name) lines)
  unfolding resolve_situation_section_target subheading_region
  subheading_located name =
      the_match-Answers (subheading_match md name) lines _ (subheading_region md lines) _ refl
        (match-Bounded (subheading_match md name) (closes md) lines)

  -- The region of a named block, whatever the text: the one line with its label and the quoted lines that
  -- follow it; otherwise it is said to be missing or ambiguous.
  pub block_located :
      (anchor : String)
      → Answers
          (block_match md anchor)
          (λ start end.
            Bounded (block_match md anchor) (λ u l. not (md.is_quote l)) lines (suc start) end)
          lines
          (resolve_situation_section_target md (named_block anchor) lines)
  unfolding resolve_situation_section_target block_region
  block_located anchor =
      the_match-Answers (block_match md anchor) lines _ (block_region md lines) _ refl
        (match-Bounded (block_match md anchor) (λ u l. not (md.is_quote l)) lines)
