-- ===== src/Domain/Sections.antt =====
-- The targets of a suggestion within a situation's text: packages/domain/src/index.ts,
-- resolveSituationSectionTarget, which finds the lines that a suggestion replaces. A section is given by
-- its lines.
pub mod Regions
use situation_studio.Prelude.{
  ℕ, suc, zero, ◌+◌, Bool, true, false, ◌&&◌, not, Option, none, some, List, [], ◌∷◌, String,
  str_eq, leb, if◌then◌else◌, length,
}
use situation_studio.Prelude.Results.{Result, ok, err, ◌>>=◌}

-- The patterns of the resolver, on one line, and the two spellings of a label: JavaScript's regular
-- expressions and Unicode forms.
pub record Markdown : Type 0 where
  -- `^(#{3,6})[ \t]+(.+?)[ \t]*$`: the depth and the title.
  pub subheading_of : String → Option (ℕ × String)
  -- `^(#{1,6})[ \t]+`: the depth.
  pub depth_of : String → Option ℕ
  -- `^>[ \t]*\*\*(.+?):\*\*`: the label.
  pub label_of : String → Option String
  -- `^>`.
  pub is_quote : String → Bool
  pub normalized_structural_label : String → String
  pub named_block_anchor : String → String

pub data Target : Type 0 where
  section : Target
  subheading : (name : String) → Target
  named_block : (anchor : String) → Target

pub data ResolveError : Type 0 where
  missing ambiguous : ResolveError

-- The lines that are replaced: all of them, or those from `start` up to `end`.
pub data Region : Type 0 where
  whole : Region
  range : (start end : ℕ) → Region

abbrev pub drop : ℕ → List String → List String
drop zero lines = lines
drop (suc n) [] = []
drop (suc n) (l ∷ lines) = drop n lines

-- `lines.flatMap((line, index) => ...)`: what is found, with its index.
abbrev pub matches_from {ℓ} : {A : Type ℓ} → (String → Option A) → ℕ → List String → List (ℕ × A)
matches_from f n [] = []
matches_from f n (l ∷ lines) =
    let rest = matches_from f (suc n) lines in elim (f l) [ none ↦ rest | some a ↦ (n, a) ∷ rest ]

-- `matches.length !== 1`.
abbrev pub the_match {ℓ} : {A : Type ℓ} → List (ℕ × A) → Result ResolveError (ℕ × A)
the_match [] = err missing
the_match (m ∷ []) = ok m
the_match (m ∷ n ∷ rest) = err ambiguous

-- How many lines the loop passes before one that stops it, or the end.
abbrev pub length_until : (String → Bool) → List String → ℕ
length_until stop [] = 0
length_until stop (l ∷ lines) = if stop l then 0 else suc (length_until stop lines)

-- The loops over `end`, from `start` on.
abbrev pub end_of : (String → Bool) → ℕ → List String → ℕ
end_of stop start lines = start + length_until stop (drop start lines)

module _ (md : Markdown) where
  -- The depth of a subheading of that name.
  unfoldable pub subheading_match : String → String → Option ℕ
  subheading_match name line = elim (md.subheading_of line) [
    | none ↦ none
    | some (depth, title) ↦
        if str_eq (md.normalized_structural_label title) (md.normalized_structural_label name)
        then some depth
        else none
  ]

  -- A heading that is not below `depth`.
  unfoldable pub closes : ℕ → String → Bool
  closes depth line = elim (md.depth_of line) [ none ↦ false | some d ↦ leb d depth ]

  -- `^>[ \t]*\*\*(.+?):\*\*` with that anchor.
  unfoldable pub block_match : String → String → Option (Unit {0})
  block_match anchor line = elim (md.label_of line) [
    | none ↦ none
    | some label ↦ if str_eq (md.named_block_anchor label) anchor then some tt else none
  ]

  unfoldable pub subheading_region : List String → ℕ × ℕ → Region
  subheading_region lines (index, depth) =
      range (suc index) (end_of (closes depth) (suc index) lines)

  unfoldable pub block_region : List String → ℕ × Unit {0} → Region
  block_region lines (start, u) = range start (end_of (λ l. not (md.is_quote l)) (suc start) lines)

  -- `resolveSituationSectionTarget`, after the key was read.
  unfoldable pub resolve_situation_section_target :
      Target → List String → Result ResolveError Region
  resolve_situation_section_target section lines = ok whole
  resolve_situation_section_target (subheading name) lines =
      the_match (matches_from (subheading_match name) 0 lines) >>= λ m.
      ok (subheading_region lines m)
  resolve_situation_section_target (named_block anchor) lines =
      the_match (matches_from (block_match anchor) 0 lines) >>= λ m. ok (block_region lines m)
