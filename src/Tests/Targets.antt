-- ===== src/Tests/Targets.antt =====
-- A small section with two subheadings and a named block.
use situation_studio.Prelude.{
  true, none, some, List, [], ◌∷◌, String, str_eq, if◌then◌else◌, refl, ◌≡◌, not, suc,
}
use situation_studio.Prelude.Results.{ok}
use situation_studio.Domain.Sections.{
  Markdown, subheading, named_block, range, resolve_situation_section_target, subheading_match,
  closes, block_match, subheading_region, block_region,
}
use situation_studio.Domain.Sections.Regions.{Answers, Bounded, subheading_located, block_located}

-- The patterns on the lines of the section below.
abbrev markdown : Markdown
markdown = record {
  subheading_of = λ line.
      (if str_eq line "### Ask"
        then some (3, "Ask")
        else if str_eq line "### Wait"
        then some (3, "Wait")
        else none);
  depth_of = λ line.
      (if str_eq line "### Ask"
        then some 3
        else if str_eq line "### Wait"
        then some 3
        else if str_eq line "#### How"
        then some 4
        else none);
  label_of = λ line. if str_eq line "> **Try:** this" then some "try" else none;
  is_quote = λ line. if str_eq line "> **Try:** this" then true else str_eq line "> and that";
  normalized_structural_label = λ label. label;
  named_block_anchor = λ label. label;
}

abbrev section_lines : List String
section_lines =
    "intro" ∷ "### Ask" ∷ "#### How" ∷ "> **Try:** this" ∷ "> and that" ∷ "### Wait" ∷ "end" ∷ []

subheading_runs :
    resolve_situation_section_target markdown (subheading "Ask") section_lines ≡ ok (range 2 5)
unfolding resolve_situation_section_target subheading_match subheading_region closes
subheading_runs = refl

block_runs :
    resolve_situation_section_target markdown (named_block "try") section_lines ≡ ok (range 3 5)
unfolding resolve_situation_section_target block_match block_region
block_runs = refl

subheading_located_example :
    Answers
      (subheading_match markdown "Ask")
      (Bounded (subheading_match markdown "Ask") (closes markdown) section_lines)
      section_lines
      (resolve_situation_section_target markdown (subheading "Ask") section_lines)
subheading_located_example = subheading_located markdown section_lines "Ask"

block_located_example :
    Answers
      (block_match markdown "try")
      (λ start end.
        Bounded
          (block_match markdown "try")
          (λ u l. not (markdown.is_quote l))
          section_lines
          (suc start)
          end)
      section_lines
      (resolve_situation_section_target markdown (named_block "try") section_lines)
block_located_example = block_located markdown section_lines "try"
