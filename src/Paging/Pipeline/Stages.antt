-- ===== src/Paging/Pipeline/Stages.antt =====
-- What `ParseStages` accepts.
use routercli.Base.{ℕ, ◌≤◌, List, [], ◌∷◌, ◌≡◌, ◌↔◌, arith, length, Text, codes, text_eq_iff, join}
use routercli.Paging.Filter.{FilterKind, filter_include, filter_exclude, filter_begin, FilterStage}
use routercli.Paging.Pipeline.{ok, parse_stage, parse_each, parse_stages}

abbrev pub keyword : FilterKind → Text
keyword filter_include = codes "include"
keyword filter_exclude = codes "exclude"
keyword filter_begin = codes "begin"

-- The segment is the keyword of the stage, followed by the words of its pattern.
abbrev pub Spells : List Text → FilterStage → Type 0
Spells [] stage = ⊥
Spells (word ∷ []) stage = ⊥
Spells (word ∷ w ∷ ws) stage =
    (word ≡ keyword stage.kind) × (stage.pattern ≡ join (w ∷ ws) (codes " "))

abbrev pub SpellAll : List (List Text) → List FilterStage → Type 0
SpellAll [] [] = Unit
SpellAll (segment ∷ segments) (stage ∷ stages) = Spells segment stage × SpellAll segments stages
SpellAll _ _ = ⊥

parse_stage_iff :
    (segment : List Text) (stage : FilterStage)
    → (parse_stage segment ≡ ok stage) ↔ Spells segment stage
unfolding parse_stage
parse_stage_iff [] stage = ground arith
parse_stage_iff (word ∷ []) stage = ground arith
parse_stage_iff (word ∷ w ∷ ws) stage = ground (
  arith,
  text_eq_iff word (codes "include"),
  text_eq_iff word (codes "exclude"),
  text_eq_iff word (codes "begin"),
)

parse_each_iff :
    (segments : List (List Text)) (stages : List FilterStage)
    → (parse_each segments ≡ ok stages) ↔ SpellAll segments stages
unfolding parse_each
parse_each_iff [] [] = ground arith
parse_each_iff [] (s ∷ stages) = ground arith
parse_each_iff (segment ∷ segments) [] = ground arith
parse_each_iff (segment ∷ segments) (s ∷ stages) =
    ground (arith, parse_stage_iff segment s, parse_each_iff segments stages)

-- `ParseStages` returns some stages exactly where each segment is the keyword of its stage followed by
-- one or more words, the pattern being those words joined by single spaces, and there are no more
-- segments than `maxDepth`.
parse_stages_iff :
    (segments : List (List Text)) (max_depth : ℕ) (stages : List FilterStage)
    → (parse_stages segments max_depth ≡ ok stages)
      ↔ (SpellAll segments stages × (length segments ≤ max_depth))
unfolding parse_stages
parse_stages_iff [] max_depth [] = ground arith
parse_stages_iff [] max_depth (s ∷ stages) = ground arith
parse_stages_iff (segment ∷ segments) max_depth stages =
    ground (arith, parse_each_iff (segment ∷ segments) stages)
