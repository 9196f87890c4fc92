-- ===== src/Paging/Pipeline.antt =====
-- paging/pipeline.go.
pub mod Split
pub mod Stages
use routercli.Base.{
  ℕ, suc, Bool, true, false, Option, none, some, List, [], ◌∷◌, ◌++◌, ltb, ◌==◌, if◌then◌else◌,
  length, Text, codes, text_eq, join,
}
use routercli.Paging.Filter.{FilterKind, filter_include, filter_exclude, filter_begin, FilterStage}

-- The loop of `SplitPipeline`.
unfoldable pub split_groups : List (List Text) → List Text → List Text → List (List Text)
split_groups groups current [] = groups ++ current ∷ []
split_groups groups current (t ∷ tokens) = elim (text_eq t (codes "|")) [
  | true ↦ split_groups (groups ++ current ∷ []) [] tokens
  | false ↦ split_groups groups (current ++ t ∷ []) tokens
]

-- `groups[0]` and `groups[1:]`; nil for the segments of a line with no bar.
abbrev pub head_and_rest : List (List Text) → List Text × List (List Text)
head_and_rest [] = ([], [])
head_and_rest (g ∷ gs) = (g, gs)

-- `SplitPipeline`.
unfoldable pub split_pipeline : List Text → List Text × List (List Text)
unfolding split_groups
split_pipeline tokens = head_and_rest (split_groups [] [] tokens)

pub data StageError : Type 0 where
  disabled empty_filter : StageError
  too_many_filters : ℕ → ℕ → StageError
  no_pattern : Text → StageError
  unknown_filter : Text → StageError

pub data Result {ℓ} (A : Type ℓ) : Type ℓ where
  ok : A → Result A
  err : StageError → Result A

infixl 5 ◌>>=◌
abbrev pub ◌>>=◌ {ℓ κ} : {A : Type ℓ} {B : Type κ} → Result A → (A → Result B) → Result B
ok a >>= f = f a
err e >>= f = err e

-- The `switch` on the keyword.
unfoldable pub kind_of : Text → Result FilterKind
kind_of word =
    if text_eq word (codes "include")
    then ok filter_include
    else if text_eq word (codes "exclude")
    then ok filter_exclude
    else if text_eq word (codes "begin")
    then ok filter_begin
    else err (unknown_filter word)

-- One turn of the loop of `ParseStages`.
unfoldable pub parse_stage : List Text → Result FilterStage
unfolding kind_of
parse_stage [] = err empty_filter
parse_stage (word ∷ []) = err (no_pattern word)
parse_stage (word ∷ w ∷ ws) = do
  kind ← kind_of word
  ok (record { kind = kind; pattern = join (w ∷ ws) (codes " ") })

unfoldable pub parse_each : List (List Text) → Result (List FilterStage)
parse_each [] = ok []
parse_each (segment ∷ segments) = do
  stage ← parse_stage segment
  stages ← parse_each segments
  ok (stage ∷ stages)

-- `ParseStages`. A `maxDepth` below zero is 0 here.
unfoldable pub parse_stages : List (List Text) → ℕ → Result (List FilterStage)
unfolding parse_each parse_stage
parse_stages [] max_depth = ok []
parse_stages (segment ∷ segments) max_depth =
    if max_depth == 0
    then err disabled
    else if ltb max_depth (length (segment ∷ segments))
    then err (too_many_filters (length (segment ∷ segments)) max_depth)
    else parse_each (segment ∷ segments)
