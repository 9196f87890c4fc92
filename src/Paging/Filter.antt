-- ===== src/Paging/Filter.antt =====
-- paging/filter.go and paging/model.go. `regexp.Compile` is a parameter: what it makes of a pattern
-- is a test of a line, or `none` for a pattern that it refuses.
pub mod Laws
use routercli.Base.{
  Bool, true, false, not, Option, none, some, List, [], ◌∷◌, if◌then◌else◌, Text, contains,
}

pub data FilterMode : Type 0 where
  substring regex : FilterMode

pub data FilterKind : Type 0 where
  filter_include filter_exclude filter_begin : FilterKind

pub record FilterStage : Type 0 where
  pub kind : FilterKind
  pub pattern : Text

abbrev pub MatchFunc : Type 0
MatchFunc = Text → Bool

-- The loops of `applyStage`.
unfoldable pub keep : MatchFunc → List Text → List Text
keep matches [] = []
keep matches (line ∷ lines) = if matches line then line ∷ keep matches lines else keep matches lines

unfoldable pub keep_not : MatchFunc → List Text → List Text
keep_not matches [] = []
keep_not matches (line ∷ lines) =
    if not (matches line) then line ∷ keep_not matches lines else keep_not matches lines

unfoldable pub from_first : MatchFunc → List Text → List Text
from_first matches [] = []
from_first matches (line ∷ lines) = if matches line then line ∷ lines else from_first matches lines

-- `applyStage`.
unfoldable pub apply_stage : List Text → FilterKind → MatchFunc → List Text
unfolding keep keep_not from_first
apply_stage lines filter_exclude matches = keep_not matches lines
apply_stage lines filter_begin matches = from_first matches lines
apply_stage lines filter_include matches = keep matches lines

module _ (compile : Text → Option MatchFunc) where
  -- `newMatcher`: `none` is the error of the compiler.
  unfoldable pub new_matcher : Text → FilterMode → Option MatchFunc
  new_matcher pattern regex = compile pattern
  new_matcher pattern substring = some (λ line. contains line pattern)

  -- `ApplyFilters`.
  unfoldable pub apply_filters : List Text → List FilterStage → FilterMode → Option (List Text)
  unfolding apply_stage
  apply_filters lines [] mode = some lines
  apply_filters lines (stage ∷ stages) mode = elim (new_matcher stage.pattern mode) [
    | none ↦ none
    | some matches ↦ apply_filters (apply_stage lines stage.kind matches) stages mode
  ]
