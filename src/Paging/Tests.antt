-- ===== src/Paging/Tests.antt =====
-- Runs of package paging, and the theorems at inputs that meet their hypotheses.
use routercli.Base.{true, Option, some, List, [], ◌∷◌, ◌++◌, ◌≡◌, ◌≢◌, refl, Text, codes}
use routercli.Paging.Filter.{
  substring, filter_include, FilterStage, MatchFunc, new_matcher, apply_filters,
}
use routercli.Paging.Pipeline.{split_pipeline, ok, parse_stages}
use routercli.Paging.Pager.{Output, text, prompt, clear, key_action, quit, display}
use routercli.Paging.Pager.Pages.{printed, display_total}

abbrev show_eth : List Text
show_eth = codes "show" ∷ codes "|" ∷ codes "include" ∷ codes "eth" ∷ codes "0" ∷ []

abbrev segments : List (List Text)
segments = (codes "include" ∷ codes "eth" ∷ codes "0" ∷ []) ∷ []

abbrev eth_stage : FilterStage
eth_stage = record { kind = filter_include; pattern = codes "eth 0" }

split_pipeline-show_eth : split_pipeline show_eth ≡ (codes "show" ∷ [], segments)
unfolding split_pipeline
split_pipeline-show_eth = refl

parse_stages-segments : parse_stages segments 2 ≡ ok (eth_stage ∷ [])
unfolding parse_stages
parse_stages-segments = refl

abbrev lines : List Text
lines = codes "a" ∷ codes "eth 0 up" ∷ codes "b" ∷ []

-- A compiler of regular expressions that takes a pattern to match every line.
abbrev compile_any : Text → Option MatchFunc
compile_any pattern = some (λ line. true)

apply_filters-lines :
    apply_filters compile_any lines (eth_stage ∷ []) substring ≡ some (codes "eth 0 up" ∷ [])
unfolding apply_filters new_matcher
apply_filters-lines = refl

display-lines :
    display true lines 1 true (some 13 ∷ some b'q' ∷ [])
    ≡ some (text (codes "a") ∷ prompt ∷ clear ∷ text (codes "eth 0 up") ∷ prompt ∷ clear ∷ [])
unfolding display
display-lines = refl

display_total_example :
    (out : List Output) × (unseen : List Text) × (display true lines 1 true (some b'q' ∷ [])
      ≡ some out)
    × (printed out ++ unseen ≡ lines)
display_total_example = display_total true lines 1 true (some b'q' ∷ [])

key_action-space : (key_action b' ' ≢ quit) × Unit {0}
unfolding key_action
key_action-space = (λ h. cc h, tt)
