-- ===== src/Completer/Lost.antt =====
-- A Tab in the middle of a line.
use routercli.Base.{
  ℕ, false, some, text_eq_iff, List, [], ◌∷◌, ◌++◌, ◌≡◌, ◌≢◌, refl, sym, ap, ◌∙◌, arith, length,
  length-append, Text, ltb, append-nil,
}
use routercli.Command.Resolve.{ResolveResult, returns, resolve}
use routercli.Completer.Keys.{on_change}
use routercli.Completer.Rewrite.{take-length}
use routercli.Completer.{
  Env, TreeListener, changed, is_nil, complete_ambiguous, complete_result, tab_tokens,
  unwrap_help_tokens, unwrapped, complete_typed, Change, ambiguous_rewrite_buffer, no_prefix_of,
}

within : (a b : Text) → ltb (length (a ++ b)) (length a) ≡ false
within a b = ground (arith, length-append a b)

not_nil : (l : List Text) → l ≢ [] → is_nil l ≡ false
not_nil [] h = absurd (h refl)
not_nil (a ∷ l) h = refl

-- The tokens before the cursor resolve to several commands.
abbrev pub IsAmbiguous : Env → Text → List Text → Text → ResolveResult → Type 0
IsAmbiguous env typed words prefix res =
    (unwrap_help_tokens (length (tab_tokens typed)) env (tab_tokens typed) []
      ≡ unwrapped words prefix)
    × (resolve env.fuel env.tree words ≡ returns res)
    × (res.ambiguous ≢ [])

complete_result-ambiguous :
    (env : Env) (l : TreeListener) (line : Text) (pos : ℕ) (typed : Text) (words : List Text)
    (prefix : Text) (res : ResolveResult)
    → res.ambiguous ≢ []
    → complete_result env l line pos typed words prefix res
      ≡ complete_ambiguous env l typed words res prefix (no_prefix_of res)
unfolding complete_result
complete_result-ambiguous env l line pos typed words prefix res a =
    rw (not_nil res.ambiguous a) refl

complete_typed-ambiguous :
    (env : Env) (l : TreeListener) (line : Text) (pos : ℕ) (typed : Text) (words : List Text)
    (prefix : Text) (res : ResolveResult)
    → IsAmbiguous env typed words prefix res
    → complete_typed env l line pos typed
      ≡ changed (complete_ambiguous env l typed words res prefix (no_prefix_of res))
unfolding complete_typed
complete_typed-ambiguous env l line pos typed words prefix res (u, r, a) =
    rw (complete_typed, u, r)
      (ap changed (complete_result-ambiguous env l line pos typed words prefix res a))

on_change-tab :
    (env : Env) (l : TreeListener) (typed after : Text)
    → on_change env l (typed ++ after) (length typed) 9
      ≡ complete_typed env l (typed ++ after) (length typed) typed
unfolding on_change
on_change-tab env l typed after =
    rw (within typed after)
      (ap (complete_typed env l (typed ++ after) (length typed)) (take-length typed after))

-- The line that a Tab writes over ambiguous tokens.
abbrev pub rewritten : List Text → Text → ResolveResult → Text
rewritten words prefix res = prefix ++ ambiguous_rewrite_buffer words res (no_prefix_of res)

complete_ambiguous-new_line :
    (env : Env) (l : TreeListener) (typed : Text) (words : List Text) (prefix : Text)
    (res : ResolveResult)
    → rewritten words prefix res ≢ typed
    → (complete_ambiguous env l typed words res prefix (no_prefix_of res)).new_line
      ≡ some (rewritten words prefix res, length (rewritten words prefix res))
unfolding complete_ambiguous
complete_ambiguous-new_line env l typed words prefix res n =
    ground (arith, text_eq_iff (rewritten words prefix res) typed)

-- Where the tokens before the cursor are ambiguous and a Tab rewrites them, what stands behind the
-- cursor is lost: the whole line becomes the rewritten tokens, with the cursor at its end, and the
-- Tab does the same as it does without that text.
pub tab_drops_rest :
    (env : Env) (l : TreeListener) (typed after : Text) (words : List Text) (prefix : Text)
    (res : ResolveResult)
    → IsAmbiguous env typed words prefix res
    → rewritten words prefix res ≢ typed
    → (change : Change) × (on_change env l (typed ++ after) (length typed) 9 ≡ changed change)
      × (on_change env l typed (length typed) 9 ≡ changed change)
      × (change.new_line ≡ some (rewritten words prefix res, length (rewritten words prefix res)))
tab_drops_rest env l typed after words prefix res h n = (
  complete_ambiguous env l typed words res prefix (no_prefix_of res),
  on_change-tab env l typed after
      ∙ complete_typed-ambiguous env l (typed ++ after) (length typed) typed words prefix res h,
  ap (λ line. on_change env l line (length typed) 9) (sym (append-nil typed))
      ∙ (on_change-tab env l typed []
          ∙ complete_typed-ambiguous env l (typed ++ []) (length typed) typed words prefix res h),
  complete_ambiguous-new_line env l typed words prefix res n,
)
