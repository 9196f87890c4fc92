-- ===== src/Completer/Rewrite.antt =====
-- What a Tab makes of the line.
use routercli.Base.{
  All-append, some, some-injective, none_and_some, take, drop, length, text_eq, ℕ, Bool, true,
  false, not, none, List, [], ◌∷◌, ◌++◌, ◌≡◌, ◌≢◌, inl, inr, refl, sym, ap, subst, ◌∙◌,
  if◌then◌else◌, append-nil, append_assoc, All, Text, codes, join, Bool-cases,
}
use routercli.Command.Tree.{find}
use routercli.Command.Resolve.{ResolveResult, returns, resolve}
use routercli.Command.Resolve.Canonical.{canonical, resolve-canonical}
use routercli.Command.Help.Layout.{fields, fields_from}
use routercli.Completer.{
  Env, tab_tokens, complete_resolved, is_nil, ends_in_space, with_space, resolved_line,
  no_prefix_of,
}
use routercli.Completer.Words.{
  IsSolid, IsWord, fields-end, blanked, blanked-append, fields-blanked, ends_in_space-solid,
  ends_in_space-append, ends_in_space-blanked, with_space-joined,
}

abbrev no_words : ResolveResult → List Text
no_words res = if res.negated then codes "no" ∷ [] else []

no-IsWord : IsWord (codes "no")
no-IsWord = (λ e. cc, (refl, (refl, tt)))

no_prefix-blanked : (res : ResolveResult) → no_prefix_of res ≡ blanked (no_words res)
no_prefix-blanked res = elim (Bool-cases res.negated) [ inl e ↦ rw e refl | inr e ↦ rw e refl ]

no_words-IsWord : (res : ResolveResult) → All IsWord (no_words res)
no_words-IsWord res = elim (Bool-cases res.negated) [
  | inl e ↦ rw e (no-IsWord, tt)
  | inr e ↦ rw e tt
]

-- The words before the arguments.
abbrev leading : List Text → ResolveResult → List Text
leading words res = (words ++ no_words res) ++ res.full_name

leading-IsWord :
    (words : List Text) (res : ResolveResult)
    → All IsWord words
    → All IsWord res.full_name
    → All IsWord (leading words res)
leading-IsWord words res h k =
    All-append IsWord (words ++ no_words res) res.full_name
      (All-append IsWord words (no_words res) h (no_words-IsWord res)) k

with_space-leading :
    (words : List Text) (res : ResolveResult)
    → All IsWord res.full_name
    → with_space (blanked words ++ (no_prefix_of res ++ join res.full_name (codes " ")))
      ≡ blanked (leading words res)
with_space-leading words res k =
    ap (λ n. with_space (blanked words ++ (n ++ join res.full_name (codes " "))))
      (no_prefix-blanked res)
    ∙ (ap with_space (
          sym (
            append_assoc (blanked words) (blanked (no_words res)) (join res.full_name (codes " "))))
        ∙ (ap (λ s. with_space (s ++ join res.full_name (codes " ")))
              (sym (blanked-append words (no_words res)))
            ∙ with_space-joined (words ++ no_words res) res.full_name k))

args_after :
    (args : List Text) (line : Text)
    → (if not (is_nil args) then line ++ join args (codes " ") else line)
      ≡ line ++ join args (codes " ")
args_after [] line = sym (append-nil line)
args_after (a ∷ args) line = refl

resolved_line-leading :
    (words : List Text) (res : ResolveResult)
    → All IsWord res.full_name
    → resolved_line res (blanked words) (no_prefix_of res)
      ≡ blanked (leading words res) ++ join res.args (codes " ")
unfolding resolved_line
resolved_line-leading words res k =
    args_after res.args
      (with_space (blanked words ++ (no_prefix_of res ++ join res.full_name (codes " "))))
    ∙ ap (λ l. l ++ join res.args (codes " ")) (with_space-leading words res k)

-- Arguments that stand in a line: words, of which the last may be empty.
abbrev pub AreArgs : List Text → Type 0
AreArgs [] = Unit
AreArgs (a ∷ []) = IsSolid a
AreArgs (a ∷ b ∷ args) = IsWord a × AreArgs (b ∷ args)

tab_tokens-fields :
    (s w : Text) (ws : List Text)
    → fields s ≡ w ∷ ws
    → tab_tokens s ≡ (if ends_in_space s then (w ∷ ws) ++ [] ∷ [] else w ∷ ws)
unfolding tab_tokens
tab_tokens-fields s w ws e = rw (tab_tokens, e) refl

tab_tokens_open :
    (s : Text) (ws : List Text)
    → fields s ≡ ws
    → ws ≢ []
    → ends_in_space s ≡ true
    → tab_tokens s ≡ ws ++ [] ∷ []
tab_tokens_open s [] e n i = absurd (n refl)
tab_tokens_open s (w ∷ ws) e n i = tab_tokens-fields s w ws e ∙ rw i refl

tab_tokens_closed :
    (s : Text) (ws : List Text)
    → fields s ≡ ws
    → ws ≢ []
    → ends_in_space s ≡ false
    → tab_tokens s ≡ ws
tab_tokens_closed s [] e n i = absurd (n refl)
tab_tokens_closed s (w ∷ ws) e n i = tab_tokens-fields s w ws e ∙ rw i refl

not_nil_last : (ws : List Text) (a : Text) → ws ++ a ∷ [] ≢ []
not_nil_last [] a = λ e. cc
not_nil_last (w ∷ ws) a = λ e. cc

-- The tokens of a line that ends with this one, which may be empty.
tab_tokens-last :
    (ws : List Text) (a : Text)
    → All IsWord ws
    → IsSolid a
    → tab_tokens (blanked ws ++ a) ≡ ws ++ a ∷ []
unfolding tab_tokens fields fields_from
tab_tokens-last [] [] k h = refl
tab_tokens-last (w ∷ ws) [] k h =
    tab_tokens_open (blanked (w ∷ ws) ++ []) (w ∷ ws)
      (fields-blanked (w ∷ ws) [] k ∙ append-nil (w ∷ ws)) (λ e. cc)
      (ap ends_in_space (append-nil (blanked (w ∷ ws))) ∙ ends_in_space-blanked w ws)
tab_tokens-last ws (r ∷ a) k h =
    tab_tokens_closed (blanked ws ++ (r ∷ a)) (ws ++ (r ∷ a) ∷ [])
      (fields-blanked ws (r ∷ a) k ∙ ap (λ l. ws ++ l) (fields-end (r ∷ a) (λ e. cc, h)))
      (not_nil_last ws (r ∷ a))
      (ends_in_space-append (blanked ws) (r ∷ a) (λ e. cc) ∙ ends_in_space-solid (r ∷ a) h)

tab_tokens-args :
    (ws args : List Text)
    → All IsWord ws
    → args ≢ []
    → AreArgs args
    → tab_tokens (blanked ws ++ join args (codes " ")) ≡ ws ++ args
tab_tokens-args ws [] k n j = absurd (n refl)
tab_tokens-args ws (a ∷ []) k n j = tab_tokens-last ws a k j
tab_tokens-args ws (a ∷ b ∷ args) k n j =
    let rest = join (b ∷ args) (codes " ") in
    ap tab_tokens (
      sym (
        append_assoc (blanked ws) (blanked (a ∷ [])) rest
        ∙ ap (λ s. blanked ws ++ s) (append_assoc a (codes " ") rest))
      ∙ ap (λ s. s ++ rest) (sym (blanked-append ws (a ∷ []))))
    ∙ (tab_tokens-args (ws ++ a ∷ []) (b ∷ args) (All-append IsWord ws (a ∷ []) k (j.0, tt))
          (λ e. cc) j.1
        ∙ append_assoc ws (a ∷ []) (b ∷ args))

-- The tokens of the line up to the cursor. Without arguments it ends in the blank before the next
-- word, and with them as it was typed.
abbrev pub tokens_of : ResolveResult → Text → List Text
tokens_of res s = if is_nil res.args then fields s else tab_tokens s

line_tokens :
    (ws args : List Text)
    → All IsWord ws
    → AreArgs args
    → (if is_nil args
        then fields (blanked ws ++ join args (codes " "))
        else tab_tokens (blanked ws ++ join args (codes " ")))
      ≡ ws ++ args
unfolding fields fields_from
line_tokens ws [] k j = fields-blanked ws [] k
line_tokens ws (a ∷ args) k j = tab_tokens-args ws (a ∷ args) k (λ e. cc) j

leading-canonical :
    (words : List Text) (res : ResolveResult)
    → leading words res ++ res.args ≡ words ++ canonical res
leading-canonical words res =
    append_assoc (words ++ no_words res) res.full_name res.args
    ∙ append_assoc words (no_words res) (res.full_name ++ res.args)

resolved_line-tokens :
    (words : List Text) (res : ResolveResult)
    → All IsWord words
    → All IsWord res.full_name
    → AreArgs res.args
    → tokens_of res (resolved_line res (blanked words) (no_prefix_of res)) ≡ words ++ canonical res
resolved_line-tokens words res h k j =
    ap (tokens_of res) (resolved_line-leading words res k)
    ∙ (line_tokens (leading words res) res.args (leading-IsWord words res h k) j
        ∙ leading-canonical words res)

pub take-length : (a b : Text) → take (length a) (a ++ b) ≡ a
take-length [] b = refl
take-length (r ∷ a) b = ap (◌∷◌ r) (take-length a b)

drop-length : (a b : Text) → drop (length a) (a ++ b) ≡ b
drop-length [] b = refl
drop-length (r ∷ a) b = drop-length a b

-- A line that is rewritten is the one that was made of it.
rewritten_line :
    (same : Bool) (made line : Text × ℕ)
    → (if same then none else some made) ≡ some line
    → made ≡ line
rewritten_line true made line e = none_and_some refl e
rewritten_line false made line e = some-injective e

-- What is promised of a line and its cursor: the text behind the cursor stays, and the tokens before
-- it are the words of the prefix and then words that resolve to the same.
abbrev pub KeepsMeaning : Env → Text → List Text → ResolveResult → Text → ℕ → Type 0
KeepsMeaning env behind prefix_words res text cursor =
    (drop cursor text ≡ behind)
    × ((words : List Text) × (tokens_of res (take cursor text) ≡ prefix_words ++ words)
        × (resolve env.fuel env.tree words ≡ returns res))

-- The line that a Tab writes over one that resolves without ambiguity has the same meaning. What
-- stands behind the cursor stays. Before it stand the words of the prefix, each of which has a blank
-- behind it, and then words that resolve to the same command, names, arguments and negation. The
-- words of the prefix, the names of the commands and the arguments are not empty and have no white
-- space, but that the last argument may be empty, as it is behind a blank; and the tree has no
-- command "no".
pub resolved_line-resolves :
    (env : Env) (tokens prefix_words : List Text) (res : ResolveResult) (line : Text) (pos : ℕ)
    (typed : Text) (trailing_space : Bool) (text : Text) (cursor : ℕ)
    → find env.tree (codes "no") ≡ none
    → resolve env.fuel env.tree tokens ≡ returns res
    → res.ambiguous ≡ []
    → All IsWord prefix_words
    → All IsWord res.full_name
    → AreArgs res.args
    → (complete_resolved env line pos typed trailing_space res
        (blanked prefix_words)
        (no_prefix_of res)).new_line
      ≡ some (text, cursor)
    → KeepsMeaning env (drop pos line) prefix_words res text cursor
unfolding complete_resolved
resolved_line-resolves env tokens prefix_words res line pos typed trailing_space text cursor n h a w
      k j e =
    let resolved = resolved_line res (blanked prefix_words) (no_prefix_of res) in
    let full = resolved ++ drop pos line in
    let same = rewritten_line (text_eq full line) (full, length resolved) (text, cursor) e in
    subst (λ p. KeepsMeaning env (drop pos line) prefix_words res p.0 p.1) same
      (
        drop-length resolved (drop pos line),
        (
          canonical res,
          ap (tokens_of res) (take-length resolved (drop pos line))
              ∙ resolved_line-tokens prefix_words res w k j,
          resolve-canonical env.fuel env.tree tokens res n h a,
        ),
      )
