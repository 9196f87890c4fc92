-- ===== src/Command/Replay/Prefix.antt =====
-- Replay goes line by line, and stops at the first line that fails.
use routercli.Base.{
  ℕ, false, List, [], ◌∷◌, ◌++◌, ◌≡◌, refl, inl, inr, Bool-cases, if◌then◌else◌, ◌||◌, Text, codes,
  text_eq, has_prefix, trim_space, ap, sym, ◌∙◌,
}
use routercli.Command.Context.{AppContext}
use routercli.Command.Replay.{
  Handlers, Replayed, went, stopped, panicked, handler_panicked, out_of_fuel, and_then, replay_line,
  replay_each, replay_lines,
}

-- The lines that are neither empty nor a comment.
abbrev pub statements : List Text → List Text
statements [] = []
statements (line ∷ lines) =
    let rest = statements lines in
    if text_eq (trim_space line) [] || has_prefix (trim_space line) (codes "!")
    then rest
    else line ∷ rest

and_then-cong :
    (r : Replayed) (f g : AppContext → Replayed)
    → ((ctx : AppContext) → f ctx ≡ g ctx)
    → and_then r f ≡ and_then r g
and_then-cong (went ctx) f g h = h ctx
and_then-cong (stopped e ctx) f g h = refl
and_then-cong (panicked ctx) f g h = refl
and_then-cong (handler_panicked ctx) f g h = refl
and_then-cong out_of_fuel f g h = refl

and_then_assoc :
    (r : Replayed) (f g : AppContext → Replayed)
    → and_then (and_then r f) g ≡ and_then r (λ ctx. and_then (f ctx) g)
and_then_assoc (went ctx) f g = refl
and_then_assoc (stopped e ctx) f g = refl
and_then_assoc (panicked ctx) f g = refl
and_then_assoc (handler_panicked ctx) f g = refl
and_then_assoc out_of_fuel f g = refl

statement :
    (line : Text) (lines : List Text)
    → (text_eq (trim_space line) [] || has_prefix (trim_space line) (codes "!")) ≡ false
    → line ∷ statements lines ≡ statements (line ∷ lines)
statement line lines e = rw e refl

module _ (fuel : ℕ) (run : Handlers) where
  replay_each-statements :
      (ctx : AppContext) (lines : List Text)
      → replay_each fuel run ctx lines ≡ replay_each fuel run ctx (statements lines)
  unfolding replay_each
  replay_each-statements ctx [] = refl
  replay_each-statements ctx (line ∷ lines) =
      elim (Bool-cases (text_eq (trim_space line) [] || has_prefix (trim_space line) (codes "!"))) [
        | inl e ↦ rw e (replay_each-statements ctx lines)
        | inr e ↦
            and_then-cong (replay_line fuel run ctx (trim_space line)) _ _
              (λ c. replay_each-statements c lines)
            ∙ ap (replay_each fuel run ctx) (statement line lines e)
      ]

  replay_each-append :
      (ctx : AppContext) (before after : List Text)
      → replay_each fuel run ctx (before ++ after)
        ≡ and_then (replay_each fuel run ctx before) (λ c. replay_each fuel run c after)
  unfolding replay_each
  replay_each-append ctx [] after = refl
  replay_each-append ctx (line ∷ before) after =
      and_then-cong (replay_line fuel run ctx (trim_space line)) _ _
        (λ c. replay_each-append c before after)
      ∙ sym (and_then_assoc (replay_line fuel run ctx (trim_space line)) _ _)

  -- Replaying two texts in a row is replaying the one and then, unless it failed, the other; and the
  -- lines that are empty or a comment do nothing.
  replay_lines-append :
      (ctx : AppContext) (before after : List Text)
      → (replay_lines fuel run ctx (before ++ after) false
          ≡ and_then
              (replay_lines fuel run ctx before false)
              (λ c. replay_lines fuel run c after false))
        × (replay_lines fuel run ctx before false
            ≡ replay_lines fuel run ctx (statements before) false)
  unfolding replay_lines
  replay_lines-append ctx before after =
      (replay_each-append ctx before after, replay_each-statements ctx before)
