-- ===== src/Paging/Pager.antt =====
-- paging/pager.go. The terminal is given by what it answers: whether `fd` is one, its size where
-- `term.GetSize` gives it, and the bytes that `readKeypress` reads, `none` being a failed read, as
-- is the end of the list. What `Display` prints is a list of outputs.
pub mod Pages
use routercli.Base.{
  ℕ, zero, suc, ◌+◌, ◌-◌, Bool, true, false, not, ◌&&◌, ◌||◌, Option, none, some, List, [], ◌∷◌,
  ◌++◌, map, ltb, leb, ◌==◌, if◌then◌else◌, length, take, drop, Text,
}

-- `EffectivePageLines`; `size` is (width, height).
unfoldable pub effective_page_lines : Option (ℕ × ℕ) → Option ℕ → ℕ → ℕ
effective_page_lines size (some n) fallback = n
effective_page_lines none none fallback = fallback
effective_page_lines (some (w, h)) none fallback = if ltb 1 h then h - 1 else fallback

-- `EffectiveTerminalWidth`.
unfoldable pub effective_terminal_width : Option (ℕ × ℕ) → Option ℕ → ℕ → ℕ
effective_terminal_width size (some n) fallback = n
effective_terminal_width none none fallback = fallback
effective_terminal_width (some (w, h)) none fallback = if ltb 0 w then w else fallback

pub data KeyAction : Type 0 where
  page line quit : KeyAction

-- The `switch` of `readKeypress`.
unfoldable pub key_action : ℕ → KeyAction
key_action b =
    if b == b' '
    then page
    else if b == 13 || b == 10
    then line
    else if b == b'q' || b == b'Q' || b == 3
    then quit
    else page

pub data Output : Type 0 where
  text : Text → Output
  prompt clear : Output

-- `writeAll`.
abbrev pub write_all : List Text → List Output
write_all = map text

abbrev pub Keys : Type 0
Keys = List (Option ℕ)

-- `readKeypress`: `none` is its error.
unfoldable pub read_keypress : Keys → Option KeyAction × Keys
unfolding key_action
read_keypress [] = (none, [])
read_keypress (none ∷ keys) = (none, keys)
read_keypress (some b ∷ keys) = (some (key_action b), keys)

abbrev pub prepend : List Output → Option (List Output) → Option (List Output)
prepend shown none = none
prepend shown (some out) = some (shown ++ out)

-- The loop of `Display`: `rest` is `lines[i:]`. Its `none` says that the fuel ran out.
unfoldable pub display_loop : ℕ → ℕ → ℕ → List Text → Keys → Option (List Output)
display_loop zero page_lines step rest keys = none
display_loop (suc fuel) page_lines step [] keys = some []
display_loop (suc fuel) page_lines step (l ∷ ls) keys =
    let shown = write_all (take step (l ∷ ls)) in
    let paused = shown ++ prompt ∷ clear ∷ [] in
    elim (drop step (l ∷ ls)) [
      | [] ↦ some shown
      | r ∷ rs ↦ elim (read_keypress keys).0 [
        | none ↦ some (paused ++ write_all (r ∷ rs))
        | some a ↦ elim a [
          | quit ↦ some paused
          | line ↦ prepend paused (display_loop fuel page_lines 1 (r ∷ rs) (read_keypress keys).1)
          | page ↦
              prepend paused
                (display_loop fuel page_lines page_lines (r ∷ rs) (read_keypress keys).1)
        ]
      ]
    ]

-- `Display`, with a turn of the loop for each line and one more. A `pageLines` below zero is 0 here.
unfoldable pub display : Bool → List Text → ℕ → Bool → Keys → Option (List Output)
unfolding display_loop read_keypress
display is_terminal lines page_lines paging_enabled keys =
    if not paging_enabled || page_lines == 0 || not is_terminal || leb (length lines) page_lines
    then some (write_all lines)
    else display_loop (suc (length lines)) page_lines page_lines lines keys
