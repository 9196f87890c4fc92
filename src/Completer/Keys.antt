-- ===== src/Completer/Keys.antt =====
-- completer/completer.go: the "?", and `OnChange`, which sees every key.
use routercli.Base.{
  ℕ, ◌-◌, not, ◌||◌, none, some, List, [], ◌∷◌, ◌++◌, ltb, ◌==◌, if◌then◌else◌, length, take, drop,
  Text, codes, text_eq,
}
use routercli.Command.Help.{Shown, shows, panics, out_of_fuel, help_for_path}
use routercli.Command.Help.Layout.{fields, println}
use routercli.Completer.{
  Changed, Env, TreeListener, changed, crashed, ends_in_space, is_nil, on_tab, on_unwrapped, reset,
  unresolved, unwrap_help_tokens,
}

-- `helpTokensAndRestoredBuffer`: the tokens, and the line less the "?".
unfoldable pub help_tokens : Text → List Text
unfolding ends_in_space
help_tokens typed =
    let tokens = fields typed in
    if ends_in_space typed || is_nil tokens then tokens ++ [] ∷ [] else tokens

abbrev pub restored_buffer : Text → ℕ → Text
restored_buffer line pos = take (pos - 1) line ++ drop pos line

abbrev pub help_shown : Env → Text → ℕ → Shown → Changed
help_shown env line pos panics = crashed
help_shown env line pos out_of_fuel = unresolved
help_shown env line pos (shows help) = changed (record {
  listener = reset;
  printed =
      if not (text_eq help [])
      then env.current_prompt ++ (take (pos - 1) line ++ (codes "?" ++ println [])) ++ help
      else [];
  new_line = some (restored_buffer line pos, pos - 1);
})

-- `handleHelp`.
unfoldable pub handle_help : Env → Text → ℕ → Changed
unfolding help_tokens unwrap_help_tokens
handle_help env line pos =
    let tokens = help_tokens (take (pos - 1) line) in
    on_unwrapped (unwrap_help_tokens (length tokens) env tokens []) (λ words line_prefix.
      help_shown env line pos
        (help_for_path env.fuel env.tree words env.translate env.list_options env.width))

-- `OnChange`; `readline.CharTab` is 9.
unfoldable pub on_change : Env → TreeListener → Text → ℕ → ℕ → Changed
unfolding on_tab handle_help
on_change env l line pos key =
    if ltb (length line) pos
    then crashed
    else if key == b'?'
    then (if pos == 0 then crashed else handle_help env line pos)
    else if not (key == 9)
    then changed (record { listener = reset; printed = []; new_line = none })
    else on_tab env l line pos
