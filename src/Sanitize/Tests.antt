-- ===== src/Sanitize/Tests.antt =====
-- Runs of sanitize/sanitize.go, and the theorems at inputs that meet their hypotheses.
use routercli.Base.{none, some, List, [], ◌∷◌, ◌≡◌, refl, Text, codes}
use routercli.Sanitize.{Piece, rune, field, terminal, validate_input, control_character}
use routercli.Sanitize.Escape.{normal, decode, decode-escaped}

abbrev bell : Text
bell = 97 ∷ 7 ∷ 10 ∷ []

field-bell : field bell ≡ codes "a\\x07\\n"
unfolding field
field-bell = refl

decode-escaped_example :
    (decode normal (field bell) ≡ bell) × (decode normal (terminal bell) ≡ bell)
decode-escaped_example = decode-escaped bell

abbrev path : List Piece
path = rune 97 ∷ rune b'\\' ∷ rune 233 ∷ []

validate_input-path : validate_input path ≡ none
unfolding validate_input
validate_input-path = refl

abbrev tabbed : List Piece
tabbed = rune 233 ∷ rune 9 ∷ []

validate_input-tabbed : validate_input tabbed ≡ some (control_character 9 2)
unfolding validate_input
validate_input-tabbed = refl
