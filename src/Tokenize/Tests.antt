-- ===== src/Tokenize/Tests.antt =====
-- Runs of tokenize/tokenize.go, and its theorem at values that need quotes.
use routercli.Base.{List, [], ◌∷◌, ◌≡◌, refl, map, Text, codes, join}
use routercli.Tokenize.{tokens, unterminated, tokenize, quote_if_needed}
use routercli.Tokenize.RoundTrip.{tokenize-join-quote_if_needed}

tokenize-description :
    tokenize (codes "set description \"uplink to core\"")
    ≡ tokens (codes "set" ∷ codes "description" ∷ codes "uplink to core" ∷ [])
unfolding tokenize
tokenize-description = refl

tokenize-open : tokenize (codes "a 'b c") ≡ unterminated 39
unfolding tokenize
tokenize-open = refl

abbrev values : List Text
values = codes "path" ∷ codes "C:\\ \"x\"" ∷ [] ∷ []

tokenize-join-quote_if_needed_example :
    tokenize (join (map quote_if_needed values) (codes " ")) ≡ tokens values
tokenize-join-quote_if_needed_example = tokenize-join-quote_if_needed values
