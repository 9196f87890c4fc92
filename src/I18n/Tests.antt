-- ===== src/I18n/Tests.antt =====
-- A translator of two languages.
use routercli.Base.{[], ◌∷◌, ◌≡◌, refl, codes}
use routercli.I18n.{Catalogs, new, available_languages, sorted_keys}

abbrev catalogs : Catalogs
catalogs = (codes "es", []) ∷ (codes "en", []) ∷ []

sorted_languages :
    available_languages (new catalogs (codes "fr") (codes "en")) ≡ codes "en" ∷ codes "es" ∷ []
unfolding available_languages new sorted_keys
sorted_languages = refl
