-- ===== src/I18n/Lookup.antt =====
-- Which text a key is shown as.
use routercli.Base.{
  none, some, List, [], ◌∷◌, ◌≡◌, ◌≢◌, ◌↔◌, ◌⊎◌, refl, arith, ◌∙◌, Text, text_eq_iff,
}
use routercli.Command.Roles.Gate.{Has}
use routercli.I18n.{
  Catalog, get, Translator, lookup, bracketed, t, insert, sorted_keys, available_languages,
  switched, set_language,
}

Has-insert : (r a : Text) (l : List Text) → Has r (insert a l) ↔ ((r ≡ a) ⊎ Has r l)
unfolding insert
Has-insert r a [] = ground arith
Has-insert r a (b ∷ l) = ground (arith, Has-insert r a l)

sorted_keys_iff {ℓ} :
    {A : Type ℓ} (m : List (Text × A)) (r : Text) → Has r (sorted_keys m) ↔ (get m r ≢ none)
unfolding sorted_keys get
sorted_keys_iff [] r = ground arith
sorted_keys_iff ((k, a) ∷ m) r =
    ground (arith, Has-insert r k (sorted_keys m), sorted_keys_iff m r, text_eq_iff k r)

lookup_in :
    (translator : Translator) (lang key : Text) (cat : Catalog)
    → get translator.catalogs lang ≡ some cat
    → lookup translator lang key ≡ get cat key
unfolding lookup
lookup_in translator lang key cat h = rw (lookup, h) refl

module _ {ℓ} {Arg : Type ℓ} (sprintf : Text → List Arg → Text) (translator : Translator) where
  t_current :
      (key text : Text)
      → lookup translator translator.current_lang key ≡ some text
      → t sprintf (some translator) key [] ≡ text
  unfolding t
  t_current key text h = rw (t, h) refl

  t_missing :
      (key : Text)
      → lookup translator translator.current_lang key ≡ none
      → lookup translator translator.default_lang key ≡ none
      → t sprintf (some translator) key [] ≡ bracketed key
  unfolding t
  t_missing key h k = rw (t, h, k) refl

-- `SetLanguage` succeeds for exactly the languages that `AvailableLanguages` lists. It changes the
-- current language alone, and from then on a key of that catalog is shown as its text there; a key
-- of neither this nor the default catalog is shown in brackets.
set_language_iff {ℓ} :
    {Arg : Type ℓ} (sprintf : Text → List Arg → Text) (translator : Translator) (lang : Text)
    → (Has lang (available_languages translator)
        ↔ (set_language translator lang ≡ switched (record translator { current_lang = lang })))
      × ((key text : Text) (cat : Catalog)
          → get translator.catalogs lang ≡ some cat
          → get cat key ≡ some text
          → t sprintf (some (record translator { current_lang = lang })) key [] ≡ text)
      × ((key : Text)
          → lookup translator lang key ≡ none
          → lookup translator translator.default_lang key ≡ none
          → t sprintf (some (record translator { current_lang = lang })) key [] ≡ bracketed key)
unfolding set_language available_languages lookup
set_language_iff sprintf translator lang = (
  ground (arith, sorted_keys_iff translator.catalogs lang),
  λ key text cat h k.
      t_current sprintf (record translator { current_lang = lang }) key text
        (lookup_in translator lang key cat h ∙ k),
  λ key h k. t_missing sprintf (record translator { current_lang = lang }) key h k,
)
