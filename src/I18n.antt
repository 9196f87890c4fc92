-- ===== src/I18n.antt =====
-- Package i18n: catalogs of messages. `fmt.Sprintf` is the argument `sprintf`, on arguments of any
-- type; a nil `*Translator` is `none`. Reading and decoding a catalog file is the argument `read` of
-- `load_catalogs`.
pub mod Lookup
mod Tests
use routercli.Base.{
  Bool, true, false, not, ◌&&◌, ◌||◌, Option, none, some, List, [], ◌∷◌, ◌++◌, map, if◌then◌else◌,
  Text, codes, text_eq, text_leb, length, ◌-◌, take, drop, leb,
}

abbrev pub Catalog : Type 0
Catalog = List (Text × Text)

abbrev pub Catalogs : Type 0
Catalogs = List (Text × Catalog)

-- `m[key]`.
unfoldable pub get {ℓ} : {A : Type ℓ} → List (Text × A) → Text → Option A
get [] key = none
get ((k, a) ∷ m) key = if text_eq k key then some a else get m key

pub record Translator : Type 0 where
  pub catalogs : Catalogs
  pub current_lang : Text
  pub default_lang : Text

-- `New`.
unfoldable pub new : Catalogs → Text → Text → Translator
unfolding get
new catalogs lang default_lang = record {
  catalogs = catalogs;
  current_lang = elim (get catalogs lang) [ none ↦ default_lang | some cat ↦ lang ];
  default_lang = default_lang;
}

-- `lookup`.
unfoldable pub lookup : Translator → Text → Text → Option Text
unfolding get
lookup t lang key = elim (get t.catalogs lang) [ none ↦ none | some cat ↦ get cat key ]

abbrev pub bracketed : Text → Text
bracketed key = codes "[[" ++ (key ++ codes "]]")

abbrev pub or_else {ℓ} : {A : Type ℓ} → Option A → Option A → Option A
or_else none o = o
or_else (some a) o = some a

abbrev pub filled {ℓ} : {Arg : Type ℓ} → (Text → List Arg → Text) → Text → List Arg → Text
filled sprintf text [] = text
filled sprintf text (a ∷ args) = sprintf text (a ∷ args)

-- `T`.
unfoldable pub t {ℓ} :
    {Arg : Type ℓ} → (Text → List Arg → Text) → Option Translator → Text → List Arg → Text
unfolding lookup
t sprintf none key args = bracketed key
t sprintf (some translator) key args =
    elim (or_else (lookup translator translator.current_lang key)
      (lookup translator translator.default_lang key)) [
        | none ↦ bracketed key
        | some text ↦ filled sprintf text args
      ]

-- `sort.Strings`.
unfoldable pub insert : Text → List Text → List Text
insert a [] = a ∷ []
insert a (b ∷ l) = if text_leb a b then a ∷ b ∷ l else b ∷ insert a l

unfoldable pub sorted_keys {ℓ} : {A : Type ℓ} → List (Text × A) → List Text
unfolding insert
sorted_keys [] = []
sorted_keys ((k, a) ∷ m) = insert k (sorted_keys m)

-- `AvailableLanguages`.
unfoldable pub available_languages : Translator → List Text
unfolding sorted_keys
available_languages translator = sorted_keys translator.catalogs

-- `SetLanguage`: the error shows the languages that are there.
pub data SetResult : Type 0 where
  switched : Translator → SetResult
  not_loaded : Text → List Text → SetResult

unfoldable pub set_language : Translator → Text → SetResult
unfolding get available_languages
set_language translator lang = elim (get translator.catalogs lang) [
  | none ↦ not_loaded lang (available_languages translator)
  | some cat ↦ switched (record translator { current_lang = lang })
]

-- `CurrentLanguage`.
abbrev pub current_language : Translator → Text
current_language translator = translator.current_lang

-- An entry of the language directory, and what reading a file of it gives.
pub record DirEntry : Type 0 where
  pub name : Text
  pub is_dir : Bool

pub data ReadCatalog : Type 0 where
  catalog : Catalog → ReadCatalog
  unreadable unparsable : ReadCatalog

pub data Loading : Type 0 where
  loaded : Catalogs → Loading
  read_error parse_error : Text → Loading

-- `strings.HasSuffix(name, ".yaml")`, and the name without it.
unfoldable pub yaml_stem : Text → Option Text
yaml_stem name =
    let stem = length name - 5 in
    if leb 5 (length name) && text_eq (drop stem name) (codes ".yaml")
    then some (take stem name)
    else none

-- `catalogs[lang] = cat`.
unfoldable pub put {ℓ} : {A : Type ℓ} → List (Text × A) → Text → A → List (Text × A)
put [] key a = (key, a) ∷ []
put ((k, b) ∷ m) key a = if text_eq k key then (k, a) ∷ m else (k, b) ∷ put m key a

-- The language of an entry: a file with that suffix.
abbrev pub language_of : DirEntry → Option Text
language_of entry = if entry.is_dir then none else yaml_stem entry.name

-- The loop of `LoadCatalogs`. A directory that does not exist has no entries.
unfoldable pub load_catalogs : (Text → ReadCatalog) → List DirEntry → Catalogs → Loading
unfolding yaml_stem put
load_catalogs read [] catalogs = loaded catalogs
load_catalogs read (entry ∷ entries) catalogs = elim (language_of entry) [
  | none ↦ load_catalogs read entries catalogs
  | some lang ↦ elim (read entry.name) [
    | unreadable ↦ read_error entry.name
    | unparsable ↦ parse_error entry.name
    | catalog cat ↦ load_catalogs read entries (put catalogs lang cat)
  ]
]
