-- ===== src/Command/Build/Switches.antt =====
-- Which commands that switch levels are inherited.
use routercli.Base.{
  suc, ◌≤◌, Bool, false, not, ◌&&◌, List, [], ◌≡◌, ◌≢◌, arith, Text, text_eq, text_eq_iff,
  Bool-cases, inl, inr, ◌∷◌, refl, sym, ap, ◌∙◌, subst, some, none_and_some, some-injective,
  if_true, if_false, text_eq_refl, ==_iff,
}
use routercli.Command.Tree.{command, Tree, nil, entry, Fields, find}
use routercli.Command.Prune.Kept.{lookup}
use routercli.Command.Build.{has_name, size, filtered_entry, filter_commands}

-- Whether running the command switches levels.
abbrev pub is_switch : List Text → Fields → Bool
is_switch names f = not (text_eq f.run []) && has_name names f.run

-- No entry of the map switches levels.
abbrev pub NoSwitch : List Text → Tree → Type 0
NoSwitch names nil = Unit
NoSwitch names (entry name (command f sub) rest) = (is_switch names f ≡ false) × NoSwitch names rest

-- Nor does one of the maps right below it.
abbrev pub NoSwitchBelow : List Text → Tree → Type 0
NoSwitchBelow names nil = Unit
NoSwitchBelow names (entry name (command f sub) rest) =
    (is_switch names f ≡ false) × NoSwitch names sub × NoSwitchBelow names rest

entry-NoSwitch :
    (names : List Text) (name : Text) (f : Fields) (sub filtered_sub out : Tree)
    → is_switch names f ≡ false
    → NoSwitch names out
    → NoSwitch names (filtered_entry name f sub filtered_sub out)
unfolding filtered_entry
entry-NoSwitch names name f sub filtered_sub out h k = ground arith

filter_commands-NoSwitch : (names : List Text) (t : Tree) → NoSwitch names (filter_commands names t)
unfolding filter_commands
filter_commands-NoSwitch names nil = tt
filter_commands-NoSwitch names (entry name (command f sub) rest) =
    elim (Bool-cases (is_switch names f)) [
      | inl e ↦ rw e (filter_commands-NoSwitch names rest)
      | inr e ↦ rw e (
          entry-NoSwitch names name f sub (filter_commands names sub) (filter_commands names rest) e
            (filter_commands-NoSwitch names rest))
    ]

size-filtered_entry :
    (name : Text) (f : Fields) (sub filtered_sub out : Tree)
    → size (filtered_entry name f sub filtered_sub out) ≤ suc (size out)
unfolding filtered_entry
size-filtered_entry name f sub filtered_sub out = ground arith

size-filter_commands : (names : List Text) (t : Tree) → size (filter_commands names t) ≤ size t
unfolding filter_commands
size-filter_commands names nil = omega arith
size-filter_commands names (entry name (command f sub) rest) = ground (
  arith,
  size-filter_commands names rest,
  size-filtered_entry name f sub (filter_commands names sub) (filter_commands names rest),
)

-- A map that keeps its size had no entry to drop.
size-NoSwitch :
    (names : List Text) (t : Tree) → size (filter_commands names t) ≡ size t → NoSwitch names t
unfolding filter_commands
size-NoSwitch names nil h = tt
size-NoSwitch names (entry name (command f sub) rest) h = ground (
  arith,
  size-NoSwitch names rest,
  size-filter_commands names rest,
  size-filtered_entry name f sub (filter_commands names sub) (filter_commands names rest),
)

entry-NoSwitchBelow :
    (names : List Text) (name : Text) (f : Fields) (sub out : Tree)
    → is_switch names f ≡ false
    → NoSwitchBelow names out
    → NoSwitchBelow names (filtered_entry name f sub (filter_commands names sub) out)
unfolding filtered_entry
entry-NoSwitchBelow names name f nil out h k = (h, tt, k)
entry-NoSwitchBelow names name f (entry n c rest) out h k =
    ground
      (arith, size-NoSwitch names (entry n c rest), filter_commands-NoSwitch names (entry n c rest))

-- What a level inherits has no command that switches levels, in its own map and in the maps right
-- below it.
filter_commands-NoSwitchBelow :
    (names : List Text) (t : Tree) → NoSwitchBelow names (filter_commands names t)
unfolding filter_commands
filter_commands-NoSwitchBelow names nil = tt
filter_commands-NoSwitchBelow names (entry name (command f sub) rest) =
    elim (Bool-cases (is_switch names f)) [
      | inl e ↦ rw e (filter_commands-NoSwitchBelow names rest)
      | inr e ↦ rw e (
          entry-NoSwitchBelow names name f sub (filter_commands names rest) e
            (filter_commands-NoSwitchBelow names rest))
    ]

-- Each entry of the map runs something, and none switches levels.
abbrev pub AreKept : List Text → Tree → Type 0
AreKept names nil = Unit
AreKept names (entry name (command f sub) rest) =
    (is_switch names f ≡ false) × (f.run ≢ []) × AreKept names rest

size-runs :
    (name : Text) (f : Fields) (sub filtered_sub out : Tree)
    → f.run ≢ []
    → size (filtered_entry name f sub filtered_sub out) ≡ suc (size out)
unfolding filtered_entry
size-runs name f sub filtered_sub out n = ground (arith, text_eq_iff f.run [])

size-AreKept :
    (names : List Text) (t : Tree) → AreKept names t → size (filter_commands names t) ≡ size t
unfolding filter_commands
size-AreKept names nil k = refl
size-AreKept names (entry name (command f sub) rest) k = rw k.0 (
    size-runs name f sub (filter_commands names sub) (filter_commands names rest) k.1
    ∙ ap suc (size-AreKept names rest k.2))

-- A map whose size stays is taken over as it is.
filtered_entry-same :
    (name : Text) (f : Fields) (sub filtered_sub out : Tree)
    → size filtered_sub ≡ size sub
    → filtered_entry name f sub filtered_sub out ≡ entry name (command f sub) out
unfolding filtered_entry
filtered_entry-same name f sub filtered_sub out e =
    ground (arith, ==_iff (size filtered_sub) (size sub))

lookup-other :
    (key : Text) (f : Fields) (sub filtered_sub out : Tree) (name : Text) (path : List Text)
    → text_eq key name ≡ false
    → lookup (filtered_entry key f sub filtered_sub out) name path ≡ lookup out name path
unfolding filtered_entry
lookup-other key f sub filtered_sub out name path e = ground arith

lookup-kept :
    (names : List Text) (key : Text) (f : Fields) (sub rest : Tree) (next : Text) (path : List Text)
    → is_switch names f ≡ false
    → AreKept names sub
    → lookup (filter_commands names (entry key (command f sub) rest)) key (next ∷ path)
      ≡ lookup sub next path
unfolding filter_commands
lookup-kept names key f sub rest next path h k =
    rw
      (
        h,
        filtered_entry-same key f sub (filter_commands names sub) (filter_commands names rest)
            (size-AreKept names sub k),
        text_eq_refl key,
      )
      refl

-- Below a command that does not switch levels, and below a map in which each command runs something
-- and does not switch levels, a level inherits all that there is, as it is: a command that switches
-- levels too, in a map below that map.
pub nested_switch_kept :
    (names : List Text) (t : Tree) (key : Text) (f : Fields) (sub : Tree)
    → find t key ≡ some (command f sub)
    → is_switch names f ≡ false
    → AreKept names sub
    → (next : Text) (path : List Text)
    → lookup (filter_commands names t) key (next ∷ path) ≡ lookup sub next path
unfolding find filter_commands
nested_switch_kept names nil key f sub e h k next path = none_and_some refl e
nested_switch_kept names (entry name (command g s) rest) key f sub e h k next path =
    elim (Bool-cases (text_eq name key)) [
      | inl same ↦
          subst
            (λ c.
              lookup (filter_commands names (entry name c rest)) key (next ∷ path)
              ≡ lookup sub next path)
            (sym (some-injective (if_true _ _ _ same e)))
            (subst
              (λ n.
                lookup (filter_commands names (entry n (command f sub) rest)) key (next ∷ path)
                ≡ lookup sub next path)
              (sym ((text_eq_iff name key).0 same))
              (lookup-kept names key f sub rest next path h k))
      | inr other ↦
          let below =
            nested_switch_kept names rest key f sub (if_false _ _ _ other e) h k next path in
          elim (Bool-cases (is_switch names g)) [
            | inl i ↦ rw i below
            | inr i ↦ rw i (
                lookup-other name g s (filter_commands names s) (filter_commands names rest) key
                  (next ∷ path) other
                ∙ below)
          ]
    ]
