-- ===== src/Command/Prune/Kept.antt =====
-- What is left of a tree of commands.
use routercli.Base.{
  Option-cases, ℕ, Bool, true, false, ◌&&◌, ◌||◌, ◌∙◌, Option, none, some, List, [], ◌∷◌, ◌≡◌, ◌⊎◌,
  inl, inr, refl, sym, subst, arith, if◌then◌else◌, Text, text_eq, text_eq_iff, Bool-cases,
}
use routercli.Command.Tree.{command, Tree, nil, entry, Fields, find}
use routercli.Command.Prune.{
  Flags, flag, Pruned, left, unknown_flag, Verdict, stays, goes, unknown, verdict, path_of,
  with_entry, prune_disabled_commands,
}

-- No map of the tree has two entries of one key.
abbrev pub IsMap : Tree → Type 0
IsMap nil = Unit
IsMap (entry name (command f sub) rest) = (find rest name ≡ none) × IsMap sub × IsMap rest

-- The command at the end of a path of names.
abbrev pub lookup : Tree → Text → List Text → Option Fields
lookup nil name path = none
lookup (entry key (command f sub) rest) name path =
    if text_eq key name
    then (elim path [ [] ↦ some f | next ∷ more ↦ lookup sub next more ])
    else lookup rest name path

abbrev pub has_flag : Flags → Text → Bool
has_flag [] name = false
has_flag ((key, on) ∷ enabled) name = text_eq key name || has_flag enabled name

-- No flag is there twice.
abbrev pub IsFlags : Flags → Type 0
IsFlags [] = Unit
IsFlags ((key, on) ∷ enabled) = (has_flag enabled key ≡ false) × IsFlags enabled

-- Whether the flags list this one as on.
abbrev pub is_on : Flags → Text → Bool
is_on [] name = false
is_on ((key, on) ∷ enabled) name = (text_eq key name && on) || is_on enabled name

-- Whether a command may stay: it requires no flag, or one that is on.
abbrev pub is_enabled : Flags → Fields → Bool
is_enabled enabled f = text_eq f.requires [] || is_on enabled f.requires

-- The command at the end of a path of commands that may stay, and none for another path.
abbrev pub lookup_enabled : Flags → Tree → Text → List Text → Option Fields
lookup_enabled enabled nil name path = none
lookup_enabled enabled (entry key (command f sub) rest) name path =
    if text_eq key name
    then (if is_enabled enabled f
        then (elim path [ [] ↦ some f | next ∷ more ↦ lookup_enabled enabled sub next more ])
        else none)
    else lookup_enabled enabled rest name path

is_on-none :
    (enabled : Flags) (name : Text) → has_flag enabled name ≡ false → is_on enabled name ≡ false
is_on-none [] name h = refl
is_on-none ((key, on) ∷ enabled) name h = ground (arith, is_on-none enabled name)

same_flag :
    (enabled : Flags) (key name : Text)
    → text_eq key name ≡ true
    → has_flag enabled key ≡ false
    → is_on enabled name ≡ false
same_flag enabled key name e h =
    is_on-none enabled name (subst (λ n. has_flag enabled n ≡ false) ((text_eq_iff key name).0 e) h)

-- A flag that is found is on where it is listed so.
is_on-flag :
    (enabled : Flags) (name : Text) (b : Bool)
    → IsFlags enabled
    → flag enabled name ≡ some b
    → is_on enabled name ≡ b
unfolding flag
is_on-flag [] name b u h = cc
is_on-flag ((key, on) ∷ enabled) name b u h =
    ground (arith, is_on-flag enabled name b u.1, same_flag enabled key name)

abbrev found_verdict : Option Bool → Verdict
found_verdict none = unknown
found_verdict (some true) = stays
found_verdict (some false) = goes

found_stays : (o : Option Bool) → found_verdict o ≡ stays → o ≡ some true
found_stays none h = cc
found_stays (some true) h = refl
found_stays (some false) h = cc

found_goes : (o : Option Bool) → found_verdict o ≡ goes → o ≡ some false
found_goes none h = cc
found_goes (some true) h = cc
found_goes (some false) h = refl

verdict-found :
    (enabled : Flags) (c : ℕ) (requires : Text)
    → verdict enabled (c ∷ requires) ≡ found_verdict (flag enabled (c ∷ requires))
unfolding verdict flag
verdict-found enabled c requires = elim (Option-cases (flag enabled (c ∷ requires))) [
  | inl e ↦ rw (verdict, e) refl
  | inr (on, e) ↦ elim (Bool-cases on) [
    | inl k ↦ rw (verdict, e, k) refl
    | inr k ↦ rw (verdict, e, k) refl
  ]
]

stays-is_enabled :
    (enabled : Flags) (requires : Text)
    → IsFlags enabled
    → verdict enabled requires ≡ stays
    → (text_eq requires [] || is_on enabled requires) ≡ true
stays-is_enabled enabled [] u h = refl
stays-is_enabled enabled (c ∷ requires) u h =
    is_on-flag enabled (c ∷ requires) true u
      (found_stays (flag enabled (c ∷ requires)) (sym (verdict-found enabled c requires) ∙ h))

goes-is_enabled :
    (enabled : Flags) (requires : Text)
    → IsFlags enabled
    → verdict enabled requires ≡ goes
    → (text_eq requires [] || is_on enabled requires) ≡ false
unfolding verdict
goes-is_enabled enabled [] u h = cc
goes-is_enabled enabled (c ∷ requires) u h =
    is_on-flag enabled (c ∷ requires) false u
      (found_goes (flag enabled (c ∷ requires)) (sym (verdict-found enabled c requires) ∙ h))

lookup_enabled-none :
    (enabled : Flags) (t : Tree) (name : Text) (path : List Text)
    → find t name ≡ none
    → lookup_enabled enabled t name path ≡ none
unfolding find
lookup_enabled-none enabled nil name path h = refl
lookup_enabled-none enabled (entry key (command f sub) rest) name path h =
    ground (arith, lookup_enabled-none enabled rest name path)

-- An entry that goes, and one that stays.
Fate : Verdict → Text → Fields → Pruned → Pruned → Tree → Type 0
Fate v name f a b t =
    ((v ≡ goes) × (b ≡ left t))
    ⊎ ((v ≡ stays)
        × ((sub : Tree) × (rest : Tree) × (a ≡ left sub)
            × (b ≡ left rest)
            × (t ≡ entry name (command f sub) rest)))

left-injective : {a b : Tree} → left a ≡ left b → a ≡ b
left-injective h = cc

with_entry-left :
    (v : Verdict) (at name : Text) (f : Fields) (a b : Pruned) (t : Tree)
    → with_entry v at name f a b ≡ left t
    → Fate v name f a b t
unfolding Fate
with_entry-left unknown at name f a b t h = cc
with_entry-left goes at name f a b t h = inl (refl, h)
with_entry-left stays at name f (left sub) (left rest) t h =
    inr (refl, (sub, rest, refl, refl, sym (left-injective h)))
with_entry-left stays at name f (left sub) (unknown_flag p r) t h = cc
with_entry-left stays at name f (unknown_flag p r) b t h = cc

Agree : Flags → Tree → Tree → Type 0
Agree enabled t t' =
    (name : Text) (path : List Text) → lookup t' name path ≡ lookup_enabled enabled t name path

gone-lookup :
    (key : Text) (enabled : Flags) (rest t' : Tree)
    → find rest key ≡ none
    → Agree enabled rest t'
    → (name : Text) (path : List Text)
    → lookup t' name path
      ≡ (if text_eq key name then none else lookup_enabled enabled rest name path)
unfolding Agree
gone-lookup key enabled rest t' m ih name path = elim (Bool-cases (text_eq key name)) [
  | inl e ↦
      rw (e, ih name path)
        (lookup_enabled-none enabled rest name path
          (subst (λ n. find rest n ≡ none) ((text_eq_iff key name).0 e) m))
  | inr e ↦ rw e (ih name path)
]

lookup-entry :
    (key : Text) (f : Fields) (enabled : Flags) (sub rest sub' rest' : Tree)
    → Agree enabled sub sub'
    → Agree enabled rest rest'
    → (name : Text) (path : List Text)
    → lookup (entry key (command f sub') rest') name path ≡ (
        if text_eq key name
        then (elim path [ [] ↦ some f | next ∷ more ↦ lookup_enabled enabled sub next more ])
        else lookup_enabled enabled rest name path)
unfolding Agree
lookup-entry key f enabled sub rest sub' rest' hs hr name [] = rw (hr name []) refl
lookup-entry key f enabled sub rest sub' rest' hs hr name (next ∷ more) =
    rw (hr name (next ∷ more), hs next more) refl

-- Where the pruning succeeds, a path leads to a command of the pruned tree exactly where it leads to
-- one of the tree through commands that require no flag or one that is on, the last one included,
-- and this command has the same fields. No map of the tree has a key twice, nor have the flags.
pub prune_disabled_commands-left :
    (t : Tree) (enabled : Flags) (at : Text) (t' : Tree)
    → IsFlags enabled
    → IsMap t
    → prune_disabled_commands t enabled at ≡ left t'
    → (name : Text) (path : List Text) → lookup t' name path ≡ lookup_enabled enabled t name path
unfolding prune_disabled_commands Fate Agree
prune_disabled_commands-left nil enabled at t' u m h name path =
    subst (λ t. lookup t name path ≡ none) (left-injective h) refl
prune_disabled_commands-left (entry key (command f sub) rest) enabled at t' u m h name path =
    elim (with_entry-left (verdict enabled f.requires) (path_of at key) key f
      (prune_disabled_commands sub enabled (path_of at key))
      (prune_disabled_commands rest enabled at) t' h) [
        | inl (gone, hr) ↦ rw (goes-is_enabled enabled f.requires u gone) (
            gone-lookup key enabled rest t' m.0
              (prune_disabled_commands-left rest enabled at t' u m.2 hr) name path)
        | inr (stay, (sub', rest', hs, hr, e)) ↦
            rw (stays-is_enabled enabled f.requires u stay, e)
              (lookup-entry key f enabled sub rest sub' rest'
                (prune_disabled_commands-left sub enabled (path_of at key) sub' u m.1 hs)
                (prune_disabled_commands-left rest enabled at rest' u m.2 hr) name path)
      ]
