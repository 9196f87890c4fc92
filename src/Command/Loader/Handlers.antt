-- ===== src/Command/Loader/Handlers.antt =====
-- The handlers of a tree that loads.
use routercli.Base.{
  Option, none, some, List, [], ◌∷◌, ◌≡◌, ◌≢◌, ◌⊎◌, ◌∙◌, inl, inr, refl, sym, subst, Bool-cases,
  Text, text_eq, text_eq_iff, if_true, if_false, if◌then◌else◌, none_and_some, arith,
}
use routercli.Command.Tree.{command, Tree, nil, entry, Fields, Handler}
use routercli.Command.Registry.{Registry, lookup_handler}
use routercli.Command.Prune.Kept.{lookup}
use routercli.Command.Loader.{
  path_of, with_handler, Resolved, linked, unregistered, link, resolve_handlers,
}

-- What linking makes of a command: it stays where it names no handler, and else has the one that is
-- registered under the name. One whose handler is not registered becomes nothing at all.
abbrev pub IsLinked : Registry → Option Fields → Option Fields → Type 0
IsLinked registry none o = o ≡ none
IsLinked registry (some f) o =
    ((f.run ≡ []) × (o ≡ some f))
    ⊎ ((f.run ≢ [])
        × ((h : Handler) × (lookup_handler registry f.run ≡ some h)
            × (o ≡ some (record f { run_func = some h }))))

abbrev found_handler : Option Handler → Fields → Option Fields
found_handler none f = none
found_handler (some h) f = some (record f { run_func = some h })

with_handler-found :
    (registry : Registry) (f : Fields)
    → with_handler registry f
      ≡ (if text_eq f.run [] then some f else found_handler (lookup_handler registry f.run) f)
unfolding with_handler
with_handler-found registry f = ground arith

found_IsLinked :
    (registry : Registry) (f g : Fields) (o : Option Handler)
    → lookup_handler registry f.run ≡ o
    → f.run ≢ []
    → found_handler o f ≡ some g
    → IsLinked registry (some f) (some g)
found_IsLinked registry f g none n k e = none_and_some refl e
found_IsLinked registry f g (some h) n k e = inr (k, (h, n, sym e))

with_handler-IsLinked :
    (registry : Registry) (f g : Fields)
    → with_handler registry f ≡ some g
    → IsLinked registry (some f) (some g)
with_handler-IsLinked registry f g e = elim (Bool-cases (text_eq f.run [])) [
  | inl k ↦
      inl (
        (text_eq_iff f.run []).0 k,
        sym (if_true _ _ _ k (sym (with_handler-found registry f) ∙ e)),
      )
  | inr k ↦
      found_IsLinked registry f g (lookup_handler registry f.run) refl
        (λ same. ground (arith, text_eq_iff f.run []))
        (if_false _ _ _ k (sym (with_handler-found registry f) ∙ e))
]

linked-injective : {a b : Tree} → linked a ≡ linked b → a ≡ b
linked-injective h = cc

-- What a linked entry is made of.
Parts : Text → Option Fields → Resolved → Resolved → Tree → Type 0
Parts name o a b t =
    (f : Fields) × (sub : Tree) × (rest : Tree) × (o ≡ some f)
    × (a ≡ linked sub)
    × (b ≡ linked rest)
    × (t ≡ entry name (command f sub) rest)

link-linked :
    (at name : Text) (o : Option Fields) (run : Text) (a b : Resolved) (t : Tree)
    → link at name o run a b ≡ linked t
    → Parts name o a b t
unfolding Parts
link-linked at name none run a b t h = cc
link-linked at name (some f) run (linked sub) (linked rest) t h =
    (f, sub, rest, refl, refl, refl, sym (linked-injective h))
link-linked at name (some f) run (linked sub) (unregistered p r) t h = cc
link-linked at name (some f) run (unregistered p r) b t h = cc

Links : Registry → Tree → Tree → Type 0
Links registry t t' =
    (name : Text) (path : List Text) → IsLinked registry (lookup t name path) (lookup t' name path)

lookup-IsLinked :
    (registry : Registry) (key : Text) (f g : Fields) (sub sub' rest rest' : Tree)
    → with_handler registry f ≡ some g
    → Links registry sub sub'
    → Links registry rest rest'
    → (name : Text) (path : List Text)
    → IsLinked registry
        (lookup (entry key (command f sub) rest) name path)
        (lookup (entry key (command g sub') rest') name path)
unfolding Links
lookup-IsLinked registry key f g sub sub' rest rest' hf hs hr name [] =
    elim (Bool-cases (text_eq key name)) [
      | inl e ↦ rw e (with_handler-IsLinked registry f g hf)
      | inr e ↦ rw e (hr name [])
    ]
lookup-IsLinked registry key f g sub sub' rest rest' hf hs hr name (next ∷ more) =
    elim (Bool-cases (text_eq key name)) [
      | inl e ↦ rw e (hs next more)
      | inr e ↦ rw e (hr name (next ∷ more))
    ]

-- A tree links only where every handler that a command names, at any depth, is registered. Then a
-- path leads to a command exactly where it led to one: to the same command where it names no
-- handler, and else to the command with the handler that is registered under the name.
pub resolve_handlers-linked :
    (registry : Registry) (t : Tree) (at : Text) (t' : Tree)
    → resolve_handlers registry t at ≡ linked t'
    → (name : Text) (path : List Text)
    → IsLinked registry (lookup t name path) (lookup t' name path)
unfolding resolve_handlers Parts Links
resolve_handlers-linked registry nil at t' h name path =
    subst (λ t. lookup t name path ≡ none) (linked-injective h) refl
resolve_handlers-linked registry (entry key (command f sub) rest) at t' h name path =
    let (g, sub', rest', hf, hs, hr, e) =
      link-linked (path_of at key) key (with_handler registry f) f.run
        (resolve_handlers registry sub (path_of at key)) (resolve_handlers registry rest at) t' h in
    rw e (
      lookup-IsLinked registry key f g sub sub' rest rest' hf
        (resolve_handlers-linked registry sub (path_of at key) sub' hs)
        (resolve_handlers-linked registry rest at rest' hr) name path)
