-- ===== src/Command/Build/Turns.antt =====
-- One turn over the levels that remain, and what every turn keeps.
use routercli.Base.{
  ◌≤◌, ◌<◌, true, false, Option, some, List, [], ◌∷◌, ◌++◌, ◌≡◌, ◌⊎◌, inl, inr, refl, arith, length,
  All, All-append, append_assoc, Text, text_eq, text_eq_iff, text_eq_refl, Bool-cases, Option-cases,
  append-nil, sym, subst, if_false,
}
use routercli.Command.Tree.{Tree}
use routercli.Command.Context.{CommandLevel, find_level}
use routercli.Command.Build.{
  and_then, Progress, raw_tree, waits, resolve_level, Turn, keep_waiting, note_progress, turn,
}
use routercli.Command.Build.Names.{In, In-here, In-later, In-cons, In-snoc, In-snoc-here}
use routercli.Command.Build.Steps.{
  IsReady, Post, and_then-Post, added, IsAdded, resolve_level-IsAdded,
}

-- The map of levels has the level under its name.
abbrev pub Known : List CommandLevel → CommandLevel → Type 0
Known levels l = find_level levels l.name ≡ some l

-- It has the level as it was before its tree was made.
abbrev pub Built : List CommandLevel → CommandLevel → Type 0
Built levels l = (b : CommandLevel) × Known levels b × (l ≡ record b { tree = l.tree })

-- A parent comes before its children.
abbrev pub ParentsFirst : List CommandLevel → List CommandLevel → Type 0
ParentsFirst earlier [] = Unit
ParentsFirst earlier (l ∷ order) =
    ((l.parent ≡ []) ⊎ In earlier l.parent) × ParentsFirst (earlier ++ l ∷ []) order

pub record IsSound (levels : List CommandLevel) (p : Progress) : Type 0 where
  pub built : All (Built levels) p.order
  pub ready : (name : Text) → IsReady p name → In p.order name
  pub parents_first : ParentsFirst [] p.order

ParentsFirst-snoc :
    (earlier order : List CommandLevel) (l : CommandLevel)
    → ParentsFirst earlier order
    → (l.parent ≡ []) ⊎ In (earlier ++ order) l.parent
    → ParentsFirst earlier (order ++ l ∷ [])
ParentsFirst-snoc earlier [] l h k =
    (subst (λ x. (l.parent ≡ []) ⊎ In x l.parent) (append-nil earlier) k, tt)
ParentsFirst-snoc earlier (m ∷ order) l h k = (
  h.0,
  ParentsFirst-snoc (earlier ++ m ∷ []) order l h.1
      (subst (λ x. (l.parent ≡ []) ⊎ In x l.parent) (sym (append_assoc earlier (m ∷ []) order)) k),
)

IsReady-cons :
    (p : Progress) (l : CommandLevel) (effective final : Tree) (name : Text)
    → IsReady (added p l effective final) name
    → (l.name ≡ name) ⊎ IsReady p name
unfolding raw_tree
IsReady-cons p l effective final name (t, h) = elim (Bool-cases (text_eq l.name name)) [
  | inl e ↦ inl ((text_eq_iff l.name name).0 e)
  | inr e ↦ inr (t, if_false _ _ _ e h)
]

IsReady-here :
    (p : Progress) (l : CommandLevel) (effective final : Tree)
    → IsReady (added p l effective final) l.name
unfolding raw_tree
IsReady-here p l effective final = (effective, rw (text_eq_refl l.name) refl)

IsReady-later :
    (p : Progress) (l : CommandLevel) (effective final : Tree) (name : Text)
    → IsReady p name
    → IsReady (added p l effective final) name
unfolding raw_tree
IsReady-later p l effective final name (t, h) = elim (Bool-cases (text_eq l.name name)) [
  | inl e ↦ (effective, rw e refl)
  | inr e ↦ (t, rw e h)
]

waits-parent :
    (p : Progress) (l : CommandLevel) → waits p l ≡ false → (l.parent ≡ []) ⊎ IsReady p l.parent
unfolding waits
waits-parent p l h = elim (Bool-cases (text_eq l.parent [])) [
  | inl e ↦ inl ((text_eq_iff l.parent []).0 e)
  | inr e ↦ inr (elim (Option-cases (raw_tree p.raw_trees l.parent)) [
    | inl n ↦ ground arith
    | inr (t, k) ↦ (t, k)
  ])
]

added-IsSound :
    (levels : List CommandLevel) (p : Progress) (l : CommandLevel) (effective final : Tree)
    → Known levels l
    → waits p l ≡ false
    → IsSound levels p
    → IsSound levels (added p l effective final)
added-IsSound levels p l effective final known w s = record {
  built =
      All-append (Built levels) p.order (record l { tree = final } ∷ []) s.built
        ((l, known, refl), tt);
  ready = λ name h. elim (IsReady-cons p l effective final name h) [
    | inl e ↦
        subst (In (p.order ++ record l { tree = final } ∷ [])) e
          (In-snoc-here p.order (record l { tree = final }))
    | inr k ↦ In-snoc p.order (record l { tree = final }) name (s.ready name k)
  ];
  parents_first =
      ParentsFirst-snoc [] p.order (record l { tree = final }) s.parents_first
        (elim (waits-parent p l w) [ inl e ↦ inl e | inr k ↦ inr (s.ready l.parent k) ]);
}

IsAdded-IsSound :
    (levels : List CommandLevel) (p : Progress) (l : CommandLevel) (p' : Progress)
    → Known levels l
    → waits p l ≡ false
    → IsSound levels p
    → IsAdded p l p'
    → IsSound levels p'
IsAdded-IsSound levels p l p' k w s (effective, final, a) =
    subst (IsSound levels) (sym a) (added-IsSound levels p l effective final k w s)

-- What a turn promises: the levels that remain are those that waited, a turn without progress
-- changes nothing, and no level is lost.
pub record IsTurn (levels remaining : List CommandLevel) (p : Progress) (t : Turn) : Type 0 where
  pub shorter : length t.remaining ≤ length remaining
  pub strictly : t.progressed ≡ true → length t.remaining < length remaining
  pub idle : t.progressed ≡ false → All (λ l. waits p l ≡ true) remaining
  pub kept :
      (name : Text)
      → IsReady p name ⊎ In remaining name
      → IsReady t.progress name ⊎ In t.remaining name
  pub known : All (Known levels) t.remaining
  pub sound : IsSound levels t.progress

keep_waiting-IsTurn :
    (levels remaining : List CommandLevel) (p : Progress) (l : CommandLevel)
    → waits p l ≡ true
    → Known levels l
    → (t : Turn) → IsTurn levels remaining p t
    → Post (IsTurn levels (l ∷ remaining) p) (keep_waiting l t)
keep_waiting-IsTurn levels remaining p l w k t h = record {
  shorter = omega (arith, h.shorter);
  strictly = λ e. omega (arith, h.strictly e);
  idle = λ e. (w, h.idle e);
  kept = λ name k. elim k [
    | inl r ↦ elim (h.kept name (inl r)) [
      | inl a ↦ inl a
      | inr b ↦ inr (In-later l t.remaining name b)
    ]
    | inr i ↦ elim (In-cons l remaining name i) [
      | inl e ↦ inr (subst (In (l ∷ t.remaining)) e (In-here l t.remaining))
      | inr j ↦ elim (h.kept name (inr j)) [
        | inl a ↦ inl a
        | inr b ↦ inr (In-later l t.remaining name b)
      ]
    ]
  ];
  known = (k, h.known);
  sound = h.sound;
}

note_progress-IsTurn :
    (levels remaining : List CommandLevel) (p : Progress) (l : CommandLevel) (p' : Progress)
    → IsAdded p l p'
    → (t : Turn) → IsTurn levels remaining p' t
    → Post (IsTurn levels (l ∷ remaining) p) (note_progress t)
note_progress-IsTurn levels remaining p l p' (effective, final, a) t h = record {
  shorter = omega (arith, h.shorter);
  strictly = λ e. omega (arith, h.shorter);
  idle = λ e. cc;
  kept = λ name k. h.kept name (elim k [
    | inl r ↦ inl (subst (λ x. IsReady x name) (sym a) (IsReady-later p l effective final name r))
    | inr i ↦ elim (In-cons l remaining name i) [
      | inl e ↦ inl (
          subst (λ x. IsReady x name) (sym a)
            (subst (IsReady (added p l effective final)) e (IsReady-here p l effective final)))
      | inr j ↦ inr j
    ]
  ]);
  known = h.known;
  sound = h.sound;
}

module _ (load_tree : Text → Option Tree) (common_tree : Tree) (switch_names : List Text)
    (levels : List CommandLevel) where
  pub turn-IsTurn :
      (remaining : List CommandLevel) (p : Progress)
      → All (Known levels) remaining
      → IsSound levels p
      → Post (IsTurn levels remaining p) (turn load_tree common_tree switch_names remaining p)
  unfolding turn
  turn-IsTurn [] p k s = record {
    shorter = omega arith;
    strictly = λ e. cc;
    idle = λ e. tt;
    kept = λ name h. h;
    known = tt;
    sound = s;
  }
  turn-IsTurn (l ∷ remaining) p k s = elim (Bool-cases (waits p l)) [
    | inl e ↦
        rw (turn, e)
          (and_then-Post (IsTurn levels remaining p) (IsTurn levels (l ∷ remaining) p)
            (turn load_tree common_tree switch_names remaining p) (keep_waiting l)
            (turn-IsTurn remaining p k.1 s) (keep_waiting-IsTurn levels remaining p l e k.0))
    | inr e ↦
        rw (turn, e)
          (and_then-Post (IsAdded p l) (IsTurn levels (l ∷ remaining) p)
            (resolve_level load_tree common_tree switch_names p l)
            (λ p'. and_then (turn load_tree common_tree switch_names remaining p') note_progress)
            (resolve_level-IsAdded load_tree common_tree switch_names p l)
            (λ p' a.
              and_then-Post (IsTurn levels remaining p') (IsTurn levels (l ∷ remaining) p)
                (turn load_tree common_tree switch_names remaining p') note_progress
                (turn-IsTurn remaining p' k.1 (IsAdded-IsSound levels p l p' k.0 e s a))
                (note_progress-IsTurn levels remaining p l p' a)))
  ]
