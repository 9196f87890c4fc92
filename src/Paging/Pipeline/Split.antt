-- ===== src/Paging/Pipeline/Split.antt =====
-- `SplitPipeline` and the line that its groups came from.
use routercli.Base.{
  false, List, [], ◌∷◌, ◌++◌, ◌≡◌, inl, inr, refl, sym, ap, subst, ◌∙◌, Bool-cases, All,
  append_assoc, append-nil, Text, codes, text_eq, text_eq_iff,
}
use routercli.Paging.Pipeline.{split_groups, split_pipeline}

abbrev pub bar : Text
bar = codes "|"

-- A line of tokens from its groups.
abbrev pub unsplit : List Text → List (List Text) → List Text
unsplit g [] = g
unsplit g (h ∷ hs) = g ++ bar ∷ unsplit h hs

abbrev pub NoBar : List Text → Type 0
NoBar = All (λ t. text_eq t bar ≡ false)

-- The loop on a group with no bar in it.
split_groups-append :
    (g rest : List Text) (groups : List (List Text)) (current : List Text)
    → NoBar g
    → split_groups groups current (g ++ rest) ≡ split_groups groups (current ++ g) rest
unfolding split_groups
split_groups-append [] rest groups current h = rw append-nil
split_groups-append (t ∷ g) rest groups current h =
    rw (h.0, split_groups)
      (split_groups-append g rest groups (current ++ t ∷ []) h.1 ∙ rw append_assoc)

split_groups-bar :
    (rest : List Text) (groups : List (List Text)) (current : List Text)
    → split_groups groups current (bar ∷ rest) ≡ split_groups (groups ++ current ∷ []) [] rest
unfolding split_groups
split_groups-bar rest groups current = refl

split_groups-nil :
    (groups : List (List Text)) (current : List Text)
    → split_groups groups current [] ≡ groups ++ current ∷ []
unfolding split_groups
split_groups-nil groups current = refl

split_groups-unsplit :
    (g : List Text) (hs groups : List (List Text))
    → NoBar g
    → All NoBar hs
    → split_groups groups [] (unsplit g hs) ≡ groups ++ g ∷ hs
split_groups-unsplit g [] groups n ns =
    rw append-nil at (split_groups-append g [] groups [] n) ∙ split_groups-nil groups g
split_groups-unsplit g (h ∷ hs) groups n ns =
    split_groups-append g (bar ∷ unsplit h hs) groups [] n
    ∙ split_groups-bar (unsplit h hs) groups g
    ∙ split_groups-unsplit h hs (groups ++ g ∷ []) ns.0 ns.1
    ∙ rw append_assoc

unsplit-cons :
    (t : Text) (g : List Text) (hs : List (List Text)) → unsplit (t ∷ g) hs ≡ t ∷ unsplit g hs
unsplit-cons t g [] = refl
unsplit-cons t g (h ∷ hs) = refl

-- Every line is the line of some groups with no bar in them.
groups_of :
    (tokens : List Text)
    → (g : List Text) × (hs : List (List Text)) × (unsplit g hs ≡ tokens) × NoBar g × All NoBar hs
groups_of [] = ([], [], refl, tt, tt)
groups_of (t ∷ tokens) =
    let (g, hs, e, n, ns) = groups_of tokens in
    elim (Bool-cases (text_eq t bar)) [
      | inl b ↦ (
        [],
        g ∷ hs,
        ap (◌∷◌ bar) e ∙ ap (λ w. w ∷ tokens) (sym ((text_eq_iff t bar).0 b)),
        tt,
        (n, ns),
      )
      | inr b ↦ (t ∷ g, hs, unsplit-cons t g hs ∙ ap (◌∷◌ t) e, (b, n), ns)
    ]

-- The groups of `SplitPipeline` are the pieces of the line between its bars: put together with a bar
-- between each two they are the line, and none of them holds a bar.
split_pipeline-unsplit :
    (tokens : List Text)
    → (unsplit (split_pipeline tokens).0 (split_pipeline tokens).1 ≡ tokens)
      × NoBar (split_pipeline tokens).0
      × All NoBar (split_pipeline tokens).1
unfolding split_pipeline
split_pipeline-unsplit tokens =
    let (g, hs, e, n, ns) = groups_of tokens in
    let s = split_groups-unsplit g hs [] n ns in
    subst
      (λ t.
        (unsplit (split_pipeline t).0 (split_pipeline t).1 ≡ t)
        × NoBar (split_pipeline t).0
        × All NoBar (split_pipeline t).1)
      e (rw s (refl, n, ns))
