-- ===== src/Command/Help/Order.antt =====
-- The order in which commands are listed, and which are.
use routercli.Base.{
  true-false, Bool, true, false, List, [], ◌∷◌, ◌≡◌, ◌↔◌, ◌⊎◌, inl, inr, refl, ap, sym, ◌∙◌, arith,
  Text, text_leb, Bool-cases,
}
use routercli.Command.Tree.{Tree, find}
use routercli.Command.Roles.Gate.{Has}
use routercli.Command.Help.Names.{
  ListOptions, is_refused, authorized_names, less, insert_name, sort_names, sort_command_names,
}

-- No name comes before one that it should follow.
abbrev pub FirstOk : (Text → Text → Bool) → Text → List Text → Type 0
FirstOk before a [] = Unit
FirstOk before a (b ∷ l) = before b a ≡ false

abbrev pub IsSorted : (Text → Text → Bool) → List Text → Type 0
IsSorted before [] = Unit
IsSorted before (a ∷ l) = FirstOk before a l × IsSorted before l

text_leb_total : (a b : Text) → text_leb a b ≡ false → text_leb b a ≡ true
text_leb_total [] b h = cc
text_leb_total (x ∷ a) [] h = refl
text_leb_total (x ∷ a) (y ∷ b) h = ground (arith, text_leb_total a b)

less_asym :
    (tree : Tree) (opts : ListOptions) (a b : Text)
    → less tree opts a b ≡ true
    → less tree opts b a ≡ false
unfolding less
less_asym tree opts a b h = ground (arith, text_leb_total a b, text_leb_total b a)

module _ (tree : Tree) (opts : ListOptions) where
  FirstOk-insert :
      (b a : Text) (l : List Text)
      → less tree opts a b ≡ false
      → FirstOk (less tree opts) b l
      → FirstOk (less tree opts) b (insert_name tree opts a l)
  unfolding insert_name
  FirstOk-insert b a [] h k = h
  FirstOk-insert b a (c ∷ l) h k = elim (Bool-cases (less tree opts c a)) [
    | inl e ↦ rw e k
    | inr e ↦ rw e h
  ]

  IsSorted-insert :
      (a : Text) (l : List Text)
      → IsSorted (less tree opts) l
      → IsSorted (less tree opts) (insert_name tree opts a l)
  unfolding insert_name
  IsSorted-insert a [] s = (tt, tt)
  IsSorted-insert a (b ∷ l) s = elim (Bool-cases (less tree opts b a)) [
    | inl e ↦ rw e (FirstOk-insert b a l (less_asym tree opts b a e) s.0, IsSorted-insert a l s.1)
    | inr e ↦ rw e (e, s)
  ]

  sort_names-IsSorted : (l : List Text) → IsSorted (less tree opts) (sort_names tree opts l)
  unfolding sort_names
  sort_names-IsSorted [] = tt
  sort_names-IsSorted (a ∷ l) = IsSorted-insert a (sort_names tree opts l) (sort_names-IsSorted l)

  Has-insert_name :
      (r a : Text) (l : List Text) → Has r (insert_name tree opts a l) ↔ ((r ≡ a) ⊎ Has r l)
  unfolding insert_name
  Has-insert_name r a [] = ground arith
  Has-insert_name r a (b ∷ l) = ground (arith, Has-insert_name r a l)

  Has-sort_names : (r : Text) (l : List Text) → Has r (sort_names tree opts l) ↔ Has r l
  unfolding sort_names
  Has-sort_names r [] = ground arith
  Has-sort_names r (a ∷ l) =
      ground (arith, Has-sort_names r l, Has-insert_name r a (sort_names tree opts l))

  abbrev refused : Text → Bool
  refused n = is_refused opts (find tree n)

  authorized_names_iff :
      (r : Text) (names : List Text)
      → Has r (authorized_names tree opts names)
        ↔ (Has r names × (is_refused opts (find tree r) ≡ false))
  unfolding authorized_names
  authorized_names_iff r [] = ground arith
  authorized_names_iff r (n ∷ names) = elim (Bool-cases (is_refused opts (find tree n))) [
    | inl e ↦ rw e (
      λ h. (inr ((authorized_names_iff r names).0 h).0, ((authorized_names_iff r names).0 h).1),
      λ (c, q). elim c [
        | inl s ↦ absurd (true-false (sym e ∙ (ap refused (sym s) ∙ q)))
        | inr k ↦ (authorized_names_iff r names).1 (k, q)
      ],
    )
    | inr e ↦ rw e (
      λ h. elim h [
        | inl s ↦ (inl s, ap refused s ∙ e)
        | inr k ↦
            (inr ((authorized_names_iff r names).0 k).0, ((authorized_names_iff r names).0 k).1)
      ],
      λ (c, q). elim c [ inl s ↦ inl s | inr k ↦ inr ((authorized_names_iff r names).1 (k, q)) ],
    )
  ]

  -- The names that are listed are those that the user may run, and they are in order: no name comes
  -- right before one that the comparison puts first.
  sort_command_names-IsSorted :
      (names : List Text)
      → IsSorted (less tree opts) (sort_command_names names tree opts)
        × ((r : Text)
            → Has r (sort_command_names names tree opts)
              ↔ (Has r names × (is_refused opts (find tree r) ≡ false)))
  unfolding sort_command_names
  sort_command_names-IsSorted names = (
    sort_names-IsSorted (authorized_names tree opts names),
    λ r.
        ground (
          arith,
          Has-sort_names r (authorized_names tree opts names),
          authorized_names_iff r names,
        ),
  )
