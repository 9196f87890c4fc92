-- ===== src/Command/Resolve/Steps.antt =====
-- One turn of the loop of `Resolve`: what it does for each way to select a command, and the ways
-- backwards from a result.
use routercli.Base.{
  ℕ, suc, Option, none, some, List, [], ◌∷◌, ◌++◌, ◌≡◌, ◌≢◌, ◌⊎◌, inl, inr, refl, sym, ◌∙◌, ap,
  arith, if◌then◌else◌, Text,
}
use routercli.Command.Tree.{Command, Tree, subcommands, find, is_empty}
use routercli.Command.Resolve.{
  ResolveResult, Outcome, returns, nil_dereference, no_fuel, chase, chase_nil, finish,
  finish_ambiguous, Selection, picked, no_match, several, select, walk,
}

pub returns-injective {ℓ} : {A : Type ℓ} {a b : A} → returns a ≡ returns b → a ≡ b
returns-injective h = cc

module _ (current : Tree) (directives : Option Command) (tok : Text) where
  pub select-exact :
      (c : Command)
      → find current tok ≡ some c
      → select current directives tok ≡ picked tok (some c)
  unfolding select
  select-exact c e = rw (e, select)

  -- The command that is picked is the one that the map has under the name that is picked.
  pub select-picked :
      (name : Text) (cmd : Option Command)
      → select current directives tok ≡ picked name cmd
      → find current name ≡ cmd
  unfolding select
  select-picked name cmd h = ground arith

  select-several : (names : List Text) → select current directives tok ≡ several names → names ≢ []
  unfolding select
  select-several names h e = ground arith

pub walk-nil :
    (fuel i : ℕ) (current : Tree) (directives : Option Command) (full : List Text)
    → walk fuel i current directives full [] ≡ returns (finish full directives [])
unfolding walk
walk-nil fuel i current directives full = refl

module _ (fuel i : ℕ) (current : Tree) (directives : Option Command) (full rest : List Text)
    (tok : Text) where
  pub walk-no_match :
      select current directives tok ≡ no_match
      → walk fuel i current directives full (tok ∷ rest)
        ≡ returns (finish full directives (tok ∷ rest))
  unfolding walk
  walk-no_match e = rw (e, walk)

  pub walk-several :
      (names : List Text)
      → select current directives tok ≡ several names
      → walk fuel i current directives full (tok ∷ rest)
        ≡ returns (finish_ambiguous full directives names i current)
  unfolding walk
  walk-several names e = rw (e, walk)

  pub walk-picked :
      (name : Text) (c real : Command)
      → select current directives tok ≡ picked name (some c)
      → chase fuel current c ≡ returns real
      → walk fuel i current directives full (tok ∷ rest) ≡ (
          if is_empty (subcommands real)
          then returns (finish (full ++ name ∷ []) (some real) rest)
          else walk fuel (suc i) (subcommands real) (some real) (full ++ name ∷ []) rest)
  unfolding walk chase_nil
  walk-picked name c real e h = rw (e, walk) (rw (h, chase_nil) (ground arith))

  -- The rest of the loop, behind a turn that has entered `real`.
  abbrev pub descend : Text → Command → Outcome ResolveResult
  descend name real =
      if is_empty (subcommands real)
      then returns (finish (full ++ name ∷ []) (some real) rest)
      else walk fuel (suc i) (subcommands real) (some real) (full ++ name ∷ []) rest

  -- A turn that has entered a command.
  pub record Entered (r : ResolveResult) : Type 0 where
    pub name : Text
    pub cmd : Command
    pub real : Command
    pub selects : select current directives tok ≡ picked name (some cmd)
    pub chases : chase fuel current cmd ≡ returns real
    pub goes_on : descend name real ≡ returns r

  chase_turn :
      (name : Text) (c : Option Command) (r : ResolveResult)
      → select current directives tok ≡ picked name c
      → walk fuel i current directives full (tok ∷ rest) ≡ returns r
      → (o : Outcome Command) → chase_nil fuel current c ≡ o
      → Entered r
  unfolding walk chase_nil
  chase_turn name none r e h o q = cc (rw (e, walk) at h)
  chase_turn name (some c) r e h (returns real) q = record {
    name = name;
    cmd = c;
    real = real;
    selects = e;
    chases = q;
    goes_on = sym (walk-picked name c real e q) ∙ h;
  }
  chase_turn name (some c) r e h nil_dereference q = cc (rw (q, chase_nil) at (rw (e, walk) at h))
  chase_turn name (some c) r e h no_fuel q = cc (rw (q, chase_nil) at (rw (e, walk) at h))

  turn :
      (r : ResolveResult) (s : Selection)
      → select current directives tok ≡ s
      → walk fuel i current directives full (tok ∷ rest) ≡ returns r
      → r.ambiguous ≡ []
      → ((select current directives tok ≡ no_match) × (r ≡ finish full directives (tok ∷ rest)))
        ⊎ Entered r
  turn r no_match e h a = inl (e, sym (returns-injective (sym (walk-no_match e) ∙ h)))
  turn r (several names) e h a =
      let same = returns-injective (sym (walk-several names e) ∙ h) in
      absurd (select-several current directives tok names e (ap (λ q. q.ambiguous) same ∙ a))
  turn r (picked name c) e h a = inr (chase_turn name c r e h _ refl)

  -- A turn of a walk with a result that is not ambiguous either ends it or enters a command.
  pub walk-cons :
      (r : ResolveResult)
      → walk fuel i current directives full (tok ∷ rest) ≡ returns r
      → r.ambiguous ≡ []
      → ((select current directives tok ≡ no_match) × (r ≡ finish full directives (tok ∷ rest)))
        ⊎ Entered r
  walk-cons r h a = turn r _ refl h a
