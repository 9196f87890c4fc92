-- ===== src/Daemon/Store/Serial.antt =====
-- The calls of `Do` behave as if they ran one at a time.
use routercli.Base.{
  ℕ, Bool, true, Option, none, some, List, [], ◌∷◌, ◌++◌, ◌≡◌, inl, inr, refl, sym, ap, subst, All,
  arith, ◌==◌, Bool-cases,
}
use routercli.Daemon.Store.{
  Functions, Store, new_store, remove, remove_answer, serve, refuse, collect, abandon,
}
use routercli.Daemon.Store.Run.{
  Among, Moves, submits, serves, refuses, collects, abandons, closes, exits, Reaches, here, step,
}

abbrev pub Once : List ℕ → Type 0
Once [] = Unit
Once (k ∷ order) = (¬ Among k order) × Once order

remove-Among : (j k : ℕ) (l : List ℕ) → Among j (remove l k) → Among j l
unfolding remove
remove-Among j k [] h = h
remove-Among j k (i ∷ l) h = ground (arith, remove-Among j k l)

removed_Among : (k : ℕ) (l : List ℕ) → Once l → ¬ Among k (remove l k)
unfolding remove
removed_Among k [] once h = h
removed_Among k (i ∷ l) once h = ground (arith, removed_Among k l once.1, once.0)

remove-Once : (k : ℕ) (l : List ℕ) → Once l → Once (remove l k)
unfolding remove
remove-Once k [] once = tt
remove-Once k (i ∷ l) once =
    ground (arith, remove-Once k l once.1, once.0, once.1, remove-Among i k l)

All-remove_answer :
    {R : Type 0} (P : ℕ × R → Type 0) (l : List (ℕ × R)) (k : ℕ)
    → All P l
    → All P (remove_answer l k)
unfolding remove_answer
All-remove_answer P [] k h = tt
All-remove_answer P ((j, r) ∷ l) k h = elim (Bool-cases (j == k)) [
  | inl e ↦ rw e h.1
  | inr e ↦ rw e (h.0, All-remove_answer P l k h.1)
]

All-map_proof :
    {A : Type 0} (P Q : A → Type 0) (l : List A) → ((a : A) → P a → Q a) → All P l → All Q l
All-map_proof P Q [] f h = tt
All-map_proof P Q (a ∷ l) f h = (f a h.0, All-map_proof P Q l f h.1)

All-Among : {A : Type 0} (P : A → Type 0) (a : A) (l : List A) → All P l → Among a l → P a
All-Among P a [] h i = absurd i
All-Among P a (b ∷ l) h (inl e) = subst P e h.0
All-Among P a (b ∷ l) h (inr i) = All-Among P a l h.1 i

module _ {S R : Type 0} (functions : Functions S R) (initial : S) where
  -- The state after some calls, the last of which is the first of the list.
  abbrev pub after_all : List ℕ → S
  after_all [] = initial
  after_all (k ∷ order) = (functions k (after_all order)).1

  -- The call ran, and its result is that of its function on the state that the calls before it left.
  abbrev pub Ran : List ℕ → ℕ × R → Type 0
  Ran order (k, r) =
      (later : List ℕ) × (before : List ℕ) × (order ≡ later ++ k ∷ before)
      × (r ≡ (functions k (after_all before)).0)

  -- What a call returned: a result that it has in the order, or that the store is closed, which it is.
  abbrev pub Told : Bool → List ℕ → ℕ × Option R → Type 0
  Told stop order (k, some r) = Ran order (k, r)
  Told stop order (k, none) = stop ≡ true

  -- The promise of a store.
  pub record IsSerial (s : Store S R) : Type 0 where
    pub state : s.state ≡ after_all s.order
    pub once : Once s.order
    pub told : All (Told s.stop s.order) s.returned

  record Inv (s : Store S R) : Type 0 where
    state : s.state ≡ after_all s.order
    once : Once s.order
    told : All (Told s.stop s.order) s.returned
    apart : (k : ℕ) → Among k s.waiting → ¬ Among k s.order
    single : Once s.waiting
    ran : All (Ran s.order) s.answered

  Ran-later : (j : ℕ) (order : List ℕ) (kr : ℕ × R) → Ran order kr → Ran (j ∷ order) kr
  Ran-later j order (k, r) (later, before, e, h) = (j ∷ later, before, ap (◌∷◌ j) e, h)

  Told-later :
      (stop : Bool) (j : ℕ) (order : List ℕ) (kr : ℕ × Option R)
      → Told stop order kr
      → Told stop (j ∷ order) kr
  Told-later stop j order (k, some r) h = Ran-later j order (k, r) h
  Told-later stop j order (k, none) h = h

  Told-closed :
      (stop : Bool) (order : List ℕ) (kr : ℕ × Option R) → Told stop order kr → Told true order kr
  Told-closed stop order (k, some r) h = h
  Told-closed stop order (k, none) h = refl

  move-Inv : {s t : Store S R} → Moves functions s t → Inv s → Inv t
  unfolding serve refuse collect abandon
  move-Inv (submits {s} k fresh new) h = record {
    state = h.state;
    once = h.once;
    told = h.told;
    apart = λ j i. elim i [ inl e ↦ subst (λ x. ¬ Among x s.order) e new | inr i ↦ h.apart j i ];
    single = (fresh, h.single);
    ran = h.ran;
  }
  move-Inv (serves {s} k among running) h = record {
    state = ap (λ x. (functions k x).1) h.state;
    once = (h.apart k among, h.once);
    told = All-map_proof _ _ s.returned (Told-later s.stop k s.order) h.told;
    apart = λ j i a. elim a [
      | inl e ↦
          removed_Among k s.waiting h.single (subst (λ x. Among x (remove s.waiting k)) (sym e) i)
      | inr a ↦ h.apart j (remove-Among j k s.waiting i) a
    ];
    single = remove-Once k s.waiting h.single;
    ran = (
      ([], s.order, refl, ap (λ x. (functions k x).0) h.state),
      All-map_proof _ _ s.answered (Ran-later k s.order) h.ran,
    );
  }
  move-Inv (refuses {s} k among closed) h = record {
    state = h.state;
    once = h.once;
    told = (closed, h.told);
    apart = λ j i. h.apart j (remove-Among j k s.waiting i);
    single = remove-Once k s.waiting h.single;
    ran = h.ran;
  }
  move-Inv (collects {s} k r among) h = record {
    state = h.state;
    once = h.once;
    told = (All-Among (Ran s.order) (k, r) s.answered h.ran among, h.told);
    apart = h.apart;
    single = h.single;
    ran = All-remove_answer (Ran s.order) s.answered k h.ran;
  }
  move-Inv (abandons {s} k r among closed) h = record {
    state = h.state;
    once = h.once;
    told = (closed, h.told);
    apart = h.apart;
    single = h.single;
    ran = All-remove_answer (Ran s.order) s.answered k h.ran;
  }
  move-Inv (closes {s}) h = record {
    state = h.state;
    once = h.once;
    told = All-map_proof _ _ s.returned (Told-closed s.stop s.order) h.told;
    apart = h.apart;
    single = h.single;
    ran = h.ran;
  }
  move-Inv (exits {s} closed) h = record {
    state = h.state;
    once = h.once;
    told = h.told;
    apart = h.apart;
    single = h.single;
    ran = h.ran;
  }

  reaches-Inv : {s t : Store S R} → Reaches functions s t → Inv s → Inv t
  reaches-Inv here h = h
  reaches-Inv (step run m) h = move-Inv m (reaches-Inv run h)

  -- In every run of a store, in whatever order its goroutine, the calls of `Do` and `Close` go, there
  -- is one order of the functions that ran, each once, such that the state is what they leave one
  -- after another, and each result that a call returned is that of its function on the state that
  -- those before it left. A call returns that the store is closed only where it is.
  pub store-IsSerial : {s : Store S R} → Reaches functions (new_store initial) s → IsSerial s
  store-IsSerial run =
      let h = reaches-Inv run (record {
        state = refl;
        once = tt;
        told = tt;
        apart = λ k i. absurd i;
        single = tt;
        ran = tt;
      }) in
      record { state = h.state; once = h.once; told = h.told }
