-- ===== src/Paging/Pager/Pages.antt =====
-- What the pager prints, whatever keys are pressed.
use routercli.Base.{
  ℕ, zero, suc, ◌≤◌, ◌<◌, Bool, not, ◌||◌, Option, none, some, List, [], ◌∷◌, ◌++◌, ◌≡◌, ◌≢◌, inl,
  inr, refl, sym, ap, subst, ◌∙◌, arith, leb, ◌==◌, Bool-cases, some-injective, length, take, drop,
  take-append-drop, length-drop, append_assoc, append-nil, Text,
}
use routercli.Paging.Pager.{
  KeyAction, page, line, quit, key_action, Output, text, prompt, clear, write_all, Keys,
  read_keypress, prepend, display_loop, display,
}

-- The lines among some output.
abbrev pub printed : List Output → List Text
printed [] = []
printed (text l ∷ out) = l ∷ printed out
printed (prompt ∷ out) = printed out
printed (clear ∷ out) = printed out

-- No key of the list quits.
abbrev pub IsPatient : Keys → Type 0
IsPatient [] = Unit
IsPatient (none ∷ keys) = IsPatient keys
IsPatient (some b ∷ keys) = (key_action b ≢ quit) × IsPatient keys

-- The output prints the first of the lines, and all of them unless a key quits.
record Shows (lines : List Text) (keys : Keys) (out : List Output) : Type 0 where
  unseen : List Text
  splits : printed out ++ unseen ≡ lines
  all : IsPatient keys → unseen ≡ []

printed-append : (a b : List Output) → printed (a ++ b) ≡ printed a ++ printed b
printed-append [] b = refl
printed-append (text l ∷ a) b = ap (◌∷◌ l) (printed-append a b)
printed-append (prompt ∷ a) b = printed-append a b
printed-append (clear ∷ a) b = printed-append a b

printed-write_all : (ls : List Text) → printed (write_all ls) ≡ ls
printed-write_all [] = refl
printed-write_all (l ∷ ls) = ap (◌∷◌ l) (printed-write_all ls)

Shows-write_all : (lines : List Text) (keys : Keys) → Shows lines keys (write_all lines)
Shows-write_all lines keys = record {
  unseen = [];
  splits = append-nil _ ∙ printed-write_all lines;
  all = λ v. refl;
}

-- A read of a key that quits, or that fails.
read_keypress-quit : (keys : Keys) → (read_keypress keys).0 ≡ some quit → ¬ IsPatient keys
unfolding read_keypress
read_keypress-quit [] h w = cc h
read_keypress-quit (none ∷ keys) h w = cc h
read_keypress-quit (some b ∷ keys) h w = w.0 (some-injective h)

read_keypress-IsPatient : (keys : Keys) → IsPatient keys → IsPatient (read_keypress keys).1
unfolding read_keypress
read_keypress-IsPatient [] w = tt
read_keypress-IsPatient (none ∷ keys) w = w
read_keypress-IsPatient (some b ∷ keys) w = w.1

module _ (page_lines step : ℕ) (l : Text) (ls : List Text) where
  abbrev paused : List Output
  paused = write_all (take step (l ∷ ls)) ++ prompt ∷ clear ∷ []

  -- A page that is shown, in front of what comes later.
  Shows-paused :
      (rest : List Text) (keys later : Keys) (out : List Output)
      → drop step (l ∷ ls) ≡ rest
      → (IsPatient keys → IsPatient later)
      → Shows rest later out
      → Shows (l ∷ ls) keys (paused ++ out)
  Shows-paused rest keys later out e w s = record {
    unseen = s.unseen;
    splits =
        ap (λ t. t ++ s.unseen)
          (printed-append paused out
            ∙ ap (λ t. t ++ printed out)
                (printed-append (write_all (take step (l ∷ ls))) (prompt ∷ clear ∷ [])
                  ∙ append-nil _
                  ∙ printed-write_all (take step (l ∷ ls))))
        ∙ append_assoc (take step (l ∷ ls)) (printed out) s.unseen
        ∙ ap (λ t. take step (l ∷ ls) ++ t) (s.splits ∙ sym e)
        ∙ take-append-drop step (l ∷ ls);
    all = λ v. s.all (w v);
  }

  Shows-end :
      (keys : Keys) → drop step (l ∷ ls) ≡ [] → Shows (l ∷ ls) keys (write_all (take step (l ∷ ls)))
  Shows-end keys e = record {
    unseen = [];
    splits = rw (printed-write_all (take step (l ∷ ls)), ← e) (take-append-drop step (l ∷ ls));
    all = λ v. refl;
  }

  abbrev Goal : ℕ → Keys → Type 0
  Goal fuel keys =
      (out : List Output) × (display_loop (suc fuel) page_lines step (l ∷ ls) keys ≡ some out)
      × Shows (l ∷ ls) keys out

  after_key :
      (fuel : ℕ) (keys : Keys) (r : Text) (rs : List Text) (key : Option KeyAction)
      → drop step (l ∷ ls) ≡ r ∷ rs
      → (read_keypress keys).0 ≡ key
      → ((n : ℕ)
          → 0 < n
          → (out : List Output) × (display_loop fuel page_lines n (r ∷ rs) (read_keypress keys).1
              ≡ some out)
            × Shows (r ∷ rs) (read_keypress keys).1 out)
      → 0 < page_lines
      → Goal fuel keys
  unfolding display_loop
  after_key fuel keys r rs none e k next h = (
    paused ++ write_all (r ∷ rs),
    rw (e, k, display_loop),
    Shows-paused (r ∷ rs) keys keys _ e (λ v. v) (Shows-write_all (r ∷ rs) keys),
  )
  after_key fuel keys r rs (some quit) e k next h = (
    paused,
    rw (e, k, display_loop),
    subst (Shows (l ∷ ls) keys) (append-nil paused) (
        Shows-paused (r ∷ rs) keys keys [] e (λ v. v)
          (record {
            unseen = r ∷ rs;
            splits = refl;
            all = λ v. absurd (read_keypress-quit keys k v);
          })),
  )
  after_key fuel keys r rs (some line) e k next h =
      let (out, q, s) = next 1 (omega arith) in
      (
        paused ++ out,
        rw (e, k, display_loop) (ap (prepend paused) q),
        Shows-paused (r ∷ rs) keys (read_keypress keys).1 out e (read_keypress-IsPatient keys) s,
      )
  after_key fuel keys r rs (some page) e k next h =
      let (out, q, s) = next page_lines h in
      (
        paused ++ out,
        rw (e, k, display_loop) (ap (prepend paused) q),
        Shows-paused (r ∷ rs) keys (read_keypress keys).1 out e (read_keypress-IsPatient keys) s,
      )

  after_page :
      (fuel : ℕ) (keys : Keys) (rest : List Text)
      → drop step (l ∷ ls) ≡ rest
      → ((n : ℕ)
          → 0 < n
          → (out : List Output) × (display_loop fuel page_lines n rest (read_keypress keys).1
              ≡ some out)
            × Shows rest (read_keypress keys).1 out)
      → 0 < page_lines
      → Goal fuel keys
  unfolding display_loop
  after_page fuel keys [] e next h =
      (write_all (take step (l ∷ ls)), rw (e, display_loop), Shows-end keys e)
  after_page fuel keys (r ∷ rs) e next h = after_key fuel keys r rs _ e refl next h

drop_less :
    (step : ℕ) (l : Text) (ls : List Text) → 0 < step → length (drop step (l ∷ ls)) ≤ length ls
drop_less step l ls k = omega (arith, length-drop step (l ∷ ls))

display_loop-Shows :
    (fuel page_lines step : ℕ) (lines : List Text) (keys : Keys)
    → length lines < fuel
    → 0 < page_lines
    → 0 < step
    → (out : List Output) × (display_loop fuel page_lines step lines keys ≡ some out)
      × Shows lines keys out
unfolding display_loop
display_loop-Shows zero p step lines keys f h k = elim f [ ]
display_loop-Shows (suc fuel) p step [] keys f h k = ([], refl, Shows-write_all [] keys)
display_loop-Shows (suc fuel) p step (l ∷ ls) keys f h k =
    after_page p step l ls fuel keys _ refl
      (λ n m.
        display_loop-Shows fuel p n (drop step (l ∷ ls)) (read_keypress keys).1
          (omega (arith, drop_less step l ls k)) h m)
      h

display-Shows :
    (is_terminal : Bool) (lines : List Text) (page_lines : ℕ) (paging_enabled : Bool) (keys : Keys)
    → (out : List Output) × (display is_terminal lines page_lines paging_enabled keys ≡ some out)
      × Shows lines keys out
unfolding display
display-Shows is_terminal lines page_lines paging_enabled keys =
    elim (Bool-cases
      (not paging_enabled || page_lines == 0 || not is_terminal || leb (length lines) page_lines)) [
        | inl e ↦ (write_all lines, rw e, Shows-write_all lines keys)
        | inr e ↦
            let p : 0 < page_lines = ground arith in
            rw e (
              display_loop-Shows (suc (length lines)) page_lines page_lines lines keys (omega arith)
                p p)
      ]

-- `Display` always ends, whatever the terminal, the settings and the keys, and what it prints are
-- the lines from the first on, in order and each once.
pub display_total :
    (is_terminal : Bool) (lines : List Text) (page_lines : ℕ) (paging_enabled : Bool) (keys : Keys)
    → (out : List Output) × (unseen : List Text) × (display is_terminal lines page_lines
          paging_enabled keys
        ≡ some out)
      × (printed out ++ unseen ≡ lines)
display_total is_terminal lines page_lines paging_enabled keys =
    let (out, e, s) = display-Shows is_terminal lines page_lines paging_enabled keys in
    (out, s.unseen, e, s.splits)

-- Where no key quits, `Display` prints every line, also when a key cannot be read.
display_all :
    (is_terminal : Bool) (lines : List Text) (page_lines : ℕ) (paging_enabled : Bool) (keys : Keys)
    → IsPatient keys
    → (out : List Output) × (display is_terminal lines page_lines paging_enabled keys ≡ some out)
      × (printed out ≡ lines)
display_all is_terminal lines page_lines paging_enabled keys w =
    let (out, e, s) = display-Shows is_terminal lines page_lines paging_enabled keys in
    (out, e, sym (append-nil (printed out)) ∙ ap (λ t. printed out ++ t) (sym (s.all w)) ∙ s.splits)
