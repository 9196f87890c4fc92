-- ===== src/Auditlog/Lines.antt =====
-- The log as lines of fields.
use routercli.Base.{
  ℕ, ◌<◌, Bool, true, false, some, List, [], ◌∷◌, ◌++◌, map, ◌≡◌, refl, sym, ap, ◌∙◌, arith, All,
  All-append, append_assoc, append-nil, Text, split, ◌==◌, ==_refl,
}
use routercli.Sanitize.{field}
use routercli.Sanitize.Escape.{IsPrintable, field-IsPrintable, normal, decode, decode-escaped}
use routercli.Auditlog.{AuditLog, Event, entry_of, format_entry, or_dash, result_word, log_at}

-- The text does not have the separator.
abbrev pub Without : ℕ → Text → Type 0
Without sep s = All (λ c. (c == sep) ≡ false) s

printable-Without : (sep : ℕ) (s : Text) → sep < 0x20 → All IsPrintable s → Without sep s
printable-Without sep [] h p = tt
printable-Without sep (c ∷ s) h p = (ground arith, printable-Without sep s h p.1)

split-plain :
    (sep : ℕ) (a t l : Text) (ls : List Text)
    → Without sep a
    → split sep t ≡ l ∷ ls
    → split sep (a ++ t) ≡ (a ++ l) ∷ ls
unfolding split
split-plain sep [] t l ls p e = e
split-plain sep (c ∷ a) t l ls p e = rw (p.0, split-plain sep a t l ls p.1 e) refl

split-cut : (sep : ℕ) (a t : Text) → Without sep a → split sep (a ++ (sep ∷ t)) ≡ a ∷ split sep t
unfolding split
split-cut sep a t p =
    split-plain sep a (sep ∷ t) [] (split sep t) p (rw (==_refl sep) refl)
    ∙ ap (λ x. x ∷ split sep t) (append-nil a)

split-last : (sep : ℕ) (a : Text) → Without sep a → split sep a ≡ a ∷ []
unfolding split
split-last sep [] p = refl
split-last sep (c ∷ a) p = rw (p.0, split-last sep a p.1) refl

-- The fields of a line, and the line.
abbrev pub columns : Event → List Text
columns e =
    e.when
    ∷ field (or_dash e.username)
    ∷ field (or_dash e.peer)
    ∷ result_word e.success
    ∷ field e.command
    ∷ []

abbrev pub line_of : Event → Text
line_of e =
    e.when
    ++ (b'\t'
        ∷ (field (or_dash e.username)
            ++ (b'\t'
                ∷ (field (or_dash e.peer)
                    ++ (b'\t' ∷ (result_word e.success ++ (b'\t' ∷ field e.command)))))))

module _ (sep : ℕ) (h : sep < 0x20) where
  field-Without : (s : Text) → Without sep (field s)
  field-Without s = printable-Without sep (field s) h (field-IsPrintable s)

  result_word-Without : (b : Bool) → Without sep (result_word b)
  result_word-Without true = ground arith
  result_word-Without false = ground arith

line_of-columns : (e : Event) → Without b'\t' e.when → split b'\t' (line_of e) ≡ columns e
line_of-columns e w =
    split-cut b'\t' e.when _ w
    ∙ ap (λ l. e.when ∷ l)
        (split-cut b'\t' (field (or_dash e.username)) _ (field-Without b'\t' (omega arith) _)
          ∙ ap (λ l. field (or_dash e.username) ∷ l)
              (split-cut b'\t' (field (or_dash e.peer)) _ (field-Without b'\t' (omega arith) _)
                ∙ ap (λ l. field (or_dash e.peer) ∷ l)
                    (split-cut b'\t' (result_word e.success) _
                        (result_word-Without b'\t' (omega arith) _)
                      ∙ ap (λ l. result_word e.success ∷ l)
                          (split-last b'\t' (field e.command)
                            (field-Without b'\t' (omega arith) _)))))

Without-cons : (a b : Text) → Without b'\n' a → Without b'\n' b → Without b'\n' (a ++ (b'\t' ∷ b))
Without-cons a b p q = All-append (λ c. (c == b'\n') ≡ false) a (b'\t' ∷ b) p (refl, q)

line_of-Without : (e : Event) → Without b'\n' e.when → Without b'\n' (line_of e)
line_of-Without e w = Without-cons e.when _ w (
    Without-cons (field (or_dash e.username)) _ (field-Without b'\n' (omega arith) _) (
      Without-cons (field (or_dash e.peer)) _ (field-Without b'\n' (omega arith) _) (
        Without-cons (result_word e.success) _ (result_word-Without b'\n' (omega arith) _)
          (field-Without b'\n' (omega arith) _))))

after_tab : (a b c n : Text) → b ≡ c ++ n → a ++ (b'\t' ∷ b) ≡ (a ++ (b'\t' ∷ c)) ++ n
after_tab a b c n h = ap (λ x. a ++ (b'\t' ∷ x)) h ∙ sym (append_assoc a (b'\t' ∷ c) n)

five :
    (a b c d f n : Text)
    → a ++ (b'\t' ∷ (b ++ (b'\t' ∷ (c ++ (b'\t' ∷ (d ++ (b'\t' ∷ (f ++ n))))))))
      ≡ (a ++ (b'\t' ∷ (b ++ (b'\t' ∷ (c ++ (b'\t' ∷ (d ++ (b'\t' ∷ f)))))))) ++ n
five a b c d f n =
    after_tab a _ _ n (after_tab b _ _ n (after_tab c _ _ n (after_tab d _ _ n refl)))

entry_of-line_of : (e : Event) → entry_of e ≡ line_of e ++ b'\n' ∷ []
unfolding format_entry
entry_of-line_of e =
    five e.when (field (or_dash e.username)) (field (or_dash e.peer)) (result_word e.success)
      (field e.command) (b'\n' ∷ [])

-- What a log holds after some events.
abbrev pub written : List Event → Text
written [] = []
written (e ∷ events) = entry_of e ++ written events

-- The instant has neither a tab nor a newline.
abbrev pub IsStamped : Event → Type 0
IsStamped e = Without b'\t' e.when × Without b'\n' e.when

written-lines :
    (events : List Event)
    → All IsStamped events
    → split b'\n' (written events) ≡ map line_of events ++ [] ∷ []
unfolding split
written-lines [] h = refl
written-lines (e ∷ events) h =
    ap (split b'\n') (
      ap (λ x. x ++ written events) (entry_of-line_of e)
      ∙ append_assoc (line_of e) (b'\n' ∷ []) (written events))
    ∙ (split-cut b'\n' (line_of e) (written events) (line_of-Without e h.0.1)
        ∙ ap (λ l. line_of e ∷ l) (written-lines events h.1))

-- The log after some events, each of which is written.
abbrev pub logged : AuditLog → List Event → AuditLog
logged a [] = a
logged a (e ∷ events) = logged (log_at a e true) events

abbrev pub opened : Text → AuditLog
opened text = record { file = some text; enabled = true }

logged-written :
    (text : Text) (events : List Event)
    → logged (opened text) events ≡ opened (text ++ written events)
unfolding log_at
logged-written text [] = ap opened (sym (append-nil text))
logged-written text (e ∷ events) =
    logged-written (text ++ entry_of e) events
    ∙ ap opened (append_assoc text (entry_of e) (written events))

-- What a line tells of its event.
abbrev pub IsRecord : Event → Type 0
IsRecord e =
    (split b'\t' (line_of e) ≡ columns e)
    × (decode normal (field (or_dash e.username)) ≡ or_dash e.username)
    × (decode normal (field (or_dash e.peer)) ≡ or_dash e.peer)
    × (decode normal (field e.command) ≡ e.command)

line_of-IsRecord : (e : Event) → IsStamped e → IsRecord e
line_of-IsRecord e h = (
  line_of-columns e h.0,
  (decode-escaped (or_dash e.username)).0,
  (decode-escaped (or_dash e.peer)).0,
  (decode-escaped e.command).0,
)

All-IsRecord : (events : List Event) → All IsStamped events → All IsRecord events
All-IsRecord [] h = tt
All-IsRecord (e ∷ events) h = (line_of-IsRecord e h.0, All-IsRecord events h.1)

-- An event is one line of the log, whatever its user name, peer and command are: the lines that an
-- empty enabled log has after some events are those of the events, in order. A line has five fields
-- between tabs, from which the name, the peer and the command can be read back. An instant has
-- neither a tab nor a newline, and the writes succeed.
pub logged-IsRecord :
    (events : List Event)
    → All IsStamped events
    → (logged (opened []) events ≡ opened (written events))
      × (split b'\n' (written events) ≡ map line_of events ++ [] ∷ [])
      × All IsRecord events
logged-IsRecord events h = (logged-written [] events, written-lines events h, All-IsRecord events h)
