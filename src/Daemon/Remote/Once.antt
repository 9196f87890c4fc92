-- ===== src/Daemon/Remote/Once.antt =====
-- How a client learns that its connection has ended.
use routercli.Base.{
  ℕ, Bool, true, false, Option, none, some, List, [], ◌∷◌, ◌++◌, ◌≡◌, ◌⊎◌, inl, inr, refl, sym,
  append-nil, ap, ◌∙◌, Text,
}
use routercli.Daemon.Remote.{
  RemoteClient, new_client, client_of, read_frame, log, send_audit_event, close, call,
}
use routercli.Daemon.Remote.Ends.{
  IsTold, Stays, read_frame-Stays, read_frame-IsTold, read_frames, read_frames-Stays,
  read_frames-IsTold, call-Stays, call-IsTold, send_audit_event-Stays, send_audit_event-IsTold,
  log-Stays, log-IsTold, close-Stays, close-IsTold,
}

-- What may happen to a client: a frame arrives, or an error; a request is sent, and its response is
-- awaited while frames arrive; an event is to be logged, or must be; the client is closed; the
-- session reads the farewell channel. A Boolean says whether the connection takes what is sent.
pub data Event : Type 0 where
  frame : Option Text → Event
  calls : Bool → List (Option Text) → Event
  logs : Text → Text → Bool → ℕ → Bool → Event
  forces : Text → Text → Bool → ℕ → Bool → Event
  closes : Bool → Event
  reads : Event

-- What becomes of the client. A read empties the channel.
unfoldable pub next_client : (Text → Option Text) → RemoteClient → Event → RemoteClient
unfolding read_frame read_frames call log send_audit_event close
next_client unmarshal c (frame raw) = client_of (read_frame unmarshal c raw)
next_client unmarshal c (calls sent frames) = (call c sent (read_frames unmarshal frames)).1
next_client unmarshal c (logs username command success now sent) =
    log c username command success now sent
next_client unmarshal c (forces username command success now sent) =
    send_audit_event c username command success now sent
next_client unmarshal c (closes sent) = close c sent
next_client unmarshal c reads = record c { farewell = none }

-- A client, and the texts that its session has read, the first one first.
pub record Watched : Type 0 where
  pub client : RemoteClient
  pub texts : List Text

abbrev pub watched : Watched
watched = record { client = new_client; texts = [] }

abbrev pub pending : Option Text → List Text
pending none = []
pending (some text) = text ∷ []

-- What the session is told: the texts that it has read, and the one that it can read.
abbrev pub told : Watched → List Text
told w = w.texts ++ pending w.client.farewell

abbrev pub texts_after : Watched → Event → List Text
texts_after w (frame raw) = w.texts
texts_after w (calls sent frames) = w.texts
texts_after w (logs username command success now sent) = w.texts
texts_after w (forces username command success now sent) = w.texts
texts_after w (closes sent) = w.texts
texts_after w reads = told w

unfoldable pub step : (Text → Option Text) → Watched → Event → Watched
unfolding next_client
step unmarshal w e = record { client = next_client unmarshal w.client e; texts = texts_after w e }

unfoldable pub run : (Text → Option Text) → Watched → List Event → Watched
unfolding step
run unmarshal w [] = w
run unmarshal w (e ∷ events) = run unmarshal (step unmarshal w e) events

-- A session that is told nothing, of an open connection, or one text, of one that has ended.
abbrev IsOnce : Watched → Type 0
IsOnce w =
    ((w.client.done ≡ false) × (w.client.farewell ≡ none) × (w.texts ≡ []))
    ⊎ ((w.client.done ≡ true) × ((text : Text) × (told w ≡ text ∷ [])))

-- What a session is told stays so, once the connection has ended.
abbrev Keeps : Watched → Watched → Type 0
Keeps w w' = w.client.done ≡ true → (w'.client.done ≡ true) × (told w' ≡ told w)

-- A step of the client, while the session reads nothing.
module _ (w : Watched) (c : RemoteClient) where
  Stays-Keeps : Stays w.client c → Keeps w (record { client = c; texts = w.texts })
  Stays-Keeps k h = ((k h).0, ap (λ o. w.texts ++ pending o) (k h).1)

  IsOnce-client :
      Stays w.client c
      → (IsTold w.client → IsTold c)
      → IsOnce w
      → IsOnce (record { client = c; texts = w.texts })
  IsOnce-client k j (inr (done, (text, e))) = inr ((k done).0, (text, (Stays-Keeps k done).1 ∙ e))
  IsOnce-client k j (inl (up, empty, unread)) = elim (j (inl (up, empty))) [
    | inl (up', empty') ↦ inl (up', empty', unread)
    | inr (done, (text, e)) ↦
        inr (done, (text, ap (λ o. w.texts ++ pending o) e ∙ ap (λ l. l ++ text ∷ []) unread))
  ]

read_told : (w : Watched) → told w ++ [] ≡ told w
read_told w = append-nil (told w)

step-Keeps :
    (unmarshal : Text → Option Text) (w : Watched) (e : Event) → Keeps w (step unmarshal w e)
unfolding step next_client log send_audit_event close
step-Keeps unmarshal w (frame raw) =
    Stays-Keeps w (next_client unmarshal w.client (frame raw))
      (read_frame-Stays unmarshal w.client raw)
step-Keeps unmarshal w (calls sent frames) =
    Stays-Keeps w (next_client unmarshal w.client (calls sent frames)) (
      call-Stays w.client sent (read_frames unmarshal frames)
        (read_frames-Stays unmarshal frames w.client))
step-Keeps unmarshal w (logs username command success now sent) =
    Stays-Keeps w (next_client unmarshal w.client (logs username command success now sent))
      (log-Stays w.client username command success now sent)
step-Keeps unmarshal w (forces username command success now sent) =
    Stays-Keeps w (next_client unmarshal w.client (forces username command success now sent))
      (send_audit_event-Stays w.client username command success now sent)
step-Keeps unmarshal w (closes sent) =
    Stays-Keeps w (next_client unmarshal w.client (closes sent)) (close-Stays w.client sent)
step-Keeps unmarshal w reads = λ h. (h, read_told w)

step-IsOnce :
    (unmarshal : Text → Option Text) (w : Watched) (e : Event)
    → IsOnce w
    → IsOnce (step unmarshal w e)
unfolding step next_client log send_audit_event close
step-IsOnce unmarshal w (frame raw) h =
    IsOnce-client w (next_client unmarshal w.client (frame raw))
      (read_frame-Stays unmarshal w.client raw) (read_frame-IsTold unmarshal w.client raw) h
step-IsOnce unmarshal w (calls sent frames) h =
    IsOnce-client w (next_client unmarshal w.client (calls sent frames))
      (call-Stays w.client sent (read_frames unmarshal frames)
        (read_frames-Stays unmarshal frames w.client))
      (λ k.
        call-IsTold w.client sent (read_frames unmarshal frames)
          (read_frames-IsTold unmarshal frames w.client k) k)
      h
step-IsOnce unmarshal w (logs username command success now sent) h =
    IsOnce-client w (next_client unmarshal w.client (logs username command success now sent))
      (log-Stays w.client username command success now sent)
      (log-IsTold w.client username command success now sent) h
step-IsOnce unmarshal w (forces username command success now sent) h =
    IsOnce-client w (next_client unmarshal w.client (forces username command success now sent))
      (send_audit_event-Stays w.client username command success now sent)
      (send_audit_event-IsTold w.client username command success now sent) h
step-IsOnce unmarshal w (closes sent) h =
    IsOnce-client w (next_client unmarshal w.client (closes sent)) (close-Stays w.client sent)
      (close-IsTold w.client sent) h
step-IsOnce unmarshal w reads (inr (done, (text, e))) = inr (done, (text, read_told w ∙ e))
step-IsOnce unmarshal w reads (inl (up, empty, unread)) =
    inl (up, refl, ap (λ o. w.texts ++ pending o) empty ∙ (append-nil w.texts ∙ unread))

run-IsOnce :
    (unmarshal : Text → Option Text) (w : Watched) (events : List Event)
    → IsOnce w
    → IsOnce (run unmarshal w events)
unfolding run
run-IsOnce unmarshal w [] h = h
run-IsOnce unmarshal w (e ∷ events) h =
    run-IsOnce unmarshal (step unmarshal w e) events (step-IsOnce unmarshal w e h)

run-Keeps :
    (unmarshal : Text → Option Text) (w : Watched) (events : List Event)
    → Keeps w (run unmarshal w events)
unfolding run
run-Keeps unmarshal w [] h = (h, refl)
run-Keeps unmarshal w (e ∷ events) h =
    let (done, same) = step-Keeps unmarshal w e h in
    let (done', same') = run-Keeps unmarshal (step unmarshal w e) events done in
    (done', same' ∙ same)

run-append :
    (unmarshal : Text → Option Text) (w : Watched) (before after : List Event)
    → run unmarshal w (before ++ after) ≡ run unmarshal (run unmarshal w before) after
unfolding run
run-append unmarshal w [] after = refl
run-append unmarshal w (e ∷ before) after = run-append unmarshal (step unmarshal w e) before after

nil_not_cons : {a : Text} {l : List Text} → ¬ ([] ≡ a ∷ l)
nil_not_cons h = cc

one_text : (a b : Text) (more : List Text) → b ∷ more ≡ a ∷ [] → a ∷ [] ≡ b ∷ []
one_text a b more h = cc

told_done :
    (w : Watched) (text : Text) (more : List Text)
    → IsOnce w
    → told w ≡ text ∷ more
    → (w.client.done ≡ true) × (told w ≡ text ∷ [])
told_done w text more (inr (done, (other, k))) e = (done, k ∙ one_text other text more (sym e ∙ k))
told_done w text more (inl (up, empty, unread)) e =
    absurd (
      nil_not_cons (sym (ap (λ o. w.texts ++ pending o) empty ∙ (append-nil w.texts ∙ unread)) ∙ e))

-- A session is told once why its connection ended. If it has a text, read or still to be read, then
-- the connection has ended, that is the only text, and it stays so: whatever arrives, is sent, fails
-- or is read afterwards, no other text is ever there to be read, and the connection stays ended.
pub run_told_once :
    (unmarshal : Text → Option Text) (before after : List Event) (text : Text) (more : List Text)
    → told (run unmarshal watched before) ≡ text ∷ more
    → ((run unmarshal watched (before ++ after)).client.done ≡ true)
      × (told (run unmarshal watched (before ++ after)) ≡ text ∷ [])
run_told_once unmarshal before after text more h =
    let w = run unmarshal watched before in
    let (ended, one) =
      told_done w text more (run-IsOnce unmarshal watched before (inl (refl, refl, refl))) h in
    let (done, same) = run-Keeps unmarshal w after ended in
    let e = run-append unmarshal watched before after in
    (ap (λ w. w.client.done) e ∙ done, ap told e ∙ (same ∙ one))
