-- ===== src/Daemon/Remote/Ends.antt =====
-- What the operations of a client do to the end of its connection.
use routercli.Base.{
  ℕ, Bool, true, false, Option, none, some, List, [], ◌∷◌, ◌≡◌, ◌⊎◌, inl, inr, refl, ◌∙◌, arith,
  Bool-cases, Text, ◌==◌,
}
use routercli.Daemon.Protocol.{MessageKind, kind_farewell, decode_message}
use routercli.Daemon.Remote.{
  RemoteClient, connection_lost_text, fail, farewell_text, client_of, respond, on_decoded,
  read_frame, awaited, log, send_audit_event, close, call,
}

-- Open, with nothing told, or ended, with a text.
abbrev pub IsTold : RemoteClient → Type 0
IsTold c =
    ((c.done ≡ false) × (c.farewell ≡ none))
    ⊎ ((c.done ≡ true) × ((text : Text) × (c.farewell ≡ some text)))

-- The end of the connection stays, with its text.
abbrev pub Stays : RemoteClient → RemoteClient → Type 0
Stays c c' = c.done ≡ true → (c'.done ≡ true) × (c'.farewell ≡ c.farewell)

fail-Stays : (c : RemoteClient) (text : Text) → Stays c (fail c text)
unfolding fail
fail-Stays c text h = ground arith

fail-IsTold : (c : RemoteClient) (text : Text) → IsTold c → IsTold (fail c text)
unfolding fail
fail-IsTold c text h = ground arith

respond-Stays :
    (c : RemoteClient) (m : MessageKind × Text) (o : Option (MessageKind × Text))
    → Stays c (client_of (respond c m o))
respond-Stays c m o h = ground arith

respond-IsTold :
    (c : RemoteClient) (m : MessageKind × Text) (o : Option (MessageKind × Text))
    → IsTold c
    → IsTold (client_of (respond c m o))
respond-IsTold c m o h = ground arith

on_decoded-Stays :
    (unmarshal : Text → Option Text) (c : RemoteClient) (m : Option (MessageKind × Text))
    → Stays c (client_of (on_decoded unmarshal c m))
on_decoded-Stays unmarshal c none h = fail-Stays c connection_lost_text h
on_decoded-Stays unmarshal c (some (kind, body)) h = elim (Bool-cases (kind == kind_farewell)) [
  | inl e ↦ rw e (fail-Stays c (farewell_text (unmarshal body)) h)
  | inr e ↦ rw e (respond-Stays c (kind, body) c.response h)
]

on_decoded-IsTold :
    (unmarshal : Text → Option Text) (c : RemoteClient) (m : Option (MessageKind × Text))
    → IsTold c
    → IsTold (client_of (on_decoded unmarshal c m))
on_decoded-IsTold unmarshal c none h = fail-IsTold c connection_lost_text h
on_decoded-IsTold unmarshal c (some (kind, body)) h = elim (Bool-cases (kind == kind_farewell)) [
  | inl e ↦ rw e (fail-IsTold c (farewell_text (unmarshal body)) h)
  | inr e ↦ rw e (respond-IsTold c (kind, body) c.response h)
]

pub read_frame-Stays :
    (unmarshal : Text → Option Text) (c : RemoteClient) (raw : Option Text)
    → Stays c (client_of (read_frame unmarshal c raw))
unfolding read_frame
read_frame-Stays unmarshal c none h = fail-Stays c connection_lost_text h
read_frame-Stays unmarshal c (some raw) h = on_decoded-Stays unmarshal c (decode_message raw) h

pub read_frame-IsTold :
    (unmarshal : Text → Option Text) (c : RemoteClient) (raw : Option Text)
    → IsTold c
    → IsTold (client_of (read_frame unmarshal c raw))
unfolding read_frame
read_frame-IsTold unmarshal c none h = fail-IsTold c connection_lost_text h
read_frame-IsTold unmarshal c (some raw) h = on_decoded-IsTold unmarshal c (decode_message raw) h

-- The frames that `readLoop` takes in a row.
unfoldable pub read_frames : (Text → Option Text) → List (Option Text) → RemoteClient → RemoteClient
unfolding read_frame
read_frames unmarshal [] c = c
read_frames unmarshal (raw ∷ frames) c =
    read_frames unmarshal frames (client_of (read_frame unmarshal c raw))

pub read_frames-Stays :
    (unmarshal : Text → Option Text) (frames : List (Option Text)) (c : RemoteClient)
    → Stays c (read_frames unmarshal frames c)
unfolding read_frames
read_frames-Stays unmarshal [] c h = (h, refl)
read_frames-Stays unmarshal (raw ∷ frames) c h =
    let c' = client_of (read_frame unmarshal c raw) in
    let (done, same) = read_frame-Stays unmarshal c raw h in
    let (done', same') = read_frames-Stays unmarshal frames c' done in (done', same' ∙ same)

pub read_frames-IsTold :
    (unmarshal : Text → Option Text) (frames : List (Option Text)) (c : RemoteClient)
    → IsTold c
    → IsTold (read_frames unmarshal frames c)
unfolding read_frames
read_frames-IsTold unmarshal [] c h = h
read_frames-IsTold unmarshal (raw ∷ frames) c h =
    read_frames-IsTold unmarshal frames (client_of (read_frame unmarshal c raw))
      (read_frame-IsTold unmarshal c raw h)

awaited-Stays : (c c' : RemoteClient) → Stays c c' → Stays c (awaited c').1
awaited-Stays c c' k h = ground (arith, k h)

awaited-IsTold : (c : RemoteClient) → IsTold c → IsTold (awaited c).1
awaited-IsTold c h = ground arith

pub call-Stays :
    (c : RemoteClient) (sent : Bool) (reading : RemoteClient → RemoteClient)
    → Stays c (reading c)
    → Stays c (call c sent reading).1
unfolding call
call-Stays c true reading k h = awaited-Stays c (reading c) k h
call-Stays c false reading k h = fail-Stays c connection_lost_text h

pub call-IsTold :
    (c : RemoteClient) (sent : Bool) (reading : RemoteClient → RemoteClient)
    → IsTold (reading c)
    → IsTold c
    → IsTold (call c sent reading).1
unfolding call
call-IsTold c true reading k h = awaited-IsTold (reading c) k
call-IsTold c false reading k h = fail-IsTold c connection_lost_text h

pub send_audit_event-Stays :
    (c : RemoteClient) (username command : Text) (success : Bool) (now : ℕ) (sent : Bool)
    → Stays c (send_audit_event c username command success now sent)
unfolding send_audit_event
send_audit_event-Stays c username command success now sent h =
    ground (arith, fail-Stays c connection_lost_text)

pub send_audit_event-IsTold :
    (c : RemoteClient) (username command : Text) (success : Bool) (now : ℕ) (sent : Bool)
    → IsTold c
    → IsTold (send_audit_event c username command success now sent)
unfolding send_audit_event
send_audit_event-IsTold c username command success now sent h =
    ground (arith, fail-IsTold c connection_lost_text)

pub log-Stays :
    (c : RemoteClient) (username command : Text) (success : Bool) (now : ℕ) (sent : Bool)
    → Stays c (log c username command success now sent)
unfolding log send_audit_event
log-Stays c username command success now sent h = ground (arith, fail-Stays c connection_lost_text)

pub log-IsTold :
    (c : RemoteClient) (username command : Text) (success : Bool) (now : ℕ) (sent : Bool)
    → IsTold c
    → IsTold (log c username command success now sent)
unfolding log send_audit_event
log-IsTold c username command success now sent h =
    ground (arith, fail-IsTold c connection_lost_text)

pub close-Stays : (c : RemoteClient) (sent : Bool) → Stays c (close c sent)
unfolding close
close-Stays c sent h = ground (arith, fail-Stays c connection_lost_text)

pub close-IsTold : (c : RemoteClient) (sent : Bool) → IsTold c → IsTold (close c sent)
unfolding close
close-IsTold c sent h = ground (arith, fail-IsTold c connection_lost_text)
