-- ===== src/Daemon/Remote.antt =====
-- daemon/remoteclient.go: a client's end of a connection to the daemon. Whether a message is sent,
-- and what arrives, are arguments; what encoding/json makes of a body is too. A method that holds a
-- mutex is one step, and so is a turn of `readLoop`.
pub mod Ends
pub mod Once
use routercli.Base.{
  ℕ, Bool, true, false, not, ◌-◌, Option, none, some, List, [], ◌∷◌, map, ◌==◌, if◌then◌else◌, Text,
  codes, text_eq,
}
use routercli.Daemon.Sessions.{SessionInfo}
use routercli.Daemon.Protocol.{
  MessageKind, kind_hello_response, kind_goodbye, kind_audit_event, kind_list_users_response,
  kind_disconnect_user_response, kind_reboot_response, kind_farewell, AuditEventPayload,
  farewell_disconnected, decode_message,
}

-- `ConnectionLostText`.
abbrev pub connection_lost_text : Text
connection_lost_text = codes "Connection to routercli daemon lost"

-- The two channels are buffered by one; `done` is whether that one is closed, and `closed` whether
-- `Close` ran. `events` are the audit events that were sent, the last first.
pub record RemoteClient : Type 0 where
  pub response : Option (MessageKind × Text)
  pub farewell : Option Text
  pub done : Bool
  pub closed : Bool
  pub said_goodbye : Bool
  pub session_id : Text
  pub audit_enabled : Bool
  pub level : Text
  pub events : List AuditEventPayload

-- What is made before the Hello.
abbrev pub new_client : RemoteClient
new_client = record {
  response = none;
  farewell = none;
  done = false;
  closed = false;
  said_goodbye = false;
  session_id = [];
  audit_enabled = false;
  level = [];
  events = [];
}

-- A send on the channel that does not wait: a text that is there stays.
abbrev pub or_full : Option Text → Text → Option Text
or_full none text = some text
or_full (some t) text = some t

-- `fail`: only the first call does anything.
unfoldable pub fail : RemoteClient → Text → RemoteClient
fail c text = if c.done then c else record c { farewell = or_full c.farewell text; done = true }

-- The text of a farewell: the body's, where it decodes to one that is not empty.
abbrev pub farewell_text : Option Text → Text
farewell_text none = farewell_disconnected
farewell_text (some text) = if text_eq text [] then farewell_disconnected else text

-- A turn of `readLoop`: it goes on, it waits for the response before to be taken, or it returns.
pub data Read : Type 0 where
  reads_on waits returns : RemoteClient → Read

abbrev pub client_of : Read → RemoteClient
client_of (reads_on c) = c
client_of (waits c) = c
client_of (returns c) = c

-- A message that is not a farewell goes to `respCh`. Where `done` is closed too and there is room, the
-- source may also return; the model sends.
abbrev pub respond : RemoteClient → MessageKind × Text → Option (MessageKind × Text) → Read
respond c m none = reads_on (record c { response = some m })
respond c m (some n) = if c.done then returns c else waits c

abbrev pub on_decoded : (Text → Option Text) → RemoteClient → Option (MessageKind × Text) → Read
on_decoded unmarshal_farewell c none = returns (fail c connection_lost_text)
on_decoded unmarshal_farewell c (some (kind, body)) =
    if kind == kind_farewell
    then returns (fail c (farewell_text (unmarshal_farewell body)))
    else respond c (kind, body) c.response

-- `readLoop`, on the frame that arrives, or `none` for an error.
unfoldable pub read_frame : (Text → Option Text) → RemoteClient → Option Text → Read
unfolding fail
read_frame unmarshal_farewell c none = returns (fail c connection_lost_text)
read_frame unmarshal_farewell c (some raw) = on_decoded unmarshal_farewell c (decode_message raw)

-- The errors of a request.
pub data ClientError : Type 0 where
  not_sent connection_ended undecodable : ClientError
  unexpected_kind : MessageKind → ClientError
  daemon_error : Text → ClientError

pub data Result {ℓ} (A : Type ℓ) : Type ℓ where
  ok : A → Result A
  err : ClientError → Result A

-- `send`: whether the channel takes the message.
unfoldable pub send : RemoteClient → Bool → Bool × RemoteClient
unfolding fail
send c sent = if sent then (true, c) else (false, fail c connection_lost_text)

-- What a `call` waits for: a response, or that the connection has ended, one of which is there then.
-- Where both are, the model takes the response.
abbrev pub awaited : RemoteClient → Result (MessageKind × Text) × RemoteClient
awaited c = elim (c.response) [
  | some m ↦ (ok m, record c { response = none })
  | none ↦ (err connection_ended, c)
]

-- `call`, by what `readLoop` does to the client until then.
unfoldable pub call :
    RemoteClient → Bool → (RemoteClient → RemoteClient) → Result (MessageKind × Text) × RemoteClient
unfolding fail
call c sent reading =
    if sent then awaited (reading c) else (err not_sent, fail c connection_lost_text)

-- The body of a response of the right kind, and its decoding.
unfoldable pub decoded {ℓ} :
    {A : Type ℓ} → MessageKind → (Text → Option A) → Result (MessageKind × Text) → Result A
decoded kind unmarshal (err e) = err e
decoded kind unmarshal (ok (k, body)) =
    if not (k == kind)
    then err (unexpected_kind k)
    else elim (unmarshal body) [ none ↦ err undecodable | some a ↦ ok a ]

-- `command.SessionInfo`.
pub record CommandSessionInfo : Type 0 where
  pub id : Text
  pub username : Text
  pub command_level : Text
  pub connected_at : ℕ
  pub idle_for : ℕ

abbrev pub info_at : ℕ → SessionInfo → CommandSessionInfo
info_at now s = record {
  id = s.id;
  username = s.username;
  command_level = s.command_level;
  connected_at = s.connected_at;
  idle_for = now - s.last_activity;
}

abbrev pub infos_at : ℕ → Result (List SessionInfo) → Result (List CommandSessionInfo)
infos_at now (err e) = err e
infos_at now (ok sessions) = ok (map (info_at now) sessions)

-- `ListUsers`, on what `call` returns.
unfoldable pub list_users :
    (Text → Option (List SessionInfo))
    → ℕ
    → Result (MessageKind × Text)
    → Result (List CommandSessionInfo)
unfolding decoded
list_users unmarshal now response =
    infos_at now (decoded kind_list_users_response unmarshal response)

-- An answer with an error's text.
abbrev pub accepted : Result Text → Option ClientError
accepted (err e) = some e
accepted (ok text) = if text_eq text [] then none else some (daemon_error text)

-- `DisconnectUser` and `Reboot`, on what `call` returns: `none` is a nil error.
unfoldable pub disconnect_user :
    (Text → Option Text) → Result (MessageKind × Text) → Option ClientError
unfolding decoded
disconnect_user unmarshal response =
    accepted (decoded kind_disconnect_user_response unmarshal response)

unfoldable pub reboot : (Text → Option Text) → Result (MessageKind × Text) → Option ClientError
unfolding decoded
reboot unmarshal response = accepted (decoded kind_reboot_response unmarshal response)

-- `SetLevel`, `Enable`, `Disable`; `WouldLog` is `Enabled`.
abbrev pub set_level : RemoteClient → Text → RemoteClient
set_level c level = record c { level = level }

abbrev pub enable : RemoteClient → RemoteClient
enable c = record c { audit_enabled = true }

abbrev pub disable : RemoteClient → RemoteClient
disable c = record c { audit_enabled = false }

abbrev pub would_log : RemoteClient → Bool
would_log c = c.audit_enabled

-- `sendAuditEvent`.
unfoldable pub send_audit_event : RemoteClient → Text → Text → Bool → ℕ → Bool → RemoteClient
unfolding fail
send_audit_event c username command success now sent =
    if sent
    then record c {
      events =
          record {
            username = username;
            command = command;
            level = c.level;
            time = now;
            success = success;
          }
          ∷ c.events;
    }
    else fail c connection_lost_text

-- `Log`; `ForceLog` is `sendAuditEvent`.
unfoldable pub log : RemoteClient → Text → Text → Bool → ℕ → Bool → RemoteClient
unfolding send_audit_event
log c username command success now sent =
    if not (would_log c) then c else send_audit_event c username command success now sent

-- `Close`: only the first call does anything.
unfoldable pub close : RemoteClient → Bool → RemoteClient
unfolding fail
close c sent =
    if c.closed
    then c
    else if c.done
    then record c { closed = true }
    else if sent
    then record c { closed = true; said_goodbye = true }
    else record (fail c connection_lost_text) { closed = true }

-- `NewRemoteClient`, on what the call of the Hello returns.
abbrev pub greeted : Result Text → RemoteClient → Result RemoteClient
greeted (err e) c = err e
greeted (ok id) c = ok (record c { session_id = id })

unfoldable pub new_remote_client :
    (Text → Option Text) → Bool → (RemoteClient → RemoteClient) → Result RemoteClient
unfolding call decoded
new_remote_client unmarshal sent reading =
    let called = call new_client sent reading in
    greeted (decoded kind_hello_response unmarshal called.0) called.1
