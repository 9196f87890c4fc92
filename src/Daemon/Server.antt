-- ===== src/Daemon/Server.antt =====
-- daemon/server.go: what the daemon does with the messages of a connection. The clock is an argument,
-- which is read once for a message. The goroutine that sends a farewell and closes the connection is
-- not modelled, nor is the log for debugging.
pub mod Serve
pub mod Confined
pub mod Reboot
use routercli.Base.{
  ℕ, Bool, true, false, not, ◌||◌, ◌-◌, Option, none, some, List, [], ◌∷◌, ◌++◌, ltb, ◌==◌,
  if◌then◌else◌, Text, codes, text_eq, join,
}
use routercli.Auth.Model.{Users}
use routercli.Command.Context.{TreeStructure, RoleSet}
use routercli.Config.Model.{SystemConfig}
use routercli.Auditlog.{AuditLog, Event, log_at}
use routercli.Daemon.Sessions.{
  SessionInfo, SessionDirectory, SessionError, id_error, store_closed, session_not_found,
  no_matching_session, ambiguous_session, Answer, answer, failure, register, touch, unregister,
  list, farewell, broadcast_farewell,
}
use routercli.Daemon.Protocol.{
  MessageKind, kind_hello, kind_goodbye, kind_audit_event, kind_list_users_request,
  kind_disconnect_user_request, kind_reboot_request, HelloPayload, AuditEventPayload,
  DisconnectUserRequestPayload, farewell_disconnected, farewell_rebooting, decode_message,
}

-- `State`; the product's own part of it, of any type, is known by a number.
pub record State : Type 0 where
  pub product_state : ℕ
  pub levels : Option TreeStructure
  pub users : Users
  pub roles : Option RoleSet
  pub config : Option SystemConfig

-- What the connections of a `Server` share: its registry, its log, its store.
pub record Daemon : Type 0 where
  pub sessions : SessionDirectory
  pub audit : AuditLog
  pub state : State
  pub closed : Bool

-- What `reload` gives: a state, or the text of an error.
pub data Reloaded : Type 0 where
  reloaded : State → Reloaded
  reload_failed : Text → Reloaded

-- Third-party code: encoding/json, and the formats of fmt and time.
pub record Library : Type 0 where
  pub unmarshal_hello : Text → Option HelloPayload
  pub unmarshal_audit_event : Text → Option AuditEventPayload
  pub unmarshal_disconnect : Text → Option DisconnectUserRequestPayload
  pub rfc3339 : ℕ → Text
  pub quote : Text → Text
  pub print : ℕ → Text

-- What a connection is known by from its Hello on.
pub record Connection : Type 0 where
  pub session_id : Text
  pub username : Text
  pub peer : Text
  pub privileged : Bool

-- What happens at one turn of the loop: the frame that is received, or `none` for an error, the
-- time, what a reload would give, and whether the answer is sent and a line of the log is written.
pub record Received : Type 0 where
  pub raw : Option Text
  pub now : ℕ
  pub reload : Reloaded
  pub sent : Bool
  pub wrote : Bool

-- The answers.
pub data Message : Type 0 where
  hello_response : Text → Message
  list_users_response : List SessionInfo → Message
  disconnect_user_response reboot_response : Text → Message

-- A turn goes on or ends the connection; the answer is the one that it tries to send.
pub data Step : Type 0 where
  goes_on ends : Daemon → Option Message → Step

abbrev pub daemon_of : Step → Daemon
daemon_of (goes_on d m) = d
daemon_of (ends d m) = d

-- `if err := s.sendMessage(...); err != nil { return }`.
abbrev pub answered : Bool → Daemon → Message → Step
answered true d m = goes_on d (some m)
answered false d m = ends d (some m)

abbrev pub directory_of {ℓ} : {A : Type ℓ} → Answer A → SessionDirectory
directory_of (answer a d) = d
directory_of (failure e d) = d

-- `auditTimeTolerance`, two minutes.
abbrev pub audit_time_tolerance : ℕ
audit_time_tolerance = 120000000000

-- The time of an event, or the clock's where the skew is too large.
unfoldable pub clamped : ℕ → ℕ → ℕ
clamped now when =
    if ltb audit_time_tolerance (now - when) || ltb audit_time_tolerance (when - now)
    then now
    else when

-- `s.audit.LogAt`, of the connection.
abbrev pub audited : Library → Connection → Received → Daemon → ℕ → Text → Bool → Daemon
audited lib conn r d when command success = record d {
  audit =
      log_at d.audit
        (record {
          when = lib.rfc3339 when;
          username = conn.username;
          peer = conn.peer;
          command = command;
          success = success;
        })
        r.wrote;
}

-- The case of `KindAuditEvent`.
unfoldable pub on_audit_event :
    Library → Connection → Received → Daemon → AuditEventPayload → Daemon
unfolding clamped touch
on_audit_event lib conn r d p =
    record (audited lib conn r d (clamped r.now p.time) p.command p.success) {
      sessions = directory_of (touch d.sessions conn.session_id p.level r.now);
    }

-- The case of `KindListUsersRequest`.
abbrev pub on_list_users : Received → Daemon → Answer (List SessionInfo) → Step
on_list_users r d (failure e sessions) = ends d none
on_list_users r d (answer infos sessions) = answered r.sent d (list_users_response infos)

-- The texts of the errors.
abbrev pub session_error_text : SessionError → Text
session_error_text id_error = codes "daemon: generating a session ID"
session_error_text store_closed = codes "daemon: store is closed"
session_error_text session_not_found = codes "daemon: session not found"
session_error_text no_matching_session = codes "daemon: no matching session"
session_error_text ambiguous_session =
    codes "daemon: more than one session for this user, specify a session ID"

unfoldable pub ids_of : Text → List SessionInfo → List Text
ids_of username [] = []
ids_of username (info ∷ infos) =
    let ids = ids_of username infos in if text_eq info.username username then info.id ∷ ids else ids

-- The sessions of the user, as the message lists them.
unfoldable pub ambiguous_text : Library → Text → Answer (List SessionInfo) → Text
unfolding ids_of
ambiguous_text lib username (failure e d) = session_error_text ambiguous_session
ambiguous_text lib username (answer infos d) =
    codes "more than one session for "
    ++ (lib.quote username
        ++ (codes ", specify a session ID: " ++ join (ids_of username infos) (codes ", ")))

-- `disconnectErrorText`.
unfoldable pub disconnect_error_text : Library → SessionDirectory → Text → SessionError → Text
unfolding ambiguous_text list
disconnect_error_text lib d username ambiguous_session = ambiguous_text lib username (list d)
disconnect_error_text lib d username id_error = session_error_text id_error
disconnect_error_text lib d username store_closed = session_error_text store_closed
disconnect_error_text lib d username session_not_found = session_error_text session_not_found
disconnect_error_text lib d username no_matching_session = session_error_text no_matching_session

-- The answer to what `Farewell` returned.
unfoldable pub on_farewell : Library → Received → Daemon → Text → Answer Text → Step
unfolding disconnect_error_text
on_farewell lib r d username (answer id sessions) =
    answered r.sent (record d { sessions = sessions }) (disconnect_user_response [])
on_farewell lib r d username (failure e sessions) =
    answered r.sent (record d { sessions = sessions })
      (disconnect_user_response (disconnect_error_text lib sessions username e))

-- The case of `KindDisconnectUserRequest`.
unfoldable pub on_disconnect :
    Library → Connection → Received → Daemon → DisconnectUserRequestPayload → Step
unfolding on_farewell farewell
on_disconnect lib conn r d req =
    if not conn.privileged
    then answered r.sent (audited lib conn r d r.now (codes "disconnect.user") false)
        (disconnect_user_response (codes "daemon: not authorized to disconnect a session"))
    else on_farewell lib r d req.username
        (farewell d.sessions req.username req.session_id farewell_disconnected)

-- `replaceState`, with the text of its error.
unfoldable pub replace_state : Daemon → State → Option Text × Daemon
replace_state d new_state =
    if d.closed
    then (some (session_error_text store_closed), d)
    else (none, record d { state = new_state })

-- `reload`, and `replaceState` where it gives a state.
unfoldable pub reload_state : Daemon → Reloaded → Option Text × Daemon
unfolding replace_state
reload_state d (reload_failed text) = (some text, d)
reload_state d (reloaded new_state) = replace_state d new_state

-- `BroadcastFarewell`, whose error is dropped.
unfoldable pub broadcast : Text → Daemon → Daemon
unfolding broadcast_farewell
broadcast text d = record d { sessions = directory_of (broadcast_farewell d.sessions text) }

-- A privileged reboot request: the answer, and the farewell to all once it is sent.
abbrev pub rebooting : Bool → Option Text × Daemon → Step
rebooting sent (some text, d) = goes_on d (some (reboot_response text))
rebooting true (none, d) = goes_on (broadcast farewell_rebooting d) (some (reboot_response []))
rebooting false (none, d) = ends d (some (reboot_response []))

-- The case of `KindRebootRequest`.
unfoldable pub on_reboot : Library → Connection → Received → Daemon → Step
unfolding reload_state broadcast
on_reboot lib conn r d =
    if not conn.privileged
    then answered r.sent (audited lib conn r d r.now (codes "reboot") false)
        (reboot_response (codes "daemon: not authorized to reboot"))
    else rebooting r.sent (reload_state d r.reload)

-- `TriggerReboot`: its error, and what is left.
abbrev pub triggered : Option Text × Daemon → Option Text × Daemon
triggered (some text, d) = (some text, d)
triggered (none, d) = (none, broadcast farewell_rebooting d)

unfoldable pub trigger_reboot : Daemon → Reloaded → Option Text × Daemon
unfolding reload_state broadcast
trigger_reboot d r = triggered (reload_state d r)

-- A body that does not decode ends the connection.
abbrev pub with_payload {ℓ} : {A : Type ℓ} → Daemon → Option A → (A → Step) → Step
with_payload d none run = ends d none
with_payload d (some p) run = run p

-- The `switch` of `serveConnection`.
unfoldable pub dispatch : Library → Connection → Received → Daemon → MessageKind × Text → Step
unfolding on_audit_event on_disconnect on_reboot list
dispatch lib conn r d (kind, body) =
    if kind == kind_goodbye
    then ends d none
    else if kind == kind_audit_event
    then with_payload d (lib.unmarshal_audit_event body)
        (λ p. goes_on (on_audit_event lib conn r d p) none)
    else if kind == kind_list_users_request
    then on_list_users r d (list d.sessions)
    else if kind == kind_disconnect_user_request
    then with_payload d (lib.unmarshal_disconnect body) (on_disconnect lib conn r d)
    else if kind == kind_reboot_request
    then on_reboot lib conn r d
    else ends d none

-- A frame, where one is received.
unfoldable pub on_frame : Library → Connection → Received → Daemon → Option Text → Step
unfolding dispatch
on_frame lib conn r d none = ends d none
on_frame lib conn r d (some raw) = with_payload d (decode_message raw) (dispatch lib conn r d)

-- One turn of the loop of `serveConnection`.
abbrev pub on_message : Library → Connection → Received → Daemon → Step
on_message lib conn r d = on_frame lib conn r d r.raw

abbrev pub follow : Step → (Daemon → Daemon) → Daemon
follow (ends d m) next = d
follow (goes_on d m) next = next d

-- The loop, as long as there are frames.
unfoldable pub serve_loop : Library → Connection → List Received → Daemon → Daemon
unfolding on_frame
serve_loop lib conn [] d = d
serve_loop lib conn (r ∷ received) d =
    follow (on_message lib conn r d) (serve_loop lib conn received)
