-- ===== src/Daemon/Server/Serve.antt =====
-- daemon/server.go: `serveConnection`, from the first frame to the end of the session.
use routercli.Base.{ℕ, Bool, not, Option, none, some, List, [], ◌==◌, if◌then◌else◌, Text}
use routercli.Daemon.Sessions.{Answer, answer, failure, register, unregister}
use routercli.Daemon.Protocol.{MessageKind, kind_hello, HelloPayload, decode_message}
use routercli.Daemon.Peers.{AllowedUids, peer_identity, authorized_for_privileged_request}
use routercli.Daemon.Server.{Connection, Daemon, Library, Received, directory_of, serve_loop}

-- `decodeHello`.
unfoldable pub decode_hello : Library → Option (MessageKind × Text) → Option HelloPayload
decode_hello lib none = none
decode_hello lib (some (kind, body)) =
    if not (kind == kind_hello) then none else lib.unmarshal_hello body

-- `Unregister`, which is deferred.
abbrev pub unregistered : Text → Daemon → Daemon
unregistered id d = record d { sessions = directory_of (unregister d.sessions id) }

-- The session that `Register` gave its ID: the answer to the Hello, and the loop.
unfoldable pub serve_session :
    Library → Connection → Bool → List Received → Daemon → Answer Text → Daemon
unfolding serve_loop unregister
serve_session lib conn greeted received d (failure e sessions) = record d { sessions = sessions }
serve_session lib conn greeted received d (answer id sessions) =
    let attached = record d { sessions = sessions } in
    let there = record conn { session_id = id } in
    unregistered id (if greeted then serve_loop lib there received attached else attached)

-- `serveConnection`, from the first frame, the ID that `Register` draws, the time, and whether the
-- answer to the Hello is sent.
unfoldable pub serve_connection :
    Library
    → Option AllowedUids
    → Option ℕ
    → Option Text
    → Option Text
    → ℕ
    → Bool
    → List Received
    → Daemon
    → Daemon
unfolding decode_hello serve_session register authorized_for_privileged_request
serve_connection lib privileged_uids uid none id now greeted received d = d
serve_connection lib privileged_uids uid (some raw) id now greeted received d =
    elim (decode_hello lib (decode_message raw)) [
      | none ↦ d
      | some hello ↦
          serve_session lib
            (record {
              session_id = [];
              username = hello.username;
              peer = peer_identity lib.print uid;
              privileged = authorized_for_privileged_request privileged_uids uid;
            })
            greeted received d (register d.sessions hello.username [] id now)
    ]
