-- ===== src/Daemon/ServerTests.antt =====
-- Runs of a connection of the daemon, and the theorems at inputs that meet their hypotheses.
use routercli.Base.{ℕ, true, false, none, some, List, [], ◌∷◌, ◌≡◌, refl, arith, Text, codes}
use routercli.Auditlog.{log_at}
use routercli.Sanitize.{field}
use routercli.Daemon.Sessions.{new_session}
use routercli.Daemon.Protocol.{
  kind_audit_event, kind_disconnect_user_request, kind_reboot_request, kind_goodbye,
}
use routercli.Daemon.Server.{
  State, Daemon, Library, Connection, Received, reloaded, daemon_of, on_frame, serve_loop,
  trigger_reboot,
}
use routercli.Daemon.Server.Confined.{Lines, session, serve_loop-Lines, serve_loop-unprivileged}
use routercli.Daemon.Server.Reboot.{reboot_request-trigger_reboot}

abbrev lib : Library
lib = record {
  unmarshal_hello = λ body. some (record { username = body; pid = 1; terminal = [] });
  unmarshal_audit_event = λ body. some (record {
    username = codes "mallory";
    command = body;
    level = codes "admin";
    time = 5;
    success = true;
  });
  unmarshal_disconnect = λ body. some (record { username = codes "ann"; session_id = codes "a1" });
  rfc3339 = λ when. when ∷ [];
  quote = λ s. s;
  print = λ n. n ∷ [];
}

abbrev guest : Connection
guest = record {
  session_id = codes "b2";
  username = codes "bob";
  peer = codes "uid=7";
  privileged = false;
}

abbrev state : ℕ → State
state n = record { product_state = n; levels = none; users = []; roles = none; config = none }

abbrev daemon : Daemon
daemon = record {
  sessions = record {
    sessions =
        (codes "a1", new_session (codes "a1") (codes "ann") (codes "base") 1)
        ∷ (codes "b2", new_session (codes "b2") (codes "bob") (codes "base") 2)
        ∷ [];
    closed = false;
  };
  audit = record { file = some []; enabled = true };
  state = state 1;
  closed = false;
}

abbrev frame : Text → Received
frame raw = record {
  raw = some raw;
  now = 1000000000000;
  reload = reloaded (state 2);
  sent = true;
  wrote = true;
}

abbrev frames : List Received
frames =
    frame (kind_audit_event ∷ codes "show")
    ∷ frame (kind_disconnect_user_request ∷ [])
    ∷ frame (kind_reboot_request ∷ [])
    ∷ frame (kind_goodbye ∷ [])
    ∷ []

-- The event's own user and its time long past are not taken over.
attributed :
    (serve_loop lib guest (frame (kind_audit_event ∷ codes "show") ∷ []) daemon).audit.file
    ≡ some (1000000000000 ∷ codes "\tbob\tuid=7\tOK\tshow\n")
unfolding serve_loop log_at field
attributed = refl

serve_loop-Lines_example :
    Lines lib guest frames daemon.audit (serve_loop lib guest frames daemon).audit
serve_loop-Lines_example = serve_loop-Lines lib guest frames daemon

serve_loop-unprivileged_example :
    ((serve_loop lib guest frames daemon).state ≡ state 1)
    × (session (serve_loop lib guest frames daemon) (codes "a1") ≡ session daemon (codes "a1"))
serve_loop-unprivileged_example =
    serve_loop-unprivileged lib guest frames daemon (codes "a1") refl (ground arith)

abbrev admin : Connection
admin = record guest { privileged = true }

reboot_request-trigger_reboot_example :
    daemon_of (
      on_frame lib admin
        (frame (kind_reboot_request ∷ []))
        daemon
        (some (kind_reboot_request ∷ [])))
    ≡ (trigger_reboot daemon (reloaded (state 2))).1
reboot_request-trigger_reboot_example =
    reboot_request-trigger_reboot lib admin (frame (kind_reboot_request ∷ [])) daemon [] refl
