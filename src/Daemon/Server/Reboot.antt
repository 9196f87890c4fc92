-- ===== src/Daemon/Server/Reboot.antt =====
-- The two ways to a reboot: a request of a session, and `TriggerReboot`.
use routercli.Base.{
  Bool, true, false, not, Option, none, some, ◌∷◌, ◌≡◌, refl, ap, ◌∙◌, if◌then◌else◌, Text,
}
use routercli.Daemon.Protocol.{kind_reboot_request}
use routercli.Daemon.Server.{
  Daemon, Library, Connection, Received, daemon_of, rebooting, reload_state, triggered,
  trigger_reboot, on_reboot, dispatch, on_frame,
}

rebooting-triggered :
    (sent : Bool) (e : Option Text × Daemon)
    → daemon_of (rebooting sent e) ≡ (if sent then (triggered e).1 else e.1)
rebooting-triggered true (some text, d) = refl
rebooting-triggered true (none, d) = refl
rebooting-triggered false (some text, d) = refl
rebooting-triggered false (none, d) = refl

gate_open {ℓ} : {A : Type ℓ} (b : Bool) (x y : A) → b ≡ true → (if not b then x else y) ≡ y
gate_open true x y h = refl
gate_open false x y h = cc

-- A reboot request of a privileged connection leaves the daemon as `TriggerReboot` does where its
-- answer is sent. Where the answer is not sent, the state is replaced all the same, but no session
-- is told: all stay attached.
pub reboot_request-trigger_reboot :
    (lib : Library) (conn : Connection) (r : Received) (d : Daemon) (body : Text)
    → conn.privileged ≡ true
    → daemon_of (on_frame lib conn r d (some (kind_reboot_request ∷ body)))
      ≡ (if r.sent then (trigger_reboot d r.reload).1 else (reload_state d r.reload).1)
unfolding on_frame dispatch on_reboot trigger_reboot
reboot_request-trigger_reboot lib conn r d body may =
    ap daemon_of (gate_open conn.privileged _ _ may)
    ∙ rebooting-triggered r.sent (reload_state d r.reload)
