-- ===== src/Daemon/Server/Confined.antt =====
-- What a connection can do to the daemon: the lines of the log that it writes, and what is left to
-- one that is not privileged.
use routercli.Base.{
  ℕ, Bool, true, false, not, Option, none, some, List, [], ◌∷◌, ◌≡◌, ◌≢◌, ◌⊎◌, inl, inr, ◌+◌, ◌≤◌,
  ◌==◌, refl, sym, ap, ◌∙◌, subst, arith, if◌then◌else◌, Option-cases, Text, text_eq, text_eq_iff,
}
use routercli.Auditlog.{AuditLog, Event, log_at}
use routercli.Daemon.Sessions.{
  SessionInfo, TrackedSession, SessionDirectory, Answer, answer, failure, find_session,
  store_closed, touch, touch_in, list,
}
use routercli.Daemon.Sessions.Registry.{find_session-put_session}
use routercli.Daemon.Protocol.{
  AuditEventPayload, DisconnectUserRequestPayload, MessageKind, decode_message, kind_goodbye,
  kind_audit_event, kind_list_users_request, kind_disconnect_user_request, kind_reboot_request,
}
use routercli.Daemon.Server.{
  Daemon, Library, Connection, Received, Message, Step, goes_on, ends, daemon_of, answered,
  directory_of, audit_time_tolerance, clamped, audited, on_audit_event, on_list_users, on_farewell,
  on_disconnect, on_reboot, rebooting, reload_state, replace_state, broadcast, Reloaded,
  with_payload, dispatch, on_frame, on_message, follow, serve_loop,
}

-- An entry in the name of the connection, with a time near the clock's.
abbrev pub By : Library → Connection → ℕ → Event → Type 0
By lib conn now e =
    (e.username ≡ conn.username)
    × (e.peer ≡ conn.peer)
    × ((when : ℕ) × (e.when ≡ lib.rfc3339 when)
        × (when ≤ now + audit_time_tolerance)
        × (now ≤ when + audit_time_tolerance))

-- The log is as it was, or it has one entry more.
abbrev pub Logs : Library → Connection → Received → AuditLog → AuditLog → Type 0
Logs lib conn r a a' = (a' ≡ a) ⊎ ((e : Event) × By lib conn r.now e × (a' ≡ log_at a e r.wrote))

-- The frames that are received, up to the one that ends the connection, leave one entry at most
-- each.
abbrev pub Lines : Library → Connection → List Received → AuditLog → AuditLog → Type 0
Lines lib conn [] a a' = a' ≡ a
Lines lib conn (r ∷ received) a a' =
    (next : AuditLog) × Logs lib conn r a next × ((a' ≡ next) ⊎ Lines lib conn received next a')

clamped_near :
    (now when : ℕ)
    → (clamped now when ≤ now + audit_time_tolerance)
      × (now ≤ clamped now when + audit_time_tolerance)
unfolding clamped
clamped_near now when = ground arith

-- What a frame comes to.
data Outcome (lib : Library) (conn : Connection) (r : Received) (d d' : Daemon) : Type 0 where
  same : d' ≡ d → Outcome lib conn r d d'
  refused :
      (command : Text) → d' ≡ audited lib conn r d r.now command false → Outcome lib conn r d d'
  event : (p : AuditEventPayload) → d' ≡ on_audit_event lib conn r d p → Outcome lib conn r d d'
  allowed : conn.privileged ≡ true → d'.audit ≡ d.audit → Outcome lib conn r d d'

daemon_of-answered : (b : Bool) (d : Daemon) (m : Message) → daemon_of (answered b d m) ≡ d
daemon_of-answered true d m = refl
daemon_of-answered false d m = refl

module _ (lib : Library) (conn : Connection) (r : Received) (d : Daemon) where
  on_list_users-Outcome :
      (infos : Answer (List SessionInfo))
      → Outcome lib conn r d (daemon_of (on_list_users r d infos))
  on_list_users-Outcome (failure e sessions) = same refl
  on_list_users-Outcome (answer infos sessions) = same (daemon_of-answered r.sent d _)

  on_farewell-audit :
      (username : Text) (a : Answer Text)
      → (daemon_of (on_farewell lib r d username a)).audit ≡ d.audit
  unfolding on_farewell
  on_farewell-audit username (answer id sessions) =
      ap (λ e. e.audit) (daemon_of-answered r.sent (record d { sessions = sessions }) _)
  on_farewell-audit username (failure e sessions) =
      ap (λ e. e.audit) (daemon_of-answered r.sent (record d { sessions = sessions }) _)

  gated-Outcome :
      (b : Bool) (s t : Step)
      → Outcome lib conn r d (daemon_of s)
      → (b ≡ true → Outcome lib conn r d (daemon_of t))
      → Outcome lib conn r d (daemon_of (if not b then s else t))
  gated-Outcome true s t h k = k refl
  gated-Outcome false s t h k = h

  on_disconnect-Outcome :
      (req : DisconnectUserRequestPayload)
      → Outcome lib conn r d (daemon_of (on_disconnect lib conn r d req))
  unfolding on_disconnect
  on_disconnect-Outcome req =
      gated-Outcome conn.privileged _ _ (refused _ (daemon_of-answered r.sent _ _))
        (λ may. allowed may (on_farewell-audit req.username _))

  rebooting-audit :
      (b : Bool) (e : Option Text × Daemon) → (daemon_of (rebooting b e)).audit ≡ e.1.audit
  unfolding broadcast
  rebooting-audit b (some text, e) = refl
  rebooting-audit true (none, e) = refl
  rebooting-audit false (none, e) = refl

  reload_state-audit : (new : Reloaded) → (reload_state d new).1.audit ≡ d.audit
  unfolding reload_state replace_state
  reload_state-audit new = ground arith

  on_reboot-Outcome : Outcome lib conn r d (daemon_of (on_reboot lib conn r d))
  unfolding on_reboot
  on_reboot-Outcome =
      gated-Outcome conn.privileged _ _ (refused _ (daemon_of-answered r.sent _ _)) (λ may.
        allowed may
          (rebooting-audit r.sent (reload_state d r.reload) ∙ reload_state-audit r.reload))

  with_payload-Outcome {ℓ} :
      {A : Type ℓ} (o : Option A) (run : A → Step)
      → ((a : A) → Outcome lib conn r d (daemon_of (run a)))
      → Outcome lib conn r d (daemon_of (with_payload d o run))
  with_payload-Outcome none run h = same refl
  with_payload-Outcome (some a) run h = h a

  if-Outcome :
      (b : Bool) (s t : Step)
      → Outcome lib conn r d (daemon_of s)
      → Outcome lib conn r d (daemon_of t)
      → Outcome lib conn r d (daemon_of (if b then s else t))
  if-Outcome true s t h k = h
  if-Outcome false s t h k = k

  dispatch-Outcome :
      (m : MessageKind × Text) → Outcome lib conn r d (daemon_of (dispatch lib conn r d m))
  unfolding dispatch
  dispatch-Outcome (kind, body) = if-Outcome (kind == kind_goodbye) _ _ (same refl) (
      if-Outcome (kind == kind_audit_event) _ _
        (with_payload-Outcome (lib.unmarshal_audit_event body) _ (λ p. event p refl))
        (if-Outcome (kind == kind_list_users_request) _ _ (on_list_users-Outcome (list d.sessions))
          (if-Outcome (kind == kind_disconnect_user_request) _ _
            (with_payload-Outcome (lib.unmarshal_disconnect body) _ on_disconnect-Outcome)
            (if-Outcome (kind == kind_reboot_request) _ _ on_reboot-Outcome (same refl)))))

  on_frame-Outcome : (o : Option Text) → Outcome lib conn r d (daemon_of (on_frame lib conn r d o))
  unfolding on_frame
  on_frame-Outcome none = same refl
  on_frame-Outcome (some raw) = with_payload-Outcome (decode_message raw) _ dispatch-Outcome

  Outcome-Logs : {d' : Daemon} → Outcome lib conn r d d' → Logs lib conn r d.audit d'.audit
  unfolding on_audit_event
  Outcome-Logs (same e) = inl (ap (λ x. x.audit) e)
  Outcome-Logs (refused command e) =
      inr (_, (refl, refl, (r.now, refl, omega arith, omega arith)), ap (λ x. x.audit) e)
  Outcome-Logs (event p e) =
      let (above, below) = clamped_near r.now p.time in
      inr (_, (refl, refl, (clamped r.now p.time, refl, above, below)), ap (λ x. x.audit) e)
  Outcome-Logs (allowed may e) = inl e

-- Another session of the directory.
abbrev pub session : Daemon → Text → Option TrackedSession
session d id = find_session d.sessions.sessions id

if_not {ℓ} : {A : Type ℓ} (b : Bool) (x y : A) → (b ≢ true) → (if b then x else y) ≡ y
if_not true x y h = absurd (h refl)
if_not false x y h = refl

touch_in-session :
    (d : SessionDirectory) (id level : Text) (now : ℕ) (other : Text)
    → other ≢ id
    → find_session (directory_of (touch_in d id level now d.sessions)).sessions other
      ≡ find_session d.sessions other
unfolding touch_in
touch_in-session d id level now other h = elim (Option-cases (find_session d.sessions id)) [
  | inl e ↦ rw (touch_in, e) refl
  | inr (s, e) ↦
      rw (touch_in, e)
        (find_session-put_session d.sessions id other _
          ∙ if_not (text_eq id other) _ _ (λ t. h (sym ((text_eq_iff id other).0 t))))
]

closed_or_not :
    (other : Text) (b : Bool) (d : SessionDirectory) (a : Answer (Unit {0}))
    → find_session (directory_of a).sessions other ≡ find_session d.sessions other
    → find_session (directory_of (if b then failure store_closed d else a)).sessions other
      ≡ find_session d.sessions other
closed_or_not other true d a h = refl
closed_or_not other false d a h = h

touch-session :
    (d : SessionDirectory) (id level : Text) (now : ℕ) (other : Text)
    → other ≢ id
    → find_session (directory_of (touch d id level now)).sessions other
      ≡ find_session d.sessions other
unfolding touch
touch-session d id level now other h =
    closed_or_not other d.closed d (touch_in d id level now d.sessions)
      (touch_in-session d id level now other h)

Outcome-unprivileged :
    {lib : Library} {conn : Connection} {r : Received} {d d' : Daemon} (other : Text)
    → conn.privileged ≡ false
    → other ≢ conn.session_id
    → Outcome lib conn r d d'
    → (d'.state ≡ d.state) × (session d' other ≡ session d other)
unfolding on_audit_event
Outcome-unprivileged other may h (same e) = (ap (λ x. x.state) e, ap (λ x. session x other) e)
Outcome-unprivileged other may h (refused command e) =
    (ap (λ x. x.state) e, ap (λ x. session x other) e)
Outcome-unprivileged {d = d} other may h (event p e) =
    (ap (λ x. x.state) e, ap (λ x. session x other) e ∙ touch-session d.sessions _ _ _ other h)
Outcome-unprivileged other may h (allowed must e) = (cc, cc)

follow-cases :
    (s : Step) (next : Daemon → Daemon)
    → (follow s next ≡ daemon_of s) ⊎ (follow s next ≡ next (daemon_of s))
follow-cases (ends d m) next = inl refl
follow-cases (goes_on d m) next = inr refl

-- Whatever a connection sends, each frame adds one line to the log at most, and each line names the
-- user of its Hello and the peer that the kernel reports, with a time within two minutes of the
-- daemon's clock.
pub serve_loop-Lines :
    (lib : Library) (conn : Connection) (received : List Received) (d : Daemon)
    → Lines lib conn received d.audit (serve_loop lib conn received d).audit
unfolding serve_loop
serve_loop-Lines lib conn [] d = refl
serve_loop-Lines lib conn (r ∷ received) d =
    let step = on_message lib conn r d in
    (
      (daemon_of step).audit,
      Outcome-Logs lib conn r d (on_frame-Outcome lib conn r d r.raw),
      elim (follow-cases step (serve_loop lib conn received)) [
        | inl e ↦ inl (ap (λ x. x.audit) e)
        | inr e ↦ inr (
            subst (λ x. Lines lib conn received (daemon_of step).audit x.audit) (sym e)
              (serve_loop-Lines lib conn received (daemon_of step)))
      ],
    )

-- A connection that is not privileged, whatever it sends, changes neither the daemon's state nor
-- any session but its own: it disconnects nobody and reboots nothing.
pub serve_loop-unprivileged :
    (lib : Library) (conn : Connection) (received : List Received) (d : Daemon) (other : Text)
    → conn.privileged ≡ false
    → other ≢ conn.session_id
    → ((serve_loop lib conn received d).state ≡ d.state)
      × (session (serve_loop lib conn received d) other ≡ session d other)
unfolding serve_loop
serve_loop-unprivileged lib conn [] d other may h = (refl, refl)
serve_loop-unprivileged lib conn (r ∷ received) d other may h =
    let step = on_message lib conn r d in
    let (state, kept) = Outcome-unprivileged other may h (on_frame-Outcome lib conn r d r.raw) in
    let (state', kept') = serve_loop-unprivileged lib conn received (daemon_of step) other may h in
    elim (follow-cases step (serve_loop lib conn received)) [
      | inl e ↦ (ap (λ x. x.state) e ∙ state, ap (λ x. session x other) e ∙ kept)
      | inr e ↦
          (ap (λ x. x.state) e ∙ (state' ∙ state), ap (λ x. session x other) e ∙ (kept' ∙ kept))
    ]
