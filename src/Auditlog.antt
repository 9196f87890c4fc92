-- ===== src/Auditlog.antt =====
-- Package auditlog: who did what, and when. The file is what was written to it; `path` and the
-- logger are left out. Opening it and writing to it may fail, which is an argument. An instant comes
-- as its text in RFC 3339. A method that holds the mutex is one step.
pub mod Lines
mod Tests
use routercli.Base.{
  Bool, true, false, not, ◌&&◌, ◌||◌, Option, none, some, List, [], ◌∷◌, ◌++◌, if◌then◌else◌, Text,
  codes, text_eq,
}
use routercli.Sanitize.{field}

pub record AuditLog : Type 0 where
  pub file : Option Text
  pub enabled : Bool

-- `New`.
abbrev pub new : AuditLog
new = record { file = none; enabled = false }

-- `LocalPeer`.
abbrev pub local_peer : Text
local_peer = codes "local"

-- What opening the file gives: its text so far, or an error.
unfoldable pub enable : AuditLog → Option Text → Bool × AuditLog
enable a opened = elim (a.file) [
  | some written ↦ (true, record a { enabled = true })
  | none ↦ elim opened [
    | none ↦ (false, a)
    | some written ↦ (true, record { file = some written; enabled = true })
  ]
]

-- `Disable`.
unfoldable pub disable : AuditLog → AuditLog
disable a = record a { enabled = false }

-- `Enabled`.
abbrev pub is_enabled : AuditLog → Bool
is_enabled a = a.enabled

-- `WouldLog`.
unfoldable pub would_log : AuditLog → Bool
would_log a = elim (a.file) [ none ↦ false | some written ↦ a.enabled ]

abbrev or_dash : Text → Text
or_dash s = if text_eq s [] then codes "-" else s

abbrev pub result_word : Bool → Text
result_word success = if not success then codes "FAIL" else codes "OK"

-- `FormatEntry`.
unfoldable pub format_entry : Text → Text → Text → Text → Bool → Text
format_entry when username peer command success =
    when
    ++ (b'\t'
        ∷ (field (or_dash username)
            ++ (b'\t'
                ∷ (field (or_dash peer)
                    ++ (b'\t'
                        ∷ (result_word success ++ (b'\t' ∷ (field command ++ b'\n' ∷ []))))))))

-- What was done, and how it came out.
pub record Event : Type 0 where
  pub when : Text
  pub username : Text
  pub peer : Text
  pub command : Text
  pub success : Bool

abbrev pub entry_of : Event → Text
entry_of e = format_entry e.when e.username e.peer e.command e.success

-- `writeLocked`, to an open file; a write that fails is reported to the logger alone.
unfoldable pub write_locked : AuditLog → Text → Event → Bool → AuditLog
unfolding format_entry
write_locked a written e wrote =
    if wrote then record a { file = some (written ++ entry_of e) } else a

-- `LogAt`.
unfoldable pub log_at : AuditLog → Event → Bool → AuditLog
unfolding write_locked
log_at a e wrote = elim (a.file) [
  | none ↦ a
  | some written ↦ if not a.enabled then a else write_locked a written e wrote
]

-- `Log`: of the local peer.
unfoldable pub log : AuditLog → Event → Bool → AuditLog
unfolding log_at
log a e wrote = log_at a (record e { peer = local_peer }) wrote

-- `ForceLog`: also while disabled.
unfoldable pub force_log : AuditLog → Event → Bool → AuditLog
unfolding write_locked
force_log a e wrote = elim (a.file) [
  | none ↦ a
  | some written ↦ write_locked a written (record e { peer = local_peer }) wrote
]
