-- ===== src/Daemon/Peers.antt =====
-- daemon/peercred.go, and the gate of daemon/server.go that uses it: who a peer is. The user ID that
-- the kernel reports is an argument, with `none` where it cannot be read.
use routercli.Base.{
  ℕ, Bool, true, false, Option, none, some, List, [], ◌∷◌, ◌++◌, ◌==◌, if◌then◌else◌, Text, codes,
}

-- `AllowedUIDs`.
abbrev pub AllowedUids : Type 0
AllowedUids = List ℕ

unfoldable pub has_uid : AllowedUids → ℕ → Bool
has_uid [] uid = false
has_uid (u ∷ allowed) uid = if u == uid then true else has_uid allowed uid

-- `CheckPeer`: whether it returns a nil error.
unfoldable pub check_peer : AllowedUids → Option ℕ → Bool
unfolding has_uid
check_peer allowed none = false
check_peer allowed (some uid) = has_uid allowed uid

-- `PeerIdentity`, by a printer of numbers.
abbrev pub peer_identity : (ℕ → Text) → Option ℕ → Text
peer_identity print none = codes "-"
peer_identity print (some uid) = codes "uid=" ++ print uid

-- `authorizedForPrivilegedRequest`.
unfoldable pub authorized_for_privileged_request : Option AllowedUids → Option ℕ → Bool
unfolding check_peer
authorized_for_privileged_request none uid = true
authorized_for_privileged_request (some privileged_uids) uid = check_peer privileged_uids uid
