-- ===== src/Daemon/Protocol.antt =====
-- daemon/protocol.go: the messages. What encoding/json makes of a payload is an argument.
use routercli.Base.{ℕ, Bool, Option, none, some, [], ◌∷◌, Text, codes}

-- `MessageKind`, a byte.
abbrev pub MessageKind : Type 0
MessageKind = ℕ

abbrev pub kind_hello : MessageKind
kind_hello = 1

abbrev pub kind_hello_response : MessageKind
kind_hello_response = 2

abbrev pub kind_goodbye : MessageKind
kind_goodbye = 3

abbrev pub kind_audit_event : MessageKind
kind_audit_event = 4

abbrev pub kind_list_users_request : MessageKind
kind_list_users_request = 5

abbrev pub kind_list_users_response : MessageKind
kind_list_users_response = 6

abbrev pub kind_disconnect_user_request : MessageKind
kind_disconnect_user_request = 7

abbrev pub kind_disconnect_user_response : MessageKind
kind_disconnect_user_response = 8

abbrev pub kind_reboot_request : MessageKind
kind_reboot_request = 9

abbrev pub kind_reboot_response : MessageKind
kind_reboot_response = 10

abbrev pub kind_farewell : MessageKind
kind_farewell = 11

pub record HelloPayload : Type 0 where
  pub username : Text
  pub pid : ℕ
  pub terminal : Text

pub record AuditEventPayload : Type 0 where
  pub username : Text
  pub command : Text
  pub level : Text
  pub time : ℕ
  pub success : Bool

pub record DisconnectUserRequestPayload : Type 0 where
  pub username : Text
  pub session_id : Text

abbrev pub farewell_disconnected : Text
farewell_disconnected = codes "Line closed by remote host"

abbrev pub farewell_rebooting : Text
farewell_rebooting = codes "Device is rebooting"

-- `EncodeMessage`: `none` where the payload cannot be marshaled.
abbrev pub encode_message : MessageKind → Option Text → Option Text
encode_message kind none = none
encode_message kind (some body) = some (kind ∷ body)

-- `DecodeMessage`: `none` is `ErrMalformedMessage`.
abbrev pub decode_message : Text → Option (MessageKind × Text)
decode_message [] = none
decode_message (kind ∷ body) = some (kind, body)
