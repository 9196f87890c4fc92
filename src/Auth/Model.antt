-- ===== src/Auth/Model.antt =====
-- auth/model.go: the session, and the users of the database. The map of users is a list of its
-- entries.
use routercli.Base.{ℕ, Bool, Option, none, some, List, [], ◌∷◌, if◌then◌else◌, Text, text_eq}

-- `Session`, less the two fields about the host login.
pub record Session : Type 0 where
  pub username : Text
  pub authenticated : Bool
  pub command_level : Text
  pub command_level_entered_at : ℕ

pub record User : Type 0 where
  pub username : Text
  pub password_hash : Text
  pub totp_secret : Text
  pub totp_last_counter : ℕ
  pub roles : List Text
  pub must_change_password : Bool

abbrev pub Users : Type 0
Users = List (Text × User)

-- `users[name]`.
unfoldable pub find_user : Users → Text → Option User
find_user [] name = none
find_user ((key, u) ∷ users) name = if text_eq key name then some u else find_user users name
