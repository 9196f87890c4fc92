-- ===== src/Command/Verify/Levels.antt =====
-- The levels that the checks pass.
use routercli.Base.{true, false, List, [], ◌∷◌, ◌++◌, ◌≡◌, ◌≢◌, ◌↔◌, ◌⊎◌, arith, text_eq_iff, All}
use routercli.Command.Context.{CommandLevel}
use routercli.Command.Registry.{Registry}
use routercli.Command.Verify.{
  is_registered, is_set, command_level_problems, verify_command_levels, vendor_level_problems,
  vendor_levels_problems,
}

-- A level that can be entered: its enter command is there and registered, and its exit command is
-- registered where it has one.
abbrev pub IsEnterable : Registry → CommandLevel → Type 0
IsEnterable registry level =
    (level.is_base ≡ true)
    ⊎ ((level.enter_command ≢ [])
        × (is_registered registry level.enter_command ≡ true)
        × ((level.exit_command ≡ []) ⊎ (is_registered registry level.exit_command ≡ true)))

-- A level whose secret the vendor sets is hidden, restricted, and has no other password.
abbrev pub IsVendorSafe : CommandLevel → Type 0
IsVendorSafe level =
    (level.vendor_restricted ≡ true → level.hidden ≡ true)
    × ((level.vendor_defined_password_hash ≡ [])
        ⊎ ((level.password_hash ≡ [])
            × (is_set level.password_user_settable ≡ false)
            × (level.hidden ≡ true)
            × (level.vendor_restricted ≡ true)))

append-nil_iff {ℓ} : {A : Type ℓ} (a b : List A) → (a ++ b ≡ []) ↔ ((a ≡ []) × (b ≡ []))
append-nil_iff [] b = ground arith
append-nil_iff (x ∷ a) b = ground arith

command_level_problems_iff :
    (registry : Registry) (level : CommandLevel)
    → (command_level_problems registry level ≡ []) ↔ IsEnterable registry level
unfolding command_level_problems
command_level_problems_iff registry level =
    ground (arith, text_eq_iff level.enter_command [], text_eq_iff level.exit_command [])

verify_command_levels_iff :
    (registry : Registry) (order : List CommandLevel)
    → (verify_command_levels registry order ≡ []) ↔ All (IsEnterable registry) order
unfolding verify_command_levels
verify_command_levels_iff registry [] = ground arith
verify_command_levels_iff registry (level ∷ order) = ground (
  arith,
  append-nil_iff (command_level_problems registry level) (verify_command_levels registry order),
  command_level_problems_iff registry level,
  verify_command_levels_iff registry order,
)

vendor_level_problems_iff :
    (level : CommandLevel) → (vendor_level_problems level ≡ []) ↔ IsVendorSafe level
unfolding vendor_level_problems
vendor_level_problems_iff level =
    ground
      (arith, text_eq_iff level.vendor_defined_password_hash [], text_eq_iff level.password_hash [])

vendor_levels_problems_iff :
    (order : List CommandLevel) → (vendor_levels_problems order ≡ []) ↔ All IsVendorSafe order
unfolding vendor_levels_problems
vendor_levels_problems_iff [] = ground arith
vendor_levels_problems_iff (level ∷ order) = ground (
  arith,
  append-nil_iff (vendor_level_problems level) (vendor_levels_problems order),
  vendor_level_problems_iff level,
  vendor_levels_problems_iff order,
)

-- No problem of the levels is reported exactly where every level but the base has an enter command,
-- its commands are registered, every level that the vendor restricts is hidden, and every level with
-- a password of the vendor is hidden and restricted and has no other, which no user may set.
levels_pass_iff :
    (registry : Registry) (order : List CommandLevel)
    → ((verify_command_levels registry order ≡ []) × (vendor_levels_problems order ≡ []))
      ↔ (All (IsEnterable registry) order × All IsVendorSafe order)
levels_pass_iff registry order =
    ground (arith, verify_command_levels_iff registry order, vendor_levels_problems_iff order)
