-- ===== src/Config/Tests.antt =====
-- Loading an empty file and one with paths, with the paths of Unix.
use routercli.Base.{Bool, true, false, ◌++◌, [], ◌∷◌, ◌≡◌, ◌⊎◌, refl, All, Text, codes, ◌==◌}
use routercli.Config.Model.{SystemConfig, default_system_config}
use routercli.Config.{Filepath, document, config, load_system_config, resolve_path}
use routercli.Config.Validate.{IsValid}
use routercli.Config.Paths.{KeepsAbs, IsRooted, paths_of, load_system_config-IsValid}

abbrev starts_with_slash : Text → Bool
starts_with_slash [] = false
starts_with_slash (r ∷ s) = r == b'/'

abbrev unix : Filepath
unix = record {
  is_abs = starts_with_slash;
  join = λ a b. a ++ (b'/' ∷ b);
  dir = λ a. a;
  clean = λ a. a;
}

join_slash : (a b : Text) → starts_with_slash a ≡ true → starts_with_slash (a ++ (b'/' ∷ b)) ≡ true
join_slash [] b h = refl
join_slash (r ∷ a) b h = h

unix-KeepsAbs : KeepsAbs unix
unix-KeepsAbs = record { join_abs = join_slash; dir_abs = λ a h. h; clean_abs = λ a h. h }

abbrev given : SystemConfig
given = record default_system_config {
  base_dir = codes "lab";
  users_file = codes "users.yaml";
  log_file = codes "debug.log";
  roles_file = codes "/etc/roles.yaml";
}

abbrev found : SystemConfig
found = record given { base_dir = codes "/etc/lab"; users_file = codes "/etc/lab/users.yaml" }

found_config : load_system_config unix (codes "/etc") (document given) ≡ config found
unfolding load_system_config resolve_path
found_config = refl

load_system_config-IsValid_example :
    IsValid found
    × ((found.base_dir ≡ []) ⊎ All (IsRooted unix) (paths_of found))
    × (found.log_file ≡ codes "debug.log")
load_system_config-IsValid_example =
    load_system_config-IsValid unix unix-KeepsAbs (codes "/etc") (document given) found refl
      found_config
