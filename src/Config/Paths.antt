-- ===== src/Config/Paths.antt =====
-- The configurations that load.
use routercli.Base.{
  true, ◌||◌, Option, none, some, List, [], ◌∷◌, ◌≡◌, ◌⊎◌, inl, inr, refl, subst, arith, All, Text,
  text_eq, text_eq_iff, Bool-cases, if_true, if_false,
}
use routercli.Config.Model.{SystemConfig, default_system_config}
use routercli.Config.{
  ConfigError, invalid, bad_file, undecoded, many_documents, Filepath, resolve_path, base_of, under,
  resolve_paths, validate, ConfigFile, unreadable, undecodable, several_documents, no_document,
  document, config, not_named, checked, load_system_config,
}
use routercli.Config.Validate.{IsValid, validate_iff, validate_default}

-- What is documented of path/filepath: these functions keep a path absolute.
pub record KeepsAbs (fp : Filepath) : Type 0 where
  pub join_abs : (a b : Text) → fp.is_abs a ≡ true → fp.is_abs (fp.join a b) ≡ true
  pub dir_abs : (a : Text) → fp.is_abs a ≡ true → fp.is_abs (fp.dir a) ≡ true
  pub clean_abs : (a : Text) → fp.is_abs a ≡ true → fp.is_abs (fp.clean a) ≡ true

-- The paths that `resolvePaths` resolves; `LogFile` is not one of them.
abbrev pub paths_of : SystemConfig → List Text
paths_of c =
    c.history_file ∷ c.audit_log_file ∷ c.language_dir ∷ c.tree_structure ∷ c.common_tree_file
    ∷ c.startup_config_file ∷ c.vendor_config_file ∷ c.users_file ∷ c.roles_file ∷ c.defaults_dir
    ∷ c.daemon_socket_path ∷ []

-- The `LogFile` of the document, or of the defaults for an empty file.
abbrev pub log_file_of : ConfigFile → Text
log_file_of (document d) = d.log_file
log_file_of unreadable = []
log_file_of undecodable = []
log_file_of several_documents = []
log_file_of no_document = default_system_config.log_file

-- Left out, or absolute.
abbrev pub IsRooted : Filepath → Text → Type 0
IsRooted fp p = (p ≡ []) ⊎ (fp.is_abs p ≡ true)

config-injective : {a b : SystemConfig} → config a ≡ config b → a ≡ b
config-injective h = cc

outcome_config :
    (o : Option ConfigError) (d c : SystemConfig)
    → (elim o [ none ↦ config d | some e ↦ invalid e ]) ≡ config c
    → (o ≡ none) × (d ≡ c)
outcome_config none d c h = (refl, config-injective h)
outcome_config (some e) d c h = cc

not_config {ℓ} : {A : Type ℓ} {c : SystemConfig} → not_named ≡ config c → A
not_config h = cc

module _ (fp : Filepath) (keeps : KeepsAbs fp) where
  or_split : (p : Text) → (text_eq p [] || fp.is_abs p) ≡ true → IsRooted fp p
  or_split p e = ground (arith, text_eq_iff p [])

  resolve_path-IsRooted :
      (base p : Text) → fp.is_abs base ≡ true → IsRooted fp (resolve_path fp base p)
  unfolding resolve_path
  resolve_path-IsRooted base p h = elim (Bool-cases (text_eq p [] || fp.is_abs p)) [
    | inl e ↦ rw e (or_split p e)
    | inr e ↦ rw e (inr (keeps.join_abs base p h))
  ]

  base_of-abs :
      (config_file base_dir : Text)
      → fp.is_abs config_file ≡ true
      → fp.is_abs (base_of fp config_file base_dir) ≡ true
  base_of-abs config_file base_dir h = elim (Bool-cases (fp.is_abs base_dir)) [
    | inl e ↦ rw e (keeps.clean_abs base_dir e)
    | inr e ↦ rw e (
        keeps.clean_abs (fp.join (fp.dir config_file) base_dir)
          (keeps.join_abs (fp.dir config_file) base_dir (keeps.dir_abs config_file h)))
  ]

  under-IsRooted :
      (base : Text) (c : SystemConfig)
      → fp.is_abs base ≡ true
      → All (IsRooted fp) (paths_of (under fp base c))
  under-IsRooted base c h =
      let r : (p : Text) → IsRooted fp (resolve_path fp base p) =
        λ p. resolve_path-IsRooted base p h in
      (
        r c.history_file,
        (
          r c.audit_log_file,
          (
            r c.language_dir,
            (
              r c.tree_structure,
              (
                r c.common_tree_file,
                (
                  r c.startup_config_file,
                  (
                    r c.vendor_config_file,
                    (
                      r c.users_file,
                      (r c.roles_file, (r c.defaults_dir, (r c.daemon_socket_path, tt))),
                    ),
                  ),
                ),
              ),
            ),
          ),
        ),
      )

  resolve_paths-IsRooted :
      (config_file : Text) (c : SystemConfig)
      → fp.is_abs config_file ≡ true
      → ((resolve_paths fp config_file c).base_dir ≡ [])
        ⊎ All (IsRooted fp) (paths_of (resolve_paths fp config_file c))
  unfolding resolve_paths
  resolve_paths-IsRooted config_file c h = elim (Bool-cases (text_eq c.base_dir [])) [
    | inl e ↦ rw e (inl ((text_eq_iff c.base_dir []).0 e))
    | inr e ↦ rw e (
        inr (
          under-IsRooted (base_of fp config_file c.base_dir) c
            (base_of-abs config_file c.base_dir h)))
  ]

  resolve_paths-log_file :
      (config_file : Text) (c : SystemConfig)
      → (resolve_paths fp config_file c).log_file ≡ c.log_file
  unfolding resolve_paths
  resolve_paths-log_file config_file c = elim (Bool-cases (text_eq c.base_dir [])) [
    | inl e ↦ rw e refl
    | inr e ↦ rw e refl
  ]

  checked-config : (d c : SystemConfig) → checked d ≡ config c → (validate d ≡ none) × (d ≡ c)
  checked-config d c h = outcome_config (validate d) d c h

  abbrev IsLoaded : ConfigFile → SystemConfig → Type 0
  IsLoaded file c =
      IsValid c
      × ((c.base_dir ≡ []) ⊎ All (IsRooted fp) (paths_of c))
      × (c.log_file ≡ log_file_of file)

  file-IsLoaded :
      (config_file : Text) (file : ConfigFile) (c : SystemConfig)
      → fp.is_abs config_file ≡ true
      → (elim file [
        | unreadable ↦ bad_file
        | undecodable ↦ undecoded
        | several_documents ↦ many_documents
        | no_document ↦ config default_system_config
        | document d ↦ checked (resolve_paths fp config_file d)
      ])
        ≡ config c
      → IsLoaded file c
  file-IsLoaded config_file unreadable c a h = cc
  file-IsLoaded config_file undecodable c a h = cc
  file-IsLoaded config_file several_documents c a h = cc
  file-IsLoaded config_file no_document c a h =
      subst (IsLoaded no_document) (config-injective h)
        ((validate_iff default_system_config).0 validate_default, inl refl, refl)
  file-IsLoaded config_file (document d) c a h =
      let (v, e) = checked-config (resolve_paths fp config_file d) c h in
      subst (IsLoaded (document d)) e (
        (validate_iff (resolve_paths fp config_file d)).0 v,
        resolve_paths-IsRooted config_file d a,
        resolve_paths-log_file config_file d,
      )

  -- A configuration that `LoadSystemConfig` returns passes `validate`, the defaults for an empty file
  -- too. Where it names a base directory, each of the eleven paths that `resolvePaths` resolves is
  -- left out or absolute; `LogFile` is not one of them and stays as the file gives it. The
  -- configuration file is named by an absolute path.
  pub load_system_config-IsValid :
      (config_file : Text) (file : ConfigFile) (c : SystemConfig)
      → fp.is_abs config_file ≡ true
      → load_system_config fp config_file file ≡ config c
      → IsValid c
        × ((c.base_dir ≡ []) ⊎ All (IsRooted fp) (paths_of c))
        × (c.log_file ≡ log_file_of file)
  unfolding load_system_config
  load_system_config-IsValid config_file file c a h = elim (Bool-cases (text_eq config_file [])) [
    | inl e ↦ not_config (if_true _ _ _ e h)
    | inr e ↦ file-IsLoaded config_file file c a (if_false _ _ _ e h)
  ]
