-- ===== src/Config/Loaded.antt =====
-- Load (config.go): what a configuration that it returns is made of.
use dinchy.Prelude.{
  String, Bool, ◌≡◌, refl, sym, subst, ◌∙◌, true, false, ◌⊎◌, inl, inr, ◌==◌, Bool-cases, arith,
}
use dinchy.Errors.{Result, ok, err}
use dinchy.Config.{Value, Tags, Settings, Parsers, load_value, mod_value, load_from_env, apply_mods}
use dinchy.Config.Defaults.{default_settings}
use dinchy.Config.Load.{
  System, Config, text_in, load_env_file, config_of, smtp_enabled, wrapped, validate_struct,
  require_base_url, load,
}
use dinchy.Config.Leaves.{Zipped, Zipped-compose, bind_ok, Walked, leaves, walk-Zipped}

wrapped_ok : {A : Type 0} (m : Result A) (a : A) → wrapped m ≡ ok a → m ≡ ok a
wrapped_ok (ok b) a h = h
wrapped_ok (err e) a h = cc

module _ (system : System) (parsers : Parsers) (is_valid : Config → Bool) where
  -- a field of the result is the default, or what the environment sets it to, with its modifiers
  abbrev pub IsLoaded : (String → String) → Tags × Value → Tags × Value → Type 0
  IsLoaded getenv (t, v) (u, w) =
      (t ≡ u)
      × ((x : Value) × (load_value parsers getenv t v ≡ ok x) × (mod_value parsers t x ≡ ok w))

  prepared :
      (getenv : String → String) (start filled normal : Settings)
      → load_from_env parsers getenv start ≡ ok filled
      → apply_mods parsers filled ≡ ok normal
      → Zipped (IsLoaded getenv) (leaves start) (leaves normal)
  unfolding load_from_env apply_mods
  prepared getenv start filled normal h h' =
      Zipped-compose (Walked (load_value parsers getenv)) (Walked (mod_value parsers))
        (IsLoaded getenv)
        (λ (t, v) (u, x) (r, w) (same, first) (same', second).
          (same ∙ same', (x, first, subst (λ k. mod_value parsers k x ≡ ok w) (sym same) second)))
        (leaves start) (leaves filled) (leaves normal)
        (walk-Zipped (load_value parsers getenv) start filled h)
        (walk-Zipped (mod_value parsers) filled normal h')

  validate_struct_ok :
      (c d : Config)
      → validate_struct system parsers is_valid c ≡ ok d
      → (is_valid c ≡ true) × (c ≡ d)
  unfolding validate_struct
  validate_struct_ok c d h = elim (Bool-cases (is_valid c)) [
    | inl valid ↦ (valid, ground arith)
    | inr refused ↦ absurd (ground arith)
  ]

  require_base_url_ok :
      (c d : Config)
      → require_base_url system parsers is_valid c ≡ ok d
      → (c ≡ d)
        × ((smtp_enabled c.settings ≡ false) ⊎ ((text_in "PublicBaseURL" c.settings == "") ≡ false))
  unfolding require_base_url
  require_base_url_ok c d h = elim (Bool-cases (smtp_enabled c.settings)) [
    | inr off ↦ (ground arith, inl off)
    | inl on ↦ elim (Bool-cases (text_in "PublicBaseURL" c.settings == "")) [
      | inl empty ↦ absurd (ground arith)
      | inr given ↦ (ground arith, inr given)
    ]
  ]

  -- A configuration that Load returns has passed the validator, and has a public base URL if mail is
  -- configured. It has the fields of the defaults, each with the value that the environment gives
  -- that field alone, or else its default, normalised by that field's modifiers. Its providers are
  -- those that the normalised settings name.
  pub load_ok :
      (config : Config)
      → load system parsers is_valid ≡ ok config
      → (getenv : String → String) × (load_env_file system ≡ ok getenv)
        × Zipped (IsLoaded getenv) (leaves default_settings) (leaves config.settings)
        × (config ≡ config_of config.settings)
        × (is_valid config ≡ true)
        × ((smtp_enabled config.settings ≡ false)
            ⊎ ((text_in "PublicBaseURL" config.settings == "") ≡ false))
  unfolding load
  load_ok config h =
      let (getenv, found, h₁) = bind_ok (wrapped (load_env_file system)) _ config h in
      let (filled, fill, h₂) =
        bind_ok (load_from_env parsers getenv default_settings) _ config h₁ in
      let (normal, mods, h₃) = bind_ok (apply_mods parsers filled) _ config h₂ in
      let (c, checked, h₄) =
        bind_ok (validate_struct system parsers is_valid (config_of normal)) _ config h₃ in
      let (valid, same) = validate_struct_ok (config_of normal) c checked in
      let (same', based) = require_base_url_ok c config h₄ in
      subst
        (λ d.
          (getenv : String → String) × (load_env_file system ≡ ok getenv)
          × Zipped (IsLoaded getenv) (leaves default_settings) (leaves d.settings)
          × (d ≡ config_of d.settings)
          × (is_valid d ≡ true)
          × ((smtp_enabled d.settings ≡ false)
              ⊎ ((text_in "PublicBaseURL" d.settings == "") ≡ false)))
        (same ∙ same')
        (
          getenv,
          wrapped_ok (load_env_file system) getenv found,
          prepared getenv default_settings filled normal fill mods,
          refl,
          valid,
          subst
              (λ d.
                (smtp_enabled d.settings ≡ false)
                ⊎ ((text_in "PublicBaseURL" d.settings == "") ≡ false))
              (sym same) based,
        )
