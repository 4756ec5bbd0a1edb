-- ===== src/Registry/Config/Files.antt =====
-- `LoadFromFile` of internal/registry/config.go, and the four ways to load a configuration together.
-- What os.ReadFile answers and the lowercase extension of the path are arguments.
use shock_absorber.Prelude.{
  String, ℕ, ◌≡◌, ◌≢◌, refl, List, [], ◌∷◌, ◌⊎◌, inl, inr, ap, ◌∙◌, errorf, wrapf, Result, ok, err,
  Done, done, Exec, ◌==◌, ◌||◌, if◌then◌else◌, arith,
}
use shock_absorber.Registry.Config.Defaults.{
  ConfigManager, Decoder, load_from_yaml, load_from_json, load_from_yaml_safe, load_from_json_safe,
}
use shock_absorber.Registry.Config.Validation.{ValidatorRegistry, validate_config}
use shock_absorber.Registry.Config.Env.{Environment, load_from_env, load_from_env_safe}

-- One of the four ways to load a configuration.
pub data Load : Type 0 where
  file : String → Result (List ℕ) → Load
  yaml_text json_text : List ℕ → Load
  environment : Environment → Load

module _ (yaml json : Decoder) (registry : ValidatorRegistry) where
  -- What `LoadFromFile` does with the data of a file.
  load_by_extension : String → List ℕ → Exec ConfigManager (Unit {0})
  load_by_extension extension text cm =
      if (extension == ".yaml") || (extension == ".yml")
      then load_from_yaml yaml registry text cm
      else if extension == ".json"
      then load_from_json json registry text cm
      else (
        err (
            errorf "unsupported config file format: %s (supported: .yaml, .yml, .json)"
              (extension ∷ [])),
        cm,
      )

  -- `LoadFromFile`
  load_from_file : String → Result (List ℕ) → Exec ConfigManager (Unit {0})
  unfolding load_by_extension
  load_from_file extension (err e) cm = (err (wrapf "failed to read config file" [] e), cm)
  load_from_file extension (ok text) cm = load_by_extension extension text cm

  -- The manager has a configuration that `validateConfig` accepts, or the call failed and left it as it was.
  abbrev pub LoadsSafely : ConfigManager → Done × ConfigManager → Type 0
  LoadsSafely cm p =
      ((p.0 ≡ done) × (validate_config registry p.1.config ≡ done)) ⊎ ((p.0 ≢ done) × (p.1 ≡ cm))

  pub load : Load → Exec ConfigManager (Unit {0})
  load (file extension content) = load_from_file extension content
  load (yaml_text text) = load_from_yaml yaml registry text
  load (json_text text) = load_from_json json registry text
  load (environment env) = load_from_env env registry

  load_by_extension-safe :
      (extension : String) (text : List ℕ) (cm : ConfigManager)
      → LoadsSafely cm (load_by_extension extension text cm)
  unfolding load_by_extension
  load_by_extension-safe extension text cm =
      ground (
        arith,
        load_from_yaml_safe yaml registry text cm,
        load_from_json_safe json registry text cm,
      )

  load_from_file-safe :
      (extension : String) (content : Result (List ℕ)) (cm : ConfigManager)
      → LoadsSafely cm (load_from_file extension content cm)
  unfolding load_from_file
  load_from_file-safe extension (err e) cm = inr (ground arith, refl)
  load_from_file-safe extension (ok text) cm = load_by_extension-safe extension text cm

  -- Loading from a file, YAML, JSON or the environment either succeeds, and the manager then holds a
  -- configuration that `validateConfig` accepts, or returns an error and leaves the manager as it was.
  pub load_safe : (l : Load) (cm : ConfigManager) → LoadsSafely cm (load l cm)
  unfolding load
  load_safe (file extension content) cm = load_from_file-safe extension content cm
  load_safe (yaml_text text) cm = load_from_yaml_safe yaml registry text cm
  load_safe (json_text text) cm = load_from_json_safe json registry text cm
  load_safe (environment env) cm = load_from_env_safe env registry cm

  loads : List Load → ConfigManager → ConfigManager
  loads [] cm = cm
  loads (l ∷ ls) cm = loads ls (load l cm).1

  -- After any sequence of loads the manager holds an accepted configuration, or what it held first.
  loads-accepted :
      (ls : List Load) (cm : ConfigManager)
      → (validate_config registry (loads ls cm).config ≡ done) ⊎ (loads ls cm ≡ cm)
  unfolding loads
  loads-accepted [] cm = inr refl
  loads-accepted (l ∷ ls) cm = elim (load_safe l cm) [
    | inl (_, accepted) ↦ elim (loads-accepted ls (load l cm).1) [
      | inl later ↦ inl later
      | inr same ↦ inl (ap (λ c. validate_config registry c.config) same ∙ accepted)
    ]
    | inr (_, kept) ↦ elim (loads-accepted ls (load l cm).1) [
      | inl later ↦ inl later
      | inr same ↦ inr (same ∙ kept)
    ]
  ]
