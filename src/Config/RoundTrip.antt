-- ===== src/Config/RoundTrip.antt =====
-- config.yaml, written by `Save` and read by `LoadOrCreate`.
use it_portal_agent.Prelude.{
  ℕ, String, ◌≡◌, refl, ◌∙◌, Option-cases, false, none, some, List, [], ◌∷◌, inl, inr,
}
use it_portal_agent.Text.{Text, is_empty}
use it_portal_agent.World.{Reply-cases, answer, ok, Env, World, next, err≢ok}
use it_portal_agent.Config.{Config}
use it_portal_agent.Config.Files.{
  ensure_directories, write_file, save, parse_or_create, load_or_create, file_operation,
}

-- What the documentation of yaml.v3 promises of a struct of plain fields: what is marshalled
-- unmarshals to the same value.
pub record IsYaml (env : Env) : Type 0 where
  pub parse-marshal :
      (cfg : Config) (bytes : Text)
      → env.marshal_config cfg ≡ answer bytes
      → env.parse_config bytes ≡ answer cfg

module _ (env : Env) (yaml : IsYaml env) where
  save-eq-ok :
      (cfg : Config) (w : World)
      → (save env cfg w).0 ≡ ok tt
      → (bytes : Text) × (env.parse_config bytes ≡ answer cfg)
        × ((save env cfg w).1.config_file ≡ some bytes)
  unfolding save write_file
  save-eq-ok cfg w h = elim (Reply-cases (env.marshal_config cfg)) [
    | inr (b, e) ↦ elim (Option-cases (env.write_error w.tick)) [
      | inl m ↦ (b, yaml.parse-marshal cfg b e, rw (e, m, write_file) refl)
      | inr (t, m) ↦ absurd (err≢ok (rw (e, m, write_file) at h))
    ]
    | inl (t, e) ↦ absurd (err≢ok (rw e at h))
  ]

  module _ (made : (n : ℕ) → env.directory_error n ≡ none)
      (readable : (n : ℕ) → env.read_error n ≡ none) where
    ensure_directories_lem :
        (names : List String) (w : World)
        → ((ensure_directories env names w).0 ≡ ok tt)
          × ((ensure_directories env names w).1.config_file ≡ w.config_file)
    unfolding ensure_directories
    ensure_directories_lem [] w = (refl, refl)
    ensure_directories_lem (name ∷ names) w =
        rw (made w.tick, file_operation) (ensure_directories_lem names (next w))

    parse_lem :
        (cfg : Config) (bytes : Text) (w : World)
        → env.parse_config bytes ≡ answer cfg
        → is_empty cfg.log_level ≡ false
        → (parse_or_create env (some bytes) w).0 ≡ ok cfg
    unfolding parse_or_create
    parse_lem cfg bytes w p l = rw (readable w.tick, p, l, file_operation) refl

    -- Given that YAML reads back what it writes: a configuration with a log level that `Save` has written is what `LoadOrCreate` returns in any
    -- world that still has the file, where the directories can be made and the file can be read.
    pub load_or_create-save :
        (cfg : Config) (w u : World)
        → (save env cfg w).0 ≡ ok tt
        → u.config_file ≡ (save env cfg w).1.config_file
        → is_empty cfg.log_level ≡ false
        → (load_or_create env u).0 ≡ ok cfg
    unfolding load_or_create
    load_or_create-save cfg w u saved kept named =
        let (bytes, p, file) = save-eq-ok cfg w saved in
        let names : List String = "" ∷ "logs" ∷ "cache" ∷ "downloads" ∷ "queue" ∷ [] in
        let (done, same) = ensure_directories_lem names u in
        rw (done, same ∙ kept ∙ file) (parse_lem cfg bytes _ p named)
