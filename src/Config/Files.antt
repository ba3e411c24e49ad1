-- ===== src/Config/Files.antt =====
-- internal/config/config.go: the directories and config.yaml.
use Prim.Native.String.{◌++◌ as ◌<>◌}
use it_portal_agent.Prelude.{
  ℕ, ◌≡◌, arith, String, Option, none, some, List, [], ◌∷◌, if◌then◌else◌,
}
use it_portal_agent.Text.{Text, is_empty}
use it_portal_agent.World.{
  external, result, ok, err, Env, World, Action, ◌>>=◌, ◌>>◌, pure, annotate, next,
}
use it_portal_agent.Config.{Config, default_config}

module _ (env : Env) where
  -- An operation on the file system: it fails, or changes the world.
  abbrev pub file_operation : (ℕ → Option Text) → (World → World) → Action (Unit {0})
  file_operation error run w = elim (error w.tick) [
    | none ↦ (ok tt, run (next w))
    | some t ↦ (err (external t), next w)
  ]

  -- `EnsureDirectories`, for the directories that are left.
  unfoldable pub ensure_directories : List String → Action (Unit {0})
  ensure_directories [] = pure tt
  ensure_directories (name ∷ names) =
      let rest = ensure_directories names in
      do
        annotate (("create " <> name) <> " directory") (file_operation env.directory_error (λ w. w))
        rest

  -- `os.WriteFile`, which empties the file before it writes.
  unfoldable pub write_file : Text → Action (Unit {0})
  write_file bytes w = elim (env.write_error w.tick) [
    | none ↦ (ok tt, record (next w) { config_file = some bytes })
    | some t ↦ (
      err (external t),
      record (next w) { config_file = env.left_file w.tick w.config_file bytes },
    )
  ]

  -- `Save`
  unfoldable pub save : Config → Action (Unit {0})
  save cfg = do
    data_bytes ← annotate "serialize configuration" (λ w. (result (env.marshal_config cfg), w))
    annotate "write configuration" (write_file data_bytes)

  -- The branches of `LoadOrCreate` behind the reading of the file.
  unfoldable pub parse_or_create : Option Text → Action Config
  parse_or_create none = do
    annotate "read configuration" (file_operation env.read_error (λ w. w))
    save default_config
    pure default_config
  parse_or_create (some bytes) = do
    annotate "read configuration" (file_operation env.read_error (λ w. w))
    cfg ← annotate "parse configuration" (λ w. (result (env.parse_config bytes), w))
    pure (
        if is_empty cfg.log_level then record cfg { log_level = default_config.log_level } else cfg)

  -- `LoadOrCreate`
  unfoldable pub load_or_create : Action Config
  load_or_create = do
    ensure_directories ("" ∷ "logs" ∷ "cache" ∷ "downloads" ∷ "queue" ∷ [])
    λ w. parse_or_create w.config_file w

  -- Writing config.yaml touches no table.
  pub save-config : (cfg : Config) (w : World) → (save cfg w).1.config ≡ w.config
  unfolding save write_file
  save-config cfg w = ground arith
