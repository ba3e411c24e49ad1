-- ===== src/WindowsService/Installed.antt =====
-- What `Install` of internal/windowsservice/service.go leaves behind.
use mathlib.Core.Path.{subst}
use it_portal_agent.Prelude.{
  ℕ, ◌+◌, String, ◌≡◌, ◌≢◌, refl, ap, ◌∙◌, ◌++◌, Option, none, some, List, [], ◌∷◌, inl, inr,
  Option-cases,
}
use it_portal_agent.Config.{Config, default_config}
use it_portal_agent.Config.Files.{
  file_operation, ensure_directories, write_file, save, parse_or_create, load_or_create,
}
use it_portal_agent.Text.{Text, text}
use it_portal_agent.WindowsService.{
  Manager, sc_result, run_sc, create_arguments, description_arguments, install,
}
use it_portal_agent.World.{
  Reply-cases, ok, ok-injective, map_err, wrap, err≢ok, result, Reply, answer, failure, Env, World,
  Action, ◌>>=◌, ◌>>◌, pure, annotate, observe_result, bind-eq-ok,
}

-- config.yaml is there.
abbrev pub HasFile : World → Type 0
HasFile w = w.config_file ≢ none

module _ (env : Env) where
  save-HasFile :
      (cfg : Config) (w : World) → (save env cfg w).0 ≡ ok tt → HasFile (save env cfg w).1
  unfolding save write_file
  save-HasFile cfg w h = elim (Reply-cases (env.marshal_config cfg)) [
    | inl (t, e) ↦ absurd (err≢ok (rw e at h))
    | inr (bytes, e) ↦ elim (Option-cases (env.write_error w.tick)) [
      | inl m ↦ rw (e, m, write_file) (λ q. cc)
      | inr (t, m) ↦ absurd (err≢ok (rw (e, m, write_file) at h))
    ]
  ]

  -- An operation on the file system keeps the file, where its change does.
  parse-HasFile :
      (bytes : Text) (cfg : Config) (w : World)
      → HasFile w
      → HasFile (parse_or_create env (some bytes) w).1
  unfolding parse_or_create
  parse-HasFile bytes cfg w h = elim (Option-cases (env.read_error w.tick)) [
    | inl m ↦ elim (Reply-cases (env.parse_config bytes)) [
      | inl (t, e) ↦ rw (m, file_operation, e) h
      | inr (c, e) ↦ rw (m, file_operation, e) h
    ]
    | inr (t, m) ↦ rw (m, file_operation) h
  ]

  create-HasFile :
      (cfg : Config) (w : World)
      → (parse_or_create env none w).0 ≡ ok cfg
      → HasFile (parse_or_create env none w).1
  unfolding parse_or_create
  create-HasFile cfg w h =
      let read : Action (Unit {0}) =
        annotate "read configuration" (file_operation env env.read_error (λ v. v)) in
      let create : Action Config = save env default_config >> pure default_config in
      let (u, e, k) = bind-eq-ok read (λ u. create) w cfg h in
      let v : World = (read w).1 in
      let (u', e', k') = bind-eq-ok (save env default_config) (λ u. pure default_config) v cfg k in
      rw (e, e') (save-HasFile default_config v e')

  parse_or_create-HasFile :
      (file : Option Text) (cfg : Config) (w : World)
      → w.config_file ≡ file
      → (parse_or_create env file w).0 ≡ ok cfg
      → HasFile (parse_or_create env file w).1
  parse_or_create-HasFile none cfg w e h = create-HasFile cfg w h
  parse_or_create-HasFile (some bytes) cfg w e h = parse-HasFile bytes cfg w (λ q. cc (e, q))

  load_or_create-HasFile :
      (cfg : Config) (w : World)
      → (load_or_create env w).0 ≡ ok cfg
      → HasFile (load_or_create env w).1
  unfolding load_or_create
  load_or_create-HasFile cfg w h =
      let directories : List String = "" ∷ "logs" ∷ "cache" ∷ "downloads" ∷ "queue" ∷ [] in
      let (u, e, k) =
        bind-eq-ok (ensure_directories env directories) (λ u v. parse_or_create env v.config_file v)
          w cfg h in
      let v : World = (ensure_directories env directories w).1 in
      rw e (parse_or_create-HasFile v.config_file cfg v refl k)

  module _ (m : Manager) where
    run_sc-HasFile :
        (arguments : List Text) (w : World) → HasFile w → HasFile (run_sc m arguments w).1
    unfolding run_sc sc_result
    run_sc-HasFile arguments w h = elim (Option-cases (m.sc w.tick arguments).1) [
      | inl e ↦ rw e h
      | inr (t, e) ↦ rw e h
    ]

    run_sc-tick : (arguments : List Text) (w : World) → (run_sc m arguments w).1.tick ≡ w.tick + 1
    unfolding run_sc sc_result
    run_sc-tick arguments w = elim (Option-cases (m.sc w.tick arguments).1) [
      | inl e ↦ rw e refl
      | inr (t, e) ↦ rw e refl
    ]

    run_sc-accepted :
        (arguments : List Text) (w : World)
        → (run_sc m arguments w).0 ≡ ok tt
        → (m.sc w.tick arguments).1 ≡ none
    unfolding run_sc sc_result
    run_sc-accepted arguments w h = elim (Option-cases (m.sc w.tick arguments).1) [
      | inl e ↦ e
      | inr (t, e) ↦ absurd (err≢ok (rw e at h))
    ]

    answered :
        (r : Reply Text) (t : Text)
        → map_err (wrap "resolve executable path") (result r) ≡ ok t
        → r ≡ answer t
    answered (answer a) t h = ap answer (ok-injective h)
    answered (failure x) t h = absurd (err≢ok h)

    observed-answer :
        (f : ℕ → Reply Text) (w : World) (t : Text)
        → (annotate "resolve executable" (observe_result f) w).0 ≡ ok t
        → f w.tick ≡ answer t
    observed-answer f w t h = elim (Reply-cases (f w.tick)) [
      | inl (x, e) ↦ absurd (err≢ok (rw e at h))
      | inr (a, e) ↦ e ∙ ap answer (ok-injective (rw e at h))
    ]

    -- The last two calls have created the service for the absolute path of the running program, in
    -- quotes, and described it, and config.yaml is there.
    pub record IsInstalled (v w : World) : Type 0 where
      pub configured : HasFile w
      pub program : Text
      pub running : m.executable v.tick ≡ answer program
      pub path : Text
      pub absolute : m.absolute program ≡ answer path
      pub moment : ℕ
      pub created :
          (m.sc moment (
            text "create"
            ∷ text "ITPortalAgent"
            ∷ text "binPath="
            ∷ (34 ∷ (path ++ (34 ∷ [])))
            ∷ text "start="
            ∷ text "auto"
            ∷ text "DisplayName="
            ∷ text "IT Portal Agent"
            ∷ [])).1
          ≡ none
      pub described :
          (m.sc (moment + 1) (
            text "description"
            ∷ text "ITPortalAgent"
            ∷ text "Enterprise IT Inventory Agent"
            ∷ [])).1
          ≡ none
      pub last : w.tick ≡ moment + 1 + 1

    -- Where `Install` returns without an error, config.yaml is there, and its last two calls were those
    -- of `sc.exe`, which has accepted the command that creates the service to start automatically, with
    -- the absolute path of the program that runs, in quotes, as its binary, and the one that describes
    -- it.
    pub install-IsInstalled :
        (w : World) → (install m env w).0 ≡ ok tt → IsInstalled w (install m env w).1
    unfolding install
    install-IsInstalled w h =
        let locate : Action Text = annotate "resolve executable" (observe_result m.executable) in
        let resolve : Text → Action Text = λ executable.
          annotate "resolve executable path" (λ v. (result (m.absolute executable), v)) in
        let create : Text → Action (Unit {0}) =
          λ path. run_sc m (create_arguments path) >> run_sc m description_arguments in
        let configure : Text → Action (Unit {0}) = λ path. load_or_create env >> create path in
        let (executable, e1, h1) = bind-eq-ok locate (λ x. resolve x >>= configure) w tt h in
        let w1 : World = (locate w).1 in
        let (path, e2, h2) = bind-eq-ok (resolve executable) configure w1 tt h1 in
        let w2 : World = (resolve executable w1).1 in
        let (cfg, e3, h3) = bind-eq-ok (load_or_create env) (λ c. create path) w2 tt h2 in
        let w3 : World = (load_or_create env w2).1 in
        let (u, e4, h4) =
          bind-eq-ok (run_sc m (create_arguments path)) (λ u. run_sc m description_arguments) w3 tt
            h3 in
        let w4 : World = (run_sc m (create_arguments path) w3).1 in
        rw (e1, e2, e3, e4)
          (record {
            configured =
                run_sc-HasFile description_arguments w4
                  (run_sc-HasFile (create_arguments path) w3 (load_or_create-HasFile cfg w2 e3));
            program = executable;
            running = observed-answer m.executable w executable e1;
            path = path;
            absolute = answered (m.absolute executable) path e2;
            moment = w3.tick;
            created = run_sc-accepted (create_arguments path) w3 e4;
            described =
                subst (λ n. (m.sc n description_arguments).1 ≡ none)
                  (run_sc-tick (create_arguments path) w3)
                  (run_sc-accepted description_arguments w4 h4);
            last =
                run_sc-tick description_arguments w4
                ∙ ap (λ n. n + 1) (run_sc-tick (create_arguments path) w3);
          })
