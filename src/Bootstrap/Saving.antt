-- ===== src/Bootstrap/Saving.antt =====
-- What saving a configuration leaves in the `config` table, and what it keeps.
use it_portal_agent.Prelude.{
  String, ◌≡◌, refl, ◌∙◌, ap, false, some, [], ◌∷◌, inl, inr, str_eq, Bool-cases, Option-cases,
  if◌then◌else◌,
}
use it_portal_agent.Storage.{value_of, put, put_secret, protect_secret}
use it_portal_agent.Base64
use it_portal_agent.Storage.Secrets.{put_secret-eq-ok}
use it_portal_agent.Storage.Settings.{value_of-put, value_of-put_self}
use it_portal_agent.Text.{Text, is_empty}
use it_portal_agent.World.{
  answer, Reply-cases, ok, Env, World, Action, bind-eq-ok, next, continue, ◌>>=◌, ◌>>◌, observe,
}
use it_portal_agent.Bootstrap.{
  Codec, PortalResponse, put_unless_empty, put_secret_unless_empty, save_configuration,
}

module _ (env : Env) where
  -- A `Put` under another key, returned or failed, keeps a value.
  pub put_keeps :
      (key j : String) (value : Text) (w : World)
      → str_eq j key ≡ false
      → value_of (put env key value w).1 j ≡ value_of w j
  put_keeps key j value w h =
      value_of-put env key j value w
      ∙ elim (Option-cases (env.statement_error w.tick)) [ inl e ↦ rw e (rw h) | inr (t, e) ↦ rw e ]

  pub put_secret_keeps :
      (key j : String) (value : Text) (w : World)
      → str_eq j key ≡ false
      → value_of (put_secret env key value w).1 j ≡ value_of w j
  unfolding put_secret protect_secret
  put_secret_keeps key j [] w h = refl
  put_secret_keeps key j (b ∷ t) w h = elim (Reply-cases (env.protect w.tick (b ∷ t))) [
    | inl (x, e) ↦ rw (e, protect_secret) refl
    | inr (c, e) ↦ rw (e, protect_secret) (put_keeps key j _ _ h)
  ]

module _ (env : Env) (codec : Codec) where
  put_unless_empty_keeps :
      (key j : String) (value : Text) (w : World)
      → str_eq j key ≡ false
      → value_of (put_unless_empty env codec key value w).1 j ≡ value_of w j
  unfolding put_unless_empty
  put_unless_empty_keeps key j value w h = elim (Bool-cases (is_empty value)) [
    | inl e ↦ rw e refl
    | inr e ↦ rw e (put_keeps env key j value w h)
  ]

  put_secret_unless_empty_keeps :
      (key j : String) (value : Text) (w : World)
      → str_eq j key ≡ false
      → value_of (put_secret_unless_empty env codec key value w).1 j ≡ value_of w j
  unfolding put_secret_unless_empty
  put_secret_unless_empty_keeps key j value w h = elim (Bool-cases (is_empty value)) [
    | inl e ↦ rw e refl
    | inr e ↦ rw e (put_secret_keeps env key j value w h)
  ]

  -- The value that is left where it returns: the new one, or the old one where the new one is empty.
  put_unless_empty_self :
      (key : String) (value : Text) (w : World)
      → (put_unless_empty env codec key value w).0 ≡ ok tt
      → value_of (put_unless_empty env codec key value w).1 key
        ≡ (if is_empty value then value_of w key else some value)
  unfolding put_unless_empty
  put_unless_empty_self key value w h = elim (Bool-cases (is_empty value)) [
    | inl e ↦ rw e refl
    | inr e ↦ rw e (value_of-put_self env key value w (rw e at h))
  ]

  -- An empty token leaves the stored one; another is stored as the base64 of what data protection makes
  -- of it.
  abbrev pub IsTokenSaved : Text → World → World → Type 0
  IsTokenSaved [] w v = value_of v "agent_token" ≡ value_of w "agent_token"
  IsTokenSaved (b ∷ t) w v =
      (c : Text) × (env.protect w.tick (b ∷ t) ≡ answer c)
      × (value_of v "agent_token" ≡ some (Base64.encode c))

  put_secret_unless_empty-IsTokenSaved :
      (t : Text) (w v : World)
      → (put_secret_unless_empty env codec "agent_token" t w).0 ≡ ok tt
      → value_of v "agent_token"
        ≡ value_of (put_secret_unless_empty env codec "agent_token" t w).1 "agent_token"
      → IsTokenSaved t w v
  unfolding put_secret_unless_empty
  put_secret_unless_empty-IsTokenSaved [] w v h k = k
  put_secret_unless_empty-IsTokenSaved (b ∷ t) w v h k =
      let (c, p, row) = put_secret-eq-ok env "agent_token" (b ∷ t) w h in (c, p, k ∙ row)

  -- A successful `saveConfiguration` stores each part that the Portal sent, keeps the stored value of
  -- each part that it left out, and leaves the identity and the registration time alone.
  pub record IsSaved (r : PortalResponse) (w v : World) : Type 0 where
    pub configuration : value_of v "portal_configuration" ≡ (
        if is_empty r.configuration
        then value_of w "portal_configuration"
        else some r.configuration)
    pub policy :
        value_of v "portal_policy"
        ≡ (if is_empty r.policy then value_of w "portal_policy" else some r.policy)
    pub version : value_of v "configuration_version" ≡ (
        if is_empty r.configuration_version
        then value_of w "configuration_version"
        else some r.configuration_version)
    pub token : IsTokenSaved r.agent_token w v
    pub uuid : value_of v "agent_uuid" ≡ value_of w "agent_uuid"
    pub time : value_of v "registration_time" ≡ value_of w "registration_time"

  -- Where `saveConfiguration` returns, the table holds the configuration, the policy and the version
  -- of the answer, each with its old value where the answer left it empty, likewise the token, as the
  -- base64 of its protected form, and the UUID and the registration time are as they were.
  pub save_configuration-IsSaved :
      (r : PortalResponse) (w : World)
      → (save_configuration env codec r w).0 ≡ ok tt
      → IsSaved r w (save_configuration env codec r w).1
  unfolding save_configuration
  save_configuration-IsSaved r w h =
      let m1 : Action (Unit {0}) = put_secret_unless_empty env codec "agent_token" r.agent_token in
      let m2 : Action (Unit {0}) =
        put_unless_empty env codec "portal_configuration" r.configuration in
      let m3 : Action (Unit {0}) = put_unless_empty env codec "portal_policy" r.policy in
      let m4 : Action (Unit {0}) =
        put_unless_empty env codec "configuration_version" r.configuration_version in
      let m5 : Action (Unit {0}) =
        (observe (λ n. env.format_seconds (env.now n)) >>= put env "last_configuration_sync") in
      let (_, e1, h1) = bind-eq-ok m1 (λ _. m2 >> (m3 >> (m4 >> m5))) w tt h in
      let w1 : World = (m1 w).1 in
      let (_, e2, h2) = bind-eq-ok m2 (λ _. m3 >> (m4 >> m5)) w1 tt h1 in
      let w2 : World = (m2 w1).1 in
      let (_, e3, h3) = bind-eq-ok m3 (λ _. m4 >> m5) w2 tt h2 in
      let w3 : World = (m3 w2).1 in
      let (_, e4, h4) = bind-eq-ok m4 (λ _. m5) w3 tt h3 in
      let w4 : World = (m4 w3).1 in
      let last : (j : String)
          → str_eq j "last_configuration_sync" ≡ false
          → value_of (m5 w4).1 j ≡ value_of w4 j =
        λ j p.
          put_keeps env "last_configuration_sync" j (env.format_seconds (env.now w4.tick)) (next w4)
            p in
      let others : (j : String)
          → str_eq j "configuration_version" ≡ false
          → str_eq j "portal_policy" ≡ false
          → str_eq j "portal_configuration" ≡ false
          → str_eq j "agent_token" ≡ false
          → value_of w4 j ≡ value_of w j =
        λ j a b c d.
          put_unless_empty_keeps "configuration_version" j r.configuration_version w3 a
          ∙ put_unless_empty_keeps "portal_policy" j r.policy w2 b
          ∙ put_unless_empty_keeps "portal_configuration" j r.configuration w1 c
          ∙ put_secret_unless_empty_keeps "agent_token" j r.agent_token w d in
      rw (e1, e2, e3, e4, continue)
        (record {
          configuration =
              last "portal_configuration" refl
              ∙ put_unless_empty_keeps "configuration_version" "portal_configuration"
                  r.configuration_version w3 refl
              ∙ put_unless_empty_keeps "portal_policy" "portal_configuration" r.policy w2 refl
              ∙ put_unless_empty_self "portal_configuration" r.configuration w1 e2
              ∙ ap (λ o. if is_empty r.configuration then o else some r.configuration)
                  (put_secret_unless_empty_keeps "agent_token" "portal_configuration" r.agent_token
                    w refl);
          policy =
              last "portal_policy" refl
              ∙ put_unless_empty_keeps "configuration_version" "portal_policy"
                  r.configuration_version w3 refl
              ∙ put_unless_empty_self "portal_policy" r.policy w2 e3
              ∙ ap (λ o. if is_empty r.policy then o else some r.policy)
                  (put_unless_empty_keeps "portal_configuration" "portal_policy" r.configuration w1
                      refl
                    ∙ put_secret_unless_empty_keeps "agent_token" "portal_policy" r.agent_token w
                        refl);
          version =
              last "configuration_version" refl
              ∙ put_unless_empty_self "configuration_version" r.configuration_version w3 e4
              ∙ ap
                  (λ o.
                    if is_empty r.configuration_version then o else some r.configuration_version)
                  (put_unless_empty_keeps "portal_policy" "configuration_version" r.policy w2 refl
                    ∙ put_unless_empty_keeps "portal_configuration" "configuration_version"
                        r.configuration w1 refl
                    ∙ put_secret_unless_empty_keeps "agent_token" "configuration_version"
                        r.agent_token w refl);
          token = put_secret_unless_empty-IsTokenSaved r.agent_token w (m5 w4).1 e1 (
              last "agent_token" refl
              ∙ put_unless_empty_keeps "configuration_version" "agent_token" r.configuration_version
                  w3 refl
              ∙ put_unless_empty_keeps "portal_policy" "agent_token" r.policy w2 refl
              ∙ put_unless_empty_keeps "portal_configuration" "agent_token" r.configuration w1
                  refl);
          uuid = last "agent_uuid" refl ∙ others "agent_uuid" refl refl refl refl;
          time = last "registration_time" refl ∙ others "registration_time" refl refl refl refl;
        })
