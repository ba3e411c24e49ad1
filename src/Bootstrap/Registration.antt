-- ===== src/Bootstrap/Registration.antt =====
-- What a registration of internal/bootstrap/bootstrap.go leaves, complete or cut short.
use it_portal_agent.Prelude.{
  ◌+◌, String, ◌≡◌, refl, ◌∙◌, sym, ap, Bool, true, false, ◌||◌, none, some, [], inl, inr,
  Bool-cases,
}
use it_portal_agent.Prelude.Assoc.{lookup}
use it_portal_agent.Config.{Config}
use it_portal_agent.Config.Files.{save, save-config}
use it_portal_agent.Storage.{row_value, value_of, put, put_secret}
use it_portal_agent.Storage.Settings.{get_lem, value_of-put_self}
use it_portal_agent.Text.{Text, is_empty}
use it_portal_agent.World.{
  err≢ok, Err, ok, err, result, Env, World, Action, IsQuiet, IsQuiet-next, IsQuiet-trans,
  bind-eq-ok, next, continue, ◌>>=◌, ◌>>◌, pure, ignore, ok-injective,
}
use it_portal_agent.Bootstrap.{
  Service, Codec, RegisterRequest, PortalResponse, registration_time, save_configuration,
  save_registration, complete_registration, registration_payload, request, register, registered,
  ensure_registered,
}
use it_portal_agent.Bootstrap.Saving.{put_keeps, put_secret_keeps, save_configuration-IsSaved}

or_false-left : (a b : Bool) → (a || b) ≡ false → a ≡ false
or_false-left true b h = h
or_false-left false b h = refl

module _ (env : Env) (codec : Codec) where
  registered_lem :
      (w : World) (uuid : Text)
      → value_of w "agent_uuid" ≡ some uuid
      → env.statement_error w.tick ≡ none
      → registered env codec w ≡ (ok true, next w)
  unfolding registered
  registered_lem w uuid found alive = rw (get_lem env "agent_uuid" w, alive, found)

  -- A registered agent does not register again: with its database at work, `EnsureRegistered` returns
  -- the service as it is, sends nothing and stores nothing.
  pub ensure_registered_again :
      (s : Service) (w : World) (uuid : Text)
      → value_of w "agent_uuid" ≡ some uuid
      → env.statement_error w.tick ≡ none
      → env.statement_error (w.tick + 1) ≡ none
      → ((ensure_registered env codec s w).0 ≡ ok s) × IsQuiet w (ensure_registered env codec s w).1
  unfolding ensure_registered
  ensure_registered_again s w uuid found a b = rw (registered_lem w uuid found a) (
      rw (get_lem env "portal_configuration" (next w))
        (rw b (refl, IsQuiet-trans (IsQuiet-next w) (IsQuiet-next (next w)))))

  half_saved :
      (r : PortalResponse) (w : World) (x : Err)
      → (put env "agent_uuid" r.agent_uuid w).0 ≡ ok tt
      → (put_secret env "agent_token" r.agent_token (put env "agent_uuid" r.agent_uuid w).1).0
        ≡ err x
      → ((save_registration env codec r w).0 ≡ err x)
        × (value_of (save_registration env codec r w).1 "agent_uuid" ≡ some r.agent_uuid)
  unfolding save_registration
  half_saved r w x stored failed =
      rw (stored, failed)
        (
          refl,
          put_secret_keeps env "agent_token" "agent_uuid" r.agent_token _ refl
              ∙ value_of-put_self env "agent_uuid" r.agent_uuid w stored,
        )

  -- A registration whose UUID was stored and whose token could not be stored fails with that error, and
  -- yet counts as done: in every world in which that UUID still stands, with the database at work,
  -- `EnsureRegistered` succeeds, and sends and stores nothing.
  pub registration_cut_short :
      (s : Service) (r : PortalResponse) (w u : World) (x : Err)
      → (put env "agent_uuid" r.agent_uuid w).0 ≡ ok tt
      → (put_secret env "agent_token" r.agent_token (put env "agent_uuid" r.agent_uuid w).1).0
        ≡ err x
      → value_of u "agent_uuid" ≡ value_of (save_registration env codec r w).1 "agent_uuid"
      → env.statement_error u.tick ≡ none
      → env.statement_error (u.tick + 1) ≡ none
      → ((save_registration env codec r w).0 ≡ err x)
        × ((ensure_registered env codec s u).0 ≡ ok s)
        × (IsQuiet u (ensure_registered env codec s u).1)
  registration_cut_short s r w u x stored failed kept a b =
      let (fails, uuid) = half_saved r w x stored failed in
      let (done, quiet) = ensure_registered_again s u r.agent_uuid (kept ∙ uuid) a b in
      (fails, done, quiet)

  registration_time-keeps :
      (r : PortalResponse) (w : World) (j : String)
      → value_of (registration_time env codec r w).1 j ≡ value_of w j
  unfolding registration_time
  registration_time-keeps r w j = elim (Bool-cases (is_empty r.registration_time)) [
    | inl e ↦ rw e refl
    | inr e ↦ rw e refl
  ]

  -- A complete `saveRegistration` leaves the UUID of the answer.
  saved_uuid :
      (r : PortalResponse) (w : World)
      → (save_registration env codec r w).0 ≡ ok tt
      → value_of (save_registration env codec r w).1 "agent_uuid" ≡ some r.agent_uuid
  unfolding save_registration
  saved_uuid r w h =
      let m1 : Action (Unit {0}) = put env "agent_uuid" r.agent_uuid in
      let m2 : Action (Unit {0}) = put_secret env "agent_token" r.agent_token in
      let m5 : Text → Action (Unit {0}) =
        λ time. save_configuration env codec (record r { registration_time = time }) in
      let m4 : Text → Action (Unit {0}) = λ time. put env "registration_time" time >> m5 time in
      let (_, e1, h1) = bind-eq-ok m1 (λ _. m2 >> (registration_time env codec r >>= m4)) w tt h in
      let w1 : World = (m1 w).1 in
      let (_, e2, h2) = bind-eq-ok m2 (λ _. registration_time env codec r >>= m4) w1 tt h1 in
      let w2 : World = (m2 w1).1 in
      let (time, e3, h3) = bind-eq-ok (registration_time env codec r) m4 w2 tt h2 in
      let w3 : World = (registration_time env codec r w2).1 in
      let (_, e4, h4) = bind-eq-ok (put env "registration_time" time) (λ _. m5 time) w3 tt h3 in
      let w4 : World = (put env "registration_time" time w3).1 in
      rw (e1, e2, e3, e4, continue)
        ((save_configuration-IsSaved env codec (record r { registration_time = time }) w4 h4).uuid
          ∙ put_keeps env "registration_time" "agent_uuid" time w3 refl
          ∙ registration_time-keeps r w2 "agent_uuid"
          ∙ put_secret_keeps env "agent_token" "agent_uuid" r.agent_token w1 refl
          ∙ value_of-put_self env "agent_uuid" r.agent_uuid w e1)

  -- A registration that was taken through: the agent has a UUID, and no enrollment key.
  pub record IsRegistered (s : Service) (w : World) : Type 0 where
    pub uuid : Text
    pub stored : value_of w "agent_uuid" ≡ some uuid
    pub named : is_empty uuid ≡ false
    pub cleared : s.config.enrollment_key ≡ []

  complete_registration-IsRegistered :
      (s t : Service) (r : PortalResponse) (w : World)
      → (complete_registration env codec s r w).0 ≡ ok t
      → IsRegistered t (complete_registration env codec s r w).1
  unfolding complete_registration
  complete_registration-IsRegistered s t r w h =
      elim (Bool-cases (is_empty r.agent_uuid || is_empty r.agent_token)) [
        | inl e ↦ absurd (err≢ok (rw e at h))
        | inr e ↦
            let cfg : Config = record s.config { enrollment_key = [] } in
            let s' : Service = record s { config = cfg } in
            let tail : Unit {0} → Action Service = λ _. ignore (save env cfg) >> pure s' in
            let (_, e1, h1) = bind-eq-ok (save_registration env codec r) tail w t (rw e at h) in
            let v : World = (save_registration env codec r w).1 in
            rw (e, e1, continue)
              (record {
                uuid = r.agent_uuid;
                stored =
                    ap (λ c. row_value (lookup "agent_uuid" c)) (save-config env cfg v)
                    ∙ saved_uuid r w e1;
                named = or_false-left (is_empty r.agent_uuid) (is_empty r.agent_token) e;
                cleared = ap (λ x. x.config.enrollment_key) (sym (ok-injective h1));
              })
      ]

  -- Where `Register` returns, the agent has a UUID that is not empty, and the service that it returns
  -- has no enrollment key any more.
  pub register-IsRegistered :
      (s t : Service) (w : World)
      → (register env codec s w).0 ≡ ok t
      → IsRegistered t (register env codec s w).1
  unfolding register
  register-IsRegistered s t w h = elim (Bool-cases (is_empty s.config.enrollment_key)) [
    | inl e ↦ absurd (err≢ok (rw e at h))
    | inr e ↦
        let ask : RegisterRequest → Action PortalResponse =
          λ p. request env codec s "POST" "/api/agent/register" [] (result (codec.marshal p)) in
        let tail : RegisterRequest → Action Service =
          λ p. ask p >>= complete_registration env codec s in
        let (p, e1, h1) = bind-eq-ok (registration_payload env codec s) tail w t (rw e at h) in
        let w1 : World = (registration_payload env codec s w).1 in
        let (r, e2, h2) = bind-eq-ok (ask p) (complete_registration env codec s) w1 t h1 in
        rw (e, e1, e2, continue) (complete_registration-IsRegistered s t r (ask p w1).1 h2)
  ]
