-- ===== src/Sync/Lossless.antt =====
-- A payload that is handed to `SendJSON` of internal/sync/engine.go while the database works.
use it_portal_agent.Prelude.{
  ℕ, ◌+◌, String, ◌≡◌, refl, ◌∙◌, sym, ◌⊎◌, inl, inr, true, false, none, some, [], ◌∷◌, ◌++◌,
}
use mathlib.Core.Bool.{false≢true}
use it_portal_agent.HttpClient.{Client}
use it_portal_agent.Storage.{get_secret}
use it_portal_agent.Storage.Effects.{enqueue_lem}
use it_portal_agent.Text.{Text, text}
use it_portal_agent.World.{
  is_queued, Result, ok, err, Env, Context, Request, World, SameStore, catch, observe, is_done,
  next,
}
use it_portal_agent.Sync.{
  Delivery, Engine, encode_payload, build_request, new_request, queue_on_failure, require_token,
  timed_request, conclude, deliver, send, send_json,
}
use it_portal_agent.Sync.Accepted.{accepted_bodies}
use it_portal_agent.Sync.Fate.{
  Fate, delivered, kept, refused, IsEnqueued, IsTimed, timed_request_lem, send_json-Fate,
}

-- Delivered or queued.
abbrev IsSettled : Result Delivery → Type 0
IsSettled (ok d) = Unit
IsSettled (err x) = is_queued x ≡ true

module _ (env : Env) (e : Engine) (ctx : Context) (live : (n : ℕ) → ctx n ≡ false)
    (sound : (n : ℕ) → env.statement_error n ≡ none) where
  conclude-IsSettled :
      (type : String) (payload : Text) (outcome : Result Delivery) (w : World)
      → IsSettled (conclude env ctx type payload true outcome w).0
  unfolding conclude queue_on_failure
  conclude-IsSettled type payload (ok d) w = tt
  conclude-IsSettled type payload (err x) w =
      rw (live w.tick, is_done, observe)
        (rw (enqueue_lem env type payload (next w), catch) (rw (sound (w.tick + 1 + 1)) refl))

  deliver-IsSettled :
      (endpoint type : String) (payload token : Text) (w : World)
      → env.url_error (e.portal_url ++ text endpoint) ≡ none
      → IsSettled (deliver env e ctx endpoint type payload true token w).0
  unfolding deliver
  deliver-IsSettled endpoint type payload token w u =
      let r : Request = build_request env e endpoint token payload in
      let c : Client = record e.client { token = token } in
      let t : IsTimed env r w (timed_request env c r w) = timed_request_lem env c r w in
      unfold new_request in
      rw (u, new_request) (rw t.returns (conclude-IsSettled type payload t.outcome _))

  -- In an environment whose statements never fail, and with a context that never ends: a payload that is handed to `SendJSON` while the token can be read, the URL is well formed, the
  -- context lives and the database works is accepted by the Portal or stands last in the queue,
  -- whatever the network does.
  pub send_json_lossless :
      (endpoint type : String) (payload : Text) (b : ℕ) (t : Text) (w : World)
      → (get_secret env "agent_token" w).0 ≡ ok (some (b ∷ t))
      → env.url_error (e.portal_url ++ text endpoint) ≡ none
      → let out = send_json env e ctx endpoint type (ok payload) w in
        ((accepted_bodies env out.1.events
            ≡ accepted_bodies env w.events ++ ((encode_payload env payload e.compression).0 ∷ []))
          × SameStore w out.1)
        ⊎ (IsEnqueued env type payload w out.1)
  send_json_lossless endpoint type payload b t w token url =
      go (send_json-Fate env e ctx endpoint type payload w) settled
    where
      settled : IsSettled (send_json env e ctx endpoint type (ok payload) w).0
      settled =
          unfold send_json send require_token in
          rw token (deliver-IsSettled endpoint type payload (b ∷ t) _ url)

      go :
          {r : Result Delivery} {v : World}
          → Fate env e type payload true w r v
          → IsSettled r
          → ((accepted_bodies env v.events
                ≡ accepted_bodies env w.events
                  ++ ((encode_payload env payload e.compression).0 ∷ []))
              × SameStore w v)
            ⊎ (IsEnqueued env type payload w v)
      go (delivered bodies same) h = inl (bodies, same)
      go (kept on x bodies n) h = inr n
      go (refused x bodies same) h = absurd (false≢true (sym x ∙ h))
