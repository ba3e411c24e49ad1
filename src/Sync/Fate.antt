-- ===== src/Sync/Fate.antt =====
-- One payload through `send` of internal/sync/engine.go.
use it_portal_agent.Prelude.{
  ◌-◌, ℕ, ◌+◌, String, ◌≡◌, refl, ◌∙◌, sym, ap, Bool, true, false, Option, none, some, List, [],
  ◌∷◌, ◌++◌, arith, inl, inr, Bool-cases, Option-cases,
}
use mathlib.Core.List.{append-nil}
use it_portal_agent.HttpClient.{Client, do_request}
use it_portal_agent.Storage.{next_id, get_secret}
use it_portal_agent.Storage.Effects.{
  get_secret-IsPlain, get_secret-IsQuiet, queued_row, enqueue_lem,
}
use it_portal_agent.Security.{set_header}
use it_portal_agent.Text.{Text, text}
use it_portal_agent.World.{
  is_queued, IsPlain, Err, Result, ok, err, Env, Context, Request, Response, QueueRow, World,
  SameStore, SameStore-refl, SameStore-next, SameStore-trans, IsQuiet, continue, catch, next, ◌>>=◌,
  observe, is_done,
}
use it_portal_agent.Sync.{
  Delivery, Engine, judge, encode_payload, build_request, new_request, conclude, deliver,
  queue_on_failure, require_token, timed_request, send, send_json,
}
use it_portal_agent.Sync.Accepted.{
  is_ok, when, accepted_bodies, judge-is_ok, judge-IsPlain, do_request-accepted,
}

module _ (env : Env) where
  abbrev pub accepted : World → List Text
  accepted w = accepted_bodies env w.events

  -- The queue has one more row, at its end, and nothing else of the store has changed.
  pub record IsEnqueued (type : String) (payload : Text) (w v : World) : Type 0 where
    pub row : QueueRow
    pub queue : v.queue ≡ w.queue ++ (row ∷ [])
    pub type_of : row.type ≡ type
    pub payload_of : row.payload ≡ payload
    pub status : row.status ≡ "pending"
    pub id : row.id ≡ next_id w.queue
    pub config : v.config ≡ w.config
    pub history : v.history ≡ w.history
    pub config_file : v.config_file ≡ w.config_file

  -- What becomes of a payload that is handed over in world `w`, by the answer and the world after:
  -- the Portal accepted its body and the store is as it was; or the error is `ErrQueued`, the Portal
  -- accepted nothing and the payload is the last row of the queue, which is only where queueing is
  -- wanted; or the error is another one, and nothing is accepted or stored.
  pub data Fate (e : Engine) (type : String) (payload : Text) (queue : Bool) (w : World)
      : Result Delivery → World → Type 0 where
    delivered :
        {d : Delivery} {v : World}
        → accepted v ≡ accepted w ++ ((encode_payload env payload e.compression).0 ∷ [])
        → SameStore w v
        → Fate e type payload queue w (ok d) v
    kept :
        {x : Err} {v : World}
        → queue ≡ true
        → is_queued x ≡ true
        → accepted v ≡ accepted w
        → IsEnqueued type payload w v
        → Fate e type payload queue w (err x) v
    refused :
        {x : Err} {v : World}
        → is_queued x ≡ false
        → accepted v ≡ accepted w
        → SameStore w v
        → Fate e type payload queue w (err x) v

  -- The exchange of `send`: accepted exactly where it gives a delivery.
  pub record IsTimed (r : Request) (w : World) (out : Result (Result Delivery) × World)
      : Type 0 where
    pub outcome : Result Delivery
    pub returns : out.0 ≡ ok outcome
    pub bodies : accepted out.1 ≡ accepted w ++ when (is_ok outcome) r.body
    pub plain : IsPlain outcome
    pub same : SameStore w out.1

  pub timed_request_lem :
      (c : Client) (r : Request) (w : World) → IsTimed r w (timed_request env c r w)
  unfolding timed_request
  timed_request_lem c r w =
      let out : Result Response × World = do_request env c r (next w) in
      let (bodies, plain, same) = do_request-accepted env c r (next w) in
      let latency : ℕ = env.now out.1.tick - env.now w.tick in
      record {
        outcome = judge env out.0 latency;
        returns = refl;
        bodies =
            bodies ∙ ap (λ b. accepted w ++ when b r.body) (sym (judge-is_ok env out.0 latency));
        plain = judge-IsPlain env out.0 latency plain;
        same = record {
          config = same.config;
          queue = same.queue;
          history = same.history;
          config_file = same.config_file;
        };
      }

  build_request-body :
      (e : Engine) (endpoint : String) (token payload : Text)
      → (build_request env e endpoint token payload).body
        ≡ (encode_payload env payload e.compression).0
  unfolding build_request set_header
  build_request-body e endpoint token payload = ground arith

  enqueued_lem :
      (type : String) (payload : Text) (w u v : World)
      → SameStore w u
      → v.queue ≡ u.queue ++ (queued_row env type payload u ∷ [])
      → v.config ≡ u.config
      → v.history ≡ u.history
      → v.config_file ≡ u.config_file
      → IsEnqueued type payload w v
  unfolding queued_row
  enqueued_lem type payload w u v same q c h f = record {
    row = queued_row env type payload u;
    queue = q ∙ ap (λ l. l ++ (queued_row env type payload u ∷ [])) same.queue;
    type_of = refl;
    payload_of = refl;
    status = refl;
    id = ap next_id same.queue;
    config = c ∙ same.config;
    history = h ∙ same.history;
    config_file = f ∙ same.config_file;
  }

  -- Offline, with the cause at hand: the payload is kept, or the cause is the error.
  queue_on_failure_lem :
      (e : Engine) (ctx : Context) (type : String) (payload : Text) (queue : Bool) (x : Err)
      → is_queued x ≡ false
      → (w v : World) → accepted v ≡ accepted w
      → SameStore w v
      → let out = queue_on_failure env ctx type payload queue x v in
        Fate e type payload queue w out.0 out.1
  unfolding queue_on_failure
  queue_on_failure_lem e ctx type payload false x plain w v bodies same = refused plain bodies same
  queue_on_failure_lem e ctx type payload true x plain w v bodies same =
      elim (Bool-cases (ctx v.tick)) [
        | inl d ↦ rw (d, is_done, observe) (refused plain bodies (SameStore-next same))
        | inr d ↦ elim (Option-cases (env.statement_error (v.tick + 1 + 1))) [
          | inl m ↦
              rw (d, is_done, observe)
                (rw (enqueue_lem env type payload (next v), catch)
                  (rw m (
                    kept refl refl bodies (
                      enqueued_lem type payload w (next v) _ (SameStore-next same) refl refl refl
                        refl))))
          | inr (t, m) ↦
              rw (d, is_done, observe)
                (rw (enqueue_lem env type payload (next v), catch)
                  (rw m
                    (refused plain bodies (SameStore-next (SameStore-next (SameStore-next same))))))
        ]
      ]

  conclude_lem :
      (e : Engine) (ctx : Context) (type : String) (payload : Text) (queue : Bool) (r : Request)
      → r.body ≡ (encode_payload env payload e.compression).0
      → (w v : World) (outcome : Result Delivery)
      → accepted v ≡ accepted w ++ when (is_ok outcome) r.body
      → IsPlain outcome
      → SameStore w v
      → let out = conclude env ctx type payload queue outcome v in
        Fate e type payload queue w out.0 out.1
  unfolding conclude
  conclude_lem e ctx type payload queue r body w v (ok d) bodies plain same =
      delivered (bodies ∙ ap (λ b. accepted w ++ (b ∷ [])) body) same
  conclude_lem e ctx type payload queue r body w v (err x) bodies plain same =
      queue_on_failure_lem e ctx type payload queue x plain w v (bodies ∙ append-nil _) same

  deliver_lem :
      (e : Engine) (ctx : Context) (endpoint type : String) (payload : Text) (queue : Bool)
      (token : Text) (w : World)
      → let out = deliver env e ctx endpoint type payload queue token w in
        Fate e type payload queue w out.0 out.1
  unfolding deliver new_request
  deliver_lem e ctx endpoint type payload queue token w =
      elim (Option-cases (env.url_error (e.portal_url ++ text endpoint))) [
        | inl u ↦
            let r : Request = build_request env e endpoint token payload in
            let t : IsTimed r w (timed_request env (record e.client { token = token }) r w) =
              timed_request_lem (record e.client { token = token }) r w in
            rw (u, new_request)
              (rw t.returns (
                conclude_lem e ctx type payload queue r
                  (build_request-body e endpoint token payload) w _ t.outcome t.bodies t.plain
                  t.same))
        | inr (t, u) ↦ rw (u, new_request) (refused refl refl (SameStore-refl w))
      ]

  -- The same fate, from a world that differs by the moment only.
  Fate-before :
      {e : Engine} {type : String} {payload : Text} {queue : Bool} {w u v : World}
      {r : Result Delivery}
      → IsQuiet w u
      → Fate e type payload queue u r v
      → Fate e type payload queue w r v
  Fate-before {e} {payload} q (delivered bodies same) =
      delivered
        (bodies
          ∙ ap (λ l. accepted_bodies env l ++ ((encode_payload env payload e.compression).0 ∷ []))
              q.events)
        (SameStore-trans q.same same)
  Fate-before q (kept on x bodies n) =
      kept on x (bodies ∙ ap (accepted_bodies env) q.events) (record {
        row = n.row;
        queue = n.queue ∙ ap (λ l. l ++ (n.row ∷ [])) q.same.queue;
        type_of = n.type_of;
        payload_of = n.payload_of;
        status = n.status;
        id = n.id ∙ ap next_id q.same.queue;
        config = n.config ∙ q.same.config;
        history = n.history ∙ q.same.history;
        config_file = n.config_file ∙ q.same.config_file;
      })
  Fate-before q (refused x bodies same) =
      refused x (bodies ∙ ap (accepted_bodies env) q.events) (SameStore-trans q.same same)

  with_token :
      (e : Engine) (ctx : Context) (endpoint type : String) (payload : Text) (queue : Bool)
      (found : Result (Option Text)) (u : World)
      → IsPlain found
      → let out =
          continue found
            (λ t. require_token env t >>= deliver env e ctx endpoint type payload queue)
            u in
        Fate e type payload queue u out.0 out.1
  unfolding require_token
  with_token e ctx endpoint type payload queue (err x) u plain =
      refused plain refl (SameStore-refl u)
  with_token e ctx endpoint type payload queue (ok none) u plain =
      refused refl refl (SameStore-refl u)
  with_token e ctx endpoint type payload queue (ok (some [])) u plain =
      refused refl refl (SameStore-refl u)
  with_token e ctx endpoint type payload queue (ok (some (b ∷ t))) u plain =
      deliver_lem e ctx endpoint type payload queue (b ∷ t) u

  -- Every call of `send` ends in one of three ways: it returns, the Portal has accepted the body once
  -- more and the store is unchanged; or its error is `ErrQueued`, queueing was asked for, nothing was
  -- accepted and the payload is the new last row of the queue; or its error is another one, and
  -- nothing was accepted or stored.
  pub send-Fate :
      (e : Engine) (ctx : Context) (endpoint type : String) (payload : Text) (queue : Bool)
      (w : World)
      → let out = send env e ctx endpoint type payload queue w in
        Fate e type payload queue w out.0 out.1
  unfolding send
  send-Fate e ctx endpoint type payload queue w =
      Fate-before (get_secret-IsQuiet env "agent_token" w) (
        with_token e ctx endpoint type payload queue (get_secret env "agent_token" w).0
          (get_secret env "agent_token" w).1 (get_secret-IsPlain env "agent_token" w))

  -- So has every call of `SendJSON` whose payload can be marshalled.
  pub send_json-Fate :
      (e : Engine) (ctx : Context) (endpoint type : String) (payload : Text) (w : World)
      → let out = send_json env e ctx endpoint type (ok payload) w in
        Fate e type payload true w out.0 out.1
  unfolding send_json
  send_json-Fate e ctx endpoint type payload w = send-Fate e ctx endpoint type payload true w
