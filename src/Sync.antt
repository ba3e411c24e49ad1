-- ===== src/Sync.antt =====
-- internal/sync/engine.go: the transport that signs payloads, sends them and queues them offline.
--
-- The engine's lock is held for the whole of `SendJSON` and of `Flush`, so that one runs after the
-- other. `send` gives the client the token before each use of it, and nobody reads it between.
pub mod Accepted
pub mod Fate
pub mod Fifo
pub mod Lossless
pub mod Drain
pub mod Handed
pub mod Invariant
use Prim.Native.String.{◌++◌ as ◌<>◌}
use it_portal_agent.Prelude.{
  ℕ, ◌+◌, ◌-◌, String, Bool, true, false, not, ◌&&◌, ◌||◌, Option, none, some, List, [], ◌∷◌, ◌++◌,
  ltb, leb, str_eq, if◌then◌else◌, length, take,
}
use it_portal_agent.HttpClient.{Client, new_with_options, do_request}
use it_portal_agent.Security.{set_header}
use it_portal_agent.Storage.{QueueItem, get_secret, enqueue, pending, delete_queue_item}
use it_portal_agent.Text.{Text, text, text_eq, is_empty}
use it_portal_agent.Text.Space.{trim_space, trim_slashes}
use it_portal_agent.Text.Case.{to_lower}
use it_portal_agent.World.{
  answer, failure, Err, external, wrap, not_registered, invalid_response, queued, queue_failed,
  Result, ok, err, Env, Context, Request, Response, Action, ◌>>=◌, pure, raise, catch, annotate,
  observe, is_done,
}

-- `Result` of the package.
pub record Delivery : Type 0 where
  pub status_code : ℕ
  pub body : Text
  pub latency : ℕ

pub record Engine : Type 0 where
  pub client : Client
  pub portal_url : Text
  pub compression : Text

pub record Options : Type 0 where
  pub portal_url : Text
  pub proxy : Text
  pub tls_validate : Bool
  pub compression : Text
  pub timeout : ℕ
  pub retry_delay : ℕ

-- `routeForType`; `none` is the empty route.
unfoldable pub route_for_type : String → Option String
route_for_type type =
    if str_eq type "heartbeat"
    then some "/api/agent/heartbeat"
    else if str_eq type "inventory"
    then some "/api/agent/inventory"
    else if str_eq type "software"
    then some "/api/agent/software"
    else none

-- `truncate`
unfoldable pub truncate : Text → Text
unfolding trim_space
truncate value =
    if leb (length value) 512 then trim_space value else trim_space (take 512 value) ++ text "..."

module _ (env : Env) where
  -- `New`; `lower_unicode` is `strings.ToLower` for texts that are not ASCII.
  unfoldable pub new : (Text → Text) → Options → Engine
  new lower_unicode o = record {
    client = new_with_options env (record {
      timeout = o.timeout;
      retry_delay = o.retry_delay;
      token = [];
      tls_validation = o.tls_validate;
      proxy = o.proxy;
    });
    portal_url = trim_slashes o.portal_url;
    compression = to_lower lower_unicode o.compression;
  }

  -- `encodePayload`: the body and its encoding. A write to a buffer in memory does not fail.
  unfoldable pub encode_payload : Text → Text → Text × Text
  encode_payload payload compression =
      if text_eq compression (text "gzip") then (env.gzip payload, text "gzip") else (payload, [])

  -- The request that `send` makes, with its headers.
  unfoldable pub build_request : Engine → String → Text → Text → Request
  build_request e endpoint token payload =
      let (body, encoding) = encode_payload payload e.compression in
      let url = e.portal_url ++ text endpoint in
      let plain : Request = record { method = "POST"; url = url; headers = []; body = body } in
      let typed : Request =
        set_header "Content-Type" (text "application/json")
          (set_header "Authorization" (text "Bearer " ++ token) plain) in
      if is_empty encoding then typed else set_header "Content-Encoding" encoding typed

  -- `http.NewRequestWithContext` may refuse the URL.
  unfoldable pub new_request : Engine → String → Text → Text → Action Request
  new_request e endpoint token payload = elim (env.url_error (e.portal_url ++ text endpoint)) [
    | none ↦ pure (build_request e endpoint token payload)
    | some e ↦ raise (wrap "create sync request" (external e))
  ]

  -- `queueOnFailure`
  unfoldable pub queue_on_failure : Context → String → Text → Bool → Err → Action Delivery
  queue_on_failure ctx type payload false cause = raise cause
  queue_on_failure ctx type payload true cause = do
    done ← is_done ctx
    if done then raise cause else do
      stored ← catch (enqueue env type payload)
      elim stored [ ok u ↦ raise (queued cause) | err e ↦ raise (queue_failed cause e) ]

  -- What `send` makes of the answer, from the test of its error on.
  unfoldable pub judge : Result Response → ℕ → Result Delivery
  judge (err e) latency = err (wrap "sync request" e)
  judge (ok response) latency = elim response.body [
    | failure t ↦ err (wrap "read sync response" (external t))
    | answer body ↦
        if ltb response.status_code 200 || leb 300 response.status_code
        then err (
            external (text "Portal returned " ++ (response.status ++ (text ": " ++ truncate body))))
        else if not (is_empty (trim_space body)) && not (env.json_valid body)
        then err invalid_response
        else ok (record { status_code = response.status_code; body = body; latency = latency })
  ]

  -- The token of `send`, without which nothing is sent.
  unfoldable pub require_token : Option Text → Action Text
  require_token none = raise not_registered
  require_token (some token) = if is_empty token then raise not_registered else pure token

  -- The call of the client, between two readings of the clock.
  unfoldable pub timed_request : Client → Request → Action (Result Delivery)
  timed_request c r = do
    started ← observe env.now
    response ← catch (do_request env c r)
    ended ← observe env.now
    pure (judge response (ended - started))

  -- The end of `send`.
  unfoldable pub conclude : Context → String → Text → Bool → Result Delivery → Action Delivery
  conclude ctx type payload queue (ok delivery) = pure delivery
  conclude ctx type payload queue (err cause) = queue_on_failure ctx type payload queue cause

  -- `send`, once it has its token.
  unfoldable pub deliver : Engine → Context → String → String → Text → Bool → Text → Action Delivery
  deliver e ctx endpoint type payload queue token = do
    r ← new_request e endpoint token payload
    outcome ← timed_request (record e.client { token = token }) r
    conclude ctx type payload queue outcome

  -- `send`
  unfoldable pub send : Engine → Context → String → String → Text → Bool → Action Delivery
  send e ctx endpoint type payload queue = do
    found ← get_secret env "agent_token"
    token ← require_token found
    deliver e ctx endpoint type payload queue token

  -- `SendJSON`, given what `json.Marshal` makes of the payload.
  unfoldable pub send_json : Engine → Context → String → String → Result Text → Action Delivery
  send_json e ctx endpoint type marshalled = do
    payload ← annotate (("marshal " <> type) <> " payload") (λ w. (marshalled, w))
    send e ctx endpoint type payload true

  -- The loop of `Flush` carries the count of items sent so far, which is returned beside an error
  -- too. `more` is its next round.
  unfoldable pub after_delete :
      (ℕ → Action (ℕ × Option Err)) → ℕ → Result (Unit {0}) → Action (ℕ × Option Err)
  after_delete more sent (err cause) = pure (sent, some cause)
  after_delete more sent (ok u) = more (sent + 1)

  unfoldable pub after_send :
      (ℕ → Action (ℕ × Option Err)) → ℕ → ℕ → Result Delivery → Action (ℕ × Option Err)
  after_send more id sent (err cause) = pure (sent, some cause)
  after_send more id sent (ok delivery) = do
    deleted ← catch (delete_queue_item env id)
    after_delete more sent deleted

  unfoldable pub flush_items : Engine → Context → List QueueItem → ℕ → Action (ℕ × Option Err)
  flush_items e ctx [] sent = pure (sent, none)
  flush_items e ctx (item ∷ items) sent =
      let more = flush_items e ctx items in
      elim (route_for_type item.type) [
        | none ↦ more sent
        | some endpoint ↦ do
          outcome ← catch (send e ctx endpoint item.type item.payload false)
          after_send more item.id sent outcome
      ]

  -- `Flush`: the count of items sent, and the error that ended the pass.
  unfoldable pub flush : Engine → Context → Action (ℕ × Option Err)
  flush e ctx = do
    read ← catch (pending env 100)
    elim read [ err cause ↦ pure (0, some cause) | ok items ↦ flush_items e ctx items 0 ]
