-- ===== src/Software/Engine/Outcome.antt =====
-- The report of a run of internal/software/engine.go.
use it_portal_agent.Prelude.{
  ℕ, String, ◌≡◌, refl, sym, ap, ◌∙◌, true, false, Option, none, some, List, [], ◌∷◌, inl, inr,
  Bool-cases, ◌+◌,
}
use it_portal_agent.Bootstrap.Saving.{put_keeps}
use it_portal_agent.FloatingPoint.{Floats}
use it_portal_agent.Software.{Installation, normalize_and_deduplicate}
use it_portal_agent.Software.Engine.{
  Payload, Report, Run, Tools, payload_fingerprint, conclude_run, upload_items, submit, process,
  run_as, run_once,
}
use it_portal_agent.Storage.{get, put, text_or_empty, statement, value_of}
use it_portal_agent.Storage.Effects.{get-IsPlain, get-IsQuiet}
use it_portal_agent.Storage.Settings.{get_lem, value_of-put_self}
use it_portal_agent.Sync
use it_portal_agent.Sync.{Delivery, flush, send_json}
use it_portal_agent.Sync.Accepted.{accepted_bodies}
use it_portal_agent.Sync.Fate.{Fate, delivered, kept, refused, send_json-Fate}
use it_portal_agent.Sync.Handed.{
  IsWaiting, IsWaiting-silent, IsDelivered, IsEnqueued-IsWaiting, Fate-config, Fate-after,
  value_kept, flush-config, put-IsSilent,
}
use it_portal_agent.Text.{Text, text_eq, text_eq_iff}
use it_portal_agent.Text.Numbers.{hex}
use it_portal_agent.World.{
  Err, is_queued, answer, answer_of_result, result, result-IsPlain, Result, ok, err, IsPlain, Env,
  Context, World, is_done, observe, catch, next,
}

-- The value under which the last fingerprint is stored.
abbrev pub last_fingerprint : World → Option Text
last_fingerprint w = value_of w "software_last_fingerprint"

module _ {F : Type 0} (tools : Tools F) (env : Env) (e : Sync.Engine) where
  -- The items of the payload are the inventory of what the collector gave at some moment, and the
  -- fingerprint is the hash of the UUID and the items.
  pub record IsTaken (p : Payload) (fp : Text) : Type 0 where
    pub moment : ℕ
    pub found : List Installation
    pub collected : tools.collect moment ≡ answer found
    pub items : p.items ≡ normalize_and_deduplicate env.sha256 tools.lower_unicode found
    pub hash : fp ≡ hex (env.sha256 (tools.marshal_identity p.agent_uuid p.items))

  -- The text is the JSON of a payload with this fingerprint.
  pub record IsMarshalled (t fp : Text) : Type 0 where
    pub p : Payload
    pub encoded : ok t ≡ result (tools.marshal p)
    pub taken : IsTaken p fp

  -- The report of a run that returned is as its result says, given the fingerprint that was stored
  -- before the run: behind SENT the last body that the Portal accepted is that of the inventory, and
  -- behind QUEUED its payload is the last row of the queue; in both cases its fingerprint is stored.
  -- Behind SKIPPED it was stored before, and behind FAILED the stored one is the old one. The error
  -- behind QUEUED is `ErrQueued`, and that behind FAILED is another.
  pub data IsReport (old : Option Text) (r : Report) (w : World) : Option Err → Type 0 where
    sent :
        (t : Text)
        → IsMarshalled t r.fingerprint
        → IsDelivered env e t w
        → r.result ≡ "SENT"
        → last_fingerprint w ≡ some r.fingerprint
        → IsReport old r w none
    skipped :
        (p : Payload)
        → IsTaken p r.fingerprint
        → r.result ≡ "SKIPPED"
        → text_or_empty (ok (last_fingerprint w)) ≡ r.fingerprint
        → last_fingerprint w ≡ old
        → IsReport old r w none
    queued :
        {x : Err} (t : Text)
        → IsMarshalled t r.fingerprint
        → IsWaiting "software" t w
        → r.result ≡ "QUEUED"
        → is_queued x ≡ true
        → last_fingerprint w ≡ some r.fingerprint
        → IsReport old r w (some x)
    failed :
        {x : Err}
        → r.result ≡ "FAILED"
        → is_queued x ≡ false
        → last_fingerprint w ≡ old
        → IsReport old r w (some x)

  abbrev pub IsConcluded : Option Text → Result Run × World → Type 0
  IsConcluded old (ok (r, x), w) = IsReport old r w x
  IsConcluded old (err x, w) = ⊥

module _ {F : Type 0} (fl : Floats F) (tools : Tools F) (env : Env)
    (sound : (n : ℕ) → env.statement_error n ≡ none) where
  put-ok : (key : String) (value : Text) (w : World) → (put env key value w).0 ≡ ok tt
  unfolding put
  put-ok key value w = rw (sound w.tick, statement) refl

  stored :
      (value : Text) (w : World)
      → last_fingerprint (put env "software_last_fingerprint" value w).1 ≡ some value
  stored value w =
      value_of-put_self env "software_last_fingerprint" value w
        (put-ok "software_last_fingerprint" value w)

  module _ (e : Sync.Engine) (ctx : Context) (old : Option Text) where
    abbrev IsFine : Result Run × World → Type 0
    IsFine = IsConcluded tools env e old

    conclude_run-IsFine :
        (r : Report) (t : Text) (outcome : Result Delivery) (v w : World)
        → IsMarshalled tools env e t r.fingerprint
        → Fate env e "software" t true v outcome w
        → last_fingerprint w ≡ old
        → IsFine (conclude_run fl tools env r outcome w)
    unfolding conclude_run
    conclude_run-IsFine r t (err x) v w m (kept on q bodies n) k = rw q (
        queued t m
          (IsWaiting-silent (put-IsSilent env "software_last_fingerprint" r.fingerprint w)
            (IsEnqueued-IsWaiting env n))
          refl q (stored r.fingerprint w))
    conclude_run-IsFine r t (err x) v w m (refused q bodies same) k = rw q (failed refl q k)
    conclude_run-IsFine r t (ok d) v w m (delivered bodies same) k =
        let u : World = (put env "software_last_fingerprint" r.fingerprint w).1 in
        sent t m
          (record {
            before = accepted_bodies env v.events;
            accepted =
                ap (accepted_bodies env) (
                  (put-IsSilent env "software_last_success" _ (next u)).events
                  ∙ (put-IsSilent env "software_last_fingerprint" r.fingerprint w).events)
                ∙ bodies;
          })
          refl
          (put_keeps env "software_last_success" "software_last_fingerprint" _ (next u) refl
            ∙ stored r.fingerprint w)

    upload_items-IsFine :
        (d : ℕ) (p : Payload) (encoded : Text) (w : World)
        → ok encoded ≡ result (tools.marshal p)
        → IsTaken tools env e p (payload_fingerprint fl tools env p)
        → last_fingerprint w ≡ old
        → IsFine (upload_items fl tools env e ctx d p encoded w)
    unfolding upload_items
    upload_items-IsFine d p encoded w q t k =
        let fate = send_json-Fate env e ctx "/api/agent/software" "software" encoded (next w) in
        let v : World =
          (send_json env e ctx "/api/agent/software" "software" (ok encoded) (next w)).1 in
        rw (sym q) (
          conclude_run-IsFine _ encoded _ (next w) (next v)
            (record { p = p; encoded = q; taken = t }) (Fate-after env fate)
            (value_kept (next w) v "software_last_fingerprint" (Fate-config env fate) k))

    submit-IsFine :
        (d : ℕ) (p : Payload) (encoded : Result Text) (w : World)
        → IsPlain encoded
        → encoded ≡ result (tools.marshal p)
        → IsTaken tools env e p (payload_fingerprint fl tools env p)
        → last_fingerprint w ≡ old
        → IsFine (submit fl tools env e ctx d p encoded w)
    unfolding submit
    submit-IsFine d p (err x) w h q t k = failed refl h k
    submit-IsFine d p (ok encoded) w h q t k =
        let last : Text = text_or_empty (ok (value_of w "software_last_fingerprint")) in
        elim (Bool-cases (text_eq last (payload_fingerprint fl tools env p))) [
          | inl s ↦
              rw (get_lem env "software_last_fingerprint" w, catch, sound w.tick, s)
                (skipped p t refl ((text_eq_iff last (payload_fingerprint fl tools env p)).0 s) k)
          | inr s ↦
              rw (get_lem env "software_last_fingerprint" w, catch, sound w.tick, s)
                (upload_items-IsFine d p encoded (next w) q t k)
        ]

    process-IsFine :
        (started moment : ℕ) (uuid : Text) (found : Result (List Installation)) (w : World)
        → IsPlain found
        → found ≡ result (tools.collect moment)
        → last_fingerprint w ≡ old
        → IsFine (process fl tools env e ctx started uuid found w)
    unfolding process
    process-IsFine started moment uuid (err x) w h q k = failed refl h k
    process-IsFine started moment uuid (ok found) w h q k =
        submit-IsFine _ _ _ _ (result-IsPlain _) refl
          (record {
            moment = moment;
            found = found;
            collected = answer_of_result (tools.collect moment) found (sym q);
            items = refl;
            hash = unfold payload_fingerprint in refl;
          })
          k

    run_as-IsFine :
        (uuid : Result (Option Text)) (w : World)
        → IsPlain uuid
        → last_fingerprint w ≡ old
        → IsFine (run_as fl tools env e ctx uuid w)
    unfolding run_as
    run_as-IsFine (err x) w h k = failed refl h k
    run_as-IsFine (ok none) w h k = failed refl refl k
    run_as-IsFine (ok (some [])) w h k = failed refl refl k
    run_as-IsFine (ok (some (b ∷ t))) w h k =
        process-IsFine _ (w.tick + 1) _ _ _ (result-IsPlain (tools.collect (w.tick + 1))) refl k

  -- With a database that works, `RunOnce` returns a report that is as it says, whatever the network
  -- and the collector do. Behind SENT the last body that the Portal accepted is that of a payload whose
  -- items are the inventory of what was collected, and behind QUEUED this payload is the last row of the
  -- queue; behind both its fingerprint, the hash of the UUID and the items, is then the stored one.
  -- Behind SKIPPED it was stored before. Behind FAILED the stored fingerprint stays as it was. An error
  -- is returned behind QUEUED, where it is `ErrQueued`, and FAILED, where it is another.
  pub run_once-IsConcluded :
      (e : Sync.Engine) (ctx : Context) (w : World)
      → IsConcluded tools env e (last_fingerprint w) (run_once fl tools env e ctx w)
  unfolding run_once
  run_once-IsConcluded e ctx w = elim (Bool-cases (ctx w.tick)) [
    | inl d ↦ rw (d, is_done, observe) (failed refl refl refl)
    | inr d ↦
        let v : World = (flush env e ctx (next w)).1 in
        rw (d, is_done, observe)
          (run_as-IsFine e ctx (last_fingerprint w) (get env "agent_uuid" v).0
            (get env "agent_uuid" v).1 (get-IsPlain env "agent_uuid" v)
            (value_kept (next w) (get env "agent_uuid" v).1 "software_last_fingerprint"
              ((get-IsQuiet env "agent_uuid" v).same.config ∙ flush-config env e ctx (next w))
              refl))
  ]
