-- ===== src/Tests/Transport.antt =====
-- The transport: one exchange, one payload, one pass over the queue.
use it_portal_agent.Prelude.{◌+◌, ◌≤◌, ◌≡◌, ◌⊎◌, refl, true, some, [], ◌∷◌, ◌++◌, arith}
use it_portal_agent.Prelude.Assoc.{lookup}
use it_portal_agent.Base64
use it_portal_agent.HttpClient.{do_request}
use it_portal_agent.HttpClient.Attempts.{IsSeries, do_request-IsSeries, exchanges, do_request_bound}
use it_portal_agent.Security.{unix, canonical, signature, signed, sign_request}
use it_portal_agent.Security.Verify.{IsSignedBy, sign_request-IsSignedBy}
use it_portal_agent.Storage.{
  pending, scan_rows, pending_rows, sort_by_id, insert_by_id, scanned, put, get, put_secret,
  get_secret, open_secret, protect_secret, unprotect_secret, value_of,
}
use it_portal_agent.Storage.Page.{IsPage, pending-IsPage}
use it_portal_agent.Storage.Settings.{value_of-put}
use it_portal_agent.Storage.Secrets.{get_secret-put_secret}
use it_portal_agent.Storage.Queue.{IsQueue}
use it_portal_agent.Sync.{route_for_type, encode_payload, send, flush, send_json}
use it_portal_agent.Sync.Accepted.{accepted_bodies}
use it_portal_agent.Sync.Fate.{Fate, IsEnqueued, send-Fate}
use it_portal_agent.Sync.Fifo.{IsPass, IsRouted, flush-IsPass}
use it_portal_agent.Sync.Invariant.{IsSound, here, next, sent, flushed, Reach-IsSound}
use it_portal_agent.Sync.Lossless.{send_json_lossless}
use it_portal_agent.Text.{text}
use it_portal_agent.Text.Numbers.{print_decimal, digits, hex, hex_digit}
use it_portal_agent.World.{World, ok, background, SameStore}
use it_portal_agent.Tests.{row, env, env-IsDataProtection, engine, client, ping, waiting}

waiting-IsQueue : IsQueue waiting.queue
waiting-IsQueue = (refl, (omega arith, tt), (refl, tt, tt))

waiting-IsRouted : IsRouted waiting.queue
unfolding route_for_type
waiting-IsRouted = (λ m. cc, (λ m. cc, tt))

flush-IsPass_example :
    IsPass env engine 100 0 waiting.queue waiting (flush env engine background waiting)
flush-IsPass_example = flush-IsPass env engine background waiting waiting-IsQueue waiting-IsRouted

send-Fate_example :
    Fate env engine "inventory"
      (text "report")
      true
      waiting
      (send env engine background "/api/agent/inventory" "inventory" (text "report") true waiting).0
      (send env engine background "/api/agent/inventory" "inventory" (text "report") true waiting).1
send-Fate_example =
    send-Fate env engine background "/api/agent/inventory" "inventory" (text "report") true waiting

do_request-IsSeries_example :
    IsSeries env client ping 3 waiting (do_request env client ping waiting)
do_request-IsSeries_example = do_request-IsSeries env client ping waiting

do_request_bound_example :
    (exchanges (do_request env client ping waiting).1.events
      ≤ exchanges waiting.events + client.retries + 1)
    × SameStore waiting (do_request env client ping waiting).1
do_request_bound_example = do_request_bound env client ping waiting

sign_request-IsSignedBy_example :
    IsSignedBy env (text "token") ping (signed env (text "token") (text "4") (text "00ab") ping)
unfolding sign_request signed signature canonical print_decimal digits unix hex hex_digit
sign_request-IsSignedBy_example =
    sign_request-IsSignedBy env (text "token") (env.now 4) ping
      (signed env (text "token") (text "4") (text "00ab") ping) waiting refl

get_secret-put_secret_example :
    (get_secret env "agent_token" (put_secret env "agent_token" (text "new") waiting).1).0
    ≡ ok (some (text "new"))
get_secret-put_secret_example =
    get_secret-put_secret env env-IsDataProtection "agent_token" (text "new") waiting
      (put_secret env "agent_token" (text "new") waiting).1
      (unfold put_secret protect_secret put Base64.encode Base64.letter in refl) refl refl

-- A table out of order, with a row that does not wait.
abbrev mixed : World
mixed = record waiting {
  queue =
      row 5 (text "second")
      ∷ record (row 1 (text "old")) { status = "failed" }
      ∷ row 3 (text "first")
      ∷ [];
}

pending-IsPage_example : IsPage env 1 mixed.queue (scanned env (row 3 (text "first")) ∷ [])
pending-IsPage_example =
    pending-IsPage env 1 mixed (scanned env (row 3 (text "first")) ∷ [])
      (unfold pending scan_rows pending_rows sort_by_id insert_by_id in refl)

value_of-put_example :
    value_of (put env "agent_uuid" (text "uuid-2") waiting).1 "agent_uuid" ≡ some (text "uuid-2")
value_of-put_example = value_of-put env "agent_uuid" "agent_uuid" (text "uuid-2") waiting

send_json_lossless_example :
    let out =
      send_json env engine background "/api/agent/inventory" "inventory"
        (ok (text "report"))
        waiting in
    ((accepted_bodies env out.1.events
        ≡ accepted_bodies env waiting.events
          ++ ((encode_payload env (text "report") engine.compression).0 ∷ []))
      × SameStore waiting out.1)
    ⊎ (IsEnqueued env "inventory" (text "report") waiting out.1)
send_json_lossless_example =
    send_json_lossless env engine background (λ n. refl) (λ n. refl) "/api/agent/inventory"
      "inventory" (text "report") b't' (text "oken") waiting
      (unfold get_secret get open_secret unprotect_secret Base64.encode Base64.letter Base64.decode
          Base64.decode_groups Base64.without_newlines Base64.bits Base64.three_bytes
          Base64.two_bytes Base64.one_byte lookup in
        refl)
      refl

-- The agent queues a heartbeat, and then flushes.
Reach-IsSound_example :
    IsSound
      (flush env engine background
        (send_json env engine background "/api/agent/heartbeat" "heartbeat"
          (ok (text "third"))
          waiting).1).1
Reach-IsSound_example =
    Reach-IsSound env {w = waiting} {v = _}
      (record { queue = waiting-IsQueue; routed = waiting-IsRouted })
      (next
        (next here (
          sent engine background "/api/agent/heartbeat" "heartbeat" (text "third")
            (unfold route_for_type in refl)))
        (flushed engine background))
