-- ===== src/Heartbeat/Report.antt =====
-- What internal/heartbeat/heartbeat.go leaves in the `config` table for the status report.
use it_portal_agent.Prelude.{ℕ, ◌≡◌, refl, none, some, []}
use it_portal_agent.Storage.{put, statement, value_of}
use it_portal_agent.Storage.Settings.{value_of-put_self}
use it_portal_agent.Sync.{Delivery, Engine}
use it_portal_agent.Text.{Text}
use it_portal_agent.World.{message, Result, ok, err, Env, Context, World}
use it_portal_agent.FloatingPoint.{Floats}
use it_portal_agent.Heartbeat.{
  Outside, Payload, Health, persist_success, persist_failure, report, upload, send_heartbeat,
}

-- The text of a result's error; nothing for a success.
abbrev pub error_text {ℓ} : {A : Type ℓ} → Result A → Text
error_text (ok a) = []
error_text (err x) = message x

-- The status report has the outcome.
abbrev pub IsReported : Result Delivery × World → Type 0
IsReported (r, w) = value_of w "heartbeat_last_error" ≡ some (error_text r)

module _ {F : Type 0} (fl : Floats F) (out : Outside F) (env : Env)
    (sound : (n : ℕ) → env.statement_error n ≡ none) where
  put-ok : (value : Text) (w : World) → (put env "heartbeat_last_error" value w).0 ≡ ok tt
  unfolding put
  put-ok value w = rw (sound w.tick, statement) refl

  report-IsReported :
      (health : Health F) (answer : Result Delivery) (w : World)
      → IsReported (report fl out env health answer w)
  unfolding report persist_failure persist_success
  report-IsReported health (err x) w =
      value_of-put_self env "heartbeat_last_error" (message x) w (put-ok (message x) w)
  report-IsReported health (ok d) w =
      value_of-put_self env "heartbeat_last_error" [] _ (put-ok [] _)

  upload-IsReported :
      (e : Engine) (ctx : Context) (payload : Result (Payload F)) (w : World)
      → IsReported (upload fl out env e ctx payload w)
  unfolding upload persist_failure
  upload-IsReported e ctx (err x) w =
      value_of-put_self env "heartbeat_last_error" (message x) w (put-ok (message x) w)
  upload-IsReported e ctx (ok payload) w = report-IsReported payload.health _ _

  -- With a database that works, each heartbeat, however it ends, leaves the message of its error, or
  -- the empty text behind a success, as the stored heartbeat error.
  pub send_heartbeat-IsReported :
      (e : Engine) (ctx : Context) (version : Text) (w : World)
      → IsReported (send_heartbeat fl out env e ctx version w)
  unfolding send_heartbeat
  send_heartbeat-IsReported e ctx version w = upload-IsReported e ctx _ _
