-- ===== src/Inventory/Engine/Readings.antt =====
-- What a run of internal/inventory/engine.go reads for the health of the machine: it always returns, and
-- changes no configuration.
use it_portal_agent.Prelude.{ℕ, String, ◌≡◌, refl, ◌∙◌, Option, none, some, inl, inr, Bool-cases}
use it_portal_agent.FloatingPoint.{Floats}
use it_portal_agent.Heartbeat.{Outside, configured_interval}
use it_portal_agent.Inventory.Engine.{health, stored_float, stored_heartbeat_status, status_since}
use it_portal_agent.Inventory.Identity.{Tools}
use it_portal_agent.Inventory.Types.{Hardware, HealthAssessment}
use it_portal_agent.Storage.{get, text_or_empty}
use it_portal_agent.Storage.Effects.{get-IsQuiet}
use it_portal_agent.Text.{Text, is_empty}
use it_portal_agent.World.{ok, Env, World, next}

module _ {F : Type 0} (fl : Floats F) (tools : Tools F) (out : Outside F) (env : Env) where
  stored_float-ok :
      (key : String) (w : World) → (a : F) × ((stored_float fl tools out env key w).0 ≡ ok a)
  unfolding stored_float
  stored_float-ok key w = (_, refl)

  status_since-ok :
      (t : Option ℕ) (w : World) → (a : Text) × ((status_since fl tools out env t w).0 ≡ ok a)
  unfolding status_since configured_interval
  status_since-ok none w = (_, refl)
  status_since-ok (some t) w = (_, refl)

  stored_heartbeat_status-ok :
      (w : World) → (a : Text) × ((stored_heartbeat_status fl tools out env w).0 ≡ ok a)
  unfolding stored_heartbeat_status
  stored_heartbeat_status-ok w =
      elim (Bool-cases (is_empty (text_or_empty (get env "heartbeat_last_success" w).0))) [
        | inl e ↦ rw e (_, refl)
        | inr e ↦ rw e (status_since-ok _ _)
      ]

  pub health-ok :
      (h : Hardware F) (w : World)
      → (a : HealthAssessment F) × ((health fl tools out env h w).0 ≡ ok a)
  unfolding health stored_float
  health-ok h w = rw (stored_heartbeat_status-ok (get env "heartbeat_last_cpu" w).1).1 (_, refl)

  stored_float-config :
      (key : String) (w : World) → (stored_float fl tools out env key w).1.config ≡ w.config
  unfolding stored_float
  stored_float-config key w = (get-IsQuiet env key w).same.config

  status_since-config :
      (t : Option ℕ) (w : World) → (status_since fl tools out env t w).1.config ≡ w.config
  unfolding status_since configured_interval
  status_since-config none w = refl
  status_since-config (some t) w = (get-IsQuiet env "portal_configuration" (next w)).same.config

  stored_heartbeat_status-config :
      (w : World) → (stored_heartbeat_status fl tools out env w).1.config ≡ w.config
  unfolding stored_heartbeat_status
  stored_heartbeat_status-config w =
      let read = (get-IsQuiet env "heartbeat_last_success" w).same.config in
      elim (Bool-cases (is_empty (text_or_empty (get env "heartbeat_last_success" w).0))) [
        | inl e ↦ rw e read
        | inr e ↦ rw e (status_since-config _ _ ∙ read)
      ]

  pub health-config :
      (h : Hardware F) (w : World) → (health fl tools out env h w).1.config ≡ w.config
  unfolding health
  health-config h w =
      let v : World = (stored_float fl tools out env "heartbeat_last_cpu" w).1 in
      let u : World = (stored_heartbeat_status fl tools out env v).1 in
      let (a, p) = stored_float-ok "heartbeat_last_cpu" w in
      let (b, q) = stored_heartbeat_status-ok v in
      let (c, r) = stored_float-ok "heartbeat_last_latency_ms" u in
      rw p (
        rw q (
          rw r (
            stored_float-config "heartbeat_last_latency_ms" u
            ∙ stored_heartbeat_status-config v
            ∙ stored_float-config "heartbeat_last_cpu" w)))
