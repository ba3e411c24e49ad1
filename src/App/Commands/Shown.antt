-- ===== src/App/Commands/Shown.antt =====
-- What the command `status` of internal/app/app.go shows.
use it_portal_agent.Prelude.{
  ℕ, String, ◌≡◌, refl, Bool, ◌&&◌, not, Option, none, some, inl, inr, Bool-cases,
}
use it_portal_agent.FloatingPoint.{Floats}
use it_portal_agent.App.Commands.{Program, StatusLines, state_since, heartbeat_state, print_status}
use it_portal_agent.Bootstrap
use it_portal_agent.Bootstrap.{Service, or_empty, is_found}
use it_portal_agent.Heartbeat.{configured_interval}
use it_portal_agent.Storage.{get, value_of, statement, queue_size, count_rows, pending_rows}
use it_portal_agent.Storage.Effects.{get-IsQuiet}
use it_portal_agent.Storage.Page.{IsCount, count_rows-IsCount}
use it_portal_agent.Storage.Settings.{get_lem}
use it_portal_agent.Text.{Text, is_empty}
use it_portal_agent.World.{
  Result, ok, Env, World, IsQuiet, IsQuiet-refl, IsQuiet-trans, IsQuiet-next, next,
}

module _ {F : Type 0} (fl : Floats F) (p : Program F) (env : Env) where
  state_since-IsQuiet :
      (t : Option ℕ) (w : World)
      → ((a : Text) × ((state_since fl p env t w).0 ≡ ok a))
        × IsQuiet w (state_since fl p env t w).1
  unfolding state_since configured_interval
  state_since-IsQuiet none w = ((_, refl), IsQuiet-refl w)
  state_since-IsQuiet (some t) w =
      ((_, refl), IsQuiet-trans (IsQuiet-next w) (get-IsQuiet env "portal_configuration" (next w)))

  heartbeat_state-IsQuiet :
      (registered : Bool) (last : Text) (w : World)
      → ((a : Text) × ((heartbeat_state fl p env registered last w).0 ≡ ok a))
        × IsQuiet w (heartbeat_state fl p env registered last w).1
  unfolding heartbeat_state
  heartbeat_state-IsQuiet registered last w =
      elim (Bool-cases (registered && not (is_empty last))) [
        | inl e ↦ rw e (state_since-IsQuiet (env.parse_time last) w)
        | inr e ↦ rw e ((_, refl), IsQuiet-refl w)
      ]

  -- What was read is shown, and nothing has changed.
  pub record IsShown (w : World) (out : Result StatusLines × World) : Type 0 where
    pub lines : StatusLines
    pub returns : out.0 ≡ ok lines
    pub quiet : IsQuiet w out.1
    pub registered : lines.registered ≡ is_found (value_of w "agent_uuid")
    pub queue_size : lines.queue_size ≡ count_rows (pending_rows w.queue)
    pub waiting : IsCount w.queue lines.queue_size
    pub last_heartbeat : lines.last_heartbeat ≡ or_empty (value_of w "heartbeat_last_success")
    pub latency : lines.latency ≡ or_empty (value_of w "heartbeat_last_latency_ms")
    pub health : lines.health ≡ or_empty (value_of w "heartbeat_last_health")
    pub last_error : lines.last_error ≡ or_empty (value_of w "heartbeat_last_error")

  -- `get` in a database that works.
  get_sound :
      ((n : ℕ) → env.statement_error n ≡ none)
      → (key : String) (w : World) → get env key w ≡ (ok (value_of w key), next w)
  get_sound sound key w = rw (get_lem env key w, sound w.tick) refl

  queue_size_sound :
      ((n : ℕ) → env.statement_error n ≡ none)
      → (w : World) → queue_size env w ≡ (ok (count_rows (pending_rows w.queue)), next w)
  unfolding queue_size
  queue_size_sound sound w = rw (sound w.tick, statement) refl

  -- `Status` in a database that works.
  abbrev shown : Service → World → Bootstrap.Status
  shown s w = record {
    registered = is_found (value_of w "agent_uuid");
    agent_uuid = or_empty (value_of w "agent_uuid");
    portal_url = s.config.portal_url;
    agent_version = s.version;
    configuration_version = or_empty (value_of w "configuration_version");
    last_sync = or_empty (value_of w "last_configuration_sync");
  }

  status_lem :
      ((n : ℕ) → env.statement_error n ≡ none)
      → (s : Service) (w : World)
      → Bootstrap.status env p.codec s w ≡ (ok (shown s w), next (next (next w)))
  unfolding Bootstrap.status
  status_lem sound s w =
      rw
        (
          get_sound sound "agent_uuid" w,
          get_sound sound "configuration_version" (next w),
          get_sound sound "last_configuration_sync" (next (next w)),
        )
        refl

  -- Time passes.
  later : (w : World) (n : ℕ) → IsQuiet w (record w { tick = n })
  later w n = record {
    same = record { config = refl; queue = refl; history = refl; config_file = refl };
    events = refl;
  }

  -- With a database that works, the command `status` returns and changes nothing; it shows as registered
  -- an agent that has a UUID, the number of the rows of the queue that wait, and of the last heartbeat its
  -- time, latency, health and error as they are stored.
  pub print_status-IsShown :
      (s : Service) (w : World)
      → ((n : ℕ) → env.statement_error n ≡ none)
      → IsShown w (print_status fl p env s w)
  unfolding print_status
  print_status-IsShown s w sound =
      let w1 : World = next (next (next w)) in
      let w2 : World = next (next (next (next w1))) in
      let v : World = next w2 in
      let state =
        heartbeat_state-IsQuiet (is_found (value_of w "agent_uuid"))
          (or_empty (value_of w "heartbeat_last_success")) v in
      rw
        (
          status_lem sound s w,
          get_sound sound "heartbeat_last_success" w1,
          get_sound sound "heartbeat_last_latency_ms" (next w1),
          get_sound sound "heartbeat_last_health" (next (next w1)),
          get_sound sound "heartbeat_last_error" (next (next (next w1))),
          queue_size_sound sound w2,
          state.0.1,
        )
        (record {
          lines = _;
          returns = refl;
          quiet = IsQuiet-trans (later w v.tick) state.1;
          registered = refl;
          queue_size = refl;
          waiting = count_rows-IsCount w.queue;
          last_heartbeat = refl;
          latency = refl;
          health = refl;
          last_error = refl;
        })
