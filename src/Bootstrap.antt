-- ===== src/Bootstrap.antt =====
-- internal/bootstrap/bootstrap.go: registration, once, and the configuration that the Portal owns.
--
-- Log lines are left out. A method that changes the service returns the service.
pub mod Saving
pub mod Registration
use Prim.Native.String.{◌++◌ as ◌<>◌}
use it_portal_agent.Prelude.{
  ℕ, ◌*◌, String, Bool, true, false, ◌&&◌, ◌||◌, ◌==◌, Option, none, some, List, [], ◌∷◌, ◌++◌, ltb,
  leb, if◌then◌else◌,
}
use it_portal_agent.Config.{Config}
use it_portal_agent.Config.Files.{save}
use it_portal_agent.HttpClient.{Client, new_with_options, second, do_request}
use it_portal_agent.Security.{set_header}
use it_portal_agent.Storage.{put, get, put_secret, get_secret}
use it_portal_agent.Text.{Text, text, is_empty}
use it_portal_agent.Text.Space.{trim_space, trim_slashes}
use it_portal_agent.World.{
  Err, external, wrap, Reply, answer, failure, result, Result, ok, err, Env, Request, Response,
  World, Action, ◌>>=◌, ◌>>◌, pure, raise, annotate, ignore, observe, observe_result,
}

pub record Service : Type 0 where
  pub config : Config
  pub version : Text
  pub client : Client

pub record RegisterRequest : Type 0 where
  pub enrollment_key : Text
  pub hostname : Text
  pub computer_name : Text
  pub machine_uuid : Text
  pub operating_system : Text
  pub os_version : Text
  pub architecture : Text
  pub agent_version : Text

pub record PortalResponse : Type 0 where
  pub agent_uuid : Text
  pub agent_token : Text
  pub configuration : Text
  pub policy : Text
  pub registration_time : Text
  pub configuration_version : Text

pub record Status : Type 0 where
  pub registered : Bool
  pub agent_uuid : Text
  pub portal_url : Text
  pub agent_version : Text
  pub configuration_version : Text
  pub last_sync : Text

-- `json.Marshal` of the registration and `json.Unmarshal` of the answer, and the build's
-- `runtime.GOOS` and `runtime.GOARCH`.
pub record Codec : Type 0 where
  pub marshal : RegisterRequest → Reply Text
  pub unmarshal : Text → Reply PortalResponse
  pub goos : Text
  pub goarch : Text

-- The text of a value that may be missing.
abbrev pub or_empty : Option Text → Text
or_empty none = []
or_empty (some t) = t

abbrev pub is_found {ℓ} : {A : Type ℓ} → Option A → Bool
is_found none = false
is_found (some a) = true

module _ (env : Env) (codec : Codec) where
  -- `New`
  unfoldable pub new : Config → Text → Service
  new cfg version = record {
    config = cfg;
    version = version;
    client = new_with_options env (record {
      timeout = 30 * second;
      retry_delay = second;
      token = [];
      tls_validation = cfg.tls_validation;
      proxy = cfg.proxy;
    });
  }

  -- `machineUUID`
  unfoldable pub machine_uuid : Reply Text → Text
  machine_uuid (failure t) = text "unknown"
  machine_uuid (answer output) =
      let value = trim_space output in if is_empty value then text "unknown" else value

  -- `osVersion`
  unfoldable pub os_version : Reply Text → Text
  os_version (failure t) = text "unknown"
  os_version (answer output) = trim_space output

  -- `registrationPayload`
  unfoldable pub registration_payload : Service → Action RegisterRequest
  registration_payload s = do
    hostname ← annotate "read hostname" (observe_result env.hostname)
    machine ←
        observe
          (λ n. env.command n "powershell.exe (Get-CimInstance Win32_ComputerSystemProduct).UUID")
    version ← observe (λ n. env.command n "cmd.exe /c ver")
    pure (record {
      enrollment_key = s.config.enrollment_key;
      hostname = hostname;
      computer_name = hostname;
      machine_uuid = machine_uuid machine;
      operating_system = codec.goos;
      os_version = os_version version;
      architecture = codec.goarch;
      agent_version = s.version;
    })

  -- The tests of `request` on the answer.
  unfoldable pub read_response : Response → Result PortalResponse
  read_response r = elim r.body [
    | failure t ↦ err (wrap "read portal response" (external t))
    | answer body ↦
        if ltb r.status_code 200 || leb 300 r.status_code
        then err
            (external (text "portal returned " ++ (r.status ++ (text ": " ++ trim_space body))))
        else elim (codec.unmarshal body) [
          | failure t ↦ err (wrap "parse portal response" (external t))
          | answer response ↦ ok response
        ]
  ]

  -- `request`, with the body that the payload was marshalled to. The client has the token for this
  -- request only.
  unfoldable pub request : Service → String → String → Text → Result Text → Action PortalResponse
  request s method endpoint token payload = do
    body ← annotate "marshal portal request" (λ w. (payload, w))
    let url = trim_slashes s.config.portal_url ++ text endpoint
    let plain : Request = record { method = method; url = url; headers = []; body = body }
    elim (env.url_error url) [
      | none ↦ do
        response ←
            do_request env (record s.client { token = token })
              (set_header "Content-Type" (text "application/json") plain)
        λ w. (read_response response, w)
      | some t ↦ raise (wrap "create portal request" (external t))
    ]

  -- `if value != "" { Put }`
  unfoldable pub put_unless_empty : String → Text → Action (Unit {0})
  put_unless_empty key value = if is_empty value then pure tt else put env key value

  unfoldable pub put_secret_unless_empty : String → Text → Action (Unit {0})
  put_secret_unless_empty key value = if is_empty value then pure tt else put_secret env key value

  -- `saveConfiguration`
  unfoldable pub save_configuration : PortalResponse → Action (Unit {0})
  save_configuration r = do
    put_secret_unless_empty "agent_token" r.agent_token
    put_unless_empty "portal_configuration" r.configuration
    put_unless_empty "portal_policy" r.policy
    put_unless_empty "configuration_version" r.configuration_version
    now ← observe (λ n. env.format_seconds (env.now n))
    put env "last_configuration_sync" now

  -- The registration time of the answer, or else the present.
  unfoldable pub registration_time : PortalResponse → Action Text
  registration_time r =
      if is_empty r.registration_time
      then observe (λ n. env.format_seconds (env.now n))
      else pure r.registration_time

  -- `saveRegistration`
  unfoldable pub save_registration : PortalResponse → Action (Unit {0})
  save_registration r = do
    put env "agent_uuid" r.agent_uuid
    put_secret env "agent_token" r.agent_token
    time ← registration_time r
    put env "registration_time" time
    save_configuration (record r { registration_time = time })

  -- `Register` behind the answer. Only a failure to write config.yaml is passed over.
  unfoldable pub complete_registration : Service → PortalResponse → Action Service
  complete_registration s response =
      if is_empty response.agent_uuid || is_empty response.agent_token
      then raise (external (text "registration response is missing agent_uuid or agent_token"))
      else do
        save_registration response
        let config = record s.config { enrollment_key = [] }
        ignore (save env config)
        pure (record s { config = config })

  -- `Register`
  unfoldable pub register : Service → Action Service
  register s =
      if is_empty s.config.enrollment_key
      then raise (external (text "enrollment_key is required for first registration"))
      else do
        payload ← registration_payload s
        response ← request s "POST" "/api/agent/register" [] (result (codec.marshal payload))
        complete_registration s response

  -- `Registered`
  unfoldable pub registered : Action Bool
  registered = do found ← get env "agent_uuid"; pure (is_found found)

  -- `EnsureRegistered`
  unfoldable pub ensure_registered : Service → Action Service
  ensure_registered s = do
    done ← registered
    if done then (do get env "portal_configuration"; pure s) else register s

  -- `ReloadConfig`, once it has the token.
  unfoldable pub reload_with : Service → Option Text → Action (Unit {0})
  reload_with s none = raise (external (text "agent is not registered"))
  reload_with s (some token) = do
    response ← request s "GET" "/api/agent/configuration" token (ok [])
    if is_empty response.configuration
        then raise (external (text "configuration response is empty"))
        else save_configuration response

  -- `ReloadConfig`
  unfoldable pub reload_config : Service → Action (Unit {0})
  reload_config s = do token ← get_secret env "agent_token"; reload_with s token

  -- `Status`
  unfoldable pub status : Service → Action Status
  status s = do
    uuid ← get env "agent_uuid"
    version ← get env "configuration_version"
    last ← get env "last_configuration_sync"
    pure (record {
      registered = is_found uuid;
      agent_uuid = or_empty uuid;
      portal_url = s.config.portal_url;
      agent_version = s.version;
      configuration_version = or_empty version;
      last_sync = or_empty last;
    })
