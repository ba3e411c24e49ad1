-- ===== src/Tests.antt =====
-- The theorems at one run of the agent: an environment, a database with two payloads in the queue,
-- and the services on it.
pub mod Transport
pub mod Agent
pub mod Inventory
pub mod Machine
pub mod Hardware
pub mod Commands
pub mod Endless
pub mod Drain
pub mod Files
use it_portal_agent.Prelude.{
  ℕ, ◌+◌, ◌*◌, ◌<◌, ◌≡◌, ◌≢◌, refl, Bool, true, false, Option, none, some, List, [], ◌∷◌, ◌++◌,
  length, ltb, ltb→lt, if◌then◌else◌, ◌&&◌, All, arith, inl, inr, Bool-cases,
}
use it_portal_agent.Base64
use it_portal_agent.Base64.RoundTrip.{IsBytes}
use it_portal_agent.Config.{Config}
use it_portal_agent.HttpClient.{Client, second}
use it_portal_agent.Storage.Secrets.{IsDataProtection}
use it_portal_agent.Sync.{Engine}
use it_portal_agent.Bootstrap.{Service, Codec}
use it_portal_agent.Text.{Text, text}
use it_portal_agent.World.{
  Reply, answer, failure, Env, Request, Response, QueueRow, ConfigRow, World,
}

abbrev small : Text → Bool
small [] = true
small (b ∷ t) = ltb b 256 && small t

small-IsBytes : (t : Text) → small t ≡ true → IsBytes t
small-IsBytes [] h = tt
small-IsBytes (b ∷ t) h = (ground arith, small-IsBytes t (ground arith))

abbrev pub seal : Text → Reply Text
seal t = if small t then answer (1 ∷ t) else failure (text "no bytes")

abbrev pub unseal : Text → Reply Text
unseal [] = failure (text "nothing")
unseal (b ∷ t) = answer t

-- A network that answers every exchange but those of the moments below 9 with 200.
abbrev pub env : Env
env = record {
  now = λ n. second * (62135596800 + n);
  statement_error = λ n. none;
  protect = λ n t. seal t;
  unprotect = unseal;
  random = λ n. answer (n ∷ 171 ∷ []);
  exchange = λ n r.
      if ltb n 9
      then failure (text "timeout")
      else answer
          (record { status_code = 200; status = text "200 OK"; body = answer (text "reply") });
  hostname = λ n. answer (text "host");
  directory_error = λ n. none;
  read_error = λ n. none;
  write_error = λ n. none;
  left_file = λ n old bytes. some [];
  command = λ n c. answer (text "output ");
  url_error = λ u. none;
  escaped_path = λ u. u;
  sha256 = λ t. length t ∷ [];
  hmac_sha256 = λ k t. length k ∷ length t ∷ [];
  gzip = λ t. 31 ∷ 139 ∷ t;
  json_valid = λ t. true;
  format_seconds = λ n. text "2026-01-01T00:00:00Z";
  format_nano = λ n. text "2026-01-01T00:00:00.5Z";
  parse_time = λ t. none;
  parse_config = λ t. failure (text "no configuration");
  marshal_config = λ c. answer c.portal_url;
}

abbrev pub codec : Codec
codec = record {
  marshal = λ r. answer r.hostname;
  unmarshal = λ t. answer (record {
    agent_uuid = text "uuid-1";
    agent_token = text "token";
    configuration = text "{}";
    policy = [];
    registration_time = [];
    configuration_version = text "7";
  });
  goos = text "windows";
  goarch = text "amd64";
}

abbrev pub row : ℕ → Text → QueueRow
row n t = record {
  id = n;
  type = "heartbeat";
  payload = t;
  status = "pending";
  created_at = text "2026-01-01T00:00:00Z";
}

-- A fresh agent.
abbrev pub fresh : World
fresh = record { config = []; queue = []; history = []; config_file = none; events = []; tick = 0 }

abbrev pub setting : Text → ConfigRow
setting t = record { value = t; updated_at = 0 }

-- A registered agent with two payloads that wait.
abbrev pub waiting : World
waiting = record fresh {
  config =
      ("agent_uuid", setting (text "uuid-1"))
      ∷ ("agent_token", setting (Base64.encode (1 ∷ text "token")))
      ∷ [];
  queue = row 3 (text "first") ∷ row 5 (text "second") ∷ [];
}

abbrev pub client : Client
client = record {
  token = text "token";
  retries = 3;
  retry_delay = second;
  timeout = 30 * second;
  skip_verify = false;
  proxy = none;
}

abbrev pub engine : Engine
engine = record {
  client = client;
  portal_url = text "https://portal.example.com";
  compression = text "gzip";
}

abbrev pub config : Config
config = record {
  portal_url = text "https://portal.example.com/";
  enrollment_key = text "key";
  tls_validation = true;
  proxy = [];
  log_level = text "info";
}

abbrev pub service : Service
service = record { config = config; version = text "0.2.0"; client = client }

abbrev pub ping : Request
ping = record {
  method = "POST";
  url = text "https://portal.example.com/api/agent/heartbeat";
  headers = [];
  body = text "body";
}

seal_lem : (t c : Text) → seal t ≡ answer c → (small t ≡ true) × (c ≡ 1 ∷ t)
seal_lem t c h = elim (Bool-cases (small t)) [
  | inl e ↦ (e, cc (rw e at h))
  | inr e ↦ absurd (cc (rw e at h))
]

-- The example of data protection keeps the promises of the documentation.
pub env-IsDataProtection : IsDataProtection env
env-IsDataProtection = record {
  ne-nil = λ n t c h. λ q. cc ((seal_lem t c h).1, q);
  all_bytes = λ n t c h. rw (seal_lem t c h).1 (omega arith, small-IsBytes t (seal_lem t c h).0);
  unprotect-protect = λ n t c h. rw (seal_lem t c h).1 refl;
}
