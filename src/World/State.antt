-- ===== src/World/State.antt =====
-- The environment of the agent and the state that its operations read and write.
--
-- Every call out of the program (a SQLite statement, a reading of the clock, a random number, an
-- HTTP exchange, a file operation) happens at a moment of its own, counted by `tick`, and `Env` says
-- what each such call answers at its moment. So one `Env` is one course of outside events, and a
-- theorem for every `Env` covers every pattern of failures.
use it_portal_agent.Prelude.{refl, ◌∙◌, ◌≡◌, ℕ, ◌+◌, String, Bool, false, Option, List}
use it_portal_agent.Prelude.Assoc.{Assoc}
use it_portal_agent.Text.{Text}
use it_portal_agent.Config.{Config}
use it_portal_agent.World.Errors.{Reply, Result}

-- The parts of `http.Request` and `http.Response` that the program sets or reads. The body of a
-- response may fail to be read.
pub record Request : Type 0 where
  pub method : String
  pub url : Text
  pub headers : Assoc Text
  pub body : Text

pub record Response : Type 0 where
  pub status_code : ℕ
  pub status : Text
  pub body : Reply Text

-- A `context.Context`: whether it is done at a moment.
abbrev pub Context : Type 0
Context = ℕ → Bool

-- `context.Background()`
abbrev pub background : Context
background _ = false

-- What lies outside the program. The functions of a moment answer a call of that moment; the others
-- are pure functions of third-party code or of the standard library's codecs.
pub record Env : Type 0 where
  -- `time.Now().UTC()`, in nanoseconds since the zero time
  pub now : ℕ → ℕ
  -- the error of the SQLite statement, row scan or iteration of that moment, if it fails
  pub statement_error : ℕ → Option Text
  -- `CryptProtectData` and `CryptUnprotectData`
  pub protect : ℕ → Text → Reply Text
  pub unprotect : Text → Reply Text
  -- `rand.Read` of 16 bytes
  pub random : ℕ → Reply Text
  -- `http.Client.Do`
  pub exchange : ℕ → Request → Reply Response
  -- `os.Hostname()`
  pub hostname : ℕ → Reply Text
  -- creating directories, and reading and writing config.yaml; an absent file is no error here
  pub directory_error : ℕ → Option Text
  pub read_error : ℕ → Option Text
  pub write_error : ℕ → Option Text
  -- what a failed writing leaves of the old file, where it was there, and the new bytes
  pub left_file : ℕ → Option Text → Text → Option Text
  -- the output of an external program, by its command line
  pub command : ℕ → String → Reply Text
  -- `http.NewRequestWithContext` refuses the URL
  pub url_error : Text → Option Text
  -- `request.URL.EscapedPath()`
  pub escaped_path : Text → Text
  pub sha256 : Text → Text
  pub hmac_sha256 : Text → Text → Text
  pub gzip : Text → Text
  pub json_valid : Text → Bool
  -- `Format` and `Parse` with `time.RFC3339` and `time.RFC3339Nano`
  pub format_seconds : ℕ → Text
  pub format_nano : ℕ → Text
  pub parse_time : Text → Option ℕ
  -- `yaml.Marshal(cfg)` and `yaml.Unmarshal(data, &cfg)`
  pub parse_config : Text → Reply Config
  pub marshal_config : Config → Reply Text

-- A row of the `config` table, without its key.
pub record ConfigRow : Type 0 where
  pub value : Text
  pub updated_at : ℕ

pub record QueueRow : Type 0 where
  pub id : ℕ
  pub type : String
  pub payload : Text
  pub status : String
  pub created_at : Text

pub record HistoryRow : Type 0 where
  pub fingerprint : Text
  pub payload : Text
  pub changes : Text
  pub captured_at : Text

-- What others see of the agent: its HTTP exchanges, in order, and its pauses between attempts.
pub data Event : Type 0 where
  exchanged : Request → Result Response → Event
  slept : ℕ → Event

-- The tables of agent.db, config.yaml, the exchanges so far and the moment.
pub record World : Type 0 where
  pub config : Assoc ConfigRow
  pub queue : List QueueRow
  pub history : List HistoryRow
  pub config_file : Option Text
  pub events : List Event
  pub tick : ℕ

-- The tables and config.yaml are the same.
pub record SameStore (w u : World) : Type 0 where
  pub config : u.config ≡ w.config
  pub queue : u.queue ≡ w.queue
  pub history : u.history ≡ w.history
  pub config_file : u.config_file ≡ w.config_file

pub SameStore-refl : (w : World) → SameStore w w
SameStore-refl w = record { config = refl; queue = refl; history = refl; config_file = refl }

pub SameStore-trans : {u v w : World} → SameStore u v → SameStore v w → SameStore u w
SameStore-trans p q = record {
  config = q.config ∙ p.config;
  queue = q.queue ∙ p.queue;
  history = q.history ∙ p.history;
  config_file = q.config_file ∙ p.config_file;
}

-- Nothing has changed but the moment.
pub record IsQuiet (w u : World) : Type 0 where
  pub same : SameStore w u
  pub events : u.events ≡ w.events

pub IsQuiet-refl : (w : World) → IsQuiet w w
IsQuiet-refl w = record { same = SameStore-refl w; events = refl }

pub IsQuiet-trans : {u v w : World} → IsQuiet u v → IsQuiet v w → IsQuiet u w
IsQuiet-trans p q = record { same = SameStore-trans p.same q.same; events = q.events ∙ p.events }

-- One moment passes.
abbrev pub next : World → World
next w = record w { tick = w.tick + 1 }

pub SameStore-next : {w v : World} → SameStore w v → SameStore w (next v)
SameStore-next same = record {
  config = same.config;
  queue = same.queue;
  history = same.history;
  config_file = same.config_file;
}

pub IsQuiet-next : (w : World) → IsQuiet w (next w)
IsQuiet-next w = record {
  same = record { config = refl; queue = refl; history = refl; config_file = refl };
  events = refl;
}
