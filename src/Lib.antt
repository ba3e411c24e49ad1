-- ===== src/Lib.antt =====
-- IT Portal Agent: a Windows service in Go that registers with a Portal, once, and then sends it
-- heartbeats, hardware and software inventories, through a queue in SQLite while it is offline.
--
-- The parts. internal/app starts the service: it reads config.yaml (internal/config), opens
-- agent.db (internal/storage), registers (internal/bootstrap) in a loop that waits longer after
-- every failure, and then runs the three engines. All of them send through internal/sync, which
-- signs (internal/security) and sends (internal/httpclient) a payload, or queues it in agent.db.
--
-- The files.
-- - World (World/Errors, World/State, World/Actions): errors, the environment with the state, and
--   actions. A Go function that may fail becomes an `Action`: from a world (the tables of
--   agent.db, config.yaml, the HTTP exchanges so far, the moment) to a value or an error, and a
--   world. What lies outside the program (SQLite's failures, the clock, random numbers, net/http,
--   DPAPI, the file system, YAML, JSON, SHA-256, HMAC, gzip) is the record `Env`; a call of it
--   happens at a moment of its own, so that one `Env` is one course of events, and every theorem
--   holds for every `Env` that its conditions allow.
-- - Config, Config/Files: internal/config/config.go; Config/RoundTrip: `LoadOrCreate` behind
--   `Save`.
-- - Storage: internal/storage/sqlite.go, each statement on the rows of its table, and the two
--   functions of internal/security/dpapi.go. Below it: Settings (the table `config`), Queue (the
--   order of the table `queue`), Secrets, Effects (what each operation changes), Page (what
--   `Pending` reads).
-- - Base64, Text, Prelude: the parts of Go's library that the program uses on bytes, and shared
--   helpers.
-- - Security, Security/Verify: internal/security/signing.go and the check of a signature.
-- - HttpClient, HttpClient/Attempts: internal/httpclient/client.go.
-- - Sync: internal/sync/engine.go. Below it: Accepted (what the Portal has accepted), Fate (one
--   payload), Lossless, Fifo (one pass of `Flush`), Drain (a pass with nothing in its way),
--   Invariant (all runs), Handed (what a run of an inventory hands over).
-- - Bootstrap: internal/bootstrap/bootstrap.go. Below it: Saving and Registration.
-- - App, App/Retry: `bootstrapWithRetry` of internal/app/app.go. App/Commands: its command line
--   and the status; below it Commands/Accepted and Commands/Shown.
-- - Loops, Loops/Endless: the loops `Run` of the three engines. Where the context is done and the
--   timer has fired, Go takes either case of a `select`; a context here is done from some moment
--   on, which may be the next one.
-- - WindowsService: internal/windowsservice/service.go, with WindowsService/Life (the handler) and
--   WindowsService/Installed; the handler's requests are a list, and what it does is one.
-- - Heartbeat, Heartbeat/Report: internal/heartbeat/heartbeat.go but the loop `Run`, which is in
--   Loops; floating-point numbers are an interface.
-- - FloatingPoint: `float64` as an interface. Sorting: `sort.Slice` by an order, as an insertion
--   sort, with its laws (Sorting/Laws) and lists in different orders (Sorting/Reordered).
-- - Software: internal/software/models.go and normalize.go. Below it: Order (the order of the
--   result), Entries (the records of the result) and Iteration (the order of the map); Engine
--   (internal/software/engine.go) and Engine/Outcome (the report of a run); Collector and
--   Collector/Found (internal/software/collector_windows.go).
-- - Inventory/Types: internal/inventory/types.go. Inventory/Identity (the normal form and the
--   fingerprint), Inventory/Changes (the changes between snapshots) and Inventory/Health (the
--   scores): internal/inventory/intelligence.go; below them Identity/Stability, Changes/Diff and
--   Health/Bounds.
-- - Inventory/Engine and Inventory/Persistence: internal/inventory/engine.go. Below the engine:
--   Stored (what the persist functions leave), Readings (what the health is read from), Reported
--   and Outcome (the report of a run), Timeline, and Unchanged (a run on a machine that has not
--   changed).
-- - Inventory/Rows (what WMI and the registry give), Inventory/Status, Inventory/Devices,
--   Inventory/Disks, Inventory/Security and Inventory/Collector:
--   internal/inventory/collector_windows.go; below them Disks/Balanced, Security/Honest and
--   Collector/Consistent.
-- - Tests: one environment, and the theorems at it.
--
-- Loops. `attempts` of HttpClient counts the retries that are left, `flush_items` and `scan_rows`
-- go through their lists, and `digits` has fuel above its number. The registration loop of App has
-- no end of its own: `bootstrap_with_retry` runs a given number of its rounds, and its theorem
-- holds for every number; `repeat` of Loops does the same for the loops of the engines. The
-- engine's mutex makes `SendJSON` and `Flush` run one after another, as the steps of
-- Sync/Invariant do.
--
-- Numbers. Times and durations are natural numbers of nanoseconds, from the zero time of Go. The
-- interval that the configuration gives as a number is multiplied in 64 bits, as Go does it, and
-- is negative from 2^63 on; no other duration of the program is negative. Ids and times are taken
-- to stay below 2^63.
--
-- Not modelled: the log; the goroutines of `runService`, which run the three loops beside each
-- other; the queries of WMI and the registry and the service manager themselves, whose answers are
-- arguments; internal/logger, internal/contracts and cmd/itportal-agent, which configure or call
-- others; the directory of the files (`RootDir`).
pub mod Prelude
pub mod Text
pub mod Sorting
pub mod Config
pub mod World
pub mod Base64
pub mod Storage
pub mod Security
pub mod HttpClient
pub mod Sync
pub mod Bootstrap
pub mod Software
pub mod App
pub mod FloatingPoint
pub mod Heartbeat
pub mod Inventory
pub mod Tests
pub mod WindowsService
pub mod Loops
