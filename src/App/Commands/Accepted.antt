-- ===== src/App/Commands/Accepted.antt =====
-- What the commands `inventory` and `software` of internal/app/app.go report.
use mathlib.Core.Bool.{false≢true}
use it_portal_agent.Prelude.{ℕ, ◌*◌, String, ◌≡◌, ◌⊎◌, ap, false, Option, none, some, inl, inr}
use it_portal_agent.Sync.{Engine}
use it_portal_agent.FloatingPoint.{Floats}
use it_portal_agent.App.Commands.{Program, transport, accept, inventory_command, software_command}
use it_portal_agent.Bootstrap.{Service}
use it_portal_agent.HttpClient.{second}
use it_portal_agent.Inventory.Engine as HardwareEngine
use it_portal_agent.Inventory.Engine.Outcome as HardwareOutcome
use it_portal_agent.Inventory.Engine.Reported as HardwareReported
use it_portal_agent.Inventory.Types
use it_portal_agent.Software.Engine as SoftwareEngine
use it_portal_agent.Software.Engine.Outcome as SoftwareOutcome
use it_portal_agent.Storage.{value_of, text_or_empty}
use it_portal_agent.Text.{Text, text}
use it_portal_agent.World.{message, is_queued, Result, ok, err, Env, World, background, continue}

-- The stored text.
abbrev pub stored : World → String → Text
stored w key = text_or_empty (ok (value_of w key))

-- A result that is no failure.
abbrev pub IsAcceptable : String → Type 0
IsAcceptable result = (result ≡ "SENT") ⊎ ((result ≡ "SKIPPED") ⊎ (result ≡ "QUEUED"))

-- The command returns a report with an acceptable result, whose fingerprint is stored, or an error that
-- is not `ErrQueued` and is stored.
abbrev pub IsInventoryAccepted : Result Types.Report × World → Type 0
IsInventoryAccepted (ok r, w) =
    IsAcceptable r.result × (stored w "inventory_last_fingerprint" ≡ r.fingerprint)
IsInventoryAccepted (err x, w) =
    (is_queued x ≡ false) × (stored w "inventory_last_error" ≡ message x)

abbrev pub IsSoftwareAccepted : Result SoftwareEngine.Report × World → Type 0
IsSoftwareAccepted (ok r, w) =
    IsAcceptable r.result × (stored w "software_last_fingerprint" ≡ r.fingerprint)
IsSoftwareAccepted (err x, w) = is_queued x ≡ false

module _ {F : Type 0} (fl : Floats F) (p : Program F) (env : Env) where
  accept-IsInventoryAccepted :
      (e : Engine) (old : Option Text) (out : Result HardwareEngine.Run) (w : World)
      → HardwareReported.IsConcluded fl p.hardware env e background old false (out, w)
      → IsInventoryAccepted (continue out (accept fl p env) w)
  unfolding accept
  accept-IsInventoryAccepted e old (err x) w h = absurd h
  accept-IsInventoryAccepted e old (ok (r, none)) w (HardwareReported.sent t m b a q z) =
      (inl a, ap (λ v. text_or_empty (ok v)) q)
  accept-IsInventoryAccepted e old (ok (r, none)) w (HardwareReported.skipped h t a b c k) =
      (inr (inl a), b)
  accept-IsInventoryAccepted e old (ok (r, some x)) w (HardwareReported.queued t m v a b q d z) =
      rw q (inr (inr a), ap (λ v. text_or_empty (ok v)) d)
  accept-IsInventoryAccepted e old (ok (r, some x)) w (HardwareReported.failed a q c k) =
      rw q (q, ap (λ v. text_or_empty (ok v)) c)
  accept-IsInventoryAccepted e old (ok (r, some x)) w (HardwareReported.stopped d a z k) =
      absurd (false≢true d)

  accept-IsSoftwareAccepted :
      (e : Engine) (old : Option Text) (out : Result SoftwareEngine.Run) (w : World)
      → SoftwareOutcome.IsConcluded p.software env e old (out, w)
      → IsSoftwareAccepted (continue out (accept fl p env) w)
  unfolding accept
  accept-IsSoftwareAccepted e old (err x) w h = absurd h
  accept-IsSoftwareAccepted e old (ok (r, none)) w (SoftwareOutcome.sent t m d a b) =
      (inl a, ap (λ v. text_or_empty (ok v)) b)
  accept-IsSoftwareAccepted e old (ok (r, none)) w (SoftwareOutcome.skipped q t a b k) =
      (inr (inl a), b)
  accept-IsSoftwareAccepted e old (ok (r, some x)) w (SoftwareOutcome.queued t m v a q b) =
      rw q (inr (inr a), ap (λ v. text_or_empty (ok v)) b)
  accept-IsSoftwareAccepted e old (ok (r, some x)) w (SoftwareOutcome.failed a q k) = rw q q

  -- With a database that works, the command `inventory` returns, whatever the network and the collector
  -- do: a report that was sent, skipped or queued, whose fingerprint is then the stored one, or an error
  -- that is not `ErrQueued` and is stored.
  pub inventory_command-IsAccepted :
      (s : Service) (w : World)
      → ((n : ℕ) → env.statement_error n ≡ none)
      → IsInventoryAccepted (inventory_command fl p env s w)
  unfolding inventory_command
  inventory_command-IsAccepted s w sound = accept-IsInventoryAccepted _ _ _ _ (
      HardwareOutcome.run_once-IsReport fl p.hardware p.outside env sound p.same (text "0.2.0")
        (transport fl p env (30 * second) s) background w)

  -- With a database that works, the command `software` returns, whatever the network and the collector
  -- do: a report that was sent, skipped or queued, whose fingerprint is then the stored one, or an error
  -- that is not `ErrQueued`.
  pub software_command-IsAccepted :
      (s : Service) (w : World)
      → ((n : ℕ) → env.statement_error n ≡ none)
      → IsSoftwareAccepted (software_command fl p env s w)
  unfolding software_command
  software_command-IsAccepted s w sound = accept-IsSoftwareAccepted _ _ _ _ (
      SoftwareOutcome.run_once-IsConcluded fl p.software env sound
        (transport fl p env (60 * second) s) background w)
