-- ===== src/WindowsService/Life.antt =====
-- The life of the service under `Execute` of internal/windowsservice/service.go, and its installation.
use mathlib.Core.List.{append_assoc}
use it_portal_agent.Prelude.{
  ◌≡◌, ◌≢◌, ◌⊎◌, refl, ap, sym, ◌∙◌, inl, inr, true, List, [], ◌∷◌, ◌++◌, All,
}
use it_portal_agent.WindowsService.{
  start_pending, running, stop_pending, ServiceStatus, pending_status, Command, interrogate, stop,
  shutdown, other, ChangeRequest, Handler, Deed, reported, started, stopped, when, handle, serve,
  execute,
}

-- A request that does not end the service.
abbrev pub IsHarmless : ChangeRequest → Type 0
IsHarmless r = (r.cmd ≢ stop) × (r.cmd ≢ shutdown)

-- The answer to a request for the status.
abbrev pub answered : Command → ServiceStatus → List Deed
answered interrogate s = reported s ∷ []
answered stop s = []
answered shutdown s = []
answered other s = []

abbrev pub asked : List ChangeRequest → List Deed
asked [] = []
asked (r ∷ requests) = answered r.cmd r.current_status ++ asked requests

-- A service that was asked to end and one that was not, behind harmless requests.
pub data IsServed (h : Handler) (deeds : List Deed) (requests : List ChangeRequest) : Type 0 where
  ended :
      (before later : List ChangeRequest) (r : ChangeRequest)
      → All IsHarmless before
      → (r.cmd ≡ stop) ⊎ (r.cmd ≡ shutdown)
      → requests ≡ before ++ (r ∷ later)
      → deeds ≡ asked before ++ (reported (pending_status stop_pending) ∷ when h.has_stop stopped)
      → IsServed h deeds requests
  closed : All IsHarmless requests → deeds ≡ asked requests → IsServed h deeds requests

module _ (h : Handler) where
  -- One more harmless request in front.
  further :
      (r : ChangeRequest) (requests : List ChangeRequest) (deeds : List Deed)
      → IsHarmless r
      → IsServed h deeds requests
      → IsServed h (answered r.cmd r.current_status ++ deeds) (r ∷ requests)
  further r requests deeds p (closed q e) =
      closed (p, q) (ap (λ d. answered r.cmd r.current_status ++ d) e)
  further r requests deeds p (ended before later s q k e d) =
      ended (r ∷ before) later s (p, q) k (ap (λ l. r ∷ l) e)
        (ap (λ l. answered r.cmd r.current_status ++ l) d
          ∙ sym (append_assoc (answered r.cmd r.current_status) (asked before) _))

  handle-IsServed :
      (cmd : Command) (s : ServiceStatus) (requests : List ChangeRequest) (deeds : List Deed)
      → IsServed h deeds requests
      → IsServed h (handle h cmd s deeds) (record { cmd = cmd; current_status = s } ∷ requests)
  unfolding handle
  handle-IsServed interrogate s requests deeds p =
      further (record { cmd = interrogate; current_status = s }) requests deeds (λ e. cc, λ e. cc) p
  handle-IsServed stop s requests deeds p =
      ended [] requests (record { cmd = stop; current_status = s }) tt (inl refl) refl refl
  handle-IsServed shutdown s requests deeds p =
      ended [] requests (record { cmd = shutdown; current_status = s }) tt (inr refl) refl refl
  handle-IsServed other s requests deeds p =
      further (record { cmd = other; current_status = s }) requests deeds (λ e. cc, λ e. cc) p

  serve-IsServed : (requests : List ChangeRequest) → IsServed h (serve h requests) requests
  unfolding serve
  serve-IsServed [] = closed tt refl
  serve-IsServed (r ∷ requests) =
      handle-IsServed r.cmd r.current_status requests (serve h requests) (serve-IsServed requests)

  -- What `Execute` does: it reports that the service starts, starts the agent, reports that it runs, and
  -- answers the requests.
  pub record IsExecuted (requests : List ChangeRequest) (deeds : List Deed) : Type 0 where
    pub deeds_served : List Deed
    pub begins :
        deeds
        ≡ reported (pending_status start_pending)
          ∷ (when h.has_start started
              ++ (reported (record { state = running; accepts = true }) ∷ deeds_served))
    pub served : IsServed h deeds_served requests

  -- Whatever requests come, `Execute` reports that the service starts, starts the agent, and reports that
  -- it runs; it then answers each request for the status in order, up to the first Stop or Shutdown, at
  -- which it reports that the service stops, calls `stop` once, and does nothing more; without one it
  -- ends with the requests.
  pub execute-IsExecuted :
      (requests : List ChangeRequest) → IsExecuted requests (execute h requests)
  unfolding execute
  execute-IsExecuted requests = record {
    deeds_served = serve h requests;
    begins = refl;
    served = serve-IsServed requests;
  }
