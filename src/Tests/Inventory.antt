-- ===== src/Tests/Inventory.antt =====
-- A run of the software inventory whose collector finds nothing installed.
use it_portal_agent.Prelude.{ℕ, refl, none, []}
use it_portal_agent.Software.Engine.{Tools, run_once}
use it_portal_agent.Software.Engine.Outcome.{last_fingerprint, IsConcluded, run_once-IsConcluded}
use it_portal_agent.World.{answer, background}
use it_portal_agent.Tests.{env, engine, waiting}
use it_portal_agent.Tests.Agent.{floats}

abbrev pub tools : Tools ℕ
tools = record {
  collect = λ n. answer [];
  marshal = λ p. answer p.agent_uuid;
  marshal_identity = λ uuid items. uuid;
  parse_object = λ t. none;
  parse_duration = λ t. none;
  lower_unicode = λ t. t;
}

run_once-IsConcluded_example :
    IsConcluded tools env engine
      (last_fingerprint waiting)
      (run_once floats tools env engine background waiting)
run_once-IsConcluded_example =
    run_once-IsConcluded floats tools env (λ n. refl) engine background waiting
