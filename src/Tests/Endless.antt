-- ===== src/Tests/Endless.antt =====
-- The loops of the engines, three rounds of them.
use native.Mathlib.Decide.{ℕ_discrete}
use it_portal_agent.Prelude.{◌≡◌, refl}
use it_portal_agent.Loops.{going, run_heartbeat, run_hardware, run_software}
use it_portal_agent.Loops.Endless.{run_heartbeat-going, run_hardware-going, run_software-going}
use it_portal_agent.Tests.{env, engine, waiting}
use it_portal_agent.Tests.Agent.{floats, outside}
use it_portal_agent.Tests.Hardware
use it_portal_agent.Tests.Inventory
use it_portal_agent.Text.{text}
use it_portal_agent.World.{background}

run_heartbeat-going_example :
    (run_heartbeat env background floats outside engine (text "0.2.0") 3 waiting).0 ≡ going
run_heartbeat-going_example =
    run_heartbeat-going env background (λ n. refl) floats outside engine (text "0.2.0") 3 waiting

run_hardware-going_example :
    (run_hardware env background floats outside engine
      (text "0.2.0")
      Hardware.tools
      ℕ_discrete
      3
      waiting).0
    ≡ going
run_hardware-going_example =
    run_hardware-going env background (λ n. refl) floats outside engine (text "0.2.0")
      Hardware.tools ℕ_discrete (λ n. refl) 3 waiting

run_software-going_example :
    (run_software env background floats engine Inventory.tools 3 waiting).0 ≡ going
run_software-going_example =
    run_software-going env background (λ n. refl) floats engine Inventory.tools 3 waiting
