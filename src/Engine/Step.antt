-- ===== src/Engine/Step.antt =====
-- `advanceRun` of src/lib/engine.ts: the first stages, the dispatch on the stage and the `catch`.
use obolos.Prelude.{String, Bool, true, false, List, [], ◌∷◌}
use obolos.Prelude.{none, some, nat_eq, string_eq, if◌then◌else◌}
use obolos.Prelude.{length, lit, num, scaled}
use obolos.Prelude.{Result, ok, ◌>>◌}
use obolos.Contracts.{Stage, RunStatus, Run, Provider}
use obolos.Contracts.{Gateway, Thrown}
use obolos.Contracts.{has_passed, mode_eq, network_eq}
use obolos.Contracts.{asset_eq, broker, planner, success, blocked}
use obolos.Contracts.{running, awaiting_approval, completed, failed, paused}
use obolos.Engine.{Env, log, require_live_run}
use obolos.Contracts.{ready}
use obolos.Engine.Choose.{eligible_providers}
use obolos.Engine.Pay.{Attempt, stepped, threw, await, step_purchase}
use obolos.Engine.Verify.{step_report, step_verification}

unfoldable pub step_mandate : Env → Run → Attempt
step_mandate env run =
    let accepted = log env run broker success "Mandate accepted" (
      lit
        "Only named services can receive requests. Wallet and provider credentials remain outside the agent."
      ∷ []) in
    stepped (record accepted { stage = Stage.discovery })

unfoldable pub choose_first : Env → Run → List Provider → Attempt
choose_first env run [] = threw run (some "No discoverable provider is on the allowlist.")
choose_first env run (p ∷ ps) =
    let chosen = record run { selected_provider = some p.id; stage = Stage.purchase } in
    stepped (
      log env chosen planner success "Services discovered" (
        lit "Selected "
        ∷ lit p.name
        ∷ lit " at "
        ∷ scaled p.unit_price_atomic 8
        ∷ lit " HBAR per repository from "
        ∷ num (length (p ∷ ps))
        ∷ lit " approved quotes."
        ∷ []))

unfoldable pub step_discovery : Env → Gateway → Run → Attempt
unfolding choose_first
step_discovery env gateway run = await run gateway.discover λ providers.
    let seen = record run { providers = providers } in
    choose_first env seen (eligible_providers seen.mandate providers)

unfoldable pub by_stage : Stage → Env → Gateway → Run → Attempt
unfolding step_mandate step_discovery step_purchase step_report step_verification
by_stage Stage.mandate env gateway run = step_mandate env run
by_stage Stage.discovery env gateway run = step_discovery env gateway run
by_stage Stage.purchase env gateway run = step_purchase env gateway run
by_stage Stage.report env gateway run = step_report env gateway run
by_stage Stage.verification env gateway run = step_verification env gateway run
by_stage Stage.complete env gateway run = stepped run

-- The body of the `try`.
unfoldable pub attempt : Env → Gateway → Run → Attempt
unfolding by_stage
attempt env gateway run =
    if has_passed run.mandate.expires_at env.now
    then threw run (some "Mandate expired. Start a new job with a fresh allowance.")
    else by_stage run.stage env gateway run

abbrev pub message_of : Thrown → String
message_of none = "The operation failed."
message_of (some m) = m

-- The `catch`.
abbrev pub settle : Env → Attempt → Run
settle env (stepped run) = run
settle env (threw run e) =
    log env (record run { status = failed; error = some (message_of e) }) broker blocked
      "Run stopped" (lit (message_of e) ∷ [])

abbrev pub is_stopped : RunStatus → Bool
is_stopped completed = true
is_stopped failed = true
is_stopped paused = true
is_stopped awaiting_approval = true
is_stopped ready = false
is_stopped running = false

unfoldable pub advance_run : Env → Gateway → Run → Result String Run
unfolding attempt
advance_run env gateway run = do
  require_live_run run
  ok (
      if is_stopped run.status
      then run
      else settle env (attempt env gateway (record run { status = running })))
