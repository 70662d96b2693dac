-- ===== src/Engine/Moves.antt =====
-- The life of a run: the calls that src/lib/engine.ts offers on it, in any order, and the rules by
-- which a property is carried through a step that may throw.
use obolos.Prelude.{String, ◌≡◌, List, Option, Result, ok, err}
use obolos.Contracts.{Run, Provider, Gateway, Thrown, AuditBody}
use obolos.Engine.{Env}
use obolos.Engine.Create.{RunInput, create_run}
use obolos.Engine.Pay.{Attempt, stepped, threw, await}
use obolos.Engine.Step.{advance_run}
use obolos.Engine.Control.{apply_shock, approve_run, pause_run}

-- One call that returned, in its surroundings.
pub data Move (env : Env) (run after : Run) : Type 0 where
  advanced : (gateway : Gateway) → advance_run env gateway run ≡ ok after → Move env run after
  shocked :
      (quotes : Option (List Provider)) → apply_shock env run quotes ≡ ok after → Move env run after
  approved :
      (signature : Option String) → approve_run env run signature ≡ ok after → Move env run after
  toggled : pause_run env run ≡ ok after → Move env run after

-- The surroundings may change from call to call, but for the hash function.
pub data Reached (event_hash : AuditBody → String) : Run → Type 0 where
  created :
      {run : Run} (env : Env) (id : String) (input : RunInput)
      → env.event_hash ≡ event_hash
      → create_run env id input ≡ ok run
      → Reached event_hash run
  moved :
      {run after : Run} (env : Env)
      → env.event_hash ≡ event_hash
      → Reached event_hash run
      → Move env run after
      → Reached event_hash after

-- The run as an attempt left it.
abbrev pub state_of : Attempt → Run
state_of (stepped run) = run
state_of (threw run e) = run

pub await-keeps {ℓ} :
    {A : Type 0} (P : Run → Type ℓ) (run : Run) (r : Result Thrown A) (k : A → Attempt)
    → P run
    → ((a : A) → r ≡ ok a → P (state_of (k a)))
    → P (state_of (await run r k))
await-keeps P run (ok a) k h next = next a (λ i. ok a)
await-keeps P run (err e) k h next = h
