-- ===== src/Tasks/Claim.antt =====
-- `claimTask` of src/lib/platform/tasks.ts, on one row that it locks: whether the row is a candidate
-- for the worker, and the row that the claim leaves.
use obolos.Prelude.{ℕ, ◌+◌, String, Bool, true, false, ◌&&◌, ◌||◌, not, Option, none, some, ltb}
use obolos.Prelude.{if◌then◌else◌}
use obolos.Tasks.{Task, TaskStatus, ClaimPhase, queued, planning, approved, running, holds, is_null}

-- `t.claim_until IS NULL OR t.claim_until<now() OR t.claim_worker=${workerId}`
abbrev pub lease_is_free : ℕ → String → Task → Bool
lease_is_free now worker t =
    elim t.claim_until [ none ↦ true | some until ↦ ltb until now ] || holds t.claim_worker worker

abbrev pub awaits_plan : TaskStatus → Bool
awaits_plan queued = true
awaits_plan planning = true
awaits_plan _ = false

abbrev pub awaits_execution : TaskStatus → Bool
awaits_execution approved = true
awaits_execution running = true
awaits_execution _ = false

abbrev is_ahead : Option ℕ → ℕ → Bool
is_ahead none now = false
is_ahead (some t) now = ltb now t

unfoldable pub is_candidate : ℕ → String → Task → Bool
is_candidate now worker t =
    (awaits_plan t.status && lease_is_free now worker t)
    || (awaits_execution t.status
        && (is_null t.execution_worker || holds t.execution_worker worker)
        && (not (is_null t.execution_worker) || is_ahead t.approval_expires_at now)
        && lease_is_free now worker t)

abbrev pub or_else : Option String → String → Option String
or_else none s = some s
or_else (some t) s = some t

-- What the `UPDATE` makes of the row.
abbrev pub claimed : ℕ → String → String → Task → Task
claimed now token worker t =
    let is_unapproved = is_null t.approved_plan_hash in
    record t {
      status = if is_unapproved then planning else running;
      claim_phase = some (if is_unapproved then ClaimPhase.plan else ClaimPhase.execute);
      claim_token =
          if holds t.claim_worker worker && not (is_null t.claim_token)
          then t.claim_token
          else some token;
      claim_worker = some worker;
      claim_until = some (now + 120000);
      execution_worker =
          if is_unapproved then t.execution_worker else or_else t.execution_worker worker;
      revision = t.revision + 1;
    }

-- The row that a claim leaves, `none` if the row is no candidate.
unfoldable pub claim_task : ℕ → String → String → Task → Option Task
unfolding is_candidate
claim_task now token worker t =
    if is_candidate now worker t then some (claimed now token worker t) else none
