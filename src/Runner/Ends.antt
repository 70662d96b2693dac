-- ===== src/Runner/Ends.antt =====
-- `executeJob` of src/lib/runner/execution.ts ends: its loop takes five steps of the engine at most.
use obolos.Prelude.{ℕ, zero, suc, ◌+◌, ◌≤◌, ◌<◌, ◌≡◌, refl, String, true, false, ◌⊎◌, inl, inr}
use obolos.Prelude.{Option, none, some, List, [], ◌∷◌, arith, ok, ◌==◌, string_eq}
use obolos.Prelude.{Bool-cases, Option-cases, Result-cases}
use obolos.Contracts.{Run}
use obolos.Engine.{Env}
use obolos.Engine.Create.{create_run}
use obolos.Engine.Step.{is_stopped, message_of}
use obolos.Engine.Sound.{IsSound}
use obolos.Engine.Reached.{advance_run-IsSound}
use obolos.Runner.{RunnerJob, RunnerPins}
use obolos.Runner.Mandate.{Checks, validate_job}
use obolos.Runner.Journal.{
  Hashes, Entry, WriteEnd, start, checkpoint, finish, existing, is_terminal,
}
use obolos.Runner.Journal.{stop_uncertain, entry_of, finished, contents, state_is, is_started}
use obolos.Runner.Journal.{amend, persist}
use obolos.Runner.Once.{JournalState, after}
use obolos.Runner.Progress.{HasAdvanced, open_rank, stage_rank, advance_run-HasAdvanced}
use obolos.Runner.Execution.{
  Iteration, Ended, run_loop, ended_with, stopped, finished_with, run_input,
}
use obolos.Runner.Execution.{execute_job, create_and_start, start_and_loop}

-- A run that the loop can finish on the fuel.
abbrev HasFuel : ℕ → Run → Type 0
HasFuel fuel run =
    (is_terminal run.status ≡ true) × (1 ≤ fuel)
    ⊎ (is_stopped run.status ≡ false) × (6 ≤ fuel + stage_rank run.stage)

no_fuel : (run : Run) → ¬ HasFuel 0 run
no_fuel run h = ground arith

terminal_or_open :
    (fuel : ℕ) (run : Run)
    → HasFuel fuel run
    → is_terminal run.status ≡ false
    → (is_stopped run.status ≡ false) × (6 ≤ fuel + stage_rank run.stage)
terminal_or_open fuel run h t = ground arith

open_below : (run : Run) → is_stopped run.status ≡ false → IsSound run → stage_rank run.stage < 5
open_below run o h = open_rank run.receipts run h.accounts o

advanced-HasFuel :
    (fuel : ℕ) (run after : Run)
    → stage_rank run.stage < 5
    → 6 ≤ suc fuel + stage_rank run.stage
    → HasAdvanced (stage_rank run.stage) after
    → HasFuel fuel after
advanced-HasFuel fuel run after b f (inl t) = inl (t, omega (arith, b, f))
advanced-HasFuel fuel run after b f (inr (s, r)) = inr (ground (arith, s), omega (arith, f, r))

-- What a `finish` that threw nothing left in the journal.
abbrev IsStored : String → Run → Option Entry → Type 0
IsStored id run none = ⊥
IsStored id run (some e) = (e.run ≡ run) × (e.state ≡ finished) × (e.job.id ≡ id)

pub record IsFinished (id : String) (run : Run) (s : JournalState) : Type 0 where
  pub over : is_terminal run.status ≡ true
  pub stored : IsStored id run (entry_of id s.journal.entries.jobs)
  pub on_disk : s.file ≡ contents s.journal.entries

entry_of-amend :
    (id : String) (run : Run) (jobs : List Entry)
    → state_is is_started (entry_of id jobs) ≡ true
    → IsStored id run (entry_of id (amend id (λ e. record e { run = run; state = finished }) jobs))
unfolding amend
entry_of-amend id run [] h = cc
entry_of-amend id run (x ∷ jobs) h = elim (Bool-cases (x.job.id == id)) [
  | inl same ↦ rw (same, same) (refl, refl, (string_eq.same_iff x.job.id id).0 same)
  | inr other ↦ rw (other, other) (entry_of-amend id run jobs (rw other at h))
]

finish-IsFinished :
    (end : WriteEnd) (s : JournalState) (id : String) (run : Run)
    → (finish end s.file s.journal id run).error ≡ none
    → IsFinished id run (after (finish end s.file s.journal id run))
unfolding finish persist
finish-IsFinished end s id run h = ground (arith, entry_of-amend id run s.journal.entries.jobs)

-- A call that throws nothing leaves a terminal run, finished in the journal and on disk.
abbrev pub EndsWell : String → Ended → Type 0
EndsWell id e = (run : Run) × (e.run ≡ some run) × IsFinished id run e.journal

abbrev pub Ends : String → Option Ended → Type 0
Ends id o = (e : Ended) × (o ≡ some e) × (e.error ≡ none → EndsWell id e)

module _ (world : ℕ → Iteration) (id : String) where
  run_loop-Ends :
      (fuel i : ℕ) (s : JournalState) (run : Run)
      → IsSound run
      → HasFuel fuel run
      → Ends id (run_loop world id fuel i s run)
  unfolding run_loop
  run_loop-Ends zero i s run h f = absurd (no_fuel run f)
  run_loop-Ends (suc fuel) i s run h f = elim (Bool-cases (is_terminal run.status)) [
    | inl t ↦
        rw (run_loop, t)
          (
            finished_with world id i s run,
            refl,
            λ e. (run, refl, finish-IsFinished (world i).end s id run e),
          )
    | inr going ↦ elim (Bool-cases (world i).aborted) [
      | inl aborted ↦
          let cut = stop_uncertain (world i).env run in
          rw (run_loop, going, aborted)
            (
              finished_with world id i s cut,
              refl,
              λ e. (cut, refl, finish-IsFinished (world i).end s id cut e),
            )
      | inr on ↦
          let (o, enough) = terminal_or_open (suc fuel) run f going in
          let (next, e, more) = advance_run-HasAdvanced (world i).env (world i).gateway run h o in
          let kept = checkpoint (world i).end s.file s.journal id next in
          elim (Option-cases kept.error) [
            | inr (message, failed) ↦
                rw (run_loop, going, on, e, failed)
                  (
                    ended_with next kept,
                    refl,
                    λ none_thrown. absurd (ground (arith, failed, none_thrown)),
                  )
            | inl written ↦
                rw (run_loop, going, on, e, written)
                  (run_loop-Ends fuel (suc i) (after kept) next
                    (advance_run-IsSound (world i).env (world i).gateway run next e h)
                    (advanced-HasFuel fuel run next (open_below run o h) enough more))
          ]
    ]
  ]

module _ (hashes : Hashes) (world : ℕ → Iteration) where
  start_and_loop-Ends :
      (end : WriteEnd) (s : JournalState) (job : RunnerJob) (run : Run)
      → IsSound run
      → HasFuel 6 run
      → Ends job.id (start_and_loop hashes world 6 end s job run)
  unfolding start_and_loop
  start_and_loop-Ends end s job run h f =
      let o = start hashes end s.file s.journal job run in
      elim (Option-cases o.error) [
        | inr (message, failed) ↦
            rw (start_and_loop, failed)
              (ended_with run o, refl, λ none_thrown. absurd (ground (arith, failed, none_thrown)))
        | inl written ↦
            rw (start_and_loop, written) (run_loop-Ends world job.id 6 0 (after o) run h f)
      ]

  created-IsSound :
      (env : Env) (id other : String) (job : RunnerJob) (run : Run)
      → create_run env id (run_input job) ≡ ok run
      → IsSound (record run { id = other }) × HasFuel 6 run
  unfolding create_run
  created-IsSound env id other job run e = (ground arith, ground arith)

  create_and_start-Ends :
      (env : Env) (end : WriteEnd) (id : String) (s : JournalState) (job : RunnerJob)
      → Ends job.id (create_and_start hashes world 6 env end id s job)
  unfolding create_and_start
  create_and_start-Ends env end id s job = elim (Result-cases (create_run env id (run_input job))) [
    | inl (run, e) ↦
        let (h, f) = created-IsSound env id job.id job run e in
        rw (create_and_start, e) (start_and_loop-Ends end s job (record run { id = job.id }) h f)
    | inr (message, e) ↦
        rw (create_and_start, e) (stopped s none message, refl, λ none_thrown. absurd cc)
  ]

  job_ends :
      (env : Env) (checks : Checks) (pins : RunnerPins) (end : WriteEnd) (id : String)
      (s : JournalState) (job : RunnerJob)
      → (e : Ended) × (execute_job hashes world 6 env checks pins end id s job ≡ some e)
        × (e.error ≡ none
            → ((existing hashes s.journal job ≡ ok true) × (e.journal ≡ s)) ⊎ EndsWell job.id e)
  unfolding execute_job
  job_ends env checks pins end id s job = elim (Result-cases (existing hashes s.journal job)) [
    | inr (message, x) ↦
        rw (execute_job, x) (stopped s none message, refl, λ none_thrown. absurd cc)
    | inl (found, x) ↦ elim (Bool-cases found) [
      | inl there ↦
          rw (execute_job, x, there)
            (record { run = none; journal = s; error = none }, refl, λ _. inl (refl, refl))
      | inr new ↦ elim (Result-cases (validate_job checks job pins)) [
        | inr (thrown, v) ↦
            rw (execute_job, x, new, v)
              (stopped s none (message_of thrown), refl, λ none_thrown. absurd cc)
        | inl (_, v) ↦
            let (e, returned, well) = create_and_start-Ends env end id s job in
            rw (execute_job, x, new, v) (e, returned, λ none_thrown. inr (well none_thrown))
      ]
    ]
  ]

  -- On fuel for five steps of the engine `executeJob` returns, whatever the gateways answer, the
  -- clocks say, the signal asks and the writes do. It throws, or the journal held the job before
  -- and nothing has changed, or the run ended completed, failed or waiting for the
  -- owner, and it stands as the job's finished entry in the journal and on disk.
  pub execute_job-ends :
      (env : Env) (checks : Checks) (pins : RunnerPins) (end : WriteEnd) (id : String)
      (s : JournalState) (job : RunnerJob)
      → (e : Ended) × (execute_job hashes world 6 env checks pins end id s job ≡ some e)
        × (((message : String) × (e.error ≡ some message))
            ⊎ (existing hashes s.journal job ≡ ok true) × (e.journal ≡ s)
            ⊎ EndsWell job.id e)
  execute_job-ends env checks pins end id s job =
      let (e, returned, well) = job_ends env checks pins end id s job in
      elim (Option-cases e.error) [
        | inr thrown ↦ (e, returned, inl thrown)
        | inl none_thrown ↦ (e, returned, inr (well none_thrown))
      ]
