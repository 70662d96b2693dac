-- ===== src/Runner/Recovery.antt =====
-- A journal that these methods wrote opens again, and no interrupted job is taken up.
use obolos.Prelude.{String, ◌≡◌, refl, Bool, true, false, ◌&&◌, ◌||◌, not, List, [], ◌∷◌}
use obolos.Prelude.{◌++◌, map, none, ◌==◌, string_eq, arith, all, includes, is_distinct}
use obolos.Prelude.{Bool-cases, inl, inr}
use obolos.Contracts.{Run}
use obolos.Engine.{Env}
use obolos.Runner.{RunnerJob}
use obolos.Runner.Journal.{Hashes, Entry, JournalData, JournalFile, missing, unreadable, contents}
use obolos.Runner.Journal.{RunnerJournal, WriteEnd, written, start, persist, amend, checkpoint}
use obolos.Runner.Journal.{
  finish, acknowledge, close, load, recover_entry, stop_uncertain, new_entry,
}
use obolos.Runner.Journal.{amend_entries, is_healthy, entry_is_intact, is_started}
use obolos.Runner.Journal.{finished, acknowledged}
use obolos.Runner.Once.{JournalState, JournalStep, JournalSteps, here, next, after, has_entry}
use obolos.Runner.Once.{starting, checkpointing, finishing, acknowledging, closing, reopening}

abbrev pub ids : List Entry → List String
ids jobs = map (λ (e : Entry). e.job.id) jobs

abbrev pub ids_in : JournalFile → List String
ids_in missing = []
ids_in unreadable = []
ids_in (contents d) = ids d.jobs

includes-ids : (id : String) (jobs : List Entry) → includes (ids jobs) id ≡ has_entry id jobs
includes-ids id [] = refl
includes-ids id (x ∷ jobs) = ground (arith, includes-ids id jobs)

includes-append :
    (id : String) (jobs : List Entry) (e : Entry)
    → includes (ids (jobs ++ e ∷ [])) id ≡ (includes (ids jobs) id || (e.job.id == id))
includes-append id [] e = ground arith
includes-append id (x ∷ jobs) e = ground (arith, includes-append id jobs e)

distinct-append :
    (jobs : List Entry) (e : Entry)
    → is_distinct (ids jobs) ≡ true
    → has_entry e.job.id jobs ≡ false
    → is_distinct (ids (jobs ++ e ∷ [])) ≡ true
distinct-append [] e h n = refl
distinct-append (x ∷ jobs) e h n = ground (
  arith,
  includes-append x.job.id jobs e,
  string_eq.same_iff e.job.id x.job.id,
  string_eq.same_iff x.job.id e.job.id,
  distinct-append jobs e,
)

ids-amend :
    (id : String) (f : Entry → Entry) (jobs : List Entry)
    → ((e : Entry) → (f e).job ≡ e.job)
    → ids (amend id f jobs) ≡ ids jobs
unfolding amend
ids-amend id f [] keep = refl
ids-amend id f (x ∷ jobs) keep = ground (arith, keep x, ids-amend id f jobs keep)

ids-recover : (env : Env) (jobs : List Entry) → ids (map (recover_entry env) jobs) ≡ ids jobs
unfolding recover_entry
ids-recover env [] = refl
ids-recover env (x ∷ jobs) = ground (arith, ids-recover env jobs)

module _ (hashes : Hashes) (agent : String) where
  abbrev pub ok_entry : Entry → Bool
  ok_entry = entry_is_intact hashes agent

  all-amend :
      (id : String) (f : Entry → Entry) (jobs : List Entry)
      → ((e : Entry) → (e.job.id == id) ≡ true → ok_entry e ≡ true → ok_entry (f e) ≡ true)
      → all ok_entry jobs ≡ true
      → all ok_entry (amend id f jobs) ≡ true
  unfolding amend
  all-amend id f [] keep h = refl
  all-amend id f (x ∷ jobs) keep h = ground (arith, keep x, all-amend id f jobs keep)

  recover-ok_entry :
      (env : Env) (e : Entry) → ok_entry e ≡ true → ok_entry (recover_entry env e) ≡ true
  unfolding recover_entry stop_uncertain
  recover-ok_entry env e h = ground arith

  all-recover :
      (env : Env) (jobs : List Entry)
      → all ok_entry jobs ≡ true
      → all ok_entry (map (recover_entry env) jobs) ≡ true
  all-recover env [] h = refl
  all-recover env (x ∷ jobs) h = ground (arith, recover-ok_entry env x, all-recover env jobs)

  replaced-ok_entry :
      (e : Entry) (id : String) (run : Run)
      → (run.id == id) ≡ true
      → (e.job.id == id) ≡ true
      → ok_entry e ≡ true
      → ok_entry (record e { run = run }) ≡ true
  replaced-ok_entry e id run same found h = ground (
    arith,
    string_eq.same_iff run.id id,
    string_eq.same_iff e.job.id id,
    string_eq.same_iff run.id e.job.id,
  )

  all-ok_append :
      (jobs : List Entry) (e : Entry)
      → all ok_entry jobs ≡ true
      → ok_entry e ≡ true
      → all ok_entry (jobs ++ e ∷ []) ≡ true
  all-ok_append [] e h k = ground arith
  all-ok_append (x ∷ jobs) e h k = ground (arith, all-ok_append jobs e)

  abbrev pub data_is_intact : JournalData → Bool
  data_is_intact d = (d.agent_id == agent) && (is_distinct (ids d.jobs) && all ok_entry d.jobs)

  abbrev pub file_is_intact : JournalFile → Bool
  file_is_intact missing = false
  file_is_intact unreadable = false
  file_is_intact (contents d) = data_is_intact d

  -- The file holds an intact journal of the agent, and so does the memory.
  abbrev pub IsIntact : JournalState → Type 0
  IsIntact s = (file_is_intact s.file ≡ true) × (data_is_intact s.journal.entries ≡ true)

  persist-IsIntact :
      (end : WriteEnd) (file : JournalFile) (j : RunnerJournal)
      → file_is_intact file ≡ true
      → data_is_intact j.entries ≡ true
      → IsIntact (after (persist end file j))
  unfolding persist
  persist-IsIntact end file j f d = ground arith

  start-IsIntact :
      (end : WriteEnd) (s : JournalState) (job : RunnerJob) (run : Run)
      → IsIntact s
      → IsIntact (after (start hashes end s.file s.journal job run))
  unfolding start
  start-IsIntact end s job run (f, d) = ground (
    arith,
    distinct-append s.journal.entries.jobs (new_entry hashes job run),
    all-ok_append s.journal.entries.jobs (new_entry hashes job run),
    string_eq.same_iff job.agent_id s.journal.entries.agent_id,
    string_eq.same_iff job.agent_id agent,
    string_eq.same_iff s.journal.entries.agent_id agent,
    string_eq.same_iff (hashes.of_job job) (hashes.of_job job),
  )

  amended-IsIntact :
      (id : String) (f : Entry → Entry) (end : WriteEnd) (s : JournalState)
      → ((e : Entry) → (f e).job ≡ e.job)
      → ((e : Entry) → (e.job.id == id) ≡ true → ok_entry e ≡ true → ok_entry (f e) ≡ true)
      → IsIntact s
      → IsIntact (after (persist end s.file (amend_entries id f s.journal)))
  amended-IsIntact id f end s job keep (h, d) =
      persist-IsIntact end s.file (amend_entries id f s.journal) h (
        ground (
          arith,
          d,
          ids-amend id f s.journal.entries.jobs job,
          all-amend id f s.journal.entries.jobs keep,
        ))

  load-IsIntact :
      (env : Env) (end : WriteEnd) (pinned : String) (file : JournalFile)
      → file_is_intact file ≡ true
      → IsIntact (after (load hashes env end pinned file))
  unfolding load
  load-IsIntact env end pinned missing f = cc
  load-IsIntact env end pinned unreadable f = cc
  load-IsIntact env end pinned (contents d) f =
      ground (arith, ids-recover env d.jobs, all-recover env d.jobs)

  checkpoint-IsIntact :
      (end : WriteEnd) (s : JournalState) (id : String) (run : Run)
      → IsIntact s
      → IsIntact (after (checkpoint end s.file s.journal id run))
  unfolding checkpoint
  checkpoint-IsIntact end s id run h = elim (Bool-cases (run.id == id)) [
    | inr other ↦ ground arith
    | inl same ↦ ground (
      arith,
      amended-IsIntact id (λ e. record e { run = run }) end s (λ e. refl)
          (λ e found intact. replaced-ok_entry e id run same found intact) h,
    )
  ]

  finish-IsIntact :
      (end : WriteEnd) (s : JournalState) (id : String) (run : Run)
      → IsIntact s
      → IsIntact (after (finish end s.file s.journal id run))
  unfolding finish
  finish-IsIntact end s id run h = elim (Bool-cases (run.id == id)) [
    | inr other ↦ ground arith
    | inl same ↦ ground (
      arith,
      amended-IsIntact id (λ e. record e { run = run; state = finished }) end s (λ e. refl)
          (λ e found intact. replaced-ok_entry e id run same found intact) h,
    )
  ]

  acknowledge-IsIntact :
      (end : WriteEnd) (s : JournalState) (id : String)
      → IsIntact s
      → IsIntact (after (acknowledge end s.file s.journal id))
  unfolding acknowledge
  acknowledge-IsIntact end s id h = ground (
    arith,
    amended-IsIntact id (λ e. record e { state = acknowledged }) end s (λ e. refl)
        (λ e found intact. intact) h,
  )

  JournalStep-IsIntact : (s t : JournalState) → JournalStep hashes s t → IsIntact s → IsIntact t
  unfolding close
  JournalStep-IsIntact s t (starting end job run) h = start-IsIntact end s job run h
  JournalStep-IsIntact s t (checkpointing end id run) h = checkpoint-IsIntact end s id run h
  JournalStep-IsIntact s t (finishing end id run) h = finish-IsIntact end s id run h
  JournalStep-IsIntact s t (acknowledging end id) h = acknowledge-IsIntact end s id h
  JournalStep-IsIntact s t closing h = h
  JournalStep-IsIntact s t (reopening env end pinned) h = load-IsIntact env end pinned s.file h.0

  pub JournalSteps-IsIntact :
      {s t : JournalState} → IsIntact s → JournalSteps hashes s t → IsIntact t
  JournalSteps-IsIntact h here = h
  JournalSteps-IsIntact h (next {t} {u} r st) =
      JournalStep-IsIntact t u st (JournalSteps-IsIntact h r)

  none_started :
      (env : Env) (jobs : List Entry)
      → all (λ (e : Entry). not (is_started e.state)) (map (recover_entry env) jobs) ≡ true
  unfolding recover_entry
  none_started env [] = refl
  none_started env (x ∷ jobs) = ground (arith, none_started env jobs)

  pub load_intact :
      (env : Env) (file : JournalFile)
      → file_is_intact file ≡ true
      → ((load hashes env written agent file).error ≡ none)
        × (is_healthy (load hashes env written agent file).journal ≡ true)
        × (all
              (λ (e : Entry). not (is_started e.state))
              (load hashes env written agent file).journal.entries.jobs
            ≡ true)
        × (ids (load hashes env written agent file).journal.entries.jobs ≡ ids_in file)
  unfolding load
  load_intact env missing f = cc
  load_intact env unreadable f = cc
  load_intact env (contents d) f = ground (arith, none_started env d.jobs, ids-recover env d.jobs)
