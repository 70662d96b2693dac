-- ===== src/Tasks/Histories.antt =====
-- The life of a task row of src/lib/platform/tasks.ts under concurrent owners and runners: an
-- operation may have read any earlier row, and writes if the row that stands has its revision.
use obolos.Prelude.{ℕ, ◌≡◌, refl, String, Option, none, some, arith, List}
use obolos.Prelude.{[], ◌∷◌, ◌++◌, ok, string_eq, >>=-ok}
use obolos.Prelude.{subst, ◌⊎◌, inl, inr}
use obolos.Tasks.{Task, TaskPlan, TaskStepResult, holds}
use obolos.Tasks.{queued}
use obolos.Tasks.Owner.{OwnerAction, approve, cancel, retry}
use obolos.Tasks.Owner.{update_task}
use obolos.Tasks.Claim.{claim_task}
use obolos.Tasks.Report.{Books, RunnerAction, Changes}
use obolos.Tasks.Report.{update_runner_task, changes_of, write_changes}
use obolos.Tasks.Sound.{IsSound}
use obolos.Prelude.{Bool-cases, nat_eq}
use obolos.Tasks.{task_status_eq}
use obolos.Prelude.{All}
use obolos.Tasks.Writes.{Write, by_owner, by_claim, by_runner, Write-IsSound}
use obolos.Tasks.Kept.{Keeps, KeepsPlan}
use obolos.Tasks.Kept.{KeepsWorker}

-- A row as the `INSERT` of `createTask` leaves it.
pub record IsNew (t : Task) : Type 0 where
  pub status : t.status ≡ queued
  pub plan : t.plan ≡ none
  pub plan_hash : t.plan_hash ≡ none
  pub approved : t.approved_plan_hash ≡ none
  pub results : t.step_results ≡ []
  pub worker : t.execution_worker ≡ none

abbrev pub In : Task → List Task → Type 0
In t [] = ⊥
In t (x ∷ xs) = (t ≡ x) ⊎ In t xs

-- The rows that stood, the newest first.
pub data History (books : Books) : List Task → Type 0 where
  created : {t : Task} → IsNew t → History books (t ∷ [])
  owner_wrote :
      {current after : Task} {older : List Task} (read : Task) (now : ℕ) (action : OwnerAction)
      → History books (current ∷ older)
      → In read (current ∷ older)
      → update_task books.task_plan_hash now read current action ≡ ok (some after)
      → History books (after ∷ current ∷ older)
  worker_claimed :
      {current after : Task} {older : List Task} (now : ℕ) (token worker : String)
      → History books (current ∷ older)
      → claim_task now token worker current ≡ some after
      → History books (after ∷ current ∷ older)
  runner_wrote :
      {current after : Task} {older : List Task} (read : Task) (now : ℕ) (token : String)
      (action : RunnerAction)
      → History books (current ∷ older)
      → In read (current ∷ older)
      → update_runner_task books now token read current action ≡ ok (some after)
      → History books (after ∷ current ∷ older)

update_task-revision :
    (hash : TaskPlan → String) (now : ℕ) (read current after : Task) (action : OwnerAction)
    → update_task hash now read current action ≡ ok (some after)
    → current.revision ≡ read.revision
unfolding update_task
update_task-revision hash now read current after (approve h) e = ground arith
update_task-revision hash now read current after cancel e = ground arith
update_task-revision hash now read current after retry e = ground arith

write_changes-revision :
    (now : ℕ) (token : String) (read current after : Task) (o : Option Changes)
    → write_changes now token read current o ≡ ok (some after)
    → current.revision ≡ read.revision
unfolding write_changes
write_changes-revision now token read current after none e = cc
write_changes-revision now token read current after (some c) e = ground arith

update_runner_task-revision :
    (books : Books) (now : ℕ) (token : String) (read current after : Task) (action : RunnerAction)
    → update_runner_task books now token read current action ≡ ok (some after)
    → current.revision ≡ read.revision
unfolding update_runner_task
update_runner_task-revision books now token read current after action e =
    elim (Bool-cases (holds read.claim_token token)) [
      | inr other ↦ absurd (ground (arith, other))
      | inl held ↦
          let (o, found, e') = >>=-ok (changes_of books now read action) _ (rw held at e) in
          write_changes-revision now token read current after o e'
    ]

trans_plan :
    (h : Option String) (t u v : Task)
    → t.approved_plan_hash ≡ h
    → KeepsPlan h t u
    → KeepsPlan u.approved_plan_hash u v
    → KeepsPlan h t v
trans_plan none t u v same p q = tt
trans_plan (some h) t u v same p q = ground (arith, p, q)

trans_worker :
    (w : Option String) (u v : Task)
    → KeepsWorker w u
    → KeepsWorker u.execution_worker v
    → KeepsWorker w v
trans_worker none u v p q = tt
trans_worker (some w) u v p q = ground (arith, p, q)

append_assoc : (xs ys zs : List TaskStepResult) → (xs ++ ys) ++ zs ≡ xs ++ (ys ++ zs)
append_assoc [] ys zs = refl
append_assoc (x ∷ xs) ys zs = ground (arith, append_assoc xs ys zs)

Keeps-trans : (t u v : Task) → Keeps t u → Keeps u v → Keeps t v
Keeps-trans t u v p q =
    let (m, first) = p.results in
    let (n, second) = q.results in
    record {
      terms = ground (arith, p.terms, q.terms);
      approval = trans_plan t.approved_plan_hash t u v refl p.approval q.approval;
      worker = trans_worker t.execution_worker u v p.worker q.worker;
      results = (m ++ n, ground (arith, first, second, append_assoc t.step_results m n));
      over = ground (arith, p.over, q.over);
      newer = omega (arith, p, q);
    }

All-Keeps :
    (older : List Task) (u v : Task)
    → Keeps u v
    → All (λ t. Keeps t u) older
    → All (λ t. Keeps t v) older
All-Keeps [] u v k a = tt
All-Keeps (t ∷ older) u v k (h, a) = (Keeps-trans t u v h k, All-Keeps older u v k a)

-- A row of the history with the revision of the newest is the newest.
newest :
    (read current : Task) (older : List Task)
    → In read older
    → All (λ t. Keeps t current) older
    → ¬ (current.revision ≡ read.revision)
newest read current [] h a e = h
newest read current (t ∷ older) (inl same) (h, a) e = absurd (ground (arith, h.newer, e, same))
newest read current (t ∷ older) (inr more) (h, a) e = newest read current older more a e

-- The newest row is sound, and every row before it is kept.
abbrev pub IsKept : Books → List Task → Type 0
IsKept books [] = ⊥
IsKept books (t ∷ older) = IsSound books.task_plan_hash t × All (λ old. Keeps old t) older

new-IsSound : {hash : TaskPlan → String} (t : Task) → IsNew t → IsSound hash t
new-IsSound t n = ground (arith, n)

module _ (books : Books) where
  Write-IsKept :
      (current after : Task) (older : List Task)
      → Write books current after
      → IsKept books (current ∷ older)
      → IsKept books (after ∷ current ∷ older)
  Write-IsKept current after older w (s, a) =
      let (sound, keeps) = Write-IsSound books current after s w in
      (sound, (keeps, All-Keeps older current after keeps a))

  read_current :
      (read current : Task) (older : List Task)
      → In read (current ∷ older)
      → IsKept books (current ∷ older)
      → current.revision ≡ read.revision
      → read ≡ current
  read_current read current older (inl same) (s, a) e = same
  read_current read current older (inr more) (s, a) e = absurd (newest read current older more a e)

  -- Whatever owners and runners do to a task at once, reading rows that may be stale: the row that
  -- stands satisfies the table's checks (its plan is within its budget and the hash is the plan's, an
  -- approval is of that plan and has an expiry, nothing is executed without one, a running or completed task has its worker, and a
  -- completed one a result for each step), and every earlier row's request terms, approved plan,
  -- executing worker and results are in it unchanged; a completed or cancelled task stays so.
  pub History-IsKept : {rows : List Task} → History books rows → IsKept books rows
  History-IsKept (created {t} n) = (new-IsSound t n, tt)
  History-IsKept (owner_wrote {current} {after} {older} read now action h i e) =
      let kept = History-IsKept h in
      let same =
        read_current read current older i kept
          (update_task-revision books.task_plan_hash now read current after action e) in
      Write-IsKept current after older
        (by_owner now action (
          subst (λ r. update_task books.task_plan_hash now r current action ≡ ok (some after)) same
            e))
        kept
  History-IsKept (worker_claimed {current} {after} {older} now token worker h e) =
      Write-IsKept current after older (by_claim now token worker e) (History-IsKept h)
  History-IsKept (runner_wrote {current} {after} {older} read now token action h i e) =
      let kept = History-IsKept h in
      let same =
        read_current read current older i kept
          (update_runner_task-revision books now token read current after action e) in
      Write-IsKept current after older
        (by_runner now token action (
          subst (λ r. update_runner_task books now token r current action ≡ ok (some after)) same
            e))
        kept
