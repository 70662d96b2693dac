-- ===== src/Tasks/Idempotent.antt =====
-- `createTask` of src/lib/platform/tasks.ts creates once for each key, and never overbooks an agent.
use obolos.Prelude.{◌≤◌, ◌<◌, ◌≡◌, refl, String, Bool, true, List, ◌∷◌}
use obolos.Prelude.{Option, none, some, ◌==◌, string_eq, find, arith, inl, inr}
use obolos.Prelude.{Bool-cases}
use obolos.Tasks.{Task}
use obolos.Tasks.Create.{TaskRow, TaskInput, created, replayed, open_count, has_key}
use obolos.Tasks.Create.{new_task, new_row, insert_task, create_task}
use obolos.Tasks.Histories.{IsNew}

module _ (request_hash : TaskInput → String) (owns : String → String → Bool) where
  -- What a creation found and left.
  pub record IsCreated (rows : List TaskRow) (id user key : String) (input : TaskInput)
      (after : List TaskRow) (t : Task) : Type 0 where
    pub new_id : t.id ≡ id
    pub fresh : find (has_key user input.agent_id key) rows ≡ none
    pub room : open_count input.agent_id rows < 25
    pub inserted : after ≡ new_row request_hash owns id user key input ∷ rows
    pub same_task : t ≡ new_task id input
    pub is_new : IsNew t
    pub allowed :
        (owns user input.agent_id ≡ true)
        × (t.agent_id ≡ input.agent_id)
        × (t.budget_atomic ≡ input.budget_atomic)

  insert_task-IsCreated :
      (rows : List TaskRow) (id user key : String) (input : TaskInput) (o : Option TaskRow)
      (after : List TaskRow) (t : Task)
      → find (has_key user input.agent_id key) rows ≡ o
      → owns user input.agent_id ≡ true
      → insert_task request_hash owns rows id user key input o ≡ created after t
      → IsCreated rows id user key input after t
  unfolding insert_task
  insert_task-IsCreated rows id user key input none after t found own e = ground arith
  insert_task-IsCreated rows id user key input (some row) after t found own e =
      absurd (ground arith)

  create_task-IsCreated :
      (rows : List TaskRow) (id user key : String) (input : TaskInput) (after : List TaskRow)
      (t : Task)
      → create_task request_hash owns rows id user (some key) input ≡ created after t
      → IsCreated rows id user key input after t
  unfolding create_task
  create_task-IsCreated rows id user key input after t e =
      insert_task-IsCreated rows id user key input (find (has_key user input.agent_id key) rows)
        after t refl (ground arith) (ground arith)

  has_key_new :
      (id user key : String) (input : TaskInput)
      → has_key user input.agent_id key (new_row request_hash owns id user key input) ≡ true
  has_key_new id user key input = ground (
    arith,
    string_eq.same_iff user user,
    string_eq.same_iff input.agent_id input.agent_id,
    string_eq.same_iff key key,
  )

  -- A task that was created is replayed, and not created again, when the same user asks with the same
  -- key and request, whatever new identifier is drawn and although the agent may be full by then.
  pub create_task_again :
      (rows : List TaskRow) (id other user key : String) (input : TaskInput) (after : List TaskRow)
      (t : Task)
      → create_task request_hash owns rows id user (some key) input ≡ created after t
      → create_task request_hash owns after other user (some key) input ≡ replayed t
  unfolding create_task insert_task
  create_task_again rows id other user key input after t e =
      let c = create_task-IsCreated rows id user key input after t e in
      rw c.inserted (
        ground (
          arith,
          e,
          c.same_task,
          has_key_new id user key input,
          string_eq.same_iff (request_hash input) (request_hash input),
        ))

  open_count-new :
      (agent id user key : String) (input : TaskInput) (rows : List TaskRow)
      → open_count input.agent_id rows < 25
      → open_count agent rows ≤ 25
      → open_count agent (new_row request_hash owns id user key input ∷ rows) ≤ 25
  open_count-new agent id user key input rows room h = elim (Bool-cases (input.agent_id == agent)) [
    | inl same ↦
        let here = (string_eq.same_iff input.agent_id agent).0 same in
        rw same (omega (arith, rw here at room))
    | inr other ↦ rw other h
  ]

  -- No creation, with a key or without, leaves an agent that had at most 25 open tasks with more.
  pub create_task-open_count :
      (rows : List TaskRow) (id user agent : String) (key : Option String) (input : TaskInput)
      (after : List TaskRow) (t : Task)
      → create_task request_hash owns rows id user key input ≡ created after t
      → open_count agent rows ≤ 25
      → open_count agent after ≤ 25
  unfolding create_task
  create_task-open_count rows id user agent none input after t e h = absurd (ground arith)
  create_task-open_count rows id user agent (some key) input after t e h =
      let c = create_task-IsCreated rows id user key input after t e in
      rw c.inserted (open_count-new agent id user key input rows c.room h)
