-- ===== src/Executor/Frames.antt =====
-- What the operations of one order leave alone, and that none of them is submitted twice.
use obolos.Prelude.{ℕ, ◌+◌, ◌≤◌, String, Bool, true, false, not, List, [], ◌∷◌, Option, none}
use obolos.Prelude.{some, string_eq, ◌≡◌, refl, ◌∙◌, arith, Result, ok, err}
use obolos.Prelude.{throw_if, if◌then◌else◌, nat_beq}
use obolos.Stateful.{Stateful, lift, then_run, ◌>>◌, Ends, Ends-lift}
use obolos.Executor.{ExecutorAction, CircleResult}
use obolos.Executor.{Operation, File, missing, unreadable, contents, SaveEnd, written, lost}
use obolos.Executor.{
  half_done, died, died_after, OperationFiles, Desk, operation_of, with_operation,
}
use obolos.Executor.{Reconciliation, Runtime, ended}
use obolos.Executor.Operations.{save_operation}
use obolos.Executor.Operations.{take_match, conflicts, matched_operation, with_hash}
use obolos.Executor.Operations.{take_user_operation, find_user_operation}
use obolos.Executor.Operations.{has_operation, is_own_result}

abbrev pub is_missing : {A : Type 0} → File A → Bool
is_missing missing = true
is_missing _ = false

abbrev action_rank : ExecutorAction → ℕ
action_rank ExecutorAction.approve = 0
action_rank ExecutorAction.pay = 1
action_rank ExecutorAction.ack = 2
action_rank ExecutorAction.abort = 3

abbrev pub same_action : ExecutorAction → ExecutorAction → Bool
same_action a b = nat_beq (action_rank a) (action_rank b)

-- How often an operation was submitted.
abbrev pub times : ExecutorAction → List ExecutorAction → ℕ
times kind [] = 0
times kind (k ∷ ks) = (if same_action kind k then 1 else 0) + times kind ks

abbrev pub absent : ExecutorAction → Desk → Bool
absent kind s = is_missing (operation_of kind s.operations)

-- No operation without its file, and none twice.
pub record IsOnceIn (o : OperationFiles) (submissions : List ExecutorAction) : Type 0 where
  pub never_without :
      (kind : ExecutorAction) → is_missing (operation_of kind o) ≡ true → times kind submissions ≡ 0
  pub at_most_once : (kind : ExecutorAction) → times kind submissions ≤ 1

abbrev pub IsOnceEach : Desk → Type 0
IsOnceEach s = IsOnceIn s.operations s.submissions

-- The journal, the reservation and whether there is a payment are as they were.
pub record Frame (s t : Desk) : Type 0 where
  pub same_journal : t.journal ≡ s.journal
  pub same_reservation : t.reservation ≡ s.reservation
  pub same_payment : absent ExecutorAction.pay t ≡ absent ExecutorAction.pay s
  pub once_kept : IsOnceEach s → IsOnceEach t

pub Frame-refl : (s : Desk) → Frame s s
Frame-refl s = record {
  same_journal = refl;
  same_reservation = refl;
  same_payment = refl;
  once_kept = λ h. h;
}

pub Frame-trans : (s t u : Desk) → Frame s t → Frame t u → Frame s u
Frame-trans s t u f g = record {
  same_journal = g.same_journal ∙ f.same_journal;
  same_reservation = g.same_reservation ∙ f.same_reservation;
  same_payment = g.same_payment ∙ f.same_payment;
  once_kept = λ h. g.once_kept (f.once_kept h);
}

-- The file of an operation that is there is replaced.
pub record Refreshed (kind : ExecutorAction) (s t : Desk) : Type 0 where
  pub same_journal : t.journal ≡ s.journal
  pub same_reservation : t.reservation ≡ s.reservation
  pub same_submissions : t.submissions ≡ s.submissions
  pub same_files : (k : ExecutorAction) → absent k t ≡ absent k s

operation_of-with-present :
    (k kind : ExecutorAction) (op : Operation) (o : OperationFiles)
    → is_missing (operation_of kind o) ≡ false
    → is_missing (operation_of k (with_operation kind (contents op) o))
      ≡ is_missing (operation_of k o)
operation_of-with-present k kind op o h = ground arith

-- A write, and then the rest.
pub Ends-ended :
    {B : Type 0} (P : Desk → Type 0) (Q : B → Desk → Type 0) (end : SaveEnd) (s t : Desk)
    (next : Unit {0} → Stateful Desk B)
    → P s
    → P t
    → Ends P Q (next tt t)
    → Ends P Q (then_run (ended end s t) next)
unfolding ended
Ends-ended P Q written s t next before after rest = rest
Ends-ended P Q lost s t next before after rest = before
Ends-ended P Q half_done s t next before after rest = after
Ends-ended P Q died s t next before after rest = before
Ends-ended P Q died_after s t next before after rest = after

-- A write that is the last statement.
pub Ends-last :
    (P : Desk → Type 0) (Q : Unit {0} → Desk → Type 0) (end : SaveEnd) (s t : Desk)
    → P s
    → P t
    → Q tt t
    → Ends P Q (ended end s t)
unfolding ended
Ends-last P Q written s t before after q = q
Ends-last P Q lost s t before after q = before
Ends-last P Q half_done s t before after q = after
Ends-last P Q died s t before after q = before
Ends-last P Q died_after s t before after q = after

-- Whether there is an operation changes nothing.
pub Ends-has :
    {B : Type 0} (P : Desk → Type 0) (Q : B → Desk → Type 0) (kind : ExecutorAction)
    (unpaid : Result String (Unit {0})) (next : Bool → Stateful Desk B) (s : Desk)
    → P s
    → (absent kind s ≡ false → Ends P Q (next true s))
    → (absent kind s ≡ true → Ends P Q (next false s))
    → Ends P Q (then_run (has_operation kind unpaid s) next)
unfolding has_operation
Ends-has P Q kind unpaid next s p there gone = go (operation_of kind s.operations) there gone
  where
    go :
        (file : File Operation)
        → (is_missing file ≡ false → Ends P Q (next true s))
        → (is_missing file ≡ true → Ends P Q (next false s))
        → Ends P Q (
            then_run
              (elim file [
                | contents op ↦ (s, ok true)
                | unreadable ↦ (s, err "Invalid operation journal.")
                | missing ↦ then_run (lift unpaid s) (λ absent. lift (ok false))
              ])
              next)
    go (contents op) there gone = there refl
    go unreadable there gone = p
    go missing there gone = asked unpaid (gone refl)
      where
        asked :
            (r : Result String (Unit {0}))
            → Ends P Q (next false s)
            → Ends P Q (then_run (then_run (lift r s) (λ absent. lift (ok false))) next)
        asked (ok u) rest = rest
        asked (err e) rest = p

-- What is known where a reconciliation stands.
abbrev pub IsKnown : ExecutorAction → Desk → Desk → Type 0
IsKnown kind s t = Refreshed kind s t × (absent kind t ≡ false)

pub operation_of-with-same :
    (kind : ExecutorAction) (op : Operation) (o : OperationFiles)
    → is_missing (operation_of kind (with_operation kind (contents op) o)) ≡ false
operation_of-with-same kind op o = ground arith

saved-IsKnown :
    (kind : ExecutorAction) (op : Operation) (s t : Desk)
    → IsKnown kind s t
    → IsKnown kind s (record t { operations = with_operation kind (contents op) t.operations })
saved-IsKnown kind op s t (r, there) = (
  record {
    same_journal = r.same_journal;
    same_reservation = r.same_reservation;
    same_submissions = r.same_submissions;
    same_files = λ k. operation_of-with-present k kind op t.operations there ∙ r.same_files k;
  },
  operation_of-with-same kind op t.operations,
)

pub Ends-saved :
    {B : Type 0} (kind : ExecutorAction) (s : Desk) (end : SaveEnd) (op : Operation) (t : Desk)
    (next : Unit {0} → Stateful Desk B)
    → IsKnown kind s t
    → ((u : Desk) → IsKnown kind s u → Ends (IsKnown kind s) (λ b. IsKnown kind s) (next tt u))
    → Ends (IsKnown kind s) (λ b. IsKnown kind s) (then_run (save_operation kind end op t) next)
Ends-saved kind s end op t next k rest =
    Ends-ended (IsKnown kind s) (λ b. IsKnown kind s) end t _ next k (saved-IsKnown kind op s t k)
      (rest _ (saved-IsKnown kind op s t k))

pub take_match-IsKnown :
    (kind : ExecutorAction) (rec : Reconciliation) (op : Operation) (found : Option CircleResult)
    (s t : Desk)
    → IsKnown kind s t
    → Ends (IsKnown kind s) (λ op. IsKnown kind s) (take_match kind rec op found t)
unfolding take_match
take_match-IsKnown kind rec op none s t k = k
take_match-IsKnown kind rec op (some new) s t k =
    Ends-lift (IsKnown kind s) (λ op. IsKnown kind s) (throw_if (conflicts op new) _) _ t k
      (λ u e. Ends-saved kind s rec.matched_end (matched_operation op new) t _ k (λ u k. k))

take_user_operation-IsKnown :
    (runtime : Runtime) (kind : ExecutorAction) (rec : Reconciliation) (op : Operation)
    (r : CircleResult) (s t : Desk)
    → IsKnown kind s t
    → Ends (IsKnown kind s) (λ op. IsKnown kind s) (take_user_operation runtime kind rec op r t)
unfolding take_user_operation
take_user_operation-IsKnown runtime kind rec op r s t k =
    Ends-lift (IsKnown kind s) (λ op. IsKnown kind s) (throw_if (not (is_own_result runtime r)) _) _
      t k
      (λ own e.
        Ends-lift (IsKnown kind s) (λ op. IsKnown kind s) rec.found_hash _ t k
          (λ found f. with_found found))
  where
    with_found :
        (found : Option String)
        → Ends
            (IsKnown kind s)
            (λ op. IsKnown kind s)
            ((elim found as (λ _. Stateful Desk Operation) [
              | none ↦ lift (ok op)
              | some hash ↦
                  save_operation kind rec.found_end (with_hash op r hash)
                  >> lift (ok (with_hash op r hash))
            ])
              t)
    with_found none = k
    with_found (some hash) = Ends-saved kind s rec.found_end (with_hash op r hash) t _ k (λ u k. k)

pub find_user_operation-IsKnown :
    (runtime : Runtime) (kind : ExecutorAction) (rec : Reconciliation) (op : Operation)
    (r : Option CircleResult) (s t : Desk)
    → IsKnown kind s t
    → Ends (IsKnown kind s) (λ op. IsKnown kind s) (find_user_operation runtime kind rec op r t)
unfolding find_user_operation
find_user_operation-IsKnown runtime kind rec op none s t k = k
find_user_operation-IsKnown runtime kind rec op (some r) s t k =
    take_user_operation-IsKnown runtime kind rec op r s t k
