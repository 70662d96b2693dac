-- ===== src/Executor/Refresh.antt =====
-- `reconcile`, `durableOperation` and `circleReceipt` keep the files and submit nothing twice.
use obolos.Prelude.{ℕ, ◌+◌, ◌≤◌, String, false, ◌&&◌, not}
use obolos.Prelude.{◌==◌, string_eq, ◌≡◌, refl, sym, ap, subst, ◌∙◌, Result, ok}
use obolos.Prelude.{throw_if}
use obolos.Stateful.{lift, Ends, Ends-then, Ends-lift, Ends-if}
use obolos.Stateful.{Ends-map}
use obolos.Executor.{ExecutorAction}
use obolos.Executor.{Operation, File, missing, unreadable, contents}
use obolos.Executor.{Desk, operation_of}
use obolos.Executor.{Reconciliation, Answers, Runtime}
use obolos.Executor.Operations.{is_failed}
use obolos.Executor.Operations.{is_awaiting_hash, is_submitted}
use obolos.Executor.Operations.{require_hash, has_evidence, settle_match, reconcile_file, reconcile}
use obolos.Executor.Operations.{circle_receipt, tx_hash_of}
use obolos.Executor.Stages.{recover}
use obolos.Executor.Frames.{is_missing, times, absent, Frame, Frame-refl}
use obolos.Executor.Frames.{Frame-trans, Refreshed, IsKnown, take_match-IsKnown}
use obolos.Executor.Frames.{find_user_operation-IsKnown}

settle_match-IsKnown :
    (runtime : Runtime) (kind : ExecutorAction) (rec : Reconciliation) (op : Operation) (s t : Desk)
    → IsKnown kind s t
    → Ends (IsKnown kind s) (λ op. IsKnown kind s) (settle_match runtime kind rec op t)
unfolding settle_match
settle_match-IsKnown runtime kind rec op s t k =
    Ends-if (IsKnown kind s) (λ op. IsKnown kind s) (is_failed op) _ _ t (λ e. k)
      (λ e.
        Ends-then (IsKnown kind s) (λ op. IsKnown kind s) (λ op. IsKnown kind s) _ _
          (find_user_operation-IsKnown runtime kind rec op (is_awaiting_hash op) s t k)
          (λ known u h.
            Ends-lift (IsKnown kind s) (λ op. IsKnown kind s) (require_hash known) _ u h
              (λ a e.
                Ends-lift (IsKnown kind s) (λ op. IsKnown kind s)
                  (throw_if (not (has_evidence runtime known)) _) _ u h
                  (λ a e.
                    Ends-lift (IsKnown kind s) (λ op. IsKnown kind s) rec.mined _ u h (λ a e. h)))))

reconcile_file-IsKnown :
    (runtime : Runtime) (kind : ExecutorAction) (rec : Reconciliation) (file : File Operation)
    (s t : Desk)
    → Refreshed kind s t
    → absent kind t ≡ is_missing file
    → Ends (Refreshed kind s) (λ op. IsKnown kind s) (reconcile_file runtime kind rec file t)
unfolding reconcile_file
reconcile_file-IsKnown runtime kind rec missing s t r e = r
reconcile_file-IsKnown runtime kind rec unreadable s t r e = r
reconcile_file-IsKnown runtime kind rec (contents op) s t r e =
    Ends-if (Refreshed kind s) (λ op. IsKnown kind s) (is_failed op) _ _ t (λ f. (r, e))
      (λ f.
        Ends-lift (Refreshed kind s) (λ op. IsKnown kind s) rec.matched _ t r
          (λ matched g.
            Ends-map (IsKnown kind s) (Refreshed kind s) (λ op. IsKnown kind s)
              (λ op. IsKnown kind s) _ (λ u h. h.0) (λ op u h. h)
              (Ends-then (IsKnown kind s) (λ op. IsKnown kind s) (λ op. IsKnown kind s) _ _
                (take_match-IsKnown kind rec op matched s t (r, e))
                (λ known u h. settle_match-IsKnown runtime kind rec known s u h))))

Refreshed-refl : (kind : ExecutorAction) (s : Desk) → Refreshed kind s s
Refreshed-refl kind s = record {
  same_journal = refl;
  same_reservation = refl;
  same_submissions = refl;
  same_files = λ k. refl;
}

Refreshed-Frame : (kind : ExecutorAction) (s t : Desk) → Refreshed kind s t → Frame s t
Refreshed-Frame kind s t r = record {
  same_journal = r.same_journal;
  same_reservation = r.same_reservation;
  same_payment = r.same_files ExecutorAction.pay;
  once_kept = λ h. record {
    never_without =
        λ k gone. ap (times k) r.same_submissions ∙ h.never_without k (sym (r.same_files k) ∙ gone);
    at_most_once = λ k. subst (λ l. times k l ≤ 1) (sym r.same_submissions) (h.at_most_once k);
  };
}

-- A reconciliation keeps all, and finds an operation that is there.
abbrev pub IsFound : ExecutorAction → Desk → Desk → Type 0
IsFound kind s t = Frame s t × (absent kind t ≡ false)

pub reconcile-IsFound :
    (runtime : Runtime) (kind : ExecutorAction) (rec : Reconciliation) (s : Desk)
    → Ends (Frame s) (λ op. IsFound kind s) (reconcile runtime kind rec s)
unfolding reconcile
reconcile-IsFound runtime kind rec s =
    Ends-map (Refreshed kind s) (Frame s) (λ op. IsKnown kind s) (λ op. IsFound kind s) _
      (λ t r. Refreshed-Frame kind s t r) (λ op t k. (Refreshed-Frame kind s t k.0, k.1))
      (Ends-lift (Refreshed kind s) (λ op. IsKnown kind s) rec.on_testnet _ s
        (Refreshed-refl kind s)
        (λ u e.
          reconcile_file-IsKnown runtime kind rec (operation_of kind s.operations) s s
            (Refreshed-refl kind s) refl))

pub circle_receipt-IsFound :
    (runtime : Runtime) (kind : ExecutorAction) (rec : Reconciliation)
    (finalized : Result String (Unit {0})) (op : Operation) (s : Desk)
    → absent kind s ≡ false
    → Ends (Frame s) (λ hash. IsFound kind s) (circle_receipt runtime kind rec finalized op s)
unfolding circle_receipt
circle_receipt-IsFound runtime kind rec finalized op s there =
    Ends-then (Frame s) (λ op. IsFound kind s) (λ hash. IsFound kind s) _ _
      (Ends-if (Frame s) (λ op. IsFound kind s) (tx_hash_of op == "") (reconcile runtime kind rec)
        (lift (ok op)) s (λ e. reconcile-IsFound runtime kind rec s) (λ e. (Frame-refl s, there)))
      (λ known t h.
        Ends-lift (Frame s) (λ hash. IsFound kind s)
          (throw_if (not (is_submitted known && has_evidence runtime known)) _) _ t h.0
          (λ a e. Ends-lift (Frame s) (λ hash. IsFound kind s) finalized _ t h.0 (λ a e. h)))

IsFound-then :
    (kind : ExecutorAction) (s t u : Desk) → Frame s t → IsFound kind t u → IsFound kind s u
IsFound-then kind s t u f (g, there) = (Frame-trans s t u f g, there)

pub recover-IsFound :
    (runtime : Runtime) (a : Answers) (site : ℕ) (kind : ExecutorAction) (s : Desk)
    → Ends (Frame s) (λ hash. IsFound kind s) (recover runtime a site kind s)
recover-IsFound runtime a site kind s =
    Ends-then (Frame s) (λ op. IsFound kind s) (λ hash. IsFound kind s) _ _
      (reconcile-IsFound runtime kind (a.reconciliation site) s)
      (λ op t h.
        Ends-map (Frame t) (Frame s) (λ hash. IsFound kind t) (λ hash. IsFound kind s) _
          (λ u g. Frame-trans s t u h.0 g) (λ hash u g. IsFound-then kind s t u h.0 g)
          (circle_receipt-IsFound runtime kind (a.reconciliation (50 + site)) (a.finalized site) op
            t h.1))
