-- ===== src/Workflow/Run/Closing.antt =====
-- The end of a run: the two steps that close a bill against `finalizeAndPersist`, and what a result
-- of it means for the tables.
use mathlib.Core.Path.{subst}
use redesigned_disco.Prelude.{
  ◌≡◌, ◌≢◌, refl, sym, ◌∙◌, ap, inl, inr, ◌⊎◌, some, String, List, [], ◌∷◌,
}
use redesigned_disco.Errs.{Result, ok, err}
use redesigned_disco.Money.{Decimal, Postgres}
use redesigned_disco.Models.{
  Time, CloseReason, unset, by_signal, period_end, Bill, BillResult, closed_bill,
  CloseBillActivityInput,
}
use redesigned_disco.Store.{DbError}
use redesigned_disco.Activities.{World, close_bill_activity}
use redesigned_disco.Activities.Closing.{IsClosed, execute_close-IsClosed}
use redesigned_disco.Activities.Retry.{Attempt, Kept, execute_activity}
use redesigned_disco.Workflow.{
  finalize_and_persist, finalized, close_input, close_reply, bill_result,
}
use redesigned_disco.Workflow.Run.{
  Run, Phase, draining, completed, failed, handlers_finished, close_persisted, step, run_events,
  on_handlers_finished, on_close_persisted, closed_phase,
}

-- How a run ends where `finalizeAndPersist` returns.
abbrev pub ended : {D : Type 0} → Result DbError (BillResult D) → Phase D
ended (ok result) = completed result
ended (err e) = failed e

module _ {D : Type 0} {d : Decimal D} (pg : Postgres D d) where
  ended_as :
      (reason : CloseReason) (bill : Bill D) (r : Result DbError (Unit {0}))
      → closed_phase reason bill r ≡ ended (close_reply reason bill r)
  ended_as reason bill (ok u) = refl
  ended_as reason bill (err e) = refl

  -- The two steps that close a bill are what `finalizeAndPersist` does.
  pub closing-finalize_and_persist :
      (order : List String → List String) (r : Run D) (now : Time) (attempts : List Attempt)
      (reason : CloseReason)
      → r.phase ≡ draining reason
      → reason ≢ unset
      → r.pending ≡ []
      → let after = run_events pg order r (handlers_finished now ∷ close_persisted attempts ∷ []) in
        let (result, bill, world) = finalize_and_persist pg attempts now reason r.bill r.world in
        (after.phase ≡ ended result) × (after.bill ≡ bill) × (after.world ≡ world)
  unfolding run_events step on_handlers_finished on_close_persisted finalize_and_persist finalized
  closing-finalize_and_persist order r now attempts unset phase real empty = absurd (real refl)
  closing-finalize_and_persist order r now attempts by_signal phase real empty =
      rw phase (rw empty (ended_as by_signal (finalized now by_signal r.bill) _, refl, refl))
  closing-finalize_and_persist order r now attempts period_end phase real empty =
      rw phase (rw empty (ended_as period_end (finalized now period_end r.bill) _, refl, refl))

  -- What a result of `finalizeAndPersist` promises; an error promises nothing.
  abbrev pub Settled :
      Time → CloseReason → Bill D → Result DbError (BillResult D) × Bill D × World D → Type 0
  Settled now reason bill (ok result, closing, w) =
      (result ≡ bill_result reason bill)
      × (closing ≡ finalized now reason bill)
      × IsClosed pg (close_input now reason bill) w.db
  Settled now reason bill (err e, closing, w) = Unit

  pub same_input :
      (now : Time) (reason : CloseReason) (bill : Bill D)
      → close_input now reason (finalized now reason bill) ≡ close_input now reason bill
  unfolding finalized close_input
  same_input now unset bill = refl
  same_input now by_signal bill = refl
  same_input now period_end bill = refl

  Settled-close_reply :
      (now : Time) (reason : CloseReason) (bill : Bill D) (old : World D)
      (out : Result DbError (Unit {0}) × World D)
      → Kept
          (λ v. v.db.items ≡ old.db.items)
          (λ v. IsClosed pg (close_input now reason (finalized now reason bill)) v.db)
          out
      → Settled now reason bill
          (close_reply reason (finalized now reason bill) out.0, finalized now reason bill, out.1)
  unfolding finalized
  Settled-close_reply now reason bill old (ok u, w) k =
      (refl, refl, subst (λ i. IsClosed pg i w.db) (same_input now reason bill) k.1)
  Settled-close_reply now reason bill old (err e, w) k = tt

  -- A result of finalizeAndPersist is the summary that the run had, and then the bill's row is in the
  -- tables, closed at that instant for that reason with that total (as its column holds it), and the
  -- log has an entry of the close.
  pub finalize_and_persist-Settled :
      (attempts : List Attempt) (now : Time) (reason : CloseReason) (bill : Bill D) (w : World D)
      → Settled now reason bill (finalize_and_persist pg attempts now reason bill w)
  unfolding finalize_and_persist
  finalize_and_persist-Settled attempts now reason bill w =
      Settled-close_reply now reason bill w _
        (execute_close-IsClosed pg (close_input now reason (finalized now reason bill)) attempts w)

-- Who closes the bill.
abbrev pub closer : {D : Type 0} → CloseReason → Bill D → String
closer by_signal bill = bill.account_id
closer _ bill = "system"

-- The close that the tables are to have.
abbrev pub close_of : {D : Type 0} → Time → CloseReason → Bill D → CloseBillActivityInput D
close_of now reason bill = record {
  bill_id = bill.id;
  actor = closer reason bill;
  total_amount = bill.total_amount;
  closed_at = now;
  close_reason = reason;
}

module _ {D : Type 0} {d : Decimal D} (pg : Postgres D d) where
  -- How a run that was to close has ended: what its bill is now, and either its failure or its result
  -- with the bill's row and the entry of the log that the close has left.
  pub record HasEnded (now : Time) (reason : CloseReason) (before after : Run D) : Type 0 where
    pub bill :
        after.bill
        ≡ record before.bill { status = closed_bill; closed_at = some now; close_reason = reason }
    pub items : after.world.db.items ≡ before.world.db.items
    pub outcome :
        ((e : DbError) × (after.phase ≡ failed e))
        ⊎ ((after.phase
              ≡ completed (record {
                bill_id = before.bill.id;
                total_amount = before.bill.total_amount;
                currency = before.bill.currency;
                item_count = before.bill.item_count;
                close_reason = reason;
              }))
            × IsClosed pg (close_of now reason before.bill) after.world.db)

  closing_as :
      (now : Time) (reason : CloseReason) (bill : Bill D)
      → close_input now reason (finalized now reason bill) ≡ close_of now reason bill
  unfolding finalized close_input
  closing_as now unset bill = refl
  closing_as now by_signal bill = refl
  closing_as now period_end bill = refl

  closed-HasEnded :
      (now : Time) (reason : CloseReason) (before after : Run D)
      (out : Result DbError (Unit {0}) × World D)
      → Kept
          (λ v. v.db.items ≡ before.world.db.items)
          (λ v. IsClosed pg (close_input now reason (finalized now reason before.bill)) v.db)
          out
      → after.phase ≡ ended (close_reply reason (finalized now reason before.bill) out.0)
      → after.bill ≡ finalized now reason before.bill
      → after.world ≡ out.1
      → HasEnded now reason before after
  unfolding finalized
  closed-HasEnded now reason before after (ok u, w) k phase bill world = record {
    bill = bill;
    items = ap (λ (v : World D). v.db.items) world ∙ k.0;
    outcome = inr (
      phase,
      subst (λ (v : World D). IsClosed pg (close_of now reason before.bill) v.db) (sym world)
          (subst (λ i. IsClosed pg i w.db) (closing_as now reason before.bill) k.1),
    );
  }
  closed-HasEnded now reason before after (err e, w) k phase bill world = record {
    bill = bill;
    items = ap (λ (v : World D). v.db.items) world ∙ k;
    outcome = inl (e, phase);
  }

  -- A run that waits for its handlers in order to close, and has none, finds them finished, and its
  -- closing activity ends. Whatever happened to the attempts at the activity, the run has ended and
  -- the line items are as they were; its bill is closed, at that instant and for that reason, and
  -- else as before. Either it has failed, or it has completed with the id, the total, the currency
  -- and the count of its bill and the reason; then the bill's row is there and closed, with that
  -- total (as its column holds it), that instant and that reason, and the latest entry of the log is
  -- that of the close, by the bill's account if it was the signal (and that account is not the empty text)
  -- and else by the system.
  pub closing_run-HasEnded :
      (order : List String → List String) (r : Run D) (now : Time) (attempts : List Attempt)
      (reason : CloseReason)
      → r.phase ≡ draining reason
      → reason ≢ unset
      → r.pending ≡ []
      → HasEnded now reason r
          (run_events pg order r (handlers_finished now ∷ close_persisted attempts ∷ []))
  unfolding finalize_and_persist
  closing_run-HasEnded order r now attempts reason phase real empty =
      let input = close_input now reason (finalized now reason r.bill) in
      let (over, bill, world) =
        closing-finalize_and_persist pg order r now attempts reason phase real empty in
      closed-HasEnded now reason r _
        (execute_activity (λ c. close_bill_activity pg c input) attempts r.world)
        (execute_close-IsClosed pg input attempts r.world) over bill world
