-- ===== src/Workflow/Run/Late.antt =====
-- An update that arrives while the bill is being closed, followed to the end of the run.
use mathlib.Core.Path.{subst}
use redesigned_disco.Prelude.{suc, String, false, ◌≡◌, none, List, [], ◌∷◌, arith, contains, ◌≢◌}
use redesigned_disco.Errs.{Result, ok, err}
use redesigned_disco.Money.{Decimal, Postgres}
use redesigned_disco.Models.{Time, CloseReason, AddLineItemInput, CloseBillActivityInput, unset}
use redesigned_disco.Store.{DbError}
use redesigned_disco.Activities.{World, append_line_item_activity, close_bill_activity}
use redesigned_disco.Activities.Append.{Taken}
use redesigned_disco.Activities.AtMostOnce.{execute_append-AtMostOnce}
use redesigned_disco.Activities.Closing.{IsClosed, execute_close-IsClosed}
use redesigned_disco.Activities.Retry.{Attempt, Kept, execute_activity}
use redesigned_disco.Workflow.{
  begin_add_line_item, end_add_line_item, validate, finalized, close_input, bill_result,
}
use redesigned_disco.Workflow.Run.{
  Run, Event, update, persisted, close_persisted, completed, step, run_events, on_update,
  on_persisted, on_close_persisted, draining, handlers_finished, on_handlers_finished,
}
use redesigned_disco.Workflow.Run.Closing.{same_input}
use redesigned_disco.Workflow.Run.Races.{activity_input, Kept-ok}

module _ {D : Type 0} {d : Decimal D} (pg : Postgres D d) (order : List String → List String)
    (r : Run D) (request : AddLineItemInput D) (at now : Time) (reason : CloseReason)
    (a₁ a₂ : List Attempt) where
  abbrev pub with_item : World D
  with_item =
      (execute_activity (λ c. append_line_item_activity pg c (activity_input now r.bill request)) a₁
        r.world).1

  abbrev pub closing_input : CloseBillActivityInput D
  closing_input = close_input at reason (finalized at reason r.bill)

  -- The handlers are found finished, an update arrives and is persisted, and the close is persisted.
  abbrev pub late : List (Event D)
  late = handlers_finished at ∷ update now request ∷ persisted 0 a₁ ∷ close_persisted a₂ ∷ []

  late_run :
      r.phase ≡ draining reason
      → r.pending ≡ []
      → reason ≢ unset
      → validate d r.bill request ≡ none
      → contains r.seen request.item_id ≡ false
      → (execute_activity
          (λ c. append_line_item_activity pg c (activity_input now r.bill request))
          a₁
          r.world).0
        ≡ ok tt
      → (execute_activity (λ c. close_bill_activity pg c closing_input) a₂ with_item).0 ≡ ok tt
      → let after = run_events pg order r late in
        let (counted, seen) = end_add_line_item d request (finalized at reason r.bill) r.seen in
        (after.phase ≡ completed (bill_result reason counted))
        × (after.world
            ≡ (execute_activity (λ c. close_bill_activity pg c closing_input) a₂ with_item).1)
  unfolding run_events step on_update on_persisted on_handlers_finished on_close_persisted
      begin_add_line_item end_add_line_item finalized validate
  late_run phase empty real valid unseen first second = ground arith

  -- A success of the close leaves the items alone and the bill closed.
  IsClosed-ok :
      (old : World D) (out : Result DbError (Unit {0}) × World D)
      → Kept (λ v. v.db.items ≡ old.db.items) (λ v. IsClosed pg closing_input v.db) out
      → out.0 ≡ ok tt
      → (out.1.db.items ≡ old.db.items) × IsClosed pg (close_input at reason r.bill) out.1.db
  IsClosed-ok old (ok u, w) h e =
      (h.0, subst (λ i. IsClosed pg i w.db) (same_input pg at reason r.bill) h.1)
  IsClosed-ok old (err x, w) h e = cc

  -- A run with no handlers left that is to close, and an update for an unseen id, accepted of the bill,
  -- that arrives while CloseBillActivity runs: if its own activity and then the close succeed, the run
  -- completes with a result that counts the amount and the item, and the item is in the tables, but
  -- the bill's row is closed with the total from before the item.
  pub late_item_missing_from_close :
      r.phase ≡ draining reason
      → r.pending ≡ []
      → reason ≢ unset
      → validate d r.bill request ≡ none
      → contains r.seen request.item_id ≡ false
      → (execute_activity
          (λ c. append_line_item_activity pg c (activity_input now r.bill request))
          a₁
          r.world).0
        ≡ ok tt
      → (execute_activity (λ c. close_bill_activity pg c closing_input) a₂ with_item).0 ≡ ok tt
      → let after = run_events pg order r late in
        (after.phase
          ≡ completed (record (bill_result reason r.bill) {
            total_amount = d.add r.bill.total_amount request.amount;
            item_count = suc r.bill.item_count;
          }))
        × Taken pg (activity_input now r.bill request) after.world.db
        × IsClosed pg (close_input at reason r.bill) after.world.db
  unfolding end_add_line_item finalized
  late_item_missing_from_close phase empty real valid unseen first second =
      let (result, world) = late_run phase empty real valid unseen first second in
      let item = activity_input now r.bill request in
      let (_, (key, read, there)) =
        Kept-ok pg item r.world.db _ (execute_append-AtMostOnce pg item a₁ r.world) first in
      let (same, is_closed) =
        IsClosed-ok with_item _ (execute_close-IsClosed pg closing_input a₂ with_item) second in
      (result, (key, read, rw world (rw same there)), rw world is_closed)
