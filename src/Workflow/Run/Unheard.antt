-- ===== src/Workflow/Run/Unheard.antt =====
-- An item that is stored although its activity fails: every attempt's commit goes unheard.
use redesigned_disco.Prelude.{String, ◌≡◌, ◌≢◌, List, [], ◌∷◌, arith, ap, sym, ◌∙◌}
use redesigned_disco.Errs.{Result, ok, err}
use redesigned_disco.Money.{Decimal, Postgres}
use redesigned_disco.Models.{Time, CloseReason, unset}
use redesigned_disco.Store.{DbError}
use redesigned_disco.Activities.{World, append_line_item_activity, close_bill_activity}
use redesigned_disco.Activities.Append.{Appended}
use redesigned_disco.Activities.Closing.{IsClosed, execute_close-IsClosed}
use redesigned_disco.Activities.Ledger.{item_sum}
use redesigned_disco.Activities.Retry.{Attempt, Kept-first, execute_activity}
use redesigned_disco.Workflow.{finalized, close_input, bill_result}
use redesigned_disco.Workflow.Run.{
  Run, Handler, Event, persisted, close_persisted, completed, step, run_events, on_persisted,
  on_close_persisted, draining, handlers_finished, on_handlers_finished,
}
use redesigned_disco.Workflow.Run.Agreement.{Agrees, Appended-item_sum}

module _ {D : Type 0} {d : Decimal D} (pg : Postgres D d) (order : List String → List String)
    (r : Run D) (h : Handler D) (now : Time) (reason : CloseReason) (a b : List Attempt) where
  abbrev pub appending : Result DbError (Unit {0}) × World D
  appending = execute_activity (λ c. append_line_item_activity pg c h.activity) a r.world

  abbrev pub closing : Result DbError (Unit {0}) × World D
  closing =
      execute_activity
        (λ c. close_bill_activity pg c (close_input now reason (finalized now reason r.bill))) b
        appending.1

  -- The last handler's activity ends, and the bill is closed.
  abbrev pub last_events : List (Event D)
  last_events = persisted 0 a ∷ handlers_finished now ∷ close_persisted b ∷ []

  unheard_run :
      (e : DbError)
      → r.phase ≡ draining reason
      → reason ≢ unset
      → r.pending ≡ h ∷ []
      → appending.0 ≡ err e
      → closing.0 ≡ ok tt
      → let after = run_events pg order r last_events in
        (after.phase ≡ completed (bill_result reason r.bill)) × (after.world ≡ closing.1)
  unfolding run_events step on_persisted on_handlers_finished on_close_persisted finalized
  unheard_run e phase real pending failed closes = ground arith

  -- A run that is to close, whose total is the sum of the stored items, and whose last handler's
  -- activity reports a failure although an attempt at it has stored the item: if the close then
  -- succeeds, the result has the total without the item, while the stored items sum up to the total
  -- with it.
  pub unheard_item_missing_from_close :
      (key : String) (e : DbError)
      → r.phase ≡ draining reason
      → reason ≢ unset
      → r.pending ≡ h ∷ []
      → Agrees pg key r
      → appending.0 ≡ err e
      → Appended pg h.activity r.world.db appending.1.db
      → closing.0 ≡ ok tt
      → let after = run_events pg order r last_events in
        (after.phase ≡ completed (bill_result reason r.bill))
        × (item_sum d key after.world.db.items ≡ d.add r.bill.total_amount h.update.amount)
  unheard_item_missing_from_close key e phase real pending agrees failed stored closes =
      let (result, world) = unheard_run e phase real pending failed closes in
      let own = (rw pending at agrees.own).0 in
      let input = close_input now reason (finalized now reason r.bill) in
      let same =
        Kept-first (λ v. v.db.items ≡ appending.1.db.items) (λ v. IsClosed pg input v.db) closing
          (execute_close-IsClosed pg input b appending.1) in
      let sum =
        Appended-item_sum pg key h.activity r.world.db appending.1.db r.bill.total_amount
          (ap pg.uuid own.bill ∙ agrees.read) (rw own.amount own.fits) stored agrees.total in
      (
        result,
        ap (λ (w : World D). item_sum d key w.db.items) world
            ∙ ap (item_sum d key) same
            ∙ sym sum
            ∙ ap (λ x. d.add r.bill.total_amount x) own.amount,
      )
