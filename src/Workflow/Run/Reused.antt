-- ===== src/Workflow/Run/Reused.antt =====
-- An update whose item id was used on another bill: ids are unique over all bills, and the
-- activity takes a conflict for a repetition.
use redesigned_disco.Prelude.{
  suc, String, true, false, ◌≡◌, ◌∙◌, ap, none, List, [], ◌∷◌, arith, contains,
}
use redesigned_disco.Errs.{Result, ok}
use redesigned_disco.Money.{Decimal, Postgres}
use redesigned_disco.Models.{Time, AddLineItemInput}
use redesigned_disco.Store.{DbError}
use redesigned_disco.Activities.{World, append_line_item_activity}
use redesigned_disco.Activities.Append.{Taken}
use redesigned_disco.Activities.AtMostOnce.{execute_append-AtMostOnce}
use redesigned_disco.Activities.Retry.{Attempt, execute_activity}
use redesigned_disco.Workflow.{begin_add_line_item, end_add_line_item, validate}
use redesigned_disco.Workflow.Run.{
  Run, update, persisted, step, run_events, on_update, on_persisted, is_running,
}
use redesigned_disco.Workflow.Run.Races.{activity_input, Kept-ok, second_is_no_op}

module _ {D : Type 0} {d : Decimal D} (pg : Postgres D d) (order : List String → List String)
    (r : Run D) (request : AddLineItemInput D) (now : Time) (attempts : List Attempt) where
  abbrev pub storing : Result DbError (Unit {0}) × World D
  storing =
      execute_activity (λ c. append_line_item_activity pg c (activity_input now r.bill request))
        attempts r.world

  reused_run :
      is_running r.phase ≡ true
      → r.pending ≡ []
      → validate d r.bill request ≡ none
      → contains r.seen request.item_id ≡ false
      → storing.0 ≡ ok tt
      → let after = run_events pg order r (update now request ∷ persisted 0 attempts ∷ []) in
        (after.world ≡ storing.1)
        × (after.bill.total_amount ≡ d.add r.bill.total_amount request.amount)
        × (after.bill.item_count ≡ suc r.bill.item_count)
  unfolding run_events step on_update on_persisted begin_add_line_item end_add_line_item validate
  reused_run runs empty valid unseen stored = ground arith

  -- An update that a run without handlers accepts, for an id that it has not seen but under which a
  -- line item is stored already (of another bill, say): where its activity
  -- reports success, the tables are as they were, and yet the run has counted the item and its amount.
  pub reused_id_counted :
      is_running r.phase ≡ true
      → r.pending ≡ []
      → validate d r.bill request ≡ none
      → contains r.seen request.item_id ≡ false
      → Taken pg (activity_input now r.bill request) r.world.db
      → storing.0 ≡ ok tt
      → let after = run_events pg order r (update now request ∷ persisted 0 attempts ∷ []) in
        (after.world.db ≡ r.world.db)
        × (after.bill.total_amount ≡ d.add r.bill.total_amount request.amount)
        × (after.bill.item_count ≡ suc r.bill.item_count)
  reused_id_counted runs empty valid unseen taken stored =
      let (world, total, count) = reused_run runs empty valid unseen stored in
      let item = activity_input now r.bill request in
      let (once, _) =
        Kept-ok pg item r.world.db storing (execute_append-AtMostOnce pg item attempts r.world)
          stored in
      (
        ap (λ (w : World D). w.db) world
            ∙ second_is_no_op pg item r.world.db storing.1.db taken once,
        total,
        count,
      )
