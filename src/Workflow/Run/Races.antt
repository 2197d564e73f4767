-- ===== src/Workflow/Run/Races.antt =====
-- What interleaved update handlers do: two for one item id, and one that arrives while the bill is
-- being closed.
use mathlib.Core.Path.{subst}
use redesigned_disco.Prelude.{
  suc, String, false, ◌≡◌, none, List, [], ◌∷◌, arith, contains, inl, inr, ap, sym, ◌∙◌, ◌≢◌,
}
use redesigned_disco.Errs.{Result, ok, err}
use redesigned_disco.Money.{Decimal, Postgres}
use redesigned_disco.Models.{
  Time, CloseReason, AddLineItemInput, AppendLineItemInput, Bill, closed_bill, unset,
}
use redesigned_disco.Store.{Db, DbError}
use redesigned_disco.Activities.{World, append_line_item_activity}
use redesigned_disco.Activities.Append.{Taken}
use redesigned_disco.Activities.AtMostOnce.{AtMostOnce, Taken-Appended, execute_append-AtMostOnce}
use redesigned_disco.Activities.Retry.{Attempt, Kept, execute_activity}
use redesigned_disco.Workflow.{
  begin_add_line_item, end_add_line_item, validate, new_item, finalized, close_input,
}
use redesigned_disco.Workflow.Run.{
  Run, Event, update, persisted, awaiting, finalizing, step, run_events, on_update, on_persisted,
  draining, handlers_finished, on_handlers_finished,
}

-- The activity's input that a handler builds.
abbrev pub activity_input :
    {D : Type 0} → Time → Bill D → AddLineItemInput D → AppendLineItemInput D
activity_input now bill request = record {
  bill_id = bill.id;
  actor = request.caller_account_id;
  item = new_item now request;
}

module _ {D : Type 0} {d : Decimal D} (pg : Postgres D d) (order : List String → List String)
    (r : Run D) (request : AddLineItemInput D) (t₁ t₂ : Time) (a₁ a₂ : List Attempt) where
  abbrev stored_once : World D
  stored_once =
      (execute_activity (λ c. append_line_item_activity pg c (activity_input t₁ r.bill request)) a₁
        r.world).1

  abbrev both : List (Event D)
  both = update t₁ request ∷ update t₂ request ∷ persisted 0 a₁ ∷ persisted 0 a₂ ∷ []

  doubled :
      r.phase ≡ awaiting
      → r.pending ≡ []
      → validate d r.bill request ≡ none
      → contains r.seen request.item_id ≡ false
      → (execute_activity
          (λ c. append_line_item_activity pg c (activity_input t₁ r.bill request))
          a₁
          r.world).0
        ≡ ok tt
      → (execute_activity
          (λ c. append_line_item_activity pg c (activity_input t₂ r.bill request))
          a₂
          stored_once).0
        ≡ ok tt
      → let after = run_events pg order r both in
        (after.bill.total_amount ≡ d.add (d.add r.bill.total_amount request.amount) request.amount)
        × (after.bill.item_count ≡ suc (suc r.bill.item_count))
  unfolding run_events step on_update on_persisted begin_add_line_item end_add_line_item
  doubled phase empty valid unseen first second = ground arith

  after_world :
      r.phase ≡ awaiting
      → r.pending ≡ []
      → validate d r.bill request ≡ none
      → contains r.seen request.item_id ≡ false
      → (execute_activity
          (λ c. append_line_item_activity pg c (activity_input t₁ r.bill request))
          a₁
          r.world).0
        ≡ ok tt
      → (execute_activity
          (λ c. append_line_item_activity pg c (activity_input t₂ r.bill request))
          a₂
          stored_once).0
        ≡ ok tt
      → (run_events pg order r both).world
        ≡ (execute_activity
            (λ c. append_line_item_activity pg c (activity_input t₂ r.bill request))
            a₂
            stored_once).1
  unfolding run_events step on_update on_persisted begin_add_line_item end_add_line_item
  after_world phase empty valid unseen first second = ground arith

module _ {D : Type 0} {d : Decimal D} (pg : Postgres D d) where
  -- A reported success of the activity leaves its item in the tables.
  pub Kept-ok :
      (i : AppendLineItemInput D) (old : Db D) (out : Result DbError (Unit {0}) × World D)
      → Kept (λ v. AtMostOnce pg i old v.db) (λ v. Taken pg i v.db) out
      → out.0 ≡ ok tt
      → AtMostOnce pg i old out.1.db × Taken pg i out.1.db
  Kept-ok i old (ok u, w) h e = h
  Kept-ok i old (err x, w) h e = cc

  pub second_is_no_op :
      (i : AppendLineItemInput D) (old new : Db D)
      → Taken pg i old
      → AtMostOnce pg i old new
      → new ≡ old
  second_is_no_op i old new taken (inl same) = same
  second_is_no_op i old new taken (inr app) = absurd (Taken-Appended pg i old new taken app)

  -- Two acceptable updates for one unseen item id, of which the second arrives while the first one's
  -- activity is still running, are both counted when both activities succeed: the bill's total rises
  -- by twice the amount and its count by two, while the tables hold the item at most once and do not
  -- change at the second.
  pub duplicate_in_flight_counts_twice :
      (order : List String → List String) (r : Run D) (request : AddLineItemInput D) (t₁ t₂ : Time)
      (a₁ a₂ : List Attempt)
      → r.phase ≡ awaiting
      → r.pending ≡ []
      → validate d r.bill request ≡ none
      → contains r.seen request.item_id ≡ false
      → (execute_activity
          (λ c. append_line_item_activity pg c (activity_input t₁ r.bill request))
          a₁
          r.world).0
        ≡ ok tt
      → (execute_activity
          (λ c. append_line_item_activity pg c (activity_input t₂ r.bill request))
          a₂
          (stored_once pg order r request t₁ t₂ a₁ a₂)).0
        ≡ ok tt
      → let after = run_events pg order r (both pg order r request t₁ t₂ a₁ a₂) in
        (after.bill.total_amount ≡ d.add (d.add r.bill.total_amount request.amount) request.amount)
        × (after.bill.item_count ≡ suc (suc r.bill.item_count))
        × (after.world.db ≡ (stored_once pg order r request t₁ t₂ a₁ a₂).db)
        × AtMostOnce pg (activity_input t₁ r.bill request) r.world.db after.world.db
  duplicate_in_flight_counts_twice order r request t₁ t₂ a₁ a₂ phase empty valid unseen first
        second =
      let i₁ = activity_input t₁ r.bill request in
      let i₂ = activity_input t₂ r.bill request in
      let once = stored_once pg order r request t₁ t₂ a₁ a₂ in
      let after = run_events pg order r (both pg order r request t₁ t₂ a₁ a₂) in
      let (total, count) =
        doubled pg order r request t₁ t₂ a₁ a₂ phase empty valid unseen first second in
      let world =
        after_world pg order r request t₁ t₂ a₁ a₂ phase empty valid unseen first second in
      let (stored, taken) =
        Kept-ok i₁ r.world.db _ (execute_append-AtMostOnce pg i₁ a₁ r.world) first in
      let (again, _) = Kept-ok i₂ once.db _ (execute_append-AtMostOnce pg i₂ a₂ once) second in
      let same : after.world.db ≡ once.db =
        ap (λ (w : World D). w.db) world ∙ second_is_no_op i₂ once.db _ taken again in
      (total, count, same, subst (AtMostOnce pg i₁ r.world.db) (sym same) stored)

  -- An update for an unseen id that the validator accepted of the bill before its close, and that
  -- arrives when the run, with no handlers left, has closed the bill and waits for CloseBillActivity:
  -- the update is started although the bill's status is CLOSED, and its handler is pending.
  pub update_while_closing_starts :
      (order : List String → List String) (r : Run D) (now at : Time) (reason : CloseReason)
      (request : AddLineItemInput D)
      → r.phase ≡ draining reason
      → r.pending ≡ []
      → reason ≢ unset
      → validate d r.bill request ≡ none
      → contains r.seen request.item_id ≡ false
      → let closing = (step pg order r (handlers_finished at)).0 in
        let late = (step pg order closing (update now request)).0 in
        (closing.phase ≡ finalizing reason (close_input at reason (finalized at reason r.bill)))
        × (closing.bill.status ≡ closed_bill)
        × (late.pending
            ≡ record { update = request; activity = activity_input now r.bill request } ∷ [])
  unfolding step on_update on_handlers_finished begin_add_line_item finalized validate
  update_while_closing_starts order r now at reason request phase empty real valid unseen =
      ground arith
