-- ===== src/Workflow.antt =====
-- bill/workflow.go: the functions of the bill's workflow. `workflow.Now`, the order in which Go
-- ranges over a map and what happens to the attempts at an activity are arguments. An update
-- handler blocks on its activity, so it is two functions: what it does before, and after.
pub mod Laws
pub mod Contract
pub mod Run
use redesigned_disco.Prelude.{
  concat, ℕ, suc, String, Bool, true, false, ◌||◌, not, ◌==◌, leb, contains, Option, none, some,
  List, [], ◌∷◌, if◌then◌else◌, ◌⊎◌, inl, inr,
}
use redesigned_disco.Errs.{Result, ok, err}
use redesigned_disco.Money.{Decimal, Postgres}
use redesigned_disco.Models.{
  Time, open_bill, closed_bill, CloseReason, unset, by_signal, period_end, system_actor, Bill,
  BillWorkflowInput, BillResult, LineItem, AddLineItemInput, AddLineItemResult, AppendLineItemInput,
  CloseBillActivityInput,
}
use redesigned_disco.Store.{DbError}
use redesigned_disco.Activities.{World, create_bill_activity, close_bill_activity}
use redesigned_disco.Activities.Retry.{Attempt, execute_activity}

abbrev pub continue_as_new_threshold : ℕ
continue_as_new_threshold = 1000

abbrev pub currency_mismatch_err_type : String
currency_mismatch_err_type = "CurrencyMismatch"

abbrev pub bill_not_found_err_type : String
bill_not_found_err_type = "BillNotFound"

-- An error of an update handler or its validator: a `temporal.ApplicationError` with its message
-- and type, a plain `fmt.Errorf`, or the one that wraps the activity's error.
pub data HandlerError : Type 0 where
  application_error : String → String → HandlerError
  plain_error : String → HandlerError
  persist_failed : DbError → HandlerError

abbrev pub bill_not_found : HandlerError
bill_not_found = application_error "bill not found" bill_not_found_err_type

abbrev pub currency_mismatch : String → String → HandlerError
currency_mismatch bill item =
    application_error
      (concat (concat "currency mismatch: bill is " bill) (concat ", item is " item))
      currency_mismatch_err_type

abbrev pub amount_not_positive : HandlerError
amount_not_positive = plain_error "amount must be positive"

abbrev pub description_required : HandlerError
description_required = plain_error "description is required"

-- Where the coroutine of `awaitCloseOrThreshold` finds the period already over: it settles at once.
unfoldable pub period_over : Time → Option Time → Bool
period_over now none = false
period_over now (some end) = leb end now

module _ {D : Type 0} where
  unfoldable pub initial_bill : Decimal D → Time → BillWorkflowInput D → Bill D
  initial_bill d now input = elim input.snapshot [
    | some bill ↦ bill
    | none ↦ record {
      id = input.bill_id;
      account_id = input.account_id;
      status = open_bill;
      currency = input.currency;
      line_items = none;
      total_amount = d.nil;
      item_count = 0;
      created_at = now;
      closed_at = none;
      period_start = input.period_start;
      period_end = input.period_end;
      close_reason = unset;
    }
  ]

  -- The set of item ids, as a list; only membership is ever asked of it.
  unfoldable pub initial_seen : BillWorkflowInput D → List String
  initial_seen input = input.seen_item_ids

  -- The validator of the AddLineItem update; `none` is nil.
  unfoldable pub validate : Decimal D → Bill D → AddLineItemInput D → Option HandlerError
  validate d bill request =
      if not (request.caller_account_id == bill.account_id)
      then some bill_not_found
      else if not (request.currency == bill.currency)
      then some (currency_mismatch bill.currency request.currency)
      else if not (d.is_positive request.amount)
      then some amount_not_positive
      else if request.description == ""
      then some description_required
      else none

  abbrev pub current_result : Bill D → String → AddLineItemResult D
  current_result bill item_id = record {
    item_id = item_id;
    bill_total = bill.total_amount;
    item_count = bill.item_count;
  }

  abbrev pub new_item : Time → AddLineItemInput D → LineItem D
  new_item now request = record {
    id = request.item_id;
    description = request.description;
    amount = request.amount;
    currency = request.currency;
    created_at = now;
  }

  -- The handler up to its activity: a reply where the id was seen, or the activity's input.
  unfoldable pub begin_add_line_item :
      Time → Bill D → List String → AddLineItemInput D → AddLineItemResult D ⊎ AppendLineItemInput D
  begin_add_line_item now bill seen request =
      if contains seen request.item_id
      then inl (current_result bill request.item_id)
      else inr (record {
        bill_id = bill.id;
        actor = request.caller_account_id;
        item = new_item now request;
      })

  -- The handler after its activity has succeeded: the bill and the ids, as they are by then.
  unfoldable pub end_add_line_item :
      Decimal D → AddLineItemInput D → Bill D → List String → Bill D × List String
  end_add_line_item d request bill seen = (
    record bill {
      total_amount = d.add bill.total_amount request.amount;
      item_count = suc bill.item_count;
    },
    request.item_id ∷ seen,
  )

  -- The condition that `awaitCloseOrThreshold` blocks on.
  unfoldable pub may_leave : Bool → Bill D → Bool
  may_leave settled bill = settled || leb continue_as_new_threshold bill.item_count

  -- `order` is the order in which the map is ranged over.
  unfoldable pub continue_as_new :
      (List String → List String) → BillWorkflowInput D → Bill D → List String → BillWorkflowInput D
  continue_as_new order input bill seen = record {
    bill_id = input.bill_id;
    account_id = input.account_id;
    currency = input.currency;
    period_start = input.period_start;
    period_end = input.period_end;
    snapshot = some (record {
      id = bill.id;
      account_id = bill.account_id;
      status = bill.status;
      currency = bill.currency;
      line_items = none;
      total_amount = bill.total_amount;
      item_count = bill.item_count;
      created_at = bill.created_at;
      closed_at = none;
      period_start = bill.period_start;
      period_end = bill.period_end;
      close_reason = unset;
    });
    seen_item_ids = order seen;
  }

  -- `finalizeAndPersist` up to its activity.
  unfoldable pub finalized : Time → CloseReason → Bill D → Bill D
  finalized now reason bill = record bill {
    status = closed_bill;
    closed_at = some now;
    close_reason = reason;
  }

  abbrev pub close_actor : CloseReason → Bill D → String
  close_actor by_signal bill = bill.account_id
  close_actor _ bill = system_actor

  unfoldable pub close_input : Time → CloseReason → Bill D → CloseBillActivityInput D
  close_input now reason bill = record {
    bill_id = bill.id;
    actor = close_actor reason bill;
    total_amount = bill.total_amount;
    closed_at = now;
    close_reason = reason;
  }

  abbrev pub bill_result : CloseReason → Bill D → BillResult D
  bill_result reason bill = record {
    bill_id = bill.id;
    total_amount = bill.total_amount;
    currency = bill.currency;
    item_count = bill.item_count;
    close_reason = reason;
  }

  -- `finalizeAndPersist` after its activity.
  abbrev pub close_reply :
      CloseReason → Bill D → Result DbError (Unit {0}) → Result DbError (BillResult D)
  close_reply reason bill (ok _) = ok (bill_result reason bill)
  close_reply reason bill (err e) = err e

module _ {D : Type 0} {d : Decimal D} (pg : Postgres D d) where
  -- The first run persists the bill's row; a continued run has a snapshot and does not.
  unfoldable pub persist_on_start :
      List Attempt → BillWorkflowInput D → Bill D → World D → Result DbError (Unit {0}) × World D
  persist_on_start attempts input bill w = elim input.snapshot [
    | some _ ↦ (ok tt, w)
    | none ↦ execute_activity (λ c. create_bill_activity pg c bill) attempts w
  ]

  unfoldable pub finalize_and_persist :
      List Attempt
      → Time
      → CloseReason
      → Bill D
      → World D
      → Result DbError (BillResult D) × Bill D × World D
  finalize_and_persist attempts now reason bill w =
      let closing = finalized now reason bill in
      let (r, w') =
        execute_activity (λ c. close_bill_activity pg c (close_input now reason closing)) attempts
          w in
      (close_reply reason closing r, closing, w')
