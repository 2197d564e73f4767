-- ===== src/Workflow/Run.antt =====
-- One run of `BillingWorkflow` (bill/workflow.go) as a state machine. Temporal runs one coroutine
-- at a time and switches where one blocks, so a run moves at the events below, which come in any
-- order: an update arrives, a handler's activity ends, the close signal or the period's timer fires,
-- the main coroutine finds every handler finished, the closing activity ends.
pub mod Rolling
pub mod Picking
pub mod Counting
pub mod Serial
pub mod Races
pub mod Closing
pub mod Late
pub mod Draining
pub mod Unheard
pub mod Reused
pub mod Agreement
pub mod Tables
pub mod Sound
pub mod Stacked
pub mod Mirrors
pub mod Refines
pub mod Replies
pub mod Carried
pub mod Chained
pub mod Lifetime
use redesigned_disco.Prelude.{
  ℕ, zero, suc, String, Bool, true, false, Option, none, some, List, [], ◌∷◌, ◌++◌, if◌then◌else◌,
  ◌⊎◌, is_some, inl, inr,
}
use redesigned_disco.Errs.{Result, ok, err}
use redesigned_disco.Money.{Decimal, Postgres}
use redesigned_disco.Models.{
  Time, CloseReason, unset, by_signal, period_end, Bill, BillWorkflowInput, BillResult,
  AddLineItemInput, AddLineItemResult, AppendLineItemInput, CloseBillActivityInput,
}
use redesigned_disco.Store.{DbError}
use redesigned_disco.Activities.{World, append_line_item_activity, close_bill_activity}
use redesigned_disco.Activities.Retry.{Attempt, execute_activity}
use redesigned_disco.Workflow.{
  HandlerError, persist_failed, initial_bill, initial_seen, validate, current_result,
  begin_add_line_item, end_add_line_item, may_leave, period_over, continue_as_new, finalized,
  close_input, bill_result, persist_on_start,
}

-- An update handler that is blocked on its activity.
pub record Handler (D : Type 0) : Type 0 where
  pub update : AddLineItemInput D
  pub activity : AppendLineItemInput D

-- Where the main coroutine is: in `awaitCloseOrThreshold`; waiting for the handlers, with the close
-- reason that it returned; waiting for `CloseBillActivity`, with the input that it was called with;
-- or at its end.
pub data Phase (D : Type 0) : Type 0 where
  awaiting : Phase D
  draining : CloseReason → Phase D
  finalizing : CloseReason → CloseBillActivityInput D → Phase D
  completed : BillResult D → Phase D
  continued : BillWorkflowInput D → Phase D
  failed : DbError → Phase D

pub record Run (D : Type 0) : Type 0 where
  pub input : BillWorkflowInput D
  pub bill : Bill D
  pub seen : List String
  pub pending : List (Handler D)
  pub phase : Phase D
  pub world : World D

pub data Event (D : Type 0) : Type 0 where
  update : Time → AddLineItemInput D → Event D
  persisted : ℕ → List Attempt → Event D
  close_signal : Event D
  timer_fired : Event D
  handlers_finished : Time → Event D
  close_persisted : List Attempt → Event D

-- What an event answers to the caller of an update.
pub data Reply (D : Type 0) : Type 0 where
  silent : Reply D
  answered : AddLineItemResult D → Reply D
  refused : HandlerError → Reply D

module _ {D : Type 0} where
  abbrev is_running : Phase D → Bool
  is_running awaiting = true
  is_running (draining r) = true
  is_running (finalizing r i) = true
  is_running _ = false

  abbrev pub put_back :
      Handler D → Option (Handler D × List (Handler D)) → Option (Handler D × List (Handler D))
  put_back h none = none
  put_back h (some (x, rest)) = some (x, h ∷ rest)

  -- The n-th handler, and the others.
  abbrev pub pick : ℕ → List (Handler D) → Option (Handler D × List (Handler D))
  pick n [] = none
  pick zero (h ∷ hs) = some (h, hs)
  pick (suc n) (h ∷ hs) = put_back h (pick n hs)

  -- The main coroutine looks at its condition again.
  abbrev awaited : Phase D → Bill D → Phase D
  awaited awaiting bill = if may_leave false bill then draining unset else awaiting
  awaited p bill = p

  abbrev settled_by : CloseReason → Phase D → Phase D
  settled_by reason awaiting = draining reason
  settled_by reason p = p

  abbrev begun :
      Run D → AddLineItemInput D → AddLineItemResult D ⊎ AppendLineItemInput D → Run D × Reply D
  begun r request (inl result) = (r, answered result)
  begun r request (inr act) =
      (record r { pending = r.pending ++ record { update = request; activity = act } ∷ [] }, silent)

  abbrev validated : Time → Run D → AddLineItemInput D → Option HandlerError → Run D × Reply D
  validated now r request (some e) = (r, refused e)
  validated now r request none = begun r request (begin_add_line_item now r.bill r.seen request)

  unfoldable pub on_update : Decimal D → Time → AddLineItemInput D → Run D → Run D × Reply D
  unfolding validate begin_add_line_item
  on_update d now request r =
      if is_running r.phase
      then validated now r request (validate d r.bill request)
      else (r, silent)

  abbrev resumed :
      Decimal D
      → Run D
      → Handler D
      → List (Handler D)
      → Result DbError (Unit {0}) × World D
      → Run D × Reply D
  resumed d r h rest (ok _, w) =
      let (bill, seen) = end_add_line_item d h.update r.bill r.seen in
      (
        record r {
          bill = bill;
          seen = seen;
          pending = rest;
          phase = awaited r.phase bill;
          world = w;
        },
        answered (current_result bill h.update.item_id),
      )
  resumed d r h rest (err e, w) =
      (record r { pending = rest; world = w }, refused (persist_failed e))

  abbrev drained :
      (List String → List String) → Time → Run D → CloseReason → List (Handler D) → Run D
  drained order now r unset [] = record r {
    phase = continued (continue_as_new order r.input r.bill r.seen);
  }
  drained order now r reason [] = record r {
    phase = finalizing reason (close_input now reason (finalized now reason r.bill));
    bill = finalized now reason r.bill;
  }
  drained order now r reason (h ∷ hs) = r

  unfoldable pub on_handlers_finished : (List String → List String) → Time → Run D → Phase D → Run D
  unfolding continue_as_new finalized close_input
  on_handlers_finished order now r (draining reason) = drained order now r reason r.pending
  on_handlers_finished order now r p = r

  abbrev closed_phase : CloseReason → Bill D → Result DbError (Unit {0}) → Phase D
  closed_phase reason bill (ok _) = completed (bill_result reason bill)
  closed_phase reason bill (err e) = failed e

module _ {D : Type 0} {d : Decimal D} (pg : Postgres D d) where
  abbrev persisting : Run D → List Attempt → Option (Handler D × List (Handler D)) → Run D × Reply D
  persisting r attempts none = (r, silent)
  persisting r attempts (some (h, rest)) =
      resumed d r h rest
        (execute_activity (λ c. append_line_item_activity pg c h.activity) attempts r.world)

  unfoldable pub on_persisted : ℕ → List Attempt → Run D → Run D × Reply D
  unfolding end_add_line_item may_leave
  on_persisted n attempts r =
      if is_running r.phase then persisting r attempts (pick n r.pending) else (r, silent)

  abbrev end_finalizing : Run D → CloseReason → Result DbError (Unit {0}) × World D → Run D
  end_finalizing r reason (res, w) = record r { phase = closed_phase reason r.bill res; world = w }

  unfoldable pub on_close_persisted : List Attempt → Run D → Phase D → Run D
  on_close_persisted attempts r (finalizing reason input) =
      end_finalizing r reason
        (execute_activity (λ c. close_bill_activity pg c input) attempts r.world)
  on_close_persisted attempts r p = r

  module _ (order : List String → List String) where
    unfoldable pub step : Run D → Event D → Run D × Reply D
    unfolding on_update on_persisted on_handlers_finished on_close_persisted
    step r (update now request) = on_update d now request r
    step r (persisted n attempts) = on_persisted n attempts r
    step r close_signal = (record r { phase = settled_by by_signal r.phase }, silent)
    step r timer_fired = (
      record r {
        phase = if is_some r.input.period_end then settled_by period_end r.phase else r.phase;
      },
      silent,
    )
    step r (handlers_finished now) = (on_handlers_finished order now r r.phase, silent)
    step r (close_persisted attempts) = (on_close_persisted attempts r r.phase, silent)

    -- The events of a run, one after the other.
    unfoldable pub run_events : Run D → List (Event D) → Run D
    run_events r [] = r
    run_events r (e ∷ es) = run_events (step r e).0 es

  abbrev first_phase : Time → BillWorkflowInput D → Bill D → Result DbError (Unit {0}) → Phase D
  first_phase now input bill (err e) = failed e
  first_phase now input bill (ok _) =
      if may_leave false bill
      then draining unset
      else if period_over now input.period_end
      then draining period_end
      else awaiting

  abbrev started : Time → BillWorkflowInput D → Bill D → Result DbError (Unit {0}) × World D → Run D
  started now input bill (res, w) = record {
    input = input;
    bill = bill;
    seen = initial_seen input;
    pending = [];
    phase = first_phase now input bill res;
    world = w;
  }

  -- `BillingWorkflow` up to where its main coroutine first blocks. It reads `workflow.Now` twice: for
  -- the new bill, and after the activity for the timer of the period's end.
  unfoldable pub start_run : Time → Time → List Attempt → BillWorkflowInput D → World D → Run D
  unfolding initial_bill initial_seen persist_on_start may_leave period_over
  start_run now later attempts input w =
      started later input (initial_bill d now input)
        (persist_on_start pg attempts input (initial_bill d now input) w)
