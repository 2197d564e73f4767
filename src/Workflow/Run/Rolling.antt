-- ===== src/Workflow/Run/Rolling.antt =====
-- A bill that has reached the threshold: `continueAsNew` hands `ItemCount` on, and the next run
-- compares that same count with the threshold again.
use mathlib.Core.Path.{subst}
use redesigned_disco.Prelude.{
  ◌≤◌, String, Bool, true, false, ◌≡◌, refl, ◌⊎◌, inl, inr, Option, none, some, List, [], ◌∷◌,
  arith, if◌then◌else◌, is_some, sym,
}
use redesigned_disco.Errs.{Result, ok, err}
use redesigned_disco.Money.{Decimal, Postgres}
use redesigned_disco.Models.{
  Time, CloseReason, unset, by_signal, period_end, Bill, BillWorkflowInput, AppendLineItemInput,
  AddLineItemInput, AddLineItemResult,
}
use redesigned_disco.Store.{DbError}
use redesigned_disco.Activities.{World}
use redesigned_disco.Activities.Retry.{Attempt}
use redesigned_disco.Workflow.{HandlerError, validate, continue_as_new, end_add_line_item}
use redesigned_disco.Workflow.Run.{
  Run, Phase, Handler, Event, update, persisted, close_signal, timer_fired, handlers_finished,
  close_persisted, draining, continued, step, run_events, start_run, on_update, on_persisted,
  on_handlers_finished, on_close_persisted, pick, resumed, drained, persisting, begun, validated,
  awaited, settled_by, Reply, is_running,
}

-- An input that carries a bill with the threshold's number of items, or more.
abbrev pub IsFull : {D : Type 0} → BillWorkflowInput D → Type 0
IsFull {D} input = (b : Bill D) × (input.snapshot ≡ some b) × (1000 ≤ b.item_count)

abbrev pub RollingPhase : {D : Type 0} → Phase D → Type 0
RollingPhase (draining unset) = Unit
RollingPhase (continued i) = IsFull i
RollingPhase p = ⊥

-- The run can only wait for its handlers and continue as new, with a full bill again.
pub record IsRolling {D : Type 0} (r : Run D) : Type 0 where
  pub full : 1000 ≤ r.bill.item_count
  pub rolling : RollingPhase r.phase

module _ {D : Type 0} {d : Decimal D} (pg : Postgres D d) (order : List String → List String) where
  begun-IsRolling :
      (r : Run D) (request : AddLineItemInput D) (o : AddLineItemResult D ⊎ AppendLineItemInput D)
      → IsRolling r
      → IsRolling (begun r request o).0
  begun-IsRolling r request (inl x) h = h
  begun-IsRolling r request (inr x) h = record { full = h.full; rolling = h.rolling }

  validated-IsRolling :
      (now : Time) (r : Run D) (request : AddLineItemInput D) (o : Option HandlerError)
      → IsRolling r
      → IsRolling (validated now r request o).0
  validated-IsRolling now r request (some e) h = h
  validated-IsRolling now r request none h = begun-IsRolling r request _ h

  awaited-RollingPhase : (p : Phase D) (b : Bill D) → RollingPhase p → RollingPhase (awaited p b)
  awaited-RollingPhase (draining r) b h = h
  awaited-RollingPhase (continued i) b h = h
  awaited-RollingPhase _ b h = absurd h

  settled-RollingPhase :
      (reason : CloseReason) (p : Phase D) → RollingPhase p → RollingPhase (settled_by reason p)
  settled-RollingPhase reason (draining r) h = h
  settled-RollingPhase reason (continued i) h = h
  settled-RollingPhase reason _ h = absurd h

  timed-RollingPhase :
      (b : Bool) (p : Phase D)
      → RollingPhase p
      → RollingPhase (if b then settled_by period_end p else p)
  timed-RollingPhase true p h = settled-RollingPhase period_end p h
  timed-RollingPhase false p h = h

  resumed-IsRolling :
      (r : Run D) (x : Handler D) (rest : List (Handler D))
      (o : Result DbError (Unit {0}) × World D)
      → IsRolling r
      → IsRolling (resumed d r x rest o).0
  unfolding end_add_line_item
  resumed-IsRolling r x rest (ok u, w) h = record {
    full = ground (arith, h.full);
    rolling = awaited-RollingPhase r.phase _ h.rolling;
  }
  resumed-IsRolling r x rest (err e, w) h = record { full = h.full; rolling = h.rolling }

  persisting-IsRolling :
      (r : Run D) (attempts : List Attempt) (o : Option (Handler D × List (Handler D)))
      → IsRolling r
      → IsRolling (persisting pg r attempts o).0
  persisting-IsRolling r attempts none h = h
  persisting-IsRolling r attempts (some (x, rest)) h = resumed-IsRolling r x rest _ h

  if-IsRolling :
      (b : Bool) (x y : Run D × Reply D)
      → IsRolling x.0
      → IsRolling y.0
      → IsRolling (if b then x else y).0
  if-IsRolling true x y h k = h
  if-IsRolling false x y h k = k

  drained-IsRolling :
      (now : Time) (r : Run D) (hs : List (Handler D))
      → IsRolling r
      → IsRolling (drained order now r unset hs)
  unfolding continue_as_new
  drained-IsRolling now r [] h = record { full = h.full; rolling = (_, refl, h.full) }
  drained-IsRolling now r (x ∷ hs) h = h

  finished-IsRolling :
      (now : Time) (r : Run D) (p : Phase D)
      → RollingPhase p
      → IsRolling r
      → IsRolling (on_handlers_finished order now r p)
  unfolding on_handlers_finished
  finished-IsRolling now r (draining unset) k h = drained-IsRolling now r r.pending h
  finished-IsRolling now r (continued i) k h = h
  finished-IsRolling now r _ k h = absurd k

  closing-IsRolling :
      (attempts : List Attempt) (r : Run D) (p : Phase D)
      → RollingPhase p
      → IsRolling r
      → IsRolling (on_close_persisted pg attempts r p)
  unfolding on_close_persisted
  closing-IsRolling attempts r (draining reason) k h = h
  closing-IsRolling attempts r (continued i) k h = h
  closing-IsRolling attempts r _ k h = absurd k

  step-IsRolling : (r : Run D) (e : Event D) → IsRolling r → IsRolling (step pg order r e).0
  unfolding step on_update on_persisted
  step-IsRolling r (update now request) h =
      if-IsRolling (is_running r.phase) _ _
        (validated-IsRolling now r request (validate d r.bill request) h) h
  step-IsRolling r (persisted n attempts) h =
      if-IsRolling (is_running r.phase) _ _ (persisting-IsRolling r attempts (pick n r.pending) h) h
  step-IsRolling r close_signal h = record {
    full = h.full;
    rolling = settled-RollingPhase by_signal r.phase h.rolling;
  }
  step-IsRolling r timer_fired h = record {
    full = h.full;
    rolling = timed-RollingPhase (is_some r.input.period_end) r.phase h.rolling;
  }
  step-IsRolling r (handlers_finished now) h = finished-IsRolling now r r.phase h.rolling h
  step-IsRolling r (close_persisted attempts) h = closing-IsRolling attempts r r.phase h.rolling h

  run_events-IsRolling :
      (es : List (Event D)) (r : Run D) → IsRolling r → IsRolling (run_events pg order r es)
  unfolding run_events
  run_events-IsRolling [] r h = h
  run_events-IsRolling (e ∷ es) r h =
      run_events-IsRolling es (step pg order r e).0 (step-IsRolling r e h)

  start-IsRolling :
      (now later : Time) (attempts : List Attempt) (input : BillWorkflowInput D) (w : World D)
      → IsFull input
      → IsRolling (start_run pg now later attempts input w)
  unfolding start_run
  start-IsRolling now later attempts input w (b, e, full) =
      let phase : (start_run pg now later attempts input w).phase ≡ draining unset = ground arith in
      let bill : (start_run pg now later attempts input w).bill ≡ b = ground arith in
      record { full = rw bill full; rolling = subst RollingPhase (sym phase) tt }

-- One run after another: `next` is what a run from `input` continues as, after some events.
pub data Chain {D : Type 0} {d : Decimal D} (pg : Postgres D d) (order : List String → List String)
    (input : BillWorkflowInput D) : BillWorkflowInput D → Type 0 where
  first : Chain pg order input input
  then_next :
      (now later : Time) (attempts : List Attempt) (w : World D) (es : List (Event D))
      {i j : BillWorkflowInput D}
      → Chain pg order input i
      → (run_events pg order (start_run pg now later attempts i w) es).phase ≡ continued j
      → Chain pg order input j

module _ {D : Type 0} {d : Decimal D} (pg : Postgres D d) (order : List String → List String) where
  IsFull-phase :
      (p : Phase D) (j : BillWorkflowInput D) → RollingPhase p → p ≡ continued j → IsFull j
  IsFull-phase p j h e = subst RollingPhase e h

  Chain-IsFull :
      (input : BillWorkflowInput D) {j : BillWorkflowInput D}
      → IsFull input
      → Chain pg order input j
      → IsFull j
  Chain-IsFull input h first = h
  Chain-IsFull input h (then_next now later attempts w es c e) =
      IsFull-phase _ _
        (run_events-IsRolling pg order es _
          (start-IsRolling pg order now later attempts _ w (Chain-IsFull input h c))).rolling
        e

  -- Once a run continues as new with the threshold's number of items, no run of the chain that it
  -- starts ever finalizes the bill, completes or fails: whatever signals, timers and updates come,
  -- each run is waiting for its handlers in order to continue as new, or has done so.
  pub full_bill_never_closes :
      (input : BillWorkflowInput D) {j : BillWorkflowInput D}
      → IsFull input
      → Chain pg order input j
      → (now later : Time) (attempts : List Attempt) (w : World D) (es : List (Event D))
      → RollingPhase (run_events pg order (start_run pg now later attempts j w) es).phase
  full_bill_never_closes input h c now later attempts w es =
      (run_events-IsRolling pg order es _
        (start-IsRolling pg order now later attempts _ w (Chain-IsFull input h c))).rolling
