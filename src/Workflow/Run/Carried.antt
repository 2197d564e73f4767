-- ===== src/Workflow/Run/Carried.antt =====
-- What a run that has continued as new carries over: the input of the next run is made of the
-- summary and the seen ids that the run still has.
use mathlib.Core.Path.{subst}
use redesigned_disco.Prelude.{
  String, Bool, true, false, ◌≡◌, refl, Option, none, some, List, [], ◌∷◌, if◌then◌else◌, is_some,
  ◌⊎◌, inl, inr,
}
use redesigned_disco.Errs.{Result, ok, err}
use redesigned_disco.Money.{Decimal, Postgres}
use redesigned_disco.Models.{
  Time, CloseReason, unset, by_signal, period_end, Bill, BillWorkflowInput, AppendLineItemInput,
  AddLineItemInput, AddLineItemResult,
}
use redesigned_disco.Store.{DbError}
use redesigned_disco.Activities.{World}
use redesigned_disco.Activities.Retry.{Attempt}
use redesigned_disco.Workflow.{
  HandlerError, validate, continue_as_new, may_leave, period_over, initial_bill, persist_on_start,
}
use redesigned_disco.Workflow.Run.Picking.{if_either}
use redesigned_disco.Workflow.Run.{
  Run, Phase, Handler, Event, update, persisted, close_signal, timer_fired, handlers_finished,
  close_persisted, awaiting, draining, finalizing, completed, continued, failed, step, start_run,
  on_update, on_persisted, on_handlers_finished, on_close_persisted, pick, resumed, drained,
  persisting, begun, validated, awaited, settled_by, silent, is_running, first_phase, closed_phase,
}

module _ {D : Type 0} {d : Decimal D} (pg : Postgres D d) (order : List String → List String) where
  abbrev CarriedBy : Phase D → BillWorkflowInput D → Type 0
  CarriedBy (continued i) c = i ≡ c
  CarriedBy p c = Unit

  abbrev pub carried : Run D → BillWorkflowInput D
  carried r = continue_as_new order r.input r.bill r.seen

  abbrev pub Carried : Run D → Type 0
  Carried r = CarriedBy r.phase (carried r)

  if_phase :
      (c : BillWorkflowInput D) (b : Bool) (p q : Phase D)
      → CarriedBy p c
      → CarriedBy q c
      → CarriedBy (if b then p else q) c
  if_phase c true p q h k = h
  if_phase c false p q h k = k

  begun-Carried :
      (r : Run D) (request : AddLineItemInput D) (o : AddLineItemResult D ⊎ AppendLineItemInput D)
      → Carried r
      → Carried (begun r request o).0
  begun-Carried r request (inl x) h = h
  begun-Carried r request (inr x) h = h

  validated-Carried :
      (now : Time) (r : Run D) (request : AddLineItemInput D) (o : Option HandlerError)
      → Carried r
      → Carried (validated now r request o).0
  validated-Carried now r request (some e) h = h
  validated-Carried now r request none h = begun-Carried r request _ h

  awaited-Carried :
      (c : BillWorkflowInput D) (p : Phase D) (b : Bill D)
      → is_running p ≡ true
      → CarriedBy (awaited p b) c
  awaited-Carried c awaiting b e = if_phase c (may_leave false b) (draining unset) awaiting tt tt
  awaited-Carried c (draining x) b e = tt
  awaited-Carried c (finalizing x i) b e = tt
  awaited-Carried c (completed x) b e = cc
  awaited-Carried c (continued x) b e = cc
  awaited-Carried c (failed x) b e = cc

  resumed-Carried :
      (r : Run D) (x : Handler D) (rest : List (Handler D))
      (o : Result DbError (Unit {0}) × World D)
      → is_running r.phase ≡ true
      → Carried r
      → Carried (resumed d r x rest o).0
  resumed-Carried r x rest (ok u, w) e h = awaited-Carried _ r.phase _ e
  resumed-Carried r x rest (err y, w) e h = h

  persisting-Carried :
      (r : Run D) (attempts : List Attempt) (o : Option (Handler D × List (Handler D))) (b : Bool)
      → is_running r.phase ≡ b
      → Carried r
      → Carried (if b then persisting pg r attempts o else (r, silent)).0
  persisting-Carried r attempts o false e h = h
  persisting-Carried r attempts none true e h = h
  persisting-Carried r attempts (some (x, rest)) true e h = resumed-Carried r x rest _ e h

  settled-Carried :
      (c : BillWorkflowInput D) (reason : CloseReason) (p : Phase D)
      → CarriedBy p c
      → CarriedBy (settled_by reason p) c
  settled-Carried c reason awaiting h = tt
  settled-Carried c reason (draining x) h = tt
  settled-Carried c reason (finalizing x i) h = tt
  settled-Carried c reason (completed x) h = tt
  settled-Carried c reason (continued x) h = h
  settled-Carried c reason (failed x) h = tt

  drained-Carried :
      (now : Time) (r : Run D) (reason : CloseReason) (hs : List (Handler D))
      → Carried r
      → Carried (drained order now r reason hs)
  drained-Carried now r unset [] h = refl
  drained-Carried now r by_signal [] h = tt
  drained-Carried now r period_end [] h = tt
  drained-Carried now r reason (x ∷ hs) h = h

  finished-Carried :
      (now : Time) (r : Run D) (p : Phase D)
      → Carried r
      → Carried (on_handlers_finished order now r p)
  unfolding on_handlers_finished
  finished-Carried now r (draining reason) h = drained-Carried now r reason r.pending h
  finished-Carried now r _ h = h

  closed-Carried :
      (c : BillWorkflowInput D) (reason : CloseReason) (b : Bill D)
      (res : Result DbError (Unit {0}))
      → CarriedBy (closed_phase reason b res) c
  closed-Carried c reason b (ok u) = tt
  closed-Carried c reason b (err e) = tt

  closing-Carried :
      (attempts : List Attempt) (r : Run D) (p : Phase D)
      → Carried r
      → Carried (on_close_persisted pg attempts r p)
  unfolding on_close_persisted
  closing-Carried attempts r (finalizing reason input) h = closed-Carried _ reason r.bill _
  closing-Carried attempts r _ h = h

  -- No step after `continueAsNew` changes what it carried over.
  pub step-Carried : (r : Run D) (e : Event D) → Carried r → Carried (step pg order r e).0
  unfolding step on_update on_persisted
  step-Carried r (update now request) h =
      if_either Carried (is_running r.phase) _ _
        (validated-Carried now r request (validate d r.bill request) h) h
  step-Carried r (persisted n attempts) h =
      persisting-Carried r attempts (pick n r.pending) (is_running r.phase) refl h
  step-Carried r close_signal h = settled-Carried (carried r) by_signal r.phase h
  step-Carried r timer_fired h =
      if_phase (carried r) (is_some r.input.period_end) _ r.phase
        (settled-Carried (carried r) period_end r.phase h) h
  step-Carried r (handlers_finished now) h = finished-Carried now r r.phase h
  step-Carried r (close_persisted attempts) h = closing-Carried attempts r r.phase h

  first-Carried :
      (c : BillWorkflowInput D) (now : Time) (input : BillWorkflowInput D) (b : Bill D)
      (res : Result DbError (Unit {0}))
      → CarriedBy (first_phase pg now input b res) c
  first-Carried c now input b (err e) = tt
  first-Carried c now input b (ok u) =
      if_phase c (may_leave false b) (draining unset) _ tt
        (if_phase c (period_over now input.period_end) (draining period_end) awaiting tt tt)

  pub start_run-Carried :
      (now later : Time) (attempts : List Attempt) (input : BillWorkflowInput D) (w : World D)
      → Carried (start_run pg now later attempts input w)
  unfolding start_run
  start_run-Carried now later attempts input w =
      first-Carried _ later input (initial_bill d now input)
        (persist_on_start pg attempts input (initial_bill d now input) w).0

  pub Carried-continued :
      (r : Run D) (j : BillWorkflowInput D) → Carried r → r.phase ≡ continued j → j ≡ carried r
  Carried-continued r j h e = subst (λ p. CarriedBy p (carried r)) e h
