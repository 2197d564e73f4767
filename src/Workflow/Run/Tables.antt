-- ===== src/Workflow/Run/Tables.antt =====
-- The tables through the runs of a workflow: the invariants of the activities at every state of a run.
use redesigned_disco.Prelude.{String, ◌≡◌, refl, ◌⊎◌, inl, inr, Option, none, some, List, [], ◌∷◌}
use redesigned_disco.Errs.{Result, ok, err}
use redesigned_disco.Money.{Decimal, Postgres}
use redesigned_disco.Models.{
  Time, Bill, BillWorkflowInput, AppendLineItemInput, CloseBillActivityInput, AddLineItemInput,
  AddLineItemResult, CloseReason, unset,
}
use redesigned_disco.Store.{Db, DbError}
use redesigned_disco.Activities.{
  Conn, World, create_bill_activity, append_line_item_activity, close_bill_activity,
}
use redesigned_disco.Activities.Calls.{Call, create, append, close, perform}
use redesigned_disco.Activities.Retry.{
  Activity, Attempt, Kept, Kept-first, execute_activity, execute_activity-Kept,
}
use redesigned_disco.Workflow.{HandlerError, persist_on_start, initial_bill}
use redesigned_disco.Workflow.Run.{
  Run, Phase, Handler, Event, update, persisted, close_signal, timer_fired, handlers_finished,
  close_persisted, draining, finalizing, step, run_events, on_update, on_persisted,
  on_handlers_finished, on_close_persisted, resumed, drained, persisting, begun, validated,
  is_running, start_run,
}
use redesigned_disco.Workflow.Run.Picking.{if_either}

module _ {D : Type 0} {d : Decimal D} (pg : Postgres D d) (I : Db D → Type 0)
    (keeps : (call : Call D) (w : World D) → I w.db → I (perform pg call w).1.db) where
  abbrev In : World D → Type 0
  In w = I w.db

  Kept-In : (out : Result DbError (Unit {0}) × World D) → In out.1 → Kept In In out
  Kept-In (ok u, w) h = (h, h)
  Kept-In (err e, w) h = h

  execute-keeps :
      (act : Activity D) (attempts : List Attempt) (w : World D)
      → ((c : Conn) (v : World D) → In v → In (act c v).1)
      → In w
      → In (execute_activity act attempts w).1
  execute-keeps act attempts w each h =
      Kept-first In In (execute_activity act attempts w)
        (execute_activity-Kept In In act (λ c v k. Kept-In (act c v) (each c v k)) attempts w h)

  append-keeps :
      (i : AppendLineItemInput D) (c : Conn) (v : World D)
      → In v
      → In (append_line_item_activity pg c i v).1
  unfolding perform
  append-keeps i c v h = keeps (append c i) v h

  close-keeps :
      (i : CloseBillActivityInput D) (c : Conn) (v : World D)
      → In v
      → In (close_bill_activity pg c i v).1
  unfolding perform
  close-keeps i c v h = keeps (close c i) v h

  create-keeps : (b : Bill D) (c : Conn) (v : World D) → In v → In (create_bill_activity pg c b v).1
  unfolding perform
  create-keeps b c v h = keeps (create c b) v h

  abbrev Sound : Run D → Type 0
  Sound r = In r.world

  begun-keeps :
      (r : Run D) (request : AddLineItemInput D) (o : AddLineItemResult D ⊎ AppendLineItemInput D)
      → Sound r
      → Sound (begun r request o).0
  begun-keeps r request (inl x) h = h
  begun-keeps r request (inr x) h = h

  validated-keeps :
      (now : Time) (r : Run D) (request : AddLineItemInput D) (o : Option HandlerError)
      → Sound r
      → Sound (validated now r request o).0
  validated-keeps now r request (some e) h = h
  validated-keeps now r request none h = begun-keeps r request _ h

  resumed-keeps :
      (r : Run D) (x : Handler D) (rest : List (Handler D))
      (o : Result DbError (Unit {0}) × World D)
      → In o.1
      → Sound (resumed d r x rest o).0
  resumed-keeps r x rest (ok u, w) h = h
  resumed-keeps r x rest (err e, w) h = h

  persisting-keeps :
      (r : Run D) (attempts : List Attempt) (o : Option (Handler D × List (Handler D)))
      → Sound r
      → Sound (persisting pg r attempts o).0
  persisting-keeps r attempts none h = h
  persisting-keeps r attempts (some (x, rest)) h =
      resumed-keeps r x rest _ (execute-keeps _ attempts r.world (append-keeps x.activity) h)

  drained-keeps :
      (order : List String → List String) (now : Time) (r : Run D) (reason : CloseReason)
      (hs : List (Handler D))
      → Sound r
      → Sound (drained order now r reason hs)
  drained-keeps order now r unset [] h = h
  drained-keeps order now r reason [] h = h
  drained-keeps order now r reason (x ∷ hs) h = h

  finished-keeps :
      (order : List String → List String) (now : Time) (r : Run D) (p : Phase D)
      → Sound r
      → Sound (on_handlers_finished order now r p)
  unfolding on_handlers_finished
  finished-keeps order now r (draining reason) h = drained-keeps order now r reason r.pending h
  finished-keeps order now r _ h = h

  closing-keeps :
      (attempts : List Attempt) (r : Run D) (p : Phase D)
      → Sound r
      → Sound (on_close_persisted pg attempts r p)
  unfolding on_close_persisted
  closing-keeps attempts r (finalizing reason input) h =
      execute-keeps _ attempts r.world (close-keeps input) h
  closing-keeps attempts r _ h = h

  step-keeps :
      (order : List String → List String) (r : Run D) (e : Event D)
      → Sound r
      → Sound (step pg order r e).0
  unfolding step on_update on_persisted
  step-keeps order r (update now request) h =
      if_either Sound (is_running r.phase) _ _ (validated-keeps now r request _ h) h
  step-keeps order r (persisted n attempts) h =
      if_either Sound (is_running r.phase) _ _ (persisting-keeps r attempts _ h) h
  step-keeps order r close_signal h = h
  step-keeps order r timer_fired h = h
  step-keeps order r (handlers_finished now) h = finished-keeps order now r r.phase h
  step-keeps order r (close_persisted attempts) h = closing-keeps attempts r r.phase h

  -- An invariant that each activity keeps is kept by every run, whatever its events.
  pub run_events-keeps :
      (order : List String → List String) (es : List (Event D)) (r : Run D)
      → Sound r
      → Sound (run_events pg order r es)
  unfolding run_events
  run_events-keeps order [] r h = h
  run_events-keeps order (e ∷ es) r h =
      run_events-keeps order es (step pg order r e).0 (step-keeps order r e h)

  persist_on_start-keeps :
      (attempts : List Attempt) (input : BillWorkflowInput D) (bill : Bill D) (w : World D)
      → In w
      → In (persist_on_start pg attempts input bill w).1
  unfolding persist_on_start
  persist_on_start-keeps attempts input bill w h = by_snapshot input.snapshot refl
    where
      by_snapshot :
          (s : Option (Bill D))
          → input.snapshot ≡ s
          → In (persist_on_start pg attempts input bill w).1
      by_snapshot none e = rw e (execute-keeps _ attempts w (create-keeps bill) h)
      by_snapshot (some b) e = rw e h

  pub start_run-keeps :
      (now later : Time) (attempts : List Attempt) (input : BillWorkflowInput D) (w : World D)
      → In w
      → Sound (start_run pg now later attempts input w)
  unfolding start_run
  start_run-keeps now later attempts input w h =
      persist_on_start-keeps attempts input (initial_bill d now input) w h
