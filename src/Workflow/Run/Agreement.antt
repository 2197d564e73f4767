-- ===== src/Workflow/Run/Agreement.antt =====
-- The running total of a run against the line items that are stored.
use mathlib.Core.Path.{subst}
use mathlib.Core.Option.{some-injective}
use redesigned_disco.Prelude.{
  ℕ, String, ◌≡◌, refl, sym, ap, ◌∙◌, ◌⊎◌, inl, inr, Option, none, some, List, [], ◌∷◌, arith, All,
  All-append, eq_iff,
}
use redesigned_disco.Errs.{Result, ok, err}
use redesigned_disco.Money.{Decimal, Postgres}
use redesigned_disco.Models.{
  Time, CloseReason, unset, AppendLineItemInput, AddLineItemInput, AddLineItemResult, Bill,
}
use redesigned_disco.Store.{Db, DbError, ItemRow}
use redesigned_disco.Activities.{
  World, append_line_item_activity, close_bill_activity, new_item_row,
}
use redesigned_disco.Activities.Append.{Appended, Taken}
use redesigned_disco.Activities.AtMostOnce.{AtMostOnce, execute_append-AtMostOnce}
use redesigned_disco.Activities.Closing.{IsClosed, execute_close-IsClosed}
use redesigned_disco.Activities.Ledger.{item_sum, item_sum-last}
use redesigned_disco.Activities.Retry.{Attempt, Kept, Kept-first, execute_activity}
use redesigned_disco.Workflow.Run.Picking.{pick-All, if_either}
use redesigned_disco.Workflow.{HandlerError, begin_add_line_item, end_add_line_item, finalized}
use redesigned_disco.Workflow.Run.{
  Run, Phase, Handler, Event, update, persisted, close_signal, timer_fired, handlers_finished,
  close_persisted, draining, finalizing, step, run_events, on_update, on_persisted,
  on_handlers_finished, on_close_persisted, pick, resumed, drained, persisting, begun, validated,
  is_running,
}

module _ {D : Type 0} {d : Decimal D} (pg : Postgres D d) (key : String) where
  -- A handler's activity is for the run's bill, with the id and the amount of its update, which its column holds
  -- as it is.
  pub record IsOwn (id : String) (h : Handler D) : Type 0 where
    pub bill : h.activity.bill_id ≡ id
    pub item : h.activity.item.id ≡ h.update.item_id
    pub amount : h.activity.item.amount ≡ h.update.amount
    pub fits : pg.numeric h.update.amount ≡ some h.update.amount

  -- The run's total is the sum of the amounts that are stored for its bill.
  pub record Agrees (r : Run D) : Type 0 where
    pub read : pg.uuid r.bill.id ≡ some key
    pub total : r.bill.total_amount ≡ item_sum d key r.world.db.items
    pub own : All (IsOwn r.bill.id) r.pending

  begun-Agrees :
      (r : Run D) (request : AddLineItemInput D) (o : AddLineItemResult D ⊎ AppendLineItemInput D)
      → ((x : AppendLineItemInput D)
          → o ≡ inr x
          → IsOwn r.bill.id (record { update = request; activity = x }))
      → Agrees r
      → Agrees (begun r request o).0
  begun-Agrees r request (inl x) u h = h
  begun-Agrees r request (inr x) u h = record {
    read = h.read;
    total = h.total;
    own = All-append _ r.pending _ h.own (u x refl, tt);
  }

  begin-IsOwn :
      (now : Time) (bill : Bill D) (seen : List String) (request : AddLineItemInput D)
      (x : AppendLineItemInput D)
      → pg.numeric request.amount ≡ some request.amount
      → begin_add_line_item now bill seen request ≡ inr x
      → IsOwn bill.id (record { update = request; activity = x })
  unfolding begin_add_line_item
  begin-IsOwn now bill seen request x fits h = record {
    bill = ground arith;
    item = ground arith;
    amount = ground arith;
    fits = fits;
  }

  validated-Agrees :
      (now : Time) (r : Run D) (request : AddLineItemInput D) (o : Option HandlerError)
      → pg.numeric request.amount ≡ some request.amount
      → Agrees r
      → Agrees (validated now r request o).0
  validated-Agrees now r request (some e) f h = h
  validated-Agrees now r request none f h =
      begun-Agrees r request _ (λ x e. begin-IsOwn now r.bill r.seen request x f e) h

  -- An execution of a handler's activity is exact: it succeeds where the item's key is free, or it
  -- fails and has left the tables as they were.
  abbrev pub Exact : AppendLineItemInput D → World D → Result DbError (Unit {0}) × World D → Type 0
  Exact i old (ok u, w) = ¬ Taken pg i old.db
  Exact i old (err e, w) = w.db ≡ old.db

  abbrev pub ExactPick : Run D → List Attempt → Option (Handler D × List (Handler D)) → Type 0
  ExactPick r attempts none = Unit
  ExactPick r attempts (some (h, rest)) =
      Exact h.activity r.world
        (execute_activity (λ c. append_line_item_activity pg c h.activity) attempts r.world)

  pub Appended-item_sum :
      (i : AppendLineItemInput D) (old new : Db D) (t : D)
      → pg.uuid i.bill_id ≡ some key
      → pg.numeric i.item.amount ≡ some i.item.amount
      → Appended pg i old new
      → t ≡ item_sum d key old.items
      → d.add t i.item.amount ≡ item_sum d key new.items
  Appended-item_sum i old new t read fits a e =
      let bill : a.bill ≡ key = some-injective _ _ (sym a.bill_read ∙ read) in
      let amount : a.amount ≡ i.item.amount = some-injective _ _ (sym a.amount_read ∙ fits) in
      let row : ItemRow D = record (new_item_row i) {
        id = a.key;
        bill_id = a.bill;
        amount = a.amount;
      } in
      let last = item_sum-last pg key old.items row in
      rw a.result (ground (arith, last, bill, amount, e, eq_iff a.bill key))

  added-Agrees :
      (r : Run D) (x : Handler D) (rest : List (Handler D)) (w : World D)
      → IsOwn r.bill.id x
      → All (IsOwn r.bill.id) rest
      → AtMostOnce pg x.activity r.world.db w.db × Taken pg x.activity w.db
      → ¬ Taken pg x.activity r.world.db
      → Agrees r
      → Agrees (resumed d r x rest (ok tt, w)).0
  unfolding end_add_line_item
  added-Agrees r x rest w o os (inl same, taken) free h =
      absurd (free (subst (Taken pg x.activity) same taken))
  added-Agrees r x rest w o os (inr app, taken) free h = record {
    read = h.read;
    total =
        ap (λ a. d.add r.bill.total_amount a) (sym o.amount)
        ∙ Appended-item_sum x.activity r.world.db w.db r.bill.total_amount
            (ap pg.uuid o.bill ∙ h.read) (rw o.amount o.fits) app h.total;
    own = os;
  }

  resumed-Agrees :
      (r : Run D) (x : Handler D) (rest : List (Handler D))
      (o : Result DbError (Unit {0}) × World D)
      → IsOwn r.bill.id x
      → All (IsOwn r.bill.id) rest
      → Kept (λ v. AtMostOnce pg x.activity r.world.db v.db) (λ v. Taken pg x.activity v.db) o
      → Exact x.activity r.world o
      → Agrees r
      → Agrees (resumed d r x rest o).0
  resumed-Agrees r x rest (ok u, w) o os k free h = added-Agrees r x rest w o os k free h
  resumed-Agrees r x rest (err e, w) o os k same h = record {
    read = h.read;
    total = h.total ∙ ap (λ (b : Db D). item_sum d key b.items) (sym same);
    own = os;
  }

  persisting-Agrees :
      (r : Run D) (attempts : List Attempt) (n : ℕ) (o : Option (Handler D × List (Handler D)))
      → pick n r.pending ≡ o
      → ExactPick r attempts o
      → Agrees r
      → Agrees (persisting pg r attempts o).0
  persisting-Agrees r attempts n none e x h = h
  persisting-Agrees r attempts n (some (y, rest)) e x h =
      let (o, os) = pick-All _ n r.pending y rest h.own e in
      resumed-Agrees r y rest _ o os (execute_append-AtMostOnce pg y.activity attempts r.world) x h

  drained-Agrees :
      (order : List String → List String) (now : Time) (r : Run D) (reason : CloseReason)
      (hs : List (Handler D))
      → Agrees r
      → Agrees (drained order now r reason hs)
  unfolding finalized
  drained-Agrees order now r unset [] h = record { read = h.read; total = h.total; own = h.own }
  drained-Agrees order now r reason [] h = record { read = h.read; total = h.total; own = h.own }
  drained-Agrees order now r reason (x ∷ hs) h = h

  finished-Agrees :
      (order : List String → List String) (now : Time) (r : Run D) (p : Phase D)
      → Agrees r
      → Agrees (on_handlers_finished order now r p)
  unfolding on_handlers_finished
  finished-Agrees order now r (draining reason) h = drained-Agrees order now r reason r.pending h
  finished-Agrees order now r _ h = h

  closing-Agrees :
      (attempts : List Attempt) (r : Run D) (p : Phase D)
      → Agrees r
      → Agrees (on_close_persisted pg attempts r p)
  unfolding on_close_persisted
  closing-Agrees attempts r (finalizing reason input) h =
      let out = execute_activity (λ c. close_bill_activity pg c input) attempts r.world in
      let same =
        Kept-first (λ v. v.db.items ≡ r.world.db.items) (λ v. IsClosed pg input v.db) out
          (execute_close-IsClosed pg input attempts r.world) in
      record { read = h.read; total = h.total ∙ ap (item_sum d key) (sym same); own = h.own }
  closing-Agrees attempts r _ h = h

  module _ (order : List String → List String) where
    -- The amount of an update fits its column as it is, and the execution of each handler's activity
    -- is exact; the other events are free.
    abbrev pub ExactEvent : Run D → Event D → Type 0
    ExactEvent r (update now request) = pg.numeric request.amount ≡ some request.amount
    ExactEvent r (persisted n attempts) = ExactPick r attempts (pick n r.pending)
    ExactEvent r _ = Unit

    abbrev pub ExactRun : Run D → List (Event D) → Type 0
    ExactRun r [] = Unit
    ExactRun r (e ∷ es) = ExactEvent r e × ExactRun (step pg order r e).0 es

    pub step-Agrees :
        (r : Run D) (e : Event D) → ExactEvent r e → Agrees r → Agrees (step pg order r e).0
    unfolding step on_update on_persisted
    step-Agrees r (update now request) n h =
        if_either Agrees (is_running r.phase) _ _ (validated-Agrees now r request _ n h) h
    step-Agrees r (persisted n attempts) u h =
        if_either Agrees (is_running r.phase) _ _ (persisting-Agrees r attempts n _ refl u h) h
    step-Agrees r close_signal u h = record { read = h.read; total = h.total; own = h.own }
    step-Agrees r timer_fired u h = record { read = h.read; total = h.total; own = h.own }
    step-Agrees r (handlers_finished now) u h = finished-Agrees order now r r.phase h
    step-Agrees r (close_persisted attempts) u h = closing-Agrees attempts r r.phase h

    -- If the amounts of the updates fit their column as they are, and each execution of a handler's
    -- activity either succeeds for an item whose key was free, or fails and leaves the tables as they
    -- were, then after any events, in any order, the bill's total is the sum of the amounts that are
    -- stored for it, if that was so before and the handlers in flight were the bill's own.
    pub run_events-Agrees :
        (es : List (Event D)) (r : Run D)
        → ExactRun r es
        → Agrees r
        → Agrees (run_events pg order r es)
    unfolding run_events
    run_events-Agrees [] r x h = h
    run_events-Agrees (e ∷ es) r x h =
        run_events-Agrees es (step pg order r e).0 x.1 (step-Agrees r e x.0 h)
