-- ===== src/Workflow/Run/Serial.antt =====
-- Runs in which no update arrives while another one for the same item id is in flight.
use redesigned_disco.Prelude.{
  Distinct-last, ℕ, suc, String, false, ◌≡◌, refl, ap, ◌⊎◌, inl, inr, Option, none, some, List, [],
  ◌∷◌, arith, contains, All, All-append, eq_iff,
}
use redesigned_disco.Errs.{Result, ok, err}
use redesigned_disco.Money.{Decimal, Postgres}
use redesigned_disco.Models.{
  Time, CloseReason, unset, AppendLineItemInput, AddLineItemInput, AddLineItemResult, Bill,
}
use redesigned_disco.Store.{DbError}
use redesigned_disco.Activities.{World}
use redesigned_disco.Activities.Retry.{Attempt}
use redesigned_disco.Workflow.{HandlerError, begin_add_line_item, end_add_line_item, finalized}
use redesigned_disco.Workflow.Run.{
  Run, Phase, Handler, Event, update, persisted, close_signal, timer_fired, handlers_finished,
  close_persisted, draining, finalizing, step, run_events, on_update, on_persisted,
  on_handlers_finished, on_close_persisted, pick, resumed, drained, persisting, begun, validated,
  is_running,
}
use redesigned_disco.Workflow.Run.Picking.{if_either}
use redesigned_disco.Workflow.Run.Counting.{
  in_flight, IsCounted, in_flight-last, Picked, pick-Picked,
}

module _ {D : Type 0} where
  Unseen : List String → Handler D → Type 0
  Unseen seen h = contains seen h.update.item_id ≡ false

  unseen_more :
      (seen : List String) (k : String) (hs : List (Handler D))
      → contains (in_flight hs) k ≡ false
      → All (λ h. contains seen h.update.item_id ≡ false) hs
      → All (λ h. contains (k ∷ seen) h.update.item_id ≡ false) hs
  unseen_more seen k [] n a = tt
  unseen_more seen k (h ∷ hs) n a = (
    ground (arith, a.0, eq_iff h.update.item_id k, eq_iff k h.update.item_id),
    unseen_more seen k hs (ground arith) a.1,
  )

  begun-IsCounted :
      (r : Run D) (request : AddLineItemInput D) (o : AddLineItemResult D ⊎ AppendLineItemInput D)
      → contains (in_flight r.pending) request.item_id ≡ false
      → ((x : AppendLineItemInput D) → o ≡ inr x → contains r.seen request.item_id ≡ false)
      → IsCounted r
      → IsCounted (begun r request o).0
  begun-IsCounted r request (inl x) n u h = h
  begun-IsCounted r request (inr x) n u h =
      let new : Handler D = record { update = request; activity = x } in
      record {
        count = h.count;
        once = h.once;
        apart = All-append _ r.pending (new ∷ []) h.apart (u x refl, tt);
        separate = rw (in_flight-last r.pending new) (Distinct-last _ request.item_id h.separate n);
      }

  unseen_begun :
      (now : Time) (bill : Bill D) (seen : List String) (request : AddLineItemInput D)
      (x : AppendLineItemInput D)
      → begin_add_line_item now bill seen request ≡ inr x
      → contains seen request.item_id ≡ false
  unfolding begin_add_line_item
  unseen_begun now bill seen request x h = ground arith

  validated-IsCounted :
      (now : Time) (r : Run D) (request : AddLineItemInput D) (o : Option HandlerError)
      → contains (in_flight r.pending) request.item_id ≡ false
      → IsCounted r
      → IsCounted (validated now r request o).0
  validated-IsCounted now r request (some e) n h = h
  validated-IsCounted now r request none n h =
      begun-IsCounted r request _ n (unseen_begun now r.bill r.seen request) h

  resumed-IsCounted :
      (d : Decimal D) (r : Run D) (x : Handler D) (rest : List (Handler D))
      (o : Result DbError (Unit {0}) × World D)
      → Picked (λ h. contains r.seen h.update.item_id ≡ false) x r.pending rest
      → IsCounted r
      → IsCounted (resumed d r x rest o).0
  unfolding end_add_line_item
  resumed-IsCounted d r x rest (ok u, w) p h = record {
    count = ap suc h.count;
    once = (p.picked, h.once);
    apart = unseen_more r.seen x.update.item_id rest p.alone p.others;
    separate = p.separate;
  }
  resumed-IsCounted d r x rest (err e, w) p h = record {
    count = h.count;
    once = h.once;
    apart = p.others;
    separate = p.separate;
  }

  drained-IsCounted :
      (order : List String → List String) (now : Time) (r : Run D) (reason : CloseReason)
      (hs : List (Handler D))
      → IsCounted r
      → IsCounted (drained order now r reason hs)
  unfolding finalized
  drained-IsCounted order now r unset [] h = record {
    count = h.count;
    once = h.once;
    apart = h.apart;
    separate = h.separate;
  }
  drained-IsCounted order now r reason [] h = record {
    count = h.count;
    once = h.once;
    apart = h.apart;
    separate = h.separate;
  }
  drained-IsCounted order now r reason (x ∷ hs) h = h

  finished-IsCounted :
      (order : List String → List String) (now : Time) (r : Run D) (p : Phase D)
      → IsCounted r
      → IsCounted (on_handlers_finished order now r p)
  unfolding on_handlers_finished
  finished-IsCounted order now r (draining reason) h =
      drained-IsCounted order now r reason r.pending h
  finished-IsCounted order now r _ h = h

module _ {D : Type 0} {d : Decimal D} (pg : Postgres D d) where
  persisting-IsCounted :
      (r : Run D) (attempts : List Attempt) (n : ℕ) (o : Option (Handler D × List (Handler D)))
      → pick n r.pending ≡ o
      → IsCounted r
      → IsCounted (persisting pg r attempts o).0
  persisting-IsCounted r attempts n none e h = h
  persisting-IsCounted r attempts n (some (x, rest)) e h =
      resumed-IsCounted d r x rest _ (pick-Picked _ n r.pending x rest h.apart h.separate e) h

  closing-IsCounted :
      (attempts : List Attempt) (r : Run D) (p : Phase D)
      → IsCounted r
      → IsCounted (on_close_persisted pg attempts r p)
  unfolding on_close_persisted
  closing-IsCounted attempts r (finalizing reason input) h = record {
    count = h.count;
    once = h.once;
    apart = h.apart;
    separate = h.separate;
  }
  closing-IsCounted attempts r _ h = h

  module _ (order : List String → List String) where
    -- An update is for an id of which none is in flight; the other events are free.
    abbrev pub NotInFlight : Run D → Event D → Type 0
    NotInFlight r (update now request) = contains (in_flight r.pending) request.item_id ≡ false
    NotInFlight r _ = Unit

    abbrev pub Serial : Run D → List (Event D) → Type 0
    Serial r [] = Unit
    Serial r (e ∷ es) = NotInFlight r e × Serial (step pg order r e).0 es

    step-IsCounted :
        (r : Run D) (e : Event D) → NotInFlight r e → IsCounted r → IsCounted (step pg order r e).0
    unfolding step on_update on_persisted
    step-IsCounted r (update now request) n h =
        if_either IsCounted (is_running r.phase) _ _ (validated-IsCounted now r request _ n h) h
    step-IsCounted r (persisted n attempts) u h =
        if_either IsCounted (is_running r.phase) _ _ (persisting-IsCounted r attempts n _ refl h) h
    step-IsCounted r close_signal u h = record {
      count = h.count;
      once = h.once;
      apart = h.apart;
      separate = h.separate;
    }
    step-IsCounted r timer_fired u h = record {
      count = h.count;
      once = h.once;
      apart = h.apart;
      separate = h.separate;
    }
    step-IsCounted r (handlers_finished now) u h = finished-IsCounted order now r r.phase h
    step-IsCounted r (close_persisted attempts) u h = closing-IsCounted attempts r r.phase h

    -- If no update arrives while another one for the same item id is in flight, then after any
    -- events the bill's item count is the number of different item ids that were counted, and no
    -- handler in flight is for an id that was counted, if that was so before.
    pub run_events-IsCounted :
        (es : List (Event D)) (r : Run D)
        → Serial r es
        → IsCounted r
        → IsCounted (run_events pg order r es)
    unfolding run_events
    run_events-IsCounted [] r s h = h
    run_events-IsCounted (e ∷ es) r s h =
        run_events-IsCounted es (step pg order r e).0 s.1 (step-IsCounted r e s.0 h)
