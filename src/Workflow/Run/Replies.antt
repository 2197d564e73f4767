-- ===== src/Workflow/Run/Replies.antt =====
-- What the caller of an update is told, against the account that the tables hold.
use mathlib.Core.Path.{subst}
use redesigned_disco.Prelude.{
  String, Bool, true, false, ◌≡◌, refl, ◌∙◌, ap, ◌⊎◌, inl, inr, Option, none, some, List, arith,
  if◌then◌else◌, contains, length, eq_refl,
}
use redesigned_disco.Errs.{Result, ok, err}
use redesigned_disco.Money.{Decimal, Postgres}
use redesigned_disco.Models.{Time, Bill, AddLineItemInput, AddLineItemResult, AppendLineItemInput}
use redesigned_disco.Store.{DbError}
use redesigned_disco.Activities.{World}
use redesigned_disco.Activities.Retry.{Attempt}
use redesigned_disco.Workflow.{HandlerError, begin_add_line_item, end_add_line_item, current_result}
use redesigned_disco.Workflow.Contract.{total, ids}
use redesigned_disco.Workflow.Run.Agreement.{ExactEvent}
use redesigned_disco.Workflow.Run.Stacked.{account_of}
use redesigned_disco.Workflow.Run.Chained.{KeepsIds, Lived, Lived-IsServed}
use redesigned_disco.Workflow.Run.Mirrors.{Mirrors}
use redesigned_disco.Workflow.Run.Refines.{InTime, step-Moved}
use redesigned_disco.Workflow.Run.{
  Run, Handler, Event, Reply, silent, answered, refused, update, persisted, close_signal,
  timer_fired, handlers_finished, close_persisted, step, on_update, on_persisted, resumed,
  persisting, begun, validated, is_running,
}

module _ {D : Type 0} where
  -- An answer is the summary of the run, for an id that was counted.
  abbrev Told : Run D × Reply D → Type 0
  Told (r, silent) = Unit
  Told (r, answered result) =
      (result ≡ current_result r.bill result.item_id) × (contains r.seen result.item_id ≡ true)
  Told (r, refused e) = Unit

  if_Told : (b : Bool) (x y : Run D × Reply D) → Told x → Told y → Told (if b then x else y)
  if_Told true x y h k = h
  if_Told false x y h k = k

  begin-Told :
      (now : Time) (bill : Bill D) (seen : List String) (request : AddLineItemInput D)
      (result : AddLineItemResult D)
      → begin_add_line_item now bill seen request ≡ inl result
      → (result ≡ current_result bill result.item_id) × (contains seen result.item_id ≡ true)
  unfolding begin_add_line_item
  begin-Told now bill seen request result h = ground arith

  begun-Told :
      (r : Run D) (request : AddLineItemInput D) (o : AddLineItemResult D ⊎ AppendLineItemInput D)
      → ((result : AddLineItemResult D)
          → o ≡ inl result
          → (result ≡ current_result r.bill result.item_id)
            × (contains r.seen result.item_id ≡ true))
      → Told (begun r request o)
  begun-Told r request (inl result) h = h result refl
  begun-Told r request (inr i) h = tt

  validated-Told :
      (now : Time) (r : Run D) (request : AddLineItemInput D) (o : Option HandlerError)
      → Told (validated now r request o)
  validated-Told now r request (some e) = tt
  validated-Told now r request none =
      begun-Told r request _ (λ x e. begin-Told now r.bill r.seen request x e)

  resumed-Told :
      (d : Decimal D) (r : Run D) (x : Handler D) (rest : List (Handler D))
      (o : Result DbError (Unit {0}) × World D)
      → Told (resumed d r x rest o)
  unfolding end_add_line_item
  resumed-Told d r x rest (ok u, w) = (refl, ground (arith, eq_refl x.update.item_id))
  resumed-Told d r x rest (err e, w) = tt

module _ {D : Type 0} {d : Decimal D} (pg : Postgres D d) where
  persisting-Told :
      (r : Run D) (attempts : List Attempt) (o : Option (Handler D × List (Handler D)))
      → Told (persisting pg r attempts o)
  persisting-Told r attempts none = tt
  persisting-Told r attempts (some (h, rest)) = resumed-Told d r h rest _

  step-Told :
      (order : List String → List String) (r : Run D) (e : Event D) → Told (step pg order r e)
  unfolding step on_update on_persisted
  step-Told order r (update now request) =
      if_Told (is_running r.phase) _ _ (validated-Told now r request _) tt
  step-Told order r (persisted n attempts) =
      if_Told (is_running r.phase) _ _ (persisting-Told r attempts _) tt
  step-Told order r close_signal = tt
  step-Told order r timer_fired = tt
  step-Told order r (handlers_finished now) = tt
  step-Told order r (close_persisted attempts) = tt

  -- An answer is what the account says: its total, its count, and an id that was entered.
  pub record IsView (key : String) (r : Run D) (result : AddLineItemResult D) : Type 0 where
    pub total : result.bill_total ≡ total d (account_of key r).entries
    pub count : result.item_count ≡ length (account_of key r).entries
    pub entered :
        (k : String)
        → pg.uuid result.item_id ≡ some k
        → contains (ids (account_of key r).entries) k ≡ true

  Told-IsView :
      (key : String) (r : Run D) (reply : Reply D) (result : AddLineItemResult D)
      → Told (r, reply)
      → Mirrors pg key r
      → reply ≡ answered result
      → IsView key r result
  Told-IsView key r silent result t m e = cc
  Told-IsView key r (refused x) result t m e = cc
  Told-IsView key r (answered x) result t m e =
      let same : x ≡ result = ground arith in
      subst (IsView key r) same (record {
        total = ap (λ (y : AddLineItemResult D). y.bill_total) t.0 ∙ m.total;
        count = ap (λ (y : AddLineItemResult D). y.item_count) t.0 ∙ m.count;
        entered = λ k read. m.seen.entered x.item_id k read t.1;
      })

  -- In any state of the life of a bill (`Lived`), at an exact and timely event, where the order in which Go
  -- ranges over the map of seen ids lists the ids of that map: what the caller of an update is
  -- answered at that step, be the item new or a duplicate, is the total and the count of the line
  -- items that are stored for the bill by then, and the item is among them.
  pub step-IsView :
      (key : String) (order : List String → List String) (r : Run D) (e : Event D)
      (result : AddLineItemResult D)
      → KeepsIds order
      → Lived pg key order r
      → ExactEvent pg key order r e
      → InTime pg key r e
      → (step pg order r e).1 ≡ answered result
      → IsView key (step pg order r e).0 result
  step-IsView key order r e result ids h x op a =
      let s = Lived-IsServed pg key order ids r h in
      Told-IsView key (step pg order r e).0 (step pg order r e).1 result (step-Told order r e)
        (step-Moved pg key order r e x op s.agrees s.mirrors).1 a
