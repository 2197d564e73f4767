-- ===== src/Endpoints/Live.antt =====
-- A request to AddLineItem that the bill's run answers, and a GetBill that comes next.
use mathlib.Core.Path.{subst}
use redesigned_disco.Prelude.{
  String, true, ◌≡◌, refl, sym, ◌∙◌, ap, some, List, map, arith, contains, length, ◌==◌, eq_iff,
  inl, inr, Bool-cases,
}
use redesigned_disco.Errs.{ok}
use redesigned_disco.Money.{Decimal, Postgres}
use redesigned_disco.Models.{Time, Bill, AddLineItemResult}
use redesigned_disco.Store.{Db}
use redesigned_disco.Store.Reads.{all_answered}
use redesigned_disco.Activities.{Metric}
use redesigned_disco.Activities.Ledger.{item_sum}
use redesigned_disco.Registry.{Registry, valid}
use redesigned_disco.Views.{LineItemView, BillView, to_line_item_views, to_bill_view, parse_amount}
use redesigned_disco.Workflow.Run.{Run, Event, Reply, step}
use redesigned_disco.Workflow.Run.Agreement.{Agrees, ExactEvent}
use redesigned_disco.Workflow.Run.Chained.{KeepsIds, Lived, lives, Lived-IsServed}
use redesigned_disco.Workflow.Run.Mirrors.{Mirrors}
use redesigned_disco.Workflow.Run.Refines.{InTime}
use redesigned_disco.Workflow.Run.Replies.{IsView, step-IsView}
use redesigned_disco.Endpoints.Errors.{workflow_id}
use redesigned_disco.Endpoints.Loading.{
  TemporalClient, items_of, load_bill_summary, query_bill_state, fetch_line_items,
}
use redesigned_disco.Endpoints.AddItem.{
  AddLineItemRequest, AddLineItemResponse, add_line_item, update_input,
}
use redesigned_disco.Endpoints.Read.{get_bill}
use redesigned_disco.Endpoints.Shown.{shown_count, shown_ids}

module _ {D : Type 0} (d : Decimal D) where
  -- The response to a request whose update has an outcome.
  abbrev pub response_of : AddLineItemResult D → AddLineItemResponse
  response_of result = record {
    item_id = result.item_id;
    bill_total = d.to_text result.bill_total;
    item_count = result.item_count;
  }

  -- A success is the response to what the update's caller was answered.
  success-response_of :
      (t : TemporalClient D) (currencies : Registry) (fresh caller id : String)
      (req : AddLineItemRequest) (amount : D) (result : AddLineItemResult D)
      (v : AddLineItemResponse) (metrics : List Metric)
      → parse_amount d req.amount ≡ ok amount
      → t.update (workflow_id id) (update_input d fresh caller req amount) ≡ ok (ok result)
      → add_line_item d t currencies fresh caller id req ≡ (ok v, metrics)
      → v ≡ response_of result
  unfolding add_line_item
  success-response_of t currencies fresh caller id req amount result v metrics parsed told h =
      elim (Bool-cases (req.description == "")) [
        | inl e ↦ ground (arith, e)
        | inr e ↦ elim (Bool-cases (valid currencies req.currency)) [
          | inl known ↦ ground (arith, e, parsed, told, known)
          | inr unknown ↦ ground (arith, e, parsed, unknown)
        ]
      ]

module _ {D : Type 0} {d : Decimal D} (pg : Postgres D d) (format : Time → String) where
  -- The view of a bill shows its items as the response to AddLineItem has told of them.
  pub record ShowsAdded (key : String) (db : Db D) (v : AddLineItemResponse) (w : BillView)
      : Type 0 where
    pub lines : List LineItemView
    pub shown : w.line_items ≡ some lines
    pub total : w.total_amount ≡ v.bill_total
    pub sum : w.total_amount ≡ d.to_text (item_sum d key db.items)
    pub count : w.item_count ≡ v.item_count
    pub lines_count : length lines ≡ v.item_count
    pub listed :
        (k : String) → pg.uuid v.item_id ≡ some k → contains (map (λ l. l.id) lines) k ≡ true

  view_of_run :
      (key : String) (r : Run D) (result : AddLineItemResult D)
      → Agrees pg key r
      → Mirrors pg key r
      → IsView pg key r result
      → ShowsAdded key r.world.db (response_of d result) (
          to_bill_view d format
            (record r.bill { line_items = some (items_of key r.world.db.items) }))
  unfolding to_bill_view
  view_of_run key r result g m i = record {
    lines = to_line_item_views d format (items_of key r.world.db.items);
    shown = refl;
    total = ap d.to_text (m.total ∙ sym i.total);
    sum = ap d.to_text g.total;
    count = m.count ∙ sym i.count;
    lines_count = shown_count key d format r.world.db.items ∙ sym i.count;
    listed = λ k read. shown_ids key d format k r.world.db.items ∙ i.entered k read;
  }

  got :
      (u : TemporalClient D) (id caller key : String) (bill : Bill D) (db : Db D)
      → u.query (workflow_id id) ≡ ok (some bill)
      → pg.uuid id ≡ some key
      → bill.account_id ≡ caller
      → get_bill pg format u all_answered id caller db
        ≡ ok (to_bill_view d format (record bill { line_items = some (items_of key db.items) }))
  unfolding get_bill load_bill_summary query_bill_state fetch_line_items
  got u id caller key bill db serves read own = ground (arith, eq_iff bill.account_id caller)

  -- A client reads what it wrote. Let a run, in any state of the life of its bill (`Lived`), make an exact and
  -- timely step at which it answers an update, and AddLineItem succeed with that answer (and let the
  -- order in which Go ranges over the map of seen ids list the ids of that map). A GetBill by the bill's
  -- owner that comes next, while the workflow serves the state after the step and the database
  -- answers, succeeds: it shows the total and the count that AddLineItem told, the total is the sum of
  -- the stored amounts, and as many line items as the count says, the added one among them.
  pub add_line_item-get_bill :
      (key : String) (order : List String → List String) (r : Run D) (e : Event D)
      (t u : TemporalClient D) (currencies : Registry) (fresh caller id : String)
      (req : AddLineItemRequest) (amount : D) (result : AddLineItemResult D)
      (v : AddLineItemResponse) (metrics : List Metric)
      → KeepsIds order
      → Lived pg key order r
      → ExactEvent pg key order r e
      → InTime pg key r e
      → let after = (step pg order r e).0 in
        (step pg order r e).1 ≡ Reply.answered result
        → parse_amount d req.amount ≡ ok amount
        → t.update (workflow_id id) (update_input d fresh caller req amount) ≡ ok (ok result)
        → add_line_item d t currencies fresh caller id req ≡ (ok v, metrics)
        → u.query (workflow_id id) ≡ ok (some after.bill)
        → pg.uuid id ≡ some key
        → after.bill.account_id ≡ caller
        → (w : BillView) × (get_bill pg format u all_answered id caller after.world.db ≡ ok w)
          × ShowsAdded key after.world.db v w
  add_line_item-get_bill key order r e t u currencies fresh caller id req amount result v metrics
        ids h x op told parsed sent success serves read own =
      let after = (step pg order r e).0 in
      let s = Lived-IsServed pg key order ids after (lives r e h x op) in
      let same =
        success-response_of d t currencies fresh caller id req amount result v metrics parsed sent
          success in
      let w =
        to_bill_view d format
          (record after.bill { line_items = some (items_of key after.world.db.items) }) in
      (
        w,
        got u id caller key after.bill after.world.db serves read own,
        subst (λ (y : AddLineItemResponse). ShowsAdded key after.world.db y w) (sym same)
            (view_of_run key after result s.agrees s.mirrors
              (step-IsView pg key order r e result ids h x op told)),
      )
