-- ===== src/Endpoints/Closing.antt =====
-- `CloseBill` over tables in which CloseBillActivity has closed the bill.
use redesigned_disco.Prelude.{
  String, true, ◌≡◌, refl, ◌∙◌, ap, inl, inr, ◌==◌, some, List, [], ◌∷◌, arith, eq_iff, Bool-cases,
  All,
}
use redesigned_disco.Errs.{ok, err}
use redesigned_disco.Money.{Decimal, Postgres}
use redesigned_disco.Models.{
  Time, BillResult, CloseBillActivityInput, CloseReason, unset, by_signal, period_end, closed_bill,
}
use redesigned_disco.Store.{Db, BillRow, find_bill, has_bill}
use redesigned_disco.Store.Reads.{answered, all_answered}
use redesigned_disco.Views.{to_line_item_views, when_set}
use redesigned_disco.Activities.{nullable_close_reason}
use redesigned_disco.Activities.Closing.{IsClosed, IsClosedRow}
use redesigned_disco.Endpoints.Errors.{workflow_not_found, workflow_id}
use redesigned_disco.Endpoints.Loading.{
  get_bill_row_from_db, fetch_line_items, query_bill_state, load_bill_summary, TemporalClient,
  assert_owns_bill, items_of, scan_bill_row, scanned_reason,
}
use redesigned_disco.Endpoints.Read.{CloseBillResponse, close_bill, close_bill_from_db}

module _ {D : Type 0} (key : String) (Q : BillRow D → Type 0) where
  -- A key that is there finds its first row.
  found :
      (rows : List (BillRow D))
      → has_bill key rows ≡ true
      → All (λ r. (r.id == key) ≡ true → Q r) rows
      → (row : BillRow D) × (find_bill key rows ≡ some row) × Q row
  found [] h a = cc
  found (r ∷ rs) h a = elim (Bool-cases (r.id == key)) [
    | inl e ↦ (r, rw e refl, a.0 e)
    | inr e ↦ let (row, seen, q) = found rs (ground arith) a.1 in (row, rw e seen, q)
  ]

read_back : (reason : CloseReason) → scanned_reason (nullable_close_reason reason) ≡ reason
read_back unset = refl
read_back by_signal = refl
read_back period_end = refl

module _ {D : Type 0} {d : Decimal D} (pg : Postgres D d) (format : Time → String) where
  -- The response tells of the close that the activity's input describes.
  pub record Reports (i : CloseBillActivityInput D) (key : String) (db : Db D)
      (v : CloseBillResponse) : Type 0 where
    pub total : D
    pub status : v.status ≡ closed_bill
    pub rounded : pg.numeric i.total_amount ≡ some total
    pub shown : v.total_amount ≡ d.to_text total
    pub at : v.closed_at ≡ some (format i.closed_at)
    pub reason : v.close_reason ≡ i.close_reason
    pub items : v.line_items ≡ to_line_item_views d format (items_of key db.items)

  from_row :
      (i : CloseBillActivityInput D) (key : String) (db : Db D) (row : BillRow D)
      → pg.uuid i.bill_id ≡ some key
      → find_bill key db.bills ≡ some row
      → IsClosedRow pg i row
      → (v : CloseBillResponse) × (close_bill_from_db pg format all_answered i.bill_id db ≡ ok v)
        × Reports i key db v
  unfolding close_bill_from_db scan_bill_row get_bill_row_from_db fetch_line_items
  from_row i key db row read seen c =
      let v : CloseBillResponse = record {
        bill_id = row.id;
        status = row.status;
        total_amount = d.to_text row.total_amount;
        currency = row.currency;
        line_items = to_line_item_views d format (items_of key db.items);
        closed_at = when_set format row.closed_at;
        close_reason = scanned_reason row.close_reason;
      } in
      (
        v,
        rw (read, seen) (rw read refl),
        record {
          total = row.total_amount;
          status = c.status;
          rounded = c.total;
          shown = refl;
          at = ap (when_set format) c.at;
          reason = ap scanned_reason c.reason ∙ read_back i.close_reason;
          items = refl;
        },
      )

  owned_row :
      (u : TemporalClient D) (id caller key : String) (db : Db D) (row : BillRow D)
      → u.query (workflow_id id) ≡ err workflow_not_found
      → pg.uuid id ≡ some key
      → find_bill key db.bills ≡ some row
      → row.account_id ≡ caller
      → assert_owns_bill pg u answered id caller db ≡ ok tt
  unfolding assert_owns_bill query_bill_state load_bill_summary get_bill_row_from_db scan_bill_row
  owned_row u id caller key db row gone read seen own = ground (arith, eq_iff row.account_id caller)

  -- Over tables in which the close that an activity's input describes is stored, and on a connection
  -- that answers: a CloseBill by the bill's owner whose signal is taken and whose workflow returns a
  -- result, and a retry once the workflow is gone, get the same response. It says that the bill is
  -- closed, with the total of the close as its column holds it, its instant, its reason and the line
  -- items that are stored.
  pub close_bill-idempotent :
      (i : CloseBillActivityInput D) (t u : TemporalClient D) (caller : String)
      (before after : Db D) (result : BillResult D) (c : IsClosed pg i after)
      → assert_owns_bill pg t answered i.bill_id caller before ≡ ok tt
      → t.signal_close (workflow_id i.bill_id) ≡ ok tt
      → t.await_result (workflow_id i.bill_id) ≡ ok result
      → u.query (workflow_id i.bill_id) ≡ err workflow_not_found
      → u.signal_close (workflow_id i.bill_id) ≡ err workflow_not_found
      → ((row : BillRow D) → find_bill c.key after.bills ≡ some row → row.account_id ≡ caller)
      → (v : CloseBillResponse) × (close_bill pg format t all_answered i.bill_id caller before after
          ≡ ok v)
        × (close_bill pg format u all_answered i.bill_id caller after after ≡ ok v)
        × Reports i c.key after v
  unfolding close_bill
  close_bill-idempotent i t u caller before after result c owns signal done gone gone' own =
      let (row, seen, closed) = found c.key (IsClosedRow pg i) after.bills c.there c.rows in
      let (v, shows, reports) = from_row i c.key after row c.key_read seen closed in
      let still_owns =
        owned_row u i.bill_id caller c.key after row gone c.key_read seen (own row seen) in
      (v, rw (owns, signal, done) shows, rw (still_owns, gone') shows, reports)
