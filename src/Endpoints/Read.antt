-- ===== src/Endpoints/Read.antt =====
-- bill/endpoints.go: `CloseBill` and `GetBill`.
use redesigned_disco.Prelude.{String, Option, some, List}
use redesigned_disco.Errs.{ApiError, Result, ok, err, api_error, internal, ◌>>=◌}
use redesigned_disco.Money.{Decimal, Postgres}
use redesigned_disco.Models.{Time, Currency, BillStatus, CloseReason, Bill, BillResult, LineItem}
use redesigned_disco.Store.{Db, DbError, no_rows}
use redesigned_disco.Store.Reads.{Reading, Reads, RowsError}
use redesigned_disco.Views.{LineItemView, BillView, to_line_item_views, to_bill_view, when_set}
use redesigned_disco.Endpoints.Errors.{
  RpcError, workflow_not_found, close_bill_op, map_temporal_rpc_error, workflow_id,
}
use redesigned_disco.Endpoints.Loading.{
  TemporalClient, load_bill_summary, assert_owns_bill, owned_by, get_bill_row_from_db,
  fetch_line_items, bill_not_found_error,
}

pub record CloseBillResponse : Type 0 where
  pub bill_id : String
  pub status : BillStatus
  pub total_amount : String
  pub currency : Currency
  pub line_items : List LineItemView
  pub closed_at : Option String
  pub close_reason : CloseReason

module _ {D : Type 0} {d : Decimal D} (pg : Postgres D d) (format : Time → String) where
  abbrev pub close_response :
      Bill D → Result RowsError (List (LineItem D)) → Result ApiError CloseBillResponse
  close_response bill (err e) = api_error internal "failed to retrieve closed bill items"
  close_response bill (ok items) = ok (record {
    bill_id = bill.id;
    status = bill.status;
    total_amount = d.to_text bill.total_amount;
    currency = bill.currency;
    line_items = to_line_item_views d format items;
    closed_at = when_set format bill.closed_at;
    close_reason = bill.close_reason;
  })

  abbrev pub closed_from_row :
      Reading → String → Db D → Result DbError (Bill D) → Result ApiError CloseBillResponse
  closed_from_row reading id db (err no_rows) = err (bill_not_found_error id)
  closed_from_row reading id db (err e) = api_error internal "failed to retrieve closed bill"
  closed_from_row reading id db (ok bill) = close_response bill (fetch_line_items pg reading id db)

  -- `closeBillFromDB`, whose queries are the request's second and third.
  unfoldable pub close_bill_from_db : Reads → String → Db D → Result ApiError CloseBillResponse
  unfolding get_bill_row_from_db fetch_line_items
  close_bill_from_db answers id db =
      closed_from_row (answers 2) id db (get_bill_row_from_db pg (answers 1) id db)

  abbrev pub awaited_close :
      Reads → String → Db D → Result RpcError (BillResult D) → Result ApiError CloseBillResponse
  awaited_close answers id after (err e) = api_error internal "failed to close bill"
  awaited_close answers id after (ok result) = close_bill_from_db answers id after

  abbrev pub signalled :
      TemporalClient D
      → Reads
      → String
      → Db D
      → Result RpcError (Unit {0})
      → Result ApiError CloseBillResponse
  signalled t answers id after (err workflow_not_found) = close_bill_from_db answers id after
  signalled t answers id after (err e) = err (map_temporal_rpc_error e close_bill_op)
  signalled t answers id after (ok _) =
      awaited_close answers id after (t.await_result (workflow_id id))

  -- `CloseBill`: `before` is the database at the ownership check, `after` when the workflow is done.
  unfoldable pub close_bill :
      TemporalClient D → Reads → String → String → Db D → Db D → Result ApiError CloseBillResponse
  unfolding assert_owns_bill map_temporal_rpc_error close_bill_from_db
  close_bill t answers id caller before after =
      assert_owns_bill pg t (answers 0) id caller before >>= λ _.
      signalled t answers id after (t.signal_close (workflow_id id))

  abbrev pub viewed : Bill D → Result RowsError (List (LineItem D)) → Result ApiError BillView
  viewed bill (err e) = api_error internal "failed to load line items"
  viewed bill (ok items) = ok (to_bill_view d format (record bill { line_items = some items }))

  -- `GetBill`
  unfoldable pub get_bill :
      TemporalClient D → Reads → String → String → Db D → Result ApiError BillView
  unfolding load_bill_summary fetch_line_items to_bill_view
  get_bill t answers id caller db =
      load_bill_summary pg t (answers 0) id db >>= owned_by id caller >>= λ bill.
      viewed bill (fetch_line_items pg (answers 1) id db)
