-- ===== src/Endpoints/Loading.antt =====
-- bill/endpoints.go: how a bill and its line items are loaded, and the ownership check.
use redesigned_disco.Prelude.{
  String, Bool, not, ◌==◌, Option, none, some, List, map, select, concat, if◌then◌else◌,
}
use redesigned_disco.Errs.{
  ApiError, Result, ok, err, api_error, not_found, unavailable, internal, ◌>>=◌,
}
use redesigned_disco.Money.{Decimal, Postgres}
use redesigned_disco.Models.{
  Bill, BillWorkflowInput, BillResult, AddLineItemInput, AddLineItemResult, CloseReason, unset,
  LineItem,
}
use redesigned_disco.Keyset.{key_before, sort_by}
use redesigned_disco.Store.{BillRow, ItemRow, Db, DbError, no_rows, invalid, find_bill}
use redesigned_disco.Store.Reads.{Reading, RowsError, read_row, read_rows}
use redesigned_disco.Endpoints.Errors.{
  RpcError, workflow_not_found, other_rpc, UpdateError, Started, workflow_id,
}

-- What the calls of `s.temporalClient` answer during one request.
pub record TemporalClient (D : Type 0) : Type 0 where
  -- `QueryWorkflow` and then `resp.Get`; `none` where the value does not decode.
  pub query : String → Result RpcError (Option (Bill D))
  pub start : String → BillWorkflowInput D → Started
  pub update :
      String → AddLineItemInput D → Result RpcError (Result UpdateError (AddLineItemResult D))
  pub signal_close : String → Result RpcError (Unit {0})
  pub await_result : String → Result RpcError (BillResult D)

-- A decoding error is none of the errors that the code tells apart.
abbrev pub decoded : {D : Type 0} → Result RpcError (Option (Bill D)) → Result RpcError (Bill D)
decoded (err e) = err e
decoded (ok none) = err other_rpc
decoded (ok (some bill)) = ok bill

-- `queryBillState`
unfoldable pub query_bill_state :
    {D : Type 0} → TemporalClient D → String → Result RpcError (Bill D)
query_bill_state t workflow = decoded (t.query workflow)

abbrev pub scanned_reason : Option CloseReason → CloseReason
scanned_reason none = unset
scanned_reason (some r) = r

abbrev pub bill_not_found_error : String → ApiError
bill_not_found_error id = record {
  code = not_found;
  message = concat (concat "bill " id) " not found";
}

module _ {D : Type 0} where
  -- `scanBillRow`; the columns hold neither the line items nor their count.
  unfoldable pub scan_bill_row : BillRow D → Bill D
  scan_bill_row r = record {
    id = r.id;
    account_id = r.account_id;
    status = r.status;
    currency = r.currency;
    line_items = none;
    total_amount = r.total_amount;
    item_count = 0;
    created_at = r.created_at;
    closed_at = r.closed_at;
    period_start = r.period_start;
    period_end = r.period_end;
    close_reason = scanned_reason r.close_reason;
  }

  abbrev pub scanned : Option (BillRow D) → Result DbError (Bill D)
  scanned none = err no_rows
  scanned (some r) = ok (scan_bill_row r)

  abbrev pub bill_at : Option String → Db D → Result DbError (Bill D)
  bill_at none db = err invalid
  bill_at (some key) db = scanned (find_bill key db.bills)

  abbrev pub item_of_row : ItemRow D → LineItem D
  item_of_row r = record {
    id = r.id;
    description = r.description;
    amount = r.amount;
    currency = r.currency;
    created_at = r.created_at;
  }

  abbrev pub item_before : LineItem D → LineItem D → Bool
  item_before a b = key_before a.created_at a.id b.created_at b.id

  -- The line items of a bill, ORDER BY created_at, id
  abbrev pub items_of : String → List (ItemRow D) → List (LineItem D)
  items_of bill rows = sort_by item_before (map item_of_row (select (λ r. r.bill_id == bill) rows))

  abbrev pub items_at : Option String → Db D → Result DbError (List (LineItem D))
  items_at none db = err invalid
  items_at (some key) db = ok (items_of key db.items)

abbrev pub owned_by : {D : Type 0} → String → String → Bill D → Result ApiError (Bill D)
owned_by id caller bill =
    if not (bill.account_id == caller) then err (bill_not_found_error id) else ok bill

module _ {D : Type 0} {d : Decimal D} (pg : Postgres D d) where
  -- `getBillRowFromDB`
  unfoldable pub get_bill_row_from_db : Reading → String → Db D → Result DbError (Bill D)
  unfolding scan_bill_row
  get_bill_row_from_db reading id db = read_row reading (bill_at (pg.uuid id) db)

  -- `fetchLineItems`
  unfoldable pub fetch_line_items : Reading → String → Db D → Result RowsError (List (LineItem D))
  fetch_line_items reading id db = read_rows reading (items_at (pg.uuid id) db)

  abbrev pub from_db : String → Result DbError (Bill D) → Result ApiError (Bill D)
  from_db id (ok bill) = ok bill
  from_db id (err no_rows) = err (bill_not_found_error id)
  from_db id (err e) = api_error internal "failed to load bill"

  abbrev pub summarised :
      Reading → String → Db D → Result RpcError (Bill D) → Result ApiError (Bill D)
  summarised reading id db (ok state) = ok state
  summarised reading id db (err workflow_not_found) =
      from_db id (get_bill_row_from_db reading id db)
  summarised reading id db (err e) = api_error unavailable "failed to query bill"

  -- `loadBillSummary`: the workflow's answer, and the database only where there is no workflow.
  unfoldable pub load_bill_summary :
      TemporalClient D → Reading → String → Db D → Result ApiError (Bill D)
  unfolding query_bill_state get_bill_row_from_db
  load_bill_summary t reading id db = summarised reading id db (query_bill_state t (workflow_id id))

  -- `assertOwnsBill`
  unfoldable pub assert_owns_bill :
      TemporalClient D → Reading → String → String → Db D → Result ApiError (Unit {0})
  unfolding load_bill_summary
  assert_owns_bill t reading id caller db =
      load_bill_summary t reading id db >>= owned_by id caller >>= λ _. ok tt
