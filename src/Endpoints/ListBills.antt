-- ===== src/Endpoints/ListBills.antt =====
-- bill/endpoints.go: `ListBills`.
use redesigned_disco.Prelude.{
  ℕ, suc, String, Bool, ◌==◌, ◌&&◌, ◌||◌, Option, none, some, List, map, if◌then◌else◌, select,
  concat,
}
use redesigned_disco.Errs.{ApiError, Result, ok, err, api_error, invalid_argument, ◌>>=◌}
use redesigned_disco.Money.{Decimal, Postgres}
use redesigned_disco.Models.{Time, Bill, BillStatus, open_bill, closed_bill}
use redesigned_disco.Keyset.{key_before, sort_by, query_page}
use redesigned_disco.Store.{Db, BillRow}
use redesigned_disco.Store.Reads.{Reading, RowsError, read_rows, rows_failure}
use redesigned_disco.Views.{BillView, to_bill_view}
use redesigned_disco.Endpoints.Loading.{scan_bill_row}
use redesigned_disco.Endpoints.Cursors.{
  ℤ, CursorText, page_limit, decode_keyset_cursor, cut_page, cursor_of,
}

pub record ListBillsRequest : Type 0 where
  pub status : String
  pub cursor : String
  pub limit : ℤ

pub record ListBillsResponse : Type 0 where
  pub bills : List BillView
  pub next_cursor : String
  pub limit : ℕ

abbrev pub requested_bills_limit : Option ListBillsRequest → Option ℤ
requested_bills_limit none = none
requested_bills_limit (some req) = some req.limit

-- `BillStatus` as the string that it is in the source and in the table.
abbrev pub status_text : BillStatus → String
status_text open_bill = "OPEN"
status_text closed_bill = "CLOSED"

-- `normalizeListStatus`; `quote` is the verb %q of `fmt.Sprintf`.
unfoldable pub normalize_list_status :
    (String → String) → Option ListBillsRequest → Result ApiError String
normalize_list_status quote none = ok ""
normalize_list_status quote (some req) =
    if req.status == ""
    then ok ""
    else if req.status == status_text open_bill || req.status == status_text closed_bill
    then ok req.status
    else api_error invalid_argument
        (concat (concat "status must be OPEN or CLOSED (got " (quote req.status)) ")")

-- `decodeBillCursor`; `0` is Go's zero `time.Time`.
unfoldable pub decode_bill_cursor :
    CursorText → Option ListBillsRequest → Result ApiError (Time × String)
unfolding decode_keyset_cursor
decode_bill_cursor t none = ok (0, "")
decode_bill_cursor t (some req) =
    if req.cursor == "" then ok (0, "") else decode_keyset_cursor t req.cursor

-- `encodeBillCursor`
unfoldable pub encode_bill_cursor : CursorText → Time → String → String
encode_bill_cursor t at id = t.encode_bytes (concat (t.format at) (concat "|" id))

module _ {D : Type 0} where
  -- account_id = $1 [AND status = $2]
  abbrev pub is_wanted : String → String → BillRow D → Bool
  is_wanted account status r =
      r.account_id == account && (status == "" || status_text r.status == status)

  abbrev pub bill_listed_before : Bill D → Bill D → Bool
  bill_listed_before a b = key_before b.created_at b.id a.created_at a.id

  -- The bills of an account, ORDER BY created_at DESC, id DESC
  abbrev pub bills_of : String → String → List (BillRow D) → List (Bill D)
  bills_of account status rows =
      sort_by bill_listed_before (map scan_bill_row (select (is_wanted account status) rows))

  -- (created_at, id) < (at, id)
  abbrev pub opened_before : Time → String → Bill D → Bool
  opened_before at id b = key_before b.created_at b.id at id

  abbrev pub next_bill_cursor : CursorText → Option (Bill D) → String
  next_bill_cursor t = cursor_of (λ last. encode_bill_cursor t last.created_at last.id)

module _ {D : Type 0} {d : Decimal D} (pg : Postgres D d) (format : Time → String) where
  -- `queryBillsPage` and the loop over its rows.
  unfoldable pub query_bills_page :
      Reading → String → String → Time × String → ℕ → Db D → Result RowsError (List (Bill D))
  unfolding scan_bill_row
  query_bills_page reading account status (at, cursor_id) limit db = read_rows reading (
      query_page opened_before pg.uuid limit (at, cursor_id)
        (ok (bills_of account status db.bills)))

  abbrev pub listed_bills :
      CursorText → ℕ → Result RowsError (List (Bill D)) → Result ApiError ListBillsResponse
  listed_bills t limit (err e) =
      rows_failure "failed to list bills" "failed to scan bill" "iterating bills: " e
  listed_bills t limit (ok rows) =
      let (bills, last) = cut_page limit rows in
      ok (record {
        bills = map (to_bill_view d format) bills;
        next_cursor = next_bill_cursor t last;
        limit = limit;
      })

  -- `ListBills`
  unfoldable pub list_bills :
      CursorText
      → (String → String)
      → Reading
      → String
      → Db D
      → Option ListBillsRequest
      → Result ApiError ListBillsResponse
  unfolding page_limit normalize_list_status decode_bill_cursor query_bills_page cut_page
      to_bill_view encode_bill_cursor
  list_bills t quote reading caller db req = page_limit (requested_bills_limit req) >>= λ limit.
      normalize_list_status quote req >>= λ status. decode_bill_cursor t req >>= λ cursor.
      listed_bills t limit (query_bills_page reading caller status cursor (suc limit) db)
