-- ===== src/Endpoints/ListEvents.antt =====
-- bill/endpoints.go: `ListBillEvents`.
use redesigned_disco.Prelude.{
  ℕ, suc, String, Bool, ◌==◌, Option, none, some, List, if◌then◌else◌, select,
}
use redesigned_disco.Errs.{ApiError, Result, ok, err, ◌>>=◌}
use redesigned_disco.Money.{Decimal, Postgres}
use redesigned_disco.Models.{Time, BillEvent}
use redesigned_disco.Keyset.{key_before, sort_by, query_page}
use redesigned_disco.Store.{Db, DbError, invalid}
use redesigned_disco.Store.Reads.{Reading, Reads, RowsError, read_rows, rows_failure}
use redesigned_disco.Endpoints.Loading.{TemporalClient, assert_owns_bill}
use redesigned_disco.Endpoints.Cursors.{
  ℤ, CursorText, page_limit, decode_keyset_cursor, encode_line_item_cursor, cut_page, cursor_of,
}

pub record ListBillEventsRequest : Type 0 where
  pub cursor : String
  pub limit : ℤ

pub record ListBillEventsResponse : Type 0 where
  pub events : List BillEvent
  pub next_cursor : String
  pub limit : ℕ

abbrev pub requested_events_limit : Option ListBillEventsRequest → Option ℤ
requested_events_limit none = none
requested_events_limit (some req) = some req.limit

-- The cursor of a request; `0` is Go's zero `time.Time`.
unfoldable pub requested_events_cursor :
    CursorText → Option ListBillEventsRequest → Result ApiError (Time × String)
unfolding decode_keyset_cursor
requested_events_cursor t none = ok (0, "")
requested_events_cursor t (some req) =
    if req.cursor == "" then ok (0, "") else decode_keyset_cursor t req.cursor

abbrev pub event_before : BillEvent → BillEvent → Bool
event_before a b = key_before a.created_at a.id b.created_at b.id

-- The audit entries of a bill, ORDER BY created_at, id
abbrev pub events_of : String → List BillEvent → List BillEvent
events_of bill rows = sort_by event_before (select (λ e. e.bill_id == bill) rows)

abbrev pub events_at : {D : Type 0} → Option String → Db D → Result DbError (List BillEvent)
events_at none db = err invalid
events_at (some key) db = ok (events_of key db.events)

-- (created_at, id) > (at, id)
abbrev pub logged_after : Time → String → BillEvent → Bool
logged_after at id e = key_before at id e.created_at e.id

abbrev pub next_event_cursor : CursorText → Option BillEvent → String
next_event_cursor t = cursor_of (λ last. encode_line_item_cursor t last.created_at last.id)

abbrev pub listed_events :
    CursorText → ℕ → Result RowsError (List BillEvent) → Result ApiError ListBillEventsResponse
listed_events t limit (err e) =
    rows_failure "failed to list bill events" "failed to scan bill event" "iterating bill events: "
      e
listed_events t limit (ok rows) =
    let (events, last) = cut_page limit rows in
    ok (record { events = events; next_cursor = next_event_cursor t last; limit = limit })

module _ {D : Type 0} {d : Decimal D} (pg : Postgres D d) where
  -- The two queries and the loop over their rows.
  unfoldable pub read_events_page :
      Reading → String → Time × String → ℕ → Db D → Result RowsError (List BillEvent)
  read_events_page reading id (at, cursor_id) limit db =
      read_rows reading
        (query_page logged_after pg.uuid (suc limit) (at, cursor_id) (events_at (pg.uuid id) db))

  -- `ListBillEvents`
  unfoldable pub list_bill_events :
      TemporalClient D
      → CursorText
      → Reads
      → String
      → String
      → Db D
      → Option ListBillEventsRequest
      → Result ApiError ListBillEventsResponse
  unfolding assert_owns_bill page_limit requested_events_cursor read_events_page cut_page
      encode_line_item_cursor
  list_bill_events client t answers id caller db req =
      assert_owns_bill pg client (answers 0) id caller db >>= λ _.
      page_limit (requested_events_limit req) >>= λ limit.
      requested_events_cursor t req >>= λ cursor.
      listed_events t limit (read_events_page (answers 1) id cursor limit db)
