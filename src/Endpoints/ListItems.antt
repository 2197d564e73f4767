-- ===== src/Endpoints/ListItems.antt =====
-- bill/endpoints.go: `ListLineItems`.
use redesigned_disco.Prelude.{ℕ, suc, String, Bool, ◌==◌, Option, none, some, List, if◌then◌else◌}
use redesigned_disco.Errs.{ApiError, Result, ok, err, ◌>>=◌}
use redesigned_disco.Money.{Decimal, Postgres}
use redesigned_disco.Models.{Time, LineItem}
use redesigned_disco.Keyset.{key_before, query_page}
use redesigned_disco.Store.{Db}
use redesigned_disco.Store.Reads.{Reading, Reads, RowsError, read_rows, rows_failure}
use redesigned_disco.Views.{LineItemView, to_line_item_views}
use redesigned_disco.Endpoints.Loading.{TemporalClient, assert_owns_bill, items_at}
use redesigned_disco.Endpoints.Cursors.{
  ℤ, CursorText, cursor_of, page_limit, decode_keyset_cursor, encode_line_item_cursor, cut_page,
}

pub record ListLineItemsRequest : Type 0 where
  pub cursor : String
  pub limit : ℤ

-- An empty `next_cursor` is omitted.
pub record ListLineItemsResponse : Type 0 where
  pub items : List LineItemView
  pub next_cursor : String
  pub limit : ℕ

abbrev pub requested_limit : Option ListLineItemsRequest → Option ℤ
requested_limit none = none
requested_limit (some req) = some req.limit

-- `decodeLineItemCursor`; `0` is Go's zero `time.Time`.
unfoldable pub decode_line_item_cursor :
    CursorText → Option ListLineItemsRequest → Result ApiError (Time × String)
unfolding decode_keyset_cursor
decode_line_item_cursor t none = ok (0, "")
decode_line_item_cursor t (some req) =
    if req.cursor == "" then ok (0, "") else decode_keyset_cursor t req.cursor

module _ {D : Type 0} where
  -- (created_at, id) > (at, id)
  abbrev pub comes_after : Time → String → LineItem D → Bool
  comes_after at id item = key_before at id item.created_at item.id

  abbrev pub next_cursor_of : CursorText → Option (LineItem D) → String
  next_cursor_of t = cursor_of (λ last. encode_line_item_cursor t last.created_at last.id)

module _ {D : Type 0} {d : Decimal D} (pg : Postgres D d) (format : Time → String) where
  -- The two queries and the loop over their rows.
  unfoldable pub read_page :
      Reading → String → Time × String → ℕ → Db D → Result RowsError (List (LineItem D))
  read_page reading id (at, cursor_id) limit db =
      read_rows reading
        (query_page comes_after pg.uuid (suc limit) (at, cursor_id) (items_at (pg.uuid id) db))

  abbrev pub listed_page :
      CursorText → ℕ → Result RowsError (List (LineItem D)) → Result ApiError ListLineItemsResponse
  listed_page t limit (err e) =
      rows_failure "failed to list line items" "failed to scan line item" "iterating line items: " e
  listed_page t limit (ok rows) =
      let (items, last) = cut_page limit rows in
      ok (record {
        items = to_line_item_views d format items;
        next_cursor = next_cursor_of t last;
        limit = limit;
      })

  -- `ListLineItems`
  unfoldable pub list_line_items :
      TemporalClient D
      → CursorText
      → Reads
      → String
      → String
      → Db D
      → Option ListLineItemsRequest
      → Result ApiError ListLineItemsResponse
  unfolding assert_owns_bill page_limit decode_line_item_cursor read_page cut_page
      to_line_item_views encode_line_item_cursor
  list_line_items client t answers id caller db req =
      assert_owns_bill pg client (answers 0) id caller db >>= λ _.
      page_limit (requested_limit req) >>= λ limit. decode_line_item_cursor t req >>= λ cursor.
      listed_page t limit (read_page (answers 1) id cursor limit db)
