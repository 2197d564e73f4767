-- ===== src/Endpoints/ItemPages.antt =====
-- A client that follows the cursors of ListLineItems.
use redesigned_disco.Prelude.{
  ℕ, suc, select, All, String, ◌≡◌, refl, none, some, Option, List, map, length, ◌==◌, take,
}
use redesigned_disco.Errs.{ApiError, Result, ok, err}
use redesigned_disco.Money.{Decimal, Postgres}
use redesigned_disco.Models.{Time, LineItem}
use redesigned_disco.Store.{Db}
use redesigned_disco.Store.Reads.{answered, all_answered}
use redesigned_disco.Views.{LineItemView, to_line_item_view, to_line_item_views}
use redesigned_disco.Activities.Keys.{IsKeyed}
use redesigned_disco.Keyset.{query_page}
use redesigned_disco.Keyset.Sorting.{RowOrder, ascending, IsAscending, IsListing, sort_by-perm}
use redesigned_disco.Keyset.Selected.{sorted-IsAscending, sorted-All}
use redesigned_disco.Keyset.Walk.{walk, page_of}
use redesigned_disco.Endpoints.Loading.{TemporalClient, assert_owns_bill, items_of, item_of_row}
use redesigned_disco.Endpoints.Cursors.{ℤ, CursorText, page_limit, encode_line_item_cursor}
use redesigned_disco.Endpoints.Paging.{cut_page-take}
use redesigned_disco.Endpoints.Pages.{walk-pages, start_or_key, key_text}
use redesigned_disco.Endpoints.ListItems.{
  ListLineItemsResponse, list_line_items, comes_after, read_page, decode_line_item_cursor,
}

-- What a client takes from an answer: the items and the next cursor.
abbrev pub item_page : Result ApiError ListLineItemsResponse → Option (List LineItemView × String)
item_page (err e) = none
item_page (ok r) = some (r.items, r.next_cursor)

abbrev pub by_creation : {D : Type 0} → RowOrder (LineItem D)
by_creation = ascending (λ i. i.created_at) (λ i. i.id)

module _ {D : Type 0} {d : Decimal D} (pg : Postgres D d) (format : Time → String)
    (client : TemporalClient D) (t : CursorText) (id caller key : String) (db : Db D) where
  abbrev pub serve_items : ℤ → String → Option (List LineItemView × String)
  serve_items limit c = item_page (
      list_line_items pg format client t all_answered id caller db
        (some (record { cursor = c; limit = limit })))

  -- On tables with unique keys that do not change meanwhile, and a connection that answers, a client
  -- that owns a bill and follows the cursors of ListLineItems, with any limit that is accepted, gets
  -- each line item of the bill once, ordered by creation and id, and reaches the end with at most one
  -- request more than there are line items.
  pub walk-list_line_items :
      (limit : ℤ) (n : ℕ)
      → IsKeyed pg db
      → assert_owns_bill pg client answered id caller db ≡ ok tt
      → pg.uuid id ≡ some key
      → page_limit (some limit) ≡ ok (suc n)
      → IsListing by_creation
          (items_of key db.items)
          (map item_of_row (select (λ r. r.bill_id == key) db.items))
        × (walk (serve_items limit) (suc (length (items_of key db.items))) ""
            ≡ some (map (to_line_item_view d format) (items_of key db.items)))
  unfolding list_line_items read_page decode_line_item_cursor encode_line_item_cursor
      to_line_item_views
  walk-list_line_items limit n keyed owns read accepted = (
    (sorted, sort_by-perm by_creation _),
    walk-pages (to_line_item_view d format) t (λ i. i.created_at) (λ i. i.id) n by_creation pg.uuid
        (items_of key db.items) (serve_items limit) comes_after (λ a b. refl)
        (λ c cursor page start rows. answered c cursor page start rows) pg.uuid-empty canonical
        sorted,
  )
    where
      answered :
          (c : String) (cursor : Time × String) (page : List (LineItem D))
          → start_or_key t c ≡ ok cursor
          → query_page comes_after pg.uuid (suc (suc n)) cursor (ok (items_of key db.items))
            ≡ ok (take (suc (suc n)) page)
          → serve_items limit c
            ≡ some (
                page_of
                  (to_line_item_view d format)
                  (λ i. t.encode_bytes (key_text t i.created_at i.id))
                  n
                  page)
      answered c cursor page start rows =
          rw (owns, accepted, start, read, rows) (rw (cut_page-take n page) refl)

      canonical : All (λ (i : LineItem D). pg.uuid i.id ≡ some i.id) (items_of key db.items)
      canonical =
          sorted-All item_of_row (λ r. r.id) (λ r. r.bill_id == key) by_creation
            (λ k. pg.uuid k ≡ some k) (λ r h. h) db.items keyed.items.canonical

      sorted : IsAscending by_creation (items_of key db.items)
      sorted =
          sorted-IsAscending item_of_row (λ r. r.id) (λ r. r.bill_id == key) by_creation (λ r. refl)
            db.items keyed.items.distinct
