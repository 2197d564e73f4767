-- ===== src/Endpoints/BillPages.antt =====
-- What ListBills shows, and a client that follows its cursors.
use redesigned_disco.Prelude.{
  ℕ, suc, select, String, ◌≡◌, refl, none, some, Option, List, ◌⊎◌, inl, inr, map, length, All,
  take,
}
use redesigned_disco.Errs.{ApiError, Result, ok, err}
use redesigned_disco.Money.{Decimal, Postgres}
use redesigned_disco.Models.{Time, Bill}
use redesigned_disco.Store.{Db}
use redesigned_disco.Store.Reads.{answered}
use redesigned_disco.Views.{BillView, to_bill_view}
use redesigned_disco.Activities.Keys.{IsKeyed}
use redesigned_disco.Keyset.{query_page}
use redesigned_disco.Keyset.Sorting.{RowOrder, descending, IsAscending, IsListing, sort_by-perm}
use redesigned_disco.Keyset.Selected.{sorted-IsAscending, sorted-All}
use redesigned_disco.Keyset.Walk.{walk, page_of}
use redesigned_disco.Endpoints.Loading.{scan_bill_row}
use redesigned_disco.Endpoints.Cursors.{ℤ, CursorText, page_limit}
use redesigned_disco.Endpoints.Paging.{cut_page-take}
use redesigned_disco.Endpoints.Pages.{walk-pages, start_or_key, key_text}
use redesigned_disco.Endpoints.ListBills.{
  ListBillsResponse, list_bills, query_bills_page, normalize_list_status, decode_bill_cursor,
  encode_bill_cursor, opened_before, bills_of, is_wanted,
}

-- What a client takes from an answer: the bills and the next cursor.
abbrev pub bill_page : Result ApiError ListBillsResponse → Option (List BillView × String)
bill_page (err e) = none
bill_page (ok r) = some (r.bills, r.next_cursor)

-- The filters that the endpoint documents.
abbrev pub IsListStatus : String → Type 0
IsListStatus s = (s ≡ "") ⊎ (s ≡ "OPEN") ⊎ (s ≡ "CLOSED")

accepted_status :
    (quote : String → String) (s c : String) (limit : ℤ)
    → IsListStatus s
    → normalize_list_status quote (some (record { status = s; cursor = c; limit = limit })) ≡ ok s
unfolding normalize_list_status
accepted_status quote s c limit (inl e) = rw e refl
accepted_status quote s c limit (inr (inl e)) = rw e refl
accepted_status quote s c limit (inr (inr e)) = rw e refl

abbrev pub newest_first : {D : Type 0} → RowOrder (Bill D)
newest_first = descending (λ b. b.created_at) (λ b. b.id)

module _ {D : Type 0} {d : Decimal D} (pg : Postgres D d) (format : Time → String) (t : CursorText)
    (quote : String → String) (caller : String) (db : Db D) where
  abbrev pub serve_bills : String → ℤ → String → Option (List BillView × String)
  serve_bills status limit c = bill_page (
      list_bills pg format t quote answered caller db
        (some (record { status = status; cursor = c; limit = limit })))

  -- On tables with unique keys that do not change meanwhile, and a connection that answers, a client
  -- that follows the cursors of ListBills, with any limit and any status that are accepted, gets each
  -- of the caller's bills of that status (of any, where it is empty) once, the newest first, and
  -- reaches the end with at most one request more than there are such bills.
  pub walk-list_bills :
      (status : String) (limit : ℤ) (n : ℕ)
      → IsKeyed pg db
      → IsListStatus status
      → page_limit (some limit) ≡ ok (suc n)
      → IsListing newest_first
          (bills_of caller status db.bills)
          (map scan_bill_row (select (is_wanted caller status) db.bills))
        × (walk (serve_bills status limit) (suc (length (bills_of caller status db.bills))) ""
            ≡ some (map (to_bill_view d format) (bills_of caller status db.bills)))
  unfolding list_bills query_bills_page decode_bill_cursor encode_bill_cursor
  walk-list_bills status limit n keyed known accepted = (
    (sorted, sort_by-perm newest_first _),
    walk-pages (to_bill_view d format) t (λ b. b.created_at) (λ b. b.id) n newest_first pg.uuid
        (bills_of caller status db.bills) (serve_bills status limit) opened_before (λ a b. refl)
        (λ c cursor page start rows. answered c cursor page start rows) pg.uuid-empty canonical
        sorted,
  )
    where
      answered :
          (c : String) (cursor : Time × String) (page : List (Bill D))
          → start_or_key t c ≡ ok cursor
          → query_page opened_before pg.uuid
              (suc (suc n))
              cursor
              (ok (bills_of caller status db.bills))
            ≡ ok (take (suc (suc n)) page)
          → serve_bills status limit c
            ≡ some (
                page_of
                  (to_bill_view d format)
                  (λ b. t.encode_bytes (key_text t b.created_at b.id))
                  n
                  page)
      answered c cursor page start rows =
          rw (accepted, accepted_status quote status c limit known, start, rows)
            (rw (cut_page-take n page) refl)

      canonical : All (λ (b : Bill D). pg.uuid b.id ≡ some b.id) (bills_of caller status db.bills)
      canonical =
          sorted-All scan_bill_row (λ r. r.id) (is_wanted caller status) newest_first
            (λ k. pg.uuid k ≡ some k) (λ r h. h) db.bills keyed.bills.canonical

      sorted : IsAscending newest_first (bills_of caller status db.bills)
      sorted =
          sorted-IsAscending scan_bill_row (λ r. r.id) (is_wanted caller status) newest_first
            (λ r. refl) db.bills keyed.bills.distinct
