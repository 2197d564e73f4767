-- ===== src/Endpoints/EventPages.antt =====
-- A client that follows the cursors of ListBillEvents.
use mathlib.Core.Path.{subst}
use redesigned_disco.Prelude.{
  map_same, select, ℕ, suc, All, String, ◌≡◌, refl, none, some, Option, List, length, ap, ◌∙◌, ◌==◌,
  take,
}
use redesigned_disco.Errs.{ApiError, Result, ok, err}
use redesigned_disco.Money.{Decimal, Postgres}
use redesigned_disco.Models.{Time, BillEvent}
use redesigned_disco.Store.{Db}
use redesigned_disco.Store.Reads.{answered, all_answered}
use redesigned_disco.Activities.Keys.{IsKeyed}
use redesigned_disco.Keyset.{query_page, sort_by}
use redesigned_disco.Keyset.Sorting.{RowOrder, ascending, IsAscending, IsListing, sort_by-perm}
use redesigned_disco.Keyset.Selected.{sorted-IsAscending, sorted-All}
use redesigned_disco.Keyset.Walk.{walk, page_of}
use redesigned_disco.Endpoints.Loading.{TemporalClient, assert_owns_bill}
use redesigned_disco.Endpoints.Cursors.{ℤ, CursorText, page_limit, encode_line_item_cursor}
use redesigned_disco.Endpoints.Paging.{cut_page-take}
use redesigned_disco.Endpoints.Pages.{walk-pages, start_or_key, key_text}
use redesigned_disco.Endpoints.ListEvents.{
  ListBillEventsResponse, list_bill_events, read_events_page, requested_events_cursor, logged_after,
  events_of, event_before,
}

-- What a client takes from an answer: the entries and the next cursor.
abbrev pub event_page : Result ApiError ListBillEventsResponse → Option (List BillEvent × String)
event_page (err e) = none
event_page (ok r) = some (r.events, r.next_cursor)

abbrev pub by_time : RowOrder BillEvent
by_time = ascending (λ e. e.created_at) (λ e. e.id)

module _ {D : Type 0} {d : Decimal D} (pg : Postgres D d) (client : TemporalClient D)
    (t : CursorText) (id caller key : String) (db : Db D) where
  abbrev pub serve_events : ℤ → String → Option (List BillEvent × String)
  serve_events limit c = event_page (
      list_bill_events pg client t all_answered id caller db
        (some (record { cursor = c; limit = limit })))

  -- On tables with unique keys that do not change meanwhile, and a connection that answers, a client
  -- that owns a bill and follows the cursors of ListBillEvents, with any limit that is accepted, gets
  -- each audit entry of the bill once, in chronological order, and reaches the end with at most one
  -- request more than there are entries.
  pub walk-list_bill_events :
      (limit : ℤ) (n : ℕ)
      → IsKeyed pg db
      → assert_owns_bill pg client answered id caller db ≡ ok tt
      → pg.uuid id ≡ some key
      → page_limit (some limit) ≡ ok (suc n)
      → IsListing by_time (events_of key db.events) (select (λ e. e.bill_id == key) db.events)
        × (walk (serve_events limit) (suc (length (events_of key db.events))) ""
            ≡ some (events_of key db.events))
  unfolding list_bill_events read_events_page requested_events_cursor encode_line_item_cursor
  walk-list_bill_events limit n keyed owns read accepted = (
    (sorted, sort_by-perm by_time _),
    walk-pages (λ e. e) t (λ e. e.created_at) (λ e. e.id) n by_time pg.uuid
          (events_of key db.events) (serve_events limit) logged_after (λ a b. refl)
          (λ c cursor page start rows. answered c cursor page start rows) pg.uuid-empty canonical
          sorted
        ∙ ap (λ l. some l) (map_same _),
  )
    where
      answered :
          (c : String) (cursor : Time × String) (page : List BillEvent)
          → start_or_key t c ≡ ok cursor
          → query_page logged_after pg.uuid (suc (suc n)) cursor (ok (events_of key db.events))
            ≡ ok (take (suc (suc n)) page)
          → serve_events limit c
            ≡ some (page_of (λ e. e) (λ e. t.encode_bytes (key_text t e.created_at e.id)) n page)
      answered c cursor page start rows =
          rw (owns, accepted, start, read, rows)
            (rw (cut_page-take n page, map_same (take (suc n) page)) refl)

      canonical : All (λ (e : BillEvent). pg.uuid e.id ≡ some e.id) (events_of key db.events)
      canonical =
          subst (λ l. All (λ (e : BillEvent). pg.uuid e.id ≡ some e.id) (sort_by event_before l))
            (map_same (select (λ (e : BillEvent). e.bill_id == key) db.events))
            (sorted-All (λ (e : BillEvent). e) (λ e. e.id) (λ e. e.bill_id == key) by_time
              (λ k. pg.uuid k ≡ some k) (λ r h. h) db.events keyed.events.canonical)

      sorted : IsAscending by_time (events_of key db.events)
      sorted =
          subst (λ l. IsAscending by_time (sort_by event_before l))
            (map_same (select (λ (e : BillEvent). e.bill_id == key) db.events))
            (sorted-IsAscending (λ (e : BillEvent). e) (λ e. e.id) (λ e. e.bill_id == key) by_time
              (λ r. refl) db.events keyed.events.distinct)
