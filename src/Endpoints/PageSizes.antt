-- ===== src/Endpoints/PageSizes.antt =====
-- The sizes of the pages that the list endpoints answer with.
use mathlib.Core.Path.{subst}
use redesigned_disco.Prelude.{
  length-map, ℕ, zero, suc, ◌≤◌, String, ◌≡◌, inl, inr, Option, List, [], ◌∷◌, arith, length, take,
  ltb, Bool-cases,
}
use redesigned_disco.Errs.{Result, ok, err, bind-ok, ok-injective}
use redesigned_disco.Money.{Decimal, Postgres}
use redesigned_disco.Models.{Time, LineItem, BillEvent, Bill}
use redesigned_disco.Store.{Db}
use redesigned_disco.Store.Reads.{Reading, Reads, RowsError, rows_failure-fails}
use redesigned_disco.Views.{to_line_item_view, to_line_item_views, to_bill_view}
use redesigned_disco.Endpoints.Loading.{TemporalClient, assert_owns_bill}
use redesigned_disco.Endpoints.Cursors.{CursorText, page_limit, cut_page}
use redesigned_disco.Endpoints.Paging.{page_limit-bounds}
use redesigned_disco.Endpoints.ListItems.{
  ListLineItemsRequest, ListLineItemsResponse, requested_limit, decode_line_item_cursor,
  listed_page, list_line_items,
}
use redesigned_disco.Endpoints.ListEvents.{
  ListBillEventsRequest, ListBillEventsResponse, requested_events_limit, requested_events_cursor,
  listed_events, list_bill_events,
}
use redesigned_disco.Endpoints.ListBills.{
  ListBillsRequest, ListBillsResponse, requested_bills_limit, normalize_list_status,
  decode_bill_cursor, listed_bills, list_bills,
}

module _ {A : Type 0} where
  length-take : (n : ℕ) (xs : List A) → length (take n xs) ≤ n
  length-take zero xs = omega arith
  length-take (suc n) [] = omega arith
  length-take (suc n) (x ∷ xs) = let le = length-take n xs in omega arith

  length-cut_page : (limit : ℕ) (rows : List A) → length (cut_page limit rows).0 ≤ limit
  unfolding cut_page
  length-cut_page limit rows = elim (Bool-cases (ltb limit (length rows))) [
    | inl e ↦ rw e (length-take limit rows)
    | inr e ↦ rw e (ground arith)
  ]

-- A page of a response: at most its limit, which is between 1 and 500.
abbrev pub IsPage : ℕ → ℕ → Type 0
IsPage size limit = (size ≤ limit) × (1 ≤ limit) × (limit ≤ 500)

module _ {D : Type 0} {d : Decimal D} (pg : Postgres D d) (format : Time → String)
    (t : CursorText) where
  listed_items-IsPage :
      (limit : ℕ) (q : Result RowsError (List (LineItem D))) (r : ListLineItemsResponse)
      → (1 ≤ limit) × (limit ≤ 500)
      → listed_page pg format t limit q ≡ ok r
      → IsPage (length r.items) r.limit
  unfolding to_line_item_views
  listed_items-IsPage limit (err e) r b h = absurd (rows_failure-fails _ _ _ e r h)
  listed_items-IsPage limit (ok rows) r b h =
      let size = length-cut_page limit rows in
      let same = length-map (to_line_item_view d format) (cut_page limit rows).0 in
      subst (λ (x : ListLineItemsResponse). IsPage (length x.items) x.limit) (ok-injective _ _ h)
        (rw same size, b.0, b.1)

  listed_events-IsPage :
      (limit : ℕ) (q : Result RowsError (List BillEvent)) (r : ListBillEventsResponse)
      → (1 ≤ limit) × (limit ≤ 500)
      → listed_events t limit q ≡ ok r
      → IsPage (length r.events) r.limit
  listed_events-IsPage limit (err e) r b h = absurd (rows_failure-fails _ _ _ e r h)
  listed_events-IsPage limit (ok rows) r b h =
      subst (λ (x : ListBillEventsResponse). IsPage (length x.events) x.limit) (ok-injective _ _ h)
        (length-cut_page limit rows, b.0, b.1)

  listed_bills-IsPage :
      (limit : ℕ) (q : Result RowsError (List (Bill D))) (r : ListBillsResponse)
      → (1 ≤ limit) × (limit ≤ 500)
      → listed_bills pg format t limit q ≡ ok r
      → IsPage (length r.bills) r.limit
  listed_bills-IsPage limit (err e) r b h = absurd (rows_failure-fails _ _ _ e r h)
  listed_bills-IsPage limit (ok rows) r b h =
      let size = length-cut_page limit rows in
      let same = length-map (to_bill_view d format) (cut_page limit rows).0 in
      subst (λ (x : ListBillsResponse). IsPage (length x.bills) x.limit) (ok-injective _ _ h)
        (rw same size, b.0, b.1)

  items-IsPage :
      (client : TemporalClient D) (answers : Reads) (id caller : String) (db : Db D)
      (req : Option ListLineItemsRequest) (r : ListLineItemsResponse)
      → list_line_items pg format client t answers id caller db req ≡ ok r
      → IsPage (length r.items) r.limit
  unfolding list_line_items
  items-IsPage client answers id caller db req r h =
      let (_, _, h₁) = bind-ok (assert_owns_bill pg client (answers 0) id caller db) _ r h in
      let (limit, allowed, h₂) = bind-ok (page_limit (requested_limit req)) _ r h₁ in
      let (_, _, h₃) = bind-ok (decode_line_item_cursor t req) _ r h₂ in
      listed_items-IsPage limit _ r (page_limit-bounds _ limit allowed) h₃

  events-IsPage :
      (client : TemporalClient D) (answers : Reads) (id caller : String) (db : Db D)
      (req : Option ListBillEventsRequest) (r : ListBillEventsResponse)
      → list_bill_events pg client t answers id caller db req ≡ ok r
      → IsPage (length r.events) r.limit
  unfolding list_bill_events
  events-IsPage client answers id caller db req r h =
      let (_, _, h₁) = bind-ok (assert_owns_bill pg client (answers 0) id caller db) _ r h in
      let (limit, allowed, h₂) = bind-ok (page_limit (requested_events_limit req)) _ r h₁ in
      let (_, _, h₃) = bind-ok (requested_events_cursor t req) _ r h₂ in
      listed_events-IsPage limit _ r (page_limit-bounds _ limit allowed) h₃

  bills-IsPage :
      (quote : String → String) (reading : Reading) (caller : String) (db : Db D)
      (req : Option ListBillsRequest) (r : ListBillsResponse)
      → list_bills pg format t quote reading caller db req ≡ ok r
      → IsPage (length r.bills) r.limit
  unfolding list_bills
  bills-IsPage quote reading caller db req r h =
      let (limit, allowed, h₁) = bind-ok (page_limit (requested_bills_limit req)) _ r h in
      let (_, _, h₂) = bind-ok (normalize_list_status quote req) _ r h₁ in
      let (_, _, h₃) = bind-ok (decode_bill_cursor t req) _ r h₂ in
      listed_bills-IsPage limit _ r (page_limit-bounds _ limit allowed) h₃

  -- Whatever is asked, an answer of ListLineItems, of ListBillEvents and of ListBills has at most as
  -- many rows as the limit that it names, and that limit is between 1 and 500.
  pub lists-IsPage :
      (client : TemporalClient D) (quote : String → String) (answers : Reads) (reading : Reading)
      (id caller : String) (db : Db D) (i : Option ListLineItemsRequest)
      (e : Option ListBillEventsRequest) (b : Option ListBillsRequest)
      (items : ListLineItemsResponse) (events : ListBillEventsResponse) (bills : ListBillsResponse)
      → list_line_items pg format client t answers id caller db i ≡ ok items
      → list_bill_events pg client t answers id caller db e ≡ ok events
      → list_bills pg format t quote reading caller db b ≡ ok bills
      → IsPage (length items.items) items.limit
        × IsPage (length events.events) events.limit
        × IsPage (length bills.bills) bills.limit
  lists-IsPage client quote answers reading id caller db i e b items events bills h k l = (
    items-IsPage client answers id caller db i items h,
    events-IsPage client answers id caller db e events k,
    bills-IsPage quote reading caller db b bills l,
  )
