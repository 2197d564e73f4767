-- ===== src/Endpoints/OwnBills.antt =====
-- What ListBills shows and refuses, for every request.
use mathlib.Core.Path.{subst}
use redesigned_disco.Prelude.{
  take-All, select-All, ℕ, suc, String, ◌≡◌, ◌⊎◌, inl, inr, refl, true, false, none, some, Option,
  List, [], ◌∷◌, map, arith, eq_iff, ◌==◌, All, select, Bool-cases, length, ltb,
}
use redesigned_disco.Errs.{ApiError, Result, ok, err, invalid_argument, bind-ok}
use redesigned_disco.Money.{Decimal, Postgres}
use redesigned_disco.Models.{Time, Bill}
use redesigned_disco.Store.{Db, BillRow}
use redesigned_disco.Store.Reads.{Reading, RowsError, read_rows-ok, rows_failure-fails}
use redesigned_disco.Views.{BillView, to_bill_view}
use redesigned_disco.Keyset.{query_page, rows_beyond}
use redesigned_disco.Keyset.Sorting.{sort_by-All}
use redesigned_disco.Endpoints.Loading.{scan_bill_row}
use redesigned_disco.Endpoints.Cursors.{ℤ, pos, negsuc, CursorText, page_limit, cut_page}
use redesigned_disco.Endpoints.BillPages.{IsListStatus, newest_first}
use redesigned_disco.Endpoints.ListBills.{
  ListBillsRequest, ListBillsResponse, list_bills, listed_bills, query_bills_page,
  normalize_list_status, opened_before, bills_of, is_wanted, requested_bills_limit,
  decode_bill_cursor,
}

module _ {R : Type 0} (P : R → Type 0) where
  cut_page-All : (limit : ℕ) (xs : List R) → All P xs → All P (cut_page limit xs).0
  unfolding cut_page
  cut_page-All limit xs h = elim (Bool-cases (ltb limit (length xs))) [
    | inl e ↦ rw e (take-All P limit xs h)
    | inr e ↦ rw e h
  ]

module _ {D : Type 0} {d : Decimal D} (pg : Postgres D d) (format : Time → String) (t : CursorText)
    (quote : String → String) (caller : String) (db : Db D) where
  abbrev Own : Bill D → Type 0
  Own b = b.account_id ≡ caller

  wanted_own :
      (status : String) (r : BillRow D) → is_wanted caller status r ≡ true → r.account_id ≡ caller
  wanted_own status r h = ground (arith, eq_iff r.account_id caller)

  scanned-Own :
      (status : String) (rows : List (BillRow D))
      → All Own (map scan_bill_row (select (is_wanted caller status) rows))
  unfolding scan_bill_row
  scanned-Own status [] = tt
  scanned-Own status (r ∷ rs) = elim (Bool-cases (is_wanted caller status r)) [
    | inl e ↦ rw e (wanted_own status r e, scanned-Own status rs)
    | inr e ↦ rw e (scanned-Own status rs)
  ]

  bills_of-Own : (status : String) → All Own (bills_of caller status db.bills)
  bills_of-Own status = sort_by-All newest_first Own _ (scanned-Own status db.bills)

  beyond-Own :
      (n : ℕ) (at : Time) (key : Option String) (rows page : List (Bill D))
      → All Own rows
      → rows_beyond opened_before n at key rows ≡ ok page
      → All Own page
  beyond-Own n at none rows page h e = cc
  beyond-Own n at (some id) rows page h e =
      subst (All Own) (ground arith)
        (take-All Own n _ (select-All Own (opened_before at id) rows h))

  query_page-Own :
      (n : ℕ) (at : Time) (id : String) (rows : List (Bill D))
      → All Own rows
      → (page : List (Bill D)) → query_page opened_before pg.uuid n (at, id) (ok rows) ≡ ok page
      → All Own page
  query_page-Own n at id rows h page e = elim (Bool-cases (id == "")) [
    | inl b ↦ subst (All Own) (ground arith) (take-All Own n rows h)
    | inr b ↦ beyond-Own n at (pg.uuid id) rows page h (ground arith)
  ]

  views-Own :
      (bills : List (Bill D))
      → All Own bills
      → All (λ v. v.account_id ≡ caller) (map (to_bill_view d format) bills)
  unfolding to_bill_view
  views-Own [] h = tt
  views-Own (b ∷ bs) h = (h.0, views-Own bs h.1)

  listed-Own :
      (limit : ℕ) (q : Result RowsError (List (Bill D))) (r : ListBillsResponse)
      → ((page : List (Bill D)) → q ≡ ok page → All Own page)
      → listed_bills pg format t limit q ≡ ok r
      → All (λ v. v.account_id ≡ caller) r.bills
  listed-Own limit (err e) r h k = absurd (rows_failure-fails _ _ _ e r k)
  listed-Own limit (ok rows) r h k =
      subst (All (λ (v : BillView). v.account_id ≡ caller)) (ground arith)
        (views-Own _ (cut_page-All Own limit rows (h rows refl)))

  -- Every bill that ListBills shows is the caller's own, for every request and whatever the tables hold.
  pub list_bills-own :
      (reading : Reading) (req : Option ListBillsRequest) (r : ListBillsResponse)
      → list_bills pg format t quote reading caller db req ≡ ok r
      → All (λ v. v.account_id ≡ caller) r.bills
  unfolding list_bills query_bills_page
  list_bills-own reading req r h =
      let (limit, _, h1) = bind-ok (page_limit (requested_bills_limit req)) _ r h in
      let (status, _, h2) = bind-ok (normalize_list_status quote req) _ r h1 in
      let (cursor, _, h3) = bind-ok (decode_bill_cursor t req) _ r h2 in
      listed-Own limit _ r (queried reading limit status cursor) h3
    where
      queried :
          (reading : Reading) (limit : ℕ) (status : String) (cursor : Time × String)
          (page : List (Bill D))
          → query_bills_page pg format reading caller status cursor (suc limit) db ≡ ok page
          → All Own page
      queried reading limit status (at, id) page e =
          let (rows, here, e') = read_rows-ok reading _ page e in
          subst (All Own) e' (query_page-Own (suc limit) at id _ (bills_of-Own status) rows here)

  -- A request with a negative limit, or with a status that is neither empty nor OPEN nor CLOSED, is an
  -- invalid argument, however the query goes.
  pub list_bills-refuses :
      (reading : Reading) (req : ListBillsRequest)
      → ((n : ℕ) × (req.limit ≡ negsuc n)) ⊎ (¬ IsListStatus req.status)
      → (e : ApiError) × (list_bills pg format t quote reading caller db (some req) ≡ err e)
        × (e.code ≡ invalid_argument)
  unfolding list_bills page_limit normalize_list_status
  list_bills-refuses reading req (inl (n, e)) = rw e (_, refl, refl)
  list_bills-refuses reading req (inr unknown) = by_limit req.limit refl
    where
      apart : (s : String) → ¬ (req.status ≡ s) → (req.status == s) ≡ false
      apart s other = ground (arith, eq_iff req.status s)

      by_limit :
          (limit : ℤ)
          → req.limit ≡ limit
          → (e : ApiError) × (list_bills pg format t quote reading caller db (some req) ≡ err e)
            × (e.code ≡ invalid_argument)
      by_limit (negsuc n) e = rw e (_, refl, refl)
      by_limit (pos n) e =
          rw
            (
              e,
              apart "" (λ k. unknown (inl k)),
              apart "OPEN" (λ k. unknown (inr (inl k))),
              apart "CLOSED" (λ k. unknown (inr (inr k))),
            )
            (_, refl, refl)
