-- ===== src/Endpoints/Ownership.antt =====
-- What a caller learns of a bill that is not theirs, and what a bill looks like that is loaded from
-- the database.
use redesigned_disco.Prelude.{
  String, ◌≡◌, refl, ◌≢◌, inl, inr, ◌==◌, none, some, List, arith, eq_iff, Bool-cases,
}
use redesigned_disco.Errs.{ApiError, Result, ok, err, ◌>>=◌}
use redesigned_disco.Money.{Decimal, Postgres}
use redesigned_disco.Models.{Time, Bill, LineItem}
use redesigned_disco.Store.{Db, BillRow, find_bill}
use redesigned_disco.Store.Reads.{Reads, RowsError, answered, all_answered}
use redesigned_disco.Views.{BillView, to_bill_view, to_line_item_views}
use redesigned_disco.Endpoints.Errors.{workflow_not_found, workflow_id}
use redesigned_disco.Endpoints.Loading.{
  TemporalClient, load_bill_summary, owned_by, bill_not_found_error, items_of, scan_bill_row,
  fetch_line_items,
}
use redesigned_disco.Endpoints.Read.{close_bill, get_bill, viewed}

module _ {D : Type 0} {d : Decimal D} (pg : Postgres D d) (format : Time → String) where
  owned_foreign :
      (id caller : String) (bill : Bill D)
      → bill.account_id ≢ caller
      → owned_by id caller bill ≡ err (bill_not_found_error id)
  owned_foreign id caller bill h = ground (arith, eq_iff bill.account_id caller)

  -- Of a bill of another account that can be loaded, under an id that is a UUID, GetBill and CloseBill
  -- say what they say of that id where there is neither a workflow nor a row: the same error, code and
  -- message.
  pub foreign_bill_looks_absent :
      (t u : TemporalClient D) (id caller : String) (db after other : Db D) (bill : Bill D)
      (key : String)
      → load_bill_summary pg t answered id db ≡ ok bill
      → bill.account_id ≢ caller
      → u.query (workflow_id id) ≡ err workflow_not_found
      → pg.uuid id ≡ some key
      → find_bill key other.bills ≡ none
      → (get_bill pg format t all_answered id caller db
          ≡ get_bill pg format u all_answered id caller other)
        × (close_bill pg format t all_answered id caller db after
            ≡ close_bill pg format u all_answered id caller other after)
  unfolding get_bill close_bill
  foreign_bill_looks_absent t u id caller db after other bill key loaded foreign absent read
        no_row =
      let there : load_bill_summary pg u answered id other ≡ err (bill_not_found_error id) =
        rw (absent, read, no_row) refl in
      let not_mine = owned_foreign id caller bill foreign in
      (ground (arith, there, not_mine), ground (arith, there, not_mine))

  -- An answer of GetBill is the caller's own bill.
  pub get_bill-own :
      (t : TemporalClient D) (answers : Reads) (id caller : String) (db : Db D) (v : BillView)
      → get_bill pg format t answers id caller db ≡ ok v
      → v.account_id ≡ caller
  unfolding get_bill
  get_bill-own t answers id caller db v h =
      own (load_bill_summary pg t (answers 0) id db) (fetch_line_items pg (answers 1) id db) h
    where
      shown :
          (bill : Bill D) (items : Result RowsError (List (LineItem D)))
          → bill.account_id ≡ caller
          → viewed pg format bill items ≡ ok v
          → v.account_id ≡ caller
      shown bill (err e) own h' = cc
      shown bill (ok items) own h' = ground arith

      own :
          (r : Result ApiError (Bill D)) (items : Result RowsError (List (LineItem D)))
          → (r >>= owned_by id caller >>= λ bill. viewed pg format bill items) ≡ ok v
          → v.account_id ≡ caller
      own (err e) items h' = cc
      own (ok bill) items h' = elim (Bool-cases (bill.account_id == caller)) [
        | inl e ↦ shown bill items ((eq_iff bill.account_id caller).0 e) (ground arith)
        | inr e ↦ ground arith
      ]

  -- Where there is no workflow any more and the database answers with the caller's own row, GetBill
  -- shows every line item that is stored for the bill, and an item count of zero.
  pub get_bill-closed_count :
      (t : TemporalClient D) (id caller key : String) (db : Db D) (row : BillRow D)
      → t.query (workflow_id id) ≡ err workflow_not_found
      → pg.uuid id ≡ some key
      → find_bill key db.bills ≡ some row
      → row.account_id ≡ caller
      → (v : BillView) × (get_bill pg format t all_answered id caller db ≡ ok v)
        × (v.line_items ≡ some (to_line_item_views d format (items_of key db.items)))
        × (v.item_count ≡ 0)
  unfolding get_bill
  get_bill-closed_count t id caller key db row absent read found own =
      let bill = scan_bill_row row in
      (
        to_bill_view d format (record bill { line_items = some (items_of key db.items) }),
        ground (arith, eq_iff row.account_id caller),
        refl,
        refl,
      )
