-- ===== src/Registry/ForeignKeys.antt =====
-- The endpoints check a currency against the registry, and the tables by a foreign key.
use redesigned_disco.Prelude.{String, Bool, true, false, ◌≡◌, sym, ◌∙◌, ap, none, some, List, arith}
use redesigned_disco.Errs.{Result, ok, err}
use redesigned_disco.Money.{Decimal, Postgres}
use redesigned_disco.Models.{Currency}
use redesigned_disco.Store.{BillRow, Db, DbError, has_bill, has_client, has_currency}
use redesigned_disco.Store.Statements.{insert_bill}
use redesigned_disco.Activities.{World}
use redesigned_disco.Activities.Calls.{Call, perform_all}
use redesigned_disco.Activities.History.{perform_all-IsLater}
use redesigned_disco.Registry.{valid, get_currencies}
use redesigned_disco.Registry.Laws.{cold_registry}

abbrev pub succeeds : {D : Type 0} → Result DbError (Db D) → Bool
succeeds (ok db) = true
succeeds (err e) = false

module _ {D : Type 0} {d : Decimal D} (pg : Postgres D d) where
  insert_bill-succeeds :
      (row : BillRow D) (key : String) (db : Db D)
      → pg.uuid row.id ≡ some key
      → has_bill key db.bills ≡ false
      → has_client row.account_id db.clients ≡ true
      → succeeds (insert_bill pg row db) ≡ has_currency row.currency db.currencies
  unfolding insert_bill
  insert_bill-succeeds row key db read free known = ground arith

  -- A registry that is loaded from the tables on a cold cache agrees with their foreign keys for good: a
  -- currency is valid exactly if the tables list it after any history of activities from then on; and
  -- an insert of a bill for a client that they list, under an id that is a UUID and not taken, succeeds
  -- exactly if the bill's currency is valid.
  pub valid-has_currency :
      (calls : List (Call D)) (w : World D) (row : BillRow D) (key : String)
      → let later = (perform_all pg calls w).db in
        let registry = (get_currencies none none (ok w.db.currencies)).0 in
        pg.uuid row.id ≡ some key
        → has_bill key later.bills ≡ false
        → has_client row.account_id later.clients ≡ true
        → ((c : Currency) → valid registry c ≡ has_currency c later.currencies)
          × (succeeds (insert_bill pg row later) ≡ valid registry row.currency)
  valid-has_currency calls w row key read free known =
      let later = (perform_all pg calls w).db in
      let same = (perform_all-IsLater pg calls w).currencies in
      let agrees : (c : Currency)
          → valid (get_currencies none none (ok w.db.currencies)).0 c
            ≡ has_currency c later.currencies =
        λ c. cold_registry c (ok w.db.currencies) ∙ ap (has_currency c) (sym same) in
      (agrees, insert_bill-succeeds row key later read free known ∙ sym (agrees row.currency))
