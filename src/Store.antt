-- ===== src/Store.antt =====
-- The tables of bill/migrations and the statements that the service runs on them, with the
-- constraints that the migrations declare. A table is the list of its rows, oldest first.
pub mod Statements
pub mod Reads
pub mod Seed
pub mod Inversion
pub mod Tables
use redesigned_disco.Prelude.{
  String, Bool, true, false, ◌||◌, ◌==◌, Option, none, some, List, [], ◌∷◌, if◌then◌else◌,
}
use redesigned_disco.Models.{
  Time, Currency, CurrencyMeta, BillStatus, CloseReason, BillEvent, unset,
}

pub record BillRow (D : Type 0) : Type 0 where
  pub id : String
  pub account_id : String
  pub status : BillStatus
  pub currency : Currency
  pub total_amount : D
  pub created_at : Time
  pub closed_at : Option Time
  pub period_start : Option Time
  pub period_end : Option Time
  pub close_reason : Option CloseReason

pub record ItemRow (D : Type 0) : Type 0 where
  pub id : String
  pub bill_id : String
  pub description : String
  pub amount : D
  pub currency : Currency
  pub created_at : Time

pub data ClientStatus : Type 0 where
  active suspended : ClientStatus

pub record Client : Type 0 where
  pub id : String
  pub name : String
  pub status : ClientStatus

pub record Db (D : Type 0) : Type 0 where
  pub bills : List (BillRow D)
  pub items : List (ItemRow D)
  pub events : List BillEvent
  pub currencies : List CurrencyMeta
  pub clients : List Client

-- `no_rows` is `sqldb.ErrNoRows`; the others are any error that a statement or the connection gives.
pub data DbError : Type 0 where
  no_rows : DbError
  invalid : DbError
  connection : DbError

module _ {D : Type 0} where
  abbrev pub find_bill : String → List (BillRow D) → Option (BillRow D)
  find_bill key [] = none
  find_bill key (r ∷ rs) = if r.id == key then some r else find_bill key rs

  abbrev pub has_bill : String → List (BillRow D) → Bool
  has_bill key [] = false
  has_bill key (r ∷ rs) = r.id == key || has_bill key rs

  abbrev pub has_item : String → List (ItemRow D) → Bool
  has_item key [] = false
  has_item key (r ∷ rs) = r.id == key || has_item key rs

abbrev pub has_event : String → List BillEvent → Bool
has_event key [] = false
has_event key (e ∷ es) = e.id == key || has_event key es

abbrev pub has_currency : String → List CurrencyMeta → Bool
has_currency key [] = false
has_currency key (r ∷ rs) = r.code == key || has_currency key rs

abbrev pub has_client : String → List Client → Bool
has_client key [] = false
has_client key (r ∷ rs) = r.id == key || has_client key rs

-- A row put in front of the rows that an update gave, if it succeeded.
abbrev pub with_row {ℓ} : {A : Type ℓ} → Option A → Option (List A) → Option (List A)
with_row (some r) (some rs) = some (r ∷ rs)
with_row (some r) none = none
with_row none rs = none

module _ {D : Type 0} where
  -- `UPDATE bills SET ... WHERE id = key`; `none` where a new value does not fit its column.
  abbrev pub update_bill :
      (BillRow D → Option (BillRow D)) → String → List (BillRow D) → Option (List (BillRow D))
  update_bill set key [] = some []
  update_bill set key (r ∷ rs) =
      let rest = update_bill set key rs in
      if r.id == key then with_row (set r) rest else with_row (some r) rest

abbrev pub with_total : {D : Type 0} → BillRow D → Option D → Option (BillRow D)
with_total r none = none
with_total r (some t) = some (record r { total_amount = t })

-- close_reason IN ('SIGNAL', 'PERIOD_END'), or NULL.
abbrev pub reason_allowed : Option CloseReason → Bool
reason_allowed none = true
reason_allowed (some unset) = false
reason_allowed (some r) = true
