-- ===== src/Views.antt =====
-- bill/views.go: the shapes at the HTTP boundary, and the parser of amounts. `format` is
-- `time.Format(time.RFC3339Nano)`.
pub mod Laws
use redesigned_disco.Prelude.{
  ℕ, String, Bool, true, false, not, ◌==◌, Option, none, some, List, [], ◌∷◌, map, if◌then◌else◌,
}
use redesigned_disco.Errs.{ApiError, Result, ok, err, api_error, invalid_argument}
use redesigned_disco.Money.{Decimal}
use redesigned_disco.Models.{Time, Currency, BillStatus, CloseReason, LineItem, Bill}

pub record LineItemView : Type 0 where
  pub id : String
  pub description : String
  pub amount : String
  pub currency : Currency
  pub created_at : String

-- `line_items` is `none` for the nil slice.
pub record BillView : Type 0 where
  pub id : String
  pub account_id : String
  pub status : BillStatus
  pub currency : Currency
  pub line_items : Option (List LineItemView)
  pub total_amount : String
  pub item_count : ℕ
  pub created_at : String
  pub closed_at : Option String
  pub period_start : Option String
  pub period_end : Option String
  pub close_reason : CloseReason

-- A pointer that is followed if it is not nil.
abbrev pub when_set {ℓ κ} : {A : Type ℓ} {B : Type κ} → (A → B) → Option A → Option B
when_set f none = none
when_set f (some a) = some (f a)

module _ {D : Type 0} (d : Decimal D) (format : Time → String) where
  unfoldable pub to_line_item_view : LineItem D → LineItemView
  to_line_item_view i = record {
    id = i.id;
    description = i.description;
    amount = d.to_text i.amount;
    currency = i.currency;
    created_at = format i.created_at;
  }

  unfoldable pub to_line_item_views : List (LineItem D) → List LineItemView
  unfolding to_line_item_view
  to_line_item_views items = map to_line_item_view items

  unfoldable pub to_bill_view : Bill D → BillView
  unfolding to_line_item_views
  to_bill_view b = record {
    id = b.id;
    account_id = b.account_id;
    status = b.status;
    currency = b.currency;
    line_items = when_set to_line_item_views b.line_items;
    total_amount = d.to_text b.total_amount;
    item_count = b.item_count;
    created_at = format b.created_at;
    closed_at = when_set format b.closed_at;
    period_start = when_set format b.period_start;
    period_end = when_set format b.period_end;
    close_reason = b.close_reason;
  }

module _ {D : Type 0} (d : Decimal D) where
  abbrev pub checked_amount : Option D → Result ApiError D
  checked_amount none =
      api_error invalid_argument "amount must be a decimal string (e.g. \"15.99\")"
  checked_amount (some amount) =
      if not (d.is_positive amount)
      then api_error invalid_argument "amount must be positive"
      else ok amount

  unfoldable pub parse_amount : String → Result ApiError D
  parse_amount s =
      if s == ""
      then api_error invalid_argument "amount is required"
      else checked_amount (d.of_text s)
