-- ===== src/Models.antt =====
-- bill/models.go, bill/signals.go and the input types of bill/activities.go: the data that the
-- endpoints, the workflow and the activities exchange. A pointer field is an `Option`; an instant is
-- a number of nanoseconds after Go's zero `time.Time`, and `int` is a natural number, since the
-- program only counts up.
use redesigned_disco.Prelude.{ℕ, String, Option, List}

-- `time.Time`
abbrev pub Time : Type 0
Time = ℕ

-- `type Currency string`
abbrev pub Currency : Type 0
Currency = String

-- One row from the currencies table.
pub record CurrencyMeta : Type 0 where
  pub code : String
  pub name : String
  pub numeric_code : ℕ
  pub decimals : ℕ

pub data BillStatus : Type 0 where
  open_bill closed_bill : BillStatus

-- `unset` is the empty string, the zero value.
pub data CloseReason : Type 0 where
  unset by_signal period_end : CloseReason

pub data BillEventKind : Type 0 where
  opened item_added closed : BillEventKind

abbrev pub system_actor : String
system_actor = "system"

-- The three payloads that the activities marshal.
pub data Payload : Type 0 where
  opened_payload : Currency → Option Time → Option Time → Payload
  item_added_payload : String → String → String → Currency → Payload
  closed_payload : String → CloseReason → Payload

pub record BillEvent : Type 0 where
  pub id : String
  pub bill_id : String
  pub kind : BillEventKind
  pub actor : String
  pub payload : Payload
  pub created_at : Time

pub record LineItem (D : Type 0) : Type 0 where
  pub id : String
  pub description : String
  pub amount : D
  pub currency : Currency
  pub created_at : Time

-- `line_items` is `none` for the nil slice of the workflow's in-memory state.
pub record Bill (D : Type 0) : Type 0 where
  pub id : String
  pub account_id : String
  pub status : BillStatus
  pub currency : Currency
  pub line_items : Option (List (LineItem D))
  pub total_amount : D
  pub item_count : ℕ
  pub created_at : Time
  pub closed_at : Option Time
  pub period_start : Option Time
  pub period_end : Option Time
  pub close_reason : CloseReason

pub record BillWorkflowInput (D : Type 0) : Type 0 where
  pub bill_id : String
  pub account_id : String
  pub currency : Currency
  pub period_start : Option Time
  pub period_end : Option Time
  pub snapshot : Option (Bill D)
  pub seen_item_ids : List String

pub record BillResult (D : Type 0) : Type 0 where
  pub bill_id : String
  pub total_amount : D
  pub currency : Currency
  pub item_count : ℕ
  pub close_reason : CloseReason

pub record AddLineItemInput (D : Type 0) : Type 0 where
  pub item_id : String
  pub description : String
  pub amount : D
  pub currency : Currency
  pub caller_account_id : String

pub record AddLineItemResult (D : Type 0) : Type 0 where
  pub item_id : String
  pub bill_total : D
  pub item_count : ℕ

pub record AppendLineItemInput (D : Type 0) : Type 0 where
  pub bill_id : String
  pub actor : String
  pub item : LineItem D

pub record CloseBillActivityInput (D : Type 0) : Type 0 where
  pub bill_id : String
  pub actor : String
  pub total_amount : D
  pub closed_at : Time
  pub close_reason : CloseReason
