-- ===== src/Tests/Fixtures.antt =====
-- Amounts as whole units, printed in tally marks; every text but the empty one is an id.
use redesigned_disco.Prelude.{
  ℕ, zero, suc, ◌+◌, String, ◌≡◌, refl, Bool, true, Option, none, some, [], ◌∷◌, arith, ltb, ◌==◌,
  if◌then◌else◌, eq_iff,
}
use redesigned_disco.Money.{Decimal, Postgres, NonNegative}
use redesigned_disco.Models.{
  Bill, BillWorkflowInput, CurrencyMeta, open_bill, unset, AddLineItemInput, AppendLineItemInput,
}
use redesigned_disco.Store.{Client, active}
use redesigned_disco.Activities.{World, Conn, committed}
use redesigned_disco.Activities.Retry.{Attempt}

abbrev tally_text : ℕ → String
tally_text zero = String.[]
tally_text (suc n) = String.◌∷◌ "|" (tally_text n)

abbrev of_tally : String → ℕ
of_tally String.[] = 0
of_tally (String.◌∷◌ c s) = suc (of_tally s)

abbrev units_positive : ℕ → Bool
units_positive n = ltb 0 n

pub add_positive_units :
    (a b : ℕ) → units_positive a ≡ true → units_positive b ≡ true → units_positive (a + b) ≡ true
add_positive_units a b h k = ground arith

pub add_comm_units : (a b : ℕ) → a + b ≡ b + a
add_comm_units a b = omega arith

pub add_assoc_units : (a b c : ℕ) → a + b + c ≡ a + (b + c)
add_assoc_units a b c = omega arith

pub nil_add_units : (a : ℕ) → 0 + a ≡ a
nil_add_units a = omega arith

abbrev pub units : Decimal ℕ
units = record {
  nil = 0;
  add = λ a b. a + b;
  is_positive = units_positive;
  to_text = tally_text;
  string_fixed = λ a n. tally_text a;
  of_text = λ s. if s == "" then none else some (of_tally s);
  add_comm = add_comm_units;
  add_assoc = add_assoc_units;
  nil-add = nil_add_units;
  nil_not_positive = refl;
  add_positive = add_positive_units;
}

-- A column that holds values below a million.
abbrev column : ℕ → Option ℕ
column a = if ltb a 1_000_000 then some a else none

abbrev non_empty : String → Option String
non_empty s = if s == "" then none else some s

pub non_empty_idem : (s u : String) → non_empty s ≡ some u → non_empty u ≡ some u
non_empty_idem s u h = ground (arith, eq_iff s "", eq_iff u "")

pub column_idem : (a b : ℕ) → column a ≡ some b → column b ≡ some b
column_idem a b h = ground arith

pub column-add :
    (t a b s : ℕ)
    → NonNegative units t
    → units_positive b ≡ true
    → column t ≡ some t
    → column a ≡ some b
    → column (t + a) ≡ some s
    → s ≡ t + b
column-add t a b s n p ct ca cs = ground arith

abbrev pub tables : Postgres ℕ units
tables = record {
  uuid = non_empty;
  numeric = column;
  uuid_idem = non_empty_idem;
  uuid-empty = refl;
  numeric_idem = column_idem;
  numeric-nil = refl;
  numeric-add = column-add;
}

abbrev pub healthy : Conn
healthy = record {
  begin_ok = true;
  exec_ok = λ n. true;
  commit = committed;
  event_id = "e1";
  now = 7;
}

-- A connection whose audit entry gets the given id.
abbrev pub healthy_as : String → Conn
healthy_as id = record healthy { event_id = id }

abbrev pub delivered : Attempt
delivered = record { conn = healthy; delivered = true }

abbrev pub delivered_as : String → Attempt
delivered_as id = record { conn = healthy_as id; delivered = true }

abbrev pub alpha : Client
alpha = record { id = "acct-alpha"; name = "Alpha"; status = active }

abbrev pub usd : CurrencyMeta
usd = record { code = "USD"; name = "US Dollar"; numeric_code = 840; decimals = 2 }

abbrev pub empty_world : World ℕ
empty_world = record {
  db = record { bills = []; items = []; events = []; currencies = usd ∷ []; clients = alpha ∷ [] };
  metrics = [];
}

abbrev pub open_bill_of : ℕ → ℕ → Bill ℕ
open_bill_of total count = record {
  id = "b1";
  account_id = "acct-alpha";
  status = open_bill;
  currency = "USD";
  line_items = none;
  total_amount = total;
  item_count = count;
  created_at = 1;
  closed_at = none;
  period_start = none;
  period_end = none;
  close_reason = unset;
}

abbrev pub first_input : BillWorkflowInput ℕ
first_input = record {
  bill_id = "b1";
  account_id = "acct-alpha";
  currency = "USD";
  period_start = none;
  period_end = none;
  snapshot = none;
  seen_item_ids = [];
}

abbrev pub fee : AddLineItemInput ℕ
fee = record {
  item_id = "i1";
  description = "Monthly fee";
  amount = 15;
  currency = "USD";
  caller_account_id = "acct-alpha";
}

abbrev pub fee_row : AppendLineItemInput ℕ
fee_row = record {
  bill_id = "b1";
  actor = "acct-alpha";
  item = record {
    id = "i1";
    description = "Monthly fee";
    amount = 15;
    currency = "USD";
    created_at = 2;
  };
}
