-- ===== src/Activities/History.antt =====
-- What never goes away: the tables only grow, whatever the activities do. The triggers of
-- bill/migrations/6_bill_events.up.sql refuse an UPDATE or a DELETE of the log, and no activity makes
-- one.
use mathlib.Core.Path.{subst}
use mathlib.Core.Option.{some-injective}
use redesigned_disco.Prelude.{
  String, ◌≡◌, refl, sym, ◌∙◌, ap, Bool, true, false, Option, none, some, List, [], ◌∷◌, ◌++◌,
  append-nil, append_assoc, arith, ◌==◌, if◌then◌else◌,
}
use redesigned_disco.Money.{Decimal, Postgres}
use redesigned_disco.Models.{
  Bill, Time, CloseReason, AppendLineItemInput, CloseBillActivityInput, closed_bill,
}
use redesigned_disco.Store.{BillRow, Db, update_bill, with_row, with_total}
use redesigned_disco.Store.Statements.{closed_row}
use redesigned_disco.Activities.{World}
use redesigned_disco.Activities.Append.{Appended, add_amount}
use redesigned_disco.Activities.Create.{Opened}
use redesigned_disco.Activities.Close.{Closed, close_row}
use redesigned_disco.Activities.Calls.{Call, perform_all, perform_all-keeps}

-- The rows of a table are a beginning of the rows that it has later.
abbrev pub IsPrefix : {A : Type 0} → List A → List A → Type 0
IsPrefix {A} old new = (more : List A) × (new ≡ old ++ more)

module _ {A : Type 0} where
  IsPrefix-same : (old new : List A) → new ≡ old → IsPrefix old new
  IsPrefix-same old new e = ([], e ∙ sym (append-nil old))

  IsPrefix-trans : (xs ys zs : List A) → IsPrefix xs ys → IsPrefix ys zs → IsPrefix xs zs
  IsPrefix-trans xs ys zs (m, e) (n, e') = (m ++ n, e' ∙ ap (λ l. l ++ n) e ∙ append_assoc xs m n)

module _ {D : Type 0} where
  -- A bill keeps its identity, its terms and, once it is closed, its status.
  pub record RowKept (r r' : BillRow D) : Type 0 where
    pub id : r'.id ≡ r.id
    pub account : r'.account_id ≡ r.account_id
    pub currency : r'.currency ≡ r.currency
    pub created : r'.created_at ≡ r.created_at
    pub start : r'.period_start ≡ r.period_start
    pub end : r'.period_end ≡ r.period_end
    pub closed : r.status ≡ closed_bill → r'.status ≡ closed_bill

  same-RowKept : (r : BillRow D) → RowKept r r
  same-RowKept r = record {
    id = refl;
    account = refl;
    currency = refl;
    created = refl;
    start = refl;
    end = refl;
    closed = λ h. h;
  }

  RowKept-trans : (r s t : BillRow D) → RowKept r s → RowKept s t → RowKept r t
  RowKept-trans r s t h k = record {
    id = k.id ∙ h.id;
    account = k.account ∙ h.account;
    currency = k.currency ∙ h.currency;
    created = k.created ∙ h.created;
    start = k.start ∙ h.start;
    end = k.end ∙ h.end;
    closed = λ e. k.closed (h.closed e);
  }

  -- Every row is kept, at its place; more rows may follow.
  abbrev pub RowsKept : List (BillRow D) → List (BillRow D) → Type 0
  RowsKept [] new = Unit
  RowsKept (r ∷ rs) [] = ⊥
  RowsKept (r ∷ rs) (r' ∷ new) = RowKept r r' × RowsKept rs new

  RowsKept-append : (old more : List (BillRow D)) → RowsKept old (old ++ more)
  RowsKept-append [] more = tt
  RowsKept-append (r ∷ rs) more = (same-RowKept r, RowsKept-append rs more)

  RowsKept-trans : (xs ys zs : List (BillRow D)) → RowsKept xs ys → RowsKept ys zs → RowsKept xs zs
  RowsKept-trans [] ys zs h k = tt
  RowsKept-trans (x ∷ xs) [] zs h k = absurd h
  RowsKept-trans (x ∷ xs) (y ∷ ys) [] h k = absurd k
  RowsKept-trans (x ∷ xs) (y ∷ ys) (z ∷ zs) h k =
      (RowKept-trans x y z h.0 k.0, RowsKept-trans xs ys zs h.1 k.1)

  module _ (set : BillRow D → Option (BillRow D)) (key : String)
      (keeps : (r r' : BillRow D) → set r ≡ some r' → RowKept r r') where
    kept_row :
        (r : BillRow D) (b : Bool) (new : Option (BillRow D)) (rest : Option (List (BillRow D)))
        (rs rows : List (BillRow D))
        → set r ≡ new
        → ((xs : List (BillRow D)) → rest ≡ some xs → RowsKept rs xs)
        → (if b then with_row new rest else with_row (some r) rest) ≡ some rows
        → RowsKept (r ∷ rs) rows
    kept_row r true none none rs rows en f h = cc
    kept_row r true (some r') none rs rows en f h = cc
    kept_row r false new none rs rows en f h = cc
    kept_row r true none (some xs) rs rows en f h = cc
    kept_row r true (some r') (some xs) rs rows en f h =
        subst (RowsKept (r ∷ rs)) (some-injective _ _ h) (keeps r r' en, f xs refl)
    kept_row r false new (some xs) rs rows en f h =
        subst (RowsKept (r ∷ rs)) (some-injective _ _ h) (same-RowKept r, f xs refl)

    update_bill-RowsKept :
        (bills rows : List (BillRow D))
        → update_bill set key bills ≡ some rows
        → RowsKept bills rows
    update_bill-RowsKept [] rows h = tt
    update_bill-RowsKept (r ∷ rs) rows h =
        kept_row r (r.id == key) (set r) (update_bill set key rs) rs rows refl
          (λ xs e. update_bill-RowsKept rs xs e) h

  -- Since `old`, rows were added and bills were updated, and nothing else.
  pub record IsLater (old new : Db D) : Type 0 where
    pub events : IsPrefix old.events new.events
    pub items : IsPrefix old.items new.items
    pub bills : RowsKept old.bills new.bills
    pub currencies : new.currencies ≡ old.currencies
    pub clients : new.clients ≡ old.clients

  IsLater-trans : (a b c : Db D) → IsLater a b → IsLater b c → IsLater a c
  IsLater-trans a b c h k = record {
    events = IsPrefix-trans a.events b.events c.events h.events k.events;
    items = IsPrefix-trans a.items b.items c.items h.items k.items;
    bills = RowsKept-trans a.bills b.bills c.bills h.bills k.bills;
    currencies = k.currencies ∙ h.currencies;
    clients = k.clients ∙ h.clients;
  }

  pub same-IsLater : (db : Db D) → IsLater db db
  same-IsLater db = record {
    events = IsPrefix-same db.events db.events refl;
    items = IsPrefix-same db.items db.items refl;
    bills = subst (RowsKept db.bills) (append-nil db.bills) (RowsKept-append db.bills []);
    currencies = refl;
    clients = refl;
  }

  with_total-RowKept : (r r' : BillRow D) (t : Option D) → with_total r t ≡ some r' → RowKept r r'
  with_total-RowKept r r' none h = cc
  with_total-RowKept r r' (some t) h = subst (RowKept r) (some-injective _ _ h) (record {
    id = refl;
    account = refl;
    currency = refl;
    created = refl;
    start = refl;
    end = refl;
    closed = λ e. e;
  })

  closed_row-RowKept :
      (r r' : BillRow D) (at : Time) (reason : Option CloseReason) (t : Option D)
      → closed_row r at reason t ≡ some r'
      → RowKept r r'
  closed_row-RowKept r r' at reason none h = cc
  closed_row-RowKept r r' at reason (some t) h = record {
    id = ground arith;
    account = ground arith;
    currency = ground arith;
    created = ground arith;
    start = ground arith;
    end = ground arith;
    closed = λ e. ground arith;
  }

module _ {D : Type 0} {d : Decimal D} (pg : Postgres D d) where
  Opened-IsLater : (bill : Bill D) (old new : Db D) → Opened pg bill old new → IsLater old new
  Opened-IsLater bill old new o = subst (IsLater old) (sym o.result) (record {
    events = (o.entry ∷ [], refl);
    items = IsPrefix-same old.items old.items refl;
    bills = RowsKept-append old.bills _;
    currencies = refl;
    clients = refl;
  })

  Appended-IsLater :
      (i : AppendLineItemInput D) (old new : Db D) → Appended pg i old new → IsLater old new
  Appended-IsLater i old new a = subst (IsLater old) (sym a.result) (record {
    events = (a.entry ∷ [], refl);
    items = (_, refl);
    bills =
        update_bill-RowsKept (add_amount pg i.item.amount) a.bill
          (λ r r' e. with_total-RowKept r r' _ e) old.bills a.rows a.rows_read;
    currencies = refl;
    clients = refl;
  })

  Closed-IsLater :
      (i : CloseBillActivityInput D) (old new : Db D) → Closed pg i old new → IsLater old new
  Closed-IsLater i old new c = subst (IsLater old) (sym c.result) (record {
    events = (c.entry ∷ [], refl);
    items = IsPrefix-same old.items old.items refl;
    bills =
        update_bill-RowsKept (close_row pg i) c.bill (λ r r' e. closed_row-RowKept r r' _ _ _ e)
          old.bills c.rows c.rows_read;
    currencies = refl;
    clients = refl;
  })

  -- Through any history of activities, in any order and under any failures of their connections, the
  -- entries of the log and the line items stay as they are, in their order, with new ones at the end;
  -- each bill keeps its id, account, currency, creation and period, and is never reopened.
  pub perform_all-IsLater :
      (calls : List (Call D)) (w : World D) → IsLater w.db (perform_all pg calls w).db
  perform_all-IsLater calls w =
      perform_all-keeps pg (IsLater w.db)
        (λ bill old new o h. IsLater-trans w.db old new h (Opened-IsLater bill old new o))
        (λ i old new a h. IsLater-trans w.db old new h (Appended-IsLater i old new a))
        (λ i old new c h. IsLater-trans w.db old new h (Closed-IsLater i old new c)) calls w
        (same-IsLater w.db)
