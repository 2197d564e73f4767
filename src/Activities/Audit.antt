-- ===== src/Activities/Audit.antt =====
-- The audit log of `bill_events` against the tables, through every history of activities.
use mathlib.Core.Path.{subst}
use redesigned_disco.Prelude.{
  ℕ, suc, String, ◌≡◌, refl, sym, ◌∙◌, ap, true, false, Bool, ◌&&◌, List, [], ◌∷◌, ◌++◌, arith,
  ◌==◌, All, All-append, if◌then◌else◌, eq_iff, eq_refl,
}
use redesigned_disco.Money.{Decimal, Postgres}
use redesigned_disco.Models.{Bill, BillEvent, BillEventKind, opened, item_added, closed}
use redesigned_disco.Store.{BillRow, ItemRow, Db, has_bill}
use redesigned_disco.Store.Tables.{has_bill-append}
use redesigned_disco.Activities.{new_bill_row}
use redesigned_disco.Activities.Create.{Opened}

abbrev pub is_kind : BillEventKind → BillEventKind → Bool
is_kind opened opened = true
is_kind item_added item_added = true
is_kind closed closed = true
is_kind _ _ = false

-- How many entries of one kind the log holds for a bill.
abbrev pub count_events : BillEventKind → String → List BillEvent → ℕ
count_events kind bill [] = 0
count_events kind bill (e ∷ es) =
    let rest = count_events kind bill es in
    if is_kind e.kind kind && e.bill_id == bill then suc rest else rest

-- How many line items are stored for a bill.
abbrev pub count_items : {D : Type 0} → String → List (ItemRow D) → ℕ
count_items bill [] = 0
count_items bill (x ∷ xs) =
    let rest = count_items bill xs in if x.bill_id == bill then suc rest else rest

count_events-last :
    (kind : BillEventKind) (bill : String) (es : List BillEvent) (e : BillEvent)
    → count_events kind bill (es ++ e ∷ []) ≡ (
        if is_kind e.kind kind && e.bill_id == bill
        then suc (count_events kind bill es)
        else count_events kind bill es)
count_events-last kind bill [] e = refl
count_events-last kind bill (x ∷ es) e = ground (arith, count_events-last kind bill es e)

module _ {D : Type 0} where
  pub count_items-last :
      (bill : String) (xs : List (ItemRow D)) (x : ItemRow D)
      → count_items bill (xs ++ x ∷ [])
        ≡ (if x.bill_id == bill then suc (count_items bill xs) else count_items bill xs)
  count_items-last bill [] x = refl
  count_items-last bill (y ∷ xs) x = ground (arith, count_items-last bill xs x)

  -- One OPENED entry, and one ITEM_ADDED entry for each line item.
  abbrev pub IsRecorded : List (ItemRow D) → List BillEvent → BillRow D → Type 0
  IsRecorded items events r =
      (count_events opened r.id events ≡ 1)
      × (count_events item_added r.id events ≡ count_items r.id items)

  pub record IsAudited (db : Db D) : Type 0 where
    pub recorded : All (IsRecorded db.items db.events) db.bills
    pub no_entries :
        (bill : String) → has_bill bill db.bills ≡ false → count_events opened bill db.events ≡ 0
    pub no_additions :
        (bill : String)
        → has_bill bill db.bills ≡ false
        → count_events item_added bill db.events ≡ 0
    pub no_items : (bill : String) → has_bill bill db.bills ≡ false → count_items bill db.items ≡ 0

-- Rows that carry a key which the table does not hold are none.
module _ {D : Type 0} where
  All-keyed :
      (key : String) (P Q : BillRow D → Type 0) (bills : List (BillRow D))
      → has_bill key bills ≡ false
      → ((r : BillRow D) → (r.id == key) ≡ false → P r → Q r)
      → All P bills
      → All Q bills
  All-keyed key P Q [] fresh f h = tt
  All-keyed key P Q (r ∷ rs) fresh f h =
      (f r (ground arith) h.0, All-keyed key P Q rs (ground arith) f h.1)

-- An entry of another kind, or for another bill, is not counted; one of this kind and bill is.
pub count_other :
    (kind : BillEventKind) (bill : String) (es : List BillEvent) (e : BillEvent)
    → (e.bill_id == bill) ≡ false
    → count_events kind bill (es ++ e ∷ []) ≡ count_events kind bill es
count_other kind bill es e h = ground (arith, count_events-last kind bill es e)

pub count_kind :
    (kind other : BillEventKind) (bill : String) (es : List BillEvent) (e : BillEvent)
    → e.kind ≡ other
    → is_kind other kind ≡ false
    → count_events kind bill (es ++ e ∷ []) ≡ count_events kind bill es
count_kind kind other bill es e k h = rw count_events-last (rw k (rw h refl))

pub count_this :
    (kind : BillEventKind) (bill : String) (es : List BillEvent) (e : BillEvent)
    → e.kind ≡ kind
    → is_kind kind kind ≡ true
    → (e.bill_id == bill) ≡ true
    → count_events kind bill (es ++ e ∷ []) ≡ suc (count_events kind bill es)
count_this kind bill es e k h b = rw count_events-last (rw k (rw (h, b) refl))

-- Texts that differ one way round differ the other way round.
pub flip_ne : (s t u : String) → t ≡ u → (s == u) ≡ false → (t == s) ≡ false
flip_ne s t u e h = ground (arith, eq_iff s u, eq_iff t s)

module _ {D : Type 0} where
  -- A key that a longer table lacks is lacked by the table, and is not the new row's.
  fresh_key :
      (k key : String) (bills : List (BillRow D)) (row : BillRow D)
      → row.id ≡ key
      → has_bill k (bills ++ row ∷ []) ≡ false
      → (has_bill k bills ≡ false) × ((k == key) ≡ false)
  fresh_key k key bills row e h =
      ground (arith, has_bill-append k bills (row ∷ []), eq_iff row.id k, eq_iff k key)

module _ {D : Type 0} {d : Decimal D} (pg : Postgres D d) where
  pub Opened-IsAudited :
      (bill : Bill D) (old new : Db D) → Opened pg bill old new → IsAudited old → IsAudited new
  Opened-IsAudited bill old new o l =
      let row = record (new_bill_row d bill) { id = o.key } in
      let same : (o.entry.bill_id == o.key) ≡ true = rw o.entry_bill (eq_refl o.key) in
      let other =
        λ (k : String) (h : (k == o.key) ≡ false). flip_ne k o.entry.bill_id o.key o.entry_bill h in
      let absent = λ (k : String) (h : has_bill k (old.bills ++ row ∷ []) ≡ false).
        fresh_key k o.key old.bills row refl h in
      subst IsAudited (sym o.result) (record {
        recorded =
            All-append (IsRecorded old.items (old.events ++ o.entry ∷ [])) old.bills (row ∷ [])
              (All-keyed o.key (IsRecorded old.items old.events) _ old.bills o.fresh
                (λ r miss p. (
                  count_other opened r.id old.events o.entry (other r.id miss) ∙ p.0,
                  count_other item_added r.id old.events o.entry (other r.id miss) ∙ p.1,
                ))
                l.recorded)
              (
                (
                  count_this opened o.key old.events o.entry o.entry_kind refl same
                      ∙ ap suc (l.no_entries o.key o.fresh),
                  count_kind item_added opened o.key old.events o.entry o.entry_kind refl
                      ∙ l.no_additions o.key o.fresh
                      ∙ sym (l.no_items o.key o.fresh),
                ),
                tt,
              );
        no_entries = λ k h.
            let (u, v) = absent k h in
            count_other opened k old.events o.entry (other k v) ∙ l.no_entries k u;
        no_additions = λ k h.
            let (u, v) = absent k h in
            count_other item_added k old.events o.entry (other k v) ∙ l.no_additions k u;
        no_items = λ k h. l.no_items k (absent k h).0;
      })
