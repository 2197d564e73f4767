-- ===== src/Workflow/Run/Stacked.antt =====
-- The account of a bill that the tables of a run hold.

use redesigned_disco.Money.{Decimal, Postgres}
use redesigned_disco.Prelude.{
  some, true, Bool-cases, inl, inr, String, false, ◌≡◌, List, [], ◌∷◌, ◌++◌, arith, contains,
  if◌then◌else◌, ◌==◌, eq_iff,
}
use redesigned_disco.Store.{ItemRow, has_item}
use redesigned_disco.Workflow.Contract.{Entry, Account, ids}
use redesigned_disco.Workflow.Run.{Run}

module _ {D : Type 0} where
  abbrev pub entry_of : ItemRow D → Entry D
  entry_of row = record { id = row.id; amount = row.amount }

  -- The line items of a bill in front of `acc`, the last row first.
  abbrev pub stacked : String → List (Entry D) → List (ItemRow D) → List (Entry D)
  stacked key acc [] = acc
  stacked key acc (row ∷ rows) =
      stacked key (if row.bill_id == key then entry_of row ∷ acc else acc) rows

  pub stacked-last :
      (key : String) (acc : List (Entry D)) (rows : List (ItemRow D)) (row : ItemRow D)
      → row.bill_id ≡ key
      → stacked key acc (rows ++ row ∷ []) ≡ entry_of row ∷ stacked key acc rows
  stacked-last key acc [] row e = ground (arith, eq_iff row.bill_id key)
  stacked-last key acc (x ∷ rows) row e =
      stacked-last key (if x.bill_id == key then entry_of x ∷ acc else acc) rows row e

  pub stacked-free :
      (key k : String) (acc : List (Entry D)) (rows : List (ItemRow D))
      → has_item k rows ≡ false
      → contains (ids acc) k ≡ false
      → contains (ids (stacked key acc rows)) k ≡ false
  stacked-free key k acc [] h n = n
  stacked-free key k acc (x ∷ rows) h n =
      stacked-free key k (if x.bill_id == key then entry_of x ∷ acc else acc) rows (ground arith)
        (ground arith)

  -- The account that the tables and the status of the run's bill make.
  abbrev pub account_of : String → Run D → Account D
  account_of key r = record { entries = stacked key [] r.world.db.items; status = r.bill.status }

-- The ids that a run has seen are those of the entries, as the uuid columns read them.
pub record SeenAs {D : Type 0} {d : Decimal D} (pg : Postgres D d) (seen : List String)
    (es : List (Entry D)) : Type 0 where
  pub entered :
      (id k : String) → pg.uuid id ≡ some k → contains seen id ≡ true → contains (ids es) k ≡ true
  pub heard :
      (k : String)
      → contains (ids es) k ≡ true
      → (id : String) × (contains seen id ≡ true) × (pg.uuid id ≡ some k)

module _ {D : Type 0} {d : Decimal D} (pg : Postgres D d) where
  pub SeenAs-next :
      (seen : List String) (es : List (Entry D)) (x : String) (e : Entry D)
      → pg.uuid x ≡ some e.id
      → SeenAs pg seen es
      → SeenAs pg (x ∷ seen) (e ∷ es)
  SeenAs-next seen es x e read h = record {
    entered = λ id k r c. elim (Bool-cases (x == id)) [
      | inl same ↦ ground (arith, same, r, read, eq_iff x id, eq_iff e.id k)
      | inr other ↦ ground (arith, h.entered id k r, other, c)
    ];
    heard = λ k c. elim (Bool-cases (e.id == k)) [
      | inl same ↦ (x, ground (arith, eq_iff x x), ground (arith, same, read, eq_iff e.id k))
      | inr other ↦
          let (id, seen_id, reads) = h.heard k (ground (arith, other, c)) in
          (id, ground (arith, seen_id), reads)
    ];
  }
