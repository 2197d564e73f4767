-- ===== src/Activities/LedgerKept.antt =====
-- The running totals through every history of activities.

use mathlib.Core.Path.{subst}
use redesigned_disco.Prelude.{
  ◌≡◌, refl, sym, ◌∙◌, Option, none, some, List, [], ◌∷◌, inl, arith, All-append,
}
use redesigned_disco.Money.{Decimal, Postgres}
use redesigned_disco.Models.{
  Bill, CloseBillActivityInput, open_bill, closed_bill, CloseReason, Time,
}
use redesigned_disco.Store.{BillRow, Db}
use redesigned_disco.Store.Statements.{closed_row}
use redesigned_disco.Store.Tables.{has_bill-append, update_bill-All, has_bill-update_bill}
use redesigned_disco.Activities.{World, new_bill_row}
use redesigned_disco.Activities.Create.{Opened}
use redesigned_disco.Activities.Close.{Closed, close_row}
use redesigned_disco.Activities.Ledger.{IsLedger, IsBalanced, Appended-IsLedger}
use redesigned_disco.Activities.Calls.{Call, perform_all, perform_all-keeps}

open≢closed : open_bill ≡ closed_bill → ⊥
open≢closed h = cc

module _ {D : Type 0} {d : Decimal D} (pg : Postgres D d) where
  Opened-IsLedger :
      (bill : Bill D) (old new : Db D) → Opened pg bill old new → IsLedger pg old → IsLedger pg new
  Opened-IsLedger bill old new o l = subst (IsLedger pg) (sym o.result) (record {
    balanced =
        All-append (IsBalanced pg old.items) old.bills _ l.balanced
          ((λ op. (pg.numeric-nil, inl refl, sym (l.referenced o.key o.fresh))), tt);
    referenced = λ k h. l.referenced k (
        ground
          (arith, has_bill-append k old.bills (record (new_bill_row d bill) { id = o.key } ∷ [])));
  })

  closed_row_cases :
      (r r' : BillRow D) (at : Time) (reason : Option CloseReason) (t : Option D)
      → closed_row r at reason t ≡ some r'
      → (r'.id ≡ r.id) × (r'.status ≡ closed_bill)
  closed_row_cases r r' at reason none h = cc
  closed_row_cases r r' at reason (some t) h = ground arith

  Closed-IsLedger :
      (i : CloseBillActivityInput D) (old new : Db D)
      → Closed pg i old new
      → IsLedger pg old
      → IsLedger pg new
  Closed-IsLedger i old new c l = subst (IsLedger pg) (sym c.result) (record {
    balanced =
        update_bill-All (close_row pg i) c.bill (IsBalanced pg old.items) (IsBalanced pg old.items)
          (λ r r' hit h p op. absurd (open≢closed (sym op ∙ (closed_row_cases r r' _ _ _ h).1)))
          (λ r miss p. p) old.bills c.rows c.rows_read l.balanced;
    referenced = λ k h. l.referenced k (
        sym (
          has_bill-update_bill (close_row pg i) c.bill (λ r r' e. (closed_row_cases r r' _ _ _ e).0)
            k old.bills c.rows c.rows_read)
        ∙ h);
  })

  -- After any history of activities, in any order and under any failures of their connections, an
  -- open bill's total is not negative, fits its column and is the sum of the amounts that are stored
  -- for it, and no amount is stored for a bill that is not there, if that was so before.
  pub perform_all-IsLedger :
      (calls : List (Call D)) (w : World D)
      → IsLedger pg w.db
      → IsLedger pg (perform_all pg calls w).db
  perform_all-IsLedger calls w h =
      perform_all-keeps pg (IsLedger pg) Opened-IsLedger
        (λ i old new app. Appended-IsLedger pg i old new app) Closed-IsLedger calls w h
