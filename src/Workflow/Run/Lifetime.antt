-- ===== src/Workflow/Run/Lifetime.antt =====
-- The start of the first run of a bill, on tables that hold no item of it.
use mathlib.Core.Path.{subst}
use redesigned_disco.Prelude.{
  String, false, ◌≡◌, refl, sym, ◌∙◌, ap, inl, inr, ◌⊎◌, none, some, List, [], ◌∷◌, ◌==◌, All,
}
use redesigned_disco.Errs.{Result, ok, err}
use redesigned_disco.Money.{Decimal, Postgres}
use redesigned_disco.Models.{Time, Bill, BillWorkflowInput, open_bill}
use redesigned_disco.Store.{Db, DbError, ItemRow}
use redesigned_disco.Activities.{
  Conn, World, Metric, CommitOutcome, committed, refused, reply_lost, end_tx, create_bill_body,
  create_bill_activity,
}
use redesigned_disco.Activities.Create.{Opened, BillTaken, CreateOutcome, create_body_case}
use redesigned_disco.Activities.Ledger.{item_sum}
use redesigned_disco.Activities.Tx.{in_tx-cases}
use redesigned_disco.Activities.Retry.{
  Attempt, Kept, Kept-first, execute_activity, execute_activity-Kept,
}
use redesigned_disco.Workflow.{initial_bill, initial_seen, persist_on_start}
use redesigned_disco.Workflow.Contract.{new_account}
use redesigned_disco.Workflow.Run.Agreement.{Agrees}
use redesigned_disco.Workflow.Run.Stacked.{account_of, stacked}
use redesigned_disco.Workflow.Run.Mirrors.{Mirrors}
use redesigned_disco.Workflow.Run.{Run, start_run, started}

module _ {D : Type 0} (key : String) where
  -- No stored line item belongs to the bill.
  abbrev pub HasNone : List (ItemRow D) → Type 0
  HasNone rows = All (λ x. (x.bill_id == key) ≡ false) rows

  stacked_none : (rows : List (ItemRow D)) → HasNone rows → stacked key [] rows ≡ []
  stacked_none [] h = refl
  stacked_none (x ∷ rows) h = rw h.0 (stacked_none rows h.1)

  item_sum_none :
      (d : Decimal D) (rows : List (ItemRow D)) → HasNone rows → item_sum d key rows ≡ d.nil
  item_sum_none d [] h = refl
  item_sum_none d (x ∷ rows) h = rw h.0 (item_sum_none d rows h.1)

module _ {D : Type 0} {d : Decimal D} (pg : Postgres D d) (bill : Bill D)
    (items : List (ItemRow D)) where
  abbrev Holds : World D → Type 0
  Holds w = w.db.items ≡ items

  outcome-Holds :
      (old new : Db D)
      → old.items ≡ items
      → (new ≡ old) × BillTaken pg bill old ⊎ Opened pg bill old new
      → new.items ≡ items
  outcome-Holds old new p (inl (same, taken)) = ap (λ (x : Db D). x.items) same ∙ p
  outcome-Holds old new p (inr o) = ap (λ (x : Db D). x.items) o.result ∙ p

  create_end-Kept :
      (o : CommitOutcome) (w : World D) (r : Result DbError (Db D)) (m : List Metric)
      → Holds w
      → CreateOutcome pg bill w.db r
      → Kept Holds Holds (end_tx o w (r, m))
  create_end-Kept o w (err e) m p h = p
  create_end-Kept committed w (ok new) m p h = let q = outcome-Holds w.db new p h in (q, q)
  create_end-Kept refused w (ok new) m p h = p
  create_end-Kept reply_lost w (ok new) m p h = outcome-Holds w.db new p h

  create_attempt-Kept :
      (c : Conn) (w : World D) → Holds w → Kept Holds Holds (create_bill_activity pg c bill w)
  unfolding create_bill_activity
  create_attempt-Kept c w p =
      let body = create_bill_body pg c bill in
      in_tx-cases (Kept Holds Holds) c body w
        (create_end-Kept c.commit w (body w.db).0 (body w.db).1 p (create_body_case pg c bill w.db))
        p

  execute_create-Holds :
      (attempts : List Attempt) (w : World D)
      → Holds w
      → Holds (execute_activity (λ c. create_bill_activity pg c bill) attempts w).1
  execute_create-Holds attempts w p =
      Kept-first Holds Holds (execute_activity (λ c. create_bill_activity pg c bill) attempts w) (
        execute_activity-Kept Holds Holds (λ c. create_bill_activity pg c bill) create_attempt-Kept
          attempts w p)

module _ {D : Type 0} {d : Decimal D} (pg : Postgres D d) (key : String) where
  -- A run at its start, before any item.
  pub record IsNew (r : Run D) : Type 0 where
    pub account : account_of key r ≡ new_account
    pub agrees : Agrees pg key r
    pub mirrors : Mirrors pg key r

  started-IsNew :
      (now later : Time) (input : BillWorkflowInput D) (out : Result DbError (Unit {0}) × World D)
      → input.snapshot ≡ none
      → input.seen_item_ids ≡ []
      → pg.uuid input.bill_id ≡ some key
      → HasNone key out.1.db.items
      → IsNew (started pg later input (initial_bill d now input) out)
  unfolding initial_bill initial_seen
  started-IsNew now later input (res, w) first unseen read h =
      let none_stacked = stacked_none key w.db.items h in
      rw first (record {
        account = ap (λ es. record { entries = es; status = open_bill }) none_stacked;
        agrees = record { read = read; total = sym (item_sum_none key d w.db.items h); own = tt };
        mirrors = record {
          total = rw none_stacked refl;
          count = rw none_stacked refl;
          seen = rw (unseen, none_stacked) (record { entered = λ id k r c. cc; heard = λ k c. cc });
          quiet = λ closed. refl;
        };
      })

  persist_on_start_first :
      (attempts : List Attempt) (input : BillWorkflowInput D) (bill : Bill D) (w : World D)
      → input.snapshot ≡ none
      → persist_on_start pg attempts input bill w
        ≡ execute_activity (λ c. create_bill_activity pg c bill) attempts w
  unfolding persist_on_start
  persist_on_start_first attempts input bill w first = rw first refl

  pub start_run-IsNew :
      (now later : Time) (attempts : List Attempt) (input : BillWorkflowInput D) (w : World D)
      → input.snapshot ≡ none
      → input.seen_item_ids ≡ []
      → pg.uuid input.bill_id ≡ some key
      → HasNone key w.db.items
      → IsNew (start_run pg now later attempts input w)
  unfolding start_run
  start_run-IsNew now later attempts input w first unseen read h =
      let bill = initial_bill d now input in
      let out = execute_activity (λ c. create_bill_activity pg c bill) attempts w in
      let same : out.1.db.items ≡ w.db.items =
        execute_create-Holds pg bill w.db.items attempts w refl in
      subst (λ o. IsNew (started pg later input bill o))
        (sym (persist_on_start_first attempts input bill w first))
        (started-IsNew now later input out first unseen read (subst (HasNone key) (sym same) h))
