-- ===== src/Activities/AtMostOnce.antt =====
-- A line item is stored at most once, whatever happens to the attempts at `AppendLineItemActivity`.
use mathlib.Core.Path.{subst}
use redesigned_disco.Prelude.{List, ◌≡◌, refl, sym, ◌∙◌, ◌⊎◌, inl, inr, arith}
use redesigned_disco.Errs.{Result, ok, err}
use redesigned_disco.Money.{Decimal, Postgres}
use redesigned_disco.Models.{AppendLineItemInput}
use redesigned_disco.Store.{Db, DbError}
use redesigned_disco.Activities.{
  Conn, World, committed, refused, reply_lost, append_line_item_activity, end_tx, Metric,
  CommitOutcome, new_item_row, append_line_item_body,
}
use redesigned_disco.Activities.Tx.{in_tx-cases}
use redesigned_disco.Activities.Retry.{Attempt, Kept, execute_activity, execute_activity-Kept}
use redesigned_disco.Store.Tables.{has_item-last}
use redesigned_disco.Activities.Append.{Appended, Taken, Outcome, body_case}

module _ {D : Type 0} {d : Decimal D} (pg : Postgres D d) (i : AppendLineItemInput D) where
  pub Appended-Taken : (old new : Db D) → Appended pg i old new → Taken pg i new
  Appended-Taken old new h = (
    h.key,
    h.key_read,
    rw h.result (
        has_item-last old.items
          (record (new_item_row i) { id = h.key; bill_id = h.bill; amount = h.amount })),
  )

  -- An item whose key is taken is not appended again.
  pub Taken-Appended : (old new : Db D) → Taken pg i old → Appended pg i old new → ⊥
  Taken-Appended old new (key, read, there) h = ground arith

  -- The item has been stored once since `old`, or not at all.
  abbrev pub AtMostOnce : Db D → Db D → Type 0
  AtMostOnce old new = (new ≡ old) ⊎ Appended pg i old new

  abbrev P : Db D → World D → Type 0
  P old w = AtMostOnce old w.db

  abbrev Q : World D → Type 0
  Q w = Taken pg i w.db

  outcome-AtMostOnce :
      (old mid new : Db D)
      → AtMostOnce old mid
      → (new ≡ mid) × Taken pg i mid ⊎ Appended pg i mid new
      → AtMostOnce old new × Taken pg i new
  outcome-AtMostOnce old mid new (inl e) (inl (same, taken)) =
      (inl (same ∙ e), subst (Taken pg i) (sym same) taken)
  outcome-AtMostOnce old mid new (inl e) (inr app) =
      (inr (subst (λ x. Appended pg i x new) e app), Appended-Taken mid new app)
  outcome-AtMostOnce old mid new (inr app) (inl (same, taken)) =
      (inr (subst (Appended pg i old) (sym same) app), subst (Taken pg i) (sym same) taken)
  outcome-AtMostOnce old mid new (inr app) (inr again) =
      absurd (Taken-Appended mid new (Appended-Taken old mid app) again)

  end_tx-Kept :
      (old : Db D) (o : CommitOutcome) (w : World D) (r : Result DbError (Db D)) (m : List Metric)
      → P old w
      → Outcome pg i w.db r
      → Kept (P old) Q (end_tx o w (r, m))
  end_tx-Kept old o w (err e) m p h = p
  end_tx-Kept old committed w (ok db) m p h = outcome-AtMostOnce old w.db db p h
  end_tx-Kept old refused w (ok db) m p h = p
  end_tx-Kept old reply_lost w (ok db) m p h = (outcome-AtMostOnce old w.db db p h).0

  attempt-Kept :
      (old : Db D) (c : Conn) (w : World D)
      → P old w
      → Kept (P old) Q (append_line_item_activity pg c i w)
  unfolding append_line_item_activity
  attempt-Kept old c w p =
      let body = append_line_item_body pg c i in
      in_tx-cases (Kept (P old) Q) c body w
        (end_tx-Kept old c.commit w (body w.db).0 (body w.db).1 p (body_case pg c i w.db)) p

  -- Whatever happens to the attempts of one execution (lost connections, refused commits, commits
  -- and results that nobody hears of), the tables are as before or hold the item exactly once, with
  -- its bill's total raised and one audit entry; and where success is reported, the item is there.
  pub execute_append-AtMostOnce :
      (attempts : List Attempt) (w : World D)
      → Kept
          (λ v. AtMostOnce w.db v.db)
          (λ v. Taken pg i v.db)
          (execute_activity (λ c. append_line_item_activity pg c i) attempts w)
  execute_append-AtMostOnce attempts w =
      execute_activity-Kept (P w.db) Q (λ c. append_line_item_activity pg c i) (attempt-Kept w.db)
        attempts w (inl refl)
