-- ===== src/Activities/Closing.antt =====
-- What `CloseBillActivity` leaves in the tables where it reports success, and what it writes where an
-- attempt is repeated.
use mathlib.Core.Path.{subst}
use redesigned_disco.Prelude.{
  if◌then◌else◌, suc, ◌<◌, String, ◌≡◌, refl, sym, ◌∙◌, ap, true, false, Bool, Option, none, some,
  List, [], ◌∷◌, ◌++◌, arith, ◌==◌, All, eq_refl,
}
use redesigned_disco.Errs.{Result, ok, err}
use redesigned_disco.Money.{Decimal, Postgres}
use redesigned_disco.Models.{CloseBillActivityInput, BillEvent, closed, closed_bill, closed_payload}
use redesigned_disco.Store.{BillRow, Db, DbError, has_bill}
use redesigned_disco.Store.Statements.{closed_row}
use redesigned_disco.Store.Tables.{update_bill-All}
use redesigned_disco.Activities.{
  Conn, World, Metric, CommitOutcome, committed, refused, reply_lost, end_tx, nullable_close_reason,
  close_bill_body, close_bill_activity,
}
use redesigned_disco.Activities.Tx.{in_tx-cases}
use redesigned_disco.Activities.Close.{Closed, close_row, CloseOutcome, close_body_case}
use redesigned_disco.Activities.Audit.{count_events, count_this}
use redesigned_disco.Activities.Retry.{Attempt, Kept, execute_activity, execute_activity-Kept}

module _ {D : Type 0} {d : Decimal D} (pg : Postgres D d) (i : CloseBillActivityInput D) where
  -- The row as the activity's input says it is to be.
  pub record IsClosedRow (r : BillRow D) : Type 0 where
    pub status : r.status ≡ closed_bill
    pub total : pg.numeric i.total_amount ≡ some r.total_amount
    pub at : r.closed_at ≡ some i.closed_at
    pub reason : r.close_reason ≡ nullable_close_reason i.close_reason

  -- The log's latest entry is that of the close.
  pub record IsLogged (key : String) (events : List BillEvent) : Type 0 where
    pub before : List BillEvent
    pub entry : BillEvent
    pub latest : events ≡ before ++ entry ∷ []
    pub kind : entry.kind ≡ closed
    pub of_bill : entry.bill_id ≡ key
    pub actor : entry.actor ≡ (if i.actor == "" then "system" else i.actor)
    pub payload : entry.payload ≡ closed_payload (d.to_text i.total_amount) i.close_reason

  -- The bill is there and closed, and the log says so.
  pub record IsClosed (db : Db D) : Type 0 where
    pub key : String
    pub key_read : pg.uuid i.bill_id ≡ some key
    pub there : has_bill key db.bills ≡ true
    pub rows : All (λ r. (r.id == key) ≡ true → IsClosedRow r) db.bills
    pub logged : 0 < count_events closed key db.events
    pub latest : IsLogged key db.events

  any_row : (rows : List (BillRow D)) → All (λ r. Unit {0}) rows
  any_row [] = tt
  any_row (r ∷ rs) = (tt, any_row rs)

  row_at :
      (r r' : BillRow D) (t : Option D)
      → pg.numeric i.total_amount ≡ t
      → closed_row r i.closed_at (nullable_close_reason i.close_reason) t ≡ some r'
      → IsClosedRow r'
  row_at r r' none e h = cc
  row_at r r' (some t) e h = record {
    status = ground arith;
    total = ground arith;
    at = ground arith;
    reason = ground arith;
  }

  not_both : {b : Bool} → b ≡ true → b ≡ false → ⊥
  not_both h k = cc

  entry_counted :
      (old new : Db D) (c : Closed pg i old new)
      → count_events closed c.bill (old.events ++ c.entry ∷ [])
        ≡ suc (count_events closed c.bill old.events)
  entry_counted old new c =
      count_this closed c.bill old.events c.entry c.entry_kind refl
        (rw c.entry_bill (eq_refl c.bill))

  Closed-IsClosed : (old new : Db D) → Closed pg i old new → IsClosed new
  Closed-IsClosed old new c = subst IsClosed (sym c.result) (record {
    key = c.bill;
    key_read = c.bill_read;
    there = c.known;
    rows =
        update_bill-All (close_row pg i) c.bill (λ r. Unit {0}) _
          (λ r r' hit e p k. row_at r r' _ refl e) (λ r miss p k. absurd (not_both k miss))
          old.bills c.rows c.rows_read (any_row old.bills);
    logged = (let n = entry_counted old new c in omega arith);
    latest = record {
      before = old.events;
      entry = c.entry;
      latest = refl;
      kind = c.entry_kind;
      of_bill = c.entry_bill;
      actor = c.entry_actor;
      payload = c.entry_payload;
    };
  })

  same_items :
      (old mid new : Db D) → mid.items ≡ old.items → Closed pg i mid new → new.items ≡ old.items
  same_items old mid new p c = ap (λ (x : Db D). x.items) c.result ∙ p

  close_end-Kept :
      (old : Db D) (o : CommitOutcome) (w : World D) (r : Result DbError (Db D)) (m : List Metric)
      → w.db.items ≡ old.items
      → CloseOutcome pg i w.db r
      → Kept (λ v. v.db.items ≡ old.items) (λ v. IsClosed v.db) (end_tx o w (r, m))
  close_end-Kept old o w (err e) m p h = p
  close_end-Kept old committed w (ok db) m p h =
      (same_items old w.db db p h, Closed-IsClosed w.db db h)
  close_end-Kept old refused w (ok db) m p h = p
  close_end-Kept old reply_lost w (ok db) m p h = same_items old w.db db p h

  close_attempt-Kept :
      (old : Db D) (c : Conn) (w : World D)
      → w.db.items ≡ old.items
      → Kept (λ v. v.db.items ≡ old.items) (λ v. IsClosed v.db) (close_bill_activity pg c i w)
  unfolding close_bill_activity
  close_attempt-Kept old c w p =
      let body = close_bill_body pg c i in
      in_tx-cases (Kept (λ v. v.db.items ≡ old.items) (λ v. IsClosed v.db)) c body w
        (close_end-Kept old c.commit w (body w.db).0 (body w.db).1 p (close_body_case pg c i w.db))
        p

  -- Whatever happens to the attempts at one execution of CloseBillActivity, the line items stay as
  -- they are; and where success is reported, the bill's row is there and closed, with the total (as
  -- its column holds it), the instant and the reason of the activity's input, and the latest entry of
  -- the log is that of the close, with the actor (the system, if none is
  -- named), the total and the reason of the input.
  pub execute_close-IsClosed :
      (attempts : List Attempt) (w : World D)
      → Kept
          (λ v. v.db.items ≡ w.db.items)
          (λ v. IsClosed v.db)
          (execute_activity (λ c. close_bill_activity pg c i) attempts w)
  execute_close-IsClosed attempts w =
      execute_activity-Kept (λ v. v.db.items ≡ w.db.items) (λ v. IsClosed v.db)
        (λ c. close_bill_activity pg c i) (close_attempt-Kept w.db) attempts w refl

  abbrev OnSuccess : Db D → Result DbError (Unit {0}) × World D → Type 0
  OnSuccess old (ok u, v) = Closed pg i old v.db
  OnSuccess old (err e, v) = Unit

  end-OnSuccess :
      (o : CommitOutcome) (w : World D) (r : Result DbError (Db D)) (m : List Metric)
      → CloseOutcome pg i w.db r
      → OnSuccess w.db (end_tx o w (r, m))
  end-OnSuccess o w (err e) m h = tt
  end-OnSuccess committed w (ok db) m h = h
  end-OnSuccess refused w (ok db) m h = tt
  end-OnSuccess reply_lost w (ok db) m h = tt

  attempt-OnSuccess : (c : Conn) (w : World D) → OnSuccess w.db (close_bill_activity pg c i w)
  unfolding close_bill_activity
  attempt-OnSuccess c w =
      let body = close_bill_body pg c i in
      in_tx-cases (OnSuccess w.db) c body w
        (end-OnSuccess c.commit w (body w.db).0 (body w.db).1 (close_body_case pg c i w.db)) tt

  success-Closed :
      (old : Db D) (out : Result DbError (Unit {0}) × World D)
      → OnSuccess old out
      → out.0 ≡ ok tt
      → Closed pg i old out.1.db
  success-Closed old (ok u, v) h e = h
  success-Closed old (err x, v) h e = cc

  counted_once :
      (key : String) (old new : Db D)
      → pg.uuid i.bill_id ≡ some key
      → Closed pg i old new
      → count_events closed key new.events ≡ suc (count_events closed key old.events)
  counted_once key old new read c =
      let same : c.bill ≡ key = ground (arith, c.bill_read) in
      subst (λ k. count_events closed k new.events ≡ suc (count_events closed k old.events)) same
        (ap (λ (x : Db D). count_events closed c.bill x.events) c.result ∙ entry_counted old new c)

  -- Two attempts: the result of the first never reaches Temporal, that of the second does.
  abbrev pub unheard_then : Conn → Conn → List Attempt
  unheard_then c₁ c₂ =
      record { conn = c₁; delivered = false } ∷ record { conn = c₂; delivered = true } ∷ []

  -- An attempt of CloseBillActivity that commits but whose result never reaches Temporal, and the attempt that follows:
  -- where both close the bill, the log gets two entries of the one close.
  pub close_retry-logs_twice :
      (c₁ c₂ : Conn) (w : World D) (key : String)
      → pg.uuid i.bill_id ≡ some key
      → (close_bill_activity pg c₁ i w).0 ≡ ok tt
      → (close_bill_activity pg c₂ i (close_bill_activity pg c₁ i w).1).0 ≡ ok tt
      → count_events closed key
          (execute_activity (λ c. close_bill_activity pg c i) (unheard_then c₁ c₂) w).1.db.events
        ≡ suc (suc (count_events closed key w.db.events))
  unfolding execute_activity
  close_retry-logs_twice c₁ c₂ w key read first second =
      let mid = (close_bill_activity pg c₁ i w).1 in
      let last = (close_bill_activity pg c₂ i mid).1 in
      let one =
        counted_once key w.db mid.db read (success-Closed w.db _ (attempt-OnSuccess c₁ w) first) in
      let two =
        counted_once key mid.db last.db read
          (success-Closed mid.db _ (attempt-OnSuccess c₂ mid) second) in
      rw second (two ∙ ap suc one)
