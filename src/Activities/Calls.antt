-- ===== src/Activities/Calls.antt =====
-- The three activities as one type of calls, and histories of calls in any order, each under any
-- conduct of its connection. An invariant of the tables is proved by its three cases.
use mathlib.Core.Path.{subst}
use redesigned_disco.Prelude.{List, [], ◌∷◌, inl, inr, sym}
use redesigned_disco.Errs.{Result, ok, err}
use redesigned_disco.Money.{Decimal, Postgres}
use redesigned_disco.Models.{Bill, AppendLineItemInput, CloseBillActivityInput}
use redesigned_disco.Store.{Db, DbError}
use redesigned_disco.Activities.Tx.{in_tx-cases}
use redesigned_disco.Activities.Append.{Appended, Outcome, body_case}
use redesigned_disco.Activities.Create.{Opened, CreateOutcome, create_body_case}
use redesigned_disco.Activities.Close.{Closed, CloseOutcome, close_body_case}
use redesigned_disco.Activities.{
  Conn, World, Metric, CommitOutcome, committed, refused, reply_lost, end_tx, create_bill_body,
  create_bill_activity, append_line_item_body, append_line_item_activity, close_bill_body,
  close_bill_activity,
}

pub data Call (D : Type 0) : Type 0 where
  create : Conn → Bill D → Call D
  append : Conn → AppendLineItemInput D → Call D
  close : Conn → CloseBillActivityInput D → Call D

module _ {D : Type 0} {d : Decimal D} (pg : Postgres D d) where
  unfoldable pub perform : Call D → World D → Result DbError (Unit {0}) × World D
  perform (create c bill) w = create_bill_activity pg c bill w
  perform (append c i) w = append_line_item_activity pg c i w
  perform (close c i) w = close_bill_activity pg c i w

  unfoldable pub perform_all : List (Call D) → World D → World D
  perform_all [] w = w
  perform_all (call ∷ rest) w = perform_all rest (perform call w).1

  module _ (I : Db D → Type 0)
      (on_create : (bill : Bill D) (old new : Db D) → Opened pg bill old new → I old → I new)
      (on_append : (i : AppendLineItemInput D) (old new : Db D)
        → Appended pg i old new
        → I old
        → I new)
      (on_close : (i : CloseBillActivityInput D) (old new : Db D)
        → Closed pg i old new
        → I old
        → I new) where
    abbrev After : Result DbError (Db D) → Type 0
    After (ok new) = I new
    After (err e) = Unit

    end_tx-I :
        (o : CommitOutcome) (w : World D) (r : Result DbError (Db D)) (m : List Metric)
        → I w.db
        → After r
        → I (end_tx o w (r, m)).1.db
    end_tx-I o w (err e) m h k = h
    end_tx-I committed w (ok new) m h k = k
    end_tx-I refused w (ok new) m h k = h
    end_tx-I reply_lost w (ok new) m h k = k

    After-create :
        (bill : Bill D) (old : Db D) (r : Result DbError (Db D))
        → I old
        → CreateOutcome pg bill old r
        → After r
    After-create bill old (err e) h k = tt
    After-create bill old (ok new) h (inl (same, _)) = subst I (sym same) h
    After-create bill old (ok new) h (inr o) = on_create bill old new o h

    After-append :
        (i : AppendLineItemInput D) (old : Db D) (r : Result DbError (Db D))
        → I old
        → Outcome pg i old r
        → After r
    After-append i old (err e) h k = tt
    After-append i old (ok new) h (inl (same, _)) = subst I (sym same) h
    After-append i old (ok new) h (inr o) = on_append i old new o h

    After-close_call :
        (i : CloseBillActivityInput D) (old : Db D) (r : Result DbError (Db D))
        → I old
        → CloseOutcome pg i old r
        → After r
    After-close_call i old (err e) h k = tt
    After-close_call i old (ok new) h k = on_close i old new k h

    abbrev Holds : Result DbError (Unit {0}) × World D → Type 0
    Holds (r, w) = I w.db

    pub perform-keeps : (call : Call D) (w : World D) → I w.db → I (perform call w).1.db
    unfolding perform create_bill_activity append_line_item_activity close_bill_activity
    perform-keeps (create c bill) w h =
        let body = create_bill_body pg c bill in
        in_tx-cases Holds c body w
          (end_tx-I c.commit w (body w.db).0 (body w.db).1 h
            (After-create bill w.db (body w.db).0 h (create_body_case pg c bill w.db)))
          h
    perform-keeps (append c i) w h =
        let body = append_line_item_body pg c i in
        in_tx-cases Holds c body w
          (end_tx-I c.commit w (body w.db).0 (body w.db).1 h
            (After-append i w.db (body w.db).0 h (body_case pg c i w.db)))
          h
    perform-keeps (close c i) w h =
        let body = close_bill_body pg c i in
        in_tx-cases Holds c body w
          (end_tx-I c.commit w (body w.db).0 (body w.db).1 h
            (After-close_call i w.db (body w.db).0 h (close_body_case pg c i w.db)))
          h

    pub perform_all-keeps :
        (calls : List (Call D)) (w : World D) → I w.db → I (perform_all calls w).db
    unfolding perform_all
    perform_all-keeps [] w h = h
    perform_all-keeps (call ∷ rest) w h =
        perform_all-keeps rest (perform call w).1 (perform-keeps call w h)
