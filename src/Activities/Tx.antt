-- ===== src/Activities/Tx.antt =====
-- `inTx` as a rule: a property of its outcome, from the attempt that never begins and the one that
-- runs to its end.
use redesigned_disco.Prelude.{ℕ, ◌≡◌, Bool, true, false, if◌then◌else◌, arith}
use redesigned_disco.Errs.{Result, ok, err}
use redesigned_disco.Store.{DbError, connection, no_rows}
use redesigned_disco.Activities.{Conn, World, Body, statement, end_tx, in_tx}

module _ {D : Type 0} (M : Result DbError (Unit {0}) × World D → Type 0) where
  if-cases :
      (b : Bool) (x y : Result DbError (Unit {0}) × World D) → M x → M y → M (if b then x else y)
  if-cases true x y h k = h
  if-cases false x y h k = k

  pub in_tx-cases :
      (c : Conn) (fn : Body D) (w : World D)
      → M (end_tx c.commit w (fn w.db))
      → M (err connection, w)
      → M (in_tx c fn w)
  unfolding in_tx
  in_tx-cases c fn w h k = if-cases c.begin_ok _ _ h k

-- A statement that gives rows got through, and so did one whose key is taken.
pub statement-ok :
    {A : Type 0} (c : Conn) (n : ℕ) (r : Result DbError A) (a : A)
    → statement c n r ≡ ok a
    → r ≡ ok a
statement-ok c n r a h = ground arith

pub statement-err :
    {A : Type 0} (c : Conn) (n : ℕ) (r : Result DbError A)
    → statement c n r ≡ err no_rows
    → r ≡ err no_rows
statement-err c n r h = ground arith
