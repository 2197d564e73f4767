-- ===== src/Activities/Retry.antt =====
-- `workflow.ExecuteActivity` with the retry policy of `shortActivityOpts` (bill/workflow.go): the
-- attempts that Temporal makes, at most five, until one succeeds and is heard of. What happens to
-- each attempt is an argument.
use redesigned_disco.Prelude.{ℕ, Bool, true, false, List, [], ◌∷◌, take}
use redesigned_disco.Errs.{Result, ok, err}
use redesigned_disco.Store.{DbError, connection}
use redesigned_disco.Activities.{Conn, World}

-- `MaximumAttempts`
abbrev pub maximum_attempts : ℕ
maximum_attempts = 5

-- One attempt: its connection, and whether its result reaches Temporal (a worker may die after the
-- commit).
pub record Attempt : Type 0 where
  pub conn : Conn
  pub delivered : Bool

abbrev pub Activity : Type 0 → Type 0
Activity D = Conn → World D → Result DbError (Unit {0}) × World D

module _ {D : Type 0} where
  -- What an attempt came to, and the attempts after it.
  abbrev resume :
      Bool
      → Result DbError (Unit {0}) × World D
      → (World D → Result DbError (Unit {0}) × World D)
      → Result DbError (Unit {0}) × World D
  resume true (ok u, w) retry = (ok u, w)
  resume true (err e, w) retry = retry w
  resume false (r, w) retry = retry w

  pub run_attempts : Activity D → List Attempt → World D → Result DbError (Unit {0}) × World D
  run_attempts act [] w = (err connection, w)
  run_attempts act (a ∷ rest) w = resume a.delivered (act a.conn w) (run_attempts act rest)

  unfoldable pub execute_activity :
      Activity D → List Attempt → World D → Result DbError (Unit {0}) × World D
  unfolding run_attempts
  execute_activity act attempts w = run_attempts act (take maximum_attempts attempts) w

-- `P` holds afterwards, and `Q` too where success is reported.
abbrev pub Kept :
    {D : Type 0} → (P Q : World D → Type 0) → Result DbError (Unit {0}) × World D → Type 0
Kept P Q (ok _, w) = P w × Q w
Kept P Q (err _, w) = P w

module _ {D : Type 0} (P Q : World D → Type 0) where
  pub Kept-first : (out : Result DbError (Unit {0}) × World D) → Kept P Q out → P out.1
  Kept-first (ok u, w) k = k.0
  Kept-first (err e, w) k = k

  resume-Kept :
      (delivered : Bool) (out : Result DbError (Unit {0}) × World D)
      (retry : World D → Result DbError (Unit {0}) × World D)
      → Kept P Q out
      → ((w : World D) → P w → Kept P Q (retry w))
      → Kept P Q (resume delivered out retry)
  resume-Kept true (ok u, w) retry h k = h
  resume-Kept true (err e, w) retry h k = k w h
  resume-Kept false (ok u, w) retry h k = k w h.0
  resume-Kept false (err e, w) retry h k = k w h

  run_attempts-Kept :
      (act : Activity D)
      → ((c : Conn) (w : World D) → P w → Kept P Q (act c w))
      → (attempts : List Attempt) (w : World D) → P w
      → Kept P Q (run_attempts act attempts w)
  unfolding run_attempts
  run_attempts-Kept act step [] w p = p
  run_attempts-Kept act step (a ∷ rest) w p =
      resume-Kept a.delivered (act a.conn w) (run_attempts act rest) (step a.conn w p)
        (λ w' p'. run_attempts-Kept act step rest w' p')

  -- A property that every attempt keeps, and what a success establishes, carry over to an activity.
  pub execute_activity-Kept :
      (act : Activity D)
      → ((c : Conn) (w : World D) → P w → Kept P Q (act c w))
      → (attempts : List Attempt) (w : World D) → P w
      → Kept P Q (execute_activity act attempts w)
  unfolding execute_activity
  execute_activity-Kept act step attempts w p =
      run_attempts-Kept act step (take maximum_attempts attempts) w p
