-- ===== src/Workflow/Run/Chained.antt =====
-- The whole life of a bill: the first run of `BillingWorkflow` for it, and the runs that
-- `continueAsNew` puts in its place.
use mathlib.Core.Path.{subst}
use redesigned_disco.Prelude.{
  String, ◌≡◌, refl, sym, ◌∙◌, none, some, List, [], ◌∷◌, contains, Distinct,
}
use redesigned_disco.Money.{Decimal, Postgres}
use redesigned_disco.Models.{Time, BillWorkflowInput}
use redesigned_disco.Activities.{World}
use redesigned_disco.Activities.Retry.{Attempt}
use redesigned_disco.Workflow.{initial_bill, initial_seen, persist_on_start, continue_as_new}
use redesigned_disco.Workflow.Contract.{
  new_account, Reaches-IsKept, Account, Entry, ids, Reaches, here, via, Moves,
}
use redesigned_disco.Workflow.Run.Agreement.{ExactRun, Agrees, ExactEvent, step-Agrees}
use redesigned_disco.Workflow.Run.Stacked.{SeenAs, account_of}
use redesigned_disco.Workflow.Run.Mirrors.{Mirrors}
use redesigned_disco.Workflow.Run.Refines.{InTimeRun, InTime, step-Moved}
use redesigned_disco.Workflow.Run.Carried.{
  Carried-continued, Carried, carried, step-Carried, start_run-Carried,
}
use redesigned_disco.Workflow.Run.Lifetime.{HasNone, start_run-IsNew}
use redesigned_disco.Workflow.Run.{Run, Event, continued, step, run_events, start_run}

-- The order in which a map is ranged over lists the ids of that map.
abbrev pub KeepsIds : (List String → List String) → Type 0
KeepsIds order = (xs : List String) (k : String) → contains (order xs) k ≡ contains xs k

-- The states that the runs of a bill pass through: at the start of the first run, on tables that hold
-- no item of the bill; after an event, an exact and timely one; and at the start of the run that one
-- continues as.
pub data Lived {D : Type 0} {d : Decimal D} (pg : Postgres D d) (key : String)
    (order : List String → List String) : Run D → Type 0 where
  begins :
      (now later : Time) (attempts : List Attempt) (input : BillWorkflowInput D) (w : World D)
      → input.snapshot ≡ none
      → input.seen_item_ids ≡ []
      → pg.uuid input.bill_id ≡ some key
      → HasNone key w.db.items
      → Lived pg key order (start_run pg now later attempts input w)
  lives :
      (r : Run D) (e : Event D)
      → Lived pg key order r
      → ExactEvent pg key order r e
      → InTime pg key r e
      → Lived pg key order (step pg order r e).0
  rolls :
      (now later : Time) (attempts : List Attempt) (r : Run D) (j : BillWorkflowInput D)
      → Lived pg key order r
      → r.phase ≡ continued j
      → Lived pg key order (start_run pg now later attempts j r.world)

-- What holds of a bill in any state of its life.
pub record IsServed {D : Type 0} {d : Decimal D} (pg : Postgres D d) (key : String) (r : Run D)
    : Type 0 where
  pub reaches : Reaches d new_account (account_of key r)
  pub distinct : Distinct (ids (account_of key r).entries)
  pub agrees : Agrees pg key r
  pub mirrors : Mirrors pg key r

module _ {D : Type 0} {d : Decimal D} (pg : Postgres D d) (key : String)
    (order : List String → List String) where
  record Stage (r : Run D) : Type 0 where
    agrees : Agrees pg key r
    mirrors : Mirrors pg key r
    carried_over : Carried pg order r
    reaches : Reaches d new_account (account_of key r)

  Reaches-snoc : (a b c : Account D) → Reaches d a b → Moves d b c → Reaches d a c
  Reaches-snoc a b c (here _) m = via a c c m (here c)
  Reaches-snoc a b c (via _ x _ m' r) m = via a x c m' (Reaches-snoc x b c r m)

  step-Stage :
      (r : Run D) (e : Event D)
      → ExactEvent pg key order r e
      → InTime pg key r e
      → Stage r
      → Stage (step pg order r e).0
  step-Stage r e x t s =
      let (move, mirrors) = step-Moved pg key order r e x t s.agrees s.mirrors in
      record {
        agrees = step-Agrees pg key order r e x s.agrees;
        mirrors = mirrors;
        carried_over = step-Carried pg order r e s.carried_over;
        reaches = Reaches-snoc _ _ _ s.reaches move;
      }

  pub Lived-run :
      (es : List (Event D)) (r : Run D)
      → Lived pg key order r
      → ExactRun pg key order r es
      → InTimeRun pg key order r es
      → Lived pg key order (run_events pg order r es)
  unfolding run_events
  Lived-run [] r h x t = h
  Lived-run (e ∷ es) r h x t = Lived-run es (step pg order r e).0 (lives r e h x.0 t.0) x.1 t.1

  module _
      (same_ids : (xs : List String) (k : String) → contains (order xs) k ≡ contains xs k) where
    ordered-SeenAs :
        (seen : List String) (es : List (Entry D)) → SeenAs pg seen es → SeenAs pg (order seen) es
    ordered-SeenAs seen es h = record {
      entered = λ id k read c. h.entered id k read (sym (same_ids seen id) ∙ c);
      heard = λ k c. let (id, found, read) = h.heard k c in (id, same_ids seen id ∙ found, read);
    }

    rolled-Stage :
        (now later : Time) (attempts : List Attempt) (r : Run D)
        → Stage r
        → Stage (start_run pg now later attempts (carried pg order r) r.world)
    unfolding start_run persist_on_start initial_bill initial_seen continue_as_new
    rolled-Stage now later attempts r s = record {
      agrees = record { read = s.agrees.read; total = s.agrees.total; own = tt };
      mirrors = record {
        total = s.mirrors.total;
        count = s.mirrors.count;
        seen = ordered-SeenAs r.seen _ s.mirrors.seen;
        quiet = λ closed. refl;
      };
      carried_over = start_run-Carried pg order now later attempts (carried pg order r) r.world;
      reaches = s.reaches;
    }

    Lived-Stage : (r : Run D) → Lived pg key order r → Stage r
    Lived-Stage _ (begins now later attempts input w first unseen read h) =
        let new = start_run-IsNew pg key now later attempts input w first unseen read h in
        record {
          agrees = new.agrees;
          mirrors = new.mirrors;
          carried_over = start_run-Carried pg order now later attempts input w;
          reaches = subst (Reaches d new_account) (sym new.account) (here new_account);
        }
    Lived-Stage _ (lives r e h x t) = step-Stage r e x t (Lived-Stage r h)
    Lived-Stage _ (rolls now later attempts r j h e) =
        let s = Lived-Stage r h in
        let same : j ≡ carried pg order r = Carried-continued pg order r j s.carried_over e in
        subst (λ i. Stage (start_run pg now later attempts i r.world)) (sym same)
          (rolled-Stage now later attempts r s)

    -- Let the order in which Go ranges over the map of seen ids list the ids of that map. Take any
    -- state of the life of a bill: its first run started on tables that hold no item of it, whatever
    -- happened to the activity that creates the bill; the amounts of the updates fit their column, the
    -- executions of the handlers' activities are exact (each succeeds for an item whose key was free,
    -- or fails and leaves the tables as they were) and the updates come while the bill is open; and a
    -- run that continues as new is followed by a run of the input and the tables that it left. Then the account
    -- that the tables hold is one that the contract reaches from a new account, no item id is in it
    -- twice, and the running total, the count and the seen ids of the workflow are those of that
    -- account; the total is the sum of the amounts that the tables hold for the bill.
    pub Lived-IsServed : (r : Run D) → Lived pg key order r → IsServed pg key r
    Lived-IsServed r h =
        let s = Lived-Stage r h in
        let kept = Reaches-IsKept d _ _ s.reaches in
        record {
          reaches = s.reaches;
          distinct = kept.distinct tt;
          agrees = s.agrees;
          mirrors = s.mirrors;
        }
