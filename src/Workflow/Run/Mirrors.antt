-- ===== src/Workflow/Run/Mirrors.antt =====
-- The running summary as a view of the account that the tables hold, through the parts of a step.
use mathlib.Core.Path.{subst}
use mathlib.Core.Option.{some-injective}
use redesigned_disco.Prelude.{
  ℕ, String, ◌≡◌, refl, sym, ap, ◌∙◌, ◌⊎◌, inl, inr, Option, none, some, List, [], ◌∷◌, arith,
  length,
}
use redesigned_disco.Errs.{Result, ok, err}
use redesigned_disco.Money.{Decimal, Postgres}
use redesigned_disco.Models.{
  Time, BillStatus, open_bill, closed_bill, CloseReason, unset, AppendLineItemInput,
  AddLineItemInput, AddLineItemResult,
}
use redesigned_disco.Store.{Db, DbError, ItemRow}
use redesigned_disco.Activities.{World, new_item_row}
use redesigned_disco.Activities.Append.{Appended, Taken}
use redesigned_disco.Activities.AtMostOnce.{AtMostOnce, execute_append-AtMostOnce}
use redesigned_disco.Activities.Retry.{Attempt, Kept}
use redesigned_disco.Workflow.{HandlerError, end_add_line_item, finalized}
use redesigned_disco.Workflow.Contract.{total, Moves, idle, takes, closes}
use redesigned_disco.Workflow.Run.Picking.{pick-All}
use redesigned_disco.Workflow.Run.Agreement.{IsOwn, Agrees, Exact, ExactPick}
use redesigned_disco.Workflow.Run.{
  Run, Phase, Handler, pick, resumed, drained, persisting, begun, validated,
}
use redesigned_disco.Workflow.Run.Stacked.{
  SeenAs, SeenAs-next, account_of, stacked, stacked-last, stacked-free,
}

module _ {D : Type 0} {d : Decimal D} (pg : Postgres D d) (key : String) where
  -- The summary and the seen ids are what the account says; a closed bill has no handler in flight.
  pub record Mirrors (r : Run D) : Type 0 where
    pub total : r.bill.total_amount ≡ total d (account_of key r).entries
    pub count : r.bill.item_count ≡ length (account_of key r).entries
    pub seen : SeenAs pg r.seen (account_of key r).entries
    pub quiet : r.bill.status ≡ closed_bill → r.pending ≡ []

  abbrev pub Moved : Run D → Run D → Type 0
  Moved old new = Moves d (account_of key old) (account_of key new) × Mirrors new

  begun-Moved :
      (r : Run D) (request : AddLineItemInput D) (o : AddLineItemResult D ⊎ AppendLineItemInput D)
      → r.bill.status ≡ open_bill
      → Mirrors r
      → Moved r (begun r request o).0
  begun-Moved r request (inl x) op h = (idle _ _ refl, h)
  begun-Moved r request (inr x) op h =
      (idle _ _ refl, record { total = h.total; count = h.count; seen = h.seen; quiet = λ cl. cc })

  pub validated-Moved :
      (now : Time) (r : Run D) (request : AddLineItemInput D) (o : Option HandlerError)
      → r.bill.status ≡ open_bill
      → Mirrors r
      → Moved r (validated now r request o).0
  validated-Moved now r request (some e) op h = (idle _ _ refl, h)
  validated-Moved now r request none op h = begun-Moved r request _ op h

  -- What an item that was appended has added to the account.
  Appended-entry :
      (i : AppendLineItemInput D) (old new : Db D) (a : Appended pg i old new)
      → pg.uuid i.bill_id ≡ some key
      → stacked key [] new.items
        ≡ record { id = a.key; amount = a.amount } ∷ stacked key [] old.items
  Appended-entry i old new a read =
      let bill : a.bill ≡ key = some-injective _ _ (sym a.bill_read ∙ read) in
      let row : ItemRow D = record (new_item_row i) {
        id = a.key;
        bill_id = a.bill;
        amount = a.amount;
      } in
      ap (λ (b : Db D). stacked key [] b.items) a.result ∙ stacked-last key [] old.items row bill

  added-Moved :
      (r : Run D) (x : Handler D) (rest : List (Handler D)) (w : World D)
      → IsOwn pg key r.bill.id x
      → pg.uuid r.bill.id ≡ some key
      → AtMostOnce pg x.activity r.world.db w.db × Taken pg x.activity w.db
      → ¬ Taken pg x.activity r.world.db
      → r.bill.status ≡ open_bill
      → Mirrors r
      → Moved r (resumed d r x rest (ok tt, w)).0
  unfolding end_add_line_item
  added-Moved r x rest w o read (inl same, taken) free op h =
      absurd (free (subst (Taken pg x.activity) same taken))
  added-Moved r x rest w o read (inr a, taken) free op h =
      let amount : a.amount ≡ x.update.amount =
        some-injective _ _ (sym a.amount_read ∙ rw o.amount o.fits) in
      let grown = Appended-entry x.activity r.world.db w.db a (ap pg.uuid o.bill ∙ read) in
      (
        takes _ _ (record { id = a.key; amount = a.amount }) op
            (stacked-free key a.key [] r.world.db.items a.fresh refl) a.positive
            (ap (λ es. record { entries = es; status = r.bill.status }) grown),
        record {
          total = ground (arith, grown, amount, h.total);
          count = ground (arith, grown, h.count);
          seen = subst (SeenAs pg (x.update.item_id ∷ r.seen)) (sym grown) (
              SeenAs-next pg r.seen _ x.update.item_id _ (ap pg.uuid (sym o.item) ∙ a.key_read)
                h.seen);
          quiet = λ cl. cc;
        },
      )

  resumed-Moved :
      (r : Run D) (x : Handler D) (rest : List (Handler D))
      (o : Result DbError (Unit {0}) × World D)
      → IsOwn pg key r.bill.id x
      → pg.uuid r.bill.id ≡ some key
      → Kept (λ v. AtMostOnce pg x.activity r.world.db v.db) (λ v. Taken pg x.activity v.db) o
      → Exact pg key x.activity r.world o
      → r.bill.status ≡ open_bill
      → Mirrors r
      → Moved r (resumed d r x rest o).0
  resumed-Moved r x rest (ok u, w) o read k free op h = added-Moved r x rest w o read k free op h
  resumed-Moved r x rest (err e, w) o read k same op h =
      let items = ap (λ (b : Db D). stacked key [] b.items) same in
      (
        idle _ _ (ap (λ es. record { entries = es; status = r.bill.status }) items),
        record {
          total = h.total ∙ sym (ap (total d) items);
          count = h.count ∙ sym (ap length items);
          seen = subst (SeenAs pg r.seen) (sym items) h.seen;
          quiet = λ cl. cc;
        },
      )

  none_picked : (n : ℕ) (y : Handler D × List (Handler D)) → pick n [] ≡ some y → ⊥
  none_picked n y e = cc

  pub persisting-Moved :
      (r : Run D) (attempts : List Attempt) (n : ℕ) (o : Option (Handler D × List (Handler D)))
      (s : BillStatus)
      → r.bill.status ≡ s
      → pick n r.pending ≡ o
      → ExactPick pg key r attempts o
      → Agrees pg key r
      → Mirrors r
      → Moved r (persisting pg r attempts o).0
  persisting-Moved r attempts n none s es e x g h = (idle _ _ refl, h)
  persisting-Moved r attempts n (some y) closed_bill es e x g h =
      absurd (none_picked n y (subst (λ hs. pick n hs ≡ some y) (h.quiet es) e))
  persisting-Moved r attempts n (some (y, rest)) open_bill es e x g h =
      let (o, _) = pick-All _ n r.pending y rest g.own e in
      resumed-Moved r y rest _ o g.read (execute_append-AtMostOnce pg y.activity attempts r.world) x
        es h

  closed_by :
      (now : Time) (r : Run D) (reason : CloseReason) (phase : Phase D) (s : BillStatus)
      → r.bill.status ≡ s
      → r.pending ≡ []
      → Mirrors r
      → Moved r (record r { phase = phase; bill = finalized now reason r.bill })
  unfolding finalized
  closed_by now r reason phase open_bill es none_left h = (
    closes _ _ es refl,
    record { total = h.total; count = h.count; seen = h.seen; quiet = λ cl. none_left },
  )
  closed_by now r reason phase closed_bill es none_left h = (
    idle _ _ (ap (λ s. record { entries = stacked key [] r.world.db.items; status = s }) (sym es)),
    record { total = h.total; count = h.count; seen = h.seen; quiet = λ cl. none_left },
  )

  pub drained-Moved :
      (order : List String → List String) (now : Time) (r : Run D) (reason : CloseReason)
      (hs : List (Handler D))
      → r.pending ≡ hs
      → Mirrors r
      → Moved r (drained order now r reason hs)
  drained-Moved order now r unset [] e h =
      (idle _ _ refl, record { total = h.total; count = h.count; seen = h.seen; quiet = h.quiet })
  drained-Moved order now r reason [] e h = closed_by now r reason _ r.bill.status refl e h
  drained-Moved order now r reason (x ∷ hs) e h = (idle _ _ refl, h)
