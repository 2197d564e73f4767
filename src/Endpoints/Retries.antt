-- ===== src/Endpoints/Retries.antt =====
-- The idempotency of CreateBill, and its checks.
use mathlib.Core.Path.{subst}
use redesigned_disco.Prelude.{
  String, true, false, ◌≡◌, refl, sym, ◌∙◌, ◌≢◌, ◌≤◌, ◌==◌, Option, none, some, List, [], ◌∷◌,
  arith, eq_iff, ◌↔◌, Bool-cases, inl, inr, concat,
}
use redesigned_disco.Errs.{ApiError, Result, ok, err, api_error, invalid_argument}
use redesigned_disco.Money.{Decimal, Postgres}
use redesigned_disco.Models.{Time, Bill}
use redesigned_disco.Store.{Db, BillRow, find_bill}
use redesigned_disco.Store.Reads.{Reading, answered, failed, unscannable, broken_off, read_row}
use redesigned_disco.Registry.{Registry, valid}
use redesigned_disco.Endpoints.Errors.{
  RpcError, workflow_not_found, request_canceled, deadline_passed, other_rpc, Started, started,
  already_started, start_failed, workflow_id,
}
use redesigned_disco.Endpoints.Loading.{
  TemporalClient, decoded, query_bill_state, scan_bill_row, scanned, bill_at, get_bill_row_from_db,
  from_db, summarised, load_bill_summary,
}
use redesigned_disco.Endpoints.Create.{
  CreateBillRequest, CreateBillResponse, create_bill, new_bill_id, reported,
  create_bill_replay_response, start_outcome, unless_bad_period, validate_period, workflow_input,
}

-- A period is refused exactly if both ends are given and the end is not after the start.
pub validate_period-refuses :
    (start end : Option Time)
    → ((e : ApiError) × (validate_period start end ≡ some e) × (e.code ≡ invalid_argument))
      ↔ ((s t : Time) × (start ≡ some s) × (end ≡ some t) × (t ≤ s))
unfolding validate_period
validate_period-refuses none end = (λ h. let e = h.1 in cc, λ h. let e = h.2 in cc)
validate_period-refuses (some s) none = (λ h. let e = h.1 in cc, λ h. let e = h.3 in cc)
validate_period-refuses (some s) (some t) = (
  λ h. (s, t, refl, refl, (let e = h.1 in ground arith)),
  λ h. (
    record { code = invalid_argument; message = "periodEnd must be after periodStart" },
    (let es = h.2 in let et = h.3 in let le = h.4 in ground arith),
    refl,
  ),
)

module _ {D : Type 0} where
  find_bill-id :
      (key : String) (rows : List (BillRow D)) (row : BillRow D)
      → find_bill key rows ≡ some row
      → row.id ≡ key
  find_bill-id key [] row h = cc
  find_bill-id key (r ∷ rows) row h = elim (Bool-cases (r.id == key)) [
    | inl same ↦ ground (arith, same, h, eq_iff r.id key)
    | inr other ↦ find_bill-id key rows row (ground (arith, other, h))
  ]

  -- The workflow of an id serves a bill with that id, if it serves one.
  abbrev pub Serves : TemporalClient D → String → Type 0
  Serves t id = (b : Bill D) → t.query (workflow_id id) ≡ ok (some b) → b.id ≡ id

  decoded-some :
      (q : Result RpcError (Option (Bill D))) (b : Bill D) → decoded q ≡ ok b → q ≡ ok (some b)
  decoded-some (err e) b h = cc
  decoded-some (ok none) b h = cc
  decoded-some (ok (some x)) b h = ground (arith, h)

module _ {D : Type 0} {d : Decimal D} (pg : Postgres D d) (id : String)
    (canonical : pg.uuid id ≡ some id) where
  row-id :
      (reading : Reading) (o : Option (BillRow D)) (b : Bill D)
      → ((row : BillRow D) → o ≡ some row → row.id ≡ id)
      → from_db pg id (read_row reading (scanned o)) ≡ ok b
      → b.id ≡ id
  unfolding scan_bill_row
  row-id answered none b k h = cc
  row-id answered (some r) b k h = ground (arith, k r refl, h)
  row-id failed o b k h = cc
  row-id unscannable o b k h = cc
  row-id (broken_off why) o b k h = cc

  summarised-id :
      (reading : Reading) (db : Db D) (q : Result RpcError (Bill D)) (b : Bill D)
      → ((x : Bill D) → q ≡ ok x → x.id ≡ id)
      → summarised pg reading id db q ≡ ok b
      → b.id ≡ id
  unfolding get_bill_row_from_db
  summarised-id reading db (ok x) b k h = ground (arith, k x refl, h)
  summarised-id reading db (err workflow_not_found) b k h =
      row-id reading (find_bill id db.bills) b (find_bill-id id db.bills)
        (subst (λ o. from_db pg id (read_row reading (bill_at o db)) ≡ ok b) canonical h)
  summarised-id reading db (err request_canceled) b k h = cc
  summarised-id reading db (err deadline_passed) b k h = cc
  summarised-id reading db (err other_rpc) b k h = cc

  load_bill_summary-id :
      (t : TemporalClient D) (reading : Reading) (db : Db D) (b : Bill D)
      → Serves t id
      → load_bill_summary pg t reading id db ≡ ok b
      → b.id ≡ id
  unfolding load_bill_summary query_bill_state
  load_bill_summary-id t reading db b serves h =
      summarised-id reading db (decoded (t.query (workflow_id id))) b
        (λ x e. serves x (decoded-some _ x e)) h

  reported-bill_id :
      (req : CreateBillRequest) (r : Result ApiError (Bill D))
      → ((b : Bill D) → r ≡ ok b → b.id ≡ id)
      → (reported pg id req r).bill_id ≡ id
  reported-bill_id req (ok b) k = k b refl
  reported-bill_id req (err e) k = refl

  start_outcome-bill_id :
      (t : TemporalClient D) (reading : Reading) (db : Db D) (req : CreateBillRequest) (o : Started)
      (v : CreateBillResponse)
      → Serves t id
      → start_outcome pg t reading db id req o ≡ ok v
      → v.bill_id ≡ id
  unfolding create_bill_replay_response
  start_outcome-bill_id t reading db req started v serves h = ground (arith, h)
  start_outcome-bill_id t reading db req already_started v serves h =
      let named =
        reported-bill_id req (load_bill_summary pg t reading id db)
          (λ b. load_bill_summary-id t reading db b serves) in
      ground (arith, h, named)
  start_outcome-bill_id t reading db req (start_failed why) v serves h = cc

  checked-bill_id :
      (o : Option ApiError) (r : Result ApiError CreateBillResponse) (v : CreateBillResponse)
      → ((w : CreateBillResponse) → r ≡ ok w → w.bill_id ≡ id)
      → unless_bad_period pg o r ≡ ok v
      → v.bill_id ≡ id
  checked-bill_id none r v k h = k v h
  checked-bill_id (some e) r v k h = cc

module _ {D : Type 0} {d : Decimal D} (pg : Postgres D d) (derived : String → String)
    (account key : String) (keyed : key ≢ "") where
  -- The id of the bill that an account creates under a key.
  abbrev pub keyed_id : String
  keyed_id = derived (concat (concat account ":") key)

  new_bill_id-keyed :
      (fresh given : String) → given ≡ key → new_bill_id fresh derived account given ≡ keyed_id
  unfolding new_bill_id
  new_bill_id-keyed fresh given same = ground (arith, same, eq_iff key "")

  create_bill_unknown :
      (t : TemporalClient D) (currencies : Registry) (reading : Reading) (db : Db D)
      (fresh : String) (req : CreateBillRequest)
      → valid currencies req.currency ≡ false
      → create_bill pg t currencies reading db fresh derived account req
        ≡ api_error invalid_argument (concat "invalid currency: " req.currency)
  unfolding create_bill
  create_bill_unknown t currencies reading db fresh req unknown = rw unknown refl

  create_bill_known :
      (t : TemporalClient D) (currencies : Registry) (reading : Reading) (db : Db D)
      (fresh : String) (req : CreateBillRequest)
      → req.idempotency_key ≡ key
      → valid currencies req.currency ≡ true
      → create_bill pg t currencies reading db fresh derived account req
        ≡ unless_bad_period pg (validate_period req.period_start req.period_end) (
            start_outcome pg t reading db keyed_id req
              (t.start (workflow_id keyed_id) (workflow_input keyed_id account req)))
  unfolding create_bill
  create_bill_known t currencies reading db fresh req same known =
      rw (known, new_bill_id-keyed fresh req.idempotency_key same) refl

  refused : {A : Type 0} {a : A} {e : ApiError} → ◌≡◌ {A = Result ApiError A} (err e) (ok a) → ⊥
  refused h = cc

  create_bill-bill_id :
      (t : TemporalClient D) (currencies : Registry) (reading : Reading) (db : Db D)
      (fresh : String) (req : CreateBillRequest) (v : CreateBillResponse)
      → pg.uuid keyed_id ≡ some keyed_id
      → Serves t keyed_id
      → req.idempotency_key ≡ key
      → create_bill pg t currencies reading db fresh derived account req ≡ ok v
      → v.bill_id ≡ keyed_id
  create_bill-bill_id t currencies reading db fresh req v canonical serves same h =
      elim (Bool-cases (valid currencies req.currency)) [
        | inr unknown ↦
            absurd
              (refused (sym (create_bill_unknown t currencies reading db fresh req unknown) ∙ h))
        | inl known ↦
            checked-bill_id pg keyed_id canonical (validate_period req.period_start req.period_end)
              _ v (λ w. start_outcome-bill_id pg keyed_id canonical t reading db req _ w serves)
              (sym (create_bill_known t currencies reading db fresh req same known) ∙ h)
      ]

  -- Two requests of one account with one key that both succeed, whatever else they say, whatever fresh
  -- ids are drawn and whatever Temporal answers to the starts (that the workflow is started, or that
  -- it is there already) and to the queries: both responses name one and the same bill, the one
  -- derived from the account and the key. It is assumed that the derived id is a UUID as its column
  -- writes it, and that the workflow under it, when it answers a query, serves the bill with that id.
  pub create_bill-same_bill :
      (t u : TemporalClient D) (currencies later : Registry) (reading reading' : Reading)
      (db db' : Db D) (fresh fresh' : String) (req retry : CreateBillRequest)
      (v w : CreateBillResponse)
      → pg.uuid keyed_id ≡ some keyed_id
      → Serves t keyed_id
      → Serves u keyed_id
      → req.idempotency_key ≡ key
      → retry.idempotency_key ≡ key
      → create_bill pg t currencies reading db fresh derived account req ≡ ok v
      → create_bill pg u later reading' db' fresh' derived account retry ≡ ok w
      → (v.bill_id ≡ keyed_id) × (w.bill_id ≡ v.bill_id)
  create_bill-same_bill t u currencies later reading reading' db db' fresh fresh' req retry v w
        canonical serves serves' same same' h k =
      let first = create_bill-bill_id t currencies reading db fresh req v canonical serves same h in
      let second =
        create_bill-bill_id u later reading' db' fresh' retry w canonical serves' same' k in
      (first, second ∙ sym first)
