-- ===== src/Endpoints/Malformed.antt =====
-- Ids without a bill, and cursors that are malformed: what the endpoints answer, and that a text
-- that is no UUID makes it Internal where the caller is to blame.
use mathlib.Core.Option.{some-injective}
use redesigned_disco.Prelude.{
  String, ◌≡◌, ◌≢◌, refl, ◌∙◌, ap, ℕ, suc, ◌==◌, false, Option, none, some, arith, eq_iff, List,
  concat, Bool, Bool-cases, Option-cases, inl, inr, if◌then◌else◌,
}
use redesigned_disco.Errs.{
  ApiError, Code, Result, ok, err, ◌>>=◌, internal, not_found, invalid_argument,
}
use redesigned_disco.Money.{Decimal, Postgres}
use redesigned_disco.Models.{Time}
use redesigned_disco.Keyset.{query_page}
use redesigned_disco.Store.{Db, DbError, find_bill}
use redesigned_disco.Store.Reads.{
  Reading, Reads, RowsError, query_error, scan_error, rows_error, all_answered, rows_failure,
  read_rows,
}
use redesigned_disco.Endpoints.Errors.{workflow_not_found, workflow_id}
use redesigned_disco.Endpoints.Loading.{
  TemporalClient, query_bill_state, load_bill_summary, assert_owns_bill, get_bill_row_from_db,
  items_at,
}
use redesigned_disco.Endpoints.Read.{get_bill, close_bill}
use redesigned_disco.Endpoints.Cursors.{
  CursorText, page_limit, decode_keyset_cursor, split_bar, with_bytes, with_parts, with_time,
}
use redesigned_disco.Endpoints.ListItems.{
  ListLineItemsRequest, list_line_items, read_page, decode_line_item_cursor, comes_after,
  listed_page,
}
use redesigned_disco.Endpoints.ListEvents.{
  ListBillEventsRequest, list_bill_events, requested_events_cursor, read_events_page, logged_after,
  events_at, listed_events,
}

-- What there is to say of an id without a bill; the option is what the column reads of it.
abbrev pub absent_error : String → Option String → ApiError
absent_error id none = record { code = internal; message = "failed to load bill" }
absent_error id (some key) = record {
  code = not_found;
  message = concat (concat "bill " id) " not found";
}

-- What is wrong with a cursor: it does not decode, or its id is neither empty nor a UUID.
abbrev pub cursor_fault : (String → Option String) → Result ApiError (Time × String) → Option Code
cursor_fault uuid (err e) = some invalid_argument
cursor_fault uuid (ok (at, id)) =
    if id == "" then none else elim (uuid id) [ none ↦ some internal | some key ↦ none ]

abbrev pub Rejected {ℓ} : {A : Type ℓ} → Code → Result ApiError A → Type ℓ
Rejected code r = (e : ApiError) × (r ≡ err e) × (e.code ≡ code)

module _ (t : CursorText) where
  with_time-code :
      (at : Option Time) (id : String) (e : ApiError)
      → with_time at id ≡ err e
      → e.code ≡ invalid_argument
  with_time-code none id e h = ground arith
  with_time-code (some at) id e h = cc

  with_parts-code :
      (o : Option (String × String)) (e : ApiError)
      → with_parts t o ≡ err e
      → e.code ≡ invalid_argument
  with_parts-code none e h = ground arith
  with_parts-code (some (at, id)) e h = with_time-code (t.parse at) id e h

  with_bytes-code :
      (o : Option String) (e : ApiError) → with_bytes t o ≡ err e → e.code ≡ invalid_argument
  with_bytes-code none e h = ground arith
  with_bytes-code (some raw) e h = with_parts-code (split_bar raw) e h

  decode-code :
      (cursor : String) (e : ApiError)
      → decode_keyset_cursor t cursor ≡ err e
      → e.code ≡ invalid_argument
  unfolding decode_keyset_cursor
  decode-code cursor e h = with_bytes-code (t.decode_bytes cursor) e h

rows_failure-Rejected {ℓ} :
    {A : Type ℓ} (listing scanning iterating : String) (e : RowsError)
    → Rejected {A = A} internal (rows_failure listing scanning iterating e)
rows_failure-Rejected listing scanning iterating (query_error e) = (_, refl, refl)
rows_failure-Rejected listing scanning iterating scan_error = (_, refl, refl)
rows_failure-Rejected listing scanning iterating (rows_error why) = (_, refl, refl)

module _ {A : Type 0} (beyond : Time → String → A → Bool) where
  -- A query for the rows beyond a text that is no UUID is refused.
  refused_page :
      (uuid : String → Option String) (c : Reading) (n : ℕ) (at : Time) (id : String)
      (rows : Result DbError (List A))
      → (id == "") ≡ false
      → uuid id ≡ none
      → (e : RowsError) × (read_rows c (query_page beyond uuid n (at, id) rows) ≡ err e)
  refused_page uuid c n at id (err e) set none_read = (_, refl)
  refused_page uuid c n at id (ok rows) set none_read = rw (set, none_read) (_, refl)

cursor_fault-id :
    (uuid : String → Option String) (at : Time) (id : String) (code : Code)
    → cursor_fault uuid (ok (at, id)) ≡ some code
    → ((id == "") ≡ false) × (uuid id ≡ none) × (internal ≡ code)
cursor_fault-id uuid at id code h = elim (Bool-cases (id == "")) [
  | inl empty ↦ absurd (ground (arith, empty))
  | inr set ↦ elim (Option-cases (uuid id)) [
    | inl unread ↦ (set, unread, ground (arith, set, unread))
    | inr (key, read) ↦ absurd (ground (arith, set, read))
  ]
]

module _ {A B : Type 0} (beyond : Time → String → A → Bool) (uuid : String → Option String)
    (c : Reading) (n : ℕ) (rows : Result DbError (List A))
    (page : Result RowsError (List A) → Result ApiError B)
    (fails : (e : RowsError) → Rejected internal (page (err e))) where
  -- A malformed cursor, in an endpoint that reads a page from it.
  faulty-Rejected :
      (cursor : Result ApiError (Time × String)) (code : Code)
      → ((e : ApiError) → cursor ≡ err e → e.code ≡ invalid_argument)
      → cursor_fault uuid cursor ≡ some code
      → Rejected code (cursor >>= λ at. page (read_rows c (query_page beyond uuid n at rows)))
  faulty-Rejected (err e) code k h = (e, refl, k e refl ∙ some-injective _ _ h)
  faulty-Rejected (ok (at, id)) code k h =
      let (set, unread, same) = cursor_fault-id uuid at id code h in
      let (e, broken) = refused_page beyond uuid c n at id rows set unread in
      let (x, answer, is_internal) = fails e in (x, ap page broken ∙ answer, is_internal ∙ same)

module _ {D : Type 0} {d : Decimal D} (pg : Postgres D d) (format : Time → String)
    (client : TemporalClient D) (t : CursorText) (caller : String) where
  -- Under an id for which there is neither a workflow nor a row, where the database is reached,
  -- GetBill, CloseBill, ListLineItems and ListBillEvents answer the same error: that the bill is not
  -- found (NotFound) if the id is a UUID, and that it could not be loaded (Internal) if it is none.
  pub absent_id-absent_error :
      (id : String) (db after : Db D) (i : Option ListLineItemsRequest)
      (e : Option ListBillEventsRequest)
      → client.query (workflow_id id) ≡ err workflow_not_found
      → ((key : String) → pg.uuid id ≡ some key → find_bill key db.bills ≡ none)
      → let failure = absent_error id (pg.uuid id) in
        (get_bill pg format client all_answered id caller db ≡ err failure)
        × (close_bill pg format client all_answered id caller db after ≡ err failure)
        × (list_line_items pg format client t all_answered id caller db i ≡ err failure)
        × (list_bill_events pg client t all_answered id caller db e ≡ err failure)
  unfolding get_bill close_bill list_line_items list_bill_events assert_owns_bill load_bill_summary
      query_bill_state get_bill_row_from_db
  absent_id-absent_error id db after i e absent no_row = elim (Option-cases (pg.uuid id)) [
    | inl none_read ↦ rw (absent, none_read) (refl, refl, refl, refl)
    | inr (key, read) ↦ rw (absent, read, no_row key read) (refl, refl, refl, refl)
  ]

  -- The owner of a bill asks for a page of its items or of its audit entries, with a limit that is
  -- accepted and a cursor that is not empty. However the query goes, ListLineItems and ListBillEvents
  -- answer InvalidArgument if the cursor does not decode, and Internal if it decodes to an id that
  -- is neither empty nor a UUID.
  pub malformed_cursor-Rejected :
      (id cursor : String) (db : Db D) (reads : Reads) (i : ListLineItemsRequest)
      (e : ListBillEventsRequest) (m n : ℕ) (code : Code)
      → assert_owns_bill pg client (reads 0) id caller db ≡ ok tt
      → page_limit (some i.limit) ≡ ok m
      → page_limit (some e.limit) ≡ ok n
      → i.cursor ≡ cursor
      → e.cursor ≡ cursor
      → cursor ≢ ""
      → cursor_fault pg.uuid (decode_keyset_cursor t cursor) ≡ some code
      → Rejected code (list_line_items pg format client t reads id caller db (some i))
        × Rejected code (list_bill_events pg client t reads id caller db (some e))
  unfolding list_line_items list_bill_events decode_line_item_cursor requested_events_cursor
      read_page read_events_page
  malformed_cursor-Rejected id cursor db reads i e m n code owns im en ic ec full fault =
      let full' : (cursor == "") ≡ false = ground (arith, eq_iff cursor "") in
      (
        rw (owns, im, ic, full')
            (faulty-Rejected comes_after pg.uuid (reads 1) (suc m) (items_at (pg.uuid id) db)
              (listed_page pg format t m) (rows_failure-Rejected _ _ _) _ code
              (decode-code t cursor) fault),
        rw (owns, en, ec, full')
            (faulty-Rejected logged_after pg.uuid (reads 1) (suc n) (events_at (pg.uuid id) db)
              (listed_events t n) (rows_failure-Rejected _ _ _) _ code (decode-code t cursor)
              fault),
      )
