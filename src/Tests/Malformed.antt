-- ===== src/Tests/Malformed.antt =====
-- The theorems about ids that are no UUIDs at concrete requests.
use redesigned_disco.Prelude.{
  leb, ℕ, String, Option, ◌≡◌, refl, some, none, ◌==◌, ◌||◌, if◌then◌else◌, arith, eq_iff,
}
use redesigned_disco.Money.{Postgres}
use redesigned_disco.Errs.{err, ApiError, internal}
use redesigned_disco.Store.Reads.{Reads, answered, broken_off, all_answered}
use redesigned_disco.Store.{find_bill}
use redesigned_disco.Endpoints.Loading.{load_bill_summary, query_bill_state, assert_owns_bill}
use redesigned_disco.Endpoints.Read.{get_bill, close_bill}
use redesigned_disco.Endpoints.Cursors.{pos, page_limit, decode_keyset_cursor}
use redesigned_disco.Endpoints.ListItems.{ListLineItemsRequest, list_line_items}
use redesigned_disco.Endpoints.ListEvents.{ListBillEventsRequest, list_bill_events}
use redesigned_disco.Endpoints.Malformed.{
  absent_id-absent_error, malformed_cursor-Rejected, Rejected,
}
use redesigned_disco.Tests.Fixtures.{units, tables, empty_world}
use redesigned_disco.Tests.Pages.{plain_text}
use redesigned_disco.Tests.Requests.{with_bill, without_workflow, clock}

-- Every text but the empty one and one more is an id.
abbrev read_id : String → Option String
read_id s = if s == "nonsense" || s == "" then none else some s

read_id_idem : (s u : String) → read_id s ≡ some u → read_id u ≡ some u
read_id_idem s u h = ground (arith, eq_iff s "", eq_iff u "", eq_iff s u)

abbrev strict : Postgres ℕ units
strict = record tables { uuid = read_id; uuid_idem = read_id_idem; uuid-empty = refl }

abbrev failure : ApiError
failure = record { code = internal; message = "failed to load bill" }

no_rows :
    (key : String) → strict.uuid "nonsense" ≡ some key → find_bill key empty_world.db.bills ≡ none
no_rows key h = cc

absent_id-absent_error_example :
    (get_bill strict clock without_workflow all_answered "nonsense" "acct-alpha" empty_world.db
      ≡ err failure)
    × (close_bill strict clock without_workflow all_answered "nonsense" "acct-alpha" empty_world.db
          empty_world.db
        ≡ err failure)
    × (list_line_items strict clock without_workflow plain_text all_answered "nonsense" "acct-alpha"
          empty_world.db none
        ≡ err failure)
    × (list_bill_events strict without_workflow plain_text all_answered "nonsense" "acct-alpha"
          empty_world.db none
        ≡ err failure)
absent_id-absent_error_example =
    absent_id-absent_error strict clock without_workflow plain_text "acct-alpha" "nonsense"
      empty_world.db empty_world.db none none refl no_rows

abbrev item_request : ListLineItemsRequest
item_request = record { cursor = "ii|nonsense"; limit = pos 5 }

abbrev event_request : ListBillEventsRequest
event_request = record { cursor = "ii|nonsense"; limit = pos 5 }

-- The second query breaks off.
abbrev breaking : Reads
breaking n = if leb n 0 then answered else broken_off "invalid input syntax"

malformed_cursor-Rejected_example :
    Rejected internal (
      list_line_items strict clock with_bill plain_text breaking "b1" "acct-alpha" empty_world.db
        (some item_request))
    × Rejected internal (
        list_bill_events strict with_bill plain_text breaking "b1" "acct-alpha" empty_world.db
          (some event_request))
unfolding assert_owns_bill load_bill_summary query_bill_state page_limit decode_keyset_cursor
malformed_cursor-Rejected_example =
    malformed_cursor-Rejected strict clock with_bill plain_text "acct-alpha" "b1" "ii|nonsense"
      empty_world.db breaking item_request event_request 5 5 internal refl refl refl refl refl
      (λ e. cc) refl
