-- ===== src/Tests/Lists.antt =====
-- The theorems about the list endpoints at the tables after a bill's life.

use redesigned_disco.Endpoints.PageSizes.{IsPage, lists-IsPage}
use redesigned_disco.Endpoints.ListItems.{
  ListLineItemsResponse, list_line_items, decode_line_item_cursor, read_page,
}
use redesigned_disco.Prelude.{
  take, none, ℕ, suc, select, String, ◌≡◌, ◌==◌, refl, some, Option, map, length, All, inr,
}
use redesigned_disco.Errs.{ok}
use redesigned_disco.Models.{BillResult, by_signal}
use redesigned_disco.Store.{Db}
use redesigned_disco.Store.Reads.{answered, all_answered}
use redesigned_disco.Store.Statements.{
  insert_bill, insert_line_item, insert_event, add_to_total, close_bill_row,
}
use redesigned_disco.Activities.{
  create_bill_activity, append_line_item_activity, close_bill_activity, append_event,
}
use redesigned_disco.Activities.Calls.{perform_all, perform}
use redesigned_disco.Activities.Keys.{IsKeyed, perform_all-IsKeyed}
use redesigned_disco.Views.{to_line_item_views, to_line_item_view, to_bill_view}
use redesigned_disco.Keyset.Sorting.{IsListing}
use redesigned_disco.Keyset.Walk.{walk}
use redesigned_disco.Endpoints.Loading.{
  TemporalClient, item_of_row, items_of, assert_owns_bill, query_bill_state, load_bill_summary,
  scan_bill_row,
}
use redesigned_disco.Endpoints.Cursors.{encode_line_item_cursor, pos, page_limit}
use redesigned_disco.Endpoints.ListEvents.{
  ListBillEventsRequest, ListBillEventsResponse, list_bill_events, read_events_page,
  requested_events_cursor, events_of,
}
use redesigned_disco.Endpoints.ListBills.{
  is_wanted, bills_of, list_bills, ListBillsRequest, ListBillsResponse, normalize_list_status,
  decode_bill_cursor, query_bills_page,
}
use redesigned_disco.Endpoints.ItemPages.{by_creation, serve_items, walk-list_line_items}
use redesigned_disco.Endpoints.EventPages.{by_time, serve_events, walk-list_bill_events}
use redesigned_disco.Endpoints.BillPages.{newest_first, serve_bills, walk-list_bills}
use redesigned_disco.Endpoints.OwnBills.{list_bills-own}
use redesigned_disco.Tests.Fixtures.{units, tables, empty_world}
use redesigned_disco.Tests.Storage.{life, empty-IsKeyed}
use redesigned_disco.Tests.Requests.{with_bill, clock}
use redesigned_disco.Tests.Pages.{plain_text}

abbrev lived : Db ℕ
lived = (perform_all tables life empty_world).db

lived-IsKeyed : IsKeyed tables lived
lived-IsKeyed = perform_all-IsKeyed tables life empty_world empty-IsKeyed

-- The audit log of the bill's life has three entries; they come in three pages of one.
events_are_three : length (events_of "b1" lived.events) ≡ 3
unfolding perform_all perform create_bill_activity append_line_item_activity close_bill_activity
    append_event insert_bill insert_line_item insert_event add_to_total close_bill_row
events_are_three = refl

owned : assert_owns_bill tables with_bill answered "b1" "acct-alpha" lived ≡ ok tt
unfolding assert_owns_bill query_bill_state load_bill_summary
owned = refl

walk-list_line_items_example :
    IsListing by_creation
      (items_of "b1" lived.items)
      (map item_of_row (select (λ r. r.bill_id == "b1") lived.items))
    × (walk
          (serve_items tables clock with_bill plain_text "b1" "acct-alpha" "b1" lived (pos 1))
          (suc (length (items_of "b1" lived.items)))
          ""
        ≡ some (map (to_line_item_view units clock) (items_of "b1" lived.items)))
unfolding page_limit
walk-list_line_items_example =
    walk-list_line_items tables clock with_bill plain_text "b1" "acct-alpha" "b1" lived (pos 1) 0
      lived-IsKeyed owned refl refl

walk-list_bill_events_example :
    IsListing by_time (events_of "b1" lived.events) (select (λ e. e.bill_id == "b1") lived.events)
    × (walk
          (serve_events tables with_bill plain_text "b1" "acct-alpha" "b1" lived (pos 1))
          (suc (length (events_of "b1" lived.events)))
          ""
        ≡ some (events_of "b1" lived.events))
unfolding page_limit
walk-list_bill_events_example =
    walk-list_bill_events tables with_bill plain_text "b1" "acct-alpha" "b1" lived (pos 1) 0
      lived-IsKeyed owned refl refl

abbrev quoted : String → String
quoted s = s

walk-list_bills_example :
    IsListing newest_first
      (bills_of "acct-alpha" "CLOSED" lived.bills)
      (map scan_bill_row (select (is_wanted "acct-alpha" "CLOSED") lived.bills))
    × (walk
          (serve_bills tables clock plain_text quoted "acct-alpha" lived "CLOSED" (pos 1))
          (suc (length (bills_of "acct-alpha" "CLOSED" lived.bills)))
          ""
        ≡ some (map (to_bill_view units clock) (bills_of "acct-alpha" "CLOSED" lived.bills)))
unfolding page_limit
walk-list_bills_example =
    walk-list_bills tables clock plain_text quoted "acct-alpha" lived "CLOSED" (pos 1) 0
      lived-IsKeyed (inr (inr refl)) refl

abbrev closed_only : Option ListBillsRequest
closed_only = some (record { status = "CLOSED"; cursor = ""; limit = pos 0 })

abbrev shown_bills : ListBillsResponse
shown_bills = record {
  bills = map (to_bill_view units clock) (bills_of "acct-alpha" "CLOSED" lived.bills);
  next_cursor = "";
  limit = 50;
}

shown_by_list_bills :
    list_bills tables clock plain_text quoted answered "acct-alpha" lived closed_only
    ≡ ok shown_bills
unfolding list_bills page_limit normalize_list_status decode_bill_cursor query_bills_page
    scan_bill_row perform_all perform create_bill_activity append_line_item_activity
    close_bill_activity append_event insert_bill insert_line_item insert_event add_to_total
    close_bill_row
shown_by_list_bills = refl

one_bill_is_shown : length (bills_of "acct-alpha" "CLOSED" lived.bills) ≡ 1
unfolding perform_all perform create_bill_activity append_line_item_activity close_bill_activity
    append_event insert_bill insert_line_item insert_event add_to_total close_bill_row
one_bill_is_shown = refl

list_bills-own_example : All (λ v. v.account_id ≡ "acct-alpha") shown_bills.bills
list_bills-own_example =
    list_bills-own tables clock plain_text quoted "acct-alpha" lived answered closed_only
      shown_bills shown_by_list_bills

abbrev pub summary : BillResult ℕ
summary = record {
  bill_id = "b1";
  total_amount = 15;
  currency = "USD";
  item_count = 1;
  close_reason = by_signal;
}

-- A workflow that takes the signal and returns its result.
abbrev pub closing_workflow : TemporalClient ℕ
closing_workflow = record with_bill { signal_close = λ id. ok tt; await_result = λ id. ok summary }

abbrev first_item : ListLineItemsResponse
first_item = record {
  items = map (to_line_item_view units clock) (items_of "b1" lived.items);
  next_cursor = "";
  limit = 50;
}

abbrev two_events : Option ListBillEventsRequest
two_events = some (record { cursor = ""; limit = pos 2 })

abbrev first_events : ListBillEventsResponse
first_events = record {
  events = take 2 (events_of "b1" lived.events);
  next_cursor = "iiiiiii|e2";
  limit = 2;
}

item_answer :
    list_line_items tables clock with_bill plain_text all_answered "b1" "acct-alpha" lived none
    ≡ ok first_item
unfolding list_line_items page_limit decode_line_item_cursor read_page to_line_item_views
    assert_owns_bill load_bill_summary perform_all perform create_bill_activity
    append_line_item_activity close_bill_activity append_event insert_bill insert_line_item
    insert_event add_to_total close_bill_row
item_answer = refl

event_answer :
    list_bill_events tables with_bill plain_text all_answered "b1" "acct-alpha" lived two_events
    ≡ ok first_events
unfolding list_bill_events page_limit requested_events_cursor read_events_page
    encode_line_item_cursor assert_owns_bill load_bill_summary perform_all perform
    create_bill_activity append_line_item_activity close_bill_activity append_event insert_bill
    insert_line_item insert_event add_to_total close_bill_row
event_answer = refl

lists-IsPage_example :
    IsPage (length first_item.items) 50
    × IsPage (length first_events.events) 2
    × IsPage (length shown_bills.bills) 50
lists-IsPage_example =
    lists-IsPage tables clock plain_text with_bill quoted all_answered answered "b1" "acct-alpha"
      lived none two_events closed_only first_item first_events shown_bills item_answer event_answer
      shown_by_list_bills
