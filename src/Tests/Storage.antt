-- ===== src/Tests/Storage.antt =====
-- The theorems about the activities at concrete tables.
use redesigned_disco.Prelude.{arith, suc, ℕ, length, ◌≡◌, refl, true, List, [], ◌∷◌}
use redesigned_disco.Models.{opened, closed, CloseBillActivityInput, by_signal}
use redesigned_disco.Activities.{
  World, Conn, refused, reply_lost, append_line_item_activity, create_bill_activity,
  close_bill_activity, append_event,
}
use redesigned_disco.Store.Statements.{
  insert_bill, insert_line_item, insert_event, add_to_total, close_bill_row,
}
use redesigned_disco.Activities.Retry.{Attempt, Kept, execute_activity}
use redesigned_disco.Activities.Append.{Taken}
use redesigned_disco.Activities.AtMostOnce.{AtMostOnce, execute_append-AtMostOnce}
use redesigned_disco.Activities.Calls.{Call, create, append, close, perform_all, perform}
use redesigned_disco.Activities.Ledger.{IsLedger}
use redesigned_disco.Activities.LedgerKept.{perform_all-IsLedger}
use redesigned_disco.Activities.Audit.{IsAudited, count_events}
use redesigned_disco.Activities.Closing.{
  IsClosed, execute_close-IsClosed, unheard_then, close_retry-logs_twice,
}
use redesigned_disco.Activities.Keys.{IsKeyed}
use redesigned_disco.Activities.History.{IsLater, perform_all-IsLater}
use redesigned_disco.Activities.Counters.{Counted, entries, increments, perform_all-Counted}
use redesigned_disco.Activities.AuditKept.{perform_all-IsAudited}
use redesigned_disco.Tests.Fixtures.{
  tables, healthy, healthy_as, delivered_as, empty_world, open_bill_of, fee_row,
}

abbrev pub unheard : Conn
unheard = record (healthy_as "e2") { commit = reply_lost }

abbrev pub closing : CloseBillActivityInput ℕ
closing = record {
  bill_id = "b1";
  actor = "acct-alpha";
  total_amount = 15;
  closed_at = 9;
  close_reason = by_signal;
}

abbrev pub life : List (Call ℕ)
life =
    create healthy (open_bill_of 0 0)
    ∷ append unheard fee_row
    ∷ append (healthy_as "e3") fee_row
    ∷ close (healthy_as "e4") closing
    ∷ []

-- A commit that nobody heard of and a retry store one item, with one entry for it.
life_stores_once :
    let after = (perform_all tables life empty_world).db in
    (length after.items ≡ 1) × (length after.events ≡ 3)
unfolding perform_all perform create_bill_activity append_line_item_activity close_bill_activity
    append_event insert_bill insert_line_item insert_event add_to_total close_bill_row
life_stores_once = (refl, refl)

abbrev opened_world : World ℕ
opened_world = perform_all tables (create healthy (open_bill_of 0 0) ∷ []) empty_world

abbrev retries : List Attempt
retries = record { conn = unheard; delivered = true } ∷ delivered_as "e3" ∷ []

execute_append-AtMostOnce_example :
    Kept
      (λ v. AtMostOnce tables fee_row opened_world.db v.db)
      (λ v. Taken tables fee_row v.db)
      (execute_activity (λ c. append_line_item_activity tables c fee_row) retries opened_world)
execute_append-AtMostOnce_example = execute_append-AtMostOnce tables fee_row retries opened_world

pub empty-IsLedger : IsLedger tables empty_world.db
empty-IsLedger = record { balanced = tt; referenced = λ bill h. refl }

perform_all-IsLedger_example : IsLedger tables (perform_all tables life empty_world).db
perform_all-IsLedger_example = perform_all-IsLedger tables life empty_world empty-IsLedger

pub empty_audit : IsAudited empty_world.db
empty_audit = record {
  recorded = tt;
  no_entries = λ b h. refl;
  no_additions = λ b h. refl;
  no_items = λ b h. refl;
}

perform_all-IsAudited_example : IsAudited (perform_all tables life empty_world).db
perform_all-IsAudited_example = perform_all-IsAudited tables life empty_world empty_audit

pub empty-IsKeyed : IsKeyed tables empty_world.db
empty-IsKeyed = record {
  bills = record { distinct = tt; canonical = tt };
  items = record { distinct = tt; canonical = tt };
  events = record { distinct = tt; canonical = tt };
}

perform_all-IsLater_example : IsLater opened_world.db (perform_all tables life opened_world).db
perform_all-IsLater_example = perform_all-IsLater tables life opened_world

-- One refused commit, and the same activity again.
abbrev refused_first : List (Call ℕ)
refused_first =
    create (record healthy { commit = refused }) (open_bill_of 0 0)
    ∷ create healthy (open_bill_of 0 0)
    ∷ []

perform_all-Counted_example : Counted (perform_all tables refused_first empty_world)
perform_all-Counted_example =
    perform_all-Counted tables refused_first empty_world (λ kind. omega arith)

-- The refused commit is counted, though nothing is stored of it.
refused_is_counted :
    let after = perform_all tables refused_first empty_world in
    (increments opened after.metrics ≡ 2) × (entries opened after.db.events ≡ 1)
unfolding perform_all perform create_bill_activity append_event insert_bill insert_event
refused_is_counted = (refl, refl)

execute_close-IsClosed_example :
    Kept
      (λ v. v.db.items ≡ opened_world.db.items)
      (λ v. IsClosed tables closing v.db)
      (execute_activity (λ c. close_bill_activity tables c closing) retries opened_world)
execute_close-IsClosed_example = execute_close-IsClosed tables closing retries opened_world

close_retry-logs_twice_example :
    count_events closed "b1"
      (execute_activity
        (λ c. close_bill_activity tables c closing)
        (unheard_then tables closing (healthy_as "e2") (healthy_as "e3"))
        opened_world).1.db.events
    ≡ suc (suc (count_events closed "b1" opened_world.db.events))
unfolding perform_all perform create_bill_activity append_event insert_bill insert_event
    close_bill_activity close_bill_row
close_retry-logs_twice_example =
    close_retry-logs_twice tables closing (healthy_as "e2") (healthy_as "e3") opened_world "b1" refl
      refl refl
