-- ===== src/Tests/Limits.antt =====
-- The limits on payments under way and on connections, and what a user is shown, at a small daemon.
use Prim.Native.Nat.{min}
use puncture.Common.Sorting.{count_from, IsAscending}
use puncture.Common.Sorting.Count.{count}
use puncture.ClientCore.{Payment}
use puncture.ClientDb.Payments.{user_payments}
use puncture.ClientDb.Payments.Recent.{all_payments, user_payments_newest}
use puncture.Common.{ℕ, Bool, true, ◌+◌, ◌-◌, ◌≤◌, String, ◌≡◌, ◌≢◌, refl, arith, some, none}
use puncture.Common.Outcome.{ok, err}
use puncture.ClientDb.{count_pending_sends}
use puncture.Api.{handle_request}
use puncture.Api.Messages.{ClientRpcRequest}
use puncture.Api.Pending.{handle_request_pending}
use puncture.Api.Connections.{
  Connections, no_connections, insert, open_connection, ConnectionStep, ConnectionReach,
}
use puncture.Api.Connections.Limit.{connections_lost}
use puncture.LdkEvents.{Event, process_ldk_event}
use puncture.LdkEvents.Slots.{settled_frees_slot}
use puncture.Tests.Data.{env, shop, pending_send}
use puncture.Tests.Requests.{codec}

abbrev pays_again : ClientRpcRequest
pays_again = record { method = "bolt11_send"; request = "{}" }

shop_pending : (v : String) → count_pending_sends shop.db v ≤ 10
unfolding count_pending_sends
shop_pending v = ground arith

handle_request_pending_example :
    count_pending_sends (handle_request codec env "alice" pays_again shop).1.db "alice" ≤ 10
handle_request_pending_example =
    handle_request_pending codec env "alice" pays_again shop shop_pending "alice"

-- Eve connects, and makes the task of her connection panic.
abbrev connected : Connections → Connections
connected s = record {
  counters = (open_connection s.counters "eve").1;
  live = insert "eve" (s.live "eve" + 1) s.live;
  lost = s.lost;
}

abbrev crashed : Connections → Connections
crashed s =
    let c = connected s in
    record {
      counters = c.counters;
      live = insert "eve" (c.live "eve" - 1) c.live;
      lost = insert "eve" (c.lost "eve" + 1) c.lost;
    }

crash :
    {s : Connections}
    → ConnectionReach no_connections s
    → (open_connection s.counters "eve").0 ≡ ok tt
    → ConnectionReach no_connections (crashed s)
crash r e =
    ConnectionReach.next (ConnectionReach.next r (ConnectionStep.accepted "eve" e))
      (ConnectionStep.panicked "eve" (omega arith))

abbrev crashed_5 : Connections
crashed_5 = crashed (crashed (crashed (crashed (crashed no_connections))))

abbrev crashed_10 : Connections
crashed_10 = crashed (crashed (crashed (crashed (crashed crashed_5))))

crashed_5-Reach : ConnectionReach no_connections crashed_5
unfolding open_connection
crashed_5-Reach =
    crash (crash (crash (crash (crash ConnectionReach.start refl) refl) refl) refl) refl

crashed_10-Reach : ConnectionReach no_connections crashed_10
unfolding open_connection
crashed_10-Reach = crash (crash (crash (crash (crash crashed_5-Reach refl) refl) refl) refl) refl

connections_lost_example :
    (open_connection crashed_10.counters "eve").0
    ≡ err "User has reached maximum of 10 simultaneous connections"
connections_lost_example =
    connections_lost crashed_10-Reach ConnectionReach.start "eve" (omega arith)

-- Alice has one receipt and one payment under way.
alice_all : count (λ p. true) (all_payments shop.db "alice") ≡ 2
alice_all = refl

user_payments_newest_example :
    IsAscending (λ (p : Payment). p.created_at) (user_payments shop.db "alice")
    × ((test : Payment → Bool)
        → count test (user_payments shop.db "alice") ≤ count test (all_payments shop.db "alice"))
    × ((t : ℕ)
        → count_from (λ (p : Payment). p.created_at) t (user_payments shop.db "alice")
          ≡ min 50 (count_from (λ (p : Payment). p.created_at) t (all_payments shop.db "alice")))
user_payments_newest_example = user_payments_newest shop.db "alice"

settled_frees_slot_example :
    let failed =
      (process_ldk_event 6000 (λ i. none) (Event.payment_failed (some "s1")) shop).1.db in
    let successful =
      (process_ldk_event 6000
        (λ i. none)
        (Event.payment_successful (some "s1") (some 3000))
        shop).1.db in
    (count_pending_sends failed "alice" + 1 ≡ count_pending_sends shop.db "alice")
    × (count_pending_sends successful "alice" + 1 ≡ count_pending_sends shop.db "alice")
    × ((u : String)
        → u ≢ "alice"
        → (count_pending_sends failed u ≡ count_pending_sends shop.db u)
          × (count_pending_sends successful u ≡ count_pending_sends shop.db u))
settled_frees_slot_example =
    settled_frees_slot 6000 (λ i. none) "s1" pending_send shop 3000 (refl, tt) refl refl
