-- ===== src/Api/Connections.antt =====
-- puncture-daemon/src/client/mod.rs, `handle_connection_inner`: the counter of the connections that
-- a user has at the same time. The counters are a map from a user's id, which never loses a key.
pub mod Limit
use puncture.Common.{
  ◌≡◌, ℕ, ◌+◌, ◌-◌, ◌%◌, ◌<◌, String, Option, none, some, ltb, leb, ◌==◌, if◌then◌else◌,
}
use puncture.Common.Words.{word64, add64}
use puncture.Common.Outcome.{Outcome, ok, err, panic}

abbrev pub Counters : Type 0
Counters = String → Option ℕ

abbrev pub insert : {A : Type 0} → String → A → (String → A) → String → A
insert key value map = λ k. if k == key then value else map k

-- `or_insert_with(|| AtomicUsize::new(0))`
abbrev pub or_zero : Option ℕ → ℕ
or_zero none = 0
or_zero (some n) = n

abbrev pub max_connections : ℕ
max_connections = 10

-- From the entry of the user to `drop(counter)`. The entry is locked meanwhile; it is there
-- afterwards, also where the connection is refused.
unfoldable pub open_connection : Counters → String → Outcome (Unit {0}) × Counters
open_connection counters node_id =
    let count = or_zero (counters node_id) in
    if ltb count max_connections then (ok tt, insert node_id (some (add64 count 1)) counters) else (
      err "User has reached maximum of 10 simultaneous connections",
      insert node_id (some count) counters,
    )

-- `fetch_sub`, which wraps around.
abbrev less_one : ℕ → ℕ
less_one n = (n + (word64 - 1)) % word64

-- After `connection.closed()`.
unfoldable pub close_connection : Counters → String → Outcome (Unit {0}) × Counters
close_connection counters node_id = elim (counters node_id) [
  | none ↦ (panic "Counter not found", counters)
  | some n ↦ (ok tt, insert node_id (some (less_one n)) counters)
]

-- The connections of each user: those that are driven, and those whose task ended in a panic, which
-- no longer reaches the end of `handle_connection_inner`.
pub record Connections : Type 0 where
  pub counters : Counters
  pub live : String → ℕ
  pub lost : String → ℕ

abbrev pub no_connections : Connections
no_connections = record { counters = λ u. none; live = λ u. 0; lost = λ u. 0 }

-- A connection is accepted or refused, ends, or is lost with its task.
pub data ConnectionStep (s : Connections) : Connections → Type 0 where
  accepted :
      (u : String)
      → (open_connection s.counters u).0 ≡ ok tt
      → ConnectionStep s (record {
        counters = (open_connection s.counters u).1;
        live = insert u (s.live u + 1) s.live;
        lost = s.lost;
      })
  refused :
      (u message : String)
      → (open_connection s.counters u).0 ≡ err message
      → ConnectionStep s (record s { counters = (open_connection s.counters u).1 })
  closed :
      (u : String)
      → 0 < s.live u
      → ConnectionStep s (record {
        counters = (close_connection s.counters u).1;
        live = insert u (s.live u - 1) s.live;
        lost = s.lost;
      })
  panicked :
      (u : String)
      → 0 < s.live u
      → ConnectionStep s (record {
        counters = s.counters;
        live = insert u (s.live u - 1) s.live;
        lost = insert u (s.lost u + 1) s.lost;
      })

-- The states from a state on.
pub data ConnectionReach (s : Connections) : Connections → Type 0 where
  start : ConnectionReach s s
  next :
      {s' s'' : Connections} → ConnectionReach s s' → ConnectionStep s' s'' → ConnectionReach s s''
