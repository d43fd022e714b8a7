-- ===== src/Api/Connections/Limit.antt =====
-- The limit on the connections of a user, and what a panic does to it.
use puncture.Common.{◌+◌, ◌≤◌, String, ◌≡◌, refl, arith, eq_iff}
use puncture.Common.Outcome.{err}
use puncture.Api.Connections.{
  or_zero, max_connections, open_connection, close_connection, Connections, no_connections,
  ConnectionStep, ConnectionReach,
}

-- Each counter is the number of a user's connections, those lost to a panic included.
record IsCounted (s : Connections) : Type 0 where
  pub counted : (u : String) → or_zero (s.counters u) ≡ s.live u + s.lost u
  pub limited : (u : String) → s.live u + s.lost u ≤ max_connections

Step-IsCounted : {s s' : Connections} → ConnectionStep s s' → IsCounted s → IsCounted s'
unfolding open_connection close_connection
Step-IsCounted {s} (ConnectionStep.accepted u e) h = record {
  counted = λ v. ground (arith, h.counted u, h.counted v, h.limited u, eq_iff v u);
  limited = λ v. ground (arith, h.counted u, h.counted v, h.limited u, h.limited v, eq_iff v u);
}
Step-IsCounted {s} (ConnectionStep.refused u message e) h = record {
  counted = λ v. ground (arith, h.counted u, h.counted v, eq_iff v u);
  limited = h.limited;
}
Step-IsCounted {s} (ConnectionStep.closed u some_live) h = record {
  counted = λ v. ground (arith, h.counted u, h.counted v, h.limited u, eq_iff v u);
  limited = λ v. ground (arith, h.limited u, h.limited v, eq_iff v u);
}
Step-IsCounted {s} (ConnectionStep.panicked u some_live) h = record {
  counted = λ v. ground (arith, h.counted u, h.counted v, eq_iff v u);
  limited = λ v. ground (arith, h.limited u, h.limited v, eq_iff v u);
}

Reach-IsCounted : {s s' : Connections} → ConnectionReach s s' → IsCounted s → IsCounted s'
Reach-IsCounted ConnectionReach.start h = h
Reach-IsCounted (ConnectionReach.next r step) h = Step-IsCounted step (Reach-IsCounted r h)

start_IsCounted : IsCounted no_connections
start_IsCounted = record { counted = λ u. refl; limited = λ u. omega arith }

lost-le : {s s' : Connections} (u : String) → ConnectionStep s s' → s.lost u ≤ s'.lost u
lost-le u (ConnectionStep.accepted v e) = omega arith
lost-le u (ConnectionStep.refused v message e) = omega arith
lost-le u (ConnectionStep.closed v some_live) = omega arith
lost-le {s} u (ConnectionStep.panicked v some_live) = ground (arith, eq_iff u v)

lost_on : {s s' : Connections} (u : String) → ConnectionReach s s' → s.lost u ≤ s'.lost u
lost_on u ConnectionReach.start = omega arith
lost_on u (ConnectionReach.next r step) = omega (arith, lost_on u r, lost-le u step)

-- A user who has lost 10 connections to panics is refused in every state from then on.
pub connections_lost :
    {s s' : Connections}
    → ConnectionReach no_connections s
    → ConnectionReach s s'
    → (u : String) → 10 ≤ s.lost u
    → (open_connection s'.counters u).0
      ≡ err "User has reached maximum of 10 simultaneous connections"
unfolding open_connection
connections_lost r r' u lost =
    let h = Reach-IsCounted r' (Reach-IsCounted r start_IsCounted) in
    ground (arith, h.counted u, lost_on u r')
