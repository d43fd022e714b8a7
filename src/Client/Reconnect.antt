-- ===== src/Client/Reconnect.antt =====
-- puncture-client/src/lib.rs, `reconnect`: the background task that keeps one connection, as a
-- relation of steps. The channel that it sends on holds the connection, if there is one.
use puncture.Common.{ℕ, ◌+◌, ◌-◌, ◌*◌, ◌^◌, ◌≤◌, ◌<◌, ◌≡◌, refl, Bool, true, false, arith}
use Prim.Native.Nat.{min}
use puncture.Common.Words.{mul64}

-- The i-th of `backoff_durations`, in milliseconds, from i = 1.
unfoldable pub backoff_duration : ℕ → ℕ
backoff_duration i = min (mul64 (mul64 i i) 100) 10000

-- Where the loop stands.
pub data Phase : Type 0 where
  connecting : Phase
  connected : Phase
  sleeping : ℕ → Phase

-- `next` is the place in the iterator, `sent` whether the channel holds a connection.
pub record Task : Type 0 where
  pub phase : Phase
  pub next : ℕ
  pub sent : Bool

abbrev pub spawned : Task
spawned = record { phase = Phase.connecting; next = 1; sent = false }

-- `sleep(backoff.next().unwrap())`
abbrev sleep_next : ℕ → Bool → Task
sleep_next next sent = record {
  phase = Phase.sleeping (backoff_duration next);
  next = next + 1;
  sent = sent;
}

pub data TaskStep : Task → Task → Type 0 where
  connects :
      (next : ℕ) (sent : Bool)
      → TaskStep
          (record { phase = Phase.connecting; next = next; sent = sent })
          (record { phase = Phase.connected; next = next; sent = true })
  -- The channel is cleared, and the back-off starts again.
  closes :
      (next : ℕ) (sent : Bool)
      → TaskStep (record { phase = Phase.connected; next = next; sent = sent }) (sleep_next 1 false)
  -- The channel is left alone.
  fails :
      (next : ℕ) (sent : Bool)
      → TaskStep
          (record { phase = Phase.connecting; next = next; sent = sent })
          (sleep_next next sent)
  wakes :
      (ms next : ℕ) (sent : Bool)
      → TaskStep
          (record { phase = Phase.sleeping ms; next = next; sent = sent })
          (record { phase = Phase.connecting; next = next; sent = sent })

pub data TaskReach : Task → Type 0 where
  start : TaskReach spawned
  step : {t t' : Task} → TaskReach t → TaskStep t t' → TaskReach t'

abbrev pub is_connected : Phase → Bool
is_connected Phase.connecting = false
is_connected Phase.connected = true
is_connected (Phase.sleeping ms) = false

-- A sleep is the square of its place in tenths of a second, and at most ten seconds.
abbrev pub AtPace : Phase → ℕ → Type 0
AtPace Phase.connecting place = Unit
AtPace Phase.connected place = Unit
AtPace (Phase.sleeping ms) place =
    (100 ≤ ms) × (ms ≤ 10000) × (ms ≡ min (100 * ((place - 1) * (place - 1))) 10000)

-- What the steps keep; the pace is kept while the squares fit 64 bits.
record IsPaced (t : Task) : Type 0 where
  sent_connected : t.sent ≡ is_connected t.phase
  later : 0 < t.next
  paced : t.next < 2 ^ 28 → AtPace t.phase t.next

backoff_duration_lem :
    (i : ℕ) → 0 < i → i < 2 ^ 28 → AtPace (Phase.sleeping (backoff_duration i)) (i + 1)
unfolding backoff_duration
backoff_duration_lem i positive small =
    let square : i * i < 2 ^ 56 = grind arith in
    let one : 1 ≤ i * i = grind arith in
    let place : i + 1 - 1 ≡ i = omega arith in
    rw place (omega (arith, square, one), omega arith, omega (arith, square))

TaskReach-IsPaced : {t : Task} → TaskReach t → IsPaced t
TaskReach-IsPaced TaskReach.start = record {
  sent_connected = refl;
  later = omega arith;
  paced = λ _. tt;
}
TaskReach-IsPaced (TaskReach.step r (TaskStep.connects next sent)) = record {
  sent_connected = refl;
  later = (TaskReach-IsPaced r).later;
  paced = λ _. tt;
}
TaskReach-IsPaced (TaskReach.step r (TaskStep.closes next sent)) = record {
  sent_connected = refl;
  later = omega arith;
  paced = λ _. backoff_duration_lem 1 (omega arith) (omega arith);
}
TaskReach-IsPaced (TaskReach.step r (TaskStep.fails next sent)) = record {
  sent_connected = (TaskReach-IsPaced r).sent_connected;
  later = omega arith;
  paced = λ small. backoff_duration_lem next (TaskReach-IsPaced r).later (omega (arith, small));
}
TaskReach-IsPaced (TaskReach.step r (TaskStep.wakes ms next sent)) = record {
  sent_connected = (TaskReach-IsPaced r).sent_connected;
  later = (TaskReach-IsPaced r).later;
  paced = λ _. tt;
}

-- In every state that the background task reaches, the channel holds a connection exactly while the
-- connection is open; and while the task has failed fewer than 2 ^ 28 times in a row, a sleep is
-- the square of its place in the back-off times 100 ms, at least 100 ms and at most ten seconds.
pub reconnect_paced :
    (t : Task)
    → TaskReach t
    → t.next < 2 ^ 28
    → (t.sent ≡ is_connected t.phase) × AtPace t.phase t.next
reconnect_paced t r small = let i = TaskReach-IsPaced r in (i.sent_connected, i.paced small)
