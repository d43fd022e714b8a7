-- ===== src/System/Solvency.antt =====
-- In every reachable state nobody is overdrawn but by a report of the node, and the balance that
-- the daemon reports is real.
use puncture.Common.{
  ℕ, String, ◌-◌, ◌^◌, ◌<◌, ◌≤◌, ◌≡◌, ◌⊎◌, arith, Option, none, some, inl, inr, Bool-cases,
  Option-cases, true, find, ◌==◌, leb,
}
use puncture.Models.{SendRecord}
use puncture.Ledger.Status.{update_send_status_lem}
use puncture.LdkEvents.{Event, PaymentKind, process_ldk_event}
use puncture.Ledger.{user_balance}
use puncture.Ledger.Balance.{received, spent, user_balance_lem}
use puncture.Handler.{World}
use puncture.Rpc.Solvency.{IsSound}
use puncture.Rpc.Solvency.Others.{SameLedger-IsSound}
use puncture.Api.Solvency.{handle_request-IsSound}
use puncture.LdkEvents.Solvency.{process_ldk_event-IsSound, covered-IsSound, successful_tables}
use puncture.Admin.Ledger.{
  user_invite-SameLedger, user_recover-SameLedger, invite_submit-SameLedger,
  recovery_submit-SameLedger,
}
use puncture.System.{Step, Reach}

-- The state after the node has named a payment as successful, for a fee.
abbrev pub reported : ℕ → (String → Option PaymentKind) → String → ℕ → World → World
reported now payment id fee w =
    (process_ldk_event now payment (Event.payment_successful (some id) (some fee)) w).1

-- A report of the node has overdrawn a user: in a state where nobody is overdrawn, it named as
-- successful a payment that had failed before, or that cost more than the fee set aside for it, and
-- the payment's sender has then spent more than was received.
pub data Overrun : World → Type 0 where
  here :
      (w : World) (now : ℕ) (payment : String → Option PaymentKind) (id : String) (fee : ℕ)
      (s : SendRecord)
      → IsSound w.db
      → find (λ (r : SendRecord). r.id == id) w.db.sends ≡ some s
      → ((s.status == "failed") ≡ true) ⊎ (s.fee_msat < fee)
      → received s.user_pk w.db.receives < spent s.user_pk (reported now payment id fee w).db.sends
      → Overrun (reported now payment id fee w)
  later : {w w' : World} → Overrun w → Step w w' → Overrun w'

module _ (now : ℕ) (payment : String → Option PaymentKind) (w : World) (sound : IsSound w.db) where
  module _ (id : String) (fee : ℕ) where
    abbrev report : Event
    report = Event.payment_successful (some id) (some fee)

    abbrev after : World
    after = reported now payment id fee w

    -- A report that need not be cheaper leaves its sender covered, or overdraws him.
    dearer :
        (s : SendRecord)
        → find (λ (r : SendRecord). r.id == id) w.db.sends ≡ some s
        → ((s.status == "failed") ≡ true) ⊎ (s.fee_msat < fee)
        → Overrun after ⊎ IsSound after.db
    dearer s found why =
        let same = successful_tables now payment w id fee in
        let (row, receives, change) =
          update_send_status_lem id "successful" fee w.db s sound.distinct found in
        elim (Bool-cases
          (leb (spent s.user_pk after.db.sends) (received s.user_pk w.db.receives))) [
            | inl covered ↦ inr (
                rw same (
                  covered-IsSound id "successful" fee w.db sound s found
                    (ground (arith, same, receives, covered))))
            | inr over ↦
                inl (Overrun.here w now payment id fee s sound found why (ground (arith, over)))
          ]

    settled : Overrun after ⊎ IsSound after.db
    settled = elim (Option-cases (find (λ (r : SendRecord). r.id == id) w.db.sends)) [
      | inl missing ↦
          inr
            (process_ldk_event-IsSound now payment w sound report λ i f s e e' found. ground arith)
      | inr (s, found) ↦ elim (Bool-cases (s.status == "failed")) [
        | inl failed ↦ dearer s found (inl failed)
        | inr live ↦ elim (Bool-cases (leb fee s.fee_msat)) [
          | inl within ↦ inr (
              process_ldk_event-IsSound now payment w sound report
                λ i f t e e' found'. ground arith)
          | inr above ↦ dearer s found (inr (ground (arith, above)))
        ]
      ]
    ]

  event-IsSound :
      (event : Event)
      → Overrun (process_ldk_event now payment event w).1
        ⊎ IsSound (process_ldk_event now payment event w).1.db
  event-IsSound (Event.payment_received id amount) =
      inr (process_ldk_event-IsSound now payment w sound (Event.payment_received id amount) tt)
  event-IsSound (Event.payment_successful none fee) = inr (unfold process_ldk_event in sound)
  event-IsSound (Event.payment_successful (some id) none) = inr (unfold process_ldk_event in sound)
  event-IsSound (Event.payment_successful (some id) (some fee)) = settled id fee
  event-IsSound (Event.payment_failed id) =
      inr (process_ldk_event-IsSound now payment w sound (Event.payment_failed id) tt)
  event-IsSound Event.other = inr (process_ldk_event-IsSound now payment w sound Event.other tt)

pub Step-IsSound : {w w' : World} → Step w w' → IsSound w.db → Overrun w' ⊎ IsSound w'.db
Step-IsSound {w} (Step.request codec env u r sane fits) h =
    inr (handle_request-IsSound codec env u r w sane fits h)
Step-IsSound {w} (Step.ldk_event now payment event) h = event-IsSound now payment w h event
Step-IsSound {w} (Step.cli_invite codec now id node_id r) h =
    inr (SameLedger-IsSound _ w.db (user_invite-SameLedger codec now id node_id w r) h)
Step-IsSound {w} (Step.cli_recover codec now id node_id r) h =
    inr (SameLedger-IsSound _ w.db (user_recover-SameLedger codec now id node_id w r) h)
Step-IsSound {w} (Step.ui_invite codec now id node_id r) h =
    inr (SameLedger-IsSound _ w.db (invite_submit-SameLedger codec now id node_id w r) h)
Step-IsSound {w} (Step.ui_recover codec now id node_id u) h =
    inr (SameLedger-IsSound _ w.db (recovery_submit-SameLedger codec now id node_id w u) h)

pub Reach-IsSound : {w : World} → Reach w → Overrun w ⊎ IsSound w.db
Reach-IsSound Reach.start = inr (record { solvent = λ u. omega arith; distinct = tt })
Reach-IsSound (Reach.next r s) = elim (Reach-IsSound r) [
  | inl over ↦ inl (Overrun.later over s)
  | inr h ↦ Step-IsSound s h
]

-- Take any state that a fresh daemon reaches by requests, any reports of the node and administration
-- in any order, where the base fee is at least 1000 msat and both base fees are below 2 ^ 62, and each
-- user's receipts are below 2 ^ 63 msat when a request is handled. Then either no user whose receipts
-- are below 2 ^ 63 msat has spent more than was received, and the balance that the daemon reports is
-- what was received less what was spent; or an earlier report of the node overdrew a user: it named as
-- successful a payment that had failed before or cost more than the fee set aside for it, beyond what
-- its sender had, and nobody was overdrawn before this report.
pub user_balance_reached :
    {w : World}
    → Reach w
    → (u : String) → received u w.db.receives < 2 ^ 63
    → Overrun w
      ⊎ (spent u w.db.sends ≤ received u w.db.receives)
        × (user_balance w.db u ≡ received u w.db.receives - spent u w.db.sends)
user_balance_reached {w} r u fits = elim (Reach-IsSound r) [
  | inl over ↦ inl over
  | inr h ↦ inr (h.solvent u, user_balance_lem w.db u fits (h.solvent u))
]
