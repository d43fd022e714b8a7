-- ===== src/LdkEvents/Slots.antt =====
-- A payment that the node settles no longer counts against the limit of pending payments.
use mathlib.Core.Path.{subst}
use puncture.Common.{
  ℕ, ◌+◌, String, ◌≡◌, ◌≢◌, ◌&&◌, if◌then◌else◌, refl, true, false, Option, some, List, [], ◌∷◌,
  arith, find, any, Bool-cases, inl, inr, ◌==◌, eq_refl, eq_iff, length, filter,
}
use puncture.Models.{SendRecord}
use puncture.Ledger.{set_status, set_fee, update_send_status}
use puncture.Ledger.Status.{DistinctIds}
use puncture.ClientDb.{count_pending_sends}
use puncture.Handler.{World}
use puncture.LdkEvents.{Event, PaymentKind, process_ldk_event}
use puncture.LdkEvents.Solvency.{failed_tables, successful_tables}

-- The pending sends of a user.
abbrev pending : String → List SendRecord → ℕ
pending u rows = length (filter (λ s. s.status == "pending") (filter (λ s. s.user_pk == u) rows))

-- The slot that one send takes of a user.
abbrev pub slot : String → SendRecord → ℕ
slot u s = if s.user_pk == u && s.status == "pending" then 1 else 0

module _ (id status : String) (fee : ℕ) (final : (status == "pending") ≡ false) where
  pending-fresh :
      (u : String) (rows : List SendRecord)
      → any (λ (r : SendRecord). r.id == id) rows ≡ false
      → pending u (set_fee id fee (set_status id status rows)) ≡ pending u rows
  unfolding set_fee set_status
  pending-fresh u [] h = refl
  pending-fresh u (x ∷ rows) h = ground (arith, pending-fresh u rows)

  pending-settled :
      (u : String) (s : SendRecord) (rows : List SendRecord)
      → DistinctIds rows
      → find (λ r. r.id == id) rows ≡ some s
      → pending u (set_fee id fee (set_status id status rows)) + slot u s ≡ pending u rows
  unfolding set_fee set_status
  pending-settled u s [] d h = cc
  pending-settled u s (x ∷ rows) d h = elim (Bool-cases (x.id == id)) [
    | inl e ↦
        let fresh =
          subst (λ i. any (λ (r : SendRecord). r.id == i) rows ≡ false) ((eq_iff x.id id).0 e)
            d.0 in
        ground (arith, pending-fresh u rows fresh)
    | inr ne ↦ ground (arith, pending-settled u s rows d.1)
  ]

module _ (now : ℕ) (payment : String → Option PaymentKind) (id : String) (s : SendRecord)
    (w : World) where
  -- Where the ids of sends are distinct and the send s with the id is pending: when the node
  -- reports that the payment failed, and when it reports that it succeeded at any fee, its sender
  -- has one pending payment less, and every other user has as many as before.
  pub settled_frees_slot :
      (fee : ℕ)
      → DistinctIds w.db.sends
      → find (λ (r : SendRecord). r.id == id) w.db.sends ≡ some s
      → (s.status == "pending") ≡ true
      → let failed = (process_ldk_event now payment (Event.payment_failed (some id)) w).1.db in
        let successful =
          (process_ldk_event now payment (Event.payment_successful (some id) (some fee)) w).1.db in
        (count_pending_sends failed s.user_pk + 1 ≡ count_pending_sends w.db s.user_pk)
        × (count_pending_sends successful s.user_pk + 1 ≡ count_pending_sends w.db s.user_pk)
        × ((u : String)
            → u ≢ s.user_pk
            → (count_pending_sends failed u ≡ count_pending_sends w.db u)
              × (count_pending_sends successful u ≡ count_pending_sends w.db u))
  unfolding count_pending_sends update_send_status
  settled_frees_slot fee distinct found live =
      let fails : (u : String)
          → pending u (update_send_status w.db id "failed" 0).1.sends + slot u s
            ≡ pending u w.db.sends =
        λ u. pending-settled id "failed" 0 refl u s w.db.sends distinct found in
      let succeeds : (u : String)
          → pending u (update_send_status w.db id "successful" fee).1.sends + slot u s
            ≡ pending u w.db.sends =
        λ u. pending-settled id "successful" fee refl u s w.db.sends distinct found in
      rw (failed_tables now payment w id, successful_tables now payment w id fee)
        (
          ground (arith, fails s.user_pk, eq_refl s.user_pk),
          ground (arith, succeeds s.user_pk, eq_refl s.user_pk),
          λ u other. (
            ground (arith, fails u, eq_iff s.user_pk u),
            ground (arith, succeeds u, eq_iff s.user_pk u),
          ),
        )
