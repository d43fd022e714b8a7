-- ===== src/Ledger/Status.antt =====
-- What `update_send_status` does to the ledger: the one row with the id gets the new status and
-- fee, so its sender is charged what that row now costs.
use puncture.Common.{
  ℕ, ◌+◌, String, ◌≡◌, refl, false, inl, inr, some, none, List, [], ◌∷◌, arith, find, any,
  any_of_missing, Bool-cases, ◌==◌, eq_iff, if◌then◌else◌,
}
use mathlib.Core.Path.{subst}
use puncture.Models.{SendRecord, Tables}
use puncture.Ledger.{set_status, set_fee, update_send_status}
use puncture.Ledger.Balance.{cost, spent}

-- No two sends have one id.
abbrev pub DistinctIds : List SendRecord → Type 0
DistinctIds [] = Unit
DistinctIds (s ∷ rows) = (any (λ (r : SendRecord). r.id == s.id) rows ≡ false) × DistinctIds rows

abbrev pub charge : String → SendRecord → ℕ
charge u s = if s.user_pk == u then cost s else 0

abbrev pub resolve : String → ℕ → SendRecord → SendRecord
resolve status fee_msat s = record s { status = status; fee_msat = fee_msat }

module _ (id status : String) (fee_msat : ℕ) where
  resolve_all : List SendRecord → List SendRecord
  unfolding set_fee set_status
  resolve_all rows = set_fee id fee_msat (set_status id status rows)

  resolve_all-fresh :
      (rows : List SendRecord)
      → any (λ (r : SendRecord). r.id == id) rows ≡ false
      → resolve_all rows ≡ rows
  unfolding resolve_all
  resolve_all-fresh [] h = refl
  resolve_all-fresh (s ∷ rows) h = ground (arith, resolve_all-fresh rows)

  spent-resolve_all :
      (u : String) (s : SendRecord) (rows : List SendRecord)
      → DistinctIds rows
      → find (λ r. r.id == id) rows ≡ some s
      → spent u (resolve_all rows) + charge u s
        ≡ spent u rows + charge u (resolve status fee_msat s)
  unfolding resolve_all
  spent-resolve_all u s [] d h = cc
  spent-resolve_all u s (x ∷ rows) d h = elim (Bool-cases (x.id == id)) [
    | inl e ↦
        let fresh =
          subst (λ i. any (λ (r : SendRecord). r.id == i) rows ≡ false) ((eq_iff x.id id).0 e)
            d.0 in
        ground (arith, resolve_all-fresh rows fresh)
    | inr ne ↦ ground (arith, spent-resolve_all u s rows d.1)
  ]

  find-resolve_all :
      (s : SendRecord) (rows : List SendRecord)
      → find (λ r. r.id == id) rows ≡ some s
      → find (λ r. r.id == id) (resolve_all rows) ≡ some (resolve status fee_msat s)
  unfolding resolve_all
  find-resolve_all s [] h = cc
  find-resolve_all s (x ∷ rows) h = ground (arith, find-resolve_all s rows)

  any-resolve_all :
      (i : String) (rows : List SendRecord)
      → any (λ (r : SendRecord). r.id == i) (resolve_all rows)
        ≡ any (λ (r : SendRecord). r.id == i) rows
  unfolding resolve_all
  any-resolve_all i [] = refl
  any-resolve_all i (x ∷ rows) = ground (arith, any-resolve_all i rows)

  resolve_all-DistinctIds :
      (rows : List SendRecord) → DistinctIds rows → DistinctIds (resolve_all rows)
  unfolding resolve_all
  resolve_all-DistinctIds [] d = tt
  resolve_all-DistinctIds (x ∷ rows) d =
      ground (arith, any-resolve_all x.id rows, resolve_all-DistinctIds rows d.1)

  module _ (db : Tables) where
    pub update_send_status-DistinctIds :
        DistinctIds db.sends → DistinctIds (update_send_status db id status fee_msat).1.sends
    unfolding update_send_status resolve_all
    update_send_status-DistinctIds d = resolve_all-DistinctIds db.sends d

    -- The row that is found has the new status and fee, and nobody but its sender is charged.
    pub update_send_status_lem :
        (s : SendRecord)
        → DistinctIds db.sends
        → find (λ r. r.id == id) db.sends ≡ some s
        → let (row, db') = update_send_status db id status fee_msat in
          (row ≡ some (resolve status fee_msat s))
          × (db'.receives ≡ db.receives)
          × ((u : String)
              → spent u db'.sends + charge u s
                ≡ spent u db.sends + charge u (resolve status fee_msat s))
    unfolding update_send_status resolve_all
    update_send_status_lem s d h =
        (find-resolve_all s db.sends h, refl, λ u. spent-resolve_all u s db.sends d h)

    -- An id that no row has changes nothing.
    pub update_send_status-missing :
        find (λ (r : SendRecord). r.id == id) db.sends ≡ none
        → update_send_status db id status fee_msat ≡ (none, db)
    unfolding update_send_status resolve_all
    update_send_status-missing h =
        rw (resolve_all-fresh db.sends (any_of_missing (λ r. r.id == id) db.sends h), h)
