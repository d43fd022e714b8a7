-- ===== src/Models.antt =====
-- The rows of the daemon's tables (puncture-daemon-db/src/models.rs) and the tables themselves
-- (puncture-daemon-db/migrations). Times are milliseconds since the Unix epoch and never negative.
-- Amounts are `i64` bit patterns. An id that the source keeps as bytes is its hex text here.
use puncture.Common.{ℕ, String, Option, none, some, List, [], ◌∷◌, ◌++◌, any, ◌==◌, if◌then◌else◌}

pub record User : Type 0 where
  pub user_pk : String
  pub invite_id : String
  pub recovery_name : Option String
  pub created_at : ℕ

pub record InviteRecord : Type 0 where
  pub id : String
  pub user_limit : ℕ
  pub expires_at : ℕ
  pub created_at : ℕ

pub record InvoiceRecord : Type 0 where
  pub id : String
  pub user_pk : String
  pub amount_msat : Option ℕ
  pub description : String
  pub pr : String
  pub expires_at : ℕ
  pub created_at : ℕ

pub record ReceiveRecord : Type 0 where
  pub id : String
  pub user_pk : String
  pub amount_msat : ℕ
  pub description : String
  pub pr : String
  pub created_at : ℕ

pub record SendRecord : Type 0 where
  pub id : String
  pub user_pk : String
  pub amount_msat : ℕ
  pub fee_msat : ℕ
  pub description : String
  pub pr : String
  pub status : String
  pub ln_address : Option String
  pub created_at : ℕ

pub record OfferRecord : Type 0 where
  pub id : String
  pub user_pk : String
  pub amount_msat : Option ℕ
  pub description : String
  pub pr : String
  pub expires_at : Option ℕ
  pub created_at : ℕ

pub record RecoveryRecord : Type 0 where
  pub id : String
  pub user_pk : String
  pub expires_at : ℕ
  pub created_at : ℕ

-- One list of rows for each table, in the order of insertion.
pub record Tables : Type 0 where
  pub users : List User
  pub invites : List InviteRecord
  pub invoices : List InvoiceRecord
  pub receives : List ReceiveRecord
  pub sends : List SendRecord
  pub offers : List OfferRecord
  pub recoveries : List RecoveryRecord

-- `INSERT` into a table whose primary key is `key`: `none` is a violation of its uniqueness.
abbrev pub insert_row {ℓ} : {A : Type ℓ} → (A → String) → A → List A → Option (List A)
insert_row key row rows = if any (λ r. key r == key row) rows then none else some (rows ++ row ∷ [])

-- `INSERT … ON CONFLICT DO NOTHING`.
abbrev pub insert_or_ignore {ℓ} : {A : Type ℓ} → (A → String) → A → List A → List A
insert_or_ignore key row rows = if any (λ r. key r == key row) rows then rows else rows ++ row ∷ []
