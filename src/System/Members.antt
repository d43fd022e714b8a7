-- ===== src/System/Members.antt =====
-- The users that an invite has admitted, under the operations that add users and invites.
use puncture.Common.{
  ℕ, ◌+◌, ◌≤◌, String, ◌≡◌, refl, arith, Option, some, none, List, [], ◌∷◌, ◌++◌, length, filter,
  find, ◌==◌, eq_iff, if◌then◌else◌,
}
use puncture.Models.{User, InviteRecord, Tables}
use puncture.Common.Words.{mul32}
use puncture.ClientCore.{RegisterRequest, SetRecoveryNameRequest}
use puncture.Codes.{Encoding}
use puncture.ClientDb.{
  get_invite, count_invite_users, register_user_with_invite, rename,
  set_recovery_name as store_recovery_name,
}
use puncture.Handler.{Env, World}
use puncture.Rpc.Account.{register, set_recovery_name}
use puncture.Admin.{InviteRequest, user_invite, invite_submit}
use puncture.Admin.CliDb
use puncture.Admin.UiDb

-- The limit of an invite; no user is admitted by an id that is not an invite's.
abbrev pub limit_of : Tables → String → ℕ
limit_of db id = elim (get_invite db id) [ none ↦ 0 | some i ↦ i.user_limit ]

abbrev pub IsAdmitted : Tables → Type 0
IsAdmitted db = (id : String) → count_invite_users db id ≤ limit_of db id

-- The users that one more row admits under an id.
count-append :
    (id : String) (row : User) (rows : List User)
    → length (filter (λ (r : User). r.invite_id == id) (rows ++ row ∷ []))
      ≡ length (filter (λ (r : User). r.invite_id == id) rows)
        + (if row.invite_id == id then 1 else 0)
count-append id row [] = ground arith
count-append id row (x ∷ rows) = ground (arith, count-append id row rows)

count-rename :
    (id u : String) (name : Option String) (rows : List User)
    → length (filter (λ (r : User). r.invite_id == id) (rename u name rows))
      ≡ length (filter (λ (r : User). r.invite_id == id) rows)
unfolding rename
count-rename id u name [] = refl
count-rename id u name (x ∷ rows) = ground (arith, count-rename id u name rows)

module _ (env : Env) (u : String) (w : World) (admitted : IsAdmitted w.db) where
  pub register-IsAdmitted : (request : RegisterRequest) → IsAdmitted (register env u request w).1.db
  unfolding register register_user_with_invite get_invite count_invite_users
  register-IsAdmitted r id =
      let row : User = record {
        user_pk = u;
        invite_id = r.invite_id;
        recovery_name = none;
        created_at = env.now;
      } in
      ground (arith, admitted id, count-append id row w.db.users, eq_iff r.invite_id id)

  pub set_recovery_name-IsAdmitted :
      (request : SetRecoveryNameRequest) → IsAdmitted (set_recovery_name env u request w).1.db
  unfolding set_recovery_name store_recovery_name get_invite count_invite_users
  set_recovery_name-IsAdmitted r id =
      ground (arith, admitted id, count-rename id u r.recovery_name w.db.users)

-- A new invite raises no limit but its own.
find-append :
    (id : String) (row : InviteRecord) (rows : List InviteRecord)
    → find (λ (r : InviteRecord). r.id == id) (rows ++ row ∷ [])
      ≡ elim (find (λ (r : InviteRecord). r.id == id) rows) [
        | none ↦ if row.id == id then some row else none
        | some i ↦ some i
      ]
find-append id row [] = ground arith
find-append id row (x ∷ rows) = ground (arith, find-append id row rows)

module _ (codec : Encoding) (now : ℕ) (id node_id : String) (r : InviteRequest) (w : World)
    (admitted : IsAdmitted w.db) where
  pub user_invite-IsAdmitted : IsAdmitted (user_invite codec now id node_id r w).1.db
  unfolding user_invite CliDb.create_invite get_invite count_invite_users
  user_invite-IsAdmitted i = ground (
    arith,
    admitted i,
    find-append i
        (CliDb.invite_row now id r.user_limit (mul32 (mul32 (mul32 r.expiry_days 60) 60) 24))
        w.db.invites,
  )

  pub invite_submit-IsAdmitted : IsAdmitted (invite_submit codec now id node_id r w).1.db
  unfolding invite_submit UiDb.create_invite get_invite count_invite_users
  invite_submit-IsAdmitted i = ground (
    arith,
    admitted i,
    find-append i
        (CliDb.invite_row now id r.user_limit (mul32 (mul32 (mul32 r.expiry_days 24) 60) 60))
        w.db.invites,
  )
