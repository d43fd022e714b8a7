-- ===== src/Admin/Invites.antt =====
-- An invite of the operator is one that a user can register with.
use puncture.Common.{
  ℕ, ◌+◌, ◌*◌, ◌<◌, ◌≤◌, ◌^◌, String, true, false, some, none, List, [], ◌∷◌, ◌++◌, any, find, ◌==◌,
  ◌≡◌, refl, arith, eq_refl, ltb, leb, Bool-cases, any-append, inl, inr,
}
use puncture.Common.Outcome.{ok, ◌>>=◌}
use puncture.Common.Words.{mul32}
use puncture.Node.{Answer}
use puncture.Models.{User, InviteRecord, Tables}
use puncture.Handler.{Env, World}
use puncture.ClientDb.{count_invite_users, get_invite, register_user_with_invite, user_exists}
use puncture.Rpc.Account.{register}
use puncture.Codes.{Encoding, invite, to_invite, encode, decode, decode-encode}
use puncture.Admin.{InviteRequest, invite_submit, user_invite}
use puncture.Admin.CliDb.{invite_row}
use puncture.Admin.UiDb
use puncture.Admin.CliDb

find-new :
    (id : String) (rows : List InviteRecord) (row : InviteRecord)
    → any (λ r. r.id == id) rows ≡ false
    → row.id ≡ id
    → find (λ r. r.id == id) (rows ++ row ∷ []) ≡ some row
find-new id [] row fresh same = rw (same, eq_refl id) refl
find-new id (r ∷ rows) row fresh same = ground (arith, find-new id rows row)

-- The seconds of some days, where they fit 32 bits: the dashboard and the command line multiply in
-- different orders.
seconds_of :
    (days : ℕ)
    → days * 86400 < 2 ^ 32
    → (mul32 (mul32 (mul32 days 24) 60) 60 ≡ days * 86400)
      × (mul32 (mul32 (mul32 days 60) 60) 24 ≡ days * 86400)
seconds_of days small = (omega arith, omega arith)

-- The tables with a new invite.
abbrev invited : ℕ → String → InviteRequest → World → World
invited now id form w = record w {
  db = record w.db {
    invites = w.db.invites ++ invite_row now id form.user_limit (form.expiry_days * 86400) ∷ [];
  };
}

module _ (codec : Encoding) (now : ℕ) (id node_id : String) (form : InviteRequest) (w : World) where
  submits :
      any (λ r. r.id == id) w.db.invites ≡ false
      → form.expiry_days * 86400 < 2 ^ 32
      → (invite_submit codec now id node_id form w
          ≡ (ok (encode codec (invite id node_id)), invited now id form w))
        × ((user_invite codec now id node_id form w).1 ≡ invited now id form w)
  unfolding invite_submit user_invite UiDb.create_invite CliDb.create_invite
  submits fresh small =
      let (dashboard, command) = seconds_of form.expiry_days small in
      (rw (fresh, dashboard) refl, rw (fresh, command) refl)

  -- A registration at the new invite: it succeeds, and leaves the user in the tables.
  joins :
      (env : Env) (user_pk : String)
      → any (λ r. r.id == id) w.db.invites ≡ false
      → count_invite_users w.db id < form.user_limit
      → env.now ≤ now + form.expiry_days * 86400 * 1000
      → register env user_pk (record { invite_id = id }) (invited now id form w) ≡ (
        ok (record { network = env.args.bitcoin_network; name = env.args.daemon_name }),
        record (invited now id form w) {
          db = register_user_with_invite env.now user_pk id (invited now id form w).db;
        },
      )
  unfolding register get_invite count_invite_users
  joins env user_pk fresh room early =
      let expired : ltb (now + form.expiry_days * 86400 * 1000) env.now ≡ false = ground arith in
      let full : leb form.user_limit (count_invite_users w.db id) ≡ false = ground arith in
      rw
        (
          find-new id w.db.invites (invite_row now id form.user_limit (form.expiry_days * 86400))
              fresh refl,
          expired,
          full,
        )
        refl

abbrev user_row : ℕ → String → String → User
user_row now user_pk id = record {
  user_pk = user_pk;
  invite_id = id;
  recovery_name = none;
  created_at = now;
}

registered :
    (now : ℕ) (user_pk id : String) (db : Tables)
    → user_exists (register_user_with_invite now user_pk id db) user_pk ≡ true
unfolding user_exists register_user_with_invite
registered now user_pk id db = elim (Bool-cases (any (λ row. row.user_pk == user_pk) db.users)) [
  | inl known ↦ rw known known
  | inr new ↦
      rw
        (
          new,
          any-append (λ row. row.user_pk == user_pk) db.users (user_row now user_pk id ∷ []),
          new,
          eq_refl user_pk,
        )
        refl
]

-- Where the drawn id is new, fewer users than the limit carry it, and the days in seconds fit 32 bits,
-- the dashboard answers with a code from which the id of the invite and of the daemon are read, where
-- hex and the binary format read what they write for it. The command line stores the same invite. Up
-- to the invite's last moment, a user who registers with this id gets the daemon's network and name,
-- and is in the tables.
pub invite_admits :
    (codec : Encoding) (now : ℕ) (id node_id : String) (form : InviteRequest) (w : World)
    (env : Env) (user_pk : String)
    → any (λ r. r.id == id) w.db.invites ≡ false
    → count_invite_users w.db id < form.user_limit
    → form.expiry_days * 86400 < 2 ^ 32
    → env.now ≤ now + form.expiry_days * 86400 * 1000
    → codec.from_hex (codec.to_hex (codec.to_bytes (invite id node_id)))
      ≡ Answer.granted (codec.to_bytes (invite id node_id))
    → codec.from_bytes (codec.to_bytes (invite id node_id)) ≡ Answer.granted (invite id node_id)
    → let (code, w') = invite_submit codec now id node_id form w in
      let (joined, w'') = register env user_pk (record { invite_id = id }) w' in
      (code >>= decode codec >>= to_invite ≡ ok (record { id = id; node_id = node_id }))
      × ((user_invite codec now id node_id form w).1 ≡ w')
      × (joined ≡ ok (record { network = env.args.bitcoin_network; name = env.args.daemon_name }))
      × (user_exists w''.db user_pk ≡ true)
unfolding to_invite invite
invite_admits codec now id node_id form w env user_pk fresh room small early hex bytes =
    let (dashboard, command) = submits codec now id node_id form w fresh small in
    let joined = joins codec now id node_id form w env user_pk fresh room early in
    rw (dashboard, command, joined, decode-encode codec (invite id node_id) hex bytes)
      (refl, refl, refl, registered env.now user_pk id _)
