-- ===== src/Client/Registration.antt =====
-- A registration is recorded by the client and by the daemon.
use puncture.Common.{
  ℕ, String, Bool, ◌≡◌, refl, true, false, Option, some, none, List, [], ◌∷◌, ◌++◌, any, any-append,
  Bool-cases, Option-cases, inl, inr, ◌==◌, eq_refl, arith,
}
use puncture.Common.Outcome.{Outcome, ok, ok-cases}
use puncture.Models.{User, insert_or_ignore}
use puncture.ClientCore.{RegisterRequest, RegisterResponse}
use puncture.ClientDb.{user_exists, register_user_with_invite}
use puncture.Codes.{InviteCode}
use puncture.Node.{Answer, Answer-cases}
use puncture.Handler.{Env, World}
use puncture.Rpc.Account.{register as register_handler}
use puncture.Api.{handle_request}
use puncture.Api.Messages.{Codec, Response}
use puncture.Client.{
  Writer, Delivery, Reader, request_json, written, or_failed, registered, register,
}
use puncture.Client.Store.{DaemonRecord, daemon_row, save_daemon, delete_daemon}

-- The store has a daemon with the id.
abbrev pub is_saved : String → List DaemonRecord → Bool
is_saved node_id daemons = any (λ d. d.node_id == node_id) daemons

insert_or_ignore-any :
    {A : Type 0} (key : A → String) (row : A) (rows : List A)
    → any (λ r. key r == key row) (insert_or_ignore key row rows) ≡ true
insert_or_ignore-any key row rows = elim (Bool-cases (any (λ r. key r == key row) rows)) [
  | inl known ↦ rw (known, known) refl
  | inr fresh ↦
      rw fresh
        (ground (arith, any-append (λ r. key r == key row) rows (row ∷ []), eq_refl (key row)))
]

delete_daemon-append :
    (d : DaemonRecord) (daemons : List DaemonRecord)
    → delete_daemon d.node_id (daemons ++ d ∷ []) ≡ delete_daemon d.node_id daemons
unfolding delete_daemon
delete_daemon-append d [] = ground (arith, eq_refl d.node_id)
delete_daemon-append d (x ∷ daemons) = ground (arith, delete_daemon-append d daemons)

delete_daemon-save_daemon :
    (now : ℕ) (node_id : String) (config : RegisterResponse) (daemons : List DaemonRecord)
    → delete_daemon node_id (save_daemon now node_id config daemons) ≡ delete_daemon node_id daemons
unfolding save_daemon
delete_daemon-save_daemon now node_id config daemons =
    elim (Bool-cases (is_saved node_id daemons)) [
      | inl known ↦ rw known refl
      | inr fresh ↦ rw fresh (delete_daemon-append (daemon_row now node_id config) daemons)
    ]

delete_daemon-unsaved :
    (node_id : String) (daemons : List DaemonRecord)
    → is_saved node_id daemons ≡ false
    → delete_daemon node_id daemons ≡ daemons
unfolding delete_daemon
delete_daemon-unsaved node_id [] h = refl
delete_daemon-unsaved node_id (d ∷ daemons) h =
    ground (arith, delete_daemon-unsaved node_id daemons)

-- A daemon that is not in the client's store, and is saved and then deleted, leaves the store as it
-- was.
pub saved_deleted :
    (now : ℕ) (node_id : String) (config : RegisterResponse) (daemons : List DaemonRecord)
    → is_saved node_id daemons ≡ false
    → delete_daemon node_id (save_daemon now node_id config daemons) ≡ daemons
saved_deleted now node_id config daemons unsaved =
    rw (delete_daemon-save_daemon now node_id config daemons)
      (delete_daemon-unsaved node_id daemons unsaved)

handler_registers :
    (env : Env) (u : String) (r : RegisterRequest) (w : World) (response : RegisterResponse)
    → (register_handler env u r w).0 ≡ ok response
    → user_exists (register_handler env u r w).1.db u ≡ true
unfolding register_handler register_user_with_invite user_exists
handler_registers env u r w response e = ground (
  arith,
  insert_or_ignore-any (λ (x : User). x.user_pk)
      (record { user_pk = u; invite_id = r.invite_id; recovery_name = none; created_at = env.now })
      w.db.users,
)

-- What the client reads of how the daemon ended.
abbrev read_response :
    (Answer Response → String) → Reader → Outcome Response → Option (Answer RegisterResponse)
read_response to_vec reader r = elim (written to_vec r) [
  | none ↦ none
  | some response ↦ reader.registered response
]

-- The client reads it as a registration only if it is this registration.
abbrev pub ReadsRegistered : (Answer Response → String) → Reader → Outcome Response → Type 0
ReadsRegistered to_vec reader r =
    (response : RegisterResponse)
    → elim (written to_vec r) [ none ↦ none | some text ↦ reader.registered text ]
      ≡ some (Answer.granted response)
    → r ≡ ok (Response.registered response)

module _ (reader : Reader) (to_vec : Answer Response → String) where
  registered_ok :
      (now : ℕ) (invite : InviteCode) (r : Outcome Response) (daemons : List DaemonRecord)
      → ReadsRegistered to_vec reader r
      → (registered now invite
          (or_failed "Failed to register" (read_response to_vec reader r))
          daemons).0
        ≡ Answer.granted tt
      → (response : RegisterResponse) × (r ≡ ok (Response.registered response))
        × (read_response to_vec reader r ≡ some (Answer.granted response))
  registered_ok now invite r daemons reads e = elim (Option-cases (read_response to_vec reader r)) [
    | inl unread ↦ ground (arith, unread)
    | inr (answer, read) ↦ elim (Answer-cases answer) [
      | inl (response, granted) ↦
          let same : read_response to_vec reader r ≡ some (Answer.granted response) =
            rw (read, granted) refl in
          (response, reads response same, same)
      | inr (m, refused) ↦ ground (arith, read, refused)
    ]
  ]

module _ (codec : Codec) (writer : Writer) (reader : Reader) (to_vec : Answer Response → String)
    (env : Env) (u : String) (now : ℕ) (invite : InviteCode) (daemons : List DaemonRecord)
    (w : World) where
  handle_register :
      (body : String) (response : Response)
      → (handle_request codec env u (record { method = "register"; request = body }) w).0
        ≡ ok response
      → user_exists
          (handle_request codec env u (record { method = "register"; request = body }) w).1.db
          u
        ≡ true
  unfolding handle_request
  handle_register body response e = elim (Answer-cases (codec.register body)) [
    | inl (r, read) ↦ elim (ok-cases (register_handler env u r w).0) [
      | inl (a, done) ↦ ground (arith, read, done, handler_registers env u r w a)
      | inr failed ↦ ground (arith, read, failed)
    ]
    | inr (m, read) ↦ ground (arith, read)
  ]

  -- A registration that the client sees succeed is recorded on both sides, whatever the streams do,
  -- where the client reads how the daemon's method ended as a registration only if it is this one:
  -- the daemon knows the user, and the client's store has the daemon of the invite and, besides it,
  -- what it had before.
  pub register_recorded :
      (receiver : Option Delivery)
      → ReadsRegistered to_vec reader
          (handle_request codec env u
            (record {
              method = "register";
              request = writer.register (record { invite_id = invite.id });
            })
            w).0
      → (register writer reader to_vec
          (handle_request codec env u)
          now
          receiver
          invite
          daemons
          w).0.0
        ≡ Answer.granted tt
      → let ((answer, daemons'), w') =
          register writer reader to_vec
            (handle_request codec env u)
            now
            receiver
            invite
            daemons
            w in
        (user_exists w'.db u ≡ true)
        × (is_saved invite.node_id daemons' ≡ true)
        × (delete_daemon invite.node_id daemons' ≡ delete_daemon invite.node_id daemons)
  unfolding register request_json save_daemon
  register_recorded none reads done = ground arith
  register_recorded (some Delivery.request_lost) reads done = ground arith
  register_recorded (some Delivery.response_lost) reads done = ground arith
  register_recorded (some Delivery.delivered) reads done =
      let body = writer.register (record { invite_id = invite.id }) in
      let r = (handle_request codec env u (record { method = "register"; request = body }) w).0 in
      let (response, e, read) = registered_ok reader to_vec now invite r daemons reads done in
      (
        handle_register body (Response.registered response) e,
        rw read (
            insert_or_ignore-any (λ (d : DaemonRecord). d.node_id)
              (daemon_row now invite.node_id response) daemons),
        rw read (delete_daemon-save_daemon now invite.node_id response daemons),
      )
