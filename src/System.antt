-- ===== src/System.antt =====
-- The daemon as a whole: client requests, events of the node and administration, each of which
-- holds the lock of the database, in any order.
pub mod Solvency
pub mod Members
pub mod Admission
pub mod Task
use puncture.Common.{ℕ, String, Option, []}
use puncture.Models.{Tables}
use puncture.Ledger.Balance.{Fits}
use puncture.Codes.{Encoding}
use puncture.Handler.{Env, World}
use puncture.Rpc.Solvency.{IsSane}
use puncture.Api.{handle_request}
use puncture.Api.Messages.{Codec, ClientRpcRequest}
use puncture.LdkEvents.{Event, PaymentKind, process_ldk_event}
use puncture.Admin.{
  InviteRequest, RecoverUserRequest, user_invite, user_recover, invite_submit, recovery_submit,
}

-- A fresh installation.
abbrev pub fresh : World
fresh = record {
  db = record {
    users = [];
    invites = [];
    invoices = [];
    receives = [];
    sends = [];
    offers = [];
    recoveries = [];
  };
  bus = [];
  calls = [];
}

-- One step. The premises are about the operator's options and the volume of receipts so far; the node
-- may report anything.
pub data Step (w : World) : World → Type 0 where
  request :
      (codec : Codec) (env : Env) (user_id : String) (r : ClientRpcRequest)
      → IsSane env.args
      → Fits w.db
      → Step w (handle_request codec env user_id r w).1
  ldk_event :
      (now : ℕ) (payment : String → Option PaymentKind) (event : Event)
      → Step w (process_ldk_event now payment event w).1
  cli_invite :
      (codec : Encoding) (now : ℕ) (id node_id : String) (r : InviteRequest)
      → Step w (user_invite codec now id node_id r w).1
  cli_recover :
      (codec : Encoding) (now : ℕ) (id node_id : String) (r : RecoverUserRequest)
      → Step w (user_recover codec now id node_id r w).1
  ui_invite :
      (codec : Encoding) (now : ℕ) (id node_id : String) (r : InviteRequest)
      → Step w (invite_submit codec now id node_id r w).1
  ui_recover :
      (codec : Encoding) (now : ℕ) (id node_id user_pk : String)
      → Step w (recovery_submit codec now id node_id user_pk w).1

pub data Reach : World → Type 0 where
  start : Reach fresh
  next : {w w' : World} → Reach w → Step w w' → Reach w'
