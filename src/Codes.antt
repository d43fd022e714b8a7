-- ===== src/Codes.antt =====
-- puncture-core/src/lib.rs: the codes that an operator hands to users. An id is its hex text.
-- Hex (bitcoin::hex) and the binary format (postcard) are parameters.
use text.Mathlib.Text.{starts_with}
use text.Mathlib.TextPositions.{len-append, slice-append_right, starts_with-append}
use Prim.Native.String.{len, slice}
use puncture.Common.{ℕ, String, List, ◌≡◌, not, if◌then◌else◌}
use puncture.Common.Outcome.{Outcome, ok, err, ◌>>=◌}
use puncture.Common.Text.{◌<>◌}
use puncture.Node.{Answer, error_text}

pub record InviteCode : Type 0 where
  pub id : String
  pub node_id : String

pub record RecoveryCode : Type 0 where
  pub id : String

pub data PunctureCode : Type 0 where
  invite_code : InviteCode → PunctureCode
  recovery_code : RecoveryCode → PunctureCode

-- `PunctureCode::invite`, `PunctureCode::recovery`
unfoldable pub invite : String → String → PunctureCode
invite id node_id = PunctureCode.invite_code (record { id = id; node_id = node_id })

unfoldable pub recovery : String → PunctureCode
recovery id = PunctureCode.recovery_code (record { id = id })

unfoldable pub to_invite : PunctureCode → Outcome InviteCode
to_invite (PunctureCode.invite_code c) = ok c
to_invite (PunctureCode.recovery_code c) = err "This is a recovery code"

unfoldable pub to_recovery : PunctureCode → Outcome RecoveryCode
to_recovery (PunctureCode.invite_code c) = err "This is an invite code"
to_recovery (PunctureCode.recovery_code c) = ok c

-- What the code takes from its libraries.
pub record Encoding : Type 0 where
  pub to_bytes : PunctureCode → List ℕ
  pub from_bytes : List ℕ → Answer PunctureCode
  pub to_hex : List ℕ → String
  pub from_hex : String → Answer (List ℕ)

unfoldable pub encode : Encoding → PunctureCode → String
encode codec code = "pct" <> codec.to_hex (codec.to_bytes code)

slice-payload : (t : String) → slice ("pct" <> t) 3 (len ("pct" <> t)) ≡ t
slice-payload t = rw (len-append "pct" t) (slice-append_right "pct" t)

-- The text after the prefix of three bytes, `&s[3..]`.
unfoldable pub decode : Encoding → String → Outcome PunctureCode
decode codec s = if not (starts_with s "pct") then err "Invalid prefix" else do
  bytes ← error_text (codec.from_hex (slice s 3 (len s)))
  error_text (codec.from_bytes bytes)

-- A code that was written is read back, where hex and the binary format read what they write for
-- it.
pub decode-encode :
    (codec : Encoding) (c : PunctureCode)
    → codec.from_hex (codec.to_hex (codec.to_bytes c)) ≡ Answer.granted (codec.to_bytes c)
    → codec.from_bytes (codec.to_bytes c) ≡ Answer.granted c
    → decode codec (encode codec c) ≡ ok c
unfolding decode encode
decode-encode codec c hex bytes =
    let payload = codec.to_hex (codec.to_bytes c) in
    rw (starts_with-append "pct" payload, slice-payload payload, hex, bytes)
