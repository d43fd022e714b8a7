-- ===== src/Operator/OpenedId.antt =====
-- The id that opening a channel returns is a number in decimal, while closing reads hex.
use Prim.Native.String.{len}
use text.Mathlib.TextPositions.{len-append}
use puncture.Common.{
  ℕ, zero, suc, ◌*◌, ◌/◌, ◌%◌, ◌≤◌, ◌<◌, String, ◌≡◌, refl, arith, List, Bool, false, inl, inr,
  Bool-cases, ltb,
}
use puncture.Common.Text.{digit, decimal_from, decimal128}
use puncture.Node.{Answer}
use puncture.Operator.{Ended, OperatorCall, OperatorNode}
use puncture.Operator.Messages.{OpenChannelRequest, CloseChannelRequest}
use puncture.Operator.Cli.{opening, ldk_channel_open, ldk_channel_close}
use puncture.Operator.Agreement.{is_done}

-- The least number with k + 1 digits.
abbrev pub ten_to : ℕ → ℕ
ten_to zero = 1
ten_to (suc k) = 10 * ten_to k

len-digit : (d : ℕ) → len (digit d) ≡ 1
unfolding digit
len-digit zero = refl
len-digit (suc zero) = refl
len-digit (suc (suc zero)) = refl
len-digit (suc (suc (suc zero))) = refl
len-digit (suc (suc (suc (suc zero)))) = refl
len-digit (suc (suc (suc (suc (suc zero))))) = refl
len-digit (suc (suc (suc (suc (suc (suc zero)))))) = refl
len-digit (suc (suc (suc (suc (suc (suc (suc zero))))))) = refl
len-digit (suc (suc (suc (suc (suc (suc (suc (suc zero)))))))) = refl
len-digit (suc (suc (suc (suc (suc (suc (suc (suc (suc d))))))))) = refl

-- A number with more than k digits is written with more than k.
len-decimal_from : (fuel k n : ℕ) → k < fuel → ten_to k ≤ n → k < len (decimal_from fuel n)
unfolding decimal_from
len-decimal_from zero k n enough h = absurd (omega arith)
len-decimal_from (suc fuel) zero n enough h = elim (Bool-cases (ltb n 10)) [
  | inl small ↦ rw small (omega (arith, len-digit n))
  | inr big ↦
      rw big (
        omega (arith, len-append (decimal_from fuel (n / 10)) (digit (n % 10)), len-digit (n % 10)))
]
len-decimal_from (suc fuel) (suc k) n enough h =
    let big : ltb n 10 ≡ false = ten_pos k n h in
    rw big (
      omega (
        arith,
        len-append (decimal_from fuel (n / 10)) (digit (n % 10)),
        len-digit (n % 10),
        len-decimal_from fuel k (n / 10) (omega arith) (omega arith),
      ))
  where
    ten_pos : (k n : ℕ) → ten_to (suc k) ≤ n → ltb n 10 ≡ false
    ten_pos zero n h = ground arith
    ten_pos (suc k) n h = ground (arith, ten_pos k (n / 10))

-- Where hex of an id has 32 digits and longer texts are refused: a channel that was opened with an
-- id of at least 10 ^ 32, as almost every id of 128 bits is, cannot be closed under the id that the
-- command line was given for it. The request ends in an error and makes no call.
pub opened_id_refused :
    (node : OperatorNode) (request : OpenChannelRequest) (address peer opened_id : String) (id : ℕ)
    (force : Bool) (calls calls' : List OperatorCall)
    → ((t : String) → 32 < len t → (e : String) × (node.channel_id_from_hex t ≡ Answer.refused e))
    → node.parse_socket_address request.socket_address ≡ Answer.granted address
    → (opening node request.public request.node_id address request.channel_amount_sats
        request.push_to_counterparty_msat).1
      ≡ Answer.granted id
    → ten_to 32 ≤ id
    → (ldk_channel_open node request calls).0 ≡ Ended.done opened_id
    → let close : CloseChannelRequest = record {
      user_channel_id = opened_id;
      counterparty_node_id = peer;
      force = force;
    } in
      (is_done (ldk_channel_close node close calls').0 ≡ false)
      × ((ldk_channel_close node close calls').1 ≡ calls')
unfolding ldk_channel_open ldk_channel_close decimal128
opened_id_refused node request address peer opened_id id force calls calls' law parsed opened big
      done =
    let same : decimal_from 39 id ≡ opened_id = ground arith in
    let (e, refused) = law (decimal_from 39 id) (len-decimal_from 39 32 id (omega arith) big) in
    rw (← same) (rw refused (refl, refl))
