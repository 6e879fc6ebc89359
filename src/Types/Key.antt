-- ===== src/Types/Key.antt =====
-- go-pure-impl/types.go: PairKey.
use Prim.Native.Nat.{bit_or}
use priority_service_poc.Base.{ℕ, ◌+◌, ◌*◌, ◌%◌, ◌^◌, ◌<◌, ◌≡◌, ap, ◌∙◌, sym, arith}
use priority_service_poc.Base.Bits.{bit_or-shift}

-- `uint64(ppsID)<<32 | uint64(bintagID)`
unfoldable pub make_pair_key : ℕ → ℕ → ℕ
make_pair_key pps_id bintag_id = bit_or (pps_id * 2 ^ 32 % 2 ^ 64) bintag_id

make_pair_key-eq_sum :
    (pps_id bintag_id : ℕ)
    → pps_id < 2 ^ 32
    → bintag_id < 2 ^ 32
    → make_pair_key pps_id bintag_id ≡ pps_id * 2 ^ 32 + bintag_id
unfolding make_pair_key
make_pair_key-eq_sum p b hp hb =
    ap (λ (t : ℕ). bit_or t b) {x = p * 2 ^ 32 % 2 ^ 64} {y = p * 2 ^ 32} (omega arith)
    ∙ bit_or-shift 32 p b hb

-- Two pairs of uint32 identifiers with the same key are the same pair.
pub make_pair_key-injective :
    (p b q c : ℕ)
    → p < 2 ^ 32
    → b < 2 ^ 32
    → q < 2 ^ 32
    → c < 2 ^ 32
    → make_pair_key p b ≡ make_pair_key q c
    → (p ≡ q) × (b ≡ c)
make_pair_key-injective p b q c hp hb hq hc e =
    let sums : p * 2 ^ 32 + b ≡ q * 2 ^ 32 + c =
      sym (make_pair_key-eq_sum p b hp hb) ∙ e ∙ make_pair_key-eq_sum q c hq hc in
    (omega arith, omega arith)
