-- ===== src/Kademlia/Distance.antt =====
-- Distances between node ids: `compute_distance` and `compute_log_distance` of p2p/kademlia.py.
use Prim.Native.Nat.{bit_xor}
use trinity.Prelude.{
  ℕ, ◌+◌, ◌-◌, ◌*◌, ◌^◌, ◌≤◌, ◌<◌, ◌≡◌, ◌≢◌, arith, bit_length, bit_length_upper, bit_length_lower,
  bit_length-le, bit_length-pos, bit_xor-lt, eq_of_bit_xor, bit_xor_comm, dec_lt,
}
use trinity.Prelude.Exec.{ok}
use trinity.Kademlia.{NodeId, compute_distance, compute_log_distance}

-- A node id has 32 bytes.
abbrev pub IsNodeId : NodeId → Type 0
IsNodeId n = n < 2 ^ 256

-- The place of a node among the buckets of a table.
unfoldable pub index_of : NodeId → NodeId → ℕ
index_of center n = bit_length (compute_distance center n) - 1

module _ (a b : NodeId) (ha : IsNodeId a) (hb : IsNodeId b) (ne : a ≢ b) where
  pub distance_pos : 0 < compute_distance a b
  unfolding compute_distance
  distance_pos = elim (dec_lt 0 (bit_xor a b)) [
    | yes p ↦ p
    | no p ↦ absurd (ne (eq_of_bit_xor 256 a b ha hb (omega arith)))
  ]

  -- Two different ids have a log distance from 1 to 256, and its bit is the highest in which the
  -- ids differ.
  pub log_distance_lem :
      {S : Type 0} (s : S)
      → (d : ℕ) × (compute_log_distance a b s ≡ (ok d, s))
        × (d ≡ index_of a b + 1)
        × (d ≤ 256)
        × (2 ^ d ≤ 2 * compute_distance a b)
        × (compute_distance a b < 2 ^ d)
  unfolding compute_log_distance index_of compute_distance
  log_distance_lem s = (
    bit_length (bit_xor a b),
    ground (arith),
    omega (arith, bit_length-pos (bit_xor a b) distance_pos),
    bit_length-le 256 (bit_xor a b) (bit_xor-lt 256 a b ha hb),
    bit_length_lower (bit_xor a b) distance_pos,
    bit_length_upper (bit_xor a b),
  )

-- The distance does not depend on the order of the two ids.
pub distance_comm :
    (a b : NodeId) → IsNodeId a → IsNodeId b → compute_distance a b ≡ compute_distance b a
unfolding compute_distance
distance_comm a b ha hb = bit_xor_comm 256 a b ha hb
