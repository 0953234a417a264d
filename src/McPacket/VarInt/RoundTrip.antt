-- ===== src/McPacket/VarInt/RoundTrip.antt =====
-- Reading back what was written (MCPacket/Packet.cpp).
use cerios_cluster.Common.{
  ℕ, zero, suc, ◌+◌, ◌*◌, ◌/◌, ◌%◌, ◌^◌, ◌≤◌, ◌<◌, bit_and, bit_or, ◌≡◌, ap, ◌∙◌, List, [], ◌∷◌,
  ◌++◌, if◌then◌else◌, Bool, true, length, arith, drop, drop-append,
}
use cerios_cluster.Common.Bits.{bit_or_disjoint}
use cerios_cluster.Common.Outcome.{◌>>=◌, ok}
use cerios_cluster.McPacket.VarInt.{
  read_var_int_loop, read_var_int_from_buffer, write_var_int_to_buffer,
}
use cerios_cluster.McPacket.VarInt.Encoding.{encode, low_seven}
use cerios_cluster.McPacket.VarInt.Read.{top_bit}
use cerios_cluster.McPacket.VarInt.Write.{write_var_int_to_buffer_lem}
use native.Mathlib.Numerals.{towards_suc}
use native.Mathlib.Nat.{div-add-mod}

-- One more group is seven bits further up.
next_group : (n : ℕ) → 2 ^ ((n + 1) * 7) ≡ 128 * 2 ^ (n * 7)
next_group n = ap (λ (t : ℕ). 2 ^ t) (shift n) ∙ simp towards_suc (omega arith)
  where
    shift : (n : ℕ) → (n + 1) * 7 ≡ n * 7 + 7
    shift n = omega arith

split_group : (v n : ℕ) → v * 2 ^ (n * 7) ≡ v % 128 * 2 ^ (n * 7) + v / 128 * 2 ^ ((n + 1) * 7)
split_group v n = omega (
  arith,
  ap (λ (t : ℕ). t * 2 ^ (n * 7)) (div-add-mod v 128),
  ap (λ (t : ℕ). v / 128 * t) (next_group n),
)

-- One round of the loop on a byte that holds the group `g` adds it above the groups read so far.
add_group :
    (b g n acc : ℕ)
    → b % 128 ≡ g
    → acc < 2 ^ (n * 7)
    → acc + g * 2 ^ (n * 7) < 2 ^ 32
    → bit_or acc (bit_and b 127 * 2 ^ (n * 7) % 2 ^ 32) ≡ acc + g * 2 ^ (n * 7)
add_group b g n acc e h fits =
    ap (bit_or acc) (ap (λ (t : ℕ). t * 2 ^ (n * 7) % 2 ^ 32) (low_seven b ∙ e) ∙ omega arith)
    ∙ bit_or_disjoint (n * 7) acc g h

last_round :
    (g n acc : ℕ) (rest : List ℕ)
    → g < 128
    → n ≤ 4
    → acc < 2 ^ (n * 7)
    → acc + g * 2 ^ (n * 7) < 2 ^ 32
    → read_var_int_loop (g ∷ rest) n acc ≡ ok (n + 1, acc + g * 2 ^ (n * 7))
unfolding read_var_int_loop
last_round g n acc rest hg hn ha fits =
    rw (add_group g g n acc (omega arith) ha fits) (ground (arith, top_bit g))

inner_round :
    (g n acc : ℕ) (rest : List ℕ)
    → g < 128
    → n ≤ 4
    → acc < 2 ^ (n * 7)
    → acc + g * 2 ^ (n * 7) < 2 ^ 32
    → read_var_int_loop ((g + 128) ∷ rest) n acc
      ≡ read_var_int_loop rest (n + 1) (acc + g * 2 ^ (n * 7))
unfolding read_var_int_loop
inner_round g n acc rest hg hn ha fits =
    rw (add_group (g + 128) g n acc (omega arith) ha fits) (ground (arith, top_bit (g + 128)))

group_fits : (g n acc : ℕ) → g < 128 → acc < 2 ^ (n * 7) → acc + g * 2 ^ (n * 7) < 2 ^ ((n + 1) * 7)
group_fits g n acc hg ha = rw (next_group n) (grind arith)

read_loop-encode :
    (k n acc v : ℕ) (rest : List ℕ)
    → n + k ≤ 4
    → v < 128 ^ suc k
    → acc < 2 ^ (n * 7)
    → acc + v * 2 ^ (n * 7) < 2 ^ 32
    → read_var_int_loop (encode k v ++ rest) n acc
      ≡ ok (n + length (encode k v), acc + v * 2 ^ (n * 7))
unfolding encode
read_loop-encode zero n acc v rest hn hv ha fits =
    last_round v n acc rest (omega arith) (omega arith) ha fits
read_loop-encode (suc k) n acc v rest hn hv ha fits = ground (
  arith,
  split_group v n,
  last_round v n acc rest,
  inner_round (v % 128) n acc (encode k (v / 128) ++ rest),
  group_fits (v % 128) n acc,
  read_loop-encode k (n + 1) (acc + v % 128 * 2 ^ (n * 7)) (v / 128) rest,
)

read_from_loop :
    (buffer : List ℕ) (n v : ℕ) (consume : Bool)
    → read_var_int_loop buffer 0 0 ≡ ok (n, v)
    → read_var_int_from_buffer buffer consume
      ≡ ok (record { count = n; value = v; buffer = if consume then drop n buffer else buffer })
unfolding read_var_int_from_buffer
read_from_loop [] n v consume e = unfold read_var_int_loop in ground arith
read_from_loop (b ∷ bs) n v consume e = rw e

-- An int32_t or uint32_t that was written is read back from the front of whatever follows it, with
-- its number of bytes; and a caller that consumes it is left with what follows.
pub read-encode :
    (v : ℕ) (rest : List ℕ) (consume : Bool)
    → v < 2 ^ 32
    → read_var_int_from_buffer (encode 4 v ++ rest) consume
      ≡ ok (record {
        count = length (encode 4 v);
        value = v;
        buffer = if consume then rest else encode 4 v ++ rest;
      })
read-encode v rest consume h =
    read_from_loop (encode 4 v ++ rest) (length (encode 4 v)) v consume
      (ground (arith, read_loop-encode 4 0 0 v rest))
    ∙ ap
        (λ (t : List ℕ). ok (record {
          count = length (encode 4 v);
          value = v;
          buffer = if consume then t else encode 4 v ++ rest;
        }))
        (drop-append (encode 4 v) rest)

-- What writeVarIntToBuffer writes of a uint32_t into an empty payload, readVarIntFromBuffer reads back
-- whatever bytes follow it: it counts the bytes written, and consumes them.
pub read-write :
    (v : ℕ) (rest : List ℕ)
    → v < 2 ^ 32
    → (write_var_int_to_buffer [] v >>= λ payload. read_var_int_from_buffer (payload ++ rest) true)
      ≡ ok (record { count = length (encode 4 v); value = v; buffer = rest })
read-write v rest h = rw (write_var_int_to_buffer_lem [] v h) (read-encode v rest true h)
