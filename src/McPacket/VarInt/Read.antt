-- ===== src/McPacket/VarInt/Read.antt =====
-- `readVarIntFromBuffer` of MCPacket/Packet.cpp on any input, well formed or not.
use cerios_cluster.Common.{
  ℕ, zero, suc, ◌+◌, ◌*◌, ◌/◌, ◌%◌, ◌^◌, ◌≤◌, ◌<◌, bit_and, bit_or, ◌≡◌, refl, List, [], ◌∷◌, ◌==◌,
  if◌then◌else◌, Bool, inl, inr, length, arith, ◌⊎◌, ◌↔◌, take, drop, All,
}
use cerios_cluster.Common.Bits.{bit_or-lt, bit_and-one_shifted}
use cerios_cluster.Common.Outcome.{Outcome, ok, throws, var_int_too_big}
use cerios_cluster.McPacket.VarInt.{VarIntRead, read_var_int_loop, read_var_int_from_buffer}

-- The byte has its top bit set: another one belongs to the number.
abbrev pub Continues : ℕ → Type 0
Continues byte = byte / 128 % 2 ≡ 1

pub top_bit : (byte : ℕ) → (bit_and byte 128 == 128) ≡ (byte / 128 % 2 == 1)
top_bit byte = ground (arith, bit_and-one_shifted 7 byte)

pub read_loop_bounds :
    (bytes : List ℕ) (n acc count value : ℕ)
    → acc < 2 ^ 32
    → read_var_int_loop bytes n acc ≡ ok (count, value)
    → (value < 2 ^ 32) × (count ≤ 5) × (count ≤ n + length bytes)
unfolding read_var_int_loop
read_loop_bounds [] n acc count value h e = ground arith
read_loop_bounds (b ∷ bs) n acc count value h e =
    let acc' = bit_or acc (bit_and b 127 * 2 ^ (n * 7) % 2 ^ 32) in
    let fits : acc' < 2 ^ 32 =
      bit_or-lt 32 acc (bit_and b 127 * 2 ^ (n * 7) % 2 ^ 32) h (omega arith) in
    ground (arith, fits, read_loop_bounds bs (n + 1) acc' count value)

-- The loop throws exactly when it meets a sixth byte.
read_loop-throws :
    (bytes : List ℕ) (k n acc : ℕ)
    → n + k ≡ 5
    → (read_var_int_loop bytes n acc ≡ throws var_int_too_big)
      ↔ ((k < length bytes) × All Continues (take k bytes))
unfolding read_var_int_loop
read_loop-throws [] zero n acc h = (λ e. cc, λ (p, q). absurd (omega arith))
read_loop-throws [] (suc k) n acc h = (λ e. cc, λ (p, q). absurd (omega arith))
read_loop-throws (b ∷ bs) zero n acc h = (λ _. (omega arith, tt), λ _. ground arith)
read_loop-throws (b ∷ bs) (suc k) n acc h =
    let acc' = bit_or acc (bit_and b 127 * 2 ^ (n * 7) % 2 ^ 32) in
    let (there, back) = read_loop-throws bs k (n + 1) acc' (omega arith) in
    (λ e. ground (arith, top_bit b, there), λ c. ground (arith, top_bit b, back))

-- It never has another failure.
read_loop_returns :
    (bytes : List ℕ) (n acc : ℕ)
    → (read_var_int_loop bytes n acc ≡ throws var_int_too_big)
      ⊎ ((r : ℕ × ℕ) × (read_var_int_loop bytes n acc ≡ ok r))
unfolding read_var_int_loop
read_loop_returns [] n acc = inr ((0, acc), refl)
read_loop_returns (b ∷ bs) n acc =
    ground (arith, read_loop_returns bs (n + 1) (bit_or acc (bit_and b 127 * 2 ^ (n * 7) % 2 ^ 32)))

-- The count is 0 exactly when every byte continues.
read_loop_cut :
    (bytes : List ℕ) (n acc count value : ℕ)
    → read_var_int_loop bytes n acc ≡ ok (count, value)
    → count ≡ 0
    → All Continues bytes
unfolding read_var_int_loop
read_loop_cut [] n acc count value e z = tt
read_loop_cut (b ∷ bs) n acc count value e z =
    let acc' = bit_or acc (bit_and b 127 * 2 ^ (n * 7) % 2 ^ 32) in
    ground (arith, top_bit b, read_loop_cut bs (n + 1) acc' count value)

read_loop_wants_more :
    (bytes : List ℕ) (n acc count value : ℕ)
    → read_var_int_loop bytes n acc ≡ ok (count, value)
    → All Continues bytes
    → count ≡ 0
unfolding read_var_int_loop
read_loop_wants_more [] n acc count value e c = ground arith
read_loop_wants_more (b ∷ bs) n acc count value e c =
    let acc' = bit_or acc (bit_and b 127 * 2 ^ (n * 7) % 2 ^ 32) in
    ground (arith, top_bit b, read_loop_wants_more bs (n + 1) acc' count value)

-- What a call on `buffer` can come to.
abbrev pub Reads : List ℕ → Bool → Outcome VarIntRead → Type 0
Reads buffer consume r =
    ((r ≡ throws var_int_too_big) × (5 < length buffer) × All Continues (take 5 buffer))
    ⊎ ((v : VarIntRead) × (r ≡ ok v)
        × (v.value < 2 ^ 32)
        × (v.count ≤ 5)
        × (v.count ≤ length buffer)
        × ((v.count ≡ 0) ↔ All Continues buffer)
        × (v.buffer ≡ (if consume then drop v.count buffer else buffer)))

-- A call throws only at a sixth byte after five that continue, and otherwise returns: at most five
-- bytes are read, none of them exactly where the buffer ends inside the number, and those are
-- consumed if the caller asks for it.
pub read_var_int_from_buffer_total :
    (buffer : List ℕ) (consume : Bool)
    → Reads buffer consume (read_var_int_from_buffer buffer consume)
unfolding read_var_int_from_buffer
read_var_int_from_buffer_total [] consume = inr (
  record { count = 0; value = 0; buffer = [] },
  refl,
  omega arith,
  omega arith,
  omega arith,
  (λ _. tt, λ _. refl),
  ground arith,
)
read_var_int_from_buffer_total (b ∷ bs) consume = elim (read_loop_returns (b ∷ bs) 0 0) [
  | inl e ↦
      let (long, go_on) = (read_loop-throws (b ∷ bs) 5 0 0 (omega arith)).0 e in
      inl (rw e, long, go_on)
  | inr ((c, v), e) ↦
      let (small, five, inside) = read_loop_bounds (b ∷ bs) 0 0 c v (omega arith) e in
      inr (
        record { count = c; value = v; buffer = if consume then drop c (b ∷ bs) else b ∷ bs },
        rw e,
        small,
        five,
        omega arith,
        (read_loop_cut (b ∷ bs) 0 0 c v e, read_loop_wants_more (b ∷ bs) 0 0 c v e),
        refl,
      )
]

-- The other direction of the first case: such a buffer is refused.
pub read_var_int_from_buffer-throws :
    (buffer : List ℕ) (consume : Bool)
    → 5 < length buffer
    → All Continues (take 5 buffer)
    → read_var_int_from_buffer buffer consume ≡ throws var_int_too_big
unfolding read_var_int_from_buffer
read_var_int_from_buffer-throws [] consume h c = absurd (omega arith)
read_var_int_from_buffer-throws (b ∷ bs) consume h c =
    rw ((read_loop-throws (b ∷ bs) 5 0 0 (omega arith)).1 (h, c))
