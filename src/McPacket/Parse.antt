-- ===== src/McPacket/Parse.antt =====
-- MCPacket/Packet.hpp: parsePacket, with the inflate loop. zlib is a parameter.
pub mod Plain
pub mod Compressed
use cerios_cluster.Common.{
  ℕ, zero, suc, ◌^◌, List, [], ◌∷◌, Bool, true, false, Option, none, some, ◌&&◌, ltb, ◌==◌,
  if◌then◌else◌, length, drop, replicate,
}
use cerios_cluster.Common.Outcome.{Outcome, ok, undefined, endless, ◌>>=◌}
use cerios_cluster.McPacket.VarInt.{VarIntRead, read_var_int_from_buffer}
use cerios_cluster.McPacket.Base.{Packet, Environment, Side, ClientState, packet_from_buffer}
use cerios_cluster.McPacket.Classes.{AnyPacket}
use cerios_cluster.McPacket.Registry.{instantiate_from_data}

-- What the program uses of zlib to inflate: a stream over an input, and calls of `inflate` that
-- write into the output from an offset on and report whether they return Z_STREAM_ERROR.
pub record Zlib : Type 1 where
  pub Stream : Type 0
  pub inflate_init : List ℕ → Option Stream
  pub inflate :
      Stream
      → (offset : ℕ) → (output : List ℕ)
      → record { stream : Stream; output : List ℕ; stream_error : Bool }

-- `consumeFunc`: what it erases must be there.
unfoldable pub consume_func : ℕ → List ℕ → Bool → Outcome (List ℕ)
consume_func len buffer false = ok buffer
consume_func len buffer true = if ltb (length buffer) len then undefined else ok (drop len buffer)

-- `new Packet(length, buffer, state, consumeData)`, and the class that its id stands for.
unfoldable pub parse_plain :
    Environment → Side → ℕ → List ℕ → ClientState → Bool → Outcome (Option AnyPacket × List ℕ)
parse_plain env side len buffer state consume = do
  (in_progress, left) ← packet_from_buffer len buffer consume
  m ← instantiate_from_data env side state in_progress
  ok (m, left)

-- An int32_t is positive.
abbrev pub is_positive : ℕ → Bool
is_positive w = ltb 0 w && ltb w (2 ^ 31)

module _ (z : Zlib) where
  open z use {Stream, inflate_init, inflate}

  -- The do-while loop. Its last line tests `inflatedData`, which no line changes. `none` is the
  -- return after Z_STREAM_ERROR.
  unfoldable pub inflate_loop :
      ℕ → Stream → (inflated_data inflated_packet_length : ℕ) → List ℕ → Outcome (Option (List ℕ))
  inflate_loop zero stream inflated_data len output = endless
  inflate_loop (suc fuel) stream inflated_data len output =
      let call = inflate stream inflated_data output in
      let again = inflate_loop fuel call.stream inflated_data len call.output in
      if call.stream_error
      then ok none
      else if ltb inflated_data len
      then again
      else ok (some call.output)

  -- The part of the branch behind `inflateInit`; `len` is the length of the packet in `buffer`.
  unfoldable pub parse_inflated :
      ℕ
      → Environment
      → Side
      → (len inflated_packet_length : ℕ) → List ℕ
      → ClientState
      → Bool
      → Option (List ℕ)
      → Outcome (Option AnyPacket × List ℕ)
  unfolding parse_plain
  parse_inflated fuel env side len inflated buffer state consume none = do
    left ← consume_func len buffer consume
    ok (none, left)
  parse_inflated fuel env side len inflated buffer state consume (some output) = do
    left ← consume_func len buffer consume
    (m, _) ← parse_plain env side inflated output state consume
    ok ((if length output == inflated then m else none), left)

  unfoldable pub parse_compressed :
      ℕ
      → Environment
      → Side
      → (len inflated : ℕ) → List ℕ
      → ClientState
      → Bool
      → Outcome (Option AnyPacket × List ℕ)
  unfolding parse_inflated inflate_loop
  parse_compressed fuel env side len inflated buffer state consume = elim (inflate_init buffer) [
    | none ↦ consume_func len buffer consume >>= λ left. ok (none, left)
    | some stream ↦ inflate_loop fuel stream 0 inflated (replicate inflated 0) >>= λ r.
        parse_inflated fuel env side len inflated buffer state consume r
  ]

  -- parsePacket: the packet, if there is one, and the buffer afterwards. `fuel` bounds the rounds
  -- of the inflate loop alone.
  unfoldable pub parse_packet :
      ℕ
      → Environment
      → Side
      → ℕ
      → List ℕ
      → ClientState
      → (compressed consume : Bool) → Outcome (Option AnyPacket × List ℕ)
  parse_packet fuel env side len [] state compressed consume = ok (none, [])
  parse_packet fuel env side len (b ∷ bs) state false consume =
      parse_plain env side len (b ∷ bs) state consume
  parse_packet fuel env side len (b ∷ bs) state true consume = do
    r ← read_var_int_from_buffer (b ∷ bs) false
    if is_positive r.value
        then parse_compressed fuel env side len r.value (b ∷ bs) state consume
        else parse_plain env side len (b ∷ bs) state consume
