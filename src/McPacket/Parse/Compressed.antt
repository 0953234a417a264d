-- ===== src/McPacket/Parse/Compressed.antt =====
-- parsePacket of MCPacket/Packet.hpp on compressed packets.
use cerios_cluster.Common.{
  ℕ, zero, suc, ◌^◌, ◌<◌, ◌≤◌, List, [], ◌∷◌, ◌++◌, Bool, true, false, Option, none, some,
  if◌then◌else◌, length, drop, ◌≡◌, refl, sym, subst, ◌∙◌, arith, length-append, ◌⊎◌, inl, inr,
  replicate, Option-cases, Bool-cases,
}
use cerios_cluster.Common.Outcome.{Outcome, ok, endless, ◌>>=◌}
use cerios_cluster.McPacket.VarInt.{read_var_int_from_buffer}
use cerios_cluster.McPacket.VarInt.RoundTrip.{read-encode}
use cerios_cluster.McPacket.VarInt.Encoding.{encode, length-encode}
use cerios_cluster.McPacket.Base.{Environment, Side, ClientState}
use cerios_cluster.McPacket.Base.Header.{packet_from_buffer-encode}
use cerios_cluster.McPacket.Classes.{AnyPacket}
use cerios_cluster.McPacket.Registry.{instantiate_from_data}
use cerios_cluster.McPacket.Messages.Wire.{arrived}
use cerios_cluster.McPacket.Parse.{
  Zlib, parse_plain, parse_packet, parse_compressed, parse_inflated, inflate_loop, consume_func,
}

module _ (z : Zlib) where
  open z use {Stream, inflate_init, inflate}

  -- As long as there is something to inflate, the loop does not end but by an error of the stream.
  inflate_loop_ends :
      (fuel : ℕ) (stream : Stream) (len : ℕ) (output : List ℕ)
      → 0 < len
      → (inflate_loop z fuel stream 0 len output ≡ endless)
        ⊎ (inflate_loop z fuel stream 0 len output ≡ ok none)
  unfolding inflate_loop
  inflate_loop_ends zero stream len output h = inl refl
  inflate_loop_ends (suc fuel) stream len output h =
      elim (Bool-cases (inflate stream 0 output).stream_error) [
        | inl e ↦ inr (ground (arith, e))
        | inr e ↦ ground (
          arith,
          e,
          inflate_loop_ends fuel (inflate stream 0 output).stream len
              (inflate stream 0 output).output,
        )
      ]

  inflate_loop_spins :
      (fuel : ℕ) (stream : Stream) (len : ℕ) (output : List ℕ)
      → ((s : Stream) (o : List ℕ) → (inflate s 0 o).stream_error ≡ false)
      → 0 < len
      → inflate_loop z fuel stream 0 len output ≡ endless
  unfolding inflate_loop
  inflate_loop_spins zero stream len output fine h = refl
  inflate_loop_spins (suc fuel) stream len output fine h = ground (
    arith,
    fine stream output,
    inflate_loop_spins fuel (inflate stream 0 output).stream len (inflate stream 0 output).output
        fine,
  )

  consumed :
      (len : ℕ) (buffer : List ℕ) (consume : Bool)
      → len ≤ length buffer
      → consume_func len buffer consume ≡ ok (if consume then drop len buffer else buffer)
  unfolding consume_func
  consumed len buffer false h = refl
  consumed len buffer true h = ground arith

  -- Nothing was parsed: the call goes on, or it consumed the bytes and has no packet.
  abbrev pub Nothing : ℕ → List ℕ → Bool → Outcome (Option AnyPacket × List ℕ) → Type 0
  Nothing len buffer consume r =
      (r ≡ endless) ⊎ (r ≡ ok (none, if consume then drop len buffer else buffer))

  parse_compressed-Nothing :
      (fuel : ℕ) (env : Environment) (side : Side) (len inflated : ℕ) (buffer : List ℕ)
      (state : ClientState) (consume : Bool)
      → 0 < inflated
      → len ≤ length buffer
      → Nothing len buffer consume
          (parse_compressed z fuel env side len inflated buffer state consume)
  unfolding parse_compressed parse_inflated
  parse_compressed-Nothing fuel env side len inflated buffer state consume h hl =
      elim (Option-cases (inflate_init buffer)) [
        | inl e ↦ inr (rw (e, parse_compressed, consumed len buffer consume hl))
        | inr (stream, e) ↦ elim (inflate_loop_ends fuel stream inflated (replicate inflated 0) h) [
          | inl spin ↦ inl (rw (e, parse_compressed, spin))
          | inr failed ↦ inr (rw (e, parse_compressed, failed, consumed len buffer consume hl))
        ]
      ]

  compressed_if_any :
      (fuel : ℕ) (env : Environment) (side : Side) (len inflated : ℕ) (buffer : List ℕ)
      (state : ClientState) (consume : Bool) {count : ℕ} {left : List ℕ}
      → 0 < inflated
      → inflated < 2 ^ 31
      → 0 < length buffer
      → read_var_int_from_buffer buffer false
        ≡ ok (record { count = count; value = inflated; buffer = left })
      → parse_packet z fuel env side len buffer state true consume
        ≡ parse_compressed z fuel env side len inflated buffer state consume
  unfolding parse_packet
  compressed_if_any fuel env side len inflated [] state consume h hi any e = absurd (omega arith)
  compressed_if_any fuel env side len inflated (b ∷ bs) state consume h hi any e =
      rw e (ground arith)

  reaches :
      (fuel : ℕ) (env : Environment) (side : Side) (len inflated : ℕ) (body : List ℕ)
      (state : ClientState) (consume : Bool)
      → 0 < inflated
      → inflated < 2 ^ 31
      → parse_packet z fuel env side len (encode 4 inflated ++ body) state true consume
        ≡ parse_compressed z fuel env side len inflated (encode 4 inflated ++ body) state consume
  reaches fuel env side len inflated body state consume h hi =
      compressed_if_any fuel env side len inflated (encode 4 inflated ++ body) state consume h hi
        (omega (arith, length-append (encode 4 inflated) body, length-encode 4 inflated))
        (read-encode inflated body false (omega arith))

  -- A packet whose data length is positive, as every compressed packet's is, is never parsed: the
  -- call runs on, or answers with no packet and consumes the bytes if it was told to.
  pub parse_packet_compressed :
      (fuel : ℕ) (env : Environment) (side : Side) (len inflated : ℕ) (body : List ℕ)
      (state : ClientState) (consume : Bool)
      → 0 < inflated
      → inflated < 2 ^ 31
      → len ≤ length (encode 4 inflated ++ body)
      → Nothing len
          (encode 4 inflated ++ body)
          consume
          (parse_packet z fuel env side len (encode 4 inflated ++ body) state true consume)
  parse_packet_compressed fuel env side len inflated body state consume h hi hl =
      subst (Nothing len (encode 4 inflated ++ body) consume)
        (sym (reaches fuel env side len inflated body state consume h hi))
        (parse_compressed-Nothing fuel env side len inflated (encode 4 inflated ++ body) state
          consume h hl)

  -- If zlib starts and reports no error, as on any well-formed stream, no number of rounds is enough.
  pub parse_packet_spins :
      (fuel : ℕ) (env : Environment) (side : Side) (len inflated : ℕ) (body : List ℕ)
      (state : ClientState) (consume : Bool) (stream : Stream)
      → 0 < inflated
      → inflated < 2 ^ 31
      → inflate_init (encode 4 inflated ++ body) ≡ some stream
      → ((s : Stream) (o : List ℕ) → (inflate s 0 o).stream_error ≡ false)
      → parse_packet z fuel env side len (encode 4 inflated ++ body) state true consume ≡ endless
  unfolding parse_compressed
  parse_packet_spins fuel env side len inflated body state consume stream h hi e fine =
      reaches fuel env side len inflated body state consume h hi
      ∙ rw (
        e,
        parse_compressed,
        inflate_loop_spins fuel stream inflated (replicate inflated 0) fine h,
      )

  -- A small packet, sent uncompressed behind a data length of 0, loses its id: it is instantiated
  -- with the id 0, and its own id is left in its body.
  pub parse_packet_small :
      (fuel : ℕ) (env : Environment) (side : Side) (state : ClientState) (body rest : List ℕ)
      → parse_packet z fuel env side (suc (length body)) (0 ∷ (body ++ rest)) state true true
        ≡ (instantiate_from_data env side state (arrived 0 body) >>= λ m. ok (m, rest))
  unfolding parse_packet parse_plain encode
  parse_packet_small fuel env side state body rest = rw (
    read-encode 0 (body ++ rest) false (omega arith),
    packet_from_buffer-encode 0 body rest true (omega arith),
  )
