-- ===== src/McPacket/Compress.antt =====
-- MCPacket/Packet.cpp: compressData, compressPacket and compressIfLargerThan. zlib is a parameter.
pub mod Fits
use cerios_cluster.Common.{
  ℕ, zero, suc, ◌+◌, ◌-◌, ◌%◌, ◌^◌, List, [], ◌++◌, Bool, true, false, not, ◌&&◌, ltb, ◌==◌, Option,
  none, some, if◌then◌else◌, length,
}
use cerios_cluster.Common.Outcome.{Outcome, ok, undefined, endless, ◌>>=◌}
use cerios_cluster.McPacket.VarInt.{write_var_int_to_front}
use cerios_cluster.McPacket.Base.{Packet}

pub data ReturnCode : Type 0 where
  stream_error stream_end other_code : ReturnCode

-- What the program uses of zlib to deflate: a stream over the data, and calls with Z_FINISH that
-- write at most `avail_out` bytes.
pub record Deflater : Type 1 where
  pub Stream : Type 0
  pub deflate_init : List ℕ → Option Stream
  pub deflate :
      Stream
      → (avail_out : ℕ)
      → record { stream : Stream; output : List ℕ; avail_in : ℕ; code : ReturnCode }

unfoldable pub goes_on : ReturnCode → ℕ → Bool
goes_on stream_error avail_in = false
goes_on stream_end avail_in = false
goes_on other_code avail_in = ltb 0 avail_in

module _ (z : Deflater) where
  open z use {Stream, deflate_init, deflate}

  -- The do-while loop. `output` is what stands in `compressedBuffer`, which has `inflated_size`
  -- bytes: to write behind them is undefined.
  unfoldable pub deflate_loop :
      ℕ → Stream → (avail_in avail_out offset inflated_size : ℕ) → List ℕ → Outcome (List ℕ)
  unfolding goes_on
  deflate_loop zero stream avail_in avail_out offset inflated_size output = endless
  deflate_loop (suc fuel) stream avail_in avail_out offset inflated_size output =
      let room = if ltb 0 avail_in && avail_out == 0 then inflated_size % 2 ^ 32 else avail_out in
      let call = deflate stream room in
      let left = room - length call.output in
      let offset' = if ltb 0 call.avail_in && left == 0 then offset + inflated_size else offset in
      let again =
        deflate_loop fuel call.stream call.avail_in left offset' inflated_size
          (output ++ call.output) in
      if ltb inflated_size (length output + length call.output)
      then undefined
      else if goes_on call.code call.avail_in
      then again
      else ok (output ++ call.output)

  -- compressData. If zlib does not start, the data stays as it is.
  unfoldable pub compress_data : ℕ → List ℕ → Outcome (List ℕ)
  compress_data fuel bytes = elim (deflate_init bytes) [
    | none ↦ ok bytes
    | some stream ↦
        deflate_loop fuel stream (length bytes % 2 ^ 32) 0 0 (length bytes) [] >>= λ output.
        write_var_int_to_front 5 output (length bytes % 2 ^ 32)
  ]

  unfoldable pub compress_packet : ℕ → Packet → Outcome Packet
  compress_packet fuel p = elim p.compressed [
    | true ↦ ok p
    | false ↦ compress_data fuel p.raw_payload >>= λ payload.
        ok (record p { raw_payload = payload; compressed = true })
  ]

  unfoldable pub compress_if_larger_than : ℕ → Packet → ℕ → Outcome Packet
  unfolding compress_packet
  compress_if_larger_than fuel p length_bytes =
      if ltb length_bytes (length p.raw_payload) then compress_packet fuel p else ok p
