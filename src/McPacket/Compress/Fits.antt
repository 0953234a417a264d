-- ===== src/McPacket/Compress/Fits.antt =====
-- compressData of MCPacket/Packet.cpp: what the calls of deflate come to.
use native.Mathlib.Nat.{mod-eq_of_lt}
use cerios_cluster.Common.{
  Bool-cases, inl, inr, if◌then◌else◌, lt→ltb, ltb→lt, ltb, true, false, ◌+◌, ◌-◌, ℕ, suc, ◌^◌, ◌<◌,
  ◌≤◌, List, [], ◌++◌, some, length, ◌≡◌, arith,
}
use cerios_cluster.Common.Outcome.{ok, undefined}
use cerios_cluster.McPacket.VarInt.Encoding.{encode}
use cerios_cluster.McPacket.VarInt.Write.{write_var_int_to_front_lem}
use cerios_cluster.McPacket.Compress.{
  Deflater, ReturnCode, stream_error, stream_end, other_code, goes_on, deflate_loop, compress_data,
}

goes_on-more : (code : ReturnCode) (avail_in : ℕ) → goes_on code avail_in ≡ true → 0 < avail_in
unfolding goes_on
goes_on-more stream_error avail_in e = cc
goes_on-more stream_end avail_in e = cc
goes_on-more other_code avail_in e = ltb→lt 0 avail_in e

within : (n : ℕ) → ltb n (length {A = ℕ} [] + n) ≡ false
within n = ground arith

self_minus : (n : ℕ) → n - n ≡ 0
self_minus n = omega arith

module _ (z : Deflater) where
  open z use {Stream, deflate_init, deflate}

  one_round :
      (fuel n : ℕ) (stream : Stream)
      → 0 < n
      → n < 2 ^ 31
      → goes_on (deflate stream n).code (deflate stream n).avail_in ≡ false
      → length (deflate stream n).output ≤ n
      → deflate_loop z (suc fuel) stream n 0 0 n [] ≡ ok (deflate stream n).output
  unfolding deflate_loop
  one_round fuel n stream pos small ended fits =
      rw (lt→ltb 0 n pos, mod-eq_of_lt {n = n} {m = 2 ^ 32} (omega arith), ended) (ground arith)

  -- A later round, with the buffer full
  overflows :
      (fuel n avail_in offset : ℕ) (stream : Stream) (output : List ℕ)
      → n < 2 ^ 31
      → 0 < avail_in
      → length output ≡ n
      → 0 < length (deflate stream n).output
      → deflate_loop z (suc fuel) stream avail_in 0 offset n output ≡ undefined
  unfolding deflate_loop
  overflows fuel n avail_in offset stream output small more full writes =
      rw
        (
          lt→ltb 0 avail_in more,
          mod-eq_of_lt {n = n} {m = 2 ^ 32} (omega arith),
          lt→ltb n (length output + length (deflate stream n).output) (omega (arith, full, writes)),
        )
        (λ i. undefined)

  first_of_more :
      (fuel n : ℕ) (stream : Stream)
      → 0 < n
      → n < 2 ^ 31
      → goes_on (deflate stream n).code (deflate stream n).avail_in ≡ true
      → length (deflate stream n).output ≡ n
      → deflate_loop z (suc fuel) stream n 0 0 n []
        ≡ deflate_loop z fuel
            (deflate stream n).stream
            (deflate stream n).avail_in
            0
            (0 + n)
            n
            (deflate stream n).output
  unfolding deflate_loop
  first_of_more fuel n stream pos small again full =
      let more = goes_on-more (deflate stream n).code (deflate stream n).avail_in again in
      rw (
        lt→ltb 0 n pos,
        mod-eq_of_lt {n = n} {m = 2 ^ 32} (omega arith),
        again,
        lt→ltb 0 (deflate stream n).avail_in more,
        full,
        within n,
        self_minus n,
      )

  -- For data of up to 2 ^ 31 bytes where zlib starts: if the loop ends with its first call, the data is
  -- replaced by what the call has written, behind the data's own length, whether or not the stream has
  -- ended with it; and if it goes on, the second call writes behind the buffer, which is undefined
  -- behaviour. A call never writes more than it has room for, and one that leaves input has filled its
  -- room, and has more to write.
  pub compress_data_calls :
      (fuel : ℕ) (bytes : List ℕ) (stream : Stream)
      → deflate_init bytes ≡ some stream
      → 0 < length bytes
      → length bytes < 2 ^ 31
      → length (deflate stream (length bytes)).output ≤ length bytes
      → (goes_on (deflate stream (length bytes)).code (deflate stream (length bytes)).avail_in
            ≡ true
          → (length (deflate stream (length bytes)).output ≡ length bytes)
            × (0 < length (deflate (deflate stream (length bytes)).stream (length bytes)).output))
      → compress_data z (suc (suc fuel)) bytes ≡ (
          if goes_on (deflate stream (length bytes)).code (deflate stream (length bytes)).avail_in
          then undefined
          else ok (encode 4 (length bytes) ++ (deflate stream (length bytes)).output))
  unfolding compress_data
  compress_data_calls fuel bytes stream start pos small fits full =
      let n = length bytes in
      let call = deflate stream n in
      elim (Bool-cases (goes_on call.code call.avail_in)) [
        | inl again ↦
            rw
              (
                start,
                compress_data,
                mod-eq_of_lt {n = n} {m = 2 ^ 32} (omega arith),
                first_of_more (suc fuel) n stream pos small again (full again).0,
                overflows fuel n call.avail_in (0 + n) call.stream call.output small
                    (goes_on-more call.code call.avail_in again) (full again).0 (full again).1,
                again,
              )
              (λ i. undefined)
        | inr ended ↦ rw (
          start,
          compress_data,
          mod-eq_of_lt {n = n} {m = 2 ^ 32} (omega arith),
          one_round (suc fuel) n stream pos small ended fits,
          write_var_int_to_front_lem 5 _ n (omega arith) small,
          ended,
        )
      ]
