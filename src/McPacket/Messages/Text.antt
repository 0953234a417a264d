-- ===== src/McPacket/Messages/Text.antt =====
-- Strings in a payload: a number of bytes, then the bytes. The classes of MCPacket/ repeat these
-- few lines; a std::string is the list of its bytes.
use native.Mathlib.Nat.{mod-eq_of_lt}
use cerios_cluster.Common.{
  ℕ, ◌%◌, ◌^◌, ◌<◌, List, [], ◌++◌, append_assoc, append-nil, Bool, leb, if◌then◌else◌, length,
  take, drop, take-append, drop-append, length-append, ◌≡◌, sym, ap, ◌∙◌, arith,
}
use cerios_cluster.Common.Outcome.{Outcome, ok, undefined, ◌>>=◌}
use cerios_cluster.McPacket.Base.{Packet, as_size, append_bytes, write_var_int, read_var_int}
use cerios_cluster.McPacket.Base.Pod.{holding}
use cerios_cluster.McPacket.Base.Header.{write_var_int_lem, read_var_int-encode}
use cerios_cluster.McPacket.VarInt.Encoding.{encode}

-- `this->rawPayload.size() >= stringLength`
abbrev pub has_bytes : Packet → ℕ → Bool
has_bytes p len = leb (as_size len) (length p.raw_payload)

-- The string that a class takes if the payload has it, and otherwise leaves empty.
unfoldable pub text_if_there : Packet → ℕ → List ℕ
text_if_there p len = if has_bytes p len then take len p.raw_payload else []

unfoldable pub erase_if_there : Packet → ℕ → Packet
erase_if_there p len =
    if has_bytes p len then record p { raw_payload = drop len p.raw_payload } else p

-- The string that a class takes with no test: it is undefined to go beyond the payload.
unfoldable pub text_unchecked : Packet → ℕ → Outcome (List ℕ × Packet)
text_unchecked p len =
    if has_bytes p len
    then ok (take len p.raw_payload, record p { raw_payload = drop len p.raw_payload })
    else undefined

-- `writeVarIntToBuffer(static_cast<std::int32_t>(s.size()))`, then the bytes of `s`
unfoldable pub write_text : Packet → List ℕ → Outcome Packet
write_text p text = do p' ← write_var_int p (length text % 2 ^ 32); ok (append_bytes p' text)

-- A text as it stands in a payload.
abbrev pub coded : List ℕ → List ℕ
coded text = encode 4 (length text) ++ text

pub write_text_lem :
    (p : Packet) (text : List ℕ)
    → length text < 2 ^ 32
    → write_text p text ≡ ok (append_bytes p (coded text))
unfolding write_text
write_text_lem p text h =
    rw (mod-eq_of_lt h, write_var_int_lem p (length text) h)
      (rw (append_assoc p.raw_payload (encode 4 (length text)) text))

pub text_if_there-append :
    (p : Packet) (text rest : List ℕ)
    → length text < 2 ^ 31
    → text_if_there (holding p (text ++ rest)) (length text) ≡ text
unfolding text_if_there
text_if_there-append p text rest h = ground (arith, length-append text rest, take-append text rest)

pub erase_if_there-append :
    (p : Packet) (text rest : List ℕ)
    → length text < 2 ^ 31
    → erase_if_there (holding p (text ++ rest)) (length text) ≡ holding p rest
unfolding erase_if_there
erase_if_there-append p text rest h = ground (arith, length-append text rest, drop-append text rest)

pub text_unchecked-append :
    (p : Packet) (text rest : List ℕ)
    → length text < 2 ^ 31
    → text_unchecked (holding p (text ++ rest)) (length text) ≡ ok (text, holding p rest)
unfolding text_unchecked
text_unchecked-append p text rest h =
    ground (arith, length-append text rest, take-append text rest, drop-append text rest)

-- A text behind its length, read by a class that tests the length.
pub read_coded :
    (p : Packet) (text rest : List ℕ)
    → length text < 2 ^ 31
    → read_var_int (holding p (coded text ++ rest)) ≡ ok (length text, holding p (text ++ rest))
read_coded p text rest h =
    ap (λ (t : List ℕ). read_var_int (holding p t))
      (append_assoc (encode 4 (length text)) text rest)
    ∙ read_var_int-encode p (length text) (text ++ rest) (omega arith)

-- The text is all that is left.
pub text_unchecked_whole :
    (p : Packet) (text : List ℕ)
    → length text < 2 ^ 31
    → text_unchecked (holding p text) (length text) ≡ ok (text, holding p [])
text_unchecked_whole p text h =
    ap (λ (t : List ℕ). text_unchecked (holding p t) (length text)) (sym (append-nil text))
    ∙ text_unchecked-append p text [] h

pub read_coded_whole :
    (p : Packet) (text : List ℕ)
    → length text < 2 ^ 31
    → read_var_int (holding p (coded text)) ≡ ok (length text, holding p text)
read_coded_whole p text h = read_var_int-encode p (length text) text (omega arith)

-- Where the payload has fewer bytes than the text is said to have, an unchecked reader leaves it.
pub text_unchecked_beyond :
    (p : Packet) (len : ℕ) → length p.raw_payload < as_size len → text_unchecked p len ≡ undefined
unfolding text_unchecked
text_unchecked_beyond p len h = ground arith
