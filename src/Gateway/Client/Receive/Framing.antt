-- ===== src/Gateway/Client/Receive/Framing.antt =====
-- onLengthReceive of Client Gateway/Client.cpp: how the bytes of the socket become packets.
use cerios_cluster.Common.{
  ℕ, ◌+◌, ◌^◌, ◌<◌, List, [], ◌∷◌, ◌++◌, append_assoc, true, false, ◌&&◌, ltb, length, ◌≡◌, refl,
  sym, ◌∙◌, arith, length-append, drop-append,
}
use cerios_cluster.Common.Outcome.{ok, undefined, ◌>>=◌, >>=-ok}
use cerios_cluster.McPacket.Base.{Environment, server_bound, as_size}
use cerios_cluster.Gateway.Host.{Host}
use cerios_cluster.McPacket.VarInt.{VarIntRead, read_var_int_from_buffer}
use cerios_cluster.McPacket.VarInt.Encoding.{encode, length-encode}
use cerios_cluster.McPacket.VarInt.RoundTrip.{read-encode}
use cerios_cluster.McPacket.Messages.Wire.{arrived}
use cerios_cluster.McPacket.Registry.{instantiate_from_data}
use cerios_cluster.McPacket.Parse.Plain.{parse_packet-encode, parse_packet_zero}
use cerios_cluster.Gateway.Client.{Client, Turn, start_read, emit, with_client, compresses}
use cerios_cluster.Gateway.Client.Receive.{
  is_complete, take_data, next_message, parse_next, handle_parsed, on_length_receive,
}

-- A client that reads in the clear: its connection is open, and encryption is not on.
abbrev pub ReadsClear : {Cipher : Type 0} → Turn Cipher → Type 0
ReadsClear t = (t.client.alive ≡ true) × (t.client.encrypted ≡ false)

-- The turn after bytes have been put behind the buffer
abbrev pub with_bytes : {Cipher : Type 0} → Turn Cipher → List ℕ → Turn Cipher
with_bytes t bytes = with_client t (record t.client { buffer = t.client.buffer ++ bytes })

-- The buffer holds no whole frame: the length in front is not there yet, or what it announces is not.
abbrev pub IsPartial : (h : Host) → Client h.Cipher → Type 0
IsPartial h c =
    (r : VarIntRead) × (read_var_int_from_buffer c.buffer false ≡ ok r)
    × ((ltb 0 r.count && is_complete h c r) ≡ false)

take_data_clear :
    (h : Host) (c : Client h.Cipher) (bytes : List ℕ)
    → c.encrypted ≡ false
    → take_data h c bytes ≡ ok (record c { buffer = c.buffer ++ bytes })
unfolding take_data
take_data_clear h c bytes he = rw he

receive_clear :
    (h : Host) (fuel : ℕ) (env : Environment) (t : Turn h.Cipher) (bytes : List ℕ)
    → ReadsClear t
    → on_length_receive h fuel env t bytes false ≡ next_message h fuel env (with_bytes t bytes)
unfolding on_length_receive
receive_clear h fuel env t bytes (ha, he) = rw (take_data_clear h t.client bytes he) (simp ha)

-- While the buffer and the bytes that arrive are no whole frame, they are kept and the read goes on.
pub on_length_receive_partial :
    (h : Host) (fuel : ℕ) (env : Environment) (t : Turn h.Cipher) (bytes : List ℕ)
    → ReadsClear t
    → IsPartial h (with_bytes t bytes).client
    → on_length_receive h fuel env t bytes false ≡ ok (emit (with_bytes t bytes) start_read)
unfolding next_message
on_length_receive_partial h fuel env t bytes clear (r, e, p) =
    receive_clear h fuel env t bytes clear ∙ rw (e, p)

-- How TCP cuts a frame does not matter: a first piece that makes no whole frame, then a second, leave
-- what the two in one piece leave of a client that has started one more read.
pub on_length_receive-append :
    (h : Host) (fuel : ℕ) (env : Environment) (t : Turn h.Cipher) (first second : List ℕ)
    → ReadsClear t
    → IsPartial h (with_bytes t first).client
    → (on_length_receive h fuel env t first false >>= λ t'.
        on_length_receive h fuel env t' second false)
      ≡ on_length_receive h fuel env (emit t start_read) (first ++ second) false
on_length_receive-append h fuel env t first second clear partial =
    rw (on_length_receive_partial h fuel env t first clear partial) (
      receive_clear h fuel env (emit (with_bytes t first) start_read) second clear
      ∙ (rw (append_assoc t.client.buffer first second))
      ∙ sym (receive_clear h fuel env (emit t start_read) (first ++ second) clear))

-- The frame of a packet: its length, its id and its body
abbrev pub frame : (id : ℕ) → List ℕ → List ℕ
frame id body = encode 4 (length (encode 4 id ++ body)) ++ (encode 4 id ++ body)

parse_next-frame :
    (h : Host) (fuel : ℕ) (env : Environment) (t : Turn h.Cipher) (r : VarIntRead) (front : List ℕ)
    (id : ℕ) (body rest : List ℕ)
    → t.client.buffer ≡ front ++ ((encode 4 id ++ body) ++ rest)
    → r.count ≡ length front
    → as_size r.value ≡ length (encode 4 id ++ body)
    → compresses t.client ≡ false
    → id < 2 ^ 32
    → parse_next h fuel env t r ≡ (
        instantiate_from_data env server_bound t.client.state (arrived id body) >>= λ m.
        handle_parsed h fuel env (with_client t (record t.client { buffer = rest })) m)
unfolding parse_next
parse_next-frame h fuel env t r front id body rest hb hn hv hc hid =
    rw
      (
        hb,
        hn,
        hv,
        drop-append front ((encode 4 id ++ body) ++ rest),
        hc,
        parse_packet-encode h.inflater fuel env server_bound t.client.state id body rest hid,
      )
      (>>=-ok (instantiate_from_data env server_bound t.client.state (arrived id body))
        (λ m. (m, rest))
        (λ (m, left).
          handle_parsed h fuel env (with_client t (record t.client { buffer = left })) m))

is_complete-frame :
    (h : Host) (c : Client h.Cipher) (r : VarIntRead) (front payload rest : List ℕ)
    → c.buffer ≡ front ++ (payload ++ rest)
    → r.count ≡ length front
    → as_size r.value ≡ length payload
    → length payload + length front < 2 ^ 64
    → is_complete h c r ≡ true
is_complete-frame h c r front payload rest hb hn hv small =
    rw (hb, hn, hv, length-append front (payload ++ rest), length-append payload rest)
      (ground arith)

next_message-frame :
    (h : Host) (fuel : ℕ) (env : Environment) (t : Turn h.Cipher) (id : ℕ) (body rest : List ℕ)
    → t.client.buffer ≡ encode 4 (length (encode 4 id ++ body)) ++ ((encode 4 id ++ body) ++ rest)
    → compresses t.client ≡ false
    → id < 2 ^ 32
    → length (encode 4 id ++ body) < 2 ^ 31
    → next_message h fuel env t ≡ (
        instantiate_from_data env server_bound t.client.state (arrived id body) >>= λ m.
        handle_parsed h fuel env (with_client t (record t.client { buffer = rest })) m)
unfolding next_message
next_message-frame h fuel env t id body rest hb hc hid hlen =
    let n = length (encode 4 id ++ body) in
    let r : VarIntRead = record {
      count = length (encode 4 n);
      value = n;
      buffer = t.client.buffer;
    } in
    let e : read_var_int_from_buffer t.client.buffer false ≡ ok r =
      rw hb (read-encode n ((encode 4 id ++ body) ++ rest) false (omega (arith, hlen))) in
    let p : ltb 0 r.count ≡ true = ground (arith, length-encode 4 n) in
    let v : as_size r.value ≡ n = ground (arith, hlen) in
    let q : is_complete h t.client r ≡ true =
      is_complete-frame h t.client r (encode 4 n) (encode 4 id ++ body) rest hb refl v
        (omega (arith, hlen, length-encode 4 n)) in
    rw (e, p, q) (parse_next-frame h fuel env t r (encode 4 n) id body rest hb refl v hc hid)

-- The same, whatever part of the frame the buffer already holds.
pub on_length_receive-whole :
    (h : Host) (fuel : ℕ) (env : Environment) (t : Turn h.Cipher) (bytes : List ℕ) (id : ℕ)
    (body rest : List ℕ)
    → ReadsClear t
    → t.client.buffer ++ bytes ≡ frame id body ++ rest
    → compresses t.client ≡ false
    → id < 2 ^ 32
    → length (encode 4 id ++ body) < 2 ^ 31
    → on_length_receive h fuel env t bytes false ≡ (
        instantiate_from_data env server_bound t.client.state (arrived id body) >>= λ m.
        handle_parsed h fuel env (with_client t (record t.client { buffer = rest })) m)
on_length_receive-whole h fuel env t bytes id body rest clear hb hc hid hlen =
    receive_clear h fuel env t bytes clear
    ∙ next_message-frame h fuel env (with_bytes t bytes) id body rest
        (hb ∙ append_assoc (encode 4 (length (encode 4 id ++ body))) (encode 4 id ++ body) rest) hc
        hid hlen

-- Before a whole frame the handler reads its packet, hands it to the state's handler and leaves the
-- rest of the bytes in the buffer, where no second frame is looked at before more bytes arrive. The
-- frame is below 2 ^ 31 bytes, and the client starts from an empty buffer, uncompressed.
pub on_length_receive-frame :
    (h : Host) (fuel : ℕ) (env : Environment) (t : Turn h.Cipher) (id : ℕ) (body rest : List ℕ)
    → ReadsClear t
    → t.client.buffer ≡ []
    → compresses t.client ≡ false
    → id < 2 ^ 32
    → length (encode 4 id ++ body) < 2 ^ 31
    → on_length_receive h fuel env t (frame id body ++ rest) false ≡ (
        instantiate_from_data env server_bound t.client.state (arrived id body) >>= λ m.
        handle_parsed h fuel env (with_client t (record t.client { buffer = rest })) m)
on_length_receive-frame h fuel env t id body rest clear hb hc hid hlen =
    on_length_receive-whole h fuel env t (frame id body ++ rest) id body rest clear (rw hb refl) hc
      hid hlen

read_zero :
    (rest : List ℕ)
    → read_var_int_from_buffer (0 ∷ rest) false
      ≡ ok (record { count = 1; value = 0; buffer = 0 ∷ rest })
unfolding encode
read_zero rest = read-encode 0 rest false (omega arith)

parse_next_zero :
    (h : Host) (fuel : ℕ) (env : Environment) (t : Turn h.Cipher) (id : ℕ) (rest buffer : List ℕ)
    → t.client.buffer ≡ 0 ∷ (encode 4 id ++ rest)
    → compresses t.client ≡ false
    → id < 2 ^ 32
    → parse_next h fuel env t (record { count = 1; value = 0; buffer = buffer }) ≡ undefined
unfolding parse_next
parse_next_zero h fuel env t id rest buffer hb hc hid =
    rw (hb, hc, parse_packet_zero h.inflater fuel env server_bound t.client.state id rest true hid)

next_message_zero :
    (h : Host) (fuel : ℕ) (env : Environment) (t : Turn h.Cipher) (id : ℕ) (rest : List ℕ)
    → t.client.buffer ≡ 0 ∷ (encode 4 id ++ rest)
    → compresses t.client ≡ false
    → id < 2 ^ 32
    → next_message h fuel env t ≡ undefined
unfolding next_message
next_message_zero h fuel env t id rest hb hc hid =
    let r : VarIntRead = record { count = 1; value = 0; buffer = t.client.buffer } in
    let e : read_var_int_from_buffer t.client.buffer false ≡ ok r =
      rw hb (read_zero (encode 4 id ++ rest)) in
    let q : is_complete h t.client r ≡ true = rw hb (ground arith) in
    rw (e, q) (parse_next_zero h fuel env t id rest t.client.buffer hb hc hid)

-- A frame of length 0 before anything that starts with a packet id is undefined behaviour, whatever the
-- client's state: the frame has no id, so the id is taken from behind it and the copy of the body ends
-- before it begins.
pub on_length_receive_zero :
    (h : Host) (fuel : ℕ) (env : Environment) (t : Turn h.Cipher) (id : ℕ) (rest : List ℕ)
    → ReadsClear t
    → t.client.buffer ≡ []
    → compresses t.client ≡ false
    → id < 2 ^ 32
    → on_length_receive h fuel env t (0 ∷ (encode 4 id ++ rest)) false ≡ undefined
on_length_receive_zero h fuel env t id rest clear hb hc hid =
    receive_clear h fuel env t (0 ∷ (encode 4 id ++ rest)) clear
    ∙ next_message_zero h fuel env (with_bytes t (0 ∷ (encode 4 id ++ rest))) id rest (rw hb) hc hid
