-- ===== src/McPacket/Base/Pod.antt =====
-- `writePODToBuffer` and `readPODFromBuffer` of MCPacket/Packet.hpp.
use cerios_cluster.Common.{
  ℕ, zero, suc, ◌/◌, ◌%◌, ◌^◌, ◌<◌, List, ◌∷◌, ◌++◌, true, length, take, drop, length-append, ◌≡◌,
  refl, ap, arith,
}
use cerios_cluster.McPacket.Base.{Packet, to_bytes, of_bytes, read_pod}
use native.Mathlib.Nat.{pow-suc}

pub length-to_bytes : (size value : ℕ) → length (to_bytes size value) ≡ size
unfolding to_bytes
length-to_bytes zero value = refl
length-to_bytes (suc size) value = ap suc (length-to_bytes size (value / 2 ^ 8))

pub of_bytes-to_bytes :
    (size value : ℕ) → value < 256 ^ size → of_bytes (to_bytes size value) ≡ value
unfolding to_bytes of_bytes
of_bytes-to_bytes zero value h = omega arith
of_bytes-to_bytes (suc size) value h =
    omega (arith, of_bytes-to_bytes size (value / 2 ^ 8) (omega (arith, pow-suc 256 size)))

-- The object of `size` bytes in front of the payload.
abbrev pub holding : Packet → List ℕ → Packet
holding p payload = record p { raw_payload = payload }

pub take-to_bytes :
    (size value : ℕ) (rest : List ℕ) → take size (to_bytes size value ++ rest) ≡ to_bytes size value
unfolding to_bytes
take-to_bytes zero value rest = refl
take-to_bytes (suc size) value rest =
    ap (◌∷◌ (value % 2 ^ 8)) (take-to_bytes size (value / 2 ^ 8) rest)

pub drop-to_bytes :
    (size value : ℕ) (rest : List ℕ) → drop size (to_bytes size value ++ rest) ≡ rest
unfolding to_bytes
drop-to_bytes zero value rest = refl
drop-to_bytes (suc size) value rest = drop-to_bytes size (value / 2 ^ 8) rest

pub read_pod-to_bytes :
    (size value other : ℕ) (p : Packet) (rest : List ℕ)
    → value < 256 ^ size
    → read_pod size (holding p (to_bytes size value ++ rest)) other true ≡ (value, holding p rest)
unfolding read_pod
read_pod-to_bytes size value other p rest h = ground (
  arith,
  length-append (to_bytes size value) rest,
  length-to_bytes size value,
  of_bytes-to_bytes size value h,
  take-to_bytes size value rest,
  drop-to_bytes size value rest,
)
