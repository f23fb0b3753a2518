-- ===== src/Proto/Message/RoundTrip.antt =====
-- Unmarshal after Marshal, for both kinds of out-of-band message.
use Prim.Native.Nat.{zero, suc}
use Prim.Native.Nat.add
use connectopus.Prelude.{
  ℕ, ◌+◌, ◌*◌, ◌/◌, ◌%◌, ◌<◌, ◌≡◌, sym, false, [], ◌∷◌, ◌++◌, Bytes, length, take, drop,
  length-append, take-append, arith, ltb, le→ltb,
}
use connectopus.Proto.Message.{
  OobMessage, ok, marshal_oob, marshal_route_oob, unmarshal_as, unmarshal_oob, unmarshal_route_oob,
  uint16_bytes, copy_at,
}
use connectopus.Proto.Message.Layout.{field, length-field, wire, marshal_as-wire}

-- The fields that the wire format can carry.
pub record Fits (m : OobMessage) : Type 0 where
  pub hops : m.hops < 256
  pub source_port : m.source_port < 65536
  pub dest_port : m.dest_port < 65536

-- What a receiver reads: the addresses cut off or filled up to 16 bytes.
abbrev pub received : OobMessage → OobMessage
received m = record m { source_addr = field 16 m.source_addr; dest_addr = field 16 m.dest_addr }

take_exact : (n : ℕ) (xs ys : Bytes) → length xs ≡ n → take n (xs ++ ys) ≡ xs
take_exact n xs ys e = rw (sym e) (take-append xs ys)

drop_past :
    (total k : ℕ) (xs ys : Bytes) → total ≡ length xs + k → drop total (xs ++ ys) ≡ drop k ys
drop_past total k [] ys e = rw (e, add.zero)
drop_past zero k (x ∷ xs) ys e = absurd (omega arith)
drop_past (suc total) k (x ∷ xs) ys e = drop_past total k xs ys (omega arith)

uint16_of-bytes : (p : ℕ) → p < 65536 → p / 256 % 256 * 256 + p % 256 ≡ p
uint16_of-bytes p h = omega arith

unmarshal_as-wire :
    (ty : ℕ) (m : OobMessage) → Fits m → unmarshal_as ty (wire ty m) ≡ ok (received m)
unfolding unmarshal_as
unmarshal_as-wire ty m h =
    let s = field 16 m.source_addr in
    let d = field 16 m.dest_addr in
    let ls = length-field 16 m.source_addr in
    let ld = length-field 16 m.dest_addr in
    let tail : Bytes = 0 ∷ (uint16_bytes m.dest_port ++ m.payload) in
    let mid : Bytes = uint16_bytes m.source_port ++ (d ++ tail) in
    let long : ltb (length (wire ty m)) 39 ≡ false =
      le→ltb _ 39 (omega (arith, length-append s mid, length-append d tail)) in
    ground (
      arith,
      long,
      take_exact 16 s mid ls,
      take_exact 16 d tail ld,
      drop_past 16 0 s mid (omega arith),
      drop_past 18 2 s mid (omega arith),
      drop_past 35 19 s mid (omega arith),
      drop_past 37 21 s mid (omega arith),
      drop_past 17 1 d tail (omega arith),
      drop_past 19 3 d tail (omega arith),
      uint16_of-bytes m.source_port,
      uint16_of-bytes m.dest_port,
    )

-- Unmarshalling a marshalled out-of-band message, as OOBMessage or as RouteOOBMessage, returns the
-- message with its addresses at 16 bytes, whatever its payload.
pub unmarshal-marshal :
    (m : OobMessage)
    → Fits m
    → (unmarshal_oob (marshal_oob m) ≡ ok (received m))
      × (unmarshal_route_oob (marshal_route_oob m) ≡ ok (received m))
unfolding unmarshal_oob unmarshal_route_oob marshal_oob marshal_route_oob copy_at
unmarshal-marshal m h = (
  rw (marshal_as-wire 3 m) (unmarshal_as-wire 3 m h),
  rw (marshal_as-wire 3 m) (unmarshal_as-wire 2 m h),
)
