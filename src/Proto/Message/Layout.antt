-- ===== src/Proto/Message/Layout.antt =====
-- The bytes that Marshal of an OOBMessage writes.
use Prim.Native.Nat.{zero, suc}
use Prim.Native.Nat.add
use mathlib.Core.List.{append_assoc, append-nil}
use connectopus.Prelude.{
  ℕ, ◌+◌, ◌≡◌, refl, ap, sym, ◌∙◌, [], ◌∷◌, ◌++◌, Bytes, length, replicate, length-append, arith,
}
use connectopus.Proto.Message.{OobMessage, copy_front, copy_at, uint16_bytes, marshal_as}

-- An address as the 16 bytes of the header: cut off, or filled up with zeros.
abbrev pub field : ℕ → Bytes → Bytes
field zero src = []
field (suc n) [] = 0 ∷ field n []
field (suc n) (x ∷ src) = x ∷ field n src

pub length-field : (n : ℕ) (src : Bytes) → length (field n src) ≡ n
length-field zero src = refl
length-field (suc n) [] = ap suc (length-field n [])
length-field (suc n) (x ∷ src) = ap suc (length-field n src)

pub field_exact : (src : Bytes) → field (length src) src ≡ src
field_exact [] = refl
field_exact (x ∷ src) = ap (λ r. x ∷ r) (field_exact src)

field_nil : (n : ℕ) → field n [] ≡ replicate n 0
field_nil zero = refl
field_nil (suc n) = ap (λ r. 0 ∷ r) (field_nil n)

pub copy_front_zeros :
    (n : ℕ) (src rest : Bytes) → copy_front n src (replicate n 0 ++ rest) ≡ field n src ++ rest
unfolding copy_front
copy_front_zeros zero src rest = refl
copy_front_zeros (suc n) [] rest = rw (field_nil n)
copy_front_zeros (suc n) (x ∷ src) rest = ap (λ r. x ∷ r) (copy_front_zeros n src rest)

pub copy_at_append :
    (pre : Bytes) (n : ℕ) (src rest : Bytes)
    → copy_at (length pre) n src (pre ++ rest) ≡ pre ++ copy_front n src rest
unfolding copy_at
copy_at_append [] n src rest = refl
copy_at_append (x ∷ pre) n src rest = ap (λ r. x ∷ r) (copy_at_append pre n src rest)

-- The message's type byte, its hops, the source address and port, the destination address, an
-- unused byte, the destination port, the data.
abbrev pub wire : ℕ → OobMessage → Bytes
wire ty m =
    (ty ∷ m.hops ∷ [])
    ++ (field 16 m.source_addr
        ++ (uint16_bytes m.source_port
            ++ (field 16 m.dest_addr ++ (0 ∷ (uint16_bytes m.dest_port ++ m.payload)))))

replicate-add : (n k : ℕ) → replicate {A = ℕ} (n + k) 0 ≡ replicate n 0 ++ replicate k 0
replicate-add zero k = rw add.zero
replicate-add (suc n) k = rw add.suc (ap (λ r. 0 ∷ r) (replicate-add n k))

-- A write of `n` bytes behind `pre`, where only zeros have been written.
fill :
    (pre : Bytes) (off n k total : ℕ) (src : Bytes)
    → off ≡ length pre
    → total ≡ n + k
    → copy_at off n src (pre ++ replicate total 0) ≡ (pre ++ field n src) ++ replicate k 0
fill pre off n k total src e t =
    rw (e, t, replicate-add n k, copy_at_append pre n src, copy_front_zeros n src)
      (sym (append_assoc pre (field n src) (replicate k 0)))

-- One zero more is left as it is.
skip :
    (pre : Bytes) (total k : ℕ)
    → total ≡ 1 + k
    → pre ++ replicate total 0 ≡ (pre ++ 0 ∷ []) ++ replicate k 0
skip pre total k t = rw (t, replicate-add 1 k) (sym (append_assoc pre (0 ∷ []) (replicate k 0)))

-- Marshal writes the fields one after another.
pub marshal_as-wire : (ty : ℕ) (m : OobMessage) → marshal_as ty m ≡ wire ty m
unfolding marshal_as
marshal_as-wire ty m =
    let l = length m.payload in
    let p2 : Bytes = ty ∷ m.hops ∷ [] in
    let p3 = p2 ++ field 16 m.source_addr in
    let p4 = p3 ++ uint16_bytes m.source_port in
    let p5 = p4 ++ field 16 m.dest_addr in
    let p6 = p5 ++ 0 ∷ [] in
    let p7 = p6 ++ uint16_bytes m.dest_port in
    let s = length-field 16 m.source_addr in
    let d = length-field 16 m.dest_addr in
    let n3 : length p3 ≡ 18 = omega (arith, length-append p2 (field 16 m.source_addr)) in
    let n4 : length p4 ≡ 20 = omega (arith, length-append p3 (uint16_bytes m.source_port)) in
    let n5 : length p5 ≡ 36 = omega (arith, length-append p4 (field 16 m.dest_addr)) in
    let n6 : length p6 ≡ 37 = omega (arith, length-append p5 (0 ∷ [])) in
    let n7 : length p7 ≡ 39 = omega (arith, length-append p6 (uint16_bytes m.dest_port)) in
    let e1 = fill [] 0 1 (38 + l) (39 + l) (ty ∷ []) refl (omega arith) in
    let e2 =
      ap (copy_at 1 1 (m.hops ∷ [])) e1
      ∙ fill (ty ∷ []) 1 1 (37 + l) (38 + l) (m.hops ∷ []) refl (omega arith) in
    let e3 =
      ap (copy_at 2 16 m.source_addr) e2
      ∙ fill p2 2 16 (21 + l) (37 + l) m.source_addr refl (omega arith) in
    let e4 =
      ap (copy_at 18 2 (uint16_bytes m.source_port)) e3
      ∙ fill p3 18 2 (19 + l) (21 + l) (uint16_bytes m.source_port) (sym n3) (omega arith) in
    let e5 =
      ap (copy_at 20 16 m.dest_addr) e4
      ∙ fill p4 20 16 (3 + l) (19 + l) m.dest_addr (sym n4) (omega arith) in
    let e6 = e5 ∙ skip p5 (3 + l) (2 + l) (omega arith) in
    let e7 =
      ap (copy_at 37 2 (uint16_bytes m.dest_port)) e6
      ∙ fill p6 37 2 l (2 + l) (uint16_bytes m.dest_port) (sym n6) (omega arith) in
    let e8 = ap (copy_at 39 l m.payload) e7 ∙ fill p7 39 l 0 l m.payload (sym n7) (omega arith) in
    e8 ∙ simp (append_assoc, append-nil, field_exact m.payload)
