-- ===== src/Proto/Subnet/Contains.antt =====
-- (Subnet).Contains on the subnets that NewSubnet and NewHostOnlySubnet build.
use Prim.Native.Nat.{zero, suc}
use connectopus.Prelude.{
  ℕ, ◌/◌, ◌<◌, ◌≡◌, refl, ap, sym, ◌∙◌, true, false, ◌⊎◌, ◌↔◌, inr, [], ◌∷◌, ◌++◌, Bytes,
  bytes_beq_iff, bytes_beq, length, length-append, take-append, drop-append, arith, replicate, none,
}
use connectopus.Proto.Ip.{Ip, to4, is_v4_in_v6}
use connectopus.Proto.Subnet.{
  Mask, mask_bytes, and_bytes, new_subnet, new_host_only_subnet, has_subnet_length, subnet_ip,
  subnet_mask, contains, subnet_prefix, mask_prefix,
}
use connectopus.Proto.Subnet.Bits.{bit_and-all_ones, bit_and-absorb}

abbrev pub AreBytes : Bytes → Type 0
AreBytes [] = Unit
AreBytes (x ∷ xs) = (x < 256) × AreBytes xs

-- A 16-byte address that net does not take for an IPv4 address.
pub record IsIpv6 (a : Ip) : Type 0 where
  pub len : length a ≡ 16
  pub native : is_v4_in_v6 a ≡ false
  pub bytes : AreBytes a

pub length-and_bytes : (a m : Bytes) → length a ≡ length m → length (and_bytes a m) ≡ length a
unfolding and_bytes
length-and_bytes [] m h = refl
length-and_bytes (x ∷ a) [] h = omega arith
length-and_bytes (x ∷ a) (y ∷ m) h = ap suc (length-and_bytes a m (omega arith))

pub and_bytes-absorb :
    (a m : Bytes) → AreBytes a → AreBytes m → and_bytes (and_bytes a m) m ≡ and_bytes a m
unfolding and_bytes
and_bytes-absorb [] m ha hm = refl
and_bytes-absorb (x ∷ a) [] ha hm = refl
and_bytes-absorb (x ∷ a) (y ∷ m) ha hm =
    rw (bit_and-absorb x y ha.0 hm.0, and_bytes-absorb a m ha.1 hm.1)

pub and_bytes-all_ones :
    (n : ℕ) (a : Bytes) → length a ≡ n → AreBytes a → and_bytes a (replicate n 255) ≡ a
unfolding and_bytes
and_bytes-all_ones n [] h ha = refl
and_bytes-all_ones zero (x ∷ a) h ha = absurd (omega arith)
and_bytes-all_ones (suc n) (x ∷ a) h ha =
    rw (bit_and-all_ones x ha.0, and_bytes-all_ones n a (omega arith) ha.1)

halves_of_append :
    (n m : Bytes)
    → length n ≡ length m
    → (length m ≡ 4) ⊎ (length m ≡ 16)
    → (subnet_ip (n ++ m) ≡ n) × (subnet_mask (n ++ m) ≡ m)
unfolding subnet_ip subnet_mask
halves_of_append n m e w =
    let half : length (n ++ m) / 2 ≡ length n = omega (arith, length-append n m) in
    let fits : has_subnet_length (n ++ m) ≡ true =
      unfold has_subnet_length in ground (arith, length-append n m) in
    (rw (fits, half) (take-append n m), rw (fits, half) (drop-append n m))

-- A subnet made from an address and a mask of the same length, 4 or 16 bytes, has the masked
-- address for its IP and the mask for its Mask.
pub new_subnet-halves :
    (a : Ip) (m : Mask)
    → length a ≡ length m
    → (length m ≡ 4) ⊎ (length m ≡ 16)
    → (subnet_ip (new_subnet a m) ≡ and_bytes a m) × (subnet_mask (new_subnet a m) ≡ m)
unfolding new_subnet
new_subnet-halves a m e w = ground (arith, halves_of_append (and_bytes a m) m, length-and_bytes a m)

contains_of_append :
    (n m b : Bytes)
    → IsIpv6 n
    → length m ≡ 16
    → IsIpv6 b
    → contains (n ++ m) b ≡ bytes_beq (and_bytes n m) (and_bytes b m)
unfolding contains
contains_of_append n m b hn lm hb =
    let ip = halves_of_append n m (omega (arith, hn.len)) (inr lm) in
    let n4 : to4 n ≡ none = unfold to4 in ground (arith, hn.len, hn.native) in
    let b4 : to4 b ≡ none = unfold to4 in ground (arith, hb.len, hb.native) in
    ground (arith, ip, hn.len, hb.len)

-- An IPv6 subnet contains the IPv6 addresses that agree with its address on the bits of the mask,
-- and no others; the masked address must not read as IPv4.
pub contains-new_subnet :
    (a : Ip) (m : Mask) (b : Ip)
    → length a ≡ 16
    → AreBytes a
    → length m ≡ 16
    → AreBytes m
    → IsIpv6 (and_bytes a m)
    → IsIpv6 b
    → (contains (new_subnet a m) b ≡ true) ↔ (and_bytes a m ≡ and_bytes b m)
unfolding new_subnet
contains-new_subnet a m b la ba lm bm hn hb = ground (
  arith,
  contains_of_append (and_bytes a m) m b hn lm hb,
  and_bytes-absorb a m ba bm,
  bytes_beq_iff (and_bytes a m) (and_bytes b m),
)

pub host_only_lem : (a : Ip) → length a ≡ 16 → new_host_only_subnet a ≡ a ++ replicate 16 255
unfolding new_host_only_subnet mask_bytes
host_only_lem a h = rw h refl

-- The host-only subnet of an IPv6 address contains that address and no other IPv6 address.
pub contains-host_only :
    (a b : Ip) → IsIpv6 a → IsIpv6 b → (contains (new_host_only_subnet a) b ≡ true) ↔ (a ≡ b)
contains-host_only a b ha hb =
    let m : Bytes = replicate 16 255 in
    ground (
      arith,
      host_only_lem a ha.len,
      contains_of_append a m b ha refl hb,
      and_bytes-all_ones 16 a ha.len ha.bytes,
      and_bytes-all_ones 16 b hb.len hb.bytes,
      bytes_beq_iff a b,
    )

pub host_only-halves :
    (a : Ip)
    → length a ≡ 16
    → (subnet_ip (new_host_only_subnet a) ≡ a)
      × (subnet_mask (new_host_only_subnet a) ≡ replicate 16 255)
host_only-halves a h = rw (host_only_lem a h) (halves_of_append a (replicate 16 255) h (inr refl))

pub host_only-prefix : (a : Ip) → length a ≡ 16 → subnet_prefix (new_host_only_subnet a) ≡ 128
unfolding subnet_prefix mask_prefix
host_only-prefix a h = rw ((host_only-halves a h).1)

pub host_only-injective :
    (a b : Ip)
    → length a ≡ 16
    → length b ≡ 16
    → new_host_only_subnet a ≡ new_host_only_subnet b
    → a ≡ b
host_only-injective a b ha hb e =
    sym ((host_only-halves a ha).0) ∙ ap subnet_ip e ∙ (host_only-halves b hb).0
