-- ===== src/Proto/Subnet/Cidr.antt =====
-- The subnets that CIDR notation writes, and which of them contain an address.
use Prim.Native.Nat.{zero, suc}
use connectopus.Prelude.{
  ℕ, ◌-◌, ◌≤◌, ◌≡◌, refl, ap, sym, ◌∙◌, inl, inr, true, ◌++◌, if◌then◌else◌, leb, ltb, Bool-cases,
  length, arith,
}
use connectopus.Proto.Ip.{Ip}
use connectopus.Proto.Subnet.{
  Subnet, mask_bytes, cidr_mask, and_bytes, new_subnet, new_host_only_subnet, contains,
  subnet_prefix,
}
use connectopus.Proto.Subnet.Prefix.{cidr_mask-prefix}
use connectopus.Proto.Subnet.Contains.{
  AreBytes, IsIpv6, and_bytes-all_ones, new_subnet-halves, contains-new_subnet, host_only_lem,
}

-- An IPv6 subnet with a contiguous mask whose address does not read as IPv4.
pub record IsCidr (k : Subnet) : Type 0 where
  pub address : Ip
  pub ones : ℕ
  pub len : length address ≡ 16
  pub bytes : AreBytes address
  pub fits : ones ≤ 128
  pub made : k ≡ new_subnet address (cidr_mask ones 128)
  pub native : IsIpv6 (and_bytes address (cidr_mask ones 128))

mask_bytes-AreBytes : (l n : ℕ) → AreBytes (mask_bytes l n)
unfolding mask_bytes
mask_bytes-AreBytes zero n = tt
mask_bytes-AreBytes (suc l) n = (ground arith, mask_bytes-AreBytes l (if leb 8 n then n - 8 else 0))

cidr_mask-AreBytes : (n : ℕ) → n ≤ 128 → AreBytes (cidr_mask n 128)
unfolding cidr_mask
cidr_mask-AreBytes n h = elim (Bool-cases (ltb 128 n)) [
  | inl t ↦ rw t tt
  | inr t ↦ rw t (mask_bytes-AreBytes 16 n)
]

pub length-cidr_mask : (n : ℕ) → n ≤ 128 → length (cidr_mask n 128) ≡ 16
length-cidr_mask n h = omega (arith, cidr_mask-prefix n 128 (inr refl) h)

module _ (k : Subnet) (c : IsCidr k) where
  pub cidr-prefix : subnet_prefix k ≡ c.ones
  unfolding subnet_prefix
  cidr-prefix =
      let l = length-cidr_mask c.ones c.fits in
      let halves = new_subnet-halves c.address (cidr_mask c.ones 128) (c.len ∙ sym l) (inr l) in
      rw (c.made, halves.1) (cidr_mask-prefix c.ones 128 (inr refl) c.fits).1

  cidr-covers :
      (dest : Ip)
      → IsIpv6 dest
      → contains k dest ≡ true
      → k ≡ and_bytes dest (cidr_mask c.ones 128) ++ cidr_mask c.ones 128
  unfolding new_subnet
  cidr-covers dest d h =
      let l = length-cidr_mask c.ones c.fits in
      let same =
        (contains-new_subnet c.address (cidr_mask c.ones 128) dest c.len c.bytes l
            (cidr_mask-AreBytes c.ones c.fits) c.native d).0
          (rw (← c.made) h) in
      c.made ∙ ground (arith, same)

-- Two such subnets that contain one address and have the same prefix length are the same.
pub cidr_unique :
    (j k : Subnet) (dest : Ip)
    → IsCidr j
    → IsCidr k
    → IsIpv6 dest
    → contains j dest ≡ true
    → contains k dest ≡ true
    → subnet_prefix j ≡ subnet_prefix k
    → j ≡ k
cidr_unique j k dest cj ck d hj hk e =
    let ones : cj.ones ≡ ck.ones = omega (arith, cidr-prefix j cj, cidr-prefix k ck) in
    cidr-covers j cj dest d hj
    ∙ ap (λ n. and_bytes dest (cidr_mask n 128) ++ cidr_mask n 128) ones
    ∙ sym (cidr-covers k ck dest d hk)

pub host_only-IsCidr : (a : Ip) → IsIpv6 a → IsCidr (new_host_only_subnet a)
unfolding new_subnet cidr_mask mask_bytes
host_only-IsCidr a h =
    let all = and_bytes-all_ones 16 a h.len h.bytes in
    record {
      address = a;
      ones = 128;
      len = h.len;
      bytes = h.bytes;
      fits = omega arith;
      made = host_only_lem a h.len ∙ ground (arith, all, h.len);
      native = rw all h;
    }
