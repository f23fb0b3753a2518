-- ===== src/Proto/Subnet/Prefix.antt =====
-- (Mask).Prefix on the masks that net.CIDRMask builds, and on others.
use Prim.Native.Nat.{zero, suc}
use connectopus.Prelude.{
  ℕ, ◌-◌, ◌*◌, ◌/◌, ◌≤◌, ◌<◌, ◌≡◌, refl, ap, ◌⊎◌, inl, inr, leb, if◌then◌else◌, Bool-cases, length,
  arith,
}
use connectopus.Proto.Subnet.{high_bits, mask_bytes, cidr_mask, leading_ones, mask_prefix}

leading_ones-high_bits : (n : ℕ) → n < 8 → leading_ones (high_bits n) ≡ n
unfolding leading_ones
leading_ones-high_bits zero h = refl
leading_ones-high_bits (suc zero) h = refl
leading_ones-high_bits (suc (suc zero)) h = refl
leading_ones-high_bits (suc (suc (suc zero))) h = refl
leading_ones-high_bits (suc (suc (suc (suc zero)))) h = refl
leading_ones-high_bits (suc (suc (suc (suc (suc zero))))) h = refl
leading_ones-high_bits (suc (suc (suc (suc (suc (suc zero)))))) h = refl
leading_ones-high_bits (suc (suc (suc (suc (suc (suc (suc zero))))))) h = refl
leading_ones-high_bits (suc (suc (suc (suc (suc (suc (suc (suc n)))))))) h = absurd (omega arith)

leading_ones-full : leading_ones 255 ≡ 8
unfolding leading_ones
leading_ones-full = refl

pub length-mask_bytes : (l n : ℕ) → length (mask_bytes l n) ≡ l
unfolding mask_bytes
length-mask_bytes zero n = refl
length-mask_bytes (suc l) n = ap suc (length-mask_bytes l (if leb 8 n then n - 8 else 0))

pub mask_prefix-mask_bytes : (l n : ℕ) → n ≤ 8 * l → mask_prefix (mask_bytes l n) ≡ n
unfolding mask_bytes mask_prefix
mask_prefix-mask_bytes zero n h = omega arith
mask_prefix-mask_bytes (suc l) n h = elim (Bool-cases (leb 8 n)) [
  | inl big ↦ rw (big, leading_ones-full) (ground (arith, mask_prefix-mask_bytes l (n - 8)))
  | inr small ↦
      rw (small, leading_ones-high_bits n (ground arith))
        (omega (arith, mask_prefix-mask_bytes l 0 (omega arith)))
]

-- For at most 32 or 128 ones the mask that net.CIDRMask builds has 4 or 16 bytes, and its Prefix
-- is the number of ones.
pub cidr_mask-prefix :
    (ones bits : ℕ)
    → (bits ≡ 32) ⊎ (bits ≡ 128)
    → ones ≤ bits
    → (length (cidr_mask ones bits) * 8 ≡ bits) × (mask_prefix (cidr_mask ones bits) ≡ ones)
unfolding cidr_mask
cidr_mask-prefix ones bits w h =
    ground (arith, length-mask_bytes (bits / 8) ones, mask_prefix-mask_bytes (bits / 8) ones)
