-- ===== src/Proto/Subnet.antt =====
-- pkg/proto/tcpip.go: masks and subnets. A `Subnet` is the network address followed by the mask.
-- `net.CIDRMask` and `net.IPNet.Contains` are Go's, written out.
pub mod Bits
pub mod Prefix
pub mod Contains
pub mod Cidr
use Prim.Native.Nat.{bit_and, zero, suc}
use connectopus.Prelude.{
  ℕ, ◌+◌, ◌-◌, ◌*◌, ◌/◌, ◌^◌, ◌%◌, Bool, true, false, not, ◌&&◌, ◌||◌, Option, none, some, List, [],
  ◌∷◌, ◌++◌, Bytes, ◌==◌, nat_eq, bytes_eq, ltb, leb, if◌then◌else◌, length, take, drop,
}
use connectopus.Proto.Ip.{Ip, ipv4_len, ipv6_len, to4}

abbrev pub Mask : Type 0
Mask = Bytes

abbrev pub Subnet : Type 0
Subnet = Bytes

-- ^byte(0xff >> n) for n ≤ 8
abbrev pub high_bits : ℕ → ℕ
high_bits n = 255 - 255 / 2 ^ n

-- The loop of net.CIDRMask over the `l` bytes that are left, with `n` ones to place.
unfoldable pub mask_bytes : ℕ → ℕ → Mask
mask_bytes zero n = []
mask_bytes (suc l) n =
    (if leb 8 n then 255 else high_bits n) ∷ mask_bytes l (if leb 8 n then n - 8 else 0)

-- `ones` and `bits` are non-negative at every call; nil is [].
unfoldable pub cidr_mask : ℕ → ℕ → Mask
unfolding mask_bytes
cidr_mask ones bits =
    if not (bits == 32) && not (bits == 128)
    then []
    else if ltb bits ones
    then []
    else mask_bytes (bits / 8) ones

-- bits.LeadingZeros8(^b): the leading ones of a byte.
unfoldable pub leading_ones : ℕ → ℕ
leading_ones b =
    if ltb b 128
    then 0
    else if ltb b 192
    then 1
    else if ltb b 224
    then 2
    else if ltb b 240
    then 3
    else if ltb b 248
    then 4
    else if ltb b 252
    then 5
    else if ltb b 254
    then 6
    else if ltb b 255
    then 7
    else 8

-- (Mask).Prefix
unfoldable pub mask_prefix : Mask → ℕ
unfolding leading_ones
mask_prefix [] = 0
mask_prefix (b ∷ m) = leading_ones b + mask_prefix m

-- a[i] & m[i] for every i
unfoldable pub and_bytes : Bytes → Bytes → Bytes
and_bytes [] m = []
and_bytes (x ∷ a) [] = []
and_bytes (x ∷ a) (y ∷ m) = bit_and x y ∷ and_bytes a m

unfoldable pub new_subnet : Ip → Mask → Subnet
unfolding and_bytes
new_subnet a m = if length a == length m then and_bytes a m ++ m else []

unfoldable pub new_host_only_subnet : Ip → Subnet
unfolding cidr_mask
new_host_only_subnet a = a ++ cidr_mask (length a * 8) (length a * 8)

-- len(s) is 2*net.IPv4len or 2*net.IPv6len
unfoldable pub has_subnet_length : Subnet → Bool
has_subnet_length s = length s == 2 * ipv4_len || length s == 2 * ipv6_len

-- (Subnet).IP
unfoldable pub subnet_ip : Subnet → Ip
unfolding has_subnet_length
subnet_ip s = if has_subnet_length s then take (length s / 2) s else []

-- (Subnet).Mask
unfoldable pub subnet_mask : Subnet → Mask
unfolding has_subnet_length
subnet_mask s = if has_subnet_length s then drop (length s / 2) s else []

-- net's networkNumberAndMask: the address and the mask that `Contains` compares by
unfoldable pub network_number_and_mask : Ip → Mask → Bytes × Bytes
network_number_and_mask ip m =
    let nn : Bytes = elim (to4 ip) [ some x ↦ x | none ↦ ip ] in
    if not (length nn == ipv4_len) && not (length nn == ipv6_len)
    then ([], [])
    else if length m == ipv4_len
    then (if length nn == ipv4_len then (nn, m) else ([], []))
    else if length m == ipv6_len
    then (nn, if length nn == ipv4_len then drop 12 m else m)
    else ([], [])

-- (Subnet).Contains: net.IPNet.Contains at the subnet's halves
unfoldable pub contains : Subnet → Ip → Bool
unfolding subnet_ip subnet_mask network_number_and_mask to4 and_bytes
contains s a =
    let (nn, m) = network_number_and_mask (subnet_ip s) (subnet_mask s) in
    let ip : Bytes = elim (to4 a) [ some x ↦ x | none ↦ a ] in
    length ip == length nn && and_bytes nn m == and_bytes ip m

-- (Subnet).Prefix
unfoldable pub subnet_prefix : Subnet → ℕ
unfolding subnet_mask mask_prefix
subnet_prefix s = mask_prefix (subnet_mask s)
