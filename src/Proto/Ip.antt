-- ===== src/Proto/Ip.antt =====
-- pkg/proto/tcpip.go: IP addresses as byte strings, with what the source uses of Go's net package
-- (`To4`, `Equal`). `net.ParseIP` reads text: it is the argument `net_parse_ip`, nil being [].
use connectopus.Prelude.{
  ℕ, Bool, true, false, ◌&&◌, Option, none, some, [], ◌∷◌, Bytes, ◌==◌, nat_eq, bytes_eq,
  if◌then◌else◌, length, take, drop, get_or,
}

abbrev pub Ip : Type 0
Ip = Bytes

-- net.IPv4len and net.IPv6len
abbrev pub ipv4_len : ℕ
ipv4_len = 4

abbrev pub ipv6_len : ℕ
ipv6_len = 16

unfoldable pub is_zeros : Bytes → Bool
is_zeros [] = true
is_zeros (b ∷ p) = b == 0 && is_zeros p

-- len(ip) == 16 && isZeros(ip[0:10]) && ip[10] == 0xff && ip[11] == 0xff
unfoldable pub is_v4_in_v6 : Bytes → Bool
unfolding is_zeros
is_v4_in_v6 ip =
    length ip == ipv6_len
    && (is_zeros (take 10 ip) && (get_or ip 10 0 == 255 && get_or ip 11 0 == 255))

unfoldable pub parse_ip : (Bytes → Bytes) → Bytes → Ip
unfolding is_v4_in_v6
parse_ip net_parse_ip s =
    let ip : Bytes = net_parse_ip s in if is_v4_in_v6 ip then take 4 (drop 12 ip) else ip

-- net.IP.To4, nil being none
unfoldable pub to4 : Ip → Option Bytes
unfolding is_v4_in_v6
to4 ip =
    if length ip == ipv4_len
    then some ip
    else if is_v4_in_v6 ip
    then some (take 4 (drop 12 ip))
    else none

-- net's v4InV6Prefix
abbrev pub v4_in_v6_prefix : Bytes
v4_in_v6_prefix = 0 ∷ 0 ∷ 0 ∷ 0 ∷ 0 ∷ 0 ∷ 0 ∷ 0 ∷ 0 ∷ 0 ∷ 255 ∷ 255 ∷ []

unfoldable pub equal : Ip → Ip → Bool
equal a b =
    if length a == length b
    then a == b
    else if length a == ipv4_len && length b == ipv6_len
    then take 12 b == v4_in_v6_prefix && a == drop 12 b
    else if length a == ipv6_len && length b == ipv4_len
    then take 12 a == v4_in_v6_prefix && drop 12 a == b
    else false
