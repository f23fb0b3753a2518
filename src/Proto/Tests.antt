-- ===== src/Proto/Tests.antt =====
-- The theorems on addresses, subnets and messages at concrete bytes.
use connectopus.Prelude.{ℕ, ◌≡◌, refl, ap, ◌↔◌, true, Option, some, [], ◌∷◌, Bytes, arith}
use connectopus.Proto.Ip.{Ip, is_v4_in_v6, is_zeros}
use connectopus.Proto.Subnet.{Mask, Subnet, and_bytes, new_subnet, new_host_only_subnet, contains}
use connectopus.Proto.Subnet.Contains.{IsIpv6, contains-new_subnet, contains-host_only}
use connectopus.Proto.Message.{
  OobMessage, Json, ok, unmarshal_oob, unmarshal_route_oob, marshal_oob, marshal_route_oob,
}
use connectopus.Proto.Message.Layout.{field, field_exact}
use connectopus.Proto.Message.RoundTrip.{Fits, unmarshal-marshal}

abbrev ip : ℕ → Ip
ip n = 253 ∷ 0 ∷ 0 ∷ 0 ∷ 0 ∷ 0 ∷ 0 ∷ 0 ∷ 0 ∷ 0 ∷ 0 ∷ 0 ∷ 0 ∷ 0 ∷ 0 ∷ n ∷ []

one-IsIpv6 : IsIpv6 (ip 1)
unfolding is_v4_in_v6 is_zeros
one-IsIpv6 = record { len = refl; native = refl; bytes = ground arith }

-- fd00::/8
abbrev mask : Mask
mask = 255 ∷ 0 ∷ 0 ∷ 0 ∷ 0 ∷ 0 ∷ 0 ∷ 0 ∷ 0 ∷ 0 ∷ 0 ∷ 0 ∷ 0 ∷ 0 ∷ 0 ∷ 0 ∷ []

masked-IsIpv6 : IsIpv6 (and_bytes (ip 9) mask)
unfolding is_v4_in_v6 is_zeros and_bytes
masked-IsIpv6 = record { len = refl; native = refl; bytes = ground arith }

contains-new_subnet_example :
    (contains (new_subnet (ip 9) mask) (ip 1) ≡ true)
    ↔ (and_bytes (ip 9) mask ≡ and_bytes (ip 1) mask)
contains-new_subnet_example =
    contains-new_subnet (ip 9) mask (ip 1) refl (ground arith) refl (ground arith) masked-IsIpv6
      one-IsIpv6

abbrev own_subnet : Subnet
own_subnet = new_host_only_subnet (ip 1)

covers_own : contains own_subnet (ip 1) ≡ true
covers_own = (contains-host_only (ip 1) (ip 1) one-IsIpv6 one-IsIpv6).1 refl

abbrev greeting : OobMessage
greeting = record {
  hops = 3;
  source_addr = ip 1;
  source_port = 7;
  dest_addr = ip 2;
  dest_port = 300;
  payload = 1 ∷ 2 ∷ [];
}

greeting-Fits : Fits greeting
greeting-Fits = record { hops = omega arith; source_port = omega arith; dest_port = omega arith }

unmarshal-marshal_example :
    (unmarshal_oob (marshal_oob greeting) ≡ ok greeting)
    × (unmarshal_route_oob (marshal_route_oob greeting) ≡ ok greeting)
unmarshal-marshal_example = unmarshal-marshal greeting greeting-Fits

abbrev head_or : Bytes → Option Ip
head_or b = some (field 16 b)

-- An address as its bytes, in place of a JSON object.
plain_json : Json
plain_json = record {
  marshal_init = λ a. a;
  unmarshal_init = head_or;
  empty_object = [];
  unmarshal_empty = λ b. true;
  unmarshal_init-marshal = λ a h. ap some (rw (← h) (field_exact a));
  unmarshal_empty-object = refl;
}
