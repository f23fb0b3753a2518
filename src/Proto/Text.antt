-- ===== src/Proto/Text.antt =====
-- pkg/proto/tcpip.go and proto.go: addresses, subnets and the connections of a routing update as
-- text, JSON and YAML. The packages net, encoding/json and yaml are the argument `Text`.
pub mod Connections
mod Tests
use connectopus.Prelude.{
  ℕ, ◌≡◌, Option, none, some, List, [], ◌∷◌, ◌++◌, Bytes, bytes_eq, nat_eq, ◌==◌, not, ◌||◌, GoMap,
  In, get, ◌≤◌, ◌<◌, put, keys, Distinct, length, if◌then◌else◌,
}
use connectopus.Proto.Ip.{Ip, ipv4_len, ipv6_len, parse_ip}
use connectopus.Proto.Subnet.{Subnet, Mask, has_subnet_length, subnet_ip, subnet_mask}
use connectopus.Proto.Subnet.Cidr.{IsCidr}
use connectopus.Router.Float.{Cost, max_cost}
use connectopus.Router.Graph.{RoutingConns}

-- A float32 that is not infinite: from -MaxFloat32 to MaxFloat32.
abbrev pub IsFinite : Cost → Type 0
IsFinite v = (0x00800001 ≤ v) × (v ≤ max_cost)

abbrev pub IsAscii : Bytes → Type 0
IsAscii [] = Unit
IsAscii (b ∷ bs) = (b < 128) × IsAscii bs

-- net.ParseIP (nil being []), net.IP.String, net.IPNet.String, net.ParseCIDR; json.Marshal and
-- Unmarshal of a string and of a map to numbers, none being an error. The laws: a map with ASCII keys
-- to finite numbers is read back, in any order; an infinite number is an error of Marshal; IPNet.String
-- prints a CIDR subnet in ASCII, and ParseCIDR reads that network back.
pub record Text : Type 1 where
  -- the bytes of a JSON document
  pub Json : Type 0
  pub net_parse_ip : Bytes → Bytes
  pub net_ip_string : Ip → Bytes
  pub net_string : Ip → Mask → Bytes
  pub net_parse_cidr : Bytes → Option (Ip × (Ip × Mask))
  pub marshal_string : Bytes → Json
  pub unmarshal_string : Json → Option Bytes
  pub marshal_costs : GoMap Bytes Cost → Option Json
  pub unmarshal_costs : Json → Option (GoMap Bytes Cost)
  pub unmarshal-marshal_costs :
      (m : GoMap Bytes Cost)
      → Distinct (keys m)
      → ((s : Bytes) → In s (keys m) → IsAscii s)
      → ((s : Bytes) (v : Cost) → get s m ≡ some v → IsFinite v)
      → (json : Json) × (marshal_costs m ≡ some json)
        × ((m' : GoMap Bytes Cost) × (unmarshal_costs json ≡ some m')
            × Distinct (keys m')
            × ((s : Bytes) → get s m' ≡ get s m))
  pub marshal_costs-infinite :
      (m : GoMap Bytes Cost) (s : Bytes) (v : Cost)
      → get s m ≡ some v
      → ¬ IsFinite v
      → marshal_costs m ≡ none
  pub net_string-ascii :
      (k : Subnet) → IsCidr k → IsAscii (net_string (subnet_ip k) (subnet_mask k))
  pub net_parse_cidr-string :
      (k : Subnet)
      → IsCidr k
      → (a : Ip) × (net_parse_cidr (net_string (subnet_ip k) (subnet_mask k))
          ≡ some (a, (subnet_ip k, subnet_mask k)))

-- "<nil>" and "<invalid>"
abbrev pub nil_text : Bytes
nil_text = 60 ∷ 110 ∷ 105 ∷ 108 ∷ 62 ∷ []

abbrev pub invalid_text : Bytes
invalid_text = 60 ∷ 105 ∷ 110 ∷ 118 ∷ 97 ∷ 108 ∷ 105 ∷ 100 ∷ 62 ∷ []

module _ (text : Text) where
  -- ParseCIDR
  unfoldable pub parse_cidr : Bytes → Option (Ip × Subnet)
  parse_cidr s = elim (text.net_parse_cidr s) [
    | none ↦ none
    | some (ip, (network, mask)) ↦ some (ip, network ++ mask)
  ]

  -- (Subnet).String
  unfoldable pub subnet_string : Subnet → Bytes
  unfolding has_subnet_length
  subnet_string s =
      if length s == 0
      then nil_text
      else if not (has_subnet_length s)
      then invalid_text
      else text.net_string (subnet_ip s) (subnet_mask s)

  -- (IP).MarshalJSON and UnmarshalJSON
  unfoldable pub marshal_ip_json : Ip → text.Json
  marshal_ip_json a = text.marshal_string (text.net_ip_string a)

  -- The end of UnmarshalJSON and UnmarshalYAML of an IP
  unfoldable pub ip_of_text : Bytes → Option Ip
  unfolding parse_ip
  ip_of_text s = let ip = parse_ip text.net_parse_ip s in if length ip == 0 then none else some ip

  unfoldable pub unmarshal_ip_json : text.Json → Option Ip
  unfolding ip_of_text
  unmarshal_ip_json json = elim (text.unmarshal_string json) [ none ↦ none | some s ↦ ip_of_text s ]

  -- (IP).MarshalYAML and (Subnet).MarshalYAML: the text that yaml encodes, none being nil
  unfoldable pub marshal_ip_yaml : Ip → Option Bytes
  marshal_ip_yaml a = if length a == 0 then none else some (text.net_ip_string a)

  unfoldable pub marshal_subnet_yaml : Subnet → Option Bytes
  unfolding subnet_string
  marshal_subnet_yaml s = if length s == 0 then none else some (subnet_string s)

  -- (Subnet).MarshalJSON
  unfoldable pub marshal_subnet_json : Subnet → text.Json
  unfolding subnet_string
  marshal_subnet_json s = text.marshal_string (subnet_string s)

  -- The end of UnmarshalJSON and UnmarshalYAML of a Subnet
  unfoldable pub subnet_of_text : Bytes → Option Subnet
  unfolding parse_cidr
  subnet_of_text s = elim (parse_cidr s) [ none ↦ none | some (ip, subnet) ↦ some subnet ]

  unfoldable pub unmarshal_subnet_json : text.Json → Option Subnet
  unfolding subnet_of_text
  unmarshal_subnet_json json = elim (text.unmarshal_string json) [
    | none ↦ none
    | some s ↦ subnet_of_text s
  ]

  -- The loop of (RoutingConns).MarshalJSON
  unfoldable pub text_costs : RoutingConns → GoMap Bytes Cost → GoMap Bytes Cost
  unfolding subnet_string
  text_costs [] m = m
  text_costs ((k, v) ∷ rc) m = text_costs rc (put (subnet_string k) v m)

  -- (RoutingConns).MarshalJSON, none being an error
  unfoldable pub marshal_conns : RoutingConns → Option text.Json
  unfolding text_costs
  marshal_conns rc = text.marshal_costs (text_costs rc [])

  -- The loop of (RoutingConns).UnmarshalJSON
  unfoldable pub conns_of_text : GoMap Bytes Cost → RoutingConns → Option RoutingConns
  unfolding subnet_of_text
  conns_of_text [] new_rc = some new_rc
  conns_of_text ((k, v) ∷ m) new_rc = elim (subnet_of_text k) [
    | none ↦ none
    | some subnet ↦ conns_of_text m (put subnet v new_rc)
  ]

  -- (RoutingConns).UnmarshalJSON
  unfoldable pub unmarshal_conns : text.Json → Option RoutingConns
  unfolding conns_of_text
  unmarshal_conns json = elim (text.unmarshal_costs json) [
    | none ↦ none
    | some m ↦ conns_of_text m []
  ]
