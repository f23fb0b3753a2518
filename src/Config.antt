-- ===== src/Config.antt =====
-- pkg/config/params.go: the parameters of a backend. What net and strconv do with text is the
-- argument `Text`.
pub mod Node
pub mod Samples
mod Tests
use connectopus.Prelude.{
  ℕ, ◌<◌, ◌≡◌, Bool, Option, none, some, List, [], ◌∷◌, Bytes, bytes_eq, GoMap, get,
}
use connectopus.Proto.Ip.{Ip}
use connectopus.Router.Float.{Cost}

-- net.ParseIP, net.SplitHostPort, net.LookupIP, strconv.ParseUint with base 10 and 16 bits,
-- strconv.ParseBool and strconv.ParseFloat with 32 bits; none is an error or nil.
pub record Text : Type 0 where
  pub parse_ip : Bytes → Option Ip
  pub split_host_port : Bytes → Option (Bytes × Bytes)
  pub lookup_ip : Bytes → Option (List Ip)
  pub parse_uint16 : Bytes → Option ℕ
  pub parse_bool : Bytes → Option Bool
  pub parse_float32 : Bytes → Option Cost
  pub parse_uint16_lt : (s : Bytes) (v : ℕ) → parse_uint16 s ≡ some v → v < 65536

abbrev pub Params : Type 0
Params = GoMap Bytes Bytes

pub data ParamError : Type 0 where
  missing_parameter invalid_ip parse_error lookup_error no_address : ParamError

pub data Got (A : Type 0) : Type 0 where
  got : A → Got A
  wrong : ParamError → Got A

unfoldable pub get_string : Bytes → Bytes → Params → Bytes
get_string name default p = elim (get name p) [ none ↦ default | some v ↦ v ]

-- A parsed value, or an error.
abbrev pub parsed : {A : Type 0} → ParamError → Option A → Got A
parsed e none = wrong e
parsed e (some a) = got a

-- ips[0], where there is one
abbrev pub first_of : List Ip → Got Ip
first_of [] = wrong no_address
first_of (ip ∷ rest) = got ip

-- The address with the port.
abbrev pub paired : ℕ → Got Ip → Got (Ip × ℕ)
paired port (got ip) = got (ip, port)
paired port (wrong e) = wrong e

module _ (text : Text) where
  unfoldable pub get_ip : Bytes → Params → Got Ip
  get_ip name p = elim (get name p) [
    | none ↦ wrong missing_parameter
    | some host ↦ parsed invalid_ip (text.parse_ip host)
  ]

  unfoldable pub get_port : Bytes → Params → Got ℕ
  get_port name p = elim (get name p) [
    | none ↦ wrong missing_parameter
    | some v ↦ parsed parse_error (text.parse_uint16 v)
  ]

  -- ips[0] of a host name
  unfoldable pub first_address : Bytes → Got Ip
  first_address host = elim (text.lookup_ip host) [
    | none ↦ wrong lookup_error
    | some ips ↦ first_of ips
  ]

  unfoldable pub host_address : Bytes → Got Ip
  unfolding first_address
  host_address host = elim (text.parse_ip host) [ some ip ↦ got ip | none ↦ first_address host ]

  unfoldable pub get_host_port : Bytes → Params → Got (Ip × ℕ)
  unfolding host_address
  get_host_port name p = elim (get name p) [
    | none ↦ wrong missing_parameter
    | some peer ↦ (elim (text.split_host_port peer) [
      | none ↦ wrong parse_error
      | some (host, port_str) ↦ (elim (text.parse_uint16 port_str) [
        | none ↦ wrong parse_error
        | some port ↦ paired port (host_address host)
      ])
    ])
  ]

  unfoldable pub get_bool : Bytes → Bool → Params → Got Bool
  get_bool name default p = elim (get name p) [
    | none ↦ got default
    | some v ↦ parsed parse_error (text.parse_bool v)
  ]

  unfoldable pub get_float32 : Bytes → Cost → Params → Got Cost
  get_float32 name default p = elim (get name p) [
    | none ↦ got default
    | some v ↦ parsed parse_error (text.parse_float32 v)
  ]
