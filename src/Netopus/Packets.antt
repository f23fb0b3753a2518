-- ===== src/Netopus/Packets.antt =====
-- pkg/netopus/netopus.go: SendPacket with sendICMPv6Error, SendOOB and sendRoutingOOB. What gvisor's
-- `header` package does with a packet's bytes is the argument `Header`.
pub mod Limit
pub mod Replies
pub mod Oob
use Prim.Native.Nat.{zero, suc}
use connectopus.Prelude.{
  ℕ, ◌+◌, ◌-◌, ◌%◌, ◌^◌, ◌≡◌, ◌≤◌, ◌<◌, Bool, true, false, Option, none, some, List, [], ◌∷◌, ◌++◌,
  Bytes, bytes_eq, nat_eq, ◌==◌, ltb, leb, if◌then◌else◌, GoMap, get, length, take,
}
use connectopus.Proto.Ip.{Ip, equal}
use connectopus.Proto.Subnet.{contains}
use connectopus.Proto.Message.{OobMessage, marshal_oob, marshal_route_oob}
use connectopus.Router.NextHop.{next_hop}
use connectopus.Netopus.Node.{ExternalRouteInfo, Session, Netopus}

pub data IcmpError : Type 0 where
  hop_limit_exceeded network_unreachable : IcmpError

-- The fields of header.IPv6Fields that the source sets, but for the transport protocol.
pub record Ipv6Fields : Type 0 where
  pub payload_length : ℕ
  pub hop_limit : ℕ
  pub src_addr : Ip
  pub dst_addr : Ip

-- The calls of gvisor's header package. `icmp_packet` encodes the fields, then the ICMPv6 error over
-- the quoted bytes with its checksum. The laws say that SetHopLimit writes the hop limit only, that
-- an address has 16 bytes, and that the addresses of an encoded packet are read back.
pub record Header : Type 0 where
  pub ipv6_minimum_size : ℕ
  pub icmpv6_minimum_size : ℕ
  pub destination_address : Bytes → Ip
  pub source_address : Bytes → Ip
  pub hop_limit : Bytes → ℕ
  pub set_hop_limit : ℕ → Bytes → Bytes
  pub is_multicast : Ip → Bool
  pub icmp_packet : Ipv6Fields → IcmpError → Bytes → Bytes
  pub hop_limit-set :
      (l : ℕ) (p : Bytes)
      → ipv6_minimum_size ≤ length p
      → l < 256
      → hop_limit (set_hop_limit l p) ≡ l
  pub hop_limit_lt : (p : Bytes) → hop_limit p < 256
  pub destination-set :
      (l : ℕ) (p : Bytes) → destination_address (set_hop_limit l p) ≡ destination_address p
  pub source-set : (l : ℕ) (p : Bytes) → source_address (set_hop_limit l p) ≡ source_address p
  pub length-source : (p : Bytes) → length (source_address p) ≡ 16
  pub destination-icmp :
      (f : Ipv6Fields) (e : IcmpError) (b : Bytes)
      → length f.src_addr ≡ 16
      → length f.dst_addr ≡ 16
      → destination_address (icmp_packet f e b) ≡ f.dst_addr
  pub source-icmp :
      (f : Ipv6Fields) (e : IcmpError) (b : Bytes)
      → length f.src_addr ≡ 16
      → length f.dst_addr ≡ 16
      → source_address (icmp_packet f e b) ≡ f.src_addr

-- Where one SendPacket, without the error that it may send, brings a packet: the cases stand in the
-- order of its returns. The packet that an error quotes has the hop limit it had then.
pub data Fate : Type 0 where
  too_small multicast : Fate
  local_stack : Bytes → Fate
  expired : Bytes → Fate
  external_route : Bytes → Bytes → Fate
  no_route : Bytes → Fate
  no_session : Ip → Fate
  to_session : Ip → Bytes → Fate

-- The loop over externalRoutes: the first route, in the order of the map, that contains the address.
unfoldable pub outgoing_route : Ip → GoMap Bytes ExternalRouteInfo → Option Bytes
outgoing_route dest [] = none
outgoing_route dest ((name, r) ∷ routes) =
    let rest = outgoing_route dest routes in if contains r.dest dest then some name else rest

-- The end of SendPacket, for a packet that no external route takes.
unfoldable pub via_next_hop : Netopus → Ip → Bytes → Fate
via_next_hop n dest packet = elim (next_hop n.router.policy dest) [
  | none ↦ no_route packet
  | some hop ↦ elim (get hop n.session_info) [
    | none ↦ no_session hop
    | some sess ↦ to_session hop packet
  ]
]

pub data SendResult : Type 0 where
  sent_nil : SendResult
  -- what the stack or the external route returns
  of_callee : SendResult
  malformed no_route_to_host no_connection : SendResult

-- The node, the packets in the order in which they are handed on, and SendPacket's result.
pub record Outcome : Type 0 where
  pub node : Netopus
  pub handed : List Fate
  pub result : SendResult

module _ (header : Header) where
  unfoldable pub fate : Netopus → Bytes → Fate
  unfolding via_next_hop outgoing_route
  fate n packet =
      if ltb (length packet) header.ipv6_minimum_size
      then too_small
      else (let dest = header.destination_address packet in
          let limit = header.hop_limit packet in
          let lowered = header.set_hop_limit (limit - 1) packet in
          if header.is_multicast dest
          then multicast
          else if equal dest n.addr
          then local_stack packet
          else if leb limit 1
          then expired packet
          else (elim (outgoing_route dest n.external_routes) [
            | some name ↦ external_route name lowered
            | none ↦ via_next_hop n dest lowered
          ]))

  -- sendICMPv6Error, up to its SendPacket
  unfoldable pub icmp_error : Netopus → Bytes → IcmpError → Bytes
  icmp_error n orig e =
      let most = header.ipv6_minimum_size + 8 in
      let extra_size = if ltb (length orig) most then length orig else most in
      header.icmp_packet
        (record {
          payload_length = (header.icmpv6_minimum_size + extra_size) % 2 ^ 16;
          hop_limit = 30;
          src_addr = n.addr;
          dst_addr = header.source_address orig;
        })
        e (take extra_size orig)

  -- SendPacket. The fuel bounds how deep an error answers an error.
  unfoldable pub send_packet : ℕ → Netopus → Bytes → Option Outcome
  unfolding fate icmp_error
  send_packet zero n packet = none
  send_packet (suc fuel) n packet = elim (fate n packet) [
    | too_small ↦ some (record { node = n; handed = []; result = malformed })
    | multicast ↦ some (record { node = n; handed = []; result = sent_nil })
    | local_stack p ↦ some (record { node = n; handed = local_stack p ∷ []; result = of_callee })
    | expired p ↦ elim (send_packet fuel n (icmp_error n p hop_limit_exceeded)) [
      | none ↦ none
      | some o ↦ some (record o { result = sent_nil })
    ]
    | external_route name p ↦
        some (record { node = n; handed = external_route name p ∷ []; result = of_callee })
    | no_route p ↦
        let asked = record n { update_requests = suc n.update_requests } in
        elim (send_packet fuel asked (icmp_error n p network_unreachable)) [
          | none ↦ none
          | some o ↦ some (record o { result = no_route_to_host })
        ]
    | no_session hop ↦ some (record { node = n; handed = []; result = no_connection })
    | to_session hop p ↦
        some (record { node = n; handed = to_session hop p ∷ []; result = sent_nil })
  ]

-- What SendOOB does with a message: the cases in the order of its returns.
pub data OobFate : Type 0 where
  oob_port : ℕ → OobMessage → OobFate
  oob_port_unreachable oob_expired : OobFate
  oob_no_session : Ip → OobFate
  oob_to_session : Ip → Bytes → OobFate

unfoldable pub has_port : ℕ → List ℕ → Bool
has_port port [] = false
has_port port (p ∷ ports) = let rest = has_port port ports in if p == port then true else rest

-- msg.Hops++ on a byte
abbrev pub one_hop_more : OobMessage → OobMessage
one_hop_more m = record m { hops = (m.hops + 1) % 256 }

-- Where there is no route, the message is for a neighbour.
unfoldable pub oob_hop : Netopus → Ip → Ip
oob_hop n dest = elim (next_hop n.router.policy dest) [ none ↦ dest | some hop ↦ hop ]

-- SendOOB
unfoldable pub send_oob : Netopus → OobMessage → OobFate
unfolding has_port oob_hop
send_oob n m =
    if equal m.dest_addr n.addr
    then if has_port m.dest_port n.oob_ports then oob_port m.dest_port m else oob_port_unreachable
    else if leb 30 (one_hop_more m).hops
    then oob_expired
    else (elim (get (oob_hop n m.dest_addr) n.session_info) [
      | none ↦ oob_no_session (oob_hop n m.dest_addr)
      | some sess ↦ oob_to_session (oob_hop n m.dest_addr) (marshal_oob (one_hop_more m))
    ])

-- sendRoutingOOB: the peer that is written to, with the bytes. An unknown peer is only logged.
unfoldable pub send_routing_oob : Netopus → OobMessage → Option (Ip × Bytes)
send_routing_oob n m = elim (get m.dest_addr n.session_info) [
  | none ↦ none
  | some sess ↦ some (m.dest_addr, marshal_route_oob m)
]
