-- ===== src/Instance/Links/Delivery.antt =====
-- Packets to a tunnel device or a name space, while it runs and after its end.
use connectopus.Prelude.{
  ◌≤◌, ◌<◌, ◌-◌, ◌≡◌, refl, ap, ◌∙◌, inl, inr, true, false, Bool-cases, Option, none, some, [], ◌∷◌,
  Bytes, bytes_eq, ==-cases, GoMap, del, get-put_self, In, In-put, In-get, In-cons_pair, leb, ltb,
  le→ltb, length, arith,
}
use mathlib.Core.List.Memᴰ
use connectopus.Proto.Ip.{Ip, equal}
use connectopus.Proto.Subnet.{contains}
use connectopus.Proto.Subnet.Contains.{IsIpv6, contains-host_only}
use connectopus.Config.Node.{TunDev}
use connectopus.Netopus.Node.{ExternalRouteInfo, Netopus}
use connectopus.Netopus.Names.{
  add_external_route, del_external_route, add_external_name, del_external_name,
}
use connectopus.Netopus.Packets.{Header, Fate, external_route, outgoing_route, via_next_hop, fate}
use connectopus.Instance.Links.{start_tun_dev, stop_tun_dev}

-- Only routes of that name contain the address.
abbrev pub OnlyNamed : Bytes → Ip → GoMap Bytes ExternalRouteInfo → Type 0
OnlyNamed name dest routes =
    (k : Bytes) (r : ExternalRouteInfo) → In (k, r) routes → contains r.dest dest ≡ true → k ≡ name

outgoing_route-only :
    (name : Bytes) (dest : Ip) (routes : GoMap Bytes ExternalRouteInfo) (r : ExternalRouteInfo)
    → OnlyNamed name dest routes
    → In (name, r) routes
    → contains r.dest dest ≡ true
    → outgoing_route dest routes ≡ some name
unfolding outgoing_route
outgoing_route-only name dest [] r only i c = elim i [ ]
outgoing_route-only name dest ((k, s) ∷ routes) r only i c =
    elim (Bool-cases (contains s.dest dest)) [
      | inl here ↦ rw here (ap some (only k s (Memᴰ.head refl) here))
      | inr other ↦ rw other (elim (In-cons_pair name r k s routes i) [
        | inl (_, same) ↦ absurd (let clash = rw same at c in cc)
        | inr later ↦
            outgoing_route-only name dest routes r (λ j w m. only j w (Memᴰ.tail m)) later c
      ])
    ]

outgoing_route-none :
    (name : Bytes) (dest : Ip) (routes : GoMap Bytes ExternalRouteInfo)
    → OnlyNamed name dest routes
    → outgoing_route dest (del name routes) ≡ none
unfolding outgoing_route del
outgoing_route-none name dest [] only = refl
outgoing_route-none name dest ((k, s) ∷ routes) only =
    let rest = outgoing_route-none name dest routes (λ j w m. only j w (Memᴰ.tail m)) in
    elim (==-cases k name) [
      | inl (t, _) ↦ rw t rest
      | inr (t, ne) ↦ elim (Bool-cases (contains s.dest dest)) [
        | inl here ↦ absurd (ne (only k s (Memᴰ.head refl) here))
        | inr other ↦ rw (t, other) rest
      ]
    ]

module _ (header : Header) where
  -- A packet to the address that the node passes on.
  pub record Transit (n : Netopus) (dest : Ip) (packet : Bytes) : Type 0 where
    pub has_header : header.ipv6_minimum_size ≤ length packet
    pub destination : header.destination_address packet ≡ dest
    pub unicast : header.is_multicast dest ≡ false
    pub elsewhere : equal dest n.addr ≡ false
    pub alive : 1 < header.hop_limit packet

  -- The packet as it leaves.
  abbrev pub lowered : Bytes → Bytes
  lowered packet = header.set_hop_limit (header.hop_limit packet - 1) packet

  -- What the node does with it.
  abbrev passed_on : Netopus → Bytes → Ip → Option Bytes → Fate
  passed_on n packet dest (some name) = external_route name (lowered packet)
  passed_on n packet dest none = via_next_hop n dest (lowered packet)

  fate-Transit :
      (n : Netopus) (dest : Ip) (packet : Bytes)
      → Transit n dest packet
      → fate header n packet ≡ passed_on n packet dest (outgoing_route dest n.external_routes)
  unfolding fate
  fate-Transit n dest packet t =
      let long : ltb (length packet) header.ipv6_minimum_size ≡ false = le→ltb _ _ t.has_header in
      let high : leb (header.hop_limit packet) 1 ≡ false = ground (arith, t.alive) in
      rw (long, t.destination, t.unicast, t.elsewhere, high)
        (ap (λ d. passed_on n packet d (outgoing_route d n.external_routes)) t.destination)

  -- While a tunnel device runs, every packet to its address that the node passes on goes out by it;
  -- after its end such a packet goes the way that the router's policy has for it, as it did before,
  -- if no other external route contains the address.
  pub start_tun_dev-fate :
      (name : Bytes) (t : TunDev) (n : Netopus) (packet : Bytes)
      → IsIpv6 t.address
      → OnlyNamed name t.address n.external_routes
      → Transit n t.address packet
      → (let n' = start_tun_dev name t n in
          (fate header n' packet ≡ external_route name (lowered packet))
          × (fate header (stop_tun_dev name n') packet ≡ via_next_hop n t.address (lowered packet)))
  unfolding start_tun_dev stop_tun_dev add_external_route del_external_route add_external_name
      del_external_name via_next_hop
  start_tun_dev-fate name t n packet v6 only transit =
      let n' = start_tun_dev name t n in
      let n'' = stop_tun_dev name n' in
      let dest = t.address in
      let pass : Transit n' dest packet = record {
        has_header = transit.has_header;
        destination = transit.destination;
        unicast = transit.unicast;
        elsewhere = transit.elsewhere;
        alive = transit.alive;
      } in
      let pass' : Transit n'' dest packet = record {
        has_header = transit.has_header;
        destination = transit.destination;
        unicast = transit.unicast;
        elsewhere = transit.elsewhere;
        alive = transit.alive;
      } in
      let whole = (contains-host_only dest dest v6 v6).1 refl in
      let only' : OnlyNamed name dest n'.external_routes = λ k r i c.
        elim (In-put k name r _ n.external_routes i) [
          | inl (same, _) ↦ same
          | inr before ↦ only k r before c
        ] in
      let mine = In-get name _ n'.external_routes (get-put_self name _ n.external_routes) in
      let out = outgoing_route-only name dest n'.external_routes _ only' mine whole in
      let gone = outgoing_route-none name dest n'.external_routes only' in
      (
        fate-Transit n' dest packet pass ∙ ap (passed_on n' packet dest) out,
        fate-Transit n'' dest packet pass' ∙ ap (passed_on n'' packet dest) gone,
      )
