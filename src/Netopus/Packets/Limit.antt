-- ===== src/Netopus/Packets/Limit.antt =====
-- SendPacket's hop limit: it bounds the nodes that a packet can pass.
use connectopus.Prelude.{
  ◌-◌, ◌≤◌, ◌<◌, ◌≡◌, refl, ◌⊎◌, inl, inr, false, none, some, List, [], ◌∷◌, Bytes, bytes_eq, ltb,
  leb, ltb→le, get, length, Option-cases, Bool-cases, arith,
}
use connectopus.Proto.Ip.{Ip, equal}
use connectopus.Router.NextHop.{next_hop}
use connectopus.Netopus.Node.{Session, Netopus}
use connectopus.Netopus.Packets.{Header, to_session, outgoing_route, via_next_hop, fate}

-- Why a packet is written to a session.
pub record IsForwarded (header : Header) (n : Netopus) (packet : Bytes) (hop : Ip) (copy : Bytes)
    : Type 0 where
  pub whole : header.ipv6_minimum_size ≤ length packet
  pub not_local : equal (header.destination_address packet) n.addr ≡ false
  pub not_external : outgoing_route (header.destination_address packet) n.external_routes ≡ none
  pub limit : 1 < header.hop_limit packet
  pub routed : next_hop n.router.policy (header.destination_address packet) ≡ some hop
  pub session : (s : Session) × (get hop n.session_info ≡ some s)
  pub is_copy : copy ≡ header.set_hop_limit (header.hop_limit packet - 1) packet

via_next_hop-session :
    (n : Netopus) (dest : Ip) (p : Bytes) (hop : Ip) (copy : Bytes)
    → via_next_hop n dest p ≡ to_session hop copy
    → (next_hop n.router.policy dest ≡ some hop)
      × ((s : Session) × (get hop n.session_info ≡ some s))
      × (copy ≡ p)
unfolding via_next_hop
via_next_hop-session n dest p hop copy h = elim (Option-cases (next_hop n.router.policy dest)) [
  | inl none_ ↦ absurd (let clash = rw (none_, via_next_hop) at h in cc)
  | inr (via, routed) ↦ elim (Option-cases (get via n.session_info)) [
    | inl gone ↦ absurd (let clash = rw (routed, gone, via_next_hop) at h in cc)
    | inr (s, there) ↦
        let found = rw (routed, there, via_next_hop) at h in
        let same : via ≡ hop = cc in (rw (← same) routed, (s, rw (← same) there), cc)
  ]
]

-- A packet is written to a session only if it has an IPv6 header, is not for this node or for an
-- external route, and has a hop limit of at least two. The session is the one of NextHop, and what
-- is written is the packet with a hop limit that is lower by one.
pub fate-to_session :
    (header : Header) (n : Netopus) (packet : Bytes) (hop : Ip) (copy : Bytes)
    → fate header n packet ≡ to_session hop copy
    → IsForwarded header n packet hop copy
unfolding fate
fate-to_session header n packet hop copy h =
    let dest = header.destination_address packet in
    elim (Bool-cases (ltb (length packet) header.ipv6_minimum_size)) [
      | inl t ↦ absurd (let clash = rw t at h in cc)
      | inr whole ↦ elim (Bool-cases (header.is_multicast dest)) [
        | inl t ↦ absurd (let clash = rw (whole, t) at h in cc)
        | inr single ↦ elim (Bool-cases (equal dest n.addr)) [
          | inl t ↦ absurd (let clash = rw (whole, single, t) at h in cc)
          | inr other ↦ elim (Bool-cases (leb (header.hop_limit packet) 1)) [
            | inl t ↦ absurd (let clash = rw (whole, single, other, t) at h in cc)
            | inr more ↦ elim (Option-cases (outgoing_route dest n.external_routes)) [
              | inr (name, t) ↦ absurd (let clash = rw (whole, single, other, more, t) at h in cc)
              | inl inside ↦
                  let (routed, session, is_copy) =
                    via_next_hop-session n dest
                      (header.set_hop_limit (header.hop_limit packet - 1) packet) hop copy
                      (rw (whole, single, other, more, inside) at h) in
                  record {
                    whole = ltb→le _ _ whole;
                    not_local = other;
                    not_external = inside;
                    limit = ground arith;
                    routed = routed;
                    session = session;
                    is_copy = is_copy;
                  }
            ]
          ]
        ]
      ]
    ]

-- A packet goes from node to node: each writes it to a session, and the next one sends what was
-- written. A session is not asked which node is at its other end.
pub data Trip (header : Header) : List Netopus → Bytes → Type 0 where
  arrived : {packet : Bytes} → Trip header [] packet
  passes :
      {n : Netopus} {later : List Netopus} {packet copy : Bytes} {hop : Ip}
      → fate header n packet ≡ to_session hop copy
      → Trip header later copy
      → Trip header (n ∷ later) packet

Trip-short :
    (header : Header) (nodes : List Netopus) (packet : Bytes)
    → Trip header nodes packet
    → (length nodes ≡ 0) ⊎ (length nodes < header.hop_limit packet)
Trip-short header _ packet arrived = inl refl
Trip-short header _ _ (passes {n} {later} {packet} {copy} {hop} e rest) =
    let f = fate-to_session header n packet hop copy e in
    let limit : 1 < header.hop_limit packet = f.limit in
    let lower : header.hop_limit copy ≡ header.hop_limit packet - 1 = rw f.is_copy (
      header.hop_limit-set (header.hop_limit packet - 1) packet f.whole
        (omega (arith, header.hop_limit_lt packet))) in
    inr (elim (Trip-short header later copy rest) [
      | inl none_ ↦ omega (arith, none_, limit)
      | inr less ↦ omega (arith, less, lower, limit)
    ])

-- However the nodes are configured, a packet passes fewer nodes than its hop limit, if it passes
-- any, and so 254 at most.
pub Trip-lt_hop_limit :
    (header : Header) (n : Netopus) (nodes : List Netopus) (packet : Bytes)
    → Trip header (n ∷ nodes) packet
    → (length (n ∷ nodes) < header.hop_limit packet) × (length (n ∷ nodes) ≤ 254)
Trip-lt_hop_limit header n nodes packet t = elim (Trip-short header (n ∷ nodes) packet t) [
  | inl none_ ↦ absurd (omega (arith, none_))
  | inr less ↦ (less, omega (arith, less, header.hop_limit_lt packet))
]
