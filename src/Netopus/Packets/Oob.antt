-- ===== src/Netopus/Packets/Oob.antt =====
-- The hop count of out-of-band messages bounds the nodes that a message can pass.
use connectopus.Prelude.{
  ◌+◌, ◌%◌, ◌≤◌, ◌<◌, ◌≡◌, refl, sym, ◌∙◌, ap, ◌⊎◌, inl, inr, List, [], ◌∷◌, Bytes, bytes_eq,
  nat_eq, leb, get, length, Option-cases, Bool-cases, arith,
}
use connectopus.Proto.Ip.{Ip, equal}
use connectopus.Proto.Message.{OobMessage, ok, marshal_oob, unmarshal_oob}
use connectopus.Proto.Message.RoundTrip.{Fits, received, unmarshal-marshal}
use connectopus.Netopus.Node.{Netopus}
use connectopus.Netopus.Packets.{oob_to_session, oob_hop, one_hop_more, has_port, send_oob}

-- What SendOOB writes is the message with one hop more, of which there are fewer than 30.
send_oob-to_session :
    (n : Netopus) (m : OobMessage) (hop : Ip) (b : Bytes)
    → send_oob n m ≡ oob_to_session hop b
    → ((m.hops + 1) % 256 < 30) × (b ≡ marshal_oob (one_hop_more m))
unfolding send_oob
send_oob-to_session n m hop b h = elim (Bool-cases (equal m.dest_addr n.addr)) [
  | inl t ↦ elim (Bool-cases (has_port m.dest_port n.oob_ports)) [
    | inl p ↦ absurd (let clash = rw (t, p, send_oob) at h in cc)
    | inr p ↦ absurd (let clash = rw (t, p, send_oob) at h in cc)
  ]
  | inr other ↦ elim (Bool-cases (leb 30 ((m.hops + 1) % 256))) [
    | inl t ↦ absurd (let clash = rw (other, t, send_oob) at h in cc)
    | inr less ↦ elim (Option-cases (get (oob_hop n m.dest_addr) n.session_info)) [
      | inl t ↦ absurd (let clash = rw (other, less, t, send_oob) at h in cc)
      | inr (s, t) ↦ let found = rw (other, less, t, send_oob) at h in (ground arith, cc)
    ]
  ]
]

-- A message goes from node to node: each writes bytes to a session, and the next one sends what it
-- unmarshals from them.
pub data OobTrip : List Netopus → OobMessage → Type 0 where
  oob_arrived : {m : OobMessage} → OobTrip [] m
  oob_passes :
      {n : Netopus} {later : List Netopus} {m next : OobMessage} {hop : Ip} {b : Bytes}
      → send_oob n m ≡ oob_to_session hop b
      → unmarshal_oob b ≡ ok next
      → OobTrip later next
      → OobTrip (n ∷ later) m

-- What the next node reads.
next_message :
    (n : Netopus) (m next : OobMessage) (hop : Ip) (b : Bytes)
    → Fits m
    → send_oob n m ≡ oob_to_session hop b
    → unmarshal_oob b ≡ ok next
    → next ≡ received (one_hop_more m)
next_message n m next hop b fits e read =
    let (_, wrote) = send_oob-to_session n m hop b e in
    let fits' : Fits (one_hop_more m) = record {
      hops = omega arith;
      source_port = fits.source_port;
      dest_port = fits.dest_port;
    } in
    let (again, _) = unmarshal-marshal (one_hop_more m) fits' in
    let same : ok (received (one_hop_more m)) ≡ ok next =
      sym again ∙ ap unmarshal_oob (sym wrote) ∙ read in
    cc

OobTrip-short :
    (nodes : List Netopus) (m : OobMessage)
    → Fits m
    → OobTrip nodes m
    → (length nodes ≡ 0) ⊎ (length nodes + (m.hops + 1) % 256 ≤ 30)
OobTrip-short _ m fits oob_arrived = inl refl
OobTrip-short _ _ fits (oob_passes {n} {later} {m} {next} {hop} {b} e read rest) =
    let (less, _) = send_oob-to_session n m hop b e in
    let is_next = next_message n m next hop b fits e read in
    let hops : next.hops ≡ (m.hops + 1) % 256 = rw is_next refl in
    let fits' : Fits next =
      rw is_next (record {
        hops = omega arith;
        source_port = fits.source_port;
        dest_port = fits.dest_port;
      }) in
    inr (elim (OobTrip-short later next fits' rest) [
      | inl none_ ↦ omega (arith, none_, less)
      | inr short ↦ omega (arith, short, hops, less)
    ])

-- However the nodes are configured, 30 of them at most pass a message on. Those and the hops that it
-- starts with are 29 at most together, unless it starts with 255, which wraps around.
pub OobTrip-le_thirty :
    (n : Netopus) (nodes : List Netopus) (m : OobMessage)
    → Fits m
    → OobTrip (n ∷ nodes) m
    → (length (n ∷ nodes) ≤ 30) × ((m.hops ≡ 255) ⊎ (length (n ∷ nodes) + m.hops ≤ 29))
OobTrip-le_thirty n nodes m fits t = elim (OobTrip-short (n ∷ nodes) m fits t) [
  | inl none_ ↦ absurd (omega (arith, none_))
  | inr short ↦ ground (arith, short, fits.hops)
]
