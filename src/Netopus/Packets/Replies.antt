-- ===== src/Netopus/Packets/Replies.antt =====
-- SendPacket returns, and what the ICMPv6 errors are that it sends.
use Prim.Native.Nat.{suc}
use connectopus.Prelude.{
  ℕ, ◌+◌, ◌≤◌, ◌≡◌, refl, sym, ◌∙◌, inl, inr, Bool, true, false, some, List, [], ◌∷◌, Bytes,
  bytes_eq, nat_eq, ==-refl, ltb, leb, length, Option-cases, Bool-cases, arith,
}
use connectopus.Proto.Ip.{Ip, equal}
use connectopus.Netopus.Node.{Netopus}
use connectopus.Netopus.Packets.{
  Header, IcmpError, hop_limit_exceeded, network_unreachable, Fate, multicast, local_stack, expired,
  external_route, no_route, no_session, to_session, too_small, outgoing_route, via_next_hop, fate,
  icmp_error, Outcome, send_packet, SendResult, sent_nil, no_route_to_host, malformed, of_callee,
  no_connection,
}

equal_self : (a : Ip) → equal a a ≡ true
unfolding equal
equal_self a = rw (==-refl (length a)) (==-refl a)

-- Whether SendPacket answers with an ICMPv6 error.
abbrev pub answers : Fate → Bool
answers (expired p) = true
answers (no_route p) = true
answers _ = false

-- A packet to the node itself is answered by none.
fate_local :
    (header : Header) (n : Netopus) (packet : Bytes)
    → header.destination_address packet ≡ n.addr
    → answers (fate header n packet) ≡ false
unfolding fate
fate_local header n packet to_self =
    let here : equal (header.destination_address packet) n.addr ≡ true =
      rw to_self (equal_self n.addr) in
    elim (Bool-cases (ltb (length packet) header.ipv6_minimum_size)) [
      | inl t ↦ rw t refl
      | inr whole ↦ elim (Bool-cases (header.is_multicast (header.destination_address packet))) [
        | inl t ↦ rw (whole, t) refl
        | inr single ↦ rw (whole, single, here) refl
      ]
    ]

-- The quoted packet, where there is one, comes from the address.
abbrev QuotesFrom : Header → Ip → Fate → Type 0
QuotesFrom header a (expired p) = header.source_address p ≡ a
QuotesFrom header a (no_route p) = header.source_address p ≡ a
QuotesFrom header a _ = Unit

via_next_hop-QuotesFrom :
    (header : Header) (n : Netopus) (dest a : Ip) (p : Bytes)
    → header.source_address p ≡ a
    → QuotesFrom header a (via_next_hop n dest p)
unfolding via_next_hop
via_next_hop-QuotesFrom header n dest a p from = ground arith

-- An error quotes the packet or the packet with its hop limit lowered.
fate-QuotesFrom :
    (header : Header) (n : Netopus) (packet : Bytes)
    → QuotesFrom header (header.source_address packet) (fate header n packet)
unfolding fate
fate-QuotesFrom header n packet =
    let dest = header.destination_address packet in
    elim (Bool-cases (ltb (length packet) header.ipv6_minimum_size)) [
      | inl t ↦ rw t tt
      | inr whole ↦ elim (Bool-cases (header.is_multicast dest)) [
        | inl t ↦ rw (whole, t) tt
        | inr single ↦ elim (Bool-cases (equal dest n.addr)) [
          | inl t ↦ rw (whole, single, t) tt
          | inr other ↦ elim (Bool-cases (leb (header.hop_limit packet) 1)) [
            | inl t ↦ rw (whole, single, other, t) refl
            | inr more ↦ elim (Option-cases (outgoing_route dest n.external_routes)) [
              | inr (name, t) ↦ rw (whole, single, other, more, t) tt
              | inl inside ↦
                  rw (whole, single, other, more, inside)
                    (via_next_hop-QuotesFrom header n dest (header.source_address packet) _
                      (header.source-set _ packet))
            ]
          ]
        ]
      ]
    ]

-- With the fuel, or more, SendPacket returns, and it hands on one packet at most.
abbrev Returns : Header → ℕ → Netopus → Bytes → Type 0
Returns header fuel n packet =
    (o : Outcome) × ((k : ℕ) → send_packet header (k + fuel) n packet ≡ some o)
    × (length o.handed ≤ 1)

abbrev outcome : Netopus → List Fate → SendResult → Outcome
outcome n handed result = record { node = n; handed = handed; result = result }

add_suc : (k n : ℕ) → k + suc n ≡ suc (k + n)
add_suc k n = omega arith

-- A packet that is answered returns if its errors do, with one unit of fuel less.
Returns-of :
    (header : Header) (fuel : ℕ) (n : Netopus) (packet : Bytes) (f : Fate)
    → fate header n packet ≡ f
    → ((m : Netopus) (q : Bytes) (e : IcmpError)
        → m.addr ≡ n.addr
        → answers f ≡ true
        → QuotesFrom header (header.source_address packet) f
        → header.source_address q ≡ header.source_address packet
        → Returns header fuel m (icmp_error header m q e))
    → QuotesFrom header (header.source_address packet) f
    → Returns header (suc fuel) n packet
unfolding send_packet
Returns-of header fuel n packet too_small e reply q =
    (outcome n [] malformed, λ k. rw (add_suc k fuel, e, send_packet) refl, omega arith)
Returns-of header fuel n packet multicast e reply q =
    (outcome n [] sent_nil, λ k. rw (add_suc k fuel, e, send_packet) refl, omega arith)
Returns-of header fuel n packet (local_stack p) e reply q = (
  outcome n (local_stack p ∷ []) of_callee,
  λ k. rw (add_suc k fuel, e, send_packet) refl,
  omega arith,
)
Returns-of header fuel n packet (external_route r p) e reply q = (
  outcome n (external_route r p ∷ []) of_callee,
  λ k. rw (add_suc k fuel, e, send_packet) refl,
  omega arith,
)
Returns-of header fuel n packet (no_session hop) e reply q =
    (outcome n [] no_connection, λ k. rw (add_suc k fuel, e, send_packet) refl, omega arith)
Returns-of header fuel n packet (to_session hop p) e reply q = (
  outcome n (to_session hop p ∷ []) sent_nil,
  λ k. rw (add_suc k fuel, e, send_packet) refl,
  omega arith,
)
Returns-of header fuel n packet (expired p) e reply q =
    let (o, run, one) = reply n p hop_limit_exceeded refl refl q q in
    (record o { result = sent_nil }, λ k. rw (add_suc k fuel, e, run k, send_packet) refl, one)
Returns-of header fuel n packet (no_route p) e reply q =
    let asked = record n { update_requests = suc n.update_requests } in
    let (o, run, one) = reply asked p network_unreachable refl refl q q in
    (
      record o { result = no_route_to_host },
      λ k. rw (add_suc k fuel, e, run k, send_packet) refl,
      one,
    )

Returns-unanswered :
    (header : Header) (n : Netopus) (packet : Bytes)
    → answers (fate header n packet) ≡ false
    → Returns header 1 n packet
Returns-unanswered header n packet silent =
    Returns-of header 0 n packet (fate header n packet) refl
      (λ m q e _ t _ _. absurd (let clash : true ≡ false = sym t ∙ silent in cc))
      (fate-QuotesFrom header n packet)

-- A packet from the node itself is answered by an error that stays in the node.
Returns-own :
    (header : Header) (n : Netopus) (packet : Bytes)
    → length n.addr ≡ 16
    → header.source_address packet ≡ n.addr
    → Returns header 2 n packet
unfolding icmp_error
Returns-own header n packet len own =
    Returns-of header 1 n packet (fate header n packet) refl
      (λ m q e same _ _ from. Returns-unanswered header m (icmp_error header m q e) (
        fate_local header m (icmp_error header m q e) (
          header.destination-icmp _ e _ (rw same len) (header.length-source q)
          ∙ from
          ∙ own
          ∙ sym same)))
      (fate-QuotesFrom header n packet)

-- At a node with a 16-byte address SendPacket returns for every packet, although its errors are sent by SendPacket again: an error
-- answers the packet, at most one error answers that error, and there is none after that. At most
-- one packet is handed on.
pub send_packet_returns :
    (header : Header) (n : Netopus) (packet : Bytes)
    → length n.addr ≡ 16
    → (o : Outcome) × ((more : ℕ) → send_packet header (more + 3) n packet ≡ some o)
      × (length o.handed ≤ 1)
unfolding icmp_error
send_packet_returns header n packet len =
    Returns-of header 2 n packet (fate header n packet) refl
      (λ m q e same _ _ from.
        Returns-own header m (icmp_error header m q e) (rw same len)
          (header.source-icmp _ e _ (rw same len) (header.length-source q)))
      (fate-QuotesFrom header n packet)
