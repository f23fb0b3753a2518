-- ===== src/Netopus/Tests.antt =====
-- The node's theorems at two nodes.
use connectopus.Prelude.{
  ℕ, ap, Option, ◌+◌, ◌≤◌, ◌<◌, ◌≡◌, ◌≢◌, refl, List, ◌⊎◌, ◌↔◌, true, false, none, some, [], ◌∷◌,
  bytes_eq, get, In, not-In-nil, bytes_beq, update, put, nat_eq, GoMap, length, arith,
}
use connectopus.Proto.Ip.{Ip, equal, to4, is_v4_in_v6, is_zeros}
use connectopus.Proto.Subnet.{
  contains, subnet_ip, subnet_mask, network_number_and_mask, and_bytes, has_subnet_length,
  new_host_only_subnet, cidr_mask, mask_bytes, subnet_prefix, mask_prefix, leading_ones,
}
use connectopus.Router.NextHop.{next_hop, longest_match, is_longer}
use connectopus.Proto.Message.{marshal_oob, init_msg}
use connectopus.Proto.Message.RoundTrip.{Fits, unmarshal-marshal}
use connectopus.Router.Samples.{ip}
use connectopus.Netopus.Node.{RoutingUpdate, NodeInfo, Session, ExternalNameInfo, minute}
use connectopus.Netopus.Updates.{
  is_connected, flood_targets, handle_routing_update, is_outdated, is_duplicate, monitor_dead_nodes,
  prune_known,
}
use connectopus.Netopus.Updates.Freshness.{IsNews, forward_iff_IsNews}
use connectopus.Netopus.Updates.Once.{Event, heard, round, run, Alive, forwarded_once}
use connectopus.Netopus.Updates.Flood.{flooded_iff}
use connectopus.Netopus.Updates.Liveness.{monitor_dead_nodes-get}
use connectopus.Netopus.Packets.{
  fate, via_next_hop, outgoing_route, oob_hop, to_session, send_packet, Outcome, send_oob,
  oob_to_session, one_hop_more,
}
use connectopus.Netopus.Packets.Limit.{arrived, passes, Trip-lt_hop_limit}
use connectopus.Netopus.Packets.Replies.{send_packet_returns}
use connectopus.Netopus.Packets.Oob.{oob_arrived, oob_passes, OobTrip-le_thirty}
use connectopus.Netopus.Names.{lookup_name, find_node}
use connectopus.Router.Float.{one_cost}
use connectopus.Netopus.Ports.{OobAddr, PacketConn, read_ok, read_from, write_to, local_addr}
use connectopus.Netopus.Ports.Registry.{read_from-write_to}
use connectopus.Netopus.Sessions.{
  Links, message, new_link, run_protocol, proto_turn, select_run, init_select, init_input,
  begin_init, accept_init, close_old,
}
use connectopus.Netopus.Sessions.Steps.{start, then_, began, turn, live_session_unique}
use connectopus.Netopus.Samples.{
  same_text, routed, informed, update_two, byte_header, packet_to, greeting,
}

forward_iff_IsNews_example :
    let h = handle_routing_update same_text 9 (update_two 4) informed in
    ((h.forward ≡ true)
      ↔ (ip 2 ≢ ip 1) × IsNews (update_two 4) (get (ip 2) informed.known_node_info))
    × (h.forward ≡ false → h.node ≡ informed)
    × (h.forward ≡ true
        → get (ip 2) h.node.known_node_info
          ≡ some (record {
            name = 2 ∷ [];
            epoch = 1;
            sequence = 4;
            config_version = 0;
            last_update = 9;
          }))
    × ((other : Ip)
        → other ≢ ip 2
        → get other h.node.known_node_info ≡ get other informed.known_node_info)
forward_iff_IsNews_example = forward_iff_IsNews same_text 9 (update_two 4) informed

abbrev quiet : List Event
quiet = heard 10 (update_two 6) ∷ round 11 ∷ []

forwarded_once_example :
    let after = (handle_routing_update same_text 9 (update_two 5) informed).node in
    ((old : RoutingUpdate)
      → Alive same_text (ip 2) quiet after
      → old.origin ≡ ip 2
      → (old.update_epoch < 1) ⊎ (old.update_epoch ≡ 1) × (old.update_sequence ≤ 5)
      → (handle_routing_update same_text 20 old (run same_text quiet after)).forward ≡ false)
    × (get (ip 2) (run same_text quiet after).known_node_info ≡ none
        → (handle_routing_update same_text 20 (update_two 5) (run same_text quiet after)).forward
          ≡ true)
unfolding handle_routing_update is_outdated is_duplicate get bytes_beq
forwarded_once_example = forwarded_once same_text 9 (update_two 5) informed quiet 20 refl

-- In those events fd00::2 is heard of in time.
quiet-Alive :
    Alive same_text (ip 2) quiet (handle_routing_update same_text 9 (update_two 5) informed).node
unfolding handle_routing_update is_outdated is_duplicate get put bytes_beq
quiet-Alive = (λ ni e. let same : 10 ≡ ni.last_update = ap last_of e in omega (arith, same), tt)
  where
    last_of : Option NodeInfo → ℕ
    last_of none = 0
    last_of (some i) = i.last_update

-- After a minute and more of silence it is forgotten, and its update is forwarded again.
forwarded_again :
    (handle_routing_update same_text 20 (update_two 5) (
      run same_text
        (round (minute + 10) ∷ [])
        (handle_routing_update same_text 9 (update_two 5) informed).node)).forward
    ≡ true
unfolding handle_routing_update is_outdated is_duplicate get bytes_beq run put monitor_dead_nodes
    prune_known
forwarded_again = refl

monitor_dead_nodes-get_example :
    let n' = monitor_dead_nodes (minute + 1) informed in
    ((i : NodeInfo)
      → (get (ip 2) n'.known_node_info ≡ some i)
        ↔ (get (ip 2) informed.known_node_info ≡ some i) × (minute + 1 ≤ i.last_update + minute))
    × ((i : NodeInfo)
        → get (ip 2) informed.known_node_info ≡ some i
        → i.last_update + minute < minute + 1
        → get (ip 2) n'.router.nodes ≡ none)
    × (((i : NodeInfo)
          → get (ip 2) informed.known_node_info ≡ some i
          → minute + 1 ≤ i.last_update + minute)
        → get (ip 2) n'.router.nodes ≡ get (ip 2) informed.router.nodes)
monitor_dead_nodes-get_example =
    monitor_dead_nodes-get (minute + 1) informed (ip 2) (not-In-nil (ip 2), tt)

flooded_iff_example : In (ip 2) (flood_targets (some (ip 3)) informed.session_info) ↔ (
    (sess : Session) × In (ip 2, sess) informed.session_info
    × (ip 2 ≢ ip 3)
    × (is_connected sess.connection_state ≡ true)
    × (sess.has_route_conn ≡ true))
flooded_iff_example = flooded_iff (ip 3) (ip 2) informed.session_info

abbrev own_name : ExternalNameInfo
own_name = record { ip = ip 9; from_node = [] }

use_route : fate byte_header (routed 1 2) (packet_to 2 5) ≡ to_session (ip 2) (packet_to 2 4)
unfolding byte_header fate via_next_hop outgoing_route next_hop longest_match is_longer contains
    equal subnet_ip subnet_mask network_number_and_mask to4 is_v4_in_v6 is_zeros and_bytes
    has_subnet_length new_host_only_subnet cidr_mask mask_bytes bytes_beq get subnet_prefix
    mask_prefix leading_ones
use_route = refl

Trip-lt_hop_limit_example : (1 < 5) × (1 ≤ 254)
unfolding byte_header
Trip-lt_hop_limit_example =
    Trip-lt_hop_limit byte_header (routed 1 2) [] (packet_to 2 5) (passes use_route arrived)

oob_route :
    send_oob (routed 1 2) greeting ≡ oob_to_session (ip 2) (marshal_oob (one_hop_more greeting))
unfolding send_oob oob_hop next_hop longest_match is_longer contains equal subnet_ip subnet_mask
    network_number_and_mask to4 is_v4_in_v6 is_zeros and_bytes has_subnet_length
    new_host_only_subnet cidr_mask mask_bytes bytes_beq get subnet_prefix mask_prefix leading_ones
oob_route = refl

greeting-Fits : Fits greeting
greeting-Fits = record { hops = omega arith; source_port = omega arith; dest_port = omega arith }

OobTrip-le_thirty_example : (1 ≤ 30) × ((greeting.hops ≡ 255) ⊎ (4 ≤ 29))
OobTrip-le_thirty_example = OobTrip-le_thirty (routed 1 2) [] greeting greeting-Fits (
    oob_passes oob_route
      (unmarshal-marshal (one_hop_more greeting)
        (record { hops = omega arith; source_port = omega arith; dest_port = omega arith })).0
      oob_arrived)

send_packet_returns_example :
    (o : Outcome) × ((more : ℕ)
      → send_packet byte_header (more + 3) informed (packet_to 9 1) ≡ some o)
    × (length o.handed ≤ 1)
send_packet_returns_example = send_packet_returns byte_header informed (packet_to 9 1) refl

found_two : lookup_name (2 ∷ []) informed ≡ ip 2
unfolding lookup_name find_node bytes_beq
found_two = refl

abbrev first_session : ℕ
first_session = 1

abbrev third_session : ℕ
third_session = 3

abbrev no_sessions : Links
no_sessions = record {
  link = λ p. record (new_link one_cost false) { live = false };
  session_info = [];
  update_requests = 0;
}

-- A session is begun and reads an init message from fd00::2.
abbrev greeted : Links
greeted =
    (proto_turn 5 true true 1 (message (init_msg (ip 2)))
      (run_protocol one_cost false 1 no_sessions)).links

live_session_unique_example :
    (get (ip 2) greeted.session_info ≡ some 1)
    × ((greeted.link 3).live ≡ true
        → (greeted.link 3).remote_addr ≡ some (ip 2)
        → third_session ≡ first_session)
unfolding proto_turn select_run init_select init_input begin_init accept_init close_old run_protocol
    update get put bytes_beq
live_session_unique_example =
    live_session_unique greeted 1 3 (ip 2)
      (then_ (then_ (start {w = no_sessions} (λ p. refl)) (began one_cost false 1))
        (turn 5 true true 1 (message (init_msg (ip 2)))))
      refl refl

-- Port 32772 is taken, so 0 draws 32773.
abbrev taken : GoMap ℕ ℕ
taken = (32772, 3) ∷ []

abbrev drawn : ℕ
drawn = 32773

abbrev zero_port : ℕ
zero_port = 0

abbrev one_conn : PacketConn
one_conn = record { source_addr = ip 1; source_port = 7 }

abbrev to_two : OobAddr
to_two = record { host = ip 2; port = 9 }

written-Fits : Fits (write_to one_conn (1 ∷ []) to_two)
unfolding write_to
written-Fits = record { hops = omega arith; source_port = omega arith; dest_port = omega arith }

read_from-write_to_example :
    read_from 4 (write_to one_conn (1 ∷ []) to_two) ≡ read_ok 1 (1 ∷ []) (local_addr one_conn)
unfolding write_to
read_from-write_to_example =
    read_from-write_to one_conn (1 ∷ []) to_two 4 (write_to one_conn (1 ∷ []) to_two) written-Fits
      refl ((unmarshal-marshal (write_to one_conn (1 ∷ []) to_two) written-Fits).0) (omega arith)
