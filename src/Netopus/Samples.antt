-- ===== src/Netopus/Samples.antt =====
-- A node, updates, and an IPv6 header by its byte offsets: the data of the tests.
use connectopus.Prelude.{
  ℕ, ◌/◌, ◌%◌, ◌≤◌, ◌<◌, ◌≡◌, refl, ap, ◌∙◌, true, false, [], ◌∷◌, ◌++◌, Bytes, length, drop,
  drop-append, get_or, arith,
}
use connectopus.Proto.Ip.{Ip}
use connectopus.Proto.Message.{OobMessage}
use connectopus.Proto.Message.Layout.{field, length-field}
use connectopus.Proto.Subnet.{new_host_only_subnet}
use connectopus.Router.Float.{one_cost}
use connectopus.Router.Samples.{ip, conns_to, two_nodes}
use connectopus.Netopus.Node.{Netopus, NodeInfo, connected, RoutingUpdate}
use connectopus.Netopus.Packets.{Header, Ipv6Fields, IcmpError}

abbrev pub same_text : Ip → Bytes
same_text a = a

-- The node fd00::n with a connected session to fd00::m.
abbrev pub node_of : ℕ → ℕ → Netopus
node_of n m = record {
  addr = ip n;
  name = n ∷ [];
  router = record { my_addr = ip n; nodes = two_nodes; policy = []; requested = 0; published = [] };
  session_info =
      (
        ip m,
        record {
          cost = one_cost;
          remote_addr = ip m;
          connection_state = connected;
          has_route_conn = true;
        },
      )
      ∷ [];
  epoch = 1;
  sequence = 4;
  known_node_info = [];
  external_routes = [];
  external_names = [];
  config_info = record { config_version = 1; config_data = 1 ∷ []; config_signature = 2 ∷ [] };
  has_config_func = true;
  oob_ports = [];
  update_requests = 0;
}

-- The same node with a route to the other one.
abbrev pub routed : ℕ → ℕ → Netopus
routed n m = record (node_of n m) {
  router = record {
    my_addr = ip n;
    nodes = two_nodes;
    policy = (new_host_only_subnet (ip m), ip m) ∷ [];
    requested = 0;
    published = [];
  };
}

abbrev pub known_two : NodeInfo
known_two = record { name = 2 ∷ []; epoch = 1; sequence = 3; config_version = 0; last_update = 0 }

-- fd00::1 with what it knows of fd00::2
abbrev pub informed : Netopus
informed = record (node_of 1 2) { known_node_info = (ip 2, known_two) ∷ [] }

-- An update from fd00::2.
abbrev pub update_two : ℕ → RoutingUpdate
update_two s = record {
  origin = ip 2;
  node_name = 2 ∷ [];
  update_epoch = 1;
  update_sequence = s;
  connections = conns_to 1;
  names = [];
  config_version = 0;
  config_data = [];
  config_signature = [];
}

abbrev set_seventh : ℕ → Bytes → Bytes
set_seventh l (a ∷ b ∷ c ∷ d ∷ e ∷ f ∷ g ∷ h ∷ p) = a ∷ b ∷ c ∷ d ∷ e ∷ f ∷ g ∷ l ∷ p
set_seventh l p = p

pub set_seventh-get :
    (l : ℕ) (p : Bytes) → 40 ≤ length p → l < 256 → get_or (set_seventh l p) 7 0 % 256 ≡ l
set_seventh-get l (a ∷ b ∷ c ∷ d ∷ e ∷ f ∷ g ∷ h ∷ p) long small = omega (arith, small)
set_seventh-get l [] long small = absurd (omega (arith, long))
set_seventh-get l (a ∷ []) long small = absurd (omega (arith, long))
set_seventh-get l (a ∷ b ∷ []) long small = absurd (omega (arith, long))
set_seventh-get l (a ∷ b ∷ c ∷ []) long small = absurd (omega (arith, long))
set_seventh-get l (a ∷ b ∷ c ∷ d ∷ []) long small = absurd (omega (arith, long))
set_seventh-get l (a ∷ b ∷ c ∷ d ∷ e ∷ []) long small = absurd (omega (arith, long))
set_seventh-get l (a ∷ b ∷ c ∷ d ∷ e ∷ f ∷ []) long small = absurd (omega (arith, long))
set_seventh-get l (a ∷ b ∷ c ∷ d ∷ e ∷ f ∷ g ∷ []) long small = absurd (omega (arith, long))

pub set_seventh-drop :
    (l : ℕ) (p : Bytes)
    → (drop 8 (set_seventh l p) ≡ drop 8 p) × (drop 24 (set_seventh l p) ≡ drop 24 p)
set_seventh-drop l (a ∷ b ∷ c ∷ d ∷ e ∷ f ∷ g ∷ h ∷ p) = (refl, refl)
set_seventh-drop l [] = (refl, refl)
set_seventh-drop l (a ∷ []) = (refl, refl)
set_seventh-drop l (a ∷ b ∷ []) = (refl, refl)
set_seventh-drop l (a ∷ b ∷ c ∷ []) = (refl, refl)
set_seventh-drop l (a ∷ b ∷ c ∷ d ∷ []) = (refl, refl)
set_seventh-drop l (a ∷ b ∷ c ∷ d ∷ e ∷ []) = (refl, refl)
set_seventh-drop l (a ∷ b ∷ c ∷ d ∷ e ∷ f ∷ []) = (refl, refl)
set_seventh-drop l (a ∷ b ∷ c ∷ d ∷ e ∷ f ∷ g ∷ []) = (refl, refl)

field-append : (a r : Bytes) → field (length a) (a ++ r) ≡ a
field-append [] r = refl
field-append (x ∷ a) r = ap (λ t. x ∷ t) (field-append a r)

abbrev error_packet : Ipv6Fields → IcmpError → Bytes → Bytes
error_packet f e b =
    96
    ∷ 0
    ∷ 0
    ∷ 0
    ∷ (f.payload_length / 256)
    ∷ (f.payload_length % 256)
    ∷ 58
    ∷ f.hop_limit
    ∷ (f.src_addr ++ (f.dst_addr ++ b))

pub field_16 : (a r : Bytes) → length a ≡ 16 → field 16 (a ++ r) ≡ a
field_16 a r h = rw (← h) (field-append a r)

pub drop_16 : (a r : Bytes) → length a ≡ 16 → drop 16 (a ++ r) ≡ r
drop_16 a r h = rw (← h) (drop-append a r)

unfoldable pub byte_header : Header
byte_header = record {
  ipv6_minimum_size = 40;
  icmpv6_minimum_size = 8;
  destination_address = λ p. field 16 (drop 24 p);
  source_address = λ p. field 16 (drop 8 p);
  hop_limit = λ p. get_or p 7 0 % 256;
  set_hop_limit = set_seventh;
  is_multicast = λ a. false;
  icmp_packet = error_packet;
  hop_limit-set = set_seventh-get;
  hop_limit_lt = λ p. omega arith;
  destination-set = λ l p. ap (field 16) ((set_seventh-drop l p).1);
  source-set = λ l p. ap (field 16) ((set_seventh-drop l p).0);
  length-source = λ p. length-field 16 (drop 8 p);
  destination-icmp =
      λ f e b s d. ap (field 16) (drop_16 f.src_addr (f.dst_addr ++ b) s) ∙ field_16 f.dst_addr b d;
  source-icmp = λ f e b s d. field_16 f.src_addr (f.dst_addr ++ b) s;
}

-- A packet from fd00::1 to fd00::d with the hop limit `l`.
abbrev pub packet_to : ℕ → ℕ → Bytes
packet_to d l = 96 ∷ 0 ∷ 0 ∷ 0 ∷ 0 ∷ 0 ∷ 59 ∷ l ∷ (ip 1 ++ ip d)

abbrev pub greeting : OobMessage
greeting = record {
  hops = 3;
  source_addr = ip 1;
  source_port = 7;
  dest_addr = ip 2;
  dest_port = 300;
  payload = 1 ∷ 2 ∷ [];
}
