-- ===== src/Instance/Links/Tests.antt =====
-- A tunnel device of the node fd00::1.
use connectopus.Prelude.{◌≡◌, refl, [], ◌∷◌, Bytes, bytes_eq, bytes_beq, not-In-nil, arith}
use connectopus.Proto.Ip.{equal}
use connectopus.Router.Float.{zero_cost}
use connectopus.Router.Samples.{ip, ip-IsIpv6}
use connectopus.Config.Node.{TunDev}
use connectopus.Netopus.Packets.{external_route, via_next_hop, fate}
use connectopus.Netopus.Samples.{informed, byte_header, packet_to}
use connectopus.Instance.Links.{start_tun_dev, stop_tun_dev}
use connectopus.Instance.Links.Delivery.{lowered, start_tun_dev-fate}

abbrev device : TunDev
device = record { device_name = []; address = ip 7; cost = zero_cost }

abbrev name : Bytes
name = 116 ∷ []

start_tun_dev-fate_example :
    let n' = start_tun_dev name device informed in
    (fate byte_header n' (packet_to 7 5)
      ≡ external_route name (lowered byte_header (packet_to 7 5)))
    × (fate byte_header (stop_tun_dev name n') (packet_to 7 5)
        ≡ via_next_hop informed (ip 7) (lowered byte_header (packet_to 7 5)))
unfolding byte_header equal bytes_beq
start_tun_dev-fate_example =
    start_tun_dev-fate byte_header name device informed (packet_to 7 5) (ip-IsIpv6 7 (omega arith))
      (λ k r i c. absurd (not-In-nil (k, r) i))
      (record {
        has_header = omega arith;
        destination = refl;
        unicast = refl;
        elsewhere = refl;
        alive = omega arith;
      })
