-- ===== src/Netopus/Ports.antt =====
-- pkg/netopus/oob_conn.go: the ports of out-of-band packet connections, and their datagrams. A
-- connection is known by its pointer. The random numbers that a port is drawn from are an argument.
pub mod Registry
use connectopus.Prelude.{
  ℕ, ◌+◌, ◌%◌, Bool, true, false, Option, none, some, List, [], ◌∷◌, Bytes, nat_eq, ◌==◌, ltb,
  if◌then◌else◌, GoMap, get, put, del, length,
}
use connectopus.Proto.Ip.{Ip}
use connectopus.Proto.Message.{OobMessage}

-- proto.OOBAddr
pub record OobAddr : Type 0 where
  pub host : Ip
  pub port : ℕ

-- The fields of OOBPacketConn that are not functions, contexts or channels.
pub record PacketConn : Type 0 where
  pub source_addr : Ip
  pub source_port : ℕ

pub data Opened : Type 0 where
  opened_at : ℕ → GoMap ℕ ℕ → Opened
  port_in_use : Opened
  -- the random numbers ran out before a port was free
  undecided : Opened

-- uint16(32768 + (rand.Int() % 32768))
abbrev pub drawn_port : ℕ → ℕ
drawn_port r = (32768 + r % 32768) % 65536

-- for { port = ...; if !ok { break } }
unfoldable pub free_port : List ℕ → GoMap ℕ ℕ → Option ℕ
free_port [] ports = none
free_port (r ∷ rs) ports =
    let rest = free_port rs ports in
    elim (get (drawn_port r) ports) [ none ↦ some (drawn_port r) | some _ ↦ rest ]

-- The registration of a port that is not 0, or that was drawn.
unfoldable pub register : ℕ → ℕ → GoMap ℕ ℕ → Opened
register conn port ports = elim (get port ports) [
  | none ↦ opened_at port (put port conn ports)
  | some _ ↦ port_in_use
]

-- NewOOBPacketConn
unfoldable pub new_oob_packet_conn : List ℕ → ℕ → ℕ → GoMap ℕ ℕ → Opened
unfolding free_port register
new_oob_packet_conn randoms conn port ports =
    if port == 0
    then (elim (free_port randoms ports) [ none ↦ undecided | some p ↦ register conn p ports ])
    else register conn port ports

-- The closeFunc of NewOOBPacketConn, which Close calls, and which the goroutine that waits for the
-- context calls again
unfoldable pub close_port : ℕ → GoMap ℕ ℕ → GoMap ℕ ℕ
close_port port ports = del port ports

pub data ReadResult : Type 0 where
  read_ok : ℕ → Bytes → OobAddr → ReadResult
  buffer_too_small : ReadResult

-- ReadFrom on a buffer of this size, for a message from the channel
unfoldable pub read_from : ℕ → OobMessage → ReadResult
read_from size m =
    if ltb size (length m.payload)
    then buffer_too_small
    else read_ok (length m.payload) m.payload
        (record { host = m.source_addr; port = m.source_port })

-- WriteTo: the message that sendFunc is given
unfoldable pub write_to : PacketConn → Bytes → OobAddr → OobMessage
write_to c p addr = record {
  hops = 0;
  source_addr = c.source_addr;
  source_port = c.source_port;
  dest_addr = addr.host;
  dest_port = addr.port;
  payload = p;
}

-- LocalAddr
unfoldable pub local_addr : PacketConn → OobAddr
local_addr c = record { host = c.source_addr; port = c.source_port }
