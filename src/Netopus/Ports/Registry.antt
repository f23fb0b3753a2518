-- ===== src/Netopus/Ports/Registry.antt =====
-- Opening and closing ports, and a datagram from one connection to another.
use connectopus.Prelude.{
  ℕ, ◌≤◌, ◌≡◌, refl, sym, ◌∙◌, inl, inr, none, some, Bytes, nat_eq, le→ltb, GoMap, get, put, del,
  get-put_self, get-del_self, length, Option-cases,
}
use connectopus.Proto.Message.{OobMessage, ok, marshal_oob, unmarshal_oob}
use connectopus.Proto.Message.RoundTrip.{Fits, received, unmarshal-marshal}
use connectopus.Proto.Message.Layout.{field, field_exact}
use connectopus.Netopus.Ports.{
  OobAddr, PacketConn, opened_at, register, close_port, read_ok, read_from, write_to, local_addr,
}

register-opened :
    (conn port q : ℕ) (ports after : GoMap ℕ ℕ)
    → register conn port ports ≡ opened_at q after
    → (q ≡ port) × (get port ports ≡ none) × (after ≡ put port conn ports)
unfolding register
register-opened conn port q ports after h = elim (Option-cases (get port ports)) [
  | inl free ↦ let found = rw (free, register) at h in (cc, free, cc)
  | inr (c, used) ↦ absurd (let clash = rw (used, register) at h in cc)
]

-- The second Close of a connection removes the port even if another connection has opened it since.
pub late_close_removes :
    (conn port : ℕ) (ports after : GoMap ℕ ℕ)
    → register conn port (close_port port ports) ≡ opened_at port after
    → (get port after ≡ some conn) × (get port (close_port port after) ≡ none)
unfolding close_port
late_close_removes conn port ports after h =
    let (_, _, made) = register-opened conn port port (del port ports) after h in
    (rw made (get-put_self port conn (del port ports)), get-del_self port after)

-- What one connection writes, another reads, over the wire: the bytes, and the writer's address for
-- a reply, if the buffer is large enough and the addresses have 16 bytes.
pub read_from-write_to :
    (c : PacketConn) (p : Bytes) (addr : OobAddr) (size : ℕ) (m : OobMessage)
    → Fits (write_to c p addr)
    → length c.source_addr ≡ 16
    → unmarshal_oob (marshal_oob (write_to c p addr)) ≡ ok m
    → length p ≤ size
    → read_from size m ≡ read_ok (length p) p (local_addr c)
unfolding read_from write_to local_addr
read_from-write_to c p addr size m fits len arrived room =
    let sent = (unmarshal-marshal (write_to c p addr) fits).0 in
    let same : ok (received (write_to c p addr)) ≡ ok m = sym sent ∙ arrived in
    let is_m : received (write_to c p addr) ≡ m = cc in
    let whole : field 16 c.source_addr ≡ c.source_addr = rw (← len) (field_exact c.source_addr) in
    rw (← is_m, le→ltb size (length p) room, whole) refl
