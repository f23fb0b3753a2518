-- ===== src/Backends/Tcp.antt =====
-- pkg/backends/backend_tcp/backend_tcp.go: messages over a TCP connection, each with its length in
-- two bytes before it. What a connection's reads give is a list of arrivals, and its Write is the
-- argument `write`, which returns how many bytes it wrote, none being an error.
pub mod Config
pub mod Stream
pub mod RoundTrip
mod Tests
mod ConfigTests
use Prim.Native.Nat.{zero, suc}
use connectopus.Prelude.{
  ℕ, ◌+◌, ◌*◌, ◌-◌, ◌/◌, ◌%◌, Bool, Option, none, some, List, [], ◌∷◌, ◌++◌, Bytes, nat_eq, ◌==◌,
  ltb, leb, if◌then◌else◌, length, take, drop,
}

-- MTU
abbrev pub mtu : ℕ
mtu = 1500

pub data WriteError : Type 0 where
  exceeds_mtu write_failed short_write : WriteError

-- The error that WriteMessage returns, nil being none, and the bytes that went out.
pub record Written : Type 0 where
  pub error : Option WriteError
  pub wire : Bytes

-- PutUint16 of uint16(len(data)), then the data.
abbrev pub packet_of : Bytes → Bytes
packet_of msg = length msg / 256 % 256 ∷ length msg % 256 ∷ msg

-- WriteMessage
unfoldable pub write_message : (Bytes → Option ℕ) → Bytes → Written
write_message write msg =
    if ltb mtu (length msg)
    then (record { error = some exceeds_mtu; wire = [] })
    else if length msg == 0
    then (record { error = none; wire = [] })
    else (elim (write (packet_of msg)) [
      | none ↦ (record { error = some write_failed; wire = [] })
      | some n ↦
          if n == length msg + 2
          then (record { error = none; wire = packet_of msg })
          else (record { error = some short_write; wire = take n (packet_of msg) })
    ])

-- What a Read of the connection gives: bytes, or os.ErrDeadlineExceeded. After the last one: io.EOF.
pub data Arrival : Type 0 where
  received : Bytes → Arrival
  timed_out : Arrival

abbrev pub Conn : Type 0
Conn = List Arrival

pub data ReadError : Type 0 where
  eof unexpected_eof deadline_exceeded : ReadError

-- Some bytes or an error, with what is left of the connection.
pub data Read : Type 0 where
  full : Bytes → Conn → Read
  failed : ReadError → Conn → Read

-- io.EOF after some bytes is io.ErrUnexpectedEOF.
abbrev pub cut : Bytes → ReadError → ReadError
cut (b ∷ bs) eof = unexpected_eof
cut (b ∷ bs) unexpected_eof = unexpected_eof
cut (b ∷ bs) deadline_exceeded = deadline_exceeded
cut [] e = e

abbrev pub after : Bytes → Read → Read
after bs (full cs c) = full (bs ++ cs) c
after bs (failed e c) = failed (cut bs e) c

-- io.ReadFull into a buffer of n bytes: Read is called until the buffer is full, and the bytes before
-- an error are gone.
unfoldable pub read_full : ℕ → Conn → Read
read_full n [] = if n == 0 then full [] [] else failed eof []
read_full n (timed_out ∷ c) = if n == 0 then full [] (timed_out ∷ c) else failed deadline_exceeded c
read_full n (received bs ∷ c) =
    let rest = read_full (n - length bs) c in
    if leb n (length bs) then full (take n bs) (received (drop n bs) ∷ c) else after bs rest

-- binary.BigEndian.Uint16 of two bytes
abbrev pub uint16 : Bytes → ℕ
uint16 (hi ∷ lo ∷ _) = hi * 256 + lo
uint16 _ = 0

-- ReadMessage
unfoldable pub read_message : Conn → Read
unfolding read_full
read_message c = elim (read_full 2 c) [
  | failed e c' ↦ failed e c'
  | full len_bytes c' ↦ read_full (uint16 len_bytes) c'
]

-- What WriteMessage puts on the wire for one message after another.
unfoldable pub sent : (Bytes → Option ℕ) → List Bytes → Bytes
unfolding write_message
sent write [] = []
sent write (msg ∷ later) = (write_message write msg).wire ++ sent write later

-- netopus' backendReadLoop on such a connection while its context lives: the messages that it hands
-- to readChan before ReadMessage fails, in at most `fuel` rounds.
unfoldable pub backend_read_loop : ℕ → Conn → List Bytes
unfolding read_message
backend_read_loop zero c = []
backend_read_loop (suc fuel) c = elim (read_message c) [
  | failed e c' ↦ []
  | full msg c' ↦ msg ∷ backend_read_loop fuel c'
]
