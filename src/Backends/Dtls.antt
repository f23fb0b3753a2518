-- ===== src/Backends/Dtls.antt =====
-- pkg/backends/backend_dtls/backend_dtls.go: a message is a datagram, and the settings are those of a
-- pre-shared key or of certificates. The DTLS connection's Write and Read are arguments.
pub mod Config
mod Tests
use connectopus.Prelude.{
  ℕ, ◌-◌, Bool, Option, none, some, [], Bytes, nat_eq, ◌==◌, ltb, if◌then◌else◌, length, take,
}

-- MTU: 1500 - 40 - 8
abbrev pub mtu : ℕ
mtu = 1500 - 40 - 8

pub data WriteError : Type 0 where
  exceeds_mtu write_failed short_write : WriteError

-- WriteMessage: the datagram that it sends, and its error, nil being none; `write` returns how many
-- bytes it wrote, none being an error.
unfoldable pub write_message : (Bytes → Option ℕ) → Bytes → Option Bytes × Option WriteError
write_message write msg =
    if ltb mtu (length msg) then (none, some exceeds_mtu) else (elim (write msg) [
      | none ↦ (none, some write_failed)
      | some n ↦ (some msg, (if n == length msg then none else some short_write))
    ])

-- ReadMessage: p[:n] of a buffer of MTU bytes that Read has filled, with its error.
unfoldable pub read_message : {E : Type 0} → (ℕ → Bytes × (ℕ × E)) → Bytes × E
read_message read = (take (read mtu).1.0 (read mtu).0, (read mtu).1.1)
