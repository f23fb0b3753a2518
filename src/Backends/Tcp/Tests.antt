-- ===== src/Backends/Tcp/Tests.antt =====
-- A connection whose bytes arrive in three pieces.
use connectopus.Prelude.{◌≤◌, ◌≡◌, refl, some, List, [], ◌∷◌, Bytes, In, length, arith}
use mathlib.Core.List.Memᴰ
use connectopus.Backends.Tcp.{
  Conn, received, timed_out, deadline_exceeded, full, failed, eof, unexpected_eof, read_full, mtu,
  write_message, sent, read_message, backend_read_loop,
}
use connectopus.Backends.Tcp.Stream.{Reads, read_message_lem}
use connectopus.Backends.Tcp.RoundTrip.{backend_read_loop-sent, torn_message}

abbrev pieces : Conn
pieces = received (0 ∷ []) ∷ received (3 ∷ 7 ∷ 8 ∷ []) ∷ received (9 ∷ 0 ∷ 1 ∷ 5 ∷ []) ∷ []

abbrev messages : List Bytes
messages = (7 ∷ 8 ∷ 9 ∷ []) ∷ [] ∷ (5 ∷ []) ∷ []

small : (m : Bytes) → In m messages → length m ≤ mtu
small m (Memᴰ.head e) = let n : length m ≡ 3 = rw e refl in omega (arith, n)
small m (Memᴰ.tail (Memᴰ.head e)) = let n : length m ≡ 0 = rw e refl in omega (arith, n)
small m (Memᴰ.tail (Memᴰ.tail (Memᴰ.head e))) = let n : length m ≡ 1 = rw e refl in omega (arith, n)
small m (Memᴰ.tail (Memᴰ.tail (Memᴰ.tail i))) = elim i [ ]

backend_read_loop-sent_example : backend_read_loop 4 pieces ≡ (7 ∷ 8 ∷ 9 ∷ []) ∷ (5 ∷ []) ∷ []
unfolding sent write_message
backend_read_loop-sent_example =
    backend_read_loop-sent (λ p. some (length p)) messages pieces 4 (λ p. refl) small refl
      (omega arith)

read_message_lem_example : Reads pieces
read_message_lem_example = read_message_lem pieces

torn_message_example :
    (read_message (received (0 ∷ 3 ∷ []) ∷ timed_out ∷ received (7 ∷ 8 ∷ 9 ∷ []) ∷ [])
      ≡ failed deadline_exceeded (received (7 ∷ 8 ∷ 9 ∷ []) ∷ []))
    × ((got : Bytes) (c' : Conn)
        → read_message (received (7 ∷ 8 ∷ 9 ∷ []) ∷ []) ≡ full got c'
        → length got ≡ 1800)
torn_message_example = torn_message 0 3 7 8 (9 ∷ []) [] (omega arith)

-- The connection ends within a message, and between its length and its first byte.
ends_inside : read_message (received (0 ∷ 3 ∷ 7 ∷ []) ∷ []) ≡ failed unexpected_eof []
unfolding read_message read_full
ends_inside = refl

ends_after_length : read_message (received (0 ∷ 3 ∷ []) ∷ []) ≡ failed eof []
unfolding read_message read_full
ends_after_length = refl
