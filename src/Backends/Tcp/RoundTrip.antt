-- ===== src/Backends/Tcp/RoundTrip.antt =====
-- WriteMessage at one end and ReadMessage at the other.
use Prim.Native.Nat.{zero, suc}
use connectopus.Prelude.{
  ℕ, ◌+◌, ◌*◌, ◌/◌, ◌%◌, ◌≤◌, ◌<◌, ◌≡◌, refl, sym, ap, ◌∙◌, inl, inr, true, false, Option, some,
  List, [], ◌∷◌, ◌++◌, Bytes, nat_eq, ◌==◌, ltb, leb, le→ltb, get_or, ◌-◌, In, length, take, drop,
  take-append, drop-append, arith,
}
use mathlib.Core.List.Memᴰ
use connectopus.Backends.Tcp.{
  Conn, received, timed_out, deadline_exceeded, full, failed, mtu, packet_of, write_message, sent,
  read_full, read_message, backend_read_loop,
}
use connectopus.Backends.Tcp.Stream.{arrived, Framed, Reads, read_message_lem}

-- net.Conn.Write without an error writes all of its bytes.
abbrev pub WritesAll : (Bytes → Option ℕ) → Type 0
WritesAll write = (p : Bytes) → write p ≡ some (length p)

Framed-unique :
    {bs msg rest msg' rest' : Bytes}
    → Framed bs msg rest
    → Framed bs msg' rest'
    → (msg ≡ msg') × (rest ≡ rest')
Framed-unique {bs} {msg} {rest} {msg'} {rest'} f g =
    let shape = sym f.shape ∙ g.shape in
    let is_high : f.high ≡ g.high = ap (first 0) shape in
    let is_low : f.low ≡ g.low = ap (first 0) (ap (drop 1) shape) in
    let same : msg ++ rest ≡ msg' ++ rest' = ap (drop 2) shape in
    let size : length msg ≡ length msg' = f.size ∙ (rw (is_high, is_low) (sym g.size)) in
    (
      sym (take-append msg rest) ∙ ap (take (length msg)) same ∙ (rw size (take-append msg' rest')),
      sym (drop-append msg rest) ∙ ap (drop (length msg)) same ∙ (rw size (drop-append msg' rest')),
    )
  where
    first : ℕ → Bytes → ℕ
    first d [] = d
    first d (b ∷ _) = b

-- What goes out for a message that is not empty and within the MTU.
pub write_message-Framed :
    (write : Bytes → Option ℕ) (b : ℕ) (msg rest : Bytes)
    → WritesAll write
    → length (b ∷ msg) ≤ mtu
    → Framed ((write_message write (b ∷ msg)).wire ++ rest) (b ∷ msg) rest
unfolding write_message
write_message-Framed write b msg rest all fits =
    let n = length (b ∷ msg) in
    let within : ltb mtu n ≡ false = le→ltb mtu n fits in
    let some_bytes : (n == 0) ≡ false = ground arith in
    let whole : (length (packet_of (b ∷ msg)) == n + 2) ≡ true = ground arith in
    record {
      high = n / 256 % 256;
      low = n % 256;
      shape = rw (within, some_bytes, all (packet_of (b ∷ msg)), whole) refl;
      size = omega arith;
    }

-- The messages that a reader can see.
abbrev pub non_empty : List Bytes → List Bytes
non_empty [] = []
non_empty ([] ∷ later) = non_empty later
non_empty ((b ∷ msg) ∷ later) = (b ∷ msg) ∷ non_empty later

-- Nothing goes out for an empty message.
write_message-empty : (write : Bytes → Option ℕ) → (write_message write []).wire ≡ []
unfolding write_message
write_message-empty write = refl

no_frame : {msg rest : Bytes} → ¬ Framed [] msg rest
no_frame f = absurd (let clash : [] ≡ f.high ∷ f.low ∷ _ = f.shape in cc)

-- The messages that WriteMessage puts on the wire one after another, none above the MTU, are the
-- messages that the read loop at the other end hands on, in their order and whole, however the
-- stream is cut into packets: all but the empty ones, in at most one round more than there are
-- messages.
pub backend_read_loop-sent :
    (write : Bytes → Option ℕ) (msgs : List Bytes) (c : Conn) (fuel : ℕ)
    → WritesAll write
    → ((m : Bytes) → In m msgs → length m ≤ mtu)
    → arrived c ≡ sent write msgs
    → length msgs < fuel
    → backend_read_loop fuel c ≡ non_empty msgs
unfolding backend_read_loop sent
backend_read_loop-sent write msgs c zero all fits e h = absurd (omega arith)
backend_read_loop-sent write [] c (suc fuel) all fits e h = elim (read_message_lem c) [
  | inl (msg, c', f, _, _) ↦ absurd (no_frame (rw e at f))
  | inr (_, (c', r)) ↦ rw (r, backend_read_loop) refl
]
backend_read_loop-sent write ([] ∷ later) c (suc fuel) all fits e h =
    backend_read_loop-sent write later c (suc fuel) all (λ m i. fits m (Memᴰ.tail i))
      (e ∙ ap (λ r. r ++ sent write later) (write_message-empty write)) (omega arith)
backend_read_loop-sent write ((b ∷ m) ∷ later) c (suc fuel) all fits e h =
    let g = write_message-Framed write b m (sent write later) all (fits (b ∷ m) (Memᴰ.head refl)) in
    elim (read_message_lem c) [
      | inl (msg, c', f, _, r) ↦
          let (is_msg, left) = Framed-unique (rw e at f) g in
          rw (r, is_msg, backend_read_loop)
            (ap (λ r. (b ∷ m) ∷ r)
              (backend_read_loop-sent write later c' fuel all (λ m i. fits m (Memᴰ.tail i)) left
                (omega arith)))
      | inr (none_, _) ↦ absurd (none_ (b ∷ m) (sent write later) (rw e g))
    ]

-- A read deadline that passes between the length of a message and its bytes loses the length: the
-- read fails, and the next one takes the first two bytes of the message for a length.
pub torn_message :
    (high low x y : ℕ) (msg : Bytes) (c : Conn)
    → 0 < high * 256 + low
    → (read_message (received (high ∷ low ∷ []) ∷ timed_out ∷ received (x ∷ y ∷ msg) ∷ c)
        ≡ failed deadline_exceeded (received (x ∷ y ∷ msg) ∷ c))
      × ((got : Bytes) (c' : Conn)
          → read_message (received (x ∷ y ∷ msg) ∷ c) ≡ full got c'
          → length got ≡ x * 256 + y)
unfolding read_message read_full
torn_message high low x y msg c h =
    let n = high * 256 + low in
    let some_bytes : leb n 0 ≡ false = ground arith in
    let unread : (n - 0 == 0) ≡ false = ground arith in
    (
      rw (some_bytes, unread) refl,
      λ got c' r. second_read got c' r (read_message_lem (received (x ∷ y ∷ msg) ∷ c)),
    )
  where
    get_or_zero : ℕ → Bytes → ℕ
    get_or_zero i bs = get_or bs i 0

    second_read :
        (got : Bytes) (c' : Conn)
        → read_message (received (x ∷ y ∷ msg) ∷ c) ≡ full got c'
        → Reads (received (x ∷ y ∷ msg) ∷ c)
        → length got ≡ x * 256 + y
    second_read got c' r (inl (m, c'', f, _, r')) =
        let same : full got c' ≡ full m c'' = sym r ∙ r' in
        let is_m : got ≡ m = cc in
        let is_x : x ≡ f.high = ap (get_or_zero 0) f.shape in
        let is_y : y ≡ f.low = ap (get_or_zero 1) f.shape in
        ap length is_m ∙ f.size ∙ (rw (is_x, is_y) refl)
    second_read got c' r (inr (_, (c'', r'))) = absurd (let clash = sym r ∙ r' in cc)
