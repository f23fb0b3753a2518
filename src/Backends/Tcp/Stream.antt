-- ===== src/Backends/Tcp/Stream.antt =====
-- What ReadMessage reads, in terms of the bytes that arrive before the next deadline.
use connectopus.Prelude.{
  ℕ, ◌+◌, ◌*◌, ◌-◌, ◌≤◌, ◌<◌, ◌≡◌, refl, sym, ap, ◌∙◌, ◌⊎◌, inl, inr, true, false, [], ◌∷◌, ◌++◌,
  Bytes, nat_eq, ==-cases, leb, length, take, drop, length-append, take-append_le, take-append_ge,
  drop-append_le, drop-append_ge, length-take, take-drop, dec_lt, arith,
}
use connectopus.Backends.Tcp.{
  Conn, received, timed_out, ReadError, eof, deadline_exceeded, full, failed, unexpected_eof, cut,
  read_full, read_message,
}

-- The bytes that arrive before a deadline passes or the connection ends, and which of the two.
abbrev pub arrived : Conn → Bytes
arrived [] = []
arrived (timed_out ∷ c) = []
arrived (received bs ∷ c) = bs ++ arrived c

abbrev pub stop : Conn → ReadError
stop [] = eof
stop (timed_out ∷ c) = deadline_exceeded
stop (received bs ∷ c) = stop c

-- What is left after n bytes were read.
pub record After (n : ℕ) (c c' : Conn) : Type 0 where
  pub left : arrived c' ≡ drop n (arrived c)
  pub stops : stop c' ≡ stop c

pub read_full-arrived :
    (n : ℕ) (c : Conn)
    → n ≤ length (arrived c)
    → (c' : Conn) × (read_full n c ≡ full (take n (arrived c)) c') × After n c c'
unfolding read_full
read_full-arrived n [] h = elim (==-cases n 0) [
  | inl (_, e) ↦ rw e ([], refl, record { left = refl; stops = refl })
  | inr (_, ne) ↦ absurd (ne (omega arith))
]
read_full-arrived n (timed_out ∷ c) h = elim (==-cases n 0) [
  | inl (_, e) ↦ rw e (timed_out ∷ c, refl, record { left = refl; stops = refl })
  | inr (_, ne) ↦ absurd (ne (omega arith))
]
read_full-arrived n (received bs ∷ c) h = elim (dec_lt (length bs) n) [
  | no le ↦
      let here : leb n (length bs) ≡ true = ground arith in
      let few : n ≤ length bs = omega arith in
      (
        received (drop n bs) ∷ c,
        rw (here, take-append_le n bs (arrived c) few) refl,
        record { left = sym (drop-append_le n bs (arrived c) few); stops = refl },
      )
  | yes lt ↦
      let here : leb n (length bs) ≡ false = ground arith in
      let many : length bs ≤ n = omega arith in
      let (c', e, a) =
        read_full-arrived (n - length bs) c (omega (arith, length-append bs (arrived c))) in
      (
        c',
        rw (here, e, take-append_ge n bs (arrived c) many) refl,
        record { left = a.left ∙ sym (drop-append_ge n bs (arrived c) many); stops = a.stops },
      )
]

cut-append : (bs cs : Bytes) (e : ReadError) → cut bs (cut cs e) ≡ cut (bs ++ cs) e
cut-append [] cs e = refl
cut-append (b ∷ bs) [] eof = refl
cut-append (b ∷ bs) [] unexpected_eof = refl
cut-append (b ∷ bs) [] deadline_exceeded = refl
cut-append (b ∷ bs) (c ∷ cs) eof = refl
cut-append (b ∷ bs) (c ∷ cs) unexpected_eof = refl
cut-append (b ∷ bs) (c ∷ cs) deadline_exceeded = refl

pub read_full-short :
    (n : ℕ) (c : Conn)
    → length (arrived c) < n
    → (c' : Conn) × (read_full n c ≡ failed (cut (arrived c) (stop c)) c')
unfolding read_full
read_full-short n [] h = elim (==-cases n 0) [
  | inl (_, e) ↦ absurd (omega arith)
  | inr (t, _) ↦ ([], rw t refl)
]
read_full-short n (timed_out ∷ c) h = elim (==-cases n 0) [
  | inl (_, e) ↦ absurd (omega arith)
  | inr (t, _) ↦ (c, rw t refl)
]
read_full-short n (received bs ∷ c) h =
    let more = length-append bs (arrived c) in
    let here : leb n (length bs) ≡ false = ground (arith, more) in
    let (c', e) = read_full-short (n - length bs) c (omega (arith, more)) in
    (c', rw (here, e) (ap (λ r. failed r c') (cut-append bs (arrived c) (stop c))))

-- A message that stands at the front of the bytes that have arrived: its length in two bytes.
pub record Framed (bs msg rest : Bytes) : Type 0 where
  pub high : ℕ
  pub low : ℕ
  pub shape : bs ≡ high ∷ low ∷ (msg ++ rest)
  pub size : length msg ≡ high * 256 + low

-- The error of a read that these bytes do not suffice for: the connection's own, but io.EOF within the
-- length or within the message is io.ErrUnexpectedEOF.
abbrev pub read_error : Bytes → ReadError → ReadError
read_error [] e = e
read_error (b ∷ []) e = cut (b ∷ []) e
read_error (high ∷ low ∷ body) e = cut body e

-- How a ReadMessage ends: with the message at the front of what has arrived, the rest being left, or
-- with an error where no whole message stands there.
abbrev pub Reads : Conn → Type 0
Reads c =
    ((msg : Bytes) × (c' : Conn) × Framed (arrived c) msg (arrived c')
      × (stop c' ≡ stop c)
      × (read_message c ≡ full msg c'))
    ⊎ ((msg rest : Bytes) → ¬ Framed (arrived c) msg rest)
      × ((c' : Conn) × (read_message c ≡ failed (read_error (arrived c) (stop c)) c'))

cut_short : (bs : Bytes) (e : ReadError) → length bs < 2 → cut bs e ≡ read_error bs e
cut_short [] e h = refl
cut_short (b ∷ []) e h = refl
cut_short (b ∷ c ∷ bs) e h = absurd (omega arith)

-- Without two bytes there is no length.
no_length :
    (c : Conn)
    → length (arrived c) < 2
    → ((msg rest : Bytes) → ¬ Framed (arrived c) msg rest)
      × ((c' : Conn) × (read_message c ≡ failed (read_error (arrived c) (stop c)) c'))
unfolding read_message
no_length c h = (
  λ msg rest f.
      let long : length (arrived c) ≡ length (f.high ∷ f.low ∷ (msg ++ rest)) = ap length f.shape in
      omega arith,
  let (c', e) = read_full-short 2 c h in
      (c', rw (e, read_message) (ap (λ r. failed r c') (cut_short (arrived c) (stop c) h))),
)

with_length : (c : Conn) (high low : ℕ) (body : Bytes) → arrived c ≡ high ∷ low ∷ body → Reads c
unfolding read_message
with_length c high low body e =
    let two : 2 ≤ length (arrived c) = rw e (omega arith) in
    let (c', r, a) = read_full-arrived 2 c two in
    let head : take 2 (arrived c) ≡ high ∷ low ∷ [] = rw e refl in
    let left : arrived c' ≡ body = a.left ∙ (rw e refl) in
    let n = high * 256 + low in
    elim (dec_lt (length body) n) [
      | yes lt ↦
          let (c'', r') = read_full-short n c' (rw left lt) in
          inr (
            λ msg rest f.
                let same : body ≡ msg ++ rest = ap (drop 2) (sym e ∙ f.shape) in
                let is_high : high ≡ f.high = ap head_of (sym e ∙ f.shape) in
                let is_low : low ≡ f.low = ap head_of (ap (drop 1) (sym e ∙ f.shape)) in
                let long : length body ≡ length (msg ++ rest) = ap length same in
                let more = length-append msg rest in
                let size : length msg ≡ high * 256 + low = rw (is_high, is_low) f.size in
                omega arith,
            (c'', rw (r, head, r', left, a.stops, read_message, e) refl),
          )
      | no le ↦
          let few : n ≤ length body = omega arith in
          let (c'', r', a') = read_full-arrived n c' (rw left few) in
          inl (
            take n body,
            c'',
            record {
              high = high;
              low = low;
              shape =
                  e
                  ∙ ap (λ r. high ∷ low ∷ r)
                      (sym (take-drop n body)
                        ∙ ap (λ r. take n body ++ r) (sym (a'.left ∙ ap (drop n) left)));
              size = length-take n body few;
            },
            a'.stops ∙ a.stops,
            rw (r, head, r', left, read_message) refl,
          )
    ]
  where
    head_of : Bytes → ℕ
    head_of [] = 0
    head_of (b ∷ _) = b

-- ReadMessage returns the message whose length and bytes have arrived, however they were cut into
-- packets, and leaves what arrived behind it; where no whole message has arrived it returns
-- os.ErrDeadlineExceeded if a deadline passes, and if the connection ends io.EOF or, after one byte of
-- the length or some bytes of the message, io.ErrUnexpectedEOF.
pub read_message_lem : (c : Conn) → Reads c
read_message_lem c = by_front (arrived c) refl
  where
    by_front : (bs : Bytes) → arrived c ≡ bs → Reads c
    by_front [] e = inr (no_length c (rw e (omega arith)))
    by_front (b ∷ []) e = inr (no_length c (rw e (omega arith)))
    by_front (high ∷ low ∷ body) e = with_length c high low body e
