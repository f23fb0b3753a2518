-- ===== src/Dns/Reverse.antt =====
-- Questions for the name of an address.
use connectopus.Prelude.{
  ℕ, ◌+◌, ◌*◌, ◌%◌, ◌<◌, ◌≡◌, ◌≢◌, refl, ap, ◌∙◌, inl, inr, true, false, Option, none, some, List,
  [], ◌∷◌, ◌++◌, Bytes, nat_eq, ◌==◌, ==-cases, length, lt→ltb, lt→beq, arith,
}
use connectopus.Proto.Ip.{parse_ip}
use connectopus.Dns.{
  dot, colon, arpa, split, forward_addr, rev, reverse_text, reverse_ip, Server, Question, ptr,
  ptr_rr, answer_ip, answer_ips, reverse_handler,
}
use connectopus.Dns.Names.{trim_suffix-append}

-- Four hexadecimal digits, of which none is a dot.
pub record Quad : Type 0 where
  pub a : ℕ
  pub b : ℕ
  pub c : ℕ
  pub d : ℕ

abbrev pub digits : List Quad → List ℕ
digits [] = []
digits (q ∷ qs) = q.a ∷ q.b ∷ q.c ∷ q.d ∷ digits qs

-- The address as text: its groups of four digits with a colon between them.
abbrev pub text_of : List Quad → Bytes
text_of [] = []
text_of (q ∷ []) = q.a ∷ q.b ∷ q.c ∷ q.d ∷ []
text_of (q ∷ r ∷ qs) = q.a ∷ q.b ∷ q.c ∷ q.d ∷ colon ∷ text_of (r ∷ qs)

-- The digits from the last to the first, with a dot before each but the first of them.
abbrev pub labels : List ℕ → Bytes
labels [] = []
labels (x ∷ []) = x ∷ []
labels (x ∷ y ∷ xs) = x ∷ dot ∷ labels (y ∷ xs)

abbrev pub singles : List ℕ → List Bytes
singles [] = []
singles (x ∷ xs) = (x ∷ []) ∷ singles xs

abbrev pub NoDots : List ℕ → Type 0
NoDots [] = Unit
NoDots (x ∷ xs) = (x ≢ dot) × NoDots xs

split-labels : (x : ℕ) (xs : List ℕ) → NoDots (x ∷ xs) → split (labels (x ∷ xs)) ≡ singles (x ∷ xs)
unfolding split
split-labels x [] (ne, _) = elim (==-cases x dot) [
  | inl (_, e) ↦ absurd (ne e)
  | inr (t, _) ↦ rw t refl
]
split-labels x (y ∷ xs) (ne, rest) = elim (==-cases x dot) [
  | inl (_, e) ↦ absurd (ne e)
  | inr (t, _) ↦ rw (t, split-labels y xs rest) refl
]

length-digits : (qs : List Quad) → length (singles (digits qs)) ≡ 4 * length qs
length-digits [] = refl
length-digits (q ∷ qs) = omega (arith, length-digits qs)

plain_digit :
    (x : ℕ) (parts : List Bytes) (text : Bytes)
    → 0 < length parts % 4
    → forward_addr parts ≡ some text
    → forward_addr ((x ∷ []) ∷ parts) ≡ some (x ∷ text)
unfolding forward_addr
plain_digit x parts text ne h =
    let inside : (length parts % 4 == 0) ≡ false = ground (arith, ne) in rw (h, inside) refl

first_digit :
    (x : ℕ) (parts : List Bytes) (text : Bytes)
    → length parts % 4 ≡ 0
    → 0 < length parts
    → forward_addr parts ≡ some text
    → forward_addr ((x ∷ []) ∷ parts) ≡ some (x ∷ colon ∷ text)
unfolding forward_addr
first_digit x parts text e ne h =
    let border : (length parts % 4 == 0) ≡ true = ground (arith, e) in
    let more : (length parts == 0) ≡ false = ground (arith, ne) in rw (h, border, more) refl

forward_addr-digits : (qs : List Quad) → forward_addr (singles (digits qs)) ≡ some (text_of qs)
unfolding forward_addr
forward_addr-digits [] = refl
forward_addr-digits (q ∷ []) = refl
forward_addr-digits (q ∷ r ∷ qs) =
    let n = length-digits (r ∷ qs) in
    let p0 = singles (digits (r ∷ qs)) in
    let p1 : List Bytes = (q.d ∷ []) ∷ p0 in
    let p2 : List Bytes = (q.c ∷ []) ∷ p1 in
    let p3 : List Bytes = (q.b ∷ []) ∷ p2 in
    let t0 = text_of (r ∷ qs) in
    let h1 = first_digit q.d p0 t0 (omega arith) (omega arith) (forward_addr-digits (r ∷ qs)) in
    let h2 = plain_digit q.c p1 _ (omega arith) h1 in
    let h3 = plain_digit q.b p2 _ (omega arith) h2 in plain_digit q.a p3 _ (omega arith) h3

rev-rev : (xs ys zs : List Bytes) → rev (rev xs ys) zs ≡ rev ys (xs ++ zs)
unfolding rev
rev-rev [] ys zs = refl
rev-rev (x ∷ xs) ys zs = rev-rev xs (x ∷ ys) zs

append_nil : (xs : List Bytes) → xs ++ [] ≡ xs
append_nil [] = refl
append_nil (x ∷ xs) = ap (λ r. x ∷ r) (append_nil xs)

singles-rev : (xs ys : List ℕ) → singles (rev xs ys) ≡ rev (singles xs) (singles ys)
unfolding rev
singles-rev [] ys = refl
singles-rev (x ∷ xs) ys = singles-rev xs (x ∷ ys)

rev-NoDots : (xs ys : List ℕ) → NoDots xs → NoDots ys → NoDots (rev xs ys)
unfolding rev
rev-NoDots [] ys _ n = n
rev-NoDots (x ∷ xs) ys (ne, m) n = rev-NoDots xs (x ∷ ys) m (ne, n)

length-rev : (xs ys : List ℕ) → length (singles (rev xs ys)) ≡ length (singles xs) + length ys
unfolding rev
length-rev [] [] = refl
length-rev [] (y ∷ ys) = omega (arith, length-rev [] ys)
length-rev (x ∷ xs) ys = omega (arith, length-rev xs (x ∷ ys))

split-digits : (xs : List ℕ) → NoDots xs → 0 < length (singles xs) → split (labels xs) ≡ singles xs
split-digits [] _ h = absurd (omega arith)
split-digits (x ∷ xs) n h = split-labels x xs n

-- The name that asks for an address: its digits from the last to the first, below ip6.arpa.
abbrev pub reverse_name : List Quad → Bytes
reverse_name qs = (labels (rev (digits qs) []) ++ arpa) ++ (dot ∷ [])

reverse_text-name :
    (qs : List Quad)
    → length qs ≡ 8
    → NoDots (digits qs)
    → reverse_text (reverse_name qs) ≡ some (text_of qs)
unfolding reverse_text rev
reverse_text-name qs eight clean =
    let back = rev (digits qs) [] in
    let count : length (singles back) ≡ 32 =
      omega (arith, length-rev (digits qs) [], length-digits qs) in
    let parts = split-digits back (rev-NoDots (digits qs) [] clean tt) (omega arith) in
    let again : rev (singles back) [] ≡ singles (digits qs) =
      ap (λ r. rev r []) (singles-rev (digits qs) [])
      ∙ rev-rev (singles (digits qs)) [] []
      ∙ append_nil (singles (digits qs)) in
    rw
      (
        trim_suffix-append (labels back ++ arpa) (dot ∷ []),
        trim_suffix-append (labels back) arpa,
        parts,
        count,
        again,
      )
      (forward_addr-digits qs)

reverse_ip-name :
    (s : Server) (qs : List Quad)
    → length qs ≡ 8
    → NoDots (digits qs)
    → reverse_ip s (reverse_name qs) ≡ parse_ip s.net_parse_ip (text_of qs)
unfolding reverse_ip
reverse_ip-name s qs eight clean =
    ap (λ (o : Option Bytes). elim o [ none ↦ [] | some text ↦ parse_ip s.net_parse_ip text ])
      (reverse_text-name qs eight clean)

-- A reverse question for an address, its 32 digits from the last to the first below ip6.arpa, is
-- read back as the address's text, eight groups of four digits; if that text parses, the name
-- server answers with the node's name for the address in the domain, or with a name error where the
-- node has none.
pub reverse_handler-name :
    (s : Server) (qs : List Quad)
    → length qs ≡ 8
    → NoDots (digits qs)
    → 0 < length (parse_ip s.net_parse_ip (text_of qs))
    → (let name = s.lookup_ip (parse_ip s.net_parse_ip (text_of qs)) in
        let rr = ptr_rr (reverse_name qs) (name ++ (dot ∷ s.domain) ++ (dot ∷ [])) in
        let question : List Question = record { name = reverse_name qs; qtype = ptr } ∷ [] in
        (name ≡ []
          → reverse_handler s true question
            ≡ record { answer = []; authoritative = false; name_error = true })
        × (0 < length name
            → s.new_rr rr ≡ true
            → reverse_handler s true question
              ≡ record { answer = rr ∷ []; authoritative = true; name_error = false }))
unfolding reverse_handler answer_ips answer_ip
reverse_handler-name s qs eight clean parses =
    let text = reverse_ip-name s qs eight clean in
    let some_ip : (length (parse_ip s.net_parse_ip (text_of qs)) == 0) ≡ false = lt→beq _ parses in
    (
      λ nameless. rw (text, some_ip, nameless) refl,
      λ named ok. let some_name = lt→ltb _ _ named in rw (text, some_ip, some_name, ok) refl,
    )
