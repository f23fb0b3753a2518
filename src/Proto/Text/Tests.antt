-- ===== src/Proto/Text/Tests.antt =====
-- A text of a subnet that has its bytes in unary, and a JSON document that is its value.
use connectopus.Prelude.{
  ℕ, ◌+◌, ◌≡◌, refl, ap, ◌∙◌, inl, inr, Bool, true, false, ◌&&◌, leb, Bool-cases, Option, none,
  some, [], ◌∷◌, ◌++◌, Bytes, bytes_eq, ==-cases, ==-refl, GoMap, get, keys-get, Distinct, In, keys,
  not-In-nil, take, drop, length, take-append, drop-append, if◌then◌else◌, arith,
}
use Prim.Native.Nat.{zero, suc}
use mathlib.Core.List.Memᴰ
use connectopus.Proto.Ip.{Ip}
use connectopus.Proto.Subnet.{Subnet, Mask, subnet_ip, subnet_mask, new_host_only_subnet}
use connectopus.Proto.Subnet.Cidr.{IsCidr, host_only-IsCidr}
use connectopus.Router.Float.{Cost, max_cost}
use connectopus.Router.Graph.{RoutingConns}
use connectopus.Router.Samples.{ip, ip-IsIpv6, conns_to}
use connectopus.Proto.Text.{Text, IsFinite, IsAscii, marshal_conns, unmarshal_conns}
use connectopus.Proto.Text.Connections.{length-subnet_ip, unmarshal_conns-marshal}

data Document : Type 0 where
  string : Bytes → Document
  object : GoMap Bytes Cost → Document

abbrev string_of : Document → Option Bytes
string_of (string s) = some s
string_of (object m) = none

abbrev object_of : Document → Option (GoMap Bytes Cost)
object_of (string s) = none
object_of (object m) = some m

-- A byte b is b ones and a zero.
abbrev ones : ℕ → Bytes → Bytes
ones zero r = 0 ∷ r
ones (suc b) r = 1 ∷ ones b r

unfoldable encode : Bytes → Bytes
encode [] = []
encode (b ∷ bs) = ones b (encode bs)

unfoldable decode : ℕ → Bytes → Bytes
decode n [] = []
decode n (zero ∷ s) = n ∷ decode 0 s
decode n (suc _ ∷ s) = decode (suc n) s

decode-ones : (n b : ℕ) (r : Bytes) → decode n (ones b r) ≡ (n + b) ∷ decode 0 r
unfolding decode
decode-ones n zero r = ap (λ k. k ∷ decode 0 r) (omega arith)
decode-ones n (suc b) r = decode-ones (suc n) b r ∙ ap (λ k. k ∷ decode 0 r) (omega arith)

decode-encode : (bs : Bytes) → decode 0 (encode bs) ≡ bs
unfolding encode decode
decode-encode [] = refl
decode-encode (b ∷ bs) =
    let same : 0 + b ≡ b = omega arith in
    decode-ones 0 b (encode bs)
    ∙ ap (λ k. k ∷ decode 0 (encode bs)) same
    ∙ ap (λ r. b ∷ r) (decode-encode bs)

ones-IsAscii : (b : ℕ) (r : Bytes) → IsAscii r → IsAscii (ones b r)
ones-IsAscii zero r h = (omega arith, h)
ones-IsAscii (suc b) r h = (omega arith, ones-IsAscii b r h)

encode-IsAscii : (bs : Bytes) → IsAscii (encode bs)
unfolding encode
encode-IsAscii [] = tt
encode-IsAscii (b ∷ bs) = ones-IsAscii b (encode bs) (encode-IsAscii bs)

unfoldable are_finite : GoMap Bytes Cost → Bool
are_finite [] = true
are_finite ((s, v) ∷ m) = leb 0x00800001 v && (leb v max_cost && are_finite m)

finite_costs :
    (m : GoMap Bytes Cost)
    → Distinct (keys m)
    → ((s : Bytes) (v : Cost) → get s m ≡ some v → IsFinite v)
    → are_finite m ≡ true
unfolding are_finite get
finite_costs [] d h = refl
finite_costs ((s, v) ∷ m) (new, d) h =
    let here = h s v (rw (==-refl s) refl) in
    let rest = finite_costs m d (λ t w g. h t w (elim (==-cases s t) [
      | inl (_, e) ↦ absurd (new (rw e (keys-get t w m g)))
      | inr (ne, _) ↦ rw ne g
    ])) in
    ground (arith, here, rest)

infinite_cost :
    (m : GoMap Bytes Cost) (s : Bytes) (v : Cost)
    → get s m ≡ some v
    → ¬ IsFinite v
    → are_finite m ≡ false
unfolding are_finite get
infinite_cost [] s v g inf = absurd (cc)
infinite_cost ((t, w) ∷ m) s v g inf = elim (==-cases t s) [
  | inl (b, _) ↦
      let same : some w ≡ some v = rw (b, get) at g in
      let is_v : w ≡ v = cc in
      rw is_v (elim (Bool-cases (leb 0x00800001 v)) [
        | inr low ↦ rw low refl
        | inl not_low ↦ elim (Bool-cases (leb v max_cost)) [
          | inr high ↦ rw (not_low, high) refl
          | inl not_high ↦ absurd (inf (ground arith, ground arith))
        ]
      ])
  | inr (b, _) ↦
      let rest = infinite_cost m s v (rw (b, get) at g) inf in
      elim (Bool-cases (leb 0x00800001 w)) [
        | inr low ↦ rw low refl
        | inl not_low ↦ elim (Bool-cases (leb w max_cost)) [
          | inr high ↦ rw (not_low, high) refl
          | inl not_high ↦ rw (not_low, not_high) rest
        ]
      ]
]

split_text :
    (a : Ip) (m : Mask)
    → length a ≡ 16
    → (take 16 (decode 0 (encode (a ++ m))) ≡ a) × (drop 16 (decode 0 (encode (a ++ m))) ≡ m)
split_text a m h =
    rw (decode-encode (a ++ m)) (rw (← h) (take-append a m), rw (← h) (drop-append a m))

abbrev document_of : GoMap Bytes Cost → Option Document
document_of m = if are_finite m then some (object m) else none

abbrev plain_text : Text
plain_text = record {
  Json = Document;
  net_parse_ip = λ s. s;
  net_ip_string = λ a. a;
  net_string = λ a m. encode (a ++ m);
  net_parse_cidr = λ s. some ([], (take 16 (decode 0 s), drop 16 (decode 0 s)));
  marshal_string = string;
  unmarshal_string = string_of;
  marshal_costs = document_of;
  unmarshal_costs = object_of;
  unmarshal-marshal_costs =
      λ m d _ finite. (object m, rw (finite_costs m d finite) refl, (m, refl, d, λ s. refl));
  marshal_costs-infinite = λ m s v g inf. rw (infinite_cost m s v g inf) refl;
  net_string-ascii = λ k c. encode-IsAscii (subnet_ip k ++ subnet_mask k);
  net_parse_cidr-string = λ k c.
      let (a, m) = split_text (subnet_ip k) (subnet_mask k) (length-subnet_ip k c) in
      ([], rw (a, m) refl);
}

only-IsCidr : (k : Subnet) → In k (keys (conns_to 2)) → IsCidr k
only-IsCidr k (Memᴰ.head e) = rw e (host_only-IsCidr (ip 2) (ip-IsIpv6 2 (omega arith)))
only-IsCidr k (Memᴰ.tail i) = absurd (not-In-nil k i)

unmarshal_conns-marshal_example :
    (((k : Subnet) (v : Cost) → get k (conns_to 2) ≡ some v → IsFinite v)
      → (json : Document) × (marshal_conns plain_text (conns_to 2) ≡ some json)
        × ((rc' : RoutingConns) × (unmarshal_conns plain_text json ≡ some rc')
            × Distinct (keys rc')
            × ((k : Subnet) → get k rc' ≡ get k (conns_to 2))))
    × ((k : Subnet) (v : Cost)
        → get k (conns_to 2) ≡ some v
        → ¬ IsFinite v
        → marshal_conns plain_text (conns_to 2) ≡ none)
unmarshal_conns-marshal_example =
    unmarshal_conns-marshal plain_text (conns_to 2) (not-In-nil (new_host_only_subnet (ip 2)), tt)
      only-IsCidr
