-- ===== src/Proto/Text/Connections.antt =====
-- The connections of a routing update through their JSON.
use connectopus.Prelude.{
  ◌/◌, ◌≡◌, refl, sym, ap, ◌∙◌, true, false, some, some-injective, [], ◌∷◌, ◌++◌, Bytes, none, inl,
  inr, ==-cases, Option-cases, In-cons, get, get-keys, keys-get, bytes_eq, nat_eq, ◌==◌, lt→beq,
  GoMap, put, put_items, put_items-Distinct, keys, In, Distinct, length, length-append, take-drop,
  length-take, arith,
}
use mathlib.Core.List.Memᴰ
use connectopus.Proto.Ip.{Ip}
use connectopus.Proto.Subnet.{
  Subnet, Mask, has_subnet_length, subnet_ip, subnet_mask, new_subnet, and_bytes, cidr_mask,
}
use connectopus.Proto.Subnet.Contains.{length-and_bytes}
use connectopus.Proto.Subnet.Cidr.{IsCidr, length-cidr_mask}
use connectopus.Router.Float.{Cost}
use connectopus.Router.Graph.{RoutingConns}
use connectopus.Proto.Text.{
  Text, IsFinite, IsAscii, subnet_string, parse_cidr, subnet_of_text, text_costs, marshal_conns,
  conns_of_text, unmarshal_conns,
}

length-IsCidr : (k : Subnet) → IsCidr k → length k ≡ 32
unfolding new_subnet
length-IsCidr k c =
    let m = cidr_mask c.ones 128 in
    let l = length-cidr_mask c.ones c.fits in
    let same : (length c.address == length m) ≡ true = ground (arith, c.len, l) in
    let made : k ≡ and_bytes c.address m ++ m = c.made ∙ (rw same refl) in
    ap length made
    ∙ omega (arith, length-append (and_bytes c.address m) m, length-and_bytes c.address m, c.len, l)

pub length-subnet_ip : (k : Subnet) → IsCidr k → length (subnet_ip k) ≡ 16
unfolding subnet_ip
length-subnet_ip k c =
    let l = length-IsCidr k c in
    let fits : has_subnet_length k ≡ true = unfold has_subnet_length in ground (arith, l) in
    let half : length k / 2 ≡ 16 = omega (arith, l) in
    rw (fits, half) (length-take 16 k (omega (arith, l)))

module _ (text : Text) where
  string_of_cidr :
      (k : Subnet) → IsCidr k → subnet_string text k ≡ text.net_string (subnet_ip k) (subnet_mask k)
  unfolding subnet_string
  string_of_cidr k c =
      let l = length-IsCidr k c in
      let named : (length k == 0) ≡ false = lt→beq _ (omega arith) in
      let fits : has_subnet_length k ≡ true = unfold has_subnet_length in ground (arith, l) in
      rw (named, fits) refl

  halves-append : (k : Subnet) → IsCidr k → subnet_ip k ++ subnet_mask k ≡ k
  unfolding subnet_ip subnet_mask
  halves-append k c =
      let l = length-IsCidr k c in
      let fits : has_subnet_length k ≡ true = unfold has_subnet_length in ground (arith, l) in
      rw fits (take-drop (length k / 2) k)

  subnet_of_printed :
      (s : Bytes) (a n : Ip) (m : Mask)
      → text.net_parse_cidr s ≡ some (a, (n, m))
      → subnet_of_text text s ≡ some (n ++ m)
  unfolding subnet_of_text parse_cidr
  subnet_of_printed s a n m e = rw (e, subnet_of_text, parse_cidr) refl

  -- A CIDR subnet is read back from its text.
  pub subnet_of_text-string :
      (k : Subnet) → IsCidr k → subnet_of_text text (subnet_string text k) ≡ some k
  subnet_of_text-string k c =
      let (a, parses) = text.net_parse_cidr-string k c in
      ap (subnet_of_text text) (string_of_cidr k c)
      ∙ subnet_of_printed _ a (subnet_ip k) (subnet_mask k) parses
      ∙ ap some (halves-append k c)

  subnet_string-injective :
      (j k : Subnet) → IsCidr j → IsCidr k → subnet_string text j ≡ subnet_string text k → j ≡ k
  subnet_string-injective j k cj ck e =
      some-injective
        (sym (subnet_of_text-string j cj) ∙ ap (subnet_of_text text) e ∙ subnet_of_text-string k ck)

  -- The connections with the texts of their subnets.
  abbrev texts : RoutingConns → GoMap Bytes Cost
  texts [] = []
  texts ((k, v) ∷ rc) = (subnet_string text k, v) ∷ texts rc

  text_costs-texts :
      (rc : RoutingConns) (m : GoMap Bytes Cost)
      → text_costs text rc m ≡ put_items (λ (v : Cost). v) (texts rc) m
  unfolding text_costs put_items
  text_costs-texts [] m = refl
  text_costs-texts ((k, v) ∷ rc) m = text_costs-texts rc (put (subnet_string text k) v m)

  abbrev AllCidr : RoutingConns → Type 0
  AllCidr rc = (k : Subnet) → In k (keys rc) → IsCidr k

  conns_of_text-texts :
      (rc new_rc : RoutingConns)
      → AllCidr rc
      → conns_of_text text (texts rc) new_rc ≡ some (put_items (λ (v : Cost). v) rc new_rc)
  unfolding conns_of_text put_items
  conns_of_text-texts [] new_rc cidr = refl
  conns_of_text-texts ((k, v) ∷ rc) new_rc cidr =
      rw (subnet_of_text-string k (cidr k (Memᴰ.head refl)), conns_of_text)
        (conns_of_text-texts rc (put k v new_rc) (λ j i. cidr j (Memᴰ.tail i)))

  In-texts :
      (k : Subnet) (rc : RoutingConns)
      → IsCidr k
      → AllCidr rc
      → In (subnet_string text k) (keys (texts rc))
      → In k (keys rc)
  In-texts k [] ck cidr i = elim i [ ]
  In-texts k ((j, v) ∷ rc) ck cidr (Memᴰ.head e) =
      Memᴰ.head (subnet_string-injective k j ck (cidr j (Memᴰ.head refl)) e)
  In-texts k ((j, v) ∷ rc) ck cidr (Memᴰ.tail i) =
      Memᴰ.tail (In-texts k rc ck (λ j i. cidr j (Memᴰ.tail i)) i)

  Distinct-texts :
      (rc : RoutingConns) → AllCidr rc → Distinct (keys rc) → Distinct (keys (texts rc))
  Distinct-texts [] cidr d = tt
  Distinct-texts ((k, v) ∷ rc) cidr (new, d) =
      let later : AllCidr rc = λ j i. cidr j (Memᴰ.tail i) in
      (λ i. new (In-texts k rc (cidr k (Memᴰ.head refl)) later i), Distinct-texts rc later d)

  get-texts :
      (k : Subnet) (rc : RoutingConns)
      → IsCidr k
      → AllCidr rc
      → get (subnet_string text k) (texts rc) ≡ get k rc
  unfolding get
  get-texts k [] ck cidr = refl
  get-texts k ((j, v) ∷ rc) ck cidr =
      let cj = cidr j (Memᴰ.head refl) in
      let rest = get-texts k rc ck (λ i m. cidr i (Memᴰ.tail m)) in
      elim (==-cases j k) [
        | inl (t, e) ↦ rw (t, (bytes_eq.beq_iff _ _).1 (ap (subnet_string text) e)) refl
        | inr (t, ne) ↦ elim (==-cases (subnet_string text j) (subnet_string text k)) [
          | inl (_, e) ↦ absurd (ne (subnet_string-injective j k cj ck e))
          | inr (u, _) ↦ rw (t, u) rest
        ]
      ]

  -- A key of the texts is the text of a subnet.
  subnet_of_key :
      (s : Bytes) (rc : RoutingConns)
      → In s (keys (texts rc))
      → (k : Subnet) × In k (keys rc) × (s ≡ subnet_string text k)
  subnet_of_key s [] i = elim i [ ]
  subnet_of_key s ((k, v) ∷ rc) (Memᴰ.head e) = (k, Memᴰ.head refl, e)
  subnet_of_key s ((k, v) ∷ rc) (Memᴰ.tail i) =
      let (j, there, e) = subnet_of_key s rc i in (j, Memᴰ.tail there, e)

  abbrev Printed : GoMap Bytes Cost → Type 0
  Printed m = (s : Bytes) → In s (keys m) → (k : Subnet) × IsCidr k × (s ≡ subnet_string text k)

  -- A map whose keys are texts of CIDR subnets is the texts of connections.
  texts_of_map :
      (m : GoMap Bytes Cost) → Printed m → (rc : RoutingConns) × (texts rc ≡ m) × AllCidr rc
  texts_of_map [] p = ([], refl, λ k i. elim i [ ])
  texts_of_map ((s, v) ∷ m) p =
      let (k, ck, e) = p s (Memᴰ.head refl) in
      let (rc, same, cidr) = texts_of_map m (λ s i. p s (Memᴰ.tail i)) in
      (
        (k, v) ∷ rc,
        rw (same, e) refl,
        λ j i. elim ((In-cons j k (keys rc)).0 i) [
          | inl is_k ↦ rw is_k ck
          | inr there ↦ cidr j there
        ],
      )

  Distinct-of_texts : (rc : RoutingConns) → Distinct (keys (texts rc)) → Distinct (keys rc)
  Distinct-of_texts [] d = tt
  Distinct-of_texts ((k, v) ∷ rc) (new, d) = (λ i. new (text_in k rc i), Distinct-of_texts rc d)
    where
      text_in :
          (k : Subnet) (rc : RoutingConns)
          → In k (keys rc)
          → In (subnet_string text k) (keys (texts rc))
      text_in k [] i = elim i [ ]
      text_in k ((j, v) ∷ rc) (Memᴰ.head e) = Memᴰ.head (ap (subnet_string text) e)
      text_in k ((j, v) ∷ rc) (Memᴰ.tail i) = Memᴰ.tail (text_in k rc i)

  -- The connections that are read from a map with the texts of some connections, in any order.
  conns_of_same :
      (rc : RoutingConns) (m : GoMap Bytes Cost)
      → AllCidr rc
      → Distinct (keys m)
      → ((s : Bytes) → get s m ≡ get s (texts rc))
      → (rc' : RoutingConns) × (conns_of_text text m [] ≡ some rc')
        × Distinct (keys rc')
        × ((k : Subnet) → get k rc' ≡ get k rc)
  conns_of_same rc m cidr d same =
      let printed : Printed m = λ s i.
        let (v, g) = get-keys s m i in
        let (k, there, e) = subnet_of_key s rc (keys-get s v (texts rc) (sym (same s) ∙ g)) in
        (k, cidr k there, e) in
      let (rc', is_m, cidr') = texts_of_map m printed in
      let d' = Distinct-of_texts rc' (rw is_m d) in
      let on_cidr : (k : Subnet) → IsCidr k → get k rc' ≡ get k rc = λ k ck.
        sym (get-texts k rc' ck cidr')
        ∙ ap (get (subnet_string text k)) is_m
        ∙ same (subnet_string text k)
        ∙ get-texts k rc ck cidr in
      (
        rc',
        ap (λ m. conns_of_text text m []) (sym is_m)
            ∙ conns_of_text-texts rc' [] cidr'
            ∙ ap some (put_items-Distinct rc' d'),
        d',
        λ k. elim (Option-cases (get k rc')) [
          | inr (v, g) ↦ on_cidr k (cidr' k (keys-get k v rc' g))
          | inl absent ↦ elim (Option-cases (get k rc)) [
            | inl gone ↦ absent ∙ sym gone
            | inr (v, g) ↦ on_cidr k (cidr k (keys-get k v rc g))
          ]
        ],
      )

  -- Connections to CIDR subnets with finite costs have a JSON document, and what is read from it are
  -- the same connections, in an order of its own. Where one cost is infinite there is no document.
  pub unmarshal_conns-marshal :
      (rc : RoutingConns)
      → Distinct (keys rc)
      → ((k : Subnet) → In k (keys rc) → IsCidr k)
      → (((k : Subnet) (v : Cost) → get k rc ≡ some v → IsFinite v)
          → (json : text.Json) × (marshal_conns text rc ≡ some json)
            × ((rc' : RoutingConns) × (unmarshal_conns text json ≡ some rc')
                × Distinct (keys rc')
                × ((k : Subnet) → get k rc' ≡ get k rc)))
        × ((k : Subnet) (v : Cost)
            → get k rc ≡ some v
            → ¬ IsFinite v
            → marshal_conns text rc ≡ none)
  unfolding unmarshal_conns marshal_conns
  unmarshal_conns-marshal rc d cidr =
      let dt = Distinct-texts rc cidr d in
      let written : text_costs text rc [] ≡ texts rc =
        text_costs-texts rc [] ∙ put_items-Distinct (texts rc) dt in
      (
        λ finite.
            let (json, marshals, (m, reads, dm, same)) =
              text.unmarshal-marshal_costs (texts rc) dt ascii (finite_texts finite) in
            let (rc', e, d', all) = conns_of_same rc m cidr dm same in
            (
              json,
              ap text.marshal_costs written ∙ marshals,
              (rc', rw (reads, unmarshal_conns) e, d', all),
            ),
        λ k v g infinite.
            ap text.marshal_costs written
            ∙ text.marshal_costs-infinite (texts rc) (subnet_string text k) v
                (get-texts k rc (cidr k (keys-get k v rc g)) cidr ∙ g) infinite,
      )
    where
      ascii : (s : Bytes) → In s (keys (texts rc)) → IsAscii s
      ascii s i =
          let (k, there, e) = subnet_of_key s rc i in
          let ck = cidr k there in rw (e ∙ string_of_cidr k ck) (text.net_string-ascii k ck)

      finite_texts :
          ((k : Subnet) (v : Cost) → get k rc ≡ some v → IsFinite v)
          → (s : Bytes) (v : Cost) → get s (texts rc) ≡ some v
          → IsFinite v
      finite_texts finite s v g =
          let (k, there, e) = subnet_of_key s rc (keys-get s v (texts rc) g) in
          finite k v (sym (get-texts k rc (cidr k there) cidr) ∙ rw e at g)
