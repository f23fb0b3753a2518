-- ===== src/Dns/Names.antt =====
-- Questions for the address of a name in the domain.
use connectopus.Prelude.{
  ◌≡◌, ◌≢◌, refl, ap, ◌∙◌, inl, inr, Bool, true, false, List, [], ◌∷◌, ◌++◌, Bytes, bytes_eq,
  ==-cases, ==-refl, ltb, lt→ltb, ◌<◌, length, length-append, arith,
}
use connectopus.Proto.Ip.{Ip}
use connectopus.Netopus.Node.{Netopus}
use connectopus.Netopus.Names.{add_external_name, del_external_name, lookup_name}
use connectopus.Netopus.Names.Lookup.{NoNode, lookup_name-external}
use connectopus.Dns.{
  trim_suffix, dot, query_name, Question, aaaa, Rr, aaaa_rr, Server, answer_names, name_handler,
}

pub trim_suffix-append : (s suffix : Bytes) → trim_suffix (s ++ suffix) suffix ≡ s
unfolding trim_suffix
trim_suffix-append [] [] = refl
trim_suffix-append [] (c ∷ suffix) = rw (==-refl (c ∷ suffix)) refl
trim_suffix-append (c ∷ s) suffix = elim (==-cases (c ∷ (s ++ suffix)) suffix) [
  | inl (_, e) ↦
      let more = length-append s suffix in
      let same : length (c ∷ (s ++ suffix)) ≡ length suffix = ap length e in absurd (omega arith)
  | inr (t, _) ↦ rw t (ap (λ r. c ∷ r) (trim_suffix-append s suffix))
]

-- name.domain. with its dots
abbrev pub full_name : Bytes → Bytes → Bytes
full_name name domain = ((name ++ (dot ∷ [])) ++ domain) ++ (dot ∷ [])

query_name-full : (name domain : Bytes) → query_name domain (full_name name domain) ≡ name
unfolding query_name
query_name-full name domain =
    rw
      (
        trim_suffix-append ((name ++ (dot ∷ [])) ++ domain) (dot ∷ []),
        trim_suffix-append (name ++ (dot ∷ [])) domain,
      )
      (trim_suffix-append name (dot ∷ []))

-- The name server of a node, whose lookups are the node's.
abbrev pub server_of : Bytes → Netopus → (Ip → Bytes) → (Bytes → Bytes) → (Rr → Bool) → Server
server_of domain n lookup_ip net_parse_ip new_rr = record {
  domain = domain;
  lookup_name = λ name. lookup_name name n;
  lookup_ip = lookup_ip;
  net_parse_ip = net_parse_ip;
  new_rr = new_rr;
}

one_question :
    (s : Server) (name : Bytes) (ip : Ip)
    → s.lookup_name name ≡ ip
    → (0 < length ip
        → s.new_rr (aaaa_rr (full_name name s.domain) ip) ≡ true
        → name_handler s true (record { name = full_name name s.domain; qtype = aaaa } ∷ [])
          ≡ record {
            answer = aaaa_rr (full_name name s.domain) ip ∷ [];
            authoritative = true;
            name_error = false;
          })
      × (ip ≡ []
          → name_handler s true (record { name = full_name name s.domain; qtype = aaaa } ∷ [])
            ≡ record { answer = []; authoritative = false; name_error = true })
unfolding name_handler answer_names
one_question s name ip found =
    let trimmed = query_name-full name s.domain in
    (
      λ some_bytes parses.
          let there : ltb 0 (length ip) ≡ true = lt→ltb _ _ some_bytes in
          rw (trimmed, found, there, parses) refl,
      λ empty. rw (trimmed, found, empty) refl,
    )

-- The name server answers name.domain. with the address of a name that was added to the node, by
-- one AAAA record and with authority, and with a name error once it is deleted, where no node has
-- the name; other names of the domain are looked up as before.
pub name_handler-external_name :
    (s : Server) (name : Bytes) (ip : Ip) (n : Netopus)
    → NoNode name n
    → 0 < length ip
    → s.new_rr (aaaa_rr (full_name name s.domain) ip) ≡ true
    → (let question : List Question =
          record { name = full_name name s.domain; qtype = aaaa } ∷ [] in
        let server : Netopus → Server =
          λ n. server_of s.domain n s.lookup_ip s.net_parse_ip s.new_rr in
        (name_handler (server (add_external_name name ip n)) true question ≡ record {
          answer = aaaa_rr (full_name name s.domain) ip ∷ [];
          authoritative = true;
          name_error = false;
        })
        × (name_handler (server (del_external_name name n)) true question
            ≡ record { answer = []; authoritative = false; name_error = true })
        × ((other : Bytes)
            → other ≢ name
            → (server (add_external_name name ip n)).lookup_name
                (query_name s.domain (full_name other s.domain))
              ≡ lookup_name other n))
name_handler-external_name s name ip n free some_bytes parses =
    let (added, deleted, others) = lookup_name-external name ip n free in
    let server : Netopus → Server = λ n. server_of s.domain n s.lookup_ip s.net_parse_ip s.new_rr in
    (
      (one_question (server (add_external_name name ip n)) name ip added).0 some_bytes parses,
      (one_question (server (del_external_name name n)) name [] deleted).1 refl,
      λ other ne.
          ap (λ q. lookup_name q (add_external_name name ip n)) (query_name-full other s.domain)
          ∙ (others other ne).0,
    )
