-- ===== src/Dns/Tests.antt =====
-- A name server of the domain "x", whose every text parses to one address.
use connectopus.Prelude.{
  ℕ, ◌<◌, ◌≡◌, ◌≢◌, refl, inl, inr, true, false, [], ◌∷◌, ◌++◌, List, Bytes, length, replicate,
  In-cons_pair, not-In-nil, zero, suc, arith,
}
use connectopus.Proto.Ip.{parse_ip, is_v4_in_v6}
use connectopus.Netopus.Node.{Netopus}
use connectopus.Netopus.Names.Lookup.{NoNode}
use connectopus.Netopus.Names.{add_external_name, del_external_name, lookup_name}
use connectopus.Router.Samples.{ip}
use connectopus.Netopus.Samples.{known_two, informed}
use connectopus.Dns.{
  dot, query_name, Question, aaaa, ptr, aaaa_rr, ptr_rr, Server, name_handler, reverse_handler,
}
use connectopus.Dns.Names.{full_name, server_of, name_handler-external_name}
use connectopus.Dns.Reverse.{Quad, NoDots, reverse_name, reverse_handler-name}

abbrev server : Server
server = record {
  domain = 120 ∷ [];
  lookup_name = λ name. [];
  lookup_ip = λ ip. 110 ∷ [];
  net_parse_ip = λ text. 9 ∷ [];
  new_rr = λ rr. true;
}

abbrev zeros : Quad
zeros = record { a = 48; b = 48; c = 48; d = 48 }

abbrev address : List Quad
address = zeros ∷ zeros ∷ zeros ∷ zeros ∷ zeros ∷ zeros ∷ zeros ∷ zeros ∷ []

zero_dot : 48 ≢ dot
zero_dot e = absurd (omega arith)

clean_zeros : (n : ℕ) → NoDots (replicate n 48)
clean_zeros zero = tt
clean_zeros (suc n) = (zero_dot, clean_zeros n)

reverse_handler-name_example :
    let name : Bytes = 110 ∷ [] in
    let rr = ptr_rr (reverse_name address) (name ++ (dot ∷ 120 ∷ []) ++ (dot ∷ [])) in
    let question : List Question = record { name = reverse_name address; qtype = ptr } ∷ [] in
    (name ≡ []
      → reverse_handler server true question
        ≡ record { answer = []; authoritative = false; name_error = true })
    × (0 < length name
        → true ≡ true
        → reverse_handler server true question
          ≡ record { answer = rr ∷ []; authoritative = true; name_error = false })
unfolding parse_ip is_v4_in_v6
reverse_handler-name_example =
    reverse_handler-name server address refl (clean_zeros 32) (omega arith)

free : NoNode (7 ∷ []) informed
free = (
  λ e. cc,
  λ k ni m e. elim (In-cons_pair k ni (ip 2) known_two [] m) [
    | inl (_, q) ↦ let name : 2 ∷ [] ≡ 7 ∷ [] = rw q at e in cc
    | inr rest ↦ not-In-nil (k, ni) rest
  ],
)

abbrev seven : Bytes
seven = 7 ∷ []

name_handler-external_name_example :
    let question : List Question =
      record { name = full_name seven server.domain; qtype = aaaa } ∷ [] in
    let at_node : Netopus → Server =
      λ n. server_of server.domain n server.lookup_ip server.net_parse_ip server.new_rr in
    (name_handler (at_node (add_external_name seven (ip 8) informed)) true question ≡ record {
      answer = aaaa_rr (full_name seven server.domain) (ip 8) ∷ [];
      authoritative = true;
      name_error = false;
    })
    × (name_handler (at_node (del_external_name seven informed)) true question
        ≡ record { answer = []; authoritative = false; name_error = true })
    × ((other : Bytes)
        → other ≢ seven
        → (at_node (add_external_name seven (ip 8) informed)).lookup_name
            (query_name server.domain (full_name other server.domain))
          ≡ lookup_name other informed)
name_handler-external_name_example =
    name_handler-external_name server seven (ip 8) informed free (omega arith) refl
