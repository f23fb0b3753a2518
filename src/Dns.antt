-- ===== src/Dns.antt =====
-- pkg/dns/dns.go: the answers of the name server. The package miekg/dns is known by what the handlers
-- read and set of its Msg; whether its NewRR accepts the text of a record is the argument `new_rr`.
pub mod Names
pub mod Reverse
mod Tests
use connectopus.Prelude.{
  ℕ, ◌*◌, ◌%◌, Bool, true, false, not, ◌&&◌, Option, none, some, List, [], ◌∷◌, ◌++◌, Bytes, nat_eq,
  bytes_eq, ◌==◌, ltb, if◌then◌else◌, length,
}
use connectopus.Proto.Ip.{Ip, parse_ip}

-- strings.TrimSuffix
unfoldable pub trim_suffix : Bytes → Bytes → Bytes
trim_suffix [] suffix = []
trim_suffix (c ∷ s) suffix =
    let rest = trim_suffix s suffix in if (c ∷ s) == suffix then [] else c ∷ rest

-- '.' and ':'
abbrev pub dot : ℕ
dot = 46

abbrev pub colon : ℕ
colon = 58

-- ".ip6.arpa"
abbrev pub arpa : Bytes
arpa = 46 ∷ 105 ∷ 112 ∷ 54 ∷ 46 ∷ 97 ∷ 114 ∷ 112 ∷ 97 ∷ []

-- One byte more in the first part.
abbrev pub push : ℕ → List Bytes → List Bytes
push c [] = (c ∷ []) ∷ []
push c (p ∷ parts) = (c ∷ p) ∷ parts

-- strings.Split with "."
unfoldable pub split : Bytes → List Bytes
split [] = [] ∷ []
split (c ∷ s) = let rest = split s in if c == dot then [] ∷ rest else push c rest

-- The record types, as far as the handlers tell them apart.
pub data Qtype : Type 0 where
  aaaa ptr other : Qtype

pub record Question : Type 0 where
  pub name : Bytes
  pub qtype : Qtype

pub data Rr : Type 0 where
  aaaa_rr : (name : Bytes) → (ip : Ip) → Rr
  ptr_rr : (name target : Bytes) → Rr

-- The answer, SetReply having copied the question and cleared the rest.
pub record Reply : Type 0 where
  pub answer : List Rr
  pub authoritative : Bool
  -- SetRcode with RcodeNameError
  pub name_error : Bool

abbrev pub empty_reply : Reply
empty_reply = record { answer = []; authoritative = false; name_error = false }

-- m.Answer = append(m.Answer, rr) and m.Authoritative = true, where NewRR gives no error
abbrev pub answered : Bool → Rr → Reply → Reply
answered true rr m = record m { answer = m.answer ++ (rr ∷ []); authoritative = true }
answered false rr m = m

-- Server, with what its functions do; net.ParseIP reads text, nil being [].
pub record Server : Type 0 where
  pub domain : Bytes
  pub lookup_name : Bytes → Ip
  pub lookup_ip : Ip → Bytes
  pub net_parse_ip : Bytes → Bytes
  pub new_rr : Rr → Bool

-- The name that is looked up for a question
unfoldable pub query_name : Bytes → Bytes → Bytes
unfolding trim_suffix
query_name domain name = trim_suffix (trim_suffix (trim_suffix name (dot ∷ [])) domain) (dot ∷ [])

-- The loop over the parts from parts[31] down: the address as text, none being not good.
unfoldable pub forward_addr : List Bytes → Option Bytes
forward_addr [] = some []
forward_addr (p ∷ parts) =
    let i = length parts in
    let rest = forward_addr parts in
    if not (length p == 1) then none else (elim rest [
      | none ↦ none
      | some text ↦ some (p ++ (if i % 4 == 0 && not (i == 0) then colon ∷ text else text))
    ])

-- The elements from the last to the first, before others.
unfoldable pub rev {ℓ} : {A : Type ℓ} → List A → List A → List A
rev [] acc = acc
rev (p ∷ parts) acc = rev parts (p ∷ acc)

-- The text that goes to ParseIP, none being not good.
unfoldable pub reverse_text : Bytes → Option Bytes
unfolding trim_suffix split forward_addr rev
reverse_text name =
    let parts = split (trim_suffix (trim_suffix name (dot ∷ [])) arpa) in
    if length parts == 32 then forward_addr (rev parts []) else some []

module _ (s : Server) where
  -- The loop of the domain's handler over the questions
  unfoldable pub answer_names : List Question → Reply → Reply
  unfolding query_name
  answer_names [] m = m
  answer_names (q ∷ questions) m = answer_names questions (elim q.qtype [
    | aaaa ↦
        (let ip = s.lookup_name (query_name s.domain q.name) in
          if ltb 0 (length ip)
          then answered (s.new_rr (aaaa_rr q.name ip)) (aaaa_rr q.name ip) m
          else record m { name_error = true })
    | ptr ↦ m
    | other ↦ m
  ])

  -- The reply to a reverse question, with the address that its name stands for
  unfoldable pub answer_ip : Bytes → Ip → Reply → Reply
  answer_ip qname ip m =
      if length ip == 0
      then m
      else (let name = s.lookup_ip ip in
          let rr = ptr_rr qname (name ++ (dot ∷ s.domain) ++ (dot ∷ [])) in
          if ltb 0 (length name)
          then answered (s.new_rr rr) rr m
          else record m { name_error = true })

  -- The address of the question's name; var ip is "" where it is not good.
  unfoldable pub reverse_ip : Bytes → Ip
  unfolding reverse_text parse_ip
  reverse_ip name = elim (reverse_text name) [
    | none ↦ []
    | some text ↦ parse_ip s.net_parse_ip text
  ]

  -- The loop of the ip6.arpa handler over the questions
  unfoldable pub answer_ips : List Question → Reply → Reply
  unfolding answer_ip reverse_ip
  answer_ips [] m = m
  answer_ips (q ∷ questions) m =
      answer_ips questions
        (elim q.qtype [ ptr ↦ answer_ip q.name (reverse_ip q.name) m | aaaa ↦ m | other ↦ m ])

  -- The two handlers; `is_query` is whether the opcode is OpcodeQuery.
  unfoldable pub name_handler : Bool → List Question → Reply
  unfolding answer_names
  name_handler is_query questions =
      if is_query then answer_names questions empty_reply else empty_reply

  unfoldable pub reverse_handler : Bool → List Question → Reply
  unfolding answer_ips
  reverse_handler is_query questions =
      if is_query then answer_ips questions empty_reply else empty_reply
