-- ===== src/Router/Samples.antt =====
-- A mesh of two nodes, an adder and a queue: the data of the tests.
use Prim.Native.Nat.{suc}
use connectopus.Prelude.{
  ℕ, ◌+◌, ◌-◌, ◌≤◌, ◌<◌, ◌≡◌, refl, ◌⊎◌, inl, inr, Option, none, some, List, [], ◌∷◌, bytes_eq,
  ◌==◌, leb, if◌then◌else◌, length, keys, In, In-cons, In-cons_pair, not-In-nil, ==-cases, arith,
}
use mathlib.Core.List.Memᴰ
use connectopus.Proto.Ip.{Ip, is_v4_in_v6, is_zeros}
use connectopus.Proto.Subnet.{Subnet, new_host_only_subnet}
use connectopus.Proto.Subnet.Contains.{IsIpv6}
use connectopus.Proto.Subnet.Cidr.{IsCidr, host_only-IsCidr}
use connectopus.Router.Float.{Cost, zero_cost, one_cost, Adder}
use connectopus.Router.Queue.{Queue}
use connectopus.Router.Graph.{RoutingConns, RoutingNodes}
use connectopus.Router.Graph.Links.{IsNetwork}
use connectopus.Router.Delivers.{IsMesh}

-- Addition without rounding, on the codes.
abbrev pub plain_add : Cost → Cost → Cost
plain_add a e = if leb zero_cost e then a + (e - zero_cost) else e

pub plain_adder : Adder
plain_adder = record {
  add = plain_add;
  add_grows = λ a e ha he. ground arith;
  add_mono = λ a b e ha he h. ground arith;
  add_zero_left = λ e. ground arith;
}

-- A queue that hands out what came last.
abbrev insert_new : Ip → List Ip → List Ip
insert_new v [] = v ∷ []
insert_new v (x ∷ q) = let rest = insert_new v q in if x == v then x ∷ q else x ∷ rest

insert_new-In : (v : Ip) (q : List Ip) → In v (insert_new v q)
insert_new-In v [] = Memᴰ.head refl
insert_new-In v (x ∷ q) = elim (==-cases x v) [
  | inl (t, p) ↦ rw t (Memᴰ.head (rw p refl))
  | inr (t, p) ↦ rw t (Memᴰ.tail (insert_new-In v q))
]

insert_new-keeps : (x v : Ip) (q : List Ip) → In x q → In x (insert_new v q)
insert_new-keeps x v [] m = absurd (not-In-nil x m)
insert_new-keeps x v (y ∷ q) m = elim (==-cases y v) [
  | inl (t, p) ↦ rw t m
  | inr (t, p) ↦ elim ((In-cons x y q).0 m) [
    | inl now ↦ rw t (Memᴰ.head now)
    | inr later ↦ rw t (Memᴰ.tail (insert_new-keeps x v q later))
  ]
]

length-insert_new : (v : Ip) (q : List Ip) → length (insert_new v q) ≤ suc (length q)
length-insert_new v [] = omega arith
length-insert_new v (x ∷ q) = ground (arith, length-insert_new v q)

abbrev pop_first : List Ip → Option (Ip × List Ip)
pop_first [] = none
pop_first (x ∷ q) = some (x, q)

pop_first-empty : (x : Ip) (q : List Ip) → pop_first q ≡ none → In x q → ⊥
pop_first-empty x [] e m = not-In-nil x m
pop_first-empty x (y ∷ q) e m = cc

pop_first-keeps :
    (x v : Ip) (q q' : List Ip) → pop_first q ≡ some (v, q') → In x q → (x ≡ v) ⊎ In x q'
pop_first-keeps x v [] q' e m = cc
pop_first-keeps x v (y ∷ q) q' e m = elim ((In-cons x y q).0 m) [
  | inl now ↦ inl (cc)
  | inr later ↦ let same : q ≡ q' = cc in inr (rw (← same) later)
]

pop_first-length :
    (v : Ip) (q q' : List Ip) → pop_first q ≡ some (v, q') → length q ≡ suc (length q')
pop_first-length v [] q' e = cc
pop_first-length v (y ∷ q) q' e = cc

pub list_queue : Queue
list_queue = record {
  Q = List Ip;
  new = [];
  insert = λ v p q. insert_new v q;
  pop = pop_first;
  len = length;
  Holds = In;
  insert_holds = λ v p q. insert_new-In v q;
  insert_keeps = λ x v p q h. insert_new-keeps x v q h;
  insert_len = λ v p q. length-insert_new v q;
  pop_empty = pop_first-empty;
  pop_keeps = pop_first-keeps;
  pop_len = pop_first-length;
}

abbrev pub ip : ℕ → Ip
ip n = 253 ∷ 0 ∷ 0 ∷ 0 ∷ 0 ∷ 0 ∷ 0 ∷ 0 ∷ 0 ∷ 0 ∷ 0 ∷ 0 ∷ 0 ∷ 0 ∷ 0 ∷ n ∷ []

pub ip-IsIpv6 : (n : ℕ) → n < 256 → IsIpv6 (ip n)
unfolding is_v4_in_v6 is_zeros
ip-IsIpv6 n h = record { len = refl; native = ground arith; bytes = ground arith }

-- fd00::1 and fd00::2, connected to each other at cost 1.0
abbrev pub conns_to : ℕ → RoutingConns
conns_to n = (new_host_only_subnet (ip n), one_cost) ∷ []

abbrev pub two_nodes : RoutingNodes
two_nodes = (ip 1, conns_to 2) ∷ (ip 2, conns_to 1) ∷ []

-- A property of both nodes.
both :
    (P : Ip → RoutingConns → Type 0)
    → P (ip 1) (conns_to 2)
    → P (ip 2) (conns_to 1)
    → (v : Ip) (conns : RoutingConns) → In (v, conns) two_nodes
    → P v conns
both P p q v conns m = elim (In-cons_pair v conns (ip 1) (conns_to 2) ((ip 2, conns_to 1) ∷ []) m) [
  | inl (e, f) ↦ rw (e, f) p
  | inr later ↦ elim (In-cons_pair v conns (ip 2) (conns_to 1) [] later) [
    | inl (e, f) ↦ rw (e, f) q
    | inr rest ↦ absurd (not-In-nil (v, conns) rest)
  ]
]

node_cases : (v : Ip) → In v (keys two_nodes) → (v ≡ ip 1) ⊎ (v ≡ ip 2)
node_cases v m = elim ((In-cons v (ip 1) (ip 2 ∷ [])).0 m) [
  | inl e ↦ inl e
  | inr later ↦ elim ((In-cons v (ip 2) []).0 later) [
    | inl e ↦ inr e
    | inr rest ↦ absurd (not-In-nil v rest)
  ]
]

only_conn :
    (n : ℕ) (k : Subnet) (c : Cost)
    → In (k, c) (conns_to n)
    → (k ≡ new_host_only_subnet (ip n)) × (c ≡ one_cost)
only_conn n k c m = elim (In-cons_pair k c (new_host_only_subnet (ip n)) one_cost [] m) [
  | inl e ↦ e
  | inr rest ↦ absurd (not-In-nil (k, c) rest)
]

only_key : (n : ℕ) (k : Subnet) → n < 256 → In k (keys (conns_to n)) → IsCidr k
only_key n k h m = elim ((In-cons k (new_host_only_subnet (ip n)) []).0 m) [
  | inl e ↦ rw e (host_only-IsCidr (ip n) (ip-IsIpv6 n h))
  | inr rest ↦ absurd (not-In-nil k rest)
]

pub two_nodes-IsNetwork : IsNetwork two_nodes
two_nodes-IsNetwork = record {
  address = λ v m. elim (node_cases v m) [ inl e ↦ rw e refl | inr e ↦ rw e refl ];
  cost = λ v conns k c m i.
      both (λ _ cs. (j : Subnet) (d : Cost) → In (j, d) cs → zero_cost ≤ d)
        (λ j d x. rw ((only_conn 2 j d x).1) (omega arith))
        (λ j d x. rw ((only_conn 1 j d x).1) (omega arith)) v conns m k c i;
}

pub two_nodes-IsMesh : IsMesh two_nodes
two_nodes-IsMesh = record {
  network = two_nodes-IsNetwork;
  address = λ v m. elim (node_cases v m) [
    | inl e ↦ rw e (ip-IsIpv6 1 (omega arith))
    | inr e ↦ rw e (ip-IsIpv6 2 (omega arith))
  ];
  announced = λ v conns k m i.
      both (λ _ cs. (j : Subnet) → In j (keys cs) → IsCidr j) (λ j x. only_key 2 j (omega arith) x)
        (λ j x. only_key 1 j (omega arith) x) v conns m k i;
}
