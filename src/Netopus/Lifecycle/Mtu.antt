-- ===== src/Netopus/Lifecycle/Mtu.antt =====
-- The MTU that a node takes from its backends.
use connectopus.Prelude.{
  ℕ, ◌≤◌, ◌<◌, ◌≡◌, refl, sym, ap, ◌∙◌, ◌⊎◌, inl, inr, false, none, some, List, [], ◌∷◌, Bytes,
  nat_eq, ◌==◌, Bool-cases, Option-cases, some-injective, ltb, ltb→lt, ltb→le, In, if◌then◌else◌,
  arith,
}
use mathlib.Core.List.Memᴰ
use connectopus.Backends.Registry.{Backends, BackendSpec, lookup_backend}
use connectopus.Netopus.Lifecycle.{least_of, least_mtu}

module _ {R : Type 0} (backends : Backends R) where
  -- One of the types is registered with that MTU.
  abbrev pub HasMtu : List Bytes → ℕ → Type 0
  HasMtu types mtu =
      (t : Bytes) × (spec : BackendSpec R) × In t types
      × (lookup_backend t backends ≡ some spec)
      × (spec.mtu ≡ mtu)

  later : {t : Bytes} {types : List Bytes} {m : ℕ} → HasMtu types m → HasMtu (t ∷ types) m
  later (t, spec, i, e, m) = (t, spec, Memᴰ.tail i, e, m)

  -- What LeastMTU has seen of the types, from the MTU that it starts with.
  record Least (types : List Bytes) (start least : ℕ) : Type 0 where
    pub below : least ≤ start
    pub taken : (least ≡ start) ⊎ HasMtu types least
    pub least_of_all : (m : ℕ) → HasMtu types m → least ≤ m

  step :
      (t : Bytes) (types : List Bytes) (mtu : ℕ) (spec : BackendSpec R) (least : ℕ)
      → lookup_backend t backends ≡ some spec
      → Least types (if ltb spec.mtu mtu then spec.mtu else mtu) least
      → Least (t ∷ types) mtu least
  step t types mtu spec least e l = elim (Bool-cases (ltb spec.mtu mtu)) [
    | inl smaller ↦
        let lt = ltb→lt _ _ smaller in
        let l' : Least types spec.mtu least = rw smaller at l in
        record {
          below = let b = l'.below in omega arith;
          taken = elim l'.taken [
            | inl same ↦ inr (t, spec, Memᴰ.head refl, e, sym same)
            | inr has ↦ inr (later has)
          ];
          least_of_all = all (let b = l'.below in omega arith) l'.least_of_all;
        }
    | inr larger ↦
        let ge = ltb→le _ _ larger in
        let l' : Least types mtu least = rw larger at l in
        record {
          below = l'.below;
          taken = elim l'.taken [ inl same ↦ inl same | inr has ↦ inr (later has) ];
          least_of_all = all (let b = l'.below in omega arith) l'.least_of_all;
        }
  ]
    where
      all :
          least ≤ spec.mtu
          → ((m : ℕ) → HasMtu types m → least ≤ m)
          → (m : ℕ) → HasMtu (t ∷ types) m
          → least ≤ m
      all le rest m (t', spec', Memᴰ.head is, e', s) =
          let same : some spec ≡ some spec' = sym e ∙ (rw (sym is) e') in
          let is_m : spec.mtu ≡ m = ap (λ s. s.mtu) (some-injective same) ∙ s in omega arith
      all le rest m (t', spec', Memᴰ.tail i, e', s) = rest m (t', spec', i, e', s)

  least_of_lem : (types : List Bytes) (mtu : ℕ) → Least types mtu (least_of backends types mtu)
  unfolding least_of
  least_of_lem [] mtu = record {
    below = omega arith;
    taken = inl refl;
    least_of_all = λ m h. elim h.2 [ ];
  }
  least_of_lem (t ∷ types) mtu = elim (Option-cases (lookup_backend t backends)) [
    | inl unknown ↦
        let l : Least types mtu (least_of backends types mtu) = least_of_lem types mtu in
        rw unknown (record {
          below = l.below;
          taken = elim l.taken [ inl same ↦ inl same | inr has ↦ inr (later has) ];
          least_of_all = skipped unknown l.least_of_all;
        })
    | inr (spec, known) ↦
        step t types mtu spec _ known
          (rw known (least_of_lem types (if ltb spec.mtu mtu then spec.mtu else mtu)))
  ]
    where
      skipped :
          {least : ℕ}
          → lookup_backend t backends ≡ none
          → ((m : ℕ) → HasMtu types m → least ≤ m)
          → (m : ℕ) → HasMtu (t ∷ types) m
          → least ≤ m
      skipped unknown rest m (t', spec, Memᴰ.head is, e, s) =
          absurd (let clash : none ≡ some spec = sym unknown ∙ (rw (sym is) e) in cc)
      skipped unknown rest m (t', spec, Memᴰ.tail i, e, s) = rest m (t', spec, i, e, s)

  -- LeastMTU returns the default where no backend of the node has a registered type; where one has,
  -- with an MTU below 65535, it returns the MTU of a registered type of the node, and the least one.
  pub least_mtu_lem :
      (types : List Bytes) (default : ℕ)
      → (((m : ℕ) → ¬ HasMtu types m) → least_mtu backends types default ≡ default)
        × ((m : ℕ)
            → HasMtu types m
            → m < 65535
            → (least_mtu backends types default ≤ m)
              × HasMtu types (least_mtu backends types default))
  unfolding least_mtu
  least_mtu_lem types default =
      let l = least_of_lem types 65535 in
      (
        λ unregistered. elim l.taken [
          | inl same ↦ rw same refl
          | inr has ↦ absurd (unregistered _ has)
        ],
        λ m has lt.
            let le = l.least_of_all m has in
            let found : (least_of backends types 65535 == 65535) ≡ false = ground arith in
            elim l.taken [ inl same ↦ absurd (omega arith) | inr has' ↦ rw found (le, has') ],
      )
