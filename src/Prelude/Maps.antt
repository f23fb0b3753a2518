-- ===== src/Prelude/Maps.antt =====
-- Go maps as association lists. The order of the list is the order in which `range` visits the
-- map; it is arbitrary, so a theorem over all lists is one over all orders.
use mathlib.Core.Path.{◌≡◌, refl, sym}
use mathlib.Core.Logic.{◌≢◌, ◌⊎◌, inl, inr}
use mathlib.Core.Option.{Option, none, some}
use mathlib.Core.List.{List, [], ◌∷◌}
use mathlib.Core.List.Memᴰ
use native.Mathlib.Omega.{arith}
use connectopus.Prelude.Tests.{Eq, ◌==◌, if◌then◌else◌, ==-cases}
use connectopus.Prelude.Lists.{In, In-cons, not-In-nil}

abbrev pub GoMap : Type 0 → Type 0 → Type 0
GoMap K V = List (K × V)

-- The keys of a map, in the order in which `range` visits them.
abbrev pub keys : {K V : Type 0} → GoMap K V → List K
keys [] = []
keys ((k, _) ∷ m) = k ∷ keys m

pair_parts : {K V : Type 0} (j k : K) (w v : V) → ◌≡◌ {A = K × V} (j, w) (k, v) → (j ≡ k) × (w ≡ v)
pair_parts j k w v p = (cc, cc)

pub In-cons_pair :
    {K V : Type 0} (j : K) (w : V) (k : K) (v : V) (m : GoMap K V)
    → In (j, w) ((k, v) ∷ m)
    → (j ≡ k) × (w ≡ v) ⊎ In (j, w) m
In-cons_pair {K} {V} j w k v m h = elim ((In-cons {A = K × V} (j, w) (k, v) m).0 h) [
  | inl p ↦ inl (pair_parts j k w v p)
  | inr r ↦ inr r
]

pub keys_of_In : {K V : Type 0} (k : K) (v : V) (m : GoMap K V) → In (k, v) m → In k (keys m)
keys_of_In k v [] h = absurd (not-In-nil (k, v) h)
keys_of_In k v ((j, w) ∷ m) h = elim (In-cons_pair k v j w m h) [
  | inl (p, q) ↦ Memᴰ.head p
  | inr r ↦ Memᴰ.tail (keys_of_In k v m r)
]

module _ {K : Type 0} {V : Type 0} ⦃e : Eq K⦄ where
  -- `v, ok := m[k]`
  unfoldable pub get : K → GoMap K V → Option V
  get k [] = none
  get k ((j, v) ∷ m) = if j == k then some v else get k m

  -- `m[k] = v`
  unfoldable pub put : K → V → GoMap K V → GoMap K V
  put k v [] = (k, v) ∷ []
  put k v ((j, w) ∷ m) = if j == k then (k, v) ∷ m else (j, w) ∷ put k v m

  -- `delete(m, k)`
  unfoldable pub del : K → GoMap K V → GoMap K V
  del k [] = []
  del k ((j, w) ∷ m) = let rest = del k m in if j == k then rest else (j, w) ∷ rest

  pub get-put :
      (k j : K) (v : V) (m : GoMap K V) → get j (put k v m) ≡ (if k == j then some v else get j m)
  unfolding get put
  get-put k j v [] = refl
  get-put k j v ((i, w) ∷ m) =
      ground (arith, e.beq_iff k j, e.beq_iff i k, e.beq_iff i j, get-put k j v m)

  pub get-put_self : (k : K) (v : V) (m : GoMap K V) → get k (put k v m) ≡ some v
  get-put_self k v m = ground (arith, get-put k k v m, e.beq_iff k k)

  pub get-put_ne : (k j : K) (v : V) (m : GoMap K V) → k ≢ j → get j (put k v m) ≡ get j m
  get-put_ne k j v m h = ground (arith, get-put k j v m, e.beq_iff k j)

  pub get-del : (k j : K) (m : GoMap K V) → get j (del k m) ≡ (if k == j then none else get j m)
  unfolding get del
  get-del k j [] = ground arith
  get-del k j ((i, w) ∷ m) =
      ground (arith, e.beq_iff k j, e.beq_iff i k, e.beq_iff i j, get-del k j m)

  pub get-del_self : (k : K) (m : GoMap K V) → get k (del k m) ≡ none
  get-del_self k m = ground (arith, get-del k k m, e.beq_iff k k)

  pub get-del_ne : (k j : K) (m : GoMap K V) → k ≢ j → get j (del k m) ≡ get j m
  get-del_ne k j m h = ground (arith, get-del k j m, e.beq_iff k j)

  pub In-get : (k : K) (v : V) (m : GoMap K V) → get k m ≡ some v → In (k, v) m
  unfolding get
  In-get k v [] h = cc
  In-get k v ((j, w) ∷ m) h = elim (==-cases j k) [
    | inl (t, p) ↦ Memᴰ.head (ground (arith, e.beq_iff j k))
    | inr (t, p) ↦ Memᴰ.tail (In-get k v m (rw t at h))
  ]

  pub In-put :
      (j k : K) (w v : V) (m : GoMap K V) → In (j, w) (put k v m) → (j ≡ k) × (w ≡ v) ⊎ In (j, w) m
  unfolding put
  In-put j k w v [] h = elim ((In-cons {A = K × V} (j, w) (k, v) []).0 h) [
    | inl p ↦ inl (pair_parts j k w v p)
    | inr r ↦ absurd (not-In-nil (j, w) r)
  ]
  In-put j k w v ((i, x) ∷ m) h = elim (==-cases i k) [
    | inl (t, p) ↦ elim ((In-cons {A = K × V} (j, w) (k, v) m).0 (rw (t, put) at h)) [
      | inl q ↦ inl (pair_parts j k w v q)
      | inr r ↦ inr (Memᴰ.tail r)
    ]
    | inr (t, p) ↦ elim ((In-cons {A = K × V} (j, w) (i, x) (put k v m)).0 (rw (t, put) at h)) [
      | inl q ↦ inr (Memᴰ.head q)
      | inr r ↦ elim (In-put j k w v m r) [
        | inl same ↦ inl same
        | inr later ↦ inr (Memᴰ.tail later)
      ]
    ]
  ]

  pub keys-put :
      (j k : K) (v : V) (m : GoMap K V) → In j (keys (put k v m)) → (j ≡ k) ⊎ In j (keys m)
  unfolding put
  keys-put j k v [] h = elim ((In-cons j k []).0 h) [
    | inl p ↦ inl p
    | inr r ↦ absurd (not-In-nil j r)
  ]
  keys-put j k v ((i, x) ∷ m) h = elim (==-cases i k) [
    | inl (t, p) ↦ elim ((In-cons j k (keys m)).0 (rw (t, put) at h)) [
      | inl q ↦ inl q
      | inr r ↦ inr (Memᴰ.tail r)
    ]
    | inr (t, p) ↦ elim ((In-cons j i (keys (put k v m))).0 (rw (t, put) at h)) [
      | inl q ↦ inr (Memᴰ.head q)
      | inr r ↦ elim (keys-put j k v m r) [
        | inl same ↦ inl same
        | inr later ↦ inr (Memᴰ.tail later)
      ]
    ]
  ]

  pub keys-get : (k : K) (v : V) (m : GoMap K V) → get k m ≡ some v → In k (keys m)
  unfolding get
  keys-get k v [] h = cc
  keys-get k v ((j, w) ∷ m) h = elim (==-cases j k) [
    | inl (t, p) ↦ Memᴰ.head (sym p)
    | inr (t, p) ↦ Memᴰ.tail (keys-get k v m (rw t at h))
  ]

  pub get-keys : (k : K) (m : GoMap K V) → In k (keys m) → (v : V) × (get k m ≡ some v)
  unfolding get
  get-keys k [] h = absurd (not-In-nil k h)
  get-keys k ((j, w) ∷ m) h = elim (==-cases j k) [
    | inl (t, p) ↦ (w, rw t)
    | inr (t, p) ↦ elim ((In-cons k j (keys m)).0 h) [
      | inl q ↦ absurd (p (sym q))
      | inr r ↦ rw t (get-keys k m r)
    ]
  ]

-- `update f k v` is the map `f` (read with a default) after `f[k] = v`.
module _ {K : Type 0} {V : Type 0} ⦃e : Eq K⦄ where
  unfoldable pub update : (K → V) → K → V → K → V
  update f k v j = if k == j then v else f j

  pub update_self : (f : K → V) (k : K) (v : V) → update f k v k ≡ v
  unfolding update
  update_self f k v = ground (arith, e.beq_iff k k)

  pub update_ne : (f : K → V) (k j : K) (v : V) → k ≢ j → update f k v j ≡ f j
  unfolding update
  update_ne f k j v h = ground (arith, e.beq_iff k j)
