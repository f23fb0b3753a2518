-- ===== src/Prelude/Keys.antt =====
-- Maps with distinct keys, as Go maps have, and their equality.
use Prim.Native.Nat.{suc, ◌≤◌, ◌<◌}
use mathlib.Core.Path.{◌≡◌, refl, ap, sym, ◌∙◌}
use mathlib.Core.Logic.{◌≢◌, inl, inr}
use mathlib.Core.Bool.{Bool, true, false, ◌&&◌}
use mathlib.Core.Option.{Option, none, some}
use mathlib.Core.List.{List, [], ◌∷◌, ◌++◌}
use native.Mathlib.Omega.{arith}
use connectopus.Prelude.Tests.{
  Eq, ◌==◌, ==-refl, nat_eq, nat_beq_iff, if◌then◌else◌, ==-cases, Option-cases,
}
use connectopus.Prelude.Lists.{length, In, In-cons, not-In-nil}
use connectopus.Prelude.Maps.{
  GoMap, get, put, get-put_self, get-put_ne, keys, keys-put, keys-get, get-keys, In-cons_pair,
  keys_of_In,
}

abbrev pub Distinct : {K : Type 0} → List K → Type 0
Distinct [] = Unit
Distinct (x ∷ xs) = (In x xs → ⊥) × Distinct xs

module _ {K : Type 0} ⦃e : Eq K⦄ where
  unfoldable pub remove : K → List K → List K
  remove v [] = []
  remove v (x ∷ xs) = let rest = remove v xs in if v == x then rest else x ∷ rest

  length-remove_le : (v : K) (xs : List K) → length (remove v xs) ≤ length xs
  unfolding remove
  length-remove_le v [] = omega arith
  length-remove_le v (x ∷ xs) = ground (arith, length-remove_le v xs)

  pub length-remove_lt : (v : K) (xs : List K) → In v xs → length (remove v xs) < length xs
  unfolding remove
  length-remove_lt v [] m = absurd (not-In-nil v m)
  length-remove_lt v (x ∷ xs) m = elim (==-cases v x) [
    | inl (t, p) ↦ rw t (omega (arith, length-remove_le v xs))
    | inr (t, p) ↦ elim ((In-cons v x xs).0 m) [
      | inl now ↦ absurd (p now)
      | inr later ↦ rw t (omega (arith, length-remove_lt v xs later))
    ]
  ]

  pub In-remove : (v x : K) (xs : List K) → v ≢ x → In x xs → In x (remove v xs)
  unfolding remove
  In-remove v x [] h m = absurd (not-In-nil x m)
  In-remove v x (y ∷ xs) h m = elim (==-cases v y) [
    | inl (t, p) ↦ elim ((In-cons x y xs).0 m) [
      | inl now ↦ absurd (h (p ∙ sym now))
      | inr later ↦ rw t (In-remove v x xs h later)
    ]
    | inr (t, p) ↦ elim ((In-cons x y xs).0 m) [
      | inl now ↦ rw t ((In-cons x y (remove v xs)).1 (inl now))
      | inr later ↦ rw t ((In-cons x y (remove v xs)).1 (inr (In-remove v x xs h later)))
    ]
  ]

  -- Distinct elements that all stand in a list are no more than its length.
  pub length_le_of_Distinct :
      (xs ys : List K) → Distinct xs → ((x : K) → In x xs → In x ys) → length xs ≤ length ys
  length_le_of_Distinct [] ys d h = omega arith
  length_le_of_Distinct (x ∷ xs) ys d h =
      let rest =
        length_le_of_Distinct xs (remove x ys) d.1 (λ y m.
          In-remove x y ys (λ p. absurd (d.0 (rw p m))) (h y ((In-cons y x xs).1 (inr m)))) in
      omega (arith, rest, length-remove_lt x ys (h x ((In-cons x x xs).1 (inl refl))))

  pub Distinct-put :
      {V : Type 0} (k : K) (v : V) (m : GoMap K V) → Distinct (keys m) → Distinct (keys (put k v m))
  unfolding put
  Distinct-put k v [] d = (λ m. absurd (not-In-nil k m), tt)
  Distinct-put k v ((j, w) ∷ m) d = elim (==-cases j k) [
    | inl (t, p) ↦ rw t (rw (← p) d)
    | inr (t, p) ↦
        rw t (
          λ i. elim (keys-put j k v m i) [ inl q ↦ p q | inr old ↦ d.0 old ],
          Distinct-put k v m d.1,
        )
  ]

-- The first of two values that is there.
abbrev pub or_else {ℓ} : {A : Type ℓ} → Option A → Option A → Option A
or_else (some a) o = some a
or_else none o = o

abbrev pub item_of : {V I : Type 0} → (V → I) → Option V → Option I
item_of f none = none
item_of f (some v) = some (f v)

-- for k, v := range items { children[k] = f(v) }
unfoldable pub put_items : {K V I : Type 0} ⦃e : Eq K⦄ → (V → I) → GoMap K V → GoMap K I → GoMap K I
put_items f [] m = m
put_items f ((k, v) ∷ items) m = put_items f items (put k (f v) m)

pub get-put_items :
    {K V I : Type 0} ⦃e : Eq K⦄ (f : V → I) (items : GoMap K V) (m : GoMap K I) (name : K)
    → Distinct (keys items)
    → get name (put_items f items m) ≡ or_else (item_of f (get name items)) (get name m)
unfolding put_items get
get-put_items f [] m name d = refl
get-put_items f ((k, v) ∷ items) m name d =
    let rest = get-put_items f items (put k (f v) m) name d.1 in
    elim (==-cases k name) [
      | inl (t, e) ↦
          let here : get name (put k (f v) m) ≡ some (f v) = rw (← e) (get-put_self k (f v) m) in
          rw t (elim (Option-cases (get name items)) [
            | inl absent ↦ rest ∙ (rw (absent, here) refl)
            | inr (w, there) ↦ absurd (d.0 (rw e (keys-get name w items there)))
          ])
      | inr (t, ne) ↦ rw t (rest ∙ (rw (get-put_ne k name (f v) m ne) refl))
    ]

pub Distinct-put_items :
    {K V I : Type 0} ⦃e : Eq K⦄ (f : V → I) (items : GoMap K V) (m : GoMap K I)
    → Distinct (keys m)
    → Distinct (keys (put_items f items m))
unfolding put_items
Distinct-put_items f [] m d = d
Distinct-put_items f ((k, v) ∷ items) m d =
    Distinct-put_items f items (put k (f v) m) (Distinct-put k (f v) m d)

put-new :
    {K V : Type 0} ⦃e : Eq K⦄ (k : K) (v : V) (m : GoMap K V)
    → (In k (keys m) → ⊥)
    → put k v m ≡ m ++ ((k, v) ∷ [])
unfolding put
put-new k v [] new = refl
put-new k v ((j, w) ∷ m) new = elim (==-cases j k) [
  | inl (_, same) ↦ absurd (new ((In-cons k j (keys m)).1 (inl (sym same))))
  | inr (t, _) ↦
      rw t (ap (λ r. (j, w) ∷ r) (put-new k v m (λ i. new ((In-cons k j (keys m)).1 (inr i)))))
]

append_nil : {A : Type 0} (xs : List A) → xs ++ [] ≡ xs
append_nil [] = refl
append_nil (x ∷ xs) = ap (λ r. x ∷ r) (append_nil xs)

append_middle :
    {A : Type 0} (xs : List A) (y : A) (ys : List A) → (xs ++ (y ∷ [])) ++ ys ≡ xs ++ (y ∷ ys)
append_middle [] y ys = refl
append_middle (x ∷ xs) y ys = ap (λ r. x ∷ r) (append_middle xs y ys)

-- The entries of a map put one after another behind others that it has no key of.
put_items-append :
    {K V : Type 0} ⦃e : Eq K⦄ (items m : GoMap K V)
    → Distinct (keys items)
    → ((k : K) → In k (keys items) → In k (keys m) → ⊥)
    → put_items (λ (v : V). v) items m ≡ m ++ items
unfolding put_items
put_items-append [] m d apart = sym (append_nil m)
put_items-append {K = K} {V = V} ((k, v) ∷ items) m (new, d) apart =
    let here = In-cons k k (keys items) in
    let later : (j : K) → In j (keys items) → In j (keys (put k v m)) → ⊥ = λ j i p.
      elim (keys-put j k v m p) [
        | inl same ↦ new (rw same at i)
        | inr before ↦ apart j ((In-cons j k (keys items)).1 (inr i)) before
      ] in
    put_items-append items (put k v m) d later
    ∙ ap (λ r. r ++ items) (put-new k v m (apart k (here.1 (inl refl))))
    ∙ append_middle m (k, v) items

pub put_items-Distinct :
    {K V : Type 0} ⦃e : Eq K⦄ (items : GoMap K V)
    → Distinct (keys items)
    → put_items (λ (v : V). v) items [] ≡ items
put_items-Distinct items d = put_items-append items [] d (λ k i j. not-In-nil k j)

length-keys : {K V : Type 0} (m : GoMap K V) → length (keys m) ≡ length m
length-keys [] = refl
length-keys ((k, v) ∷ m) = ap suc (length-keys m)

module _ {K : Type 0} {V : Type 0} ⦃e : Eq K⦄ ⦃d : Eq V⦄ where
  -- Every entry of the first map is one of the second.
  unfoldable pub same_entries : GoMap K V → GoMap K V → Bool
  same_entries [] b = true
  same_entries ((k, v) ∷ a) b =
      (elim (get k b) [ some w ↦ w == v | none ↦ false ]) && same_entries a b

  -- Equality of maps: as many entries, and the same ones.
  unfoldable pub maps_equal : GoMap K V → GoMap K V → Bool
  unfolding same_entries
  maps_equal a b = length a == length b && same_entries a b

  same_entries-get :
      (k : K) (v : V) (a b : GoMap K V)
      → same_entries a b ≡ true
      → get k a ≡ some v
      → get k b ≡ some v
  unfolding same_entries get
  same_entries-get k v [] b h g = cc
  same_entries-get k v ((j, w) ∷ a) b h g = elim (==-cases j k) [
    | inl (t, p) ↦
        let w_eq : w ≡ v = ground arith in
        elim (Option-cases (get j b)) [
          | inl n ↦ ground arith
          | inr (x, n) ↦ ground (arith, d.beq_iff x w)
        ]
    | inr (t, p) ↦ same_entries-get k v a b (ground arith) (rw (t, get) at g)
  ]

  -- Maps that compare as equal have the same value, or none, at every key.
  pub maps_equal-get :
      (a b : GoMap K V) → Distinct (keys a) → maps_equal a b ≡ true → (k : K) → get k a ≡ get k b
  unfolding maps_equal
  maps_equal-get a b da h k =
      let same : same_entries a b ≡ true = ground arith in
      let len : length a ≡ length b = ground (arith, nat_beq_iff (length a) (length b)) in
      elim (Option-cases (get k a)) [
        | inr (v, g) ↦ g ∙ sym (same_entries-get k v a b same g)
        | inl n ↦ elim (Option-cases (get k b)) [
          | inl o ↦ n ∙ sym o
          | inr (v, g) ↦ absurd (
              let there = keys-get k v b g in
              let fits = length_le_of_Distinct (keys a) (remove k (keys b)) da (λ x m.
                let (w, gx) = get-keys x a m in
                In-remove k x (keys b) (λ p. absurd (let clash : get k a ≡ some w = rw p gx in cc))
                  (keys-get x w b (same_entries-get x w a b same gx))) in
              omega (arith, fits, length-remove_lt k (keys b) there, length-keys a, length-keys b))
        ]
      ]

module _ {K : Type 0} {V : Type 0} ⦃e : Eq K⦄ where
  pub In-Distinct :
      (k : K) (v : V) (m : GoMap K V) → Distinct (keys m) → In (k, v) m → get k m ≡ some v
  unfolding get
  In-Distinct k v [] dm h = absurd (not-In-nil (k, v) h)
  In-Distinct k v ((j, w) ∷ m) dm h = elim (In-cons_pair k v j w m h) [
    | inl (p, q) ↦ rw (p, q, ==-refl j)
    | inr r ↦ elim (==-cases j k) [
      | inl (t, p) ↦ absurd (dm.0 (rw p (keys_of_In k v m r)))
      | inr (t, p) ↦ rw t (In-Distinct k v m dm.1 r)
    ]
  ]
