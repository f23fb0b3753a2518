-- ===== src/Proto/Subnet/Bits.antt =====
-- Bitwise and on bytes, by tables.
use Prim.Native.Nat.{bit_and, zero, suc}
use connectopus.Prelude.{
  ℕ, ◌<◌, ◌≡◌, refl, inl, inr, Bool, true, false, nat_eq, ◌==◌, if◌then◌else◌, ==-cases, Bool-cases,
  arith,
}

-- A test of every number below a bound, from the largest down.
holds_below : (ℕ → Bool) → ℕ → Bool
holds_below test zero = true
holds_below test (suc k) = let smaller = holds_below test k in if test k then smaller else false

holds_below-at :
    (test : ℕ → Bool) (bound x : ℕ) → x < bound → holds_below test bound ≡ true → test x ≡ true
unfolding holds_below
holds_below-at test zero x less all = absurd (omega arith)
holds_below-at test (suc k) x less all = elim (Bool-cases (test k)) [
  | inr fails ↦ absurd (let clash = rw (fails, holds_below) at all in cc)
  | inl holds ↦ elim (==-cases x k) [
    | inl (_, last) ↦ rw last holds
    | inr (_, other) ↦
        holds_below-at test k x (omega (arith, other)) (rw (holds, holds_below) at all)
  ]
]

abbrev keeps_all : ℕ → Bool
keeps_all x = bit_and x 255 == x

keeps_all-table : holds_below keeps_all 256 ≡ true
unfolding holds_below
keeps_all-table = refl

pub bit_and-all_ones : (x : ℕ) → x < 256 → bit_and x 255 ≡ x
bit_and-all_ones x less =
    (nat_eq.beq_iff (bit_and x 255) x).0 (holds_below-at keeps_all 256 x less keeps_all-table)

abbrev absorbs : ℕ → ℕ → Bool
absorbs x y = bit_and (bit_and x y) y == bit_and x y

abbrev absorbs_all : ℕ → Bool
absorbs_all x = holds_below (absorbs x) 256

absorbs_all-table : holds_below absorbs_all 256 ≡ true
unfolding holds_below
absorbs_all-table = refl

pub bit_and-absorb : (x y : ℕ) → x < 256 → y < 256 → bit_and (bit_and x y) y ≡ bit_and x y
bit_and-absorb x y less_x less_y =
    let row = holds_below-at absorbs_all 256 x less_x absorbs_all-table in
    (nat_eq.beq_iff _ (bit_and x y)).0 (holds_below-at (absorbs x) 256 y less_y row)
