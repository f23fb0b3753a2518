-- ===== src/Config/Samples.antt =====
-- A reader that takes every text for the same values.
use connectopus.Prelude.{ℕ, ◌<◌, ◌≡◌, true, none, some, [], ◌∷◌, arith}
use connectopus.Router.Float.{one_cost}
use connectopus.Config.{Text}

pub eighty : (v : ℕ) → some 80 ≡ some v → v < 65536
eighty v h = let is_v : 80 ≡ v = cc in omega (arith, is_v)

abbrev pub one_text : Text
one_text = record {
  parse_ip = λ s. none;
  split_host_port = λ s. some (8 ∷ [], 9 ∷ []);
  lookup_ip = λ s. some ((1 ∷ []) ∷ []);
  parse_uint16 = λ s. some 80;
  parse_bool = λ s. some true;
  parse_float32 = λ s. some one_cost;
  parse_uint16_lt = λ s v h. eighty v h;
}
