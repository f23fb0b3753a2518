-- ===== src/Control/Netns.antt =====
-- Which name spaces a query lists.
use connectopus.Prelude.{◌≡◌, Option, none, some, Bytes, bytes_eq}
use mathlib.Core.List.Memᴰ

-- The registry has the entry, which is one that the filter lets through.
abbrev pub Asked : Option (Option Bytes) → Bytes → Type 0
Asked none name = Unit
Asked (some none) name = Unit
Asked (some (some n)) name = name ≡ n
