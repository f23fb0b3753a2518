-- ===== src/Control/Tests.antt =====
-- A registry with two name spaces.
use connectopus.Prelude.{Option, Bytes, ◌≡◌, refl, some, [], ◌∷◌, bytes_eq, bytes_beq, get, nat_eq}
use connectopus.Instance.Links.{Registry, NamePid, registry_get}
use connectopus.Control.{netns}

abbrev registry : Registry
registry = (110 ∷ [], 7) ∷ (111 ∷ [], 8) ∷ []

abbrev asked : NamePid
asked = record { name = 110 ∷ []; pid = 7 }

netns_named : netns (some registry) (some (some (110 ∷ []))) ≡ asked ∷ []
unfolding netns registry_get get bytes_beq
netns_named = refl

netns_unknown : netns (some registry) (some (some (112 ∷ []))) ≡ []
unfolding netns registry_get get bytes_beq
netns_unknown = refl

abbrev one_space : Registry
one_space = (110 ∷ [], 7) ∷ []

abbrev filter : Option (Option Bytes)
filter = some (some (110 ∷ []))
