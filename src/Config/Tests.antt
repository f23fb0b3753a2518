-- ===== src/Config/Tests.antt =====
-- GetHostPort with a reader that takes every text for the same host and port.
use connectopus.Prelude.{◌≡◌, refl, [], ◌∷◌, bytes_eq, bytes_beq, get}
use connectopus.Config.Samples.{one_text}
use connectopus.Config.{
  Params, got, wrong, missing_parameter, get_host_port, host_address, first_address,
}

abbrev params : Params
params = (5 ∷ [], 6 ∷ []) ∷ []

named_host : get_host_port one_text (5 ∷ []) params ≡ got (1 ∷ [], 80)
unfolding get_host_port host_address first_address get bytes_beq
named_host = refl

missing : get_host_port one_text (9 ∷ []) params ≡ wrong missing_parameter
unfolding get_host_port get bytes_beq
missing = refl
