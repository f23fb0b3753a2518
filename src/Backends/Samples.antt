-- ===== src/Backends/Samples.antt =====
-- Certificates that are their own text.
use connectopus.Prelude.{some, Bytes, ◌++◌}
use connectopus.Backends.Settings.{Crypto}

abbrev pub plain : Crypto
plain = record {
  Certificate = Bytes;
  Pool = Bytes;
  x509_key_pair = λ c k. some (c ++ k);
  certs_from_pem = λ pem. some pem;
}
