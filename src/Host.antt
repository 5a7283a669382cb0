-- ===== src/Host.antt =====
-- What the application takes from outside the repository, besides the time and the random numbers,
-- which each operation is given: the Prisma client, `localeCompare`, and node's digests.
use vkit_orbit.Base.{String}
use vkit_orbit.Json.Canonical.{Collation}
use vkit_orbit.Store.Client.{Client}

pub record Host : Type 1 where
  pub client : Client
  pub before : Collation
  -- the hexadecimal digest of a text
  pub sha256 : String → String
  -- the hexadecimal digest of a text under a secret, the secret first
  pub hmac : String → String → String
