-- ===== src/Privileged/Digest.antt =====
-- The bytes that the settings hash digests determine the settings (core/privileged/baseline.go).
use komari_agent.Shared.{ℕ, ◌<◌, ◌≡◌, refl, Bool, arith}
use komari_agent.Privileged.Model.{
  Settings, settings_from_proto, proto, bit, big_endian, hash_input,
}
use mathlib.Core.Option.{some}

big_endian-injective :
    (m n : ℕ) → m < 4294967296 → n < 4294967296 → big_endian m ≡ big_endian n → m ≡ n
big_endian-injective m n p q h = ground arith

bit-injective : (a b : Bool) → bit a ≡ bit b → a ≡ b
bit-injective a b h = ground arith

-- Two settings, with privilege modes of 32 bits, that digest the same bytes are equal: a hash that
-- matches can differ in its settings only by a collision of SHA-256.
pub hash_input-injective :
    (a b : Settings)
    → a.required_privilege_mode < 4294967296
    → b.required_privilege_mode < 4294967296
    → hash_input a ≡ hash_input b
    → a ≡ b
unfolding hash_input
hash_input-injective a b p q h = ground arith

-- Settings survive the trip through their protobuf message.
pub settings_from_proto-proto : (s : Settings) → settings_from_proto (some (proto s)) ≡ s
unfolding settings_from_proto proto
settings_from_proto-proto s = refl
