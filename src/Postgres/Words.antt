-- ===== src/Postgres/Words.antt =====
-- The numbers of `struct.pack` with network order, as src/honeypots/postgresql_honeypot.py calls
-- it. A number that does not fit raises.
use honey_mind.Prelude.{
  ℕ, ◌+◌, ◌*◌, ◌/◌, ◌%◌, ltb, List, [], ◌∷◌, if◌then◌else◌, Option, none, some, ◌≡◌, arith,
}

-- `struct.pack("!H", n)`
unfoldable pub pack_u16 : ℕ → Option (List ℕ)
pack_u16 n = if ltb n 65536 then some (n / 256 ∷ n % 256 ∷ []) else none

-- `struct.pack("!I", n)`
unfoldable pub pack_u32 : ℕ → Option (List ℕ)
pack_u32 n =
    if ltb n 4294967296
    then some (n / 16777216 ∷ n / 65536 % 256 ∷ n / 256 % 256 ∷ n % 256 ∷ [])
    else none

-- `struct.unpack("!I", bytes)`, behind the test that there are four
unfoldable pub unpack_u32 : List ℕ → Option ℕ
unpack_u32 (a ∷ b ∷ c ∷ d ∷ []) = some (((a * 256 + b) * 256 + c) * 256 + d)
unpack_u32 [] = none
unpack_u32 (a ∷ []) = none
unpack_u32 (a ∷ b ∷ []) = none
unpack_u32 (a ∷ b ∷ c ∷ []) = none
unpack_u32 (a ∷ b ∷ c ∷ d ∷ e ∷ bytes) = none

-- the four bytes of a number that fits, and back
pub unpack-bytes :
    (n : ℕ) → ((n / 16777216 * 256 + n / 65536 % 256) * 256 + n / 256 % 256) * 256 + n % 256 ≡ n
unpack-bytes n = omega arith
