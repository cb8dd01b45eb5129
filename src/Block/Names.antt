-- ===== src/Block/Names.antt =====
-- The names of block files in src/cache_block.c: the hash of a path and the printf conversions.
use cachefs.Prelude.{
  ℕ, zero, suc, ◌+◌, ◌-◌, ◌*◌, ◌/◌, ◌%◌, ◌^◌, [], ◌∷◌, ◌++◌, ltb, if◌then◌else◌, Str, take,
}

-- A `char` as it enters the sum: signed, so a byte from 128 on is added as a negative number.
unfoldable pub char_value : ℕ → ℕ
char_value c = if ltb c 128 then c else 2 ^ 64 + c - 256

unfoldable pub hash_from : ℕ → Str → ℕ
unfolding char_value
hash_from hash [] = hash
hash_from hash (c ∷ cs) = hash_from ((hash * 32 + hash + char_value c) % 2 ^ 64) cs

-- DJB2, on 64 bits.
unfoldable pub hash_path : Str → ℕ
unfolding hash_from
hash_path path = hash_from 5381 path

hex_digit : ℕ → ℕ
hex_digit d = if ltb d 10 then 48 + d else 87 + d

-- The last `width` hexadecimal digits: %02x of a byte, %016lx of 64 bits.
unfoldable pub hex : ℕ → ℕ → Str
unfolding hex_digit
hex zero x = []
hex (suc width) x = hex width (x / 16) ++ hex_digit (x % 16) ∷ []

-- %zu, with fuel for the digits; 64 bits have at most twenty.
decimal_fuel : ℕ → ℕ → Str
decimal_fuel zero x = []
decimal_fuel (suc fuel) x =
    let front = decimal_fuel fuel (x / 10) in (if ltb x 10 then [] else front) ++ (48 + x % 10) ∷ []

unfoldable pub decimal : ℕ → Str
unfolding decimal_fuel
decimal x = decimal_fuel 20 x

-- snprintf into a buffer of PATH_MAX bytes.
abbrev pub snprintf_path : Str → Str
snprintf_path = take 4095
