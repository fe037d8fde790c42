-- ===== src/Parser/Immediate.antt =====
-- The parsing of immediate values in src/parser.c, with the `strtoul` and `strtol` of C for 64-bit
-- numbers in the "C" locale.
use mihini.Prelude.{
  ℕ, ◌+◌, ◌-◌, ◌*◌, ◌^◌, ◌==◌, ltb, leb, not, ◌&&◌, ◌||◌, if◌then◌else◌, Bool, true, false, List,
  [], ◌∷◌, u16, sub64, length,
}
use mihini.Prelude.Ascii.{
  char_at, drop, space, tab_char, carriage_return, hash, plus_sign, minus_sign, apostrophe,
  backslash, digit_0, letter_a, letter_b, letter_d, letter_n, letter_r, letter_t, letter_x,
  letter_z, letter_upper_a, letter_upper_b, letter_upper_x, letter_upper_z,
}
use mihini.Parser.{Parsed, parsed}

-- `isspace`
abbrev pub is_space : ℕ → Bool
is_space c = (c == space) || (leb tab_char c && leb c carriage_return)

-- The value of a digit; 36 for a character that is none
unfoldable pub digit : ℕ → ℕ
digit c =
    if leb digit_0 c && leb c (digit_0 + 9)
    then c - digit_0
    else if leb letter_a c && leb c letter_z
    then c - letter_a + 10
    else if leb letter_upper_a c && leb c letter_upper_z
    then c - letter_upper_a + 10
    else 36

-- The number that the leading digits are, whatever its size
unfoldable pub digits_value : ℕ → List ℕ → ℕ → ℕ
digits_value base [] acc = acc
digits_value base (c ∷ cs) acc =
    let rest = digits_value base cs (acc * base + digit c) in
    if ltb (digit c) base then rest else acc

unfoldable pub drop_spaces : List ℕ → List ℕ
drop_spaces [] = []
drop_spaces (c ∷ cs) = let rest = drop_spaces cs in if is_space c then rest else c ∷ cs

-- Base 16 may have a prefix 0x, if a digit follows it.
unfoldable pub drop_prefix : ℕ → List ℕ → List ℕ
drop_prefix base (z ∷ x ∷ d ∷ cs) =
    if (base == 16)
      && (z == digit_0)
      && ((x == letter_x) || (x == letter_upper_x))
      && ltb (digit d) 16
    then d ∷ cs
    else z ∷ x ∷ d ∷ cs
drop_prefix base cs = cs

-- Whether there is a minus sign, and the number behind the sign
unfoldable pub signed_value : ℕ → List ℕ → Bool × ℕ
signed_value base [] = (false, 0)
signed_value base (c ∷ cs) =
    if c == minus_sign
    then (true, digits_value base (drop_prefix base cs) 0)
    else if c == plus_sign
    then (false, digits_value base (drop_prefix base cs) 0)
    else (false, digits_value base (drop_prefix base (c ∷ cs)) 0)

-- Out of range the result is ULONG_MAX; else a minus sign negates it, modulo 2 ^ 64.
unfoldable pub strtoul : List ℕ → ℕ → ℕ
strtoul str base =
    let (negative, n) = signed_value base (drop_spaces str) in
    if leb (2 ^ 64) n then 2 ^ 64 - 1 else if negative then sub64 0 n else n

-- Out of range the result is LONG_MAX or LONG_MIN. The `long` is then a `uint64_t`.
unfoldable pub strtol : List ℕ → ℕ → ℕ
strtol str base =
    let (negative, n) = signed_value base (drop_spaces str) in
    if negative
    then (if ltb (2 ^ 63) n then 2 ^ 63 else sub64 0 n)
    else if leb (2 ^ 63) n
    then 2 ^ 63 - 1
    else n

-- A `char`, which is signed, as a `uint64_t`
abbrev pub char_value : ℕ → ℕ
char_value c = if ltb c 128 then c else c + 2 ^ 64 - 2 ^ 8

unfoldable pub escaped_value : ℕ → ℕ
escaped_value c =
    if c == letter_r
    then 13
    else if c == letter_n
    then 10
    else if c == letter_t
    then 9
    else if c == backslash
    then backslash
    else 0xFF

unfoldable pub prefixed_value : List ℕ → ℕ
prefixed_value value =
    let c = char_at value 2 in
    if (c == letter_x) || (c == letter_upper_x)
    then strtoul (drop 3 value) 16
    else if (c == letter_b) || (c == letter_upper_b)
    then strtoul (drop 3 value) 2
    else if (c == letter_d) || (c == letter_d)
    then strtoul (drop 3 value) 10
    else strtoul (drop 1 value) 10

-- The condition under which both functions give up: `len` is a `uint16_t`.
abbrev pub not_immediate : List ℕ → Bool
not_immediate value = ltb (u16 (length value)) 2 || not (char_at value 0 == hash)

unfoldable pub parse_immediate_value : List ℕ → Parsed
parse_immediate_value value =
    if not_immediate value
    then record { value = 0xFFFFFFFF; reported = true }
    else if char_at value 1 == digit_0
    then parsed (prefixed_value value)
    else if char_at value 1 == apostrophe
    then parsed (
        if char_at value 2 == backslash
        then escaped_value (char_at value 3)
        else char_value (char_at value 2))
    else parsed (strtol (drop 1 value) 10)

-- `float_bits` is `atof`, read as the 64 bits of the double.
unfoldable pub parse_immediate_float_value : (List ℕ → ℕ) → List ℕ → Parsed
parse_immediate_float_value float_bits value =
    if not_immediate value
    then record { value = 0; reported = true }
    else parsed (float_bits (drop 1 value))
