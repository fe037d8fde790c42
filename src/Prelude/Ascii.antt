-- ===== src/Prelude/Ascii.antt =====
-- Characters, as bytes, and strings, as lists of bytes without the 0 that ends them.
use Prim.Native.Nat.{ℕ, zero, suc}
use mathlib.Core.Bool.{Bool, true, false, ◌&&◌}
use mathlib.Core.List.{List, [], ◌∷◌}
use mihini.Prelude.Tests.{◌==◌}

abbrev pub hash : ℕ
hash = 35

abbrev pub open_paren : ℕ
open_paren = 40

abbrev pub close_paren : ℕ
close_paren = 41

abbrev pub plus_sign : ℕ
plus_sign = 43

abbrev pub comma : ℕ
comma = 44

abbrev pub minus_sign : ℕ
minus_sign = 45

abbrev pub slash : ℕ
slash = 47

abbrev pub digit_0 : ℕ
digit_0 = 48

abbrev pub letter_a : ℕ
letter_a = 97

abbrev pub letter_b : ℕ
letter_b = 98

abbrev pub letter_d : ℕ
letter_d = 100

abbrev pub letter_l : ℕ
letter_l = 108

abbrev pub letter_w : ℕ
letter_w = 119

abbrev pub letter_x : ℕ
letter_x = 120

abbrev pub tab_char : ℕ
tab_char = 9

abbrev pub line_feed : ℕ
line_feed = 10

abbrev pub carriage_return : ℕ
carriage_return = 13

abbrev pub space : ℕ
space = 32

abbrev pub double_quote : ℕ
double_quote = 34

abbrev pub apostrophe : ℕ
apostrophe = 39

abbrev pub dot : ℕ
dot = 46

abbrev pub letter_upper_a : ℕ
letter_upper_a = 65

abbrev pub letter_upper_b : ℕ
letter_upper_b = 66

abbrev pub letter_upper_x : ℕ
letter_upper_x = 88

abbrev pub letter_upper_z : ℕ
letter_upper_z = 90

abbrev pub backslash : ℕ
backslash = 92

abbrev pub letter_f : ℕ
letter_f = 102

abbrev pub letter_n : ℕ
letter_n = 110

abbrev pub letter_r : ℕ
letter_r = 114

abbrev pub letter_t : ℕ
letter_t = 116

abbrev pub letter_z : ℕ
letter_z = 122

-- The byte at an index; the byte behind the last is 0.
abbrev pub char_at : List ℕ → ℕ → ℕ
char_at [] i = 0
char_at (c ∷ cs) zero = c
char_at (c ∷ cs) (suc i) = char_at cs i

abbrev pub same_bytes : List ℕ → List ℕ → Bool
same_bytes [] [] = true
same_bytes [] (d ∷ ds) = false
same_bytes (c ∷ cs) [] = false
same_bytes (c ∷ cs) (d ∷ ds) = (c == d) && same_bytes cs ds

abbrev pub take : ℕ → List ℕ → List ℕ
take zero bytes = []
take (suc n) [] = []
take (suc n) (b ∷ bs) = b ∷ take n bs

abbrev pub drop : ℕ → List ℕ → List ℕ
drop zero bytes = bytes
drop (suc n) [] = []
drop (suc n) (b ∷ bs) = drop n bs

-- "mihini", which each file begins with
abbrev pub magic : List ℕ
magic = 109 ∷ 105 ∷ 104 ∷ 105 ∷ 110 ∷ 105 ∷ []
