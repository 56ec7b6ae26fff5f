-- ===== src/Prelude/Text.antt =====
-- Python's text operations on code points: `strip`, `upper`, `lower`, `split` and `in`.
use Prim.Native.Char.{code}
use Prim.Native.String.{String}
use Prim.Native.Nat.{ℕ, ◌+◌, ◌-◌}
use mathlib.Core.Path.{◌≡◌, refl}
use mathlib.Core.Bool.{Bool, true, false, ◌&&◌, ◌||◌}
use mathlib.Core.List.{List, [], ◌∷◌, ◌++◌}
use native.Mathlib.Omega.{arith}
use procurement_automation.Prelude.Tests.{leb, ltb, ◌==◌, if◌then◌else◌}
use procurement_automation.Prelude.Lists.{is_empty}

abbrev pub Codes : Type 0
Codes = List ℕ

-- The code points of a text.
abbrev pub codes : String → Codes
codes String.[] = []
codes (String.◌∷◌ c s) = code c ∷ codes s

-- What Python takes from the Unicode database of the characters beyond ASCII: their case mappings,
-- and `isalpha` and `isalnum`.
pub record Unicode : Type 0 where
  pub is_alpha_other : ℕ → Bool
  pub is_alnum_other : ℕ → Bool
  pub upper_other : ℕ → Codes
  pub lower_other : ℕ → Codes

-- `str.isspace`, which is also `\s` of `re`.
unfoldable pub is_space : ℕ → Bool
is_space c =
    leb 9 c && leb c 13
    || leb 28 c && leb c 32
    || c == 0x85
    || c == 0xa0
    || c == 0x1680
    || leb 0x2000 c && leb c 0x200a
    || c == 0x2028
    || c == 0x2029
    || c == 0x202f
    || c == 0x205f
    || c == 0x3000

unfoldable pub strip_left : Codes → Codes
unfolding is_space
strip_left [] = []
strip_left (c ∷ s) = if is_space c then strip_left s else c ∷ s

unfoldable pub strip_right : Codes → Codes
unfolding is_space
strip_right [] = []
strip_right (c ∷ s) =
    let rest = strip_right s in if is_space c && is_empty rest then [] else c ∷ rest

-- `s.strip()`
unfoldable pub strip : Codes → Codes
unfolding strip_left strip_right
strip s = strip_right (strip_left s)

unfoldable pub upper_char : Unicode → ℕ → Codes
upper_char u c =
    if ltb c 128 then (if leb b'a' c && leb c b'z' then c - 32 else c) ∷ [] else u.upper_other c

unfoldable pub lower_char : Unicode → ℕ → Codes
lower_char u c =
    if ltb c 128 then (if leb b'A' c && leb c b'Z' then c + 32 else c) ∷ [] else u.lower_other c

-- `s.isalpha()` of one character.
unfoldable pub is_alpha : Unicode → ℕ → Bool
is_alpha u c =
    if ltb c 128 then leb b'a' c && leb c b'z' || leb b'A' c && leb c b'Z' else u.is_alpha_other c

-- `s.isalnum()` of one character.
unfoldable pub is_alnum : Unicode → ℕ → Bool
is_alnum u c =
    if ltb c 128
    then leb b'a' c && leb c b'z' || (leb b'A' c && leb c b'Z' || leb b'0' c && leb c b'9')
    else u.is_alnum_other c

-- `s.upper()`
unfoldable pub upper : Unicode → Codes → Codes
unfolding upper_char
upper u [] = []
upper u (c ∷ s) = upper_char u c ++ upper u s

-- `s.lower()`
unfoldable pub lower : Unicode → Codes → Codes
unfolding lower_char
lower u [] = []
lower u (c ∷ s) = lower_char u c ++ lower u s

-- `s == t`
unfoldable pub eq_codes : Codes → Codes → Bool
eq_codes [] [] = true
eq_codes (c ∷ s) (d ∷ t) = c == d && eq_codes s t
eq_codes _ _ = false

unfoldable pub starts_with : Codes → Codes → Bool
starts_with [] s = true
starts_with (c ∷ p) [] = false
starts_with (c ∷ p) (d ∷ s) = c == d && starts_with p s

-- `p in s`
unfoldable pub occurs_in : Codes → Codes → Bool
unfolding starts_with
occurs_in p [] = is_empty p
occurs_in p (c ∷ s) = starts_with p (c ∷ s) || occurs_in p s

-- `s in table`
unfoldable pub is_one_of : List Codes → Codes → Bool
unfolding eq_codes
is_one_of [] s = false
is_one_of (t ∷ table) s = eq_codes t s || is_one_of table s

-- `re.sub(r"\s+", " ", s)`; the flag says that the last character was a space.
unfoldable pub collapse : Bool → Codes → Codes
unfolding is_space
collapse spaced [] = []
collapse spaced (c ∷ s) =
    let rest = collapse (is_space c) s in
    if is_space c then (if spaced then rest else b' ' ∷ rest) else c ∷ rest

-- `s.split()[0]` of a text that does not begin with a space.
unfoldable pub first_word : Codes → Codes
unfolding is_space
first_word [] = []
first_word (c ∷ s) = let rest = first_word s in if is_space c then [] else c ∷ rest

-- `s.replace(c, d)` for single characters.
unfoldable pub replace : ℕ → ℕ → Codes → Codes
replace c d [] = []
replace c d (x ∷ s) = (if x == c then d else x) ∷ replace c d s

pub eq_codes_sound : (s t : Codes) → eq_codes s t ≡ true → s ≡ t
unfolding eq_codes
eq_codes_sound [] [] h = refl
eq_codes_sound (c ∷ s) (d ∷ t) h = ground (arith, eq_codes_sound s t)
eq_codes_sound [] (d ∷ t) h = cc
eq_codes_sound (c ∷ s) [] h = cc

pub eq_codes_refl : (s : Codes) → eq_codes s s ≡ true
unfolding eq_codes
eq_codes_refl [] = refl
eq_codes_refl (c ∷ s) = ground (arith, eq_codes_refl s)
