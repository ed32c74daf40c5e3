-- ===== src/Base/Text.antt =====
-- Texts the way JavaScript reads them: by UTF-16 code units. A text with a lone surrogate, which
-- JavaScript allows, has no counterpart here.
use metaclaw.Base.Lists.{length}
use Prim.Native.Nat.{ℕ, zero, suc, ◌+◌, ◌-◌, ◌/◌, ◌%◌}
use Prim.Native.Char.{code}
use Prim.Native.String.{String, ◌++◌ as ◌⧺◌}
use mathlib.Core.Path.{◌≡◌, refl}
use mathlib.Core.Logic.{◌⊎◌, inl, inr}
use mathlib.Core.Bool.{Bool, true, false, ◌&&◌, ◌||◌}
use mathlib.Core.List.{List, [], ◌∷◌, ◌++◌}
use native.Mathlib.Omega.{arith}
use text.Mathlib.Text.{find?}
use Prim.Native.Char.{Char}
use metaclaw.Base.Tests.{is_some, ltb, leb, eqb, if◌then◌else◌}

char_units : ℕ → List ℕ
char_units c =
    if ltb c 0x10000
    then c ∷ []
    else (0xd800 + (c - 0x10000) / 0x400) ∷ (0xdc00 + (c - 0x10000) % 0x400) ∷ []

unfoldable pub utf16 : String → List ℕ
unfolding char_units
utf16 String.[] = []
utf16 (String.◌∷◌ c s) = char_units (code c) ++ utf16 s

-- The order of `sort()` without a comparator.
unfoldable pub units_le : List ℕ → List ℕ → Bool
units_le [] ys = true
units_le (x ∷ xs) [] = false
units_le (x ∷ xs) (y ∷ ys) = ltb x y || (eqb x y && units_le xs ys)

unfoldable pub text_le : String → String → Bool
unfolding utf16 units_le
text_le s t = units_le (utf16 s) (utf16 t)

units_le_total : (xs ys : List ℕ) → (units_le xs ys ≡ true) ⊎ (units_le ys xs ≡ true)
unfolding units_le
units_le_total [] ys = inl refl
units_le_total (x ∷ xs) [] = inr refl
units_le_total (x ∷ xs) (y ∷ ys) = ground (arith, units_le_total xs ys)

pub units_le_trans :
    (xs ys zs : List ℕ) → units_le xs ys ≡ true → units_le ys zs ≡ true → units_le xs zs ≡ true
unfolding units_le
units_le_trans [] ys zs h k = refl
units_le_trans (x ∷ xs) [] zs h k = cc
units_le_trans (x ∷ xs) (y ∷ ys) [] h k = cc
units_le_trans (x ∷ xs) (y ∷ ys) (z ∷ zs) h k = ground (arith, units_le_trans xs ys zs)

pub text_le_total : (s t : String) → (text_le s t ≡ true) ⊎ (text_le t s ≡ true)
unfolding text_le
text_le_total s t = units_le_total (utf16 s) (utf16 t)

pub text_le_trans : (s t u : String) → text_le s t ≡ true → text_le t u ≡ true → text_le s u ≡ true
unfolding text_le
text_le_trans s t u = units_le_trans (utf16 s) (utf16 t) (utf16 u)

-- `join(separator)`
unfoldable pub join : String → List String → String
join sep [] = ""
join sep (x ∷ []) = x
join sep (x ∷ y ∷ ys) = x ⧺ sep ⧺ join sep (y ∷ ys)

is_word_unit : ℕ → Bool
is_word_unit c =
    (leb b'a' c && leb c b'z')
    || (leb b'A' c && leb c b'Z')
    || (leb b'0' c && leb c b'9')
    || eqb c b'_'
    || eqb c b'-'

-- `replace(/[^a-zA-Z0-9_-]/g, '_')`: a character of two code units gives two underscores.
unfoldable pub sanitize : String → String
unfolding is_word_unit
sanitize String.[] = ""
sanitize (String.◌∷◌ c s) =
    if is_word_unit (code c)
    then String.◌∷◌ c (sanitize s)
    else if ltb (code c) 0x10000
    then "_" ⧺ sanitize s
    else "__" ⧺ sanitize s

-- The white space that `trim()` removes.
is_space : ℕ → Bool
is_space c =
    (leb 9 c && leb c 13)
    || eqb c 32
    || eqb c 0xa0
    || eqb c 0x1680
    || (leb 0x2000 c && leb c 0x200a)
    || eqb c 0x2028
    || eqb c 0x2029
    || eqb c 0x202f
    || eqb c 0x205f
    || eqb c 0x3000
    || eqb c 0xfeff

unfoldable pub trim_start : String → String
unfolding is_space
trim_start String.[] = ""
trim_start (String.◌∷◌ c s) = if is_space (code c) then trim_start s else String.◌∷◌ c s

-- The text `c` in front of `s`, unless `c` is white space and nothing follows.
trim_end_step : Char → String → String
unfolding is_space
trim_end_step c String.[] = if is_space (code c) then "" else String.◌∷◌ c ""
trim_end_step c (String.◌∷◌ d s) = String.◌∷◌ c (String.◌∷◌ d s)

trim_end : String → String
unfolding trim_end_step
trim_end String.[] = ""
trim_end (String.◌∷◌ c s) = trim_end_step c (trim_end s)

unfoldable pub trim : String → String
unfolding trim_start trim_end
trim s = trim_end (trim_start s)

abbrev pub is_empty : String → Bool
is_empty String.[] = true
is_empty (String.◌∷◌ c s) = false

-- Whether some character passes the test.
unfoldable pub any_char : (ℕ → Bool) → String → Bool
any_char p String.[] = false
any_char p (String.◌∷◌ c s) = p (code c) || any_char p s

-- `split` at a character.
split_step : Char → List String → List String
split_step c [] = String.◌∷◌ c "" ∷ []
split_step c (x ∷ xs) = String.◌∷◌ c x ∷ xs

unfoldable pub split : ℕ → String → List String
unfolding split_step
split sep String.[] = "" ∷ []
split sep (String.◌∷◌ c s) =
    if eqb (code c) sep then "" ∷ split sep s else split_step c (split sep s)

-- `value.includes(part)`
unfoldable pub includes : String → String → Bool
includes value part = is_some (find? value part)

-- `value.length`, in code units.
unfoldable pub text_length : String → ℕ
unfolding utf16
text_length s = length (utf16 s)

digit : ℕ → String
digit d =
    if eqb d 0
    then "0"
    else if eqb d 1
    then "1"
    else if eqb d 2
    then "2"
    else if eqb d 3
    then "3"
    else if eqb d 4
    then "4"
    else if eqb d 5
    then "5"
    else if eqb d 6
    then "6"
    else if eqb d 7
    then "7"
    else if eqb d 8
    then "8"
    else "9"

digits_of : ℕ → ℕ → String → String
unfolding digit
digits_of zero n rest = rest
digits_of (suc fuel) n rest =
    let more = digits_of fuel (n / 10) (digit (n % 10) ⧺ rest) in
    if ltb n 10 then digit n ⧺ rest else more

-- `String(n)`: a number has fewer decimal digits than its value plus two.
unfoldable pub show_nat : ℕ → String
unfolding digits_of
show_nat n = digits_of (suc n) n ""

-- The characters that lie whole within the first `n` code units: `slice(0, n)`, but for half of a
-- character at the end.
unfoldable pub slice_units : ℕ → String → String
slice_units n String.[] = ""
slice_units n (String.◌∷◌ c s) =
    let size = if ltb (code c) 0x10000 then 1 else 2 in
    let rest = slice_units (n - size) s in if leb size n then String.◌∷◌ c rest else ""
