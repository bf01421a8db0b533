-- ===== src/Base/Strings.antt =====
-- JavaScript strings as lists of UTF-16 code units, with the library functions that the source
-- calls on them: equality, `trim`, `toUpperCase` (on ASCII letters) and `includes`.
use Prim.Native.Nat.{ℕ, ◌+◌, ◌-◌, ◌*◌, ◌<◌}
use Prim.Native.Char.{code}
use Prim.Native.String.{String}
use mathlib.Core.Path.{◌≡◌, refl, ap, sym, ◌∙◌}
use mathlib.Core.Bool.{Bool, true, false, ◌||◌, ◌&&◌}
use mathlib.Core.Option.{Option, none, some}
use mathlib.Core.List.{List, [], ◌∷◌, ◌++◌, reverse, map, reverse-append, reverse-reverse}
use native.Mathlib.Omega.{arith}
use sportystake.Base.Lists.{All}
use sportystake.Base.Tests.{◌==◌, if◌then◌else◌, leb}

abbrev pub Text : Type 0
Text = List ℕ

-- The code units of an ASCII literal.
abbrev pub codes : String → Text
codes String.[] = []
codes (String.◌∷◌ c s) = code c ∷ codes s

-- `===` on strings
abbrev pub text_eq : Text → Text → Bool
text_eq [] [] = true
text_eq [] (d ∷ ds) = false
text_eq (c ∷ cs) [] = false
text_eq (c ∷ cs) (d ∷ ds) = c == d && text_eq cs ds

pub text_eq-eq : (s t : Text) → text_eq s t ≡ true → s ≡ t
text_eq-eq [] [] h = refl
text_eq-eq [] (d ∷ ds) h = cc
text_eq-eq (c ∷ cs) [] h = cc
text_eq-eq (c ∷ cs) (d ∷ ds) h = ground (arith, text_eq-eq cs ds)

pub text_eq_refl : (s : Text) → text_eq s s ≡ true
text_eq_refl [] = refl
text_eq_refl (c ∷ cs) = ground (arith, text_eq_refl cs)

-- `\d`
abbrev pub is_digit : ℕ → Bool
is_digit c = leb b'0' c && leb c b'9'

-- What `trim` removes: white space and line terminators.
abbrev pub is_space : ℕ → Bool
is_space c =
    (leb 9 c && leb c 13)
    || c == 32
    || c == 160
    || c == 5760
    || (leb 8192 c && leb c 8202)
    || c == 8232
    || c == 8233
    || c == 8239
    || c == 8287
    || c == 12288
    || c == 65279

unfoldable pub trim_start : Text → Text
trim_start [] = []
trim_start (c ∷ cs) = let rest = trim_start cs in if is_space c then rest else c ∷ cs

-- `s.trim()`
unfoldable pub trim : Text → Text
unfolding trim_start
trim s = reverse (trim_start (reverse (trim_start s)))

-- `s.toUpperCase()` on ASCII letters; no other code unit has one of `1`, `2`, `X` as upper case.
abbrev pub upper_unit : ℕ → ℕ
upper_unit c = if leb b'a' c && leb c b'z' then c - 32 else c

unfoldable pub to_upper : Text → Text
to_upper = map upper_unit

abbrev pub lower_unit : ℕ → ℕ
lower_unit c = if leb b'A' c && leb c b'Z' then c + 32 else c

-- `s.toLowerCase()` on ASCII letters.
unfoldable pub to_lower : Text → Text
to_lower = map lower_unit

-- The rest of a text behind a prefix.
abbrev pub strip_prefix : Text → Text → Option Text
strip_prefix [] s = some s
strip_prefix (p ∷ ps) [] = none
strip_prefix (p ∷ ps) (c ∷ cs) = if p == c then strip_prefix ps cs else none

abbrev pub starts : Text → Text → Bool
starts p s = elim (strip_prefix p s) [ none ↦ false | some _ ↦ true ]

-- `s.includes(p)`
unfoldable pub includes : Text → Text → Bool
includes [] p = starts p []
includes (c ∷ cs) p = starts p (c ∷ cs) || includes cs p

-- `\d+`: the digits in front, and what follows them
abbrev pub digits_of : Text → List ℕ
digits_of [] = []
digits_of (c ∷ cs) = let rest = digits_of cs in if is_digit c then (c - b'0') ∷ rest else []

abbrev pub after_digits : Text → Text
after_digits [] = []
after_digits (c ∷ cs) = let rest = after_digits cs in if is_digit c then rest else c ∷ cs

-- The value of decimal digits behind those already read.
abbrev pub value_from : ℕ → List ℕ → ℕ
value_from acc [] = acc
value_from acc (d ∷ ds) = value_from (acc * 10 + d) ds

-- A text that begins and ends with something else than white space is what `trim` leaves.
pub trim_fixed :
    (c : ℕ) (m : Text) (d : ℕ)
    → is_space c ≡ false
    → is_space d ≡ false
    → trim (c ∷ (m ++ d ∷ [])) ≡ c ∷ (m ++ d ∷ [])
unfolding trim
trim_fixed c m d hc hd =
    let back : reverse (c ∷ (m ++ d ∷ [])) ≡ d ∷ reverse (c ∷ m) =
      reverse-append (c ∷ m) (d ∷ []) in
    rw (hc, back, hd) (ap reverse (sym back) ∙ reverse-reverse (c ∷ (m ++ d ∷ [])))

-- The text of decimal digits.
abbrev pub spell : List ℕ → Text
spell = map (λ d. d + b'0')

abbrev pub IsDigits : List ℕ → Type 0
IsDigits = All (λ d. d < 10)

pub digits_of-spell :
    (ds : List ℕ) (c : ℕ) (rest : Text)
    → IsDigits ds
    → is_digit c ≡ false
    → digits_of (spell ds ++ c ∷ rest) ≡ ds
digits_of-spell [] c rest h hc = ground arith
digits_of-spell (d ∷ ds) c rest h hc = ground (arith, digits_of-spell ds c rest h.1 hc)

pub after_digits-spell :
    (ds : List ℕ) (c : ℕ) (rest : Text)
    → IsDigits ds
    → is_digit c ≡ false
    → after_digits (spell ds ++ c ∷ rest) ≡ c ∷ rest
after_digits-spell [] c rest h hc = ground arith
after_digits-spell (d ∷ ds) c rest h hc = ground (arith, after_digits-spell ds c rest h.1 hc)

pub digits_of-spell_all : (ds : List ℕ) → IsDigits ds → digits_of (spell ds) ≡ ds
digits_of-spell_all [] h = refl
digits_of-spell_all (d ∷ ds) h = ground (arith, digits_of-spell_all ds h.1)

pub after_digits-spell_all : (ds : List ℕ) → IsDigits ds → after_digits (spell ds) ≡ []
after_digits-spell_all [] h = refl
after_digits-spell_all (d ∷ ds) h = ground (arith, after_digits-spell_all ds h.1)
