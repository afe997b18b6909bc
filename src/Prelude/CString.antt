-- ===== src/Prelude/CString.antt =====
-- C strings as lists of bytes without the terminator, and what the programs use of <string.h> and
-- <stdlib.h>.
use Prim.Native.Nat.{ℕ, zero, suc, ◌+◌, ◌-◌, ◌*◌, ◌/◌, ◌%◌, ◌^◌}
use mathlib.Core.Option
use mathlib.Core.Option.{Option, none, some}
use Prim.Native.Char.{code}
use Prim.Native.String.{String}
use mathlib.Core.Path.{◌≡◌, refl, subst}
use mathlib.Core.Logic.{◌≢◌}
use native.Mathlib.Omega.{arith}
use mathlib.Core.Bool.{Bool, true, false, ◌&&◌, ◌||◌}
use mathlib.Core.List.{List, [], ◌∷◌, ◌++◌}
use linux_unix_system_progra.Prelude.Tests.{leb, ◌==◌, if◌then◌else◌}

abbrev pub Text : Type 0
Text = List ℕ

-- A literal of the source, which is ASCII.
abbrev pub codes : String → Text
codes String.[] = []
codes (String.◌∷◌ c s) = code c ∷ codes s

-- strcmp(a, b) == 0
unfoldable pub text_eq : Text → Text → Bool
text_eq [] [] = true
text_eq (a ∷ s) (b ∷ t) = a == b && text_eq s t
text_eq _ _ = false

-- `int` and `long` values that may be negative: `negsuc n` is -(n + 1).
pub data ℤ : Type 0 where
  pos : ℕ → ℤ
  negsuc : ℕ → ℤ

is_digit : ℕ → Bool
is_digit c = leb b'0' c && leb c b'9'

is_space : ℕ → Bool
is_space c = c == 32 || (leb 9 c && leb c 13)

digits_value : ℕ → Text → ℕ
digits_value acc [] = acc
digits_value acc (c ∷ s) = elim (is_digit c) [
  | true ↦ digits_value (acc * 10 + (c - b'0')) s
  | false ↦ acc
]

negate : ℕ → ℤ
negate zero = pos 0
negate (suc n) = negsuc n

signed_value : Text → ℤ
signed_value [] = pos 0
signed_value (c ∷ s) =
    if c == b'-'
    then negate (digits_value 0 s)
    else if c == b'+'
    then pos (digits_value 0 s)
    else pos (digits_value 0 (c ∷ s))

-- atoi, atol, atoll: the value out of range of the type is undefined in C and is not cut here.
unfoldable pub atoi : Text → ℤ
unfolding is_digit is_space digits_value negate signed_value
atoi [] = pos 0
atoi (c ∷ s) = elim (is_space c) [ true ↦ atoi s | false ↦ signed_value (c ∷ s) ]

atoi_runs : atoi (codes " -42x") ≡ negsuc 41
unfolding atoi
atoi_runs = refl

-- toupper on the ASCII range (the "C" locale).
pub toupper : ℕ → ℕ
toupper c = if leb b'a' c && leb c b'z' then c - 32 else c

unfoldable pub all_zero : Text → Bool
all_zero [] = true
all_zero (b ∷ bs) = b == 0 && all_zero bs

-- x == -1, and the value of a comparison as an `int`.
abbrev pub is_minus_one : ℤ → Bool
is_minus_one (pos n) = false
is_minus_one (negsuc zero) = true
is_minus_one (negsuc (suc n)) = false

abbrev pub truth : Bool → ℕ
truth true = 1
truth false = 0

abbrev pub int_eq : ℤ → ℤ → Bool
int_eq (pos a) (pos b) = a == b
int_eq (negsuc a) (negsuc b) = a == b
int_eq (pos a) (negsuc b) = false
int_eq (negsuc a) (pos b) = false

-- (x & bit) for a power of two.
abbrev pub has_bit : ℕ → ℕ → Bool
has_bit x bit = (x / bit) % 2 == 1

-- The two's complement of an `int`, and the `int` behind 32 bits.
abbrev pub int_bits : ℤ → ℕ
int_bits (pos n) = n % 2 ^ 32
int_bits (negsuc n) = 2 ^ 32 - 1 - n % 2 ^ 32

abbrev pub bits_int : ℕ → ℤ
bits_int b = if leb (2 ^ 31) b then negsuc (2 ^ 32 - 1 - b) else pos b

-- An `int` as a size_t.
abbrev pub int_size : ℤ → ℕ
int_size (pos n) = n
int_size (negsuc n) = 2 ^ 64 - 1 - n

-- The C string at the front of a buffer; none if the buffer has no terminator.
unfoldable pub c_string : Text → Option Text
c_string [] = none
c_string (b ∷ bs) = if b == 0 then some [] else Option.map (λ s. b ∷ s) (c_string bs)

-- What printf shows of a buffer that has a terminator.
pub until_nul : Text → Text
until_nul [] = []
until_nul (b ∷ bs) = let rest = until_nul bs in if b == 0 then [] else b ∷ rest

digit_in : ℕ → ℕ → Option ℕ
digit_in base c =
    if is_digit c && leb (c - b'0' + 1) base
    then some (c - b'0')
    else if leb b'a' c && leb (c - b'a' + 11) base
    then some (c - b'a' + 10)
    else if leb b'A' c && leb (c - b'A' + 11) base
    then some (c - b'A' + 10)
    else none

number_in : ℕ → ℕ → Text → ℕ
number_in base acc [] = acc
number_in base acc (c ∷ s) = elim (digit_in base c) [
  | some d ↦ number_in base (acc * base + d) s
  | none ↦ acc
]

-- The digits of %li after the sign: 0x begins hexadecimal digits, 0 octal ones.
based_number : Text → Option ℕ
based_number [] = none
based_number (c ∷ []) = Option.map (λ d. d) (digit_in 10 c)
based_number (c ∷ d ∷ s) =
    if c == b'0' && (d == b'x' || d == b'X')
    then some (number_in 16 0 s)
    else if c == b'0'
    then some (number_in 8 0 (d ∷ s))
    else Option.map (λ _. number_in 10 0 (c ∷ d ∷ s)) (digit_in 10 c)

-- sscanf(text, "%li", &number): the value out of range of `long` is not cut here.
pub scan_long : Text → Option ℤ
unfolding is_space is_digit digit_in number_in based_number negate
scan_long [] = none
scan_long (c ∷ s) = elim (is_space c) [
  | true ↦ scan_long s
  | false ↦
      if c == b'-'
      then Option.map negate (based_number s)
      else if c == b'+'
      then Option.map pos (based_number s)
      else Option.map pos (based_number (c ∷ s))
]

scan_long_runs :
    (scan_long (codes "-0x1F") ≡ some (negsuc 30)) × (scan_long (codes "017") ≡ some (pos 15))
unfolding scan_long
scan_long_runs = (refl, refl)

rest_of_digits : Text → Text
rest_of_digits [] = []
rest_of_digits (c ∷ s) = let rest = rest_of_digits s in if is_digit c then rest else c ∷ s

-- %d after spaces and a sign: the number and what follows it.
scan_digits : (ℕ → ℤ) → Text → Option (ℤ × Text)
scan_digits sign [] = none
scan_digits sign (c ∷ s) =
    if is_digit c then some (sign (digits_value 0 (c ∷ s)), rest_of_digits s) else none

-- %d of sscanf: the value out of range of `int` is not cut here.
unfoldable pub scan_int : Text → Option (ℤ × Text)
unfolding is_space is_digit scan_digits rest_of_digits digits_value negate
scan_int [] = none
scan_int (c ∷ s) = elim (is_space c) [
  | true ↦ scan_int s
  | false ↦
      if c == b'-'
      then scan_digits negate s
      else if c == b'+'
      then scan_digits pos s
      else scan_digits pos (c ∷ s)
]

-- No terminator inside.
abbrev pub IsCString : Text → Type 0
IsCString [] = Unit
IsCString (b ∷ s) = (b ≢ 0) × IsCString s

pub c_string-append : (s rest : Text) → IsCString s → c_string (s ++ 0 ∷ rest) ≡ some s
unfolding c_string
c_string-append [] rest c = refl
c_string-append (b ∷ s) rest (nz, c) = let ih = c_string-append s rest c in ground (arith, ih, nz)

longer :
    (b : ℕ) (r : Option Text) (s : Text)
    → ((s' : Text) → r ≡ some s' → IsCString s')
    → (if b == 0 then some [] else Option.map (λ s. b ∷ s) r) ≡ some s
    → IsCString s
longer b r [] ih h = tt
longer b none (c ∷ s) ih h = ground arith
longer b (some s') (c ∷ s) ih h =
    let same : s' ≡ s = ground (arith, h) in (ground (arith, h), subst IsCString same (ih s' refl))

pub c_string-IsCString : (bs s : Text) → c_string bs ≡ some s → IsCString s
unfolding c_string
c_string-IsCString [] s h = ground arith
c_string-IsCString (b ∷ bs) s h = longer b (c_string bs) s (c_string-IsCString bs) h
