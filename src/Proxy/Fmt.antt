-- ===== src/Proxy/Fmt.antt =====
-- What the proxy uses of package fmt on integers: the verb `%d` of Sprintf, and Sscanf of `%d:%d`.
pub mod RoundTrip
use Prim.Native.Char.{Char, char, code, IsScalar}
use Prim.Native.String.{◌++◌ as ◌+++◌}
use cloudlab_k8s.Prelude.{
  ℕ, zero, suc, ◌+◌, ◌/◌, ◌%◌, ◌^◌, ◌<◌, Bool, true, false, ◌&&◌, ◌||◌, List, [], ◌∷◌, String,
  Option, none, some, if◌then◌else◌, ltb, leb, nat_beq, ℤ, pos, negsuc, sub_ℕ, ◌≡◌, refl, arith,
}
use cloudlab_k8s.Proxy.Address.Regexp.{chars, text_of}
use cloudlab_k8s.Proxy.Address.Decimal.{is_digit, value_from}

scalar_small : (n : ℕ) → n < 55296 → IsScalar n
scalar_small n h = ground arith

digit_IsScalar : (n : ℕ) → IsScalar (b'0' + n % 10)
digit_IsScalar n = scalar_small (b'0' + n % 10) (omega arith)

-- The last digit of a number.
unfoldable pub digit_char : ℕ → Char
unfolding digit_IsScalar scalar_small
digit_char n = char (b'0' + n % 10) (digit_IsScalar n)

-- The digits of a number before `out`, at most as many as the fuel.
unfoldable pub digits_before : ℕ → ℕ → List Char → List Char
unfolding digit_char
digits_before zero n out = out
digits_before (suc fuel) n out =
    let more = digits_before fuel (n / 10) (digit_char n ∷ out) in if nat_beq n 0 then out else more

-- No int has more than twenty digits.
abbrev pub most_digits : ℕ
most_digits = 20

unfoldable pub natural_digits : ℕ → List Char
unfolding digits_before
natural_digits n = if nat_beq n 0 then digit_char 0 ∷ [] else digits_before most_digits n []

abbrev pub minus : Char
minus = char b'-' tt

abbrev pub colon : Char
colon = char b':' tt

unfoldable pub int_digits : ℤ → List Char
unfolding natural_digits
int_digits (pos n) = natural_digits n
int_digits (negsuc n) = minus ∷ natural_digits (suc n)

-- The text of `%d`.
unfoldable pub sprint_int : ℤ → String
unfolding int_digits text_of
sprint_int z = text_of (int_digits z)

-- The characters that Sscanf skips, without the end of line, which it refuses.
abbrev is_space : ℕ → Bool
is_space c =
    (leb 9 c && leb c 13)
    || nat_beq c 32
    || nat_beq c 133
    || nat_beq c 160
    || nat_beq c 5760
    || (leb 8192 c && leb c 8202)
    || (leb 8232 c && leb c 8233)
    || nat_beq c 8239
    || nat_beq c 8287
    || nat_beq c 12288

-- SkipSpace; `none` is an error.
unfoldable pub skip_space : List Char → Option (List Char)
skip_space [] = some []
skip_space (c ∷ s) =
    let later = skip_space s in
    if nat_beq (code c) 10 then none else if is_space (code c) then later else some (c ∷ s)

-- The digits at the beginning of a text, and the rest of it.
unfoldable pub span_digits : List Char → List Char × List Char
span_digits [] = ([], [])
span_digits (c ∷ s) =
    let (run, rest) = span_digits s in if is_digit (code c) then (c ∷ run, rest) else ([], c ∷ s)

-- An int of a sign and its digits: one digit at least, and in the range of 64 bits.
unfoldable pub int_of : Bool → List Char → Option ℤ
int_of minus_sign [] = none
int_of false (c ∷ run) =
    let n = value_from 0 (c ∷ run) in if ltb n (2 ^ 63) then some (pos n) else none
int_of true (c ∷ run) =
    let n = value_from 0 (c ∷ run) in if leb n (2 ^ 63) then some (sub_ℕ 0 n) else none

abbrev with_rest : Option ℤ → List Char → Option (ℤ × List Char)
with_rest none rest = none
with_rest (some z) rest = some (z, rest)

unfoldable pub scan_digits : Bool → List Char → Option (ℤ × List Char)
unfolding span_digits int_of
scan_digits minus_sign s = let (run, rest) = span_digits s in with_rest (int_of minus_sign run) rest

unfoldable pub scan_signed : List Char → Option (ℤ × List Char)
unfolding scan_digits
scan_signed [] = none
scan_signed (c ∷ s) =
    if nat_beq (code c) b'-'
    then scan_digits true s
    else if nat_beq (code c) b'+'
    then scan_digits false s
    else scan_digits false (c ∷ s)

-- The verb `%d`.
unfoldable pub scan_int : List Char → Option (ℤ × List Char)
unfolding skip_space scan_signed
scan_int s = elim (skip_space s) [ none ↦ none | some t ↦ scan_signed t ]

abbrev pub with_first : ℤ → Option (ℤ × List Char) → Option (ℤ × ℤ)
with_first a none = none
with_first a (some (b, rest)) = some (a, b)

-- Behind the first `%d`.
unfoldable pub scan_second : Option (ℤ × List Char) → Option (ℤ × ℤ)
unfolding scan_int
scan_second none = none
scan_second (some (a, [])) = none
scan_second (some (a, c ∷ s)) = if nat_beq (code c) b':' then with_first a (scan_int s) else none

-- Sscanf of `%d:%d`; what is left of the text does not matter.
unfoldable pub sscan_ports : String → Option (ℤ × ℤ)
unfolding scan_second chars
sscan_ports s = scan_second (scan_int (chars s))
