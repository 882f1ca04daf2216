-- ===== src/Proxy/Address/Decimal.antt =====
-- strconv.ParseInt(s, 10, 32), which the ports of an address go through: an
-- optional sign and one or more digits, refused where the number is no int32.
use Prim.Native.Char.{Char, code}
use cloudlab_k8s.Prelude.{
  ℕ, ◌+◌, ◌-◌, ◌*◌, ◌^◌, Bool, true, ◌&&◌, List, [], ◌∷◌, String, Option, none, some, if◌then◌else◌,
  ltb, leb, nat_beq, ℤ, pos, sub_ℕ, ◌≡◌, refl, ap, ◌∙◌, ◌≢◌, arith,
}
use cloudlab_k8s.Proxy.Address.Regexp.{chars}
use cloudlab_k8s.Proxy.Address.Regexp.Spelled.{AllIn}

abbrev pub is_digit : ℕ → Bool
is_digit c = leb b'0' c && leb c b'9'

-- The number that digits spell behind `n`.
abbrev pub value_from : ℕ → List Char → ℕ
value_from n [] = n
value_from n (c ∷ s) = value_from (n * 10 + (code c - b'0')) s

abbrev pub value : List Char → ℕ
value s = value_from 0 s

scan_digits : ℕ → List Char → Option ℕ
scan_digits n [] = some n
scan_digits n (c ∷ s) =
    let rest = scan_digits (n * 10 + (code c - b'0')) s in if is_digit (code c) then rest else none

unsigned : List Char → Option ℕ
unfolding scan_digits
unsigned [] = none
unsigned (c ∷ s) = scan_digits 0 (c ∷ s)

abbrev int_limit : ℕ
int_limit = 2 ^ 31

positive : Option ℕ → Option ℤ
positive none = none
positive (some n) = if ltb n int_limit then some (pos n) else none

negative : Option ℕ → Option ℤ
negative none = none
negative (some n) = if leb n int_limit then some (sub_ℕ 0 n) else none

parse_signed : List Char → Option ℤ
unfolding unsigned positive negative
parse_signed [] = none
parse_signed (c ∷ s) =
    if nat_beq (code c) b'-'
    then negative (unsigned s)
    else if nat_beq (code c) b'+'
    then positive (unsigned s)
    else positive (unsigned (c ∷ s))

unfoldable pub parse_int32 : String → Option ℤ
unfolding parse_signed chars
parse_int32 s = parse_signed (chars s)

scan_digits_lem :
    (n : ℕ) (s : List Char) → AllIn is_digit s → scan_digits n s ≡ some (value_from n s)
unfolding scan_digits
scan_digits_lem n [] _ = refl
scan_digits_lem n (c ∷ s) (e, h) = rw e (scan_digits_lem (n * 10 + (code c - b'0')) s h)

unsigned_lem : (s : List Char) → s ≢ [] → AllIn is_digit s → unsigned s ≡ some (value s)
unfolding unsigned
unsigned_lem [] n _ = absurd (n refl)
unsigned_lem (c ∷ s) n h = scan_digits_lem 0 (c ∷ s) h

positive-some : (n : ℕ) → positive (some n) ≡ (if ltb n (2 ^ 31) then some (pos n) else none)
unfolding positive
positive-some n = refl

unsigned_first :
    (c : Char) (s : List Char)
    → is_digit (code c) ≡ true
    → parse_signed (c ∷ s) ≡ positive (unsigned (c ∷ s))
unfolding parse_signed
unsigned_first c s e = ground arith

-- Digits are their number, if it is below 2^31, and refused otherwise.
pub parse_int32-digits :
    (s : String)
    → chars s ≢ []
    → AllIn is_digit (chars s)
    → parse_int32 s
      ≡ (if ltb (value (chars s)) (2 ^ 31) then some (pos (value (chars s))) else none)
unfolding parse_int32
parse_int32-digits s n h = signed_digits (chars s) n h
  where
    signed_digits :
        (t : List Char)
        → t ≢ []
        → AllIn is_digit t
        → parse_signed t ≡ (if ltb (value t) (2 ^ 31) then some (pos (value t)) else none)
    signed_digits [] n _ = absurd (n refl)
    signed_digits (c ∷ t) n h =
        unsigned_first c t h.0
        ∙ ap positive (unsigned_lem (c ∷ t) n h)
        ∙ positive-some (value (c ∷ t))
