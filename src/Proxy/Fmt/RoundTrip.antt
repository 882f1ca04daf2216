-- ===== src/Proxy/Fmt/RoundTrip.antt =====
-- Sscanf of `%d:%d` reads back two ints that Sprintf of `%d:%d` has printed.
use Prim.Native.Char.{Char, code}
use Prim.Native.String.{◌++◌ as ◌+++◌}
use mathlib.Core.Path.{subst}
use mathlib.Core.List.{append_assoc, append-nil, cons-ne-nil}
use cloudlab_k8s.Prelude.{
  ℕ, zero, suc, ◌+◌, ◌-◌, ◌*◌, ◌/◌, ◌%◌, ◌^◌, ◌<◌, ◌≤◌, Bool, true, false, List, [], ◌∷◌, ◌++◌,
  some, if◌then◌else◌, nat_beq, nat_beq_iff, ℤ, pos, negsuc, ◌≡◌, ◌≢◌, refl, sym, ap, ◌∙◌, arith,
  Bool-cases, inl, inr,
}
use cloudlab_k8s.Proxy.Address.Regexp.{chars}
use cloudlab_k8s.Proxy.Address.Regexp.Texts.{chars-text_of, chars-append}
use cloudlab_k8s.Proxy.Address.Regexp.Spelled.{AllIn}
use cloudlab_k8s.Proxy.Address.Regexp.Preferred.{Stops}
use cloudlab_k8s.Proxy.Address.Decimal.{is_digit, value_from}
use cloudlab_k8s.Proxy.Fmt.{
  digit_char, digits_before, most_digits, natural_digits, minus, colon, int_digits, sprint_int,
  skip_space, span_digits, int_of, scan_digits, scan_signed, scan_int, with_first, scan_second,
  sscan_ports,
}

-- Ten to a power, by the number of digits.
abbrev pub power_of_ten : ℕ → ℕ
power_of_ten zero = 1
power_of_ten (suc k) = 10 * power_of_ten k

value_from-append :
    (m : ℕ) (s t : List Char) → value_from m (s ++ t) ≡ value_from (value_from m s) t
value_from-append m [] t = refl
value_from-append m (c ∷ s) t = value_from-append (m * 10 + (code c - b'0')) s t

pub AllIn-append : (p : ℕ → Bool) (s t : List Char) → AllIn p s → AllIn p t → AllIn p (s ++ t)
AllIn-append p [] t _ h = h
AllIn-append p (c ∷ s) t (e, g) h = (e, AllIn-append p s t g h)

code-digit_char : (n : ℕ) → code (digit_char n) ≡ b'0' + n % 10
unfolding digit_char
code-digit_char n = refl

is_digit-digit_char : (n : ℕ) → is_digit (code (digit_char n)) ≡ true
is_digit-digit_char n = ground (arith, code-digit_char n)

-- The digits that are put before `out` spell the number.
abbrev Before : ℕ → List Char → List Char → Type 0
Before n out all =
    (run : List Char) × (all ≡ run ++ out) × AllIn is_digit run × (value_from 0 run ≡ n)

digits_before_lem :
    (fuel n : ℕ) (out : List Char) → n < power_of_ten fuel → Before n out (digits_before fuel n out)
unfolding digits_before
digits_before_lem zero n out h = ([], refl, tt, omega arith)
digits_before_lem (suc fuel) n out h = elim (Bool-cases (nat_beq n 0)) [
  | inl e ↦ rw e ([], refl, tt, sym ((nat_beq_iff n 0).0 e))
  | inr e ↦
      let (run, eq, all, same) =
        digits_before_lem fuel (n / 10) (digit_char n ∷ out) (omega arith) in
      rw e (
        run ++ (digit_char n ∷ []),
        eq ∙ sym (append_assoc run (digit_char n ∷ []) out),
        AllIn-append is_digit run (digit_char n ∷ []) all (is_digit-digit_char n, tt),
        value_from-append 0 run (digit_char n ∷ [])
            ∙ ap (λ v. v * 10 + (code (digit_char n) - b'0')) same
            ∙ omega (arith, code-digit_char n),
      )
]

-- One digit at least, and the number that they spell.
abbrev pub Digits : ℕ → List Char → Type 0
Digits n run = (run ≢ []) × AllIn is_digit run × (value_from 0 run ≡ n)

nonzero_run : (n : ℕ) (run : List Char) → nat_beq n 0 ≡ false → value_from 0 run ≡ n → run ≢ []
nonzero_run n [] e h = λ _. ground (arith, h, e)
nonzero_run n (c ∷ run) e h = cons-ne-nil c run

natural_digits-zero : (n : ℕ) → nat_beq n 0 ≡ true → natural_digits n ≡ digit_char 0 ∷ []
unfolding natural_digits
natural_digits-zero n e =
    ap (λ b. if b then digit_char 0 ∷ [] else digits_before most_digits n []) e

natural_digits-before :
    (n : ℕ) → nat_beq n 0 ≡ false → natural_digits n ≡ digits_before most_digits n []
unfolding natural_digits
natural_digits-before n e =
    ap (λ b. if b then digit_char 0 ∷ [] else digits_before most_digits n []) e

pub natural_digits_lem : (n : ℕ) → n < power_of_ten most_digits → Digits n (natural_digits n)
natural_digits_lem n h = elim (Bool-cases (nat_beq n 0)) [
  | inl e ↦ subst (Digits n) (sym (natural_digits-zero n e)) (
    cons-ne-nil (digit_char 0) [],
    (is_digit-digit_char 0, tt),
    omega (arith, code-digit_char 0, (nat_beq_iff n 0).0 e),
  )
  | inr e ↦
      let (run, eq, all, same) = digits_before_lem most_digits n [] h in
      subst (Digits n) (sym (natural_digits-before n e ∙ eq ∙ append-nil run))
        (nonzero_run n run e same, all, same)
]

span_digits_lem :
    (run s : List Char) → AllIn is_digit run → Stops is_digit s → span_digits (run ++ s) ≡ (run, s)
unfolding span_digits
span_digits_lem [] [] _ _ = refl
span_digits_lem [] (c ∷ s) _ stop = rw stop refl
span_digits_lem (d ∷ run) s (e, all) stop = rw (e, span_digits_lem run s all stop) refl

int_of_natural :
    (n : ℕ) (run : List Char) → Digits n run → n < 2 ^ 63 → int_of false run ≡ some (pos n)
unfolding int_of
int_of_natural n [] (ne, all, same) h = absurd (ne refl)
int_of_natural n (c ∷ run) (ne, all, same) h = ground (arith, same)

int_of_negative :
    (n : ℕ) (run : List Char) → Digits (suc n) run → n < 2 ^ 63 → int_of true run ≡ some (negsuc n)
unfolding int_of
int_of_negative n [] (ne, all, same) h = absurd (ne refl)
int_of_negative n (c ∷ run) (ne, all, same) h = ground (arith, same)

-- What an int's text begins with is not skipped, and tells the sign.
skip_none :
    (c : Char) (s : List Char)
    → b'-' ≤ code c
    → code c ≤ b'9'
    → scan_int (c ∷ s) ≡ scan_signed (c ∷ s)
unfolding scan_int skip_space
skip_none c s l h = ground arith

-- The rest of a text after an int stops its digits.
with_sign :
    (minus_sign : Bool) (run s : List Char) (z : ℤ)
    → AllIn is_digit run
    → Stops is_digit s
    → int_of minus_sign run ≡ some z
    → scan_digits minus_sign (run ++ s) ≡ some (z, s)
unfolding scan_digits
with_sign minus_sign run s z all stop e = rw (span_digits_lem run s all stop, e, scan_digits) refl

digit_bounds : (c : ℕ) → is_digit c ≡ true → (b'0' ≤ c) × (c ≤ b'9')
digit_bounds c e = ground arith

-- A number below 2^63 is read back.
scan_natural :
    (n : ℕ) (run s : List Char)
    → Digits n run
    → n < 2 ^ 63
    → Stops is_digit s
    → scan_int (run ++ s) ≡ some (pos n, s)
unfolding scan_signed
scan_natural n [] s (ne, all, same) h stop = absurd (ne refl)
scan_natural n (c ∷ run) s (ne, (e, all), same) h stop =
    let bounds = digit_bounds (code c) e in
    skip_none c (run ++ s) (omega arith) (omega arith)
    ∙ unsigned c (run ++ s) bounds.0
    ∙ with_sign false (c ∷ run) s (pos n) (e, all) stop
        (int_of_natural n (c ∷ run) (ne, (e, all), same) h)
  where
    unsigned :
        (c : Char) (s : List Char) → b'0' ≤ code c → scan_signed (c ∷ s) ≡ scan_digits false (c ∷ s)
    unsigned c s h = ground arith

scan_negative :
    (n : ℕ) (run s : List Char)
    → Digits (suc n) run
    → n < 2 ^ 63
    → Stops is_digit s
    → scan_int (minus ∷ (run ++ s)) ≡ some (negsuc n, s)
unfolding scan_signed
scan_negative n run s (ne, all, same) h stop =
    skip_none minus (run ++ s) (omega arith) (omega arith)
    ∙ with_sign true run s (negsuc n) all stop (int_of_negative n run (ne, all, same) h)

-- The values of Go's int.
abbrev pub IsInt : ℤ → Type 0
IsInt (pos n) = n < 2 ^ 63
IsInt (negsuc n) = n < 2 ^ 63

scan_int-digits :
    (z : ℤ) (s : List Char)
    → IsInt z
    → Stops is_digit s
    → scan_int (int_digits z ++ s) ≡ some (z, s)
unfolding int_digits
scan_int-digits (pos n) s h stop =
    scan_natural n (natural_digits n) s (natural_digits_lem n (omega arith)) h stop
scan_int-digits (negsuc n) s h stop =
    scan_negative n (natural_digits (suc n)) s (natural_digits_lem (suc n) (omega arith)) h stop

pub chars-sprint_int : (z : ℤ) → chars (sprint_int z) ≡ int_digits z
unfolding sprint_int
chars-sprint_int z = chars-text_of (int_digits z)

chars-colon : chars ":" ≡ colon ∷ []
unfolding chars
chars-colon = refl

printed_chars :
    (a b : ℤ)
    → chars (sprint_int a +++ (":" +++ sprint_int b))
      ≡ int_digits a ++ (colon ∷ (int_digits b ++ []))
printed_chars a b = simp (chars-append, chars-sprint_int, chars-colon, append-nil)

scan_second_lem :
    (a b : ℤ) → IsInt b → scan_second (some (a, colon ∷ (int_digits b ++ []))) ≡ some (a, b)
unfolding scan_second
scan_second_lem a b hb = ap (with_first a) (scan_int-digits b [] hb tt)

-- Two ints that Sprintf of `%d:%d` has printed are read back by Sscanf.
pub sscan_ports-sprint_int :
    (a b : ℤ)
    → IsInt a
    → IsInt b
    → sscan_ports (sprint_int a +++ (":" +++ sprint_int b)) ≡ some (a, b)
unfolding sscan_ports
sscan_ports-sprint_int a b ha hb =
    ap (λ s. scan_second (scan_int s)) (printed_chars a b)
    ∙ ap scan_second (scan_int-digits a (colon ∷ (int_digits b ++ [])) ha refl)
    ∙ scan_second_lem a b hb
