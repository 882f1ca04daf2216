-- ===== src/Proxy/Address/Printed.antt =====
-- The text `ip:port` of an address and one port, as ParseIP3 of proxy/server.go reads it.
use Prim.Native.Char.{Char, code}
use Prim.Native.String.{◌++◌ as ◌+++◌}
use mathlib.Core.List.{append-nil}
use cloudlab_k8s.Prelude.{
  ◌&&◌, ℕ, ◌^◌, ◌<◌, Bool, true, List, [], ◌∷◌, ◌++◌, none, some, String, ℤ, pos, ltb,
  if◌then◌else◌, ◌≡◌, refl, sym, ap, ◌∙◌, arith,
}
use cloudlab_k8s.Proxy.Types.{Ip, Net, nil_ip, status_ok, bad_request}
use cloudlab_k8s.Proxy.Address.Regexp.{Pattern, one, plus, seq, group, chars, text_of}
use cloudlab_k8s.Proxy.Address.Regexp.Texts.{text_of-chars, chars-append}
use cloudlab_k8s.Proxy.Address.Regexp.Spelled.{AllIn, Spells}
use cloudlab_k8s.Proxy.Address.Decimal.{is_digit}
use cloudlab_k8s.Proxy.Address.{
  is_char, dotted, minus_one, Parsed, parse_ip2, parse_ip3, parse_ip_new,
}
use cloudlab_k8s.Proxy.Address.Dotted.{colon, IsDotted, IsNumber, NoDigit, EndsNumber, number}
use cloudlab_k8s.Proxy.Address.Parsed.{parse_ip2-port, parse_ip3-range}
use cloudlab_k8s.Proxy.Address.Accepted.{no_dash, parse_ip3-NoDash}
use cloudlab_k8s.Proxy.Fmt.{sprint_int, int_digits}
use cloudlab_k8s.Proxy.Fmt.RoundTrip.{natural_digits_lem, chars-sprint_int, AllIn-append}

-- Every character that the expression takes is of the class.
abbrev Within : (ℕ → Bool) → Pattern → Type 0
Within p (one q) = (c : ℕ) → q c ≡ true → p c ≡ true
Within p (plus q) = (c : ℕ) → q c ≡ true → p c ≡ true
Within p (seq r q) = Within p r × Within p q
Within p (group r) = Within p r

AllIn-map :
    (p q : ℕ → Bool) (t : List Char) → ((c : ℕ) → q c ≡ true → p c ≡ true) → AllIn q t → AllIn p t
AllIn-map p q [] h _ = tt
AllIn-map p q (c ∷ t) h (e, all) = (h (code c) e, AllIn-map p q t h all)

Within-AllIn :
    (p : ℕ → Bool) (r : Pattern) (t : List Char) (gs : List (List Char))
    → Within p r
    → Spells r t gs
    → AllIn p t
Within-AllIn p (one q) t gs h (c, e, et, eg) = rw et (h (code c) e, tt)
Within-AllIn p (plus q) t gs h (ne, all, eg) = AllIn-map p q t h all
Within-AllIn p (seq r q) t gs (hr, hq) (a, b, g, k, sr, sq, et, eg) =
    rw et (AllIn-append p a b (Within-AllIn p r a g hr sr) (Within-AllIn p q b k hq sq))
Within-AllIn p (group r) t gs h (g, s, eg) = Within-AllIn p r t g h s

digit-no_dash : (c : ℕ) → is_digit c ≡ true → no_dash c ≡ true
digit-no_dash c e = ground arith

dot-no_dash : (c : ℕ) → is_char b'.' c ≡ true → no_dash c ≡ true
dot-no_dash c e = ground arith

dotted-Within :
    (q : ℕ → Bool)
    → ((c : ℕ) → is_digit c ≡ true → q c ≡ true)
    → ((c : ℕ) → is_char b'.' c ≡ true → q c ≡ true)
    → Within q dotted
dotted-Within q hd hp = (hd, (hp, (hd, (hp, (hd, (hp, hd))))))

-- The text that claims the port of the address.
abbrev pub claimed_port : String → ℕ → String
claimed_port ip p = ip +++ (":" +++ sprint_int (pos p))

printed-IsNumber :
    (p : ℕ) → p < 2 ^ 31 → IsNumber (sprint_int (pos p)) × (number (sprint_int (pos p)) ≡ p)
unfolding int_digits
printed-IsNumber p h =
    let (ne, all, same) = natural_digits_lem p (omega arith) in
    rw (chars-sprint_int (pos p)) ((ne, all), same)

chars-claimed_port :
    (ip : String) (p : ℕ)
    → chars (claimed_port ip p) ≡ chars ip ++ (colon ∷ chars (sprint_int (pos p)))
unfolding chars
chars-claimed_port ip p = simp chars-append

-- It has digits, dots and a colon only.
pub claimed_port-AllIn :
    (q : ℕ → Bool) (ip : String) (p : ℕ)
    → ((c : ℕ) → is_digit c ≡ true → q c ≡ true)
    → ((c : ℕ) → is_char b'.' c ≡ true → q c ≡ true)
    → q b':' ≡ true
    → IsDotted ip
    → p < 2 ^ 31
    → AllIn q (chars (claimed_port ip p))
claimed_port-AllIn q ip p hd hp hc hi h = rw (chars-claimed_port ip p) (
    AllIn-append q (chars ip) _ (Within-AllIn q dotted (chars ip) [] (dotted-Within q hd hp) hi)
      (hc, AllIn-map q is_digit _ hd (printed-IsNumber p h).0.1))

chars-empty : chars "" ≡ []
unfolding chars
chars-empty = refl

chars_injective : (s t : String) → chars s ≡ chars t → s ≡ t
chars_injective s t e = sym (text_of-chars s) ∙ ap text_of e ∙ text_of-chars t

-- The text with nothing around it.
bare_text : (ip l : String) → ip +++ (":" +++ l) ≡ "" +++ (ip +++ (":" +++ (l +++ "")))
bare_text ip l = chars_injective _ _ (same_chars ip l)
  where
    same_chars :
        (ip l : String) → chars (ip +++ (":" +++ l)) ≡ chars ("" +++ (ip +++ (":" +++ (l +++ ""))))
    same_chars ip l = simp (chars-append, chars-empty, append-nil)

bare_range :
    (ip l r : String)
    → ip +++ (":" +++ (l +++ ("-" +++ r))) ≡ "" +++ (ip +++ (":" +++ (l +++ ("-" +++ (r +++ "")))))
bare_range ip l r = chars_injective _ _ (same_chars ip l r)
  where
    same_chars :
        (ip l r : String)
        → chars (ip +++ (":" +++ (l +++ ("-" +++ r))))
          ≡ chars ("" +++ (ip +++ (":" +++ (l +++ ("-" +++ (r +++ ""))))))
    same_chars ip l r = simp (chars-append, chars-empty, append-nil)

nothing-NoDigit : NoDigit ""
nothing-NoDigit = rw chars-empty tt

nothing-EndsNumber : EndsNumber ""
nothing-EndsNumber = rw chars-empty tt

-- ParseIP3 of a text that is an address and a range of ports below 2^31, and nothing else.
pub parse_ip3-whole :
    (ip l r : String)
    → IsDotted ip
    → IsNumber l
    → IsNumber r
    → number l < 2 ^ 31
    → number r < 2 ^ 31
    → parse_ip3 (ip +++ (":" +++ (l +++ ("-" +++ r))))
      ≡ (ip, pos (number l), pos (number r), status_ok)
parse_ip3-whole ip l r hi hl hr bl br =
    ap parse_ip3 (bare_range ip l r)
    ∙ parse_ip3-range "" ip l r "" hi hl hr nothing-NoDigit nothing-EndsNumber
    ∙ in_bounds (number l) (number r) bl br
  where
    in_bounds :
        (m n : ℕ)
        → m < 2 ^ 31
        → n < 2 ^ 31
        → ◌≡◌ {A = Parsed}
            (if ltb m (2 ^ 31) && ltb n (2 ^ 31)
              then (ip, pos m, pos n, status_ok)
              else ("", pos 0, pos 0, bad_request))
            (ip, pos m, pos n, status_ok)
    in_bounds m n h k = ground arith

-- ParseIP3 reads the address and the port that the text claims, with -1 for the second port.
pub parse_ip3-claimed_port :
    (ip : String) (p : ℕ)
    → IsDotted ip
    → p < 2 ^ 31
    → parse_ip3 (claimed_port ip p) ≡ (ip, pos p, minus_one, status_ok)
parse_ip3-claimed_port ip p hi h =
    let l = sprint_int (pos p) in
    let (is_number, same) = printed-IsNumber p h in
    parse_ip3-NoDash (claimed_port ip p)
      (claimed_port-AllIn no_dash ip p digit-no_dash dot-no_dash refl hi h)
    ∙ ap parse_ip2 (bare_text ip l)
    ∙ parse_ip2-port "" ip l "" hi is_number nothing-NoDigit nothing-EndsNumber
    ∙ rw (same) (small p h)
  where
    small :
        (p : ℕ)
        → p < 2 ^ 31
        → ◌≡◌ {A = Parsed}
            (if ltb p (2 ^ 31)
              then (ip, pos p, minus_one, status_ok)
              else ("", pos 0, pos 0, bad_request))
            (ip, pos p, minus_one, status_ok)
    small p h = ground arith

-- ParseIPNew of it, where package net parses the address.
pub parse_ip_new-claimed_port :
    (net : Net) (s : String) (ip : Ip) (p : ℕ)
    → IsDotted s
    → p < 2 ^ 31
    → net.parse_ip s ≡ some ip
    → parse_ip_new net (claimed_port s p) ≡ (ip, pos p, minus_one, status_ok)
unfolding parse_ip_new
parse_ip_new-claimed_port net s ip p hi h parsed =
    ap
      (λ (r : Parsed). elim (net.parse_ip r.0) as (λ _. Ip × ℤ × ℤ × ℕ) [
        | none ↦ (nil_ip, minus_one, minus_one, bad_request)
        | some ip ↦ (ip, r.1, r.2, r.3)
      ])
      (parse_ip3-claimed_port s p hi h)
    ∙ ap
        (λ o. elim o as (λ _. Ip × ℤ × ℤ × ℕ) [
          | none ↦ (nil_ip, minus_one, minus_one, bad_request)
          | some ip ↦ (ip, pos p, minus_one, status_ok)
        ])
        parsed
