-- ===== src/Proxy/Address/Parsed.antt =====
-- What ParseIP2 and ParseIP3 of proxy/server.go answer on a text with an address in it.
use Prim.Native.Char.{Char}
use Prim.Native.String.{◌++◌ as ◌+++◌}
use mathlib.Core.List.{append_assoc}
use cloudlab_k8s.Prelude.{
  ◌^◌, ◌&&◌, List, [], ◌∷◌, ◌++◌, map, none, some, String, pos, ltb, if◌then◌else◌, ◌≡◌, refl, ap,
  ◌∙◌, Bool-cases, inl, inr,
}
use cloudlab_k8s.Proxy.Types.{status_ok, bad_request}
use cloudlab_k8s.Proxy.Address.Regexp.{seq, group, chars, text_of, find, find_string_submatch}
use cloudlab_k8s.Proxy.Address.Regexp.Texts.{text_of-chars, chars-append, find_string_submatch-some}
use cloudlab_k8s.Proxy.Address.Decimal.{parse_int32, parse_int32-digits}
use cloudlab_k8s.Proxy.Address.{
  run, char_then, ip_range_match, ip_port_match, minus_one, Parsed, port_of, ports_of, parse_ip2,
  parse_ip3,
}
use cloudlab_k8s.Proxy.Address.Dotted.{
  colon, dash, IsDotted, IsNumber, NoDigit, EndsNumber, number, port_text, range_text, find_address,
  ip_port_match-Settled, ip_range_match-Settled, address-Starts,
}

range_chars :
    (before ip l r after : String)
    → chars (before +++ (ip +++ (":" +++ (l +++ ("-" +++ (r +++ after))))))
      ≡ chars before ++ ((chars ip ++ (colon ∷ (chars l ++ (dash ∷ chars r)))) ++ chars after)
unfolding chars
range_chars before ip l r after = simp (chars-append, append_assoc)

number_of :
    (l : String)
    → IsNumber l
    → parse_int32 l ≡ (if ltb (number l) (2 ^ 31) then some (pos (number l)) else none)
number_of l h = parse_int32-digits l h.0 h.1

pub ports_of-numbers :
    (other : Parsed) (all ip l r : String)
    → IsNumber l
    → IsNumber r
    → ports_of other (all ∷ ip ∷ l ∷ r ∷ []) ≡ (
        if ltb (number l) (2 ^ 31) && ltb (number r) (2 ^ 31)
        then (ip, pos (number l), pos (number r), status_ok)
        else ("", pos 0, pos 0, bad_request))
unfolding ports_of
ports_of-numbers other all ip l r hl hr = elim (Bool-cases (ltb (number l) (2 ^ 31))) [
  | inl e ↦ elim (Bool-cases (ltb (number r) (2 ^ 31))) [
    | inl f ↦ rw (number_of l hl, number_of r hr, e, f) refl
    | inr f ↦ rw (number_of l hl, number_of r hr, e, f) refl
  ]
  | inr e ↦ rw (number_of l hl, e) refl
]

range_taken : String → String → String → List Char
range_taken ip l r = chars ip ++ (colon ∷ (chars l ++ (dash ∷ chars r)))

range_submatches :
    (before ip l r after : String)
    → IsDotted ip
    → IsNumber l
    → IsNumber r
    → NoDigit before
    → EndsNumber after
    → find_string_submatch ip_range_match
        (before +++ (ip +++ (":" +++ (l +++ ("-" +++ (r +++ after))))))
      ≡ text_of (range_taken ip l r) ∷ ip ∷ l ∷ r ∷ []
unfolding range_taken
range_submatches before ip l r after hi hl hr out stop =
    find_string_submatch-some ip_range_match _ (
      ap (find ip_range_match) (range_chars before ip l r after)
      ∙ find_address ip_range_match (chars before) _ (chars after)
          (chars ip ∷ chars l ∷ chars r ∷ [])
          (address-Starts (char_then b':' (seq (group run) (char_then b'-' (group run)))))
          ip_range_match-Settled (range_text (chars ip) (chars l) (chars r) hi hl hr) out stop)
    ∙ ap (λ ts. text_of (range_taken ip l r) ∷ ts) (texts ip l r)
  where
    texts : (ip l r : String) → map text_of (chars ip ∷ chars l ∷ chars r ∷ []) ≡ ip ∷ l ∷ r ∷ []
    texts ip l r = simp text_of-chars

-- In a text with no digit before the address and none right after the ports, ParseIP3 returns the
-- address and the two ports, if both are below 2^31, and bad request with no address otherwise. The
-- text around it does not matter.
pub parse_ip3-range :
    (before ip l r after : String)
    → IsDotted ip
    → IsNumber l
    → IsNumber r
    → NoDigit before
    → EndsNumber after
    → parse_ip3 (before +++ (ip +++ (":" +++ (l +++ ("-" +++ (r +++ after)))))) ≡ (
        if ltb (number l) (2 ^ 31) && ltb (number r) (2 ^ 31)
        then (ip, pos (number l), pos (number r), status_ok)
        else ("", pos 0, pos 0, bad_request))
unfolding parse_ip3
parse_ip3-range before ip l r after hi hl hr out stop =
    let other = parse_ip2 (before +++ (ip +++ (":" +++ (l +++ ("-" +++ (r +++ after)))))) in
    ap (ports_of other) (range_submatches before ip l r after hi hl hr out stop)
    ∙ ports_of-numbers other (text_of (range_taken ip l r)) ip l r hl hr

pub port_of-number :
    (all ip l : String)
    → IsNumber l
    → port_of (all ∷ ip ∷ l ∷ []) ≡ (
        if ltb (number l) (2 ^ 31)
        then (ip, pos (number l), minus_one, status_ok)
        else ("", pos 0, pos 0, bad_request))
unfolding port_of
port_of-number all ip l hl = elim (Bool-cases (ltb (number l) (2 ^ 31))) [
  | inl e ↦ rw (number_of l hl, e) refl
  | inr e ↦ rw (number_of l hl, e) refl
]

port_chars :
    (before ip l after : String)
    → chars (before +++ (ip +++ (":" +++ (l +++ after))))
      ≡ chars before ++ ((chars ip ++ (colon ∷ chars l)) ++ chars after)
unfolding chars
port_chars before ip l after = simp (chars-append, append_assoc)

-- With no digit before the address and none right after the port, ParseIP2 returns the address, the
-- port and -1, if the port is below 2^31, and bad request with no address otherwise.
pub parse_ip2-port :
    (before ip l after : String)
    → IsDotted ip
    → IsNumber l
    → NoDigit before
    → EndsNumber after
    → parse_ip2 (before +++ (ip +++ (":" +++ (l +++ after)))) ≡ (
        if ltb (number l) (2 ^ 31)
        then (ip, pos (number l), minus_one, status_ok)
        else ("", pos 0, pos 0, bad_request))
unfolding parse_ip2
parse_ip2-port before ip l after hi hl out stop =
    ap port_of (
      find_string_submatch-some ip_port_match _ (
        ap (find ip_port_match) (port_chars before ip l after)
        ∙ find_address ip_port_match (chars before) _ (chars after) (chars ip ∷ chars l ∷ [])
            (address-Starts (char_then b':' (group run))) ip_port_match-Settled
            (port_text (chars ip) (chars l) hi hl) out stop)
      ∙ ap (λ ts. text_of (chars ip ++ (colon ∷ chars l)) ∷ ts) (texts ip l))
    ∙ port_of-number (text_of (chars ip ++ (colon ∷ chars l))) ip l hl
  where
    texts : (ip l : String) → map text_of (chars ip ∷ chars l ∷ []) ≡ ip ∷ l ∷ []
    texts ip l = simp text_of-chars
