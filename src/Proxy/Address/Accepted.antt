-- ===== src/Proxy/Address/Accepted.antt =====
-- What stands in a text from which ParseIP2 and ParseIP3 of proxy/server.go read an address.
use Prim.Native.Char.{Char}
use mathlib.Core.Path.{subst}
use mathlib.Core.List.{append_assoc}
use cloudlab_k8s.Prelude.{
  ℕ, ◌^◌, ◌<◌, Bool, not, List, [], ◌∷◌, ◌++◌, map, String, ℤ, pos, ◌≡◌, refl, sym, ap, ◌∙◌, ◌≢◌,
  ◌⊎◌, inl, inr, arith,
}
use cloudlab_k8s.Proxy.Types.{status_ok}
use cloudlab_k8s.Proxy.Address.Regexp.{chars, text_of}
use cloudlab_k8s.Proxy.Address.Regexp.Texts.{chars-text_of}
use cloudlab_k8s.Proxy.Address.Regexp.Spelled.{AllIn, Spells}
use cloudlab_k8s.Proxy.Address.Decimal.{value}
use cloudlab_k8s.Proxy.Address.{
  is_char, dotted, ip_range_match, ip_port_match, minus_one, Parsed, port_of, ports_of, parse_ip2,
  parse_ip3,
}
use cloudlab_k8s.Proxy.Address.Parsed.{port_of-number, ports_of-numbers}
use cloudlab_k8s.Proxy.Address.Dotted.{colon, dash, IsDotted, IsNumber, IsRun, number}
use cloudlab_k8s.Proxy.Address.Inverted.{submatch-Found, ip_port_match_inv, ip_range_match_inv}

-- The text has, before the tail, the address, a colon and the digits of a port below 2^31.
abbrev pub Reads : String → String → ℤ → List Char → Type 0
Reads msg ip p tail =
    (before : List Char) × (l : List Char) × IsDotted ip
    × IsRun l
    × (value l < 2 ^ 31)
    × (p ≡ pos (value l))
    × (chars msg ≡ before ++ (chars ip ++ (colon ∷ (l ++ tail))))

parsed_port :
    (all ip' ip l : String) (p1 p2 : ℤ)
    → IsNumber l
    → port_of (all ∷ ip' ∷ l ∷ []) ≡ (ip, p1, p2, status_ok)
    → (ip ≡ ip') × (number l < 2 ^ 31) × (p1 ≡ pos (number l)) × (p2 ≡ minus_one)
parsed_port all ip' ip l p1 p2 h e = grind (arith, port_of-number all ip' l h)

parsed_range :
    (other : Parsed) (all ip' ip l r : String) (p1 p2 : ℤ)
    → IsNumber l
    → IsNumber r
    → ports_of other (all ∷ ip' ∷ l ∷ r ∷ []) ≡ (ip, p1, p2, status_ok)
    → (ip ≡ ip')
      × (number l < 2 ^ 31)
      × (number r < 2 ^ 31)
      × (p1 ≡ pos (number l))
      × (p2 ≡ pos (number r))
parsed_range other all ip' ip l r p1 p2 h k e =
    grind (arith, ports_of-numbers other all ip' l r h k)

run_text : (l : List Char) → IsRun l → IsNumber (text_of l)
run_text l = subst IsRun (sym (chars-text_of l))

text_number : (l : List Char) → number (text_of l) ≡ value l
text_number l = ap value (chars-text_of l)

reads_lem :
    (msg ip : String) (p : ℤ) (before a l tail : List Char)
    → Spells dotted a []
    → IsRun l
    → ip ≡ text_of a
    → number (text_of l) < 2 ^ 31
    → p ≡ pos (number (text_of l))
    → chars msg ≡ before ++ (a ++ (colon ∷ (l ++ tail)))
    → Reads msg ip p tail
reads_lem msg ip p before a l tail sa hl eip small ep at =
    let same : chars ip ≡ a = ap chars eip ∙ chars-text_of a in
    (
      before,
      l,
      subst (λ a. Spells dotted a []) (sym same) sa,
      hl,
      subst (λ n. n < 2 ^ 31) (text_number l) small,
      ep ∙ ap pos (text_number l),
      at ∙ ap (λ a. before ++ (a ++ (colon ∷ (l ++ tail)))) (sym same),
    )

no_match_refused : (ip : String) (p1 p2 : ℤ) → port_of [] ≢ (ip, p1, p2, status_ok)
unfolding port_of
no_match_refused ip p1 p2 e = omega (arith, ap (λ (r : Parsed). r.3) e)

-- An answer of ParseIP2 with status ok is an address and a port that stand in the text.
pub parse_ip2-Reads :
    (msg ip : String) (p1 p2 : ℤ)
    → parse_ip2 msg ≡ (ip, p1, p2, status_ok)
    → (tail : List Char) × Reads msg ip p1 tail × (p2 ≡ minus_one)
unfolding parse_ip2
parse_ip2-Reads msg ip p1 p2 e = elim (submatch-Found ip_port_match msg) [
  | inl none_found ↦ absurd (no_match_refused ip p1 p2 (sym (ap port_of none_found) ∙ e))
  | inr (m, (before, at, spelled), matched) ↦
      let (a, l, sa, hl, et, eg) = ip_port_match_inv m.taken m.groups spelled in
      let (eip, small, ep, eq) =
        parsed_port (text_of m.taken) (text_of a) ip (text_of l) p1 p2 (run_text l hl)
          (sym (ap port_of (matched ∙ ap (λ gs. text_of m.taken ∷ map text_of gs) eg)) ∙ e) in
      (
        m.rest,
        reads_lem msg ip p1 before a l m.rest sa hl eip small ep (
            at
            ∙ ap (λ t. before ++ (t ++ m.rest)) et
            ∙ ap (λ t. before ++ t) (append_assoc a (colon ∷ l) m.rest)),
        eq,
      )
]

-- An answer of ParseIP3 with status ok stands in the text: dotted digits, which are the address, a
-- colon, and the digits of the first port, which is below 2^31. The second port is -1, or below 2^31
-- and its digits come next, behind a dash.
pub parse_ip3-Reads :
    (msg ip : String) (p1 p2 : ℤ)
    → parse_ip3 msg ≡ (ip, p1, p2, status_ok)
    → (tail : List Char) × Reads msg ip p1 tail
      × ((p2 ≡ minus_one)
          ⊎ ((r : List Char) × (after : List Char) × IsRun r
              × (value r < 2 ^ 31)
              × (p2 ≡ pos (value r))
              × (tail ≡ dash ∷ (r ++ after))))
unfolding parse_ip3 ports_of
parse_ip3-Reads msg ip p1 p2 e = elim (submatch-Found ip_range_match msg) [
  | inl none_found ↦
      let (tail, reads, eq) =
        parse_ip2-Reads msg ip p1 p2 (sym (ap (ports_of (parse_ip2 msg)) none_found) ∙ e) in
      (tail, reads, inl eq)
  | inr (m, (before, at, spelled), matched) ↦
      let (a, l, r, sa, hl, hr, et, eg) = ip_range_match_inv m.taken m.groups spelled in
      let (eip, small, small_r, ep, eq) =
        parsed_range (parse_ip2 msg) (text_of m.taken) (text_of a) ip (text_of l) (text_of r) p1 p2
          (run_text l hl) (run_text r hr)
          (sym (
              ap (ports_of (parse_ip2 msg))
                (matched ∙ ap (λ gs. text_of m.taken ∷ map text_of gs) eg))
            ∙ e) in
      (
        dash ∷ (r ++ m.rest),
        reads_lem msg ip p1 before a l (dash ∷ (r ++ m.rest)) sa hl eip small ep (
            at
            ∙ ap (λ t. before ++ (t ++ m.rest)) et
            ∙ ap (λ t. before ++ t) (append_assoc a (colon ∷ (l ++ (dash ∷ r))) m.rest)
            ∙ ap (λ t. before ++ (a ++ (colon ∷ t))) (append_assoc l (dash ∷ r) m.rest)),
        inr (
          r,
          m.rest,
          hr,
          subst (λ n. n < 2 ^ 31) (text_number r) small_r,
          eq ∙ ap pos (text_number r),
          refl,
        ),
      )
]

AllIn-right : (p : ℕ → Bool) (s t : List Char) → AllIn p (s ++ t) → AllIn p t
AllIn-right p [] t h = h
AllIn-right p (c ∷ s) t (e, h) = AllIn-right p s t h

abbrev pub no_dash : ℕ → Bool
no_dash c = not (is_char b'-' c)

abbrev pub NoDash : String → Type 0
NoDash s = AllIn no_dash (chars s)

-- In a text with no dash ParseIP3 looks for one port only.
pub parse_ip3-NoDash : (msg : String) → NoDash msg → parse_ip3 msg ≡ parse_ip2 msg
unfolding parse_ip3 ports_of
parse_ip3-NoDash msg h = elim (submatch-Found ip_range_match msg) [
  | inl none_found ↦ ap (ports_of (parse_ip2 msg)) none_found
  | inr (m, (before, at, spelled), matched) ↦
      let (a, l, r, sa, hl, hr, et, eg) = ip_range_match_inv m.taken m.groups spelled in
      let taken : AllIn no_dash (a ++ (colon ∷ (l ++ (dash ∷ (r ++ m.rest))))) =
        AllIn-right no_dash before _ (
          subst (AllIn no_dash)
            (at
              ∙ ap (λ t. before ++ (t ++ m.rest)) et
              ∙ ap (λ t. before ++ t) (append_assoc a (colon ∷ (l ++ (dash ∷ r))) m.rest)
              ∙ ap (λ t. before ++ (a ++ (colon ∷ t))) (append_assoc l (dash ∷ r) m.rest))
            h) in
      let tail = AllIn-right no_dash l (dash ∷ (r ++ m.rest)) (AllIn-right no_dash a _ taken).1 in
      cc
]
