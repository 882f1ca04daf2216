-- ===== src/Proxy/Address/Refused.antt =====
-- Which texts ParseIP2 of proxy/server.go finds no address in.
use Prim.Native.Char.{Char}
use cloudlab_k8s.Prelude.{
  ℕ, List, [], ◌∷◌, ◌++◌, some, String, pos, negsuc, ◌≡◌, refl, sym, ap, ◌∙◌, ◌≢◌, ◌↔◌, inl, inr,
  arith, map, Option-cases,
}
use cloudlab_k8s.Proxy.Types.{bad_request}
use cloudlab_k8s.Proxy.Address.Regexp.{Match, chars, text_of, find}
use cloudlab_k8s.Proxy.Address.Regexp.Texts.{find_string_submatch-some}
use cloudlab_k8s.Proxy.Address.Regexp.Spelled.{Spells, find-Found}
use cloudlab_k8s.Proxy.Address.Regexp.Complete.{find-Spells}
use cloudlab_k8s.Proxy.Address.Decimal.{parse_int32}
use cloudlab_k8s.Proxy.Address.{
  dotted, ip_port_match, minus_one, Parsed, one_port, port_of, parse_ip2,
}
use cloudlab_k8s.Proxy.Address.Dotted.{colon, IsRun, port_text}
use cloudlab_k8s.Proxy.Address.Inverted.{submatch-Found, ip_port_match_inv}

-- No address with a port stands in the text.
abbrev pub HasNoAddress : String → Type 0
HasNoAddress msg =
    (before : List Char) (ip : List Char) (l : List Char) (after : List Char)
    → Spells dotted ip []
    → IsRun l
    → chars msg ≢ before ++ ((ip ++ (colon ∷ l)) ++ after)

abbrev no_address : Parsed
no_address = ("", minus_one, minus_one, bad_request)

pos-not_negsuc : (m n : ℕ) → pos m ≢ negsuc n
pos-not_negsuc m n e = cc

matched-not_none : (all ip port : String) → port_of (all ∷ ip ∷ port ∷ []) ≢ no_address
unfolding port_of
matched-not_none all ip port e = elim (Option-cases (parse_int32 port)) [
  | inl f ↦ pos-not_negsuc 0 0 (ap (λ (r : Parsed). r.1) (sym (ap (one_port ip) f) ∙ e))
  | inr (p, f) ↦ omega (arith, ap (λ (r : Parsed). r.3) (sym (ap (one_port ip) f) ∙ e))
]

not_matched :
    (msg : String) {m : Match}
    → find ip_port_match (chars msg) ≡ some m
    → parse_ip2 msg ≢ no_address
unfolding parse_ip2
not_matched msg {m} f e =
    let (before, at, spelled) = find-Found ip_port_match (chars msg) f in
    let (a, l, sa, hl, et, eg) = ip_port_match_inv m.taken m.groups spelled in
    matched-not_none (text_of m.taken) (text_of a) (text_of l) (
      sym (
        ap port_of (
          find_string_submatch-some ip_port_match msg f
          ∙ ap (λ gs. text_of m.taken ∷ map text_of gs) eg))
      ∙ e)

port_of_none : port_of [] ≡ no_address
unfolding port_of
port_of_none = refl

-- ParseIP2 answers bad request with both ports -1 exactly when no address with a port stands in the
-- text.
pub parse_ip2-HasNoAddress : (msg : String) → (parse_ip2 msg ≡ no_address) ↔ HasNoAddress msg
unfolding parse_ip2
parse_ip2-HasNoAddress msg = (refused, absent)
  where
    refused : parse_ip2 msg ≡ no_address → HasNoAddress msg
    refused e before ip l after hi hl at = elim (Option-cases (find ip_port_match (chars msg))) [
      | inl f ↦
          find-Spells ip_port_match before (ip ++ (colon ∷ l)) after (ip ∷ l ∷ [])
            (port_text ip l hi hl) (sym (ap (find ip_port_match) at) ∙ f)
      | inr (m, f) ↦ not_matched msg f e
    ]

    absent : HasNoAddress msg → parse_ip2 msg ≡ no_address
    absent h = elim (submatch-Found ip_port_match msg) [
      | inl e ↦ ap port_of e ∙ port_of_none
      | inr (m, (before, at, spelled), matched) ↦
          let (a, l, sa, hl, et, eg) = ip_port_match_inv m.taken m.groups spelled in
          absurd (h before a l m.rest sa hl (at ∙ ap (λ t. before ++ (t ++ m.rest)) et))
    ]
