-- ===== src/Proxy/Address/Inverted.antt =====
-- What a match of an address takes apart into, for the expressions of proxy/server.go.
use Prim.Native.Char.{Char, code}
use text.Mathlib.TextEquality.{Char-path}
use mathlib.Core.Path.{subst}
use cloudlab_k8s.Prelude.{
  ℕ, List, [], ◌∷◌, ◌++◌, map, String, nat_beq_iff, ◌≡◌, refl, sym, ap, ◌∙◌, ◌⊎◌, inl, inr,
  Option-cases,
}
use cloudlab_k8s.Proxy.Address.Regexp.{
  Pattern, one, plus, seq, group, Match, chars, text_of, find, find_string_submatch,
}
use cloudlab_k8s.Proxy.Address.Regexp.Texts.{find_string_submatch-some, find_string_submatch-none}
use cloudlab_k8s.Proxy.Address.Regexp.Spelled.{Spells, Found, find-Found}
use cloudlab_k8s.Proxy.Address.{is_char, run, char_then, dotted, ip_range_match, ip_port_match}
use cloudlab_k8s.Proxy.Address.Dotted.{colon, dash, IsRun}

-- An expression with no group.
abbrev pub Plain : Pattern → Type 0
Plain (one p) = Unit
Plain (plus p) = Unit
Plain (seq r q) = Plain r × Plain q
Plain (group r) = ⊥

Plain-groups :
    (r : Pattern) (t : List Char) (gs : List (List Char)) → Plain r → Spells r t gs → gs ≡ []
Plain-groups (one p) t gs _ (c, e, et, eg) = eg
Plain-groups (plus p) t gs _ (n, h, eg) = eg
Plain-groups (seq r q) t gs (pr, pq) (a, b, g, h, sr, sq, et, eg) =
    rw (eg, Plain-groups r a g pr sr, Plain-groups q b h pq sq) refl
Plain-groups (group r) t gs p s = elim p [ ]

dotted-Plain : Plain dotted
dotted-Plain = (tt, (tt, (tt, (tt, (tt, (tt, tt))))))

-- A group with no group in it, a character and more.
pub group_char_inv :
    (r q : Pattern) (k : ℕ) (c : Char) (t : List Char) (gs : List (List Char))
    → Plain r
    → code c ≡ k
    → Spells (seq (group r) (char_then k q)) t gs
    → (a : List Char) × (b : List Char) × (h : List (List Char)) × Spells r a []
      × Spells q b h
      × (t ≡ a ++ (c ∷ b))
      × (gs ≡ a ∷ h)
group_char_inv r q k c t gs plain e
      (a, b, g, h, (g1, sr, eg1), (c1, b1, g2, h2, (d, ed, et1, eg2), sq, eb, eh), et, eg) =
    let same : d ≡ c = Char-path d c (sym ((nat_beq_iff k (code d)).0 ed) ∙ sym e) in
    (
      a,
      b1,
      h2,
      subst (λ g. Spells r a g) (Plain-groups r a g1 plain sr) sr,
      sq,
      et ∙ ap (λ s. a ++ s) (eb ∙ rw (et1, same) refl),
      eg ∙ rw (eg1, eh, eg2, Plain-groups r a g1 plain sr) refl,
    )

pub char_inv :
    (k : ℕ) (c : Char) (t : List Char) (gs : List (List Char))
    → code c ≡ k
    → Spells (one (is_char k)) t gs
    → (t ≡ c ∷ []) × (gs ≡ [])
char_inv k c t gs e (d, ed, et, eg) =
    let same : d ≡ c = Char-path d c (sym ((nat_beq_iff k (code d)).0 ed) ∙ sym e) in
    (et ∙ ap (λ d. d ∷ []) same, eg)

pub char_then_inv :
    (q : Pattern) (k : ℕ) (c : Char) (t : List Char) (gs : List (List Char))
    → code c ≡ k
    → Spells (char_then k q) t gs
    → (b : List Char) × Spells q b gs × (t ≡ c ∷ b)
char_then_inv q k c t gs e (c1, b, g, h, (d, ed, et1, eg1), sq, et, eg) =
    let same : d ≡ c = Char-path d c (sym ((nat_beq_iff k (code d)).0 ed) ∙ sym e) in
    (b, subst (λ g. Spells q b g) (sym (eg ∙ rw eg1 refl)) sq, et ∙ rw (et1, same) refl)

run_group_inv :
    (t : List Char) (gs : List (List Char)) → Spells (group run) t gs → IsRun t × (gs ≡ t ∷ [])
run_group_inv t gs (g, (n, h, e), eg) = ((n, h), eg ∙ ap (λ g. t ∷ g) e)

abbrev pub PortSpelled : List Char → List (List Char) → Type 0
PortSpelled t gs =
    (a : List Char) × (l : List Char) × Spells dotted a []
    × IsRun l
    × (t ≡ a ++ (colon ∷ l))
    × (gs ≡ a ∷ l ∷ [])

pub ip_port_match_inv :
    (t : List Char) (gs : List (List Char)) → Spells ip_port_match t gs → PortSpelled t gs
ip_port_match_inv t gs s =
    let (a, l, h, sa, sl, et, eg) =
      group_char_inv dotted (group run) b':' colon t gs dotted-Plain refl s in
    let (hl, eh) = run_group_inv l h sl in (a, l, sa, hl, et, eg ∙ ap (λ h. a ∷ h) eh)

abbrev pub RangeSpelled : List Char → List (List Char) → Type 0
RangeSpelled t gs =
    (a : List Char) × (l : List Char) × (r : List Char) × Spells dotted a []
    × IsRun l
    × IsRun r
    × (t ≡ a ++ (colon ∷ (l ++ (dash ∷ r))))
    × (gs ≡ a ∷ l ∷ r ∷ [])

pub ip_range_match_inv :
    (t : List Char) (gs : List (List Char)) → Spells ip_range_match t gs → RangeSpelled t gs
ip_range_match_inv t gs s =
    let (a, b, h, sa, sb, et, eg) =
      group_char_inv dotted (seq (group run) (char_then b'-' (group run))) b':' colon t gs
        dotted-Plain refl s in
    let (l, r, k, sl, sr, eb, eh) = group_char_inv run (group run) b'-' dash b h tt refl sb in
    let (hr, ek) = run_group_inv r k sr in
    (
      a,
      l,
      r,
      sa,
      (sl.0, sl.1),
      hr,
      et ∙ ap (λ b. a ++ (colon ∷ b)) eb,
      eg ∙ ap (λ h. a ∷ h) (eh ∙ ap (λ k. l ∷ k) ek),
    )

pub submatch-Found :
    (r : Pattern) (s : String)
    → (find_string_submatch r s ≡ [])
      ⊎ ((m : Match) × Found r (chars s) m
          × (find_string_submatch r s ≡ text_of m.taken ∷ map text_of m.groups))
submatch-Found r s = elim (Option-cases (find r (chars s))) [
  | inl e ↦ inl (find_string_submatch-none r s e)
  | inr (m, e) ↦ inr (m, find-Found r (chars s) e, find_string_submatch-some r s e)
]
