-- ===== src/Proxy/Address/Regexp/Spelled.antt =====
-- Which texts an expression spells, said without an order of search, and that the search finds
-- these texts only.
use Prim.Native.Char.{Char, code}
use mathlib.Core.Path.{subst}
use mathlib.Core.List.{append_assoc, cons-ne-nil}
use cloudlab_k8s.Prelude.{
  ℕ, Bool, true, List, [], ◌∷◌, ◌++◌, map, Option, none, some, ◌≡◌, refl, sym, ap, ◌∙◌, ◌≢◌, ◌⊎◌,
  inl, inr, Bool-cases, some-eq,
}
use cloudlab_k8s.Proxy.Address.Regexp.{
  Pattern, one, plus, seq, group, Match, taking, after, grouped, match_one, match_plus, then_each,
  first_of, matches, find,
}

-- Every character is of the class.
abbrev pub AllIn : (ℕ → Bool) → List Char → Type 0
AllIn p [] = Unit
AllIn p (c ∷ s) = (p (code c) ≡ true) × AllIn p s

-- The expression spells the text, with these groups.
abbrev pub Spells : Pattern → List Char → List (List Char) → Type 0
Spells (one p) t gs = (c : Char) × (p (code c) ≡ true) × (t ≡ c ∷ []) × (gs ≡ [])
Spells (plus p) t gs = (t ≢ []) × AllIn p t × (gs ≡ [])
Spells (seq r q) t gs =
    (a : List Char) × (b : List Char) × (g : List (List Char)) × (h : List (List Char)) × Spells r a
      g
    × Spells q b h
    × (t ≡ a ++ b)
    × (gs ≡ g ++ h)
Spells (group r) t gs = (g : List (List Char)) × Spells r t g × (gs ≡ t ∷ g)

pub seq-Spells :
    (r q : Pattern) (a b : List Char) (g h : List (List Char))
    → Spells r a g
    → Spells q b h
    → Spells (seq r q) (a ++ b) (g ++ h)
seq-Spells r q a b g h sr sq = (a, b, g, h, sr, sq, refl, refl)

pub group-Spells :
    (r : Pattern) (a : List Char) (g : List (List Char)) → Spells r a g → Spells (group r) a (a ∷ g)
group-Spells r a g h = (g, h, refl)

-- A match of the text `s` is the beginning of it, and spelled.
abbrev pub Sound : Pattern → List Char → Match → Type 0
Sound r s m = (s ≡ m.taken ++ m.rest) × Spells r m.taken m.groups

abbrev pub Each : (Match → Type 0) → List Match → Type 0
Each P [] = Unit
Each P (m ∷ ms) = P m × Each P ms

Each-append : (P : Match → Type 0) (ms ns : List Match) → Each P ms → Each P ns → Each P (ms ++ ns)
Each-append P [] ns _ h = h
Each-append P (m ∷ ms) ns (p, g) h = (p, Each-append P ms ns g h)

Each-map :
    (P Q : Match → Type 0) (f : Match → Match)
    → ((m : Match) → P m → Q (f m))
    → (ms : List Match) → Each P ms
    → Each Q (map f ms)
Each-map P Q f step [] _ = tt
Each-map P Q f step (m ∷ ms) (p, h) = (step m p, Each-map P Q f step ms h)

Each-then_each :
    (P Q : Match → Type 0) (f : List Char → List Match)
    → ((m : Match) → P m → Each Q (map (after m) (f m.rest)))
    → (ms : List Match) → Each P ms
    → Each Q (then_each ms f)
unfolding then_each
Each-then_each P Q f step [] _ = tt
Each-then_each P Q f step (m ∷ ms) (p, h) =
    Each-append Q (map (after m) (f m.rest)) _ (step m p) (Each-then_each P Q f step ms h)

match_plus-Sound : (p : ℕ → Bool) (s : List Char) → Each (Sound (plus p) s) (match_plus p s)
unfolding match_plus
match_plus-Sound p [] = tt
match_plus-Sound p (c ∷ s) = elim (Bool-cases (p (code c))) [
  | inl e ↦ rw e (
      Each-append (Sound (plus p) (c ∷ s)) (map (taking c) (match_plus p s)) _
        (Each-map (Sound (plus p) s) (Sound (plus p) (c ∷ s)) (taking c)
          (λ m h. (ap (λ t. c ∷ t) h.0, (cons-ne-nil c m.taken, (e, h.1.1), h.1.2))) _
          (match_plus-Sound p s))
        ((refl, (cons-ne-nil c [], (e, tt), refl)), tt))
  | inr e ↦ rw e tt
]

pub matches-Sound : (r : Pattern) (s : List Char) → Each (Sound r s) (matches r s)
unfolding matches match_one
matches-Sound (one p) [] = tt
matches-Sound (one p) (c ∷ s) = elim (Bool-cases (p (code c))) [
  | inl e ↦ rw e ((refl, (c, e, refl, refl)), tt)
  | inr e ↦ rw e tt
]
matches-Sound (plus p) s = match_plus-Sound p s
matches-Sound (seq r q) s =
    Each-then_each (Sound r s) (Sound (seq r q) s) (matches q)
      (λ m h.
        Each-map (Sound q m.rest) (Sound (seq r q) s) (after m)
          (λ n k. (
            h.0 ∙ ap (λ t. m.taken ++ t) k.0 ∙ sym (append_assoc m.taken n.taken n.rest),
            (m.taken, n.taken, m.groups, n.groups, h.1, k.1, refl, refl),
          ))
          _ (matches-Sound q m.rest))
      _ (matches-Sound r s)
matches-Sound (group r) s =
    Each-map (Sound r s) (Sound (group r) s) grouped (λ m h. (h.0, (m.groups, h.1, refl))) _
      (matches-Sound r s)

first_of-Each :
    (P : Match → Type 0) (ms : List Match) (later : Option Match) {m : Match}
    → first_of ms later ≡ some m
    → Each P ms
    → P m ⊎ (later ≡ some m)
first_of-Each P [] later e _ = inr e
first_of-Each P (n ∷ ns) later e (p, h) = inl (subst P (some-eq e) p)

-- The place of a match in a text.
abbrev pub Found : Pattern → List Char → Match → Type 0
Found r s m = (before : List Char) × (s ≡ before ++ (m.taken ++ m.rest)) × Spells r m.taken m.groups

pub find-Found : (r : Pattern) (s : List Char) {m : Match} → find r s ≡ some m → Found r s m
unfolding find
find-Found r [] e = elim (first_of-Each (Sound r []) (matches r []) none e (matches-Sound r [])) [
  | inl h ↦ ([], h.0, h.1)
  | inr n ↦ cc
]
find-Found r (c ∷ s) e =
    elim (first_of-Each (Sound r (c ∷ s)) (matches r (c ∷ s)) _ e (matches-Sound r (c ∷ s))) [
      | inl h ↦ ([], h.0, h.1)
      | inr later ↦
          let (before, at, spelled) = find-Found r s later in
          (c ∷ before, ap (λ t. c ∷ t) at, spelled)
    ]
