-- ===== src/Proxy/Address/Regexp/Settled.antt =====
-- Expressions whose match is settled by what they spell, since each `+` is followed by a character
-- outside its class, and where in a text the first match stands.
use Prim.Native.Char.{Char, code}
use mathlib.Core.Path.{subst}
use mathlib.Core.List.{append_assoc}
use cloudlab_k8s.Prelude.{ℕ, Bool, true, false, not, List, [], ◌∷◌, ◌++◌, some, ◌≡◌, refl, sym}
use cloudlab_k8s.Proxy.Address.Regexp.{Pattern, one, plus, seq, group, Match, matches, find}
use cloudlab_k8s.Proxy.Address.Regexp.Spelled.{AllIn, Spells, Sound, matches-Sound, Each}
use cloudlab_k8s.Proxy.Address.Regexp.Preferred.{
  Prefers, Stops, one-Prefers, plus-Prefers, seq-Prefers, group-Prefers, find-Prefers,
}

abbrev pub taking_all : List Char → List (List Char) → List Char → Match
taking_all t gs s = record { taken = t; groups = gs; rest = s }

-- Before a text on which `p` stops, the preferred match is all of what is spelled.
abbrev pub Settled : (ℕ → Bool) → Pattern → Type 0
Settled p r =
    (t : List Char) (gs : List (List Char)) (s : List Char)
    → Spells r t gs
    → Stops p s
    → Prefers r (t ++ s) (taking_all t gs s)

-- What is spelled stops a run of `p`.
abbrev pub Ends : (ℕ → Bool) → Pattern → Type 0
Ends p r =
    (t : List Char) (gs : List (List Char)) (s : List Char) → Spells r t gs → Stops p (t ++ s)

pub one-Ends : (p q : ℕ → Bool) → ((c : ℕ) → q c ≡ true → p c ≡ false) → Ends p (one q)
one-Ends p q h t gs s (c, e, et, _) = rw et (h (code c) e)

pub seq-Ends : (p : ℕ → Bool) (r q : Pattern) → Ends p r → Ends p (seq r q)
seq-Ends p r q h t gs s (a, b, g, k, sr, sq, et, eg) =
    rw (et, append_assoc a b s) (h a g (b ++ s) sr)

pub one-Settled : (p q : ℕ → Bool) → Settled p (one q)
one-Settled p q t gs s (c, e, et, eg) _ = rw (et, eg) (one-Prefers q c s e)

pub plus-Settled : (p : ℕ → Bool) → Settled p (plus p)
plus-Settled p t gs s (n, h, eg) stop = rw eg (plus-Prefers p t s n h stop)

pub seq-Settled :
    (p o : ℕ → Bool) (r q : Pattern) → Settled o r → Ends o q → Settled p q → Settled p (seq r q)
seq-Settled p o r q hr ends hq t gs s (a, b, g, k, sr, sq, et, eg) stop =
    rw (et, eg, append_assoc a b s)
      (seq-Prefers r q (a ++ (b ++ s)) (hr a g (b ++ s) sr (ends b k s sq)) (hq b k s sq stop))

pub no_class-Stops : (s : List Char) → Stops (λ _. false) s
no_class-Stops [] = tt
no_class-Stops (c ∷ s) = refl

pub one_then-Settled : (p o : ℕ → Bool) (q : Pattern) → Settled p q → Settled p (seq (one o) q)
one_then-Settled p o q =
    seq-Settled p (λ _. false) (one o) q (one-Settled (λ _. false) o)
      (λ t gs s _. no_class-Stops (t ++ s))

pub group-Settled : (p : ℕ → Bool) (r : Pattern) → Settled p r → Settled p (group r)
group-Settled p r h t gs s (g, sr, eg) stop = rw eg (group-Prefers r (t ++ s) (h t g s sr stop))

-- Everything spelled begins with a character of the class.
abbrev Headed : (ℕ → Bool) → List Char → Type 0
Headed p [] = ⊥
Headed p (c ∷ s) = p (code c) ≡ true

abbrev pub Starts : (ℕ → Bool) → Pattern → Type 0
Starts p r =
    (t : List Char) (gs : List (List Char)) (s : List Char) → Spells r t gs → Headed p (t ++ s)

pub plus-Starts : (p : ℕ → Bool) → Starts p (plus p)
plus-Starts p [] gs s (n, h, eg) = absurd (n refl)
plus-Starts p (c ∷ t) gs s (n, h, eg) = h.0

pub one-Starts : (p : ℕ → Bool) → Starts p (one p)
one-Starts p t gs s (c, e, et, _) = rw et e

pub seq-Starts : (p : ℕ → Bool) (r q : Pattern) → Starts p r → Starts p (seq r q)
seq-Starts p r q h t gs s (a, b, g, k, sr, sq, et, eg) =
    rw (et, append_assoc a b s) (h a g (b ++ s) sr)

pub group-Starts : (p : ℕ → Bool) (r : Pattern) → Starts p r → Starts p (group r)
group-Starts p r h t gs s (g, sr, eg) = h t g s sr

no_match :
    (p : ℕ → Bool) (r : Pattern) (c : Char) (s : List Char) (ms : List Match)
    → Starts p r
    → p (code c) ≡ false
    → Each (Sound r (c ∷ s)) ms
    → ms ≡ []
no_match p r c s [] _ _ _ = refl
no_match p r c s (m ∷ ms) starts e ((at, spelled), _) =
    let begun : Headed p (c ∷ s) =
      subst (Headed p) (sym at) (starts m.taken m.groups m.rest spelled) in
    cc

not-true : (b : Bool) → not b ≡ true → b ≡ false
not-true true e = cc
not-true false e = refl

-- Outside the class the search goes on to the next character.
pub find_after :
    (p : ℕ → Bool) (r : Pattern) (before s : List Char) {m : Match}
    → Starts p r
    → AllIn (λ c. not (p c)) before
    → Prefers r s m
    → find r (before ++ s) ≡ some m
unfolding find
find_after p r [] s starts _ h = find-Prefers r s h
find_after p r (c ∷ before) s starts (e, out) h =
    rw
      (no_match p r c (before ++ s) (matches r (c ∷ (before ++ s))) starts (not-true (p (code c)) e)
        (matches-Sound r (c ∷ (before ++ s))))
      (find_after p r before s starts out h)
