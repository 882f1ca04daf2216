-- ===== src/Proxy/Address/Regexp/Preferred.antt =====
-- Which match the search prefers: rules for the first match, by the expression.
use Prim.Native.Char.{Char, code}
use mathlib.Core.Path.{subst}
use mathlib.Core.List.{cons-ne-nil}
use cloudlab_k8s.Prelude.{
  ℕ, Bool, true, false, List, [], ◌∷◌, ◌++◌, map, Option, none, some, ◌≡◌, refl, sym, ap, ◌∙◌, ◌≢◌,
  some-eq,
}
use cloudlab_k8s.Proxy.Address.Regexp.{
  Pattern, one, plus, seq, group, Match, taking, after, grouped, match_one, match_plus, then_each,
  matches, first_of, find,
}
use cloudlab_k8s.Proxy.Address.Regexp.Spelled.{AllIn}
use cloudlab_k8s.Proxy.Address.Regexp.Complete.{bare}

abbrev first : List Match → Option Match
first ms = first_of ms none

abbrev pub Prefers : Pattern → List Char → Match → Type 0
Prefers r s m = first (matches r s) ≡ some m

-- No run of the class goes on here.
abbrev pub Stops : (ℕ → Bool) → List Char → Type 0
Stops p [] = Unit
Stops p (c ∷ s) = p (code c) ≡ false

pub one-Prefers :
    (p : ℕ → Bool) (c : Char) (s : List Char)
    → p (code c) ≡ true
    → Prefers (one p) (c ∷ s) (bare (c ∷ []) s)
unfolding matches match_one
one-Prefers p c s e = rw e refl

match_plus-nil : (p : ℕ → Bool) (s : List Char) → Stops p s → match_plus p s ≡ []
unfolding match_plus
match_plus-nil p [] _ = refl
match_plus-nil p (c ∷ s) e = rw e refl

first-map :
    (f : Match → Match) (ms ns : List Match) {m : Match}
    → first ms ≡ some m
    → first (map f ms ++ ns) ≡ some (f m)
first-map f [] ns e = cc
first-map f (m ∷ ms) ns e = ap (λ n. some (f n)) (some-eq e)

plus_first :
    (p : ℕ → Bool) (t s : List Char)
    → t ≢ []
    → AllIn p t
    → Stops p s
    → first (match_plus p (t ++ s)) ≡ some (bare t s)
unfolding match_plus
plus_first p [] s n _ _ = absurd (n refl)
plus_first p (c ∷ []) s n (e, _) stop = rw (e, match_plus-nil p s stop) refl
plus_first p (c ∷ d ∷ t) s n (e, h) stop = rw e (
    first-map (taking c) (match_plus p (d ∷ t ++ s)) _
      (plus_first p (d ∷ t) s (cons-ne-nil d t) h stop))

-- `+` takes all of a run.
pub plus-Prefers :
    (p : ℕ → Bool) (t s : List Char)
    → t ≢ []
    → AllIn p t
    → Stops p s
    → Prefers (plus p) (t ++ s) (bare t s)
unfolding matches
plus-Prefers p t s n h stop = plus_first p t s n h stop

then_each-first :
    (ms : List Match) (f : List Char → List Match) {m n : Match}
    → first ms ≡ some m
    → first (f m.rest) ≡ some n
    → first (then_each ms f) ≡ some (after m n)
unfolding then_each
then_each-first [] f e h = cc
then_each-first (k ∷ ks) f {m} {n} e h =
    first-map (after k) (f k.rest) (then_each ks f)
      (subst (λ k. first (f k.rest) ≡ some n) (sym (some-eq e)) h)
    ∙ ap (λ k. some (after k n)) (some-eq e)

pub seq-Prefers :
    (r q : Pattern) (s : List Char) {m n : Match}
    → Prefers r s m
    → Prefers q m.rest n
    → Prefers (seq r q) s (after m n)
unfolding matches
seq-Prefers r q s e h = then_each-first (matches r s) (matches q) e h

first_group :
    (ms : List Match) {m : Match} → first ms ≡ some m → first (map grouped ms) ≡ some (grouped m)
first_group [] e = cc
first_group (m ∷ ms) e = ap (λ n. some (grouped n)) (some-eq e)

pub group-Prefers :
    (r : Pattern) (s : List Char) {m : Match} → Prefers r s m → Prefers (group r) s (grouped m)
unfolding matches
group-Prefers r s e = first_group (matches r s) e

first_of-first :
    (ms : List Match) (later : Option Match) {m : Match}
    → first ms ≡ some m
    → first_of ms later ≡ some m
first_of-first [] later e = cc
first_of-first (n ∷ ns) later e = e

pub find-Prefers : (r : Pattern) (s : List Char) {m : Match} → Prefers r s m → find r s ≡ some m
unfolding find
find-Prefers r [] e = e
find-Prefers r (c ∷ s) e = first_of-first (matches r (c ∷ s)) (find r s) e
