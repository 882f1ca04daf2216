-- ===== src/Proxy/Address/Regexp/Complete.antt =====
-- The search misses no text that an expression spells.
use Prim.Native.Char.{Char}
use mathlib.Core.Path.{subst}
use mathlib.Core.List.{append_assoc, cons-ne-nil}
use cloudlab_k8s.Prelude.{
  ℕ, Bool, List, [], ◌∷◌, ◌++◌, map, Option, none, ◌≡◌, refl, ap, ◌≢◌, ◌⊎◌, inl, inr,
}
use cloudlab_k8s.Proxy.Address.Regexp.{
  Pattern, one, plus, seq, group, Match, taking, after, grouped, match_one, match_plus, then_each,
  first_of, matches, find,
}
use cloudlab_k8s.Proxy.Address.Regexp.Spelled.{AllIn, Spells}

abbrev pub bare : List Char → List Char → Match
bare t s = record { taken = t; groups = []; rest = s }

abbrev Has : Match → List Match → Type 0
Has m [] = ⊥
Has m (n ∷ ns) = (m ≡ n) ⊎ Has m ns

Has-map : (f : Match → Match) (m : Match) (ms : List Match) → Has m ms → Has (f m) (map f ms)
Has-map f m [] h = elim h [ ]
Has-map f m (n ∷ ns) (inl e) = inl (ap f e)
Has-map f m (n ∷ ns) (inr h) = inr (Has-map f m ns h)

Has-append_left : (m : Match) (ms ns : List Match) → Has m ms → Has m (ms ++ ns)
Has-append_left m [] ns h = elim h [ ]
Has-append_left m (n ∷ ms) ns (inl e) = inl e
Has-append_left m (n ∷ ms) ns (inr h) = inr (Has-append_left m ms ns h)

Has-append_right : (m : Match) (ms ns : List Match) → Has m ns → Has m (ms ++ ns)
Has-append_right m [] ns h = h
Has-append_right m (n ∷ ms) ns h = inr (Has-append_right m ms ns h)

Has-then_each :
    (m n : Match) (ms : List Match) (f : List Char → List Match)
    → Has m ms
    → Has n (f m.rest)
    → Has (after m n) (then_each ms f)
unfolding then_each
Has-then_each m n [] f g h = elim g [ ]
Has-then_each m n (k ∷ ks) f (inl e) h =
    Has-append_left _ (map (after k) (f k.rest)) _
      (subst (λ k. Has (after m n) (map (after k) (f k.rest))) e (Has-map (after m) n (f m.rest) h))
Has-then_each m n (k ∷ ks) f (inr g) h =
    Has-append_right _ (map (after k) (f k.rest)) _ (Has-then_each m n ks f g h)

match_plus-Has :
    (p : ℕ → Bool) (t s : List Char) → t ≢ [] → AllIn p t → Has (bare t s) (match_plus p (t ++ s))
unfolding match_plus
match_plus-Has p [] s n _ = absurd (n refl)
match_plus-Has p (c ∷ []) s n (e, _) = rw e (
    Has-append_right (bare (c ∷ []) s) (map (taking c) (match_plus p s)) (bare (c ∷ []) s ∷ [])
      (inl refl))
match_plus-Has p (c ∷ d ∷ t) s n (e, h) = rw e (
    Has-append_left (bare (c ∷ d ∷ t) s) (map (taking c) (match_plus p (d ∷ t ++ s)))
      (bare (c ∷ []) (d ∷ t ++ s) ∷ [])
      (Has-map (taking c) (bare (d ∷ t) s) (match_plus p (d ∷ t ++ s))
        (match_plus-Has p (d ∷ t) s (cons-ne-nil d t) h)))

matches-Has :
    (r : Pattern) (t : List Char) (gs : List (List Char)) (s : List Char)
    → Spells r t gs
    → Has (record { taken = t; groups = gs; rest = s }) (matches r (t ++ s))
unfolding matches match_one
matches-Has (one p) t gs s (c, e, et, eg) = rw (et, eg, e) (inl refl)
matches-Has (plus p) t gs s (n, h, eg) = rw eg (match_plus-Has p t s n h)
matches-Has (seq r q) t gs s (a, b, g, h, sr, sq, et, eg) =
    rw (et, eg, append_assoc a b s)
      (Has-then_each (record { taken = a; groups = g; rest = b ++ s })
        (record { taken = b; groups = h; rest = s }) (matches r (a ++ (b ++ s))) (matches q)
        (matches-Has r a g (b ++ s) sr) (matches-Has q b h s sq))
matches-Has (group r) t gs s (g, h, eg) = rw eg (
    Has-map grouped (record { taken = t; groups = g; rest = s }) (matches r (t ++ s))
      (matches-Has r t g s h))

first_of-Has :
    (m : Match) (ms : List Match) (later : Option Match) → Has m ms → first_of ms later ≢ none
first_of-Has m [] later h = elim h [ ]
first_of-Has m (n ∷ ns) later h = λ e. cc

find-Has : (r : Pattern) (s : List Char) (m : Match) → Has m (matches r s) → find r s ≢ none
unfolding find
find-Has r [] m = first_of-Has m (matches r []) none
find-Has r (c ∷ s) m = first_of-Has m (matches r (c ∷ s)) (find r s)

first_of-later : (ms : List Match) (later : Option Match) → later ≢ none → first_of ms later ≢ none
first_of-later [] later h = h
first_of-later (m ∷ ms) later h = λ e. cc

-- A text that holds, at some place, what the expression spells is matched.
pub find-Spells :
    (r : Pattern) (before t rest : List Char) (gs : List (List Char))
    → Spells r t gs
    → find r (before ++ (t ++ rest)) ≢ none
unfolding find
find-Spells r [] t rest gs h = find-Has r (t ++ rest) _ (matches-Has r t gs rest h)
find-Spells r (c ∷ before) t rest gs h =
    first_of-later (matches r (c ∷ (before ++ (t ++ rest)))) _ (find-Spells r before t rest gs h)
