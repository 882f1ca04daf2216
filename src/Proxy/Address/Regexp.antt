-- ===== src/Proxy/Address/Regexp.antt =====
-- The regular expressions that proxy/server.go compiles, with the part of package regexp that they
-- use: classes of characters, `+` and groups, matched leftmost first, `+` taking as many characters
-- as the rest allows.
pub mod Texts
pub mod Spelled
pub mod Complete
pub mod Preferred
pub mod Settled
use Prim.Native.Char.{Char, code}
use cloudlab_k8s.Prelude.{
  ℕ, Bool, true, false, List, [], ◌∷◌, ◌++◌, map, String, Option, none, some, if◌then◌else◌,
}

-- The characters of a text, and the text of characters.
unfoldable pub chars : String → List Char
chars String.[] = []
chars (String.◌∷◌ c s) = c ∷ chars s

unfoldable pub text_of : List Char → String
text_of [] = String.[]
text_of (c ∷ s) = String.◌∷◌ c (text_of s)

pub data Pattern : Type 0 where
  -- `[…]`, and a character that stands for itself
  one : (ℕ → Bool) → Pattern
  -- `[…]+`
  plus : (ℕ → Bool) → Pattern
  seq : Pattern → Pattern → Pattern
  -- `(…)`
  group : Pattern → Pattern

-- What an expression took, what its groups took, and the characters after it.
pub record Match : Type 0 where
  pub taken : List Char
  pub groups : List (List Char)
  pub rest : List Char

abbrev pub taking : Char → Match → Match
taking c m = record m { taken = c ∷ m.taken }

abbrev pub after : Match → Match → Match
after m n = record { taken = m.taken ++ n.taken; groups = m.groups ++ n.groups; rest = n.rest }

abbrev pub grouped : Match → Match
grouped m = record m { groups = m.taken ∷ m.groups }

unfoldable pub match_one : (ℕ → Bool) → List Char → List Match
match_one p [] = []
match_one p (c ∷ s) =
    if p (code c) then record { taken = c ∷ []; groups = []; rest = s } ∷ [] else []

-- The longest run first.
unfoldable pub match_plus : (ℕ → Bool) → List Char → List Match
match_plus p [] = []
match_plus p (c ∷ s) =
    let longer = map (taking c) (match_plus p s) in
    if p (code c) then longer ++ (record { taken = c ∷ []; groups = []; rest = s } ∷ []) else []

-- Each match with each way to go on after it.
unfoldable pub then_each : List Match → (List Char → List Match) → List Match
then_each [] f = []
then_each (m ∷ ms) f = map (after m) (f m.rest) ++ then_each ms f

-- The matches at the beginning of a text, the preferred one first.
unfoldable pub matches : Pattern → List Char → List Match
unfolding match_one match_plus then_each
matches (one p) s = match_one p s
matches (plus p) s = match_plus p s
matches (seq r q) s = then_each (matches r s) (matches q)
matches (group r) s = map grouped (matches r s)

abbrev pub first_of : List Match → Option Match → Option Match
first_of [] later = later
first_of (m ∷ ms) later = some m

-- The preferred match at the first place that has one.
unfoldable pub find : Pattern → List Char → Option Match
unfolding matches
find r [] = first_of (matches r []) none
find r (c ∷ s) = first_of (matches r (c ∷ s)) (find r s)

-- FindStringSubmatch: the text of the match and of its groups, nothing where there is none.
unfoldable pub find_string_submatch : Pattern → String → List String
unfolding chars text_of find
find_string_submatch r s = elim (find r (chars s)) [
  | none ↦ []
  | some m ↦ text_of m.taken ∷ map text_of m.groups
]
