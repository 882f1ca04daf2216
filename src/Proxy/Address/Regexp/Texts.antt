-- ===== src/Proxy/Address/Regexp/Texts.antt =====
-- Texts and their characters.
use Prim.Native.String.append
use Prim.Native.String.{◌++◌ as ◌+++◌}
use Prim.Native.Char.{Char}
use cloudlab_k8s.Prelude.{List, [], ◌∷◌, ◌++◌, map, none, some, String, ◌≡◌, refl, ap, ◌∙◌}
use cloudlab_k8s.Proxy.Address.Regexp.{Pattern, Match, chars, text_of, find, find_string_submatch}

pub chars-text_of : (l : List Char) → chars (text_of l) ≡ l
unfolding chars text_of
chars-text_of [] = refl
chars-text_of (c ∷ l) = ap (λ m. c ∷ m) (chars-text_of l)

pub text_of-chars : (s : String) → text_of (chars s) ≡ s
unfolding chars text_of
text_of-chars String.[] = refl
text_of-chars (String.◌∷◌ c s) = ap (λ t. String.◌∷◌ c t) (text_of-chars s)

pub chars-append : (s t : String) → chars (s +++ t) ≡ chars s ++ chars t
unfolding chars
chars-append String.[] t = ap chars (append.nil t)
chars-append (String.◌∷◌ c s) t = ap chars (append.cons c s t) ∙ ap (λ l. c ∷ l) (chars-append s t)

pub find_string_submatch-some :
    (r : Pattern) (s : String) {m : Match}
    → find r (chars s) ≡ some m
    → find_string_submatch r s ≡ text_of m.taken ∷ map text_of m.groups
unfolding find_string_submatch
find_string_submatch-some r s e = rw (e, find_string_submatch) refl

pub find_string_submatch-none :
    (r : Pattern) (s : String) → find r (chars s) ≡ none → find_string_submatch r s ≡ []
unfolding find_string_submatch
find_string_submatch-none r s e = rw (e, find_string_submatch) refl
