-- ===== src/Proxy/Safeutils/Quoted.antt =====
-- Which messages GetPrincipalID of proxy/safeutils.go reads an id from.
use Prim.Native.Char.{Char, char}
use Prim.Native.String.{◌++◌ as ◌+++◌}
use mathlib.Core.Path.{subst}
use mathlib.Core.List.{append_assoc, cons-ne-nil}
use cloudlab_k8s.Prelude.{
  ℕ, Bool, true, false, not, List, [], ◌∷◌, ◌++◌, map, String, nat_beq, nat_beq_iff, ◌≡◌, refl, sym,
  ap, ◌∙◌, ◌≢◌, ◌⊎◌, inl, inr, arith, Bool-cases,
}
use cloudlab_k8s.Proxy.Types.{status_ok}
use cloudlab_k8s.Proxy.Address.Regexp.{
  one, plus, seq, group, chars, text_of, find, find_string_submatch,
}
use cloudlab_k8s.Proxy.Address.Regexp.Texts.{
  text_of-chars, chars-text_of, chars-append, find_string_submatch-some,
}
use cloudlab_k8s.Proxy.Address.Regexp.Spelled.{AllIn, Spells, seq-Spells, group-Spells}
use cloudlab_k8s.Proxy.Address.Regexp.Settled.{
  Settled, one-Ends, seq-Ends, one-Settled, one_then-Settled, plus-Settled, seq-Settled,
  group-Settled, one-Starts, seq-Starts, no_class-Stops, find_after,
}
use cloudlab_k8s.Proxy.Address.{is_char, is_word, char_then, closing, pid_match}
use cloudlab_k8s.Proxy.Address.Inverted.{char_inv, char_then_inv, group_char_inv, submatch-Found}
use cloudlab_k8s.Proxy.Address.Dotted.{char_then-Spells}
use cloudlab_k8s.Proxy.Safeutils.{
  PrincipalResponse, HttpResponse, principal_id, id_error, id_of, read_id, get_principal_id,
}

abbrev pub quote : Char
quote = char b'\'' tt

abbrev pub open_bracket : Char
open_bracket = char b'[' tt

abbrev pub close_bracket : Char
close_bracket = char b']' tt

abbrev no_class : ℕ → Bool
no_class c = false

quoted-Settled : Settled no_class pid_match
quoted-Settled = one_then-Settled no_class (is_char b'[') _ (
    one_then-Settled no_class (is_char b'\'') _ (
      seq-Settled no_class is_word (group (plus is_word)) closing
        (group-Settled is_word (plus is_word) (plus-Settled is_word))
        (seq-Ends is_word (one (is_char b'\'')) (one (is_char b']'))
          (one-Ends is_word (is_char b'\'') quote-not_word))
        (one_then-Settled no_class (is_char b'\'') (one (is_char b']'))
          (one-Settled no_class (is_char b']')))))
  where
    quote-not_word : (c : ℕ) → is_char b'\'' c ≡ true → is_word c ≡ false
    quote-not_word c e = ground arith

-- One or more characters of `[-a-zA-Z0-9_]`.
abbrev pub IsWord : String → Type 0
IsWord id = (chars id ≢ []) × AllIn is_word (chars id)

abbrev pub NoBracket : String → Type 0
NoBracket s = AllIn (λ c. not (is_char b'[' c)) (chars s)

abbrev pub quoted : List Char → List Char
quoted w = open_bracket ∷ quote ∷ (w ++ (quote ∷ close_bracket ∷ []))

quoted-Spells : (w : List Char) → w ≢ [] → AllIn is_word w → Spells pid_match (quoted w) (w ∷ [])
quoted-Spells w n h =
    char_then-Spells b'[' (char_then b'\'' (seq (group (plus is_word)) closing)) open_bracket _
      (w ∷ []) refl
      (char_then-Spells b'\'' (seq (group (plus is_word)) closing) quote _ (w ∷ []) refl (
        seq-Spells (group (plus is_word)) closing w _ (w ∷ []) []
          (group-Spells (plus is_word) w [] (n, h, refl))
          (char_then-Spells b'\'' (one (is_char b']')) quote (close_bracket ∷ []) [] refl
            (close_bracket, refl, refl, refl))))

chars-quoted :
    (before id after : String)
    → chars (before +++ ("['" +++ (id +++ ("']" +++ after))))
      ≡ chars before ++ (quoted (chars id) ++ chars after)
unfolding chars
chars-quoted before id after = simp (chars-append, append_assoc)

-- The id that stands between `['` and `']` in the message of a response with status ok is read back,
-- whatever stands after it, if no bracket stands before it.
pub get_principal_id-quoted :
    (status before id after : String)
    → IsWord id
    → NoBracket before
    → get_principal_id (record {
      status_code = status_ok;
      status = status;
      decoded = inl (record { message = before +++ ("['" +++ (id +++ ("']" +++ after))) });
    })
      ≡ principal_id id
unfolding get_principal_id read_id id_of
get_principal_id-quoted status before id after (n, h) out = ap id_of (
    find_string_submatch-some pid_match _ (
      ap (find pid_match) (chars-quoted before id after)
      ∙ find_after (is_char b'[') pid_match (chars before) (quoted (chars id) ++ chars after)
          (seq-Starts (is_char b'[') (one (is_char b'['))
            (char_then b'\'' (seq (group (plus is_word)) closing)) (one-Starts (is_char b'[')))
          out
          (quoted-Settled (quoted (chars id)) (chars id ∷ []) (chars after)
            (quoted-Spells (chars id) n h) (no_class-Stops (chars after))))
    ∙ ap (λ t. text_of (quoted (chars id)) ∷ t ∷ []) (text_of-chars id))

quoted_inv :
    (t : List Char) (gs : List (List Char))
    → Spells pid_match t gs
    → (w : List Char) × (w ≢ []) × AllIn is_word w × (t ≡ quoted w) × (gs ≡ w ∷ [])
quoted_inv t gs s =
    let (b, sb, et) =
      char_then_inv (char_then b'\'' (seq (group (plus is_word)) closing)) b'[' open_bracket t gs
        refl s in
    let (d, sd, eb) = char_then_inv (seq (group (plus is_word)) closing) b'\'' quote b gs refl sb in
    let (w, e, h, sw, se, ed, eg) =
      group_char_inv (plus is_word) (one (is_char b']')) b'\'' quote d gs tt refl sd in
    let (ee, eh) = char_inv b']' close_bracket e h refl se in
    (
      w,
      sw.0,
      sw.1,
      et
          ∙ ap (λ b. open_bracket ∷ b) eb
          ∙ ap (λ d. open_bracket ∷ quote ∷ d) ed
          ∙ ap (λ e. open_bracket ∷ quote ∷ (w ++ (quote ∷ e))) ee,
      eg ∙ ap (λ h. w ∷ h) eh,
    )

error-not_id : (err id : String) → id_error err ≢ principal_id id
error-not_id err id e = cc

id_of_inv :
    (ts : List String) (id : String)
    → id_of ts ≡ principal_id id
    → (all : String) × (ts ≡ all ∷ id ∷ [])
unfolding id_of
id_of_inv [] id e = cc
id_of_inv (a ∷ []) id e = cc
id_of_inv (a ∷ b ∷ []) id e = (a, cc)
id_of_inv (a ∷ b ∷ c ∷ ts) id e = cc

-- The message has the id between `['` and `']`.
abbrev pub Holds : PrincipalResponse ⊎ String → String → Type 0
Holds d id =
    (pr : PrincipalResponse) × (before : List Char) × (after : List Char) × (d ≡ inl pr)
    × IsWord id
    × (chars pr.message ≡ before ++ (quoted (chars id) ++ after))

read_id-Holds :
    (d : PrincipalResponse ⊎ String) (id : String) → read_id d ≡ principal_id id → Holds d id
unfolding read_id
read_id-Holds (inr err) id e = cc
read_id-Holds (inl pr) id e =
    let (all, submatches) = id_of_inv (find_string_submatch pid_match pr.message) id e in
    elim (submatch-Found pid_match pr.message) [
      | inl nothing ↦ absurd (cons-ne-nil all (id ∷ []) (sym submatches ∙ nothing))
      | inr (m, (before, at, spelled), matched) ↦
          let (w, n, h, et, eg) = quoted_inv m.taken m.groups spelled in
          let same : id ≡ text_of w =
            second all id (text_of m.taken) (text_of w)
              (sym submatches ∙ matched ∙ ap (λ gs. text_of m.taken ∷ map text_of gs) eg) in
          let back : w ≡ chars id = sym (ap chars same ∙ chars-text_of w) in
          (
            pr,
            before,
            m.rest,
            refl,
            subst (λ w. (w ≢ []) × AllIn is_word w) back (n, h),
            at ∙ ap (λ t. before ++ (t ++ m.rest)) (et ∙ ap quoted back),
          )
    ]
  where
    second : (a b c d : String) → ◌≡◌ {A = List String} (a ∷ b ∷ []) (c ∷ d ∷ []) → b ≡ d
    second a b c d e = cc

-- Every id that is read back stands between `['` and `']` in the message of a response with status ok.
get_principal_id-IsWord :
    (resp : HttpResponse) (id : String)
    → get_principal_id resp ≡ principal_id id
    → (resp.status_code ≡ status_ok) × Holds resp.decoded id
unfolding get_principal_id
get_principal_id-IsWord resp id e = elim (Bool-cases (nat_beq resp.status_code status_ok)) [
  | inl f ↦
      ((nat_beq_iff resp.status_code status_ok).0 f, read_id-Holds resp.decoded id (rw f at e))
  | inr f ↦ absurd (error-not_id _ id (rw f at e))
]
