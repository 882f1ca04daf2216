-- ===== src/Proxy/Safeutils.antt =====
-- proxy/safeutils.go: the principal's id in a response of the SAFE server. A response comes with what
-- the JSON decoder made of its body: the message, or the decoder's error.
pub mod Quoted
use Prim.Native.Char.{Char, char}
use Prim.Native.String.{◌++◌ as ◌+++◌}
use mathlib.Core.Path.{subst}
use mathlib.Core.List.{append_assoc, cons-ne-nil}
use cloudlab_k8s.Prelude.{
  ℕ, Bool, true, false, not, List, [], ◌∷◌, ◌++◌, map, String, if◌then◌else◌, nat_beq, nat_beq_iff,
  ◌≡◌, refl, sym, ap, ◌∙◌, ◌≢◌, ◌⊎◌, inl, inr, arith, Bool-cases,
}
use cloudlab_k8s.Proxy.Types.{status_ok}
use cloudlab_k8s.Proxy.Address.Regexp.{
  one, plus, seq, group, chars, text_of, find, find_string_submatch,
}
use cloudlab_k8s.Proxy.Address.Regexp.Texts.{
  text_of-chars, chars-text_of, chars-append, find_string_submatch-some,
}
use cloudlab_k8s.Proxy.Address.Regexp.Spelled.{AllIn, Spells, seq-Spells, group-Spells}
use cloudlab_k8s.Proxy.Address.Regexp.Settled.{
  Settled, one-Ends, seq-Ends, one-Settled, one_then-Settled, plus-Settled, seq-Settled,
  group-Settled, one-Starts, seq-Starts, no_class-Stops, find_after,
}
use cloudlab_k8s.Proxy.Address.{is_char, is_word, char_then, closing, pid_match}
use cloudlab_k8s.Proxy.Address.Inverted.{char_inv, char_then_inv, group_char_inv, submatch-Found}
use cloudlab_k8s.Proxy.Address.Dotted.{char_then-Spells}

-- PrincipalResponse
pub record PrincipalResponse : Type 0 where
  pub message : String

-- An http.Response; `decoded` is the decoder's error as the failure it is.
pub record HttpResponse : Type 0 where
  pub status_code : ℕ
  pub status : String
  pub decoded : PrincipalResponse ⊎ String

-- The id, or the error with its text.
pub data PrincipalId : Type 0 where
  principal_id : String → PrincipalId
  id_error : String → PrincipalId

unfoldable pub id_of : List String → PrincipalId
id_of (all ∷ id ∷ []) = principal_id id
id_of other = id_error "error finding pid in response"

unfoldable pub read_id : PrincipalResponse ⊎ String → PrincipalId
unfolding id_of
read_id (inl pr) = id_of (find_string_submatch pid_match pr.message)
read_id (inr err) = id_error err

-- GetPrincipalID
unfoldable pub get_principal_id : HttpResponse → PrincipalId
unfolding read_id
get_principal_id resp =
    if not (nat_beq resp.status_code status_ok)
    then id_error ("error state " +++ resp.status)
    else read_id resp.decoded
