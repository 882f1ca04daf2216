-- ===== src/Kvstore/Images.antt =====
-- `ImageHasher` of proxy/internal/pkg/kvstore/server.go: the three routes over the store. The
-- router's variables and the decoder of JSON bodies are not part of the program: a request comes as
-- the variable that mux found, or as what the decoder left behind.
pub mod Routes
use cloudlab_k8s.Prelude.{Bool, true, false, Option, none, some, List, [], ◌∷◌, Text}
use cloudlab_k8s.Kvstore.Store.{Store, put_values, get_values, get_key}

-- A `CreateImageRequest` after Decode. Where Decode failed, `error` is its message and the fields
-- are what it had filled in by then.
pub record CreateImageRequest : Type 0 where
  pub image : Text
  pub files : List Text
  pub error : Option Text

-- The response: its JSON object's list (`Files` or `Image`), or status 400 with a text, or the
-- empty body.
pub data Response : Type 0 where
  content_of : List Text → Response
  index_of : List Text → Response
  must_provide_image must_provide_hash : Response
  bad_request : Text → Response
  empty_body : Response

unfoldable pub get_content : Store → Option Text → Response
get_content store none = must_provide_image
get_content store (some image) = content_of (get_values store image)

unfoldable pub get_index : Store → Option Text → Response
get_index store none = must_provide_hash
get_index store (some hash) = index_of (get_key store hash)

-- After writing the error the handler goes on.
unfoldable pub put_image : Store → CreateImageRequest → Store × Response
put_image store image =
    let response : Response = elim image.error [
      | none ↦ empty_body
      | some message ↦ bad_request message
    ] in
    (put_values store image.image image.files, response)
