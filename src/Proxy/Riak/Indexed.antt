-- ===== src/Proxy/Riak/Indexed.antt =====
-- Riak and its search under proxy/riak.go, as far as they are documented.
use Prim.Native.Char.{Char, code}
use cloudlab_k8s.Prelude.{
  ℕ, ◌≡◌, ◌⊎◌, Bool, true, false, ◌&&◌, ◌||◌, some, List, [], ◌∷◌, String, string_key, ◌==◌, Text,
  leb,
}
use cloudlab_k8s.Proxy.Pmap.{In}
use cloudlab_k8s.Proxy.Address.{is_char}
use cloudlab_k8s.Proxy.Address.Regexp.{chars}
use cloudlab_k8s.Proxy.Address.Regexp.Spelled.{AllIn}
use cloudlab_k8s.Proxy.Address.Decimal.{is_digit}
use cloudlab_k8s.Proxy.Riak.{
  Codec, NetMapObj, netmap_id, netmap_pid, netmap_cidr, netmap_type, SearchDoc, field, RiakClient,
  query, query_bucket,
}

-- A text that the query language of Solr reads as one term, with none of its operators: lower-case
-- letters and digits, behind the first also dots and dashes.
abbrev pub is_plain : ℕ → Bool
is_plain c = (leb b'a' c && leb c b'z') || is_digit c

abbrev pub is_inner : ℕ → Bool
is_inner c = is_plain c || is_char b'.' c || is_char b'-' c

abbrev pub StartsPlain : List Char → Type 0
StartsPlain [] = ⊥
StartsPlain (c ∷ cs) = is_plain (code c) ≡ true

abbrev pub IsTerm : String → Type 0
IsTerm s = StartsPlain (chars s) × AllIn is_inner (chars s)

-- The document of an object that was stored under the key in the bucket.
pub record IsStoredAs (bucket key : String) (obj : NetMapObj) (d : SearchDoc) : Type 0 where
  pub bucket_eq : d.bucket ≡ bucket
  pub key_eq : d.key ≡ key
  pub id_field : field d netmap_id ≡ some obj.pid
  pub pid_field : field d netmap_pid ≡ some obj.ppid
  pub cidr_field : field d netmap_cidr ≡ some obj.cidr
  pub type_field : field d netmap_type ≡ some obj.type

abbrev pub is_at : String → String → SearchDoc → Bool
is_at bucket key d = d.bucket == bucket && d.key == key

-- What is documented of Riak and of its search, over the documents that it holds: a search returns
-- documents that are held, and a search of the bucket or of the identity for one term those that have it; a store adds
-- the document of its object, in place of the one under its key if it succeeds; a deletion adds
-- nothing, and leaves none under its key if it succeeds.
pub record IsIndexed {R : Type 0} (codec : Codec) (client : RiakClient R)
    (contents : R → List SearchDoc) : Type 0 where
  pub search_held :
      (q : String) (r : R) (docs : List SearchDoc) (d : SearchDoc)
      → (client.search q r).0 ≡ some docs
      → In d docs
      → In d (contents r)
  pub search_bucket :
      (value : String) (r : R) (docs : List SearchDoc) (d : SearchDoc)
      → IsTerm value
      → (client.search (query query_bucket value) r).0 ≡ some docs
      → In d docs
      → d.bucket ≡ value
  pub search_id :
      (value : String) (r : R) (docs : List SearchDoc) (d : SearchDoc)
      → IsTerm value
      → (client.search (query netmap_id value) r).0 ≡ some docs
      → In d docs
      → field d netmap_id ≡ some value
  pub search_keeps :
      (q : String) (r : R) (d : SearchDoc)
      → In d (contents (client.search q r).1)
      → In d (contents r)
  pub store_adds :
      (bucket key : String) (obj : NetMapObj) (bytes : Text) (r : R) (d : SearchDoc)
      → codec.encode obj ≡ some bytes
      → In d (contents (client.store_value bucket key bytes r).1)
      → In d (contents r) ⊎ IsStoredAs bucket key obj d
  pub store_replaces :
      (bucket key : String) (obj : NetMapObj) (bytes : Text) (r : R) (d : SearchDoc)
      → codec.encode obj ≡ some bytes
      → (client.store_value bucket key bytes r).0 ≡ true
      → In d (contents (client.store_value bucket key bytes r).1)
      → is_at bucket key d ≡ true
      → IsStoredAs bucket key obj d
  pub delete_keeps :
      (bucket key : String) (r : R) (d : SearchDoc)
      → In d (contents (client.delete_value bucket key r).1)
      → In d (contents r)
  pub delete_removes :
      (bucket key : String) (r : R) (d : SearchDoc)
      → (client.delete_value bucket key r).0 ≡ true
      → In d (contents (client.delete_value bucket key r).1)
      → is_at bucket key d ≡ false
