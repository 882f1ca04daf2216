-- ===== src/Tests/Riak.antt =====
-- The theorems on the Riak connection for the document of the worker.
use cloudlab_k8s.Prelude.{
  ℕ, ◌≡◌, refl, Bool, true, some, [], ◌∷◌, String, string_key, ◌==◌, lookup, arith, if◌then◌else◌,
  not, ◌&&◌, none, List, ◌++◌ as ◌++ₗ◌,
}
use Prim.Native.Char.{Char, code}
use Prim.Native.String.{◌++◌}
use Prim.Native.String.append
use cloudlab_k8s.Proxy.Types.{CachedInstance}
use cloudlab_k8s.Proxy.Fmt.{sprint_int}
use cloudlab_k8s.Proxy.Riak.{
  Codec, net_map_key, net_map_obj, to_bytes, instance_cred_from_bytes, SearchDoc, field,
  gen_cached_instance, RiakClient, query_bucket, query, NetMapObj, query_bucket_type,
  riak_bucket_type,
}
use cloudlab_k8s.Proxy.Riak.Roundtrip.{
  IsDocOf, instance_cred_from_bytes-to_bytes, gen_cached_instance_lem,
}
use cloudlab_k8s.Proxy.Riak.Indexed.{is_at}
use cloudlab_k8s.Proxy.Riak.Calls.{Call, put_call, all_call, calls_from}
use cloudlab_k8s.Tests.Proxy.{host_a, two_hosts, worker}

-- An encoder for the one credential, and the ports of the one instance.
abbrev codec : Codec
codec = record {
  encode = λ obj. some (b'{' ∷ []);
  decode = λ bytes. some (net_map_obj two_hosts worker.id);
}

abbrev worker_doc : SearchDoc
worker_doc = record {
  bucket = "10.0.0.1";
  key = "100:200";
  fields =
      ("Id_s", "worker" ∷ [])
      ∷ ("Pid_s", "vm" ∷ [])
      ∷ ("Cidr_s", "" ∷ [])
      ∷ ("Type_s", "normal" ∷ [])
      ∷ [];
}

worker_doc-IsDocOf : IsDocOf two_hosts codec worker worker_doc
unfolding field net_map_obj lookup net_map_key sprint_int
worker_doc-IsDocOf = record {
  bucket_eq = refl;
  key_eq = refl;
  pid_field = refl;
  ppid_field = refl;
  cidr_field = refl;
  type_field = refl;
}

instance_cred_from_bytes-to_bytes_example :
    instance_cred_from_bytes two_hosts codec (to_bytes two_hosts codec worker.id) ≡ some worker.id
instance_cred_from_bytes-to_bytes_example =
    instance_cred_from_bytes-to_bytes two_hosts codec worker.id (b'{' ∷ []) refl refl tt

gen_cached_instance_lem_example : gen_cached_instance two_hosts codec worker_doc ≡ some worker
gen_cached_instance_lem_example =
    gen_cached_instance_lem two_hosts codec worker worker_doc worker_doc-IsDocOf tt (omega arith)
      (omega arith) refl

-- A Riak that takes the credential of the worker, and finds what is on its host.
abbrev is_worker : NetMapObj → Bool
is_worker obj = obj.pid == "worker" && obj.ppid == "vm" && obj.cidr == "" && obj.type == "normal"

abbrev worker_codec : Codec
worker_codec = record {
  encode = λ obj. if is_worker obj then some (b'{' ∷ []) else none;
  decode = λ bytes. none;
}

abbrev worker_doc_at : String → String → SearchDoc
worker_doc_at bucket key = record worker_doc { bucket = bucket; key = key }

abbrev keep : (SearchDoc → Bool) → List SearchDoc → List SearchDoc
keep p [] = []
keep p (d ∷ docs) = let rest = keep p docs in if p d then d ∷ rest else rest

abbrev away : String → String → List SearchDoc → List SearchDoc
away bucket key = keep (λ d. not (is_at bucket key d))

abbrev by_host : String
by_host = query query_bucket "10.0.0.1"

abbrev client : RiakClient (List SearchDoc)
client = record {
  store_value = λ bucket key value r. (true, worker_doc_at bucket key ∷ away bucket key r);
  delete_value = λ bucket key r. (true, away bucket key r);
  search = λ q r. (some (if q == by_host then keep (λ d. d.bucket == "10.0.0.1") r else []), r);
  fetch_value = λ bucket key r. (some [], r);
}

-- The queries differ in their first letter.
abbrev first_code : String → ℕ
first_code String.[] = 0
first_code (String.◌∷◌ c s) = code c

abbrev of_id : ℕ
of_id = b'I'

abbrev of_host : ℕ
of_host = b'_'

abbrev in_type : String
in_type = " AND " ++ query_bucket_type ++ ":" ++ riak_bucket_type

abbrev written : List Call
written = put_call worker ∷ all_call host_a ∷ []

abbrev state : List SearchDoc × List CachedInstance
state = calls_from two_hosts worker_codec client ([], []) written
