-- ===== src/Proxy/Riak.antt =====
-- proxy/riak.go: the backend that the cache uses, over the Riak client, which is a parameter like the
-- encoder and the decoder of package json.
pub mod Roundtrip
pub mod Indexed
pub mod Calls
pub mod Searches
pub mod Setup
use Prim.Native.String.{◌++◌}
use cloudlab_k8s.Prelude.{
  ℕ, Bool, true, false, Option, none, some, List, [], ◌∷◌, String, string_key, ◌==◌, Text, Map,
  lookup, ℤ, if◌then◌else◌,
}
use cloudlab_k8s.Proxy.Types.{Ip, IpNet, Net, InstanceCred, CachedInstance, normal_instance_type}
use cloudlab_k8s.Proxy.Fmt.{sprint_int, sscan_ports}
use cloudlab_k8s.Proxy.Cache.{RiakConn, CachedPod}

-- `NetMapObj`
pub record NetMapObj : Type 0 where
  pub pid : String
  pub ppid : String
  pub cidr : String
  pub type : String

-- Package json: an object's bytes.
pub record Codec : Type 0 where
  pub encode : NetMapObj → Option Text
  pub decode : Text → Option NetMapObj

-- NetMapKey: Sprintf of `%d:%d`.
unfoldable pub net_map_key : ℤ → ℤ → String
net_map_key lport rport = sprint_int lport ++ (":" ++ sprint_int rport)

abbrev pub netmap_pid : String
netmap_pid = "Pid_s"

abbrev pub netmap_id : String
netmap_id = "Id_s"

abbrev pub netmap_cidr : String
netmap_cidr = "Cidr_s"

abbrev pub netmap_type : String
netmap_type = "Type_s"

-- The object that Bytes encodes.
unfoldable pub net_map_obj : Net → InstanceCred → NetMapObj
net_map_obj net i = record {
  pid = i.pid;
  ppid = i.ppid;
  cidr = elim i.cidr [ none ↦ "" | some network ↦ net.cidr_string network ];
  type = i.type;
}

abbrev pub encoded_bytes : Option Text → Text
encoded_bytes none = []
encoded_bytes (some buf) = buf

-- InstanceCred.Bytes: no bytes where the encoder fails.
unfoldable pub to_bytes : Net → Codec → InstanceCred → Text
to_bytes net codec i = encoded_bytes (codec.encode (net_map_obj net i))

-- InstanceCredFromBytes behind the decoder.
unfoldable pub cred_of : Net → NetMapObj → Option InstanceCred
cred_of net obj =
    if obj.cidr == ""
    then some (record { pid = obj.pid; ppid = obj.ppid; cidr = none; type = obj.type })
    else elim (net.parse_cidr obj.cidr) [
      | none ↦ none
      | some cidr ↦
          some (record { pid = obj.pid; ppid = obj.ppid; cidr = some cidr; type = obj.type })
    ]

abbrev pub decoded_cred : Net → Option NetMapObj → Option InstanceCred
decoded_cred net none = none
decoded_cred net (some obj) = cred_of net obj

unfoldable pub instance_cred_from_bytes : Net → Codec → Text → Option InstanceCred
instance_cred_from_bytes net codec bytes = decoded_cred net (codec.decode bytes)

-- riak.SearchDoc
pub record SearchDoc : Type 0 where
  pub bucket : String
  pub key : String
  pub fields : Map String (List String)

-- The first value of a field; `none` where the field is missing or empty.
abbrev pub first_value : Option (List String) → Option String
first_value none = none
first_value (some []) = none
first_value (some (value ∷ values)) = some value

unfoldable pub field : SearchDoc → String → Option String
field d name = first_value (lookup name d.fields)

-- The type and the network of genCachedInstance, from what the fields hold. A network that does not
-- parse is nil.
unfoldable pub doc_type : Option String → String
doc_type none = normal_instance_type
doc_type (some type) = type

unfoldable pub doc_cidr : Net → Option String → Option IpNet
doc_cidr net none = none
doc_cidr net (some cidr) = if cidr == "" then none else net.parse_cidr cidr

-- The instance, where the key is two ports, the fields hold a parent and an identity, and the bucket
-- is an address.
unfoldable pub doc_instance :
    Net
    → SearchDoc
    → Option (ℤ × ℤ)
    → Option String
    → Option String
    → Option Ip
    → Option CachedInstance
doc_instance net d (some (lport, rport)) (some pid) (some id) (some ip) = some (record {
  ip = ip;
  lport = lport;
  rport = rport;
  id = record {
    pid = id;
    ppid = pid;
    type = doc_type (field d netmap_type);
    cidr = doc_cidr net (field d netmap_cidr);
  };
})
doc_instance net d _ _ _ _ = none

unfoldable pub gen_cached_instance : Net → Codec → SearchDoc → Option CachedInstance
gen_cached_instance net codec d =
    doc_instance net d (sscan_ports d.key) (field d netmap_pid) (field d netmap_id)
      (net.parse_ip d.bucket)

-- The loop over the documents of a search.
abbrev pub with_instance : Option CachedInstance → List CachedInstance → List CachedInstance
with_instance none result = result
with_instance (some inst) result = inst ∷ result

unfoldable pub gen_cached_instances : Net → Codec → List SearchDoc → List CachedInstance
gen_cached_instances net codec [] = []
gen_cached_instances net codec (d ∷ docs) =
    with_instance (gen_cached_instance net codec d) (gen_cached_instances net codec docs)

-- The commands of the client: `false` or `none` where one cannot be built or executed.
pub record RiakClient (R : Type 0) : Type 0 where
  pub store_value : String → String → Text → R → Bool × R
  pub delete_value : String → String → R → Bool × R
  pub search : String → R → Option (List SearchDoc) × R
  pub fetch_value : String → String → R → Option (List Text) × R

abbrev pub query_bucket : String
query_bucket = "_yz_rb"

abbrev pub query_bucket_type : String
query_bucket_type = "_yz_rt"

abbrev cidr_bucket : String
cidr_bucket = "cidr"

abbrev pub riak_bucket_type : String
riak_bucket_type = "trustnet"

-- fmt.Sprintf("%s:%s AND %s:%s", ...) of a field and its value, in the bucket type.
abbrev pub query : String → String → String
query name value = name ++ ":" ++ value ++ " AND " ++ query_bucket_type ++ ":" ++ riak_bucket_type

module _ {R : Type 0} (net : Net) (codec : Codec) (client : RiakClient R) where
  unfoldable pub put_net_id_map : Ip → ℤ → ℤ → InstanceCred → R → Bool × R
  put_net_id_map ip lport rport uuid =
      client.store_value (net.ip_string ip) (net_map_key lport rport) (to_bytes net codec uuid)

  unfoldable pub del_net_id_map : Ip → ℤ → ℤ → R → Bool × R
  del_net_id_map ip lport rport = client.delete_value (net.ip_string ip) (net_map_key lport rport)

  unfoldable pub del_net_allocation : Ip → R → Bool × R
  del_net_allocation ip = client.delete_value cidr_bucket (net.ip_string ip)

  -- What a search returned, as instances.
  abbrev pub searched : Option (List SearchDoc) × R → Option (List CachedInstance) × R
  searched (none, r) = (none, r)
  searched (some docs, r) = (some (gen_cached_instances net codec docs), r)

  unfoldable pub get_all_net_id : Ip → R → Option (List CachedInstance) × R
  get_all_net_id ip r = searched (client.search (query query_bucket (net.ip_string ip)) r)

  unfoldable pub search_id_net : String → R → Option (List CachedInstance) × R
  search_id_net uuid r = searched (client.search (query netmap_id uuid) r)

  -- The credential that GetNetIDMap returns, where the fetch did not fail; the inner `none` is nil.
  abbrev pub fetched : Option (List Text) → Option (Option InstanceCred)
  fetched none = none
  fetched (some []) = some none
  fetched (some (value ∷ values)) = some (instance_cred_from_bytes net codec value)

  unfoldable pub get_net_id_map : Ip → ℤ → ℤ → R → Option (Option InstanceCred) × R
  get_net_id_map ip lport rport r =
      let (values, r') = client.fetch_value (net.ip_string ip) (net_map_key lport rport) r in
      (fetched values, r')

  -- The connection as the cache's backend.
  unfoldable pub riak_conn : RiakConn R
  riak_conn = record {
    put_net_id_map = put_net_id_map;
    del_net_id_map = del_net_id_map;
    get_all_net_id = get_all_net_id;
    search_id_net = search_id_net;
  }

-- PutPodMap and GetPodMap, which do nothing yet: no error, and no pod.
unfoldable pub put_pod_map : {R Time : Type 0} → Ip → CachedPod Time → R → Bool × R
put_pod_map ip pod conn = (true, conn)

unfoldable pub get_pod_map : {R Time : Type 0} → Ip → R → Option (Option (CachedPod Time)) × R
get_pod_map ip conn = (some none, conn)
