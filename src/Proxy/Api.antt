-- ===== src/Proxy/Api.antt =====
-- proxy/newapi.go: a request of the proxy, its authentication, and the proxy's own state.
pub mod Control
pub mod Handler
pub mod Hooks
pub mod Config
pub mod Links
pub mod Routes
pub mod Caches
pub mod Shared
pub mod Claimed
pub mod Authentic
pub mod Steps
use cloudlab_k8s.Prelude.{
  ℕ, ◌%◌, ◌<◌, ◌≡◌, Bool, true, false, not, ◌&&◌, ◌||◌, Option, none, some, List, [], ◌∷◌, ◌++◌,
  String, string_key, ◌==◌, Map, length, get_elem?, set, nat_beq, leb_ℤ, ℤ, pos, if◌then◌else◌,
}
use text.Mathlib.Text.{starts_with}
use cloudlab_k8s.Proxy.Types.{
  Ip, IpNet, Net, InstanceCred, CachedInstance, Pod, nil_ip, status_ok, bad_request, unauthorized,
  normal_instance_type, noauth_prefix,
}
use cloudlab_k8s.Proxy.Run.{Run, pure, panic, deref, ◌>>=◌, ◌>>◌}
use cloudlab_k8s.Proxy.Pmap.{IntTree, Pmap}
use cloudlab_k8s.Proxy.Cache.{
  RiakConn, Cache, Answer, found, failed, get_instance_from_net_map, get_instance_from_id,
}
use cloudlab_k8s.Proxy.Address.{parse_ip_new}

abbrev pub iaas_provider : String
iaas_provider = "152.3.145.38:444"

-- MetadataRequest. `cache` is the position of the request's cache among the proxy's.
pub record MetadataRequest : Type 0 where
  pub principal : String
  pub parent_bear : String
  pub other_values : List String
  pub auth : String
  pub ip : Ip
  pub lport : ℤ
  pub rport : ℤ
  pub target_cidr : Option IpNet
  pub target_ip : Ip
  pub target_lport : ℤ
  pub target_rport : ℤ
  pub target_type : String
  pub target_addr_index : ℕ
  pub url : String
  pub method : String
  pub inst : Option CachedInstance
  pub cache : ℕ

-- The fields that the JSON decoder fills.
pub record Decoded : Type 0 where
  pub principal : String
  pub parent_bear : String
  pub other_values : List String
  pub auth : String

-- An http.Request: `body` is `none` where it cannot be read or decoded.
pub record HttpRequest : Type 0 where
  pub method : String
  pub remote_addr : String
  pub uri : String
  pub body : Option Decoded

-- `MetadataProxy`: the Pmap of each cache, the backend that they share, the pods, and the SAFE
-- server behind the HTTP client.
pub record MetadataProxy (Tree R W : Type 0) : Type 0 where
  pub pmaps : List (Pmap Tree)
  pub conn : R
  pub pods : Map String Pod
  pub safe : W

-- A method of the cache at a position; there is a panic where there is no such cache.
abbrev pub on_cache :
    {Tree R W A : Type 0} → ℕ → Run (Cache Tree R) A → Run (MetadataProxy Tree R W) A
on_cache i op c = elim (get_elem? c.pmaps i) [
  | none ↦ none
  | some m ↦ elim (op (record { pmap = m; conn = c.conn })) [
    | none ↦ none
    | some (a, k) ↦ some (a, record c { pmaps = set c.pmaps i k.pmap; conn = k.conn })
  ]
]

-- ReadRequest: the request that it makes of a decoded body.
abbrev pub read_request : Decoded → MetadataRequest
read_request d = record {
  principal = d.principal;
  parent_bear = d.parent_bear;
  other_values = d.other_values;
  auth = d.auth;
  ip = nil_ip;
  lport = pos 0;
  rport = pos 0;
  target_cidr = none;
  target_ip = nil_ip;
  target_lport = pos 0;
  target_rport = pos 0;
  target_type = normal_instance_type;
  target_addr_index = 0;
  url = "";
  method = "";
  inst = none;
  cache = 0;
}

-- A request that is let through, or the status of a refusal.
pub data Auth : Type 0 where
  authenticated : MetadataRequest → Auth
  refused : ℕ → Auth

-- newAuth from the instance on. The request's address is parsed again; that it lies outside the
-- instance's ports is only logged.
unfoldable pub bind_instance : Net → HttpRequest → MetadataRequest → CachedInstance → Auth
bind_instance net r mr inst =
    let (remote_ip, remote_port, unused, status) = parse_ip_new net r.remote_addr in
    if nat_beq status status_ok
    then authenticated (record mr {
      principal = inst.id.pid;
      parent_bear = inst.id.ppid;
      ip = inst.ip;
      lport = inst.lport;
      rport = inst.rport;
      inst = some inst;
    })
    else refused status

-- What newAuth makes of the answer of authenticate.
unfoldable pub after_authenticate : Net → HttpRequest → Bool → MetadataRequest → Answer → Auth
after_authenticate net r auth_principal mr (found inst) = bind_instance net r mr inst
after_authenticate net r auth_principal mr (failed status) =
    if auth_principal then refused status else authenticated mr

module _ {Tree R W : Type 0} (net : Net) (ops : IntTree Tree) (riak : RiakConn R)
    (hash : String → ℕ) where
  -- getCache: the FNV hash of the auth field picks the cache. There is a panic where there is none.
  unfoldable pub get_cache : String → Run (MetadataProxy Tree R W) ℕ
  get_cache auth c =
      if nat_beq (length c.pmaps) 0 then none else some (hash auth % length c.pmaps, c)

  unfoldable pub authenticate : MetadataRequest → String → Run (MetadataProxy Tree R W) Answer
  authenticate mr principal =
      if starts_with principal noauth_prefix
      then pure (failed unauthorized)
      else let (ip, lport, rport, ok) = parse_ip_new net principal in
        (if nat_beq ok status_ok
          then on_cache mr.cache (get_instance_from_net_map net ops riak ip lport)
          else on_cache mr.cache (get_instance_from_id net ops riak principal))

  -- newAuth of a decoded request.
  unfoldable pub auth_decoded : HttpRequest → Bool → Decoded → Run (MetadataProxy Tree R W) Auth
  auth_decoded r auth_principal d = do
    cache ← get_cache d.auth
    let mr = record (read_request d) {
      method = r.method;
      principal = if d.principal == "" then r.remote_addr else d.principal;
      url = r.uri;
      cache = cache;
      auth = "";
    }
    if mr.principal == iaas_provider then pure (authenticated mr) else (do
      answer ← authenticate mr mr.principal
      pure (after_authenticate net r auth_principal mr answer))

  -- newAuth. The fields of the request are set before ReadRequest's status is looked at, which
  -- dereferences nil where there is none.
  unfoldable pub new_auth : HttpRequest → Bool → Run (MetadataProxy Tree R W) Auth
  new_auth r auth_principal = do d ← deref r.body; auth_decoded r auth_principal d
