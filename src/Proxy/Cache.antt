-- ===== src/Proxy/Cache.antt =====
-- proxy/cache.go: one worker's cache in front of the backend store. Its methods hold the mutex from
-- the first statement to the return, so each is one step.
pub mod Reload
pub mod Looks
pub mod Lookups
pub mod Serves
pub mod Complete
pub mod Writes
pub mod Misplaced
use cloudlab_k8s.Prelude.{
  ℕ, ◌≡◌, Bool, true, false, not, Option, none, some, List, [], ◌∷◌, String, ℤ, nat_beq,
  if◌then◌else◌,
}
use cloudlab_k8s.Proxy.Types.{
  Ip, Net, Pod, InstanceCred, CachedInstance, status_ok, not_found, internal_server_error,
}
use cloudlab_k8s.Proxy.Run.{Run, pure, deref, ◌>>=◌, ◌>>◌}
use cloudlab_k8s.Proxy.Pmap.{
  PrincipalIndex, IntTree, Pmap, new_pmap, get_index, get_cached_instance, put_cached_instance,
  del_cached_instance_alt, loaded,
}

-- The methods of `RiakConn` that the cache calls. A method that fails returns `none` or `false`.
pub record RiakConn (R : Type 0) : Type 0 where
  pub put_net_id_map : Ip → ℤ → ℤ → InstanceCred → R → Bool × R
  pub del_net_id_map : Ip → ℤ → ℤ → R → Bool × R
  pub get_all_net_id : Ip → R → Option (List CachedInstance) × R
  pub search_id_net : String → R → Option (List CachedInstance) × R

-- `cacheImpl` with the backend that all caches share.
pub record Cache (Tree R : Type 0) : Type 0 where
  pub pmap : Pmap Tree
  pub conn : R

-- NewCache, but for the counter that numbers the caches in the log.
unfoldable pub new_cache : {Tree R : Type 0} → R → Cache Tree R
new_cache conn = record { pmap = new_pmap; conn = conn }

-- `CachedPod`, with the package time's instants as `Time`.
pub record CachedPod (Time : Type 0) : Type 0 where
  pub ip : Ip
  pub expire : Time
  pub pod_instance : Pod

-- GetPod and PutPod, which do nothing yet.
unfoldable pub get_pod : {Tree R Time : Type 0} → CachedPod Time → Run (Cache Tree R) ℕ
get_pod inst = pure 0

unfoldable pub put_pod : {Tree R Time : Type 0} → CachedPod Time → Time → Run (Cache Tree R) ℕ
put_pod inst expire_sec = pure 0

-- An instance with http.StatusOK, or an error's status.
pub data Answer : Type 0 where
  found : CachedInstance → Answer
  failed : ℕ → Answer

-- CachedInstance.Copy
unfoldable pub copy : CachedInstance → CachedInstance
copy inst = record {
  lport = inst.lport;
  rport = inst.rport;
  ip = inst.ip;
  id = record { pid = inst.id.pid; ppid = inst.id.ppid; cidr = inst.id.cidr; type = inst.id.type };
}

-- A call of the backend, and a change of the Pmap that may panic.
abbrev pub on_conn : {Tree R A : Type 0} → (R → A × R) → Run (Cache Tree R) A
on_conn f c = let (a, conn) = f c.conn in some (a, record c { conn = conn })

abbrev pub on_pmap : {Tree R : Type 0} → (Pmap Tree → Option (Pmap Tree)) → Run (Cache Tree R) Unit
on_pmap f c = elim (f c.pmap) [ none ↦ none | some m ↦ some (tt, record c { pmap = m }) ]

pub on_pmap-some :
    {Tree R : Type 0} (f : Pmap Tree → Option (Pmap Tree)) (c : Cache Tree R) (m : Pmap Tree)
    → f c.pmap ≡ some m
    → on_pmap f c ≡ some (tt, record c { pmap = m })
on_pmap-some f c m e = rw (e, on_pmap)

pub on_pmap-none :
    {Tree R : Type 0} (f : Pmap Tree → Option (Pmap Tree)) (c : Cache Tree R)
    → f c.pmap ≡ none
    → on_pmap f c ≡ none
on_pmap-none f c e = rw (e, on_pmap)

abbrev pub read_pmap : {Tree R A : Type 0} → (Pmap Tree → A) → Run (Cache Tree R) A
read_pmap f c = some (f c.pmap, c)

-- The end of GetInstanceFromID after reloadUUID: `*inst`, unless the status is an error's.
abbrev pub finish_id : {Tree R : Type 0} → Option CachedInstance × ℕ → Run (Cache Tree R) Answer
finish_id (reloaded, status) =
    if nat_beq status status_ok
    then (do i ← deref reloaded; pure (found i))
    else pure (failed status)

module _ {Tree R : Type 0} (net : Net) (ops : IntTree Tree) (riak : RiakConn R) where
  -- The loop of reloadCache.
  unfoldable pub put_each : List CachedInstance → Run (Cache Tree R) Unit
  put_each [] = pure tt
  put_each (inst ∷ pmaps) = do on_pmap (λ m. put_cached_instance net ops m inst); put_each pmaps

  -- reloadCache behind its call of GetAllNetID.
  unfoldable pub load_all : Option (List CachedInstance) → Run (Cache Tree R) ℕ
  load_all none = pure internal_server_error
  load_all (some pmaps) = do put_each pmaps; pure status_ok

  unfoldable pub reload_cache : Ip → Run (Cache Tree R) ℕ
  reload_cache ip = do pmaps ← on_conn (riak.get_all_net_id ip); load_all pmaps

  -- reloadUUID behind its call of SearchIDNet: the instance and the status of the reload, or an
  -- error's status. The warnings of more than one result and of an address that is loaded already
  -- are only logged.
  unfoldable pub load_first :
      Option (List CachedInstance) → Run (Cache Tree R) (Option CachedInstance × ℕ)
  load_first none = pure (none, internal_server_error)
  load_first (some []) = pure (none, not_found)
  load_first (some (inst ∷ rest)) = do status ← reload_cache inst.ip; pure (some inst, status)

  unfoldable pub reload_uuid : String → Run (Cache Tree R) (Option CachedInstance × ℕ)
  reload_uuid uuid = do pmap ← on_conn (riak.search_id_net uuid); load_first pmap

  -- The end of GetInstanceFromNetMap: the instance of the index, dereferenced.
  unfoldable pub instance_of : PrincipalIndex → Run (Cache Tree R) Answer
  instance_of index = do
    cached ← read_pmap (λ m. get_cached_instance m index.p)
    result ← deref cached
    pure (found (copy result))

  -- What GetInstanceFromNetMap makes of the index that it finds after a reload.
  unfoldable pub second_look : Option PrincipalIndex → Run (Cache Tree R) Answer
  second_look none = pure (failed not_found)
  second_look (some index) = instance_of index

  unfoldable pub after_reload : String → ℤ → ℕ → Run (Cache Tree R) Answer
  after_reload ipstr port status =
      if nat_beq status status_ok
      then (do index ← read_pmap (λ m. get_index ops m ipstr port); second_look index)
      else pure (failed status)

  -- What it makes of the index that it finds at first.
  unfoldable pub first_look : Ip → ℤ → Option PrincipalIndex → Run (Cache Tree R) Answer
  first_look ip port none = do status ← reload_cache ip; after_reload (net.ip_string ip) port status
  first_look ip port (some index) = instance_of index

  unfoldable pub get_instance_from_net_map : Ip → ℤ → Run (Cache Tree R) Answer
  get_instance_from_net_map ip port = do
    index ← read_pmap (λ m. get_index ops m (net.ip_string ip) port)
    first_look ip port index

  -- What GetInstanceFromID makes of the instance that it finds cached.
  unfoldable pub cached_or_loaded : String → Option CachedInstance → Run (Cache Tree R) Answer
  cached_or_loaded pid none = do r ← reload_uuid pid; finish_id r
  cached_or_loaded pid (some inst) = pure (found inst)

  unfoldable pub get_instance_from_id : String → Run (Cache Tree R) Answer
  get_instance_from_id pid = do
    inst ← read_pmap (λ m. get_cached_instance m pid)
    cached_or_loaded pid inst

  unfoldable pub put_instance : CachedInstance → Run (Cache Tree R) ℕ
  put_instance inst = do
    on_pmap (λ m. put_cached_instance net ops m inst)
    stored ← on_conn (riak.put_net_id_map inst.ip inst.lport inst.rport inst.id)
    pure (if stored then status_ok else internal_server_error)

  unfoldable pub del_instance : Ip → ℤ → ℤ → String → Run (Cache Tree R) ℕ
  del_instance ip lport rport pid = do
    on_pmap (λ m. del_cached_instance_alt net ops m ip lport rport pid)
    deleted ← on_conn (riak.del_net_id_map ip lport rport)
    pure (if deleted then status_ok else internal_server_error)
