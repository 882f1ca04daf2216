-- ===== src/Proxy/Cache/Writes.antt =====
-- PutInstance and DelInstance of proxy/cache.go, with the lookups that follow them.
use cloudlab_k8s.Prelude.{
  some-eq, ℕ, ◌≡◌, ◌∙◌, Bool, Option, none, some, String, string_key, beq_refl, lookup, insert,
  lookup-insert, ℤ, suc_ℤ, ◌≤ℤ◌, if◌then◌else◌,
}
use cloudlab_k8s.Proxy.Types.{Ip, Net, CachedInstance, status_ok, internal_server_error}
use cloudlab_k8s.Proxy.Run.{pure, ◌>>=◌, bind_some, bind_none}
use cloudlab_k8s.Proxy.Pmap.{
  PrincipalIndex, IntTree, IsIntTree, Pmap, compute_id, put_cached_instance, create_principal_pp,
  del_cached_instance_alt,
}
use cloudlab_k8s.Proxy.Pmap.Homes.{Home, IsHomed}
use cloudlab_k8s.Proxy.Pmap.Deletion.{IsGone, del_cached_instance-IsHomed}
use cloudlab_k8s.Proxy.Cache.{
  RiakConn, Cache, found, on_pmap, on_pmap-some, on_pmap-none, on_conn, get_instance_from_id,
  put_instance, del_instance,
}
use cloudlab_k8s.Proxy.Cache.Looks.{id_hit}

module _ {Tree R : Type 0} (net : Net) (ops : IntTree Tree) (riak : RiakConn R) where
  put_lookup :
      (m m' : Pmap Tree) (inst : CachedInstance)
      → put_cached_instance net ops m inst ≡ some m'
      → lookup inst.id.pid m'.pid_map ≡ some inst
  unfolding put_cached_instance
  put_lookup m m' inst e =
      go
        (create_principal_pp net ops m inst.ip inst.lport inst.rport inst.id.pid inst.id.ppid
          inst.id.cidr inst.id.type)
        e
    where
      go :
          (o : Option (Pmap Tree))
          → (elim o as (λ _. Option (Pmap Tree)) [
            | none ↦ none
            | some p ↦ some (record p { pid_map = insert inst.id.pid inst p.pid_map })
          ])
            ≡ some m'
          → lookup inst.id.pid m'.pid_map ≡ some inst
      go none e = cc
      go (some p) e =
          rw (← some-eq e)
            (lookup-insert inst.id.pid inst.id.pid inst p.pid_map ∙ rw (beq_refl inst.id.pid))

  pub put_instance_step :
      (c : Cache Tree R) (m : Pmap Tree) (inst : CachedInstance)
      → put_cached_instance net ops c.pmap inst ≡ some m
      → put_instance net ops riak inst c ≡ (
          let (stored, conn) = riak.put_net_id_map inst.ip inst.lport inst.rport inst.id c.conn in
          some
            (if stored then status_ok else internal_server_error, record { pmap = m; conn = conn }))
  unfolding put_instance
  put_instance_step c m inst e =
      bind_some (on_pmap (λ p. put_cached_instance net ops p inst))
        (λ _. on_conn (riak.put_net_id_map inst.ip inst.lport inst.rport inst.id) >>= λ stored.
          pure (if stored then status_ok else internal_server_error))
        c (record c { pmap = m }) tt (on_pmap-some (λ p. put_cached_instance net ops p inst) c m e)

  -- PutInstance of an instance that the Pmap takes answers OK exactly if the backend stored it, but
  -- caches it either way: the next GetInstanceFromID of its identity returns it without asking the
  -- backend.
  pub put_instance-get_instance_from_id :
      (c : Cache Tree R) (m : Pmap Tree) (inst : CachedInstance)
      → put_cached_instance net ops c.pmap inst ≡ some m
      → (c' : Cache Tree R) × (put_instance net ops riak inst c
          ≡ some (
            if (riak.put_net_id_map inst.ip inst.lport inst.rport inst.id c.conn).0
                then status_ok
                else internal_server_error,
            c',
          ))
        × (get_instance_from_id net ops riak inst.id.pid c' ≡ some (found inst, c'))
  put_instance-get_instance_from_id c m inst e =
      let c' : Cache Tree R = record {
        pmap = m;
        conn = (riak.put_net_id_map inst.ip inst.lport inst.rport inst.id c.conn).1;
      } in
      (
        c',
        put_instance_step c m inst e,
        id_hit net ops riak c' inst.id.pid inst (put_lookup c.pmap m inst e),
      )

  pub del_instance_step :
      (c : Cache Tree R) (m : Pmap Tree) (ip : Ip) (lport rport : ℤ) (pid : String)
      → del_cached_instance_alt net ops c.pmap ip lport rport pid ≡ some m
      → del_instance net ops riak ip lport rport pid c ≡ (
          let (deleted, conn) = riak.del_net_id_map ip lport rport c.conn in
          some (
            if deleted then status_ok else internal_server_error,
            record { pmap = m; conn = conn },
          ))
  unfolding del_instance
  del_instance_step c m ip lport rport pid e =
      bind_some (on_pmap (λ p. del_cached_instance_alt net ops p ip lport rport pid))
        (λ _. on_conn (riak.del_net_id_map ip lport rport) >>= λ deleted.
          pure (if deleted then status_ok else internal_server_error))
        c (record c { pmap = m }) tt
        (on_pmap-some (λ p. del_cached_instance_alt net ops p ip lport rport pid) c m e)

  pub del_instance_panics :
      (c : Cache Tree R) (ip : Ip) (lport rport : ℤ) (pid : String)
      → del_cached_instance_alt net ops c.pmap ip lport rport pid ≡ none
      → del_instance net ops riak ip lport rport pid c ≡ none
  unfolding del_instance
  del_instance_panics c ip lport rport pid e =
      bind_none (on_pmap (λ p. del_cached_instance_alt net ops p ip lport rport pid))
        (λ _. on_conn (riak.del_net_id_map ip lport rport) >>= λ deleted.
          pure (if deleted then status_ok else internal_server_error))
        c (on_pmap-none (λ p. del_cached_instance_alt net ops p ip lport rport pid) c e)

  -- DelInstance with the address of the identity: no panic, the maps stay in agreement, nothing is
  -- left of the identity in the cache, and the answer is OK exactly if the backend deleted it. The
  -- address is one that ComputeID takes, with its ports in order.
  pub del_instance-IsGone :
      (holds : Tree → PrincipalIndex → Bool) (laws : IsIntTree ops holds)
      (home : String → Option Home) (c : Cache Tree R) (ip : Ip) (lport rport : ℤ) (pid : String)
      (id : ℕ)
      → IsHomed net holds home c.pmap
      → home pid ≡ some (net.ip_string ip, lport, rport)
      → compute_id net (net.ip_string ip) lport (suc_ℤ rport) ≡ some id
      → lport ≤ℤ suc_ℤ rport
      → (c' : Cache Tree R) × (del_instance net ops riak ip lport rport pid c
          ≡ some (
            if (riak.del_net_id_map ip lport rport c.conn).0
                then status_ok
                else internal_server_error,
            c',
          ))
        × IsHomed net holds home c'.pmap
        × IsGone net ops holds laws home c'.pmap pid
  del_instance-IsGone holds laws home c ip lport rport pid id h homed numbered ordered =
      let (m, eq, mh, gone) =
        del_cached_instance-IsHomed net ops holds laws home c.pmap ip lport rport pid id h homed
          numbered ordered in
      (
        record { pmap = m; conn = (riak.del_net_id_map ip lport rport c.conn).1 },
        del_instance_step c m ip lport rport pid eq,
        mh,
        gone,
      )
