-- ===== src/Tests/Shared.antt =====
-- The theorems on several caches over one backend, for two caches and a backend that remembers
-- whether it took the worker.
use cloudlab_k8s.Prelude.{
  some-eq, ℕ, ◌≡◌, refl, inl, Bool, true, false, some, List, [], ◌∷◌, string_key, arith,
}
use cloudlab_k8s.Proxy.Types.{CachedInstance, status_ok}
use cloudlab_k8s.Proxy.Pmap.{PrincipalIndex, new_pmap}
use cloudlab_k8s.Proxy.Pmap.ListTree.{list_tree, list_holds, list_tree-IsIntTree}
use cloudlab_k8s.Proxy.Pmap.Homes.{new-IsHomed}
use cloudlab_k8s.Proxy.Cache.{RiakConn, put_instance}
use cloudlab_k8s.Proxy.Cache.Reload.{IsHonest, AllAtHome}
use cloudlab_k8s.Proxy.Api.{MetadataProxy, on_cache, MetadataRequest}
use cloudlab_k8s.Proxy.Api.Caches.{AllHomed}
use cloudlab_k8s.Proxy.Api.Claimed.{KnownThrough, put_instance-KnownThrough}
use cloudlab_k8s.Tests.Api.{request}
use cloudlab_k8s.Tests.Config.{first_cache}
use cloudlab_k8s.Tests.Address.{host_a-IsDotted}
use cloudlab_k8s.Tests.Proxy.{host_a, two_hosts, worker, homes, worker-IsAtHome, worker_pmap}

abbrev held : Bool → List CachedInstance
held true = worker ∷ []
held false = []

abbrev memory : RiakConn Bool
memory = record {
  put_net_id_map = λ ip lport rport cred r. (true, true);
  del_net_id_map = λ ip lport rport r. (true, false);
  get_all_net_id = λ ip r. (some (held r), r);
  search_id_net = λ uuid r. (some [], r);
}

held-AllAtHome : (r : Bool) → AllAtHome two_hosts homes (held r)
held-AllAtHome true = (worker-IsAtHome, tt)
held-AllAtHome false = tt

memory-IsHonest : IsHonest two_hosts homes memory
memory-IsHonest = record {
  all_home = λ ip r insts e. rw (← some-eq e) (held-AllAtHome r);
  search_home = λ uuid r insts e. rw (← some-eq e) tt;
  search_named = λ uuid r insts e. rw (← some-eq e) tt;
}

abbrev two_caches : MetadataProxy (List PrincipalIndex) Bool ℕ
two_caches = record { pmaps = new_pmap ∷ new_pmap ∷ []; conn = false; pods = []; safe = 0 }

-- A request that the second cache handles.
abbrev second_cache : MetadataRequest
second_cache = record request { cache = 1 }

abbrev a_port : ℕ
a_port = 150

put_instance-KnownThrough_example :
    (c' : MetadataProxy (List PrincipalIndex) Bool ℕ) × (on_cache 0
        (put_instance two_hosts list_tree memory worker)
        two_caches
      ≡ some (status_ok, c'))
    × AllHomed two_hosts list_holds homes c'.pmaps
    × KnownThrough two_hosts list_tree memory first_cache homes second_cache host_a a_port c'
put_instance-KnownThrough_example =
    put_instance-KnownThrough two_hosts list_tree memory first_cache list_holds list_tree-IsIntTree
      homes two_caches 0 1 worker (worker ∷ []) second_cache a_port memory-IsHonest
      (new-IsHomed two_hosts list_holds homes, (new-IsHomed two_hosts list_holds homes, tt))
      (omega arith) (omega arith) worker-IsAtHome refl refl (inl refl)
      ((100, 201, refl, refl, omega arith), tt) host_a-IsDotted refl refl (omega arith)
      (omega arith)

-- Both caches have the worker.
abbrev both_have : MetadataProxy (List PrincipalIndex) Bool ℕ
both_have = record { pmaps = worker_pmap ∷ worker_pmap ∷ []; conn = true; pods = []; safe = 0 }
