-- ===== src/Tests/Proxy.antt =====
-- The theorems on the proxy with two addresses, one principal on each, and a backend that knows the
-- first.
use cloudlab_k8s.Prelude.{
  some-eq, ℕ, ◌≡◌, refl, sym, inl, inr, ◌∙◌, ◌≢◌, Bool, true, false, Option, none, some, List, [],
  ◌∷◌, String, string_key, ◌==◌, text_beq, lookup, insert, pos, arith, if◌then◌else◌,
}
use text.Mathlib.TextEquality.{eq_iff}
use cloudlab_k8s.Proxy.Types.{Ip, Net, CachedInstance, status_ok}
use cloudlab_k8s.Proxy.Run.{◌>>=◌}
use cloudlab_k8s.Proxy.Pmap.{
  PrincipalIndex, Pmap, new_pmap, overlap, innermost, big_endian, pack_id, compute_id, get_index,
  create_principal_pp, put_cached_instance, del_cached_instance_alt,
}
use cloudlab_k8s.Proxy.Pmap.ListTree.{list_tree, list_holds, holds-In, list_tree-IsIntTree}
use cloudlab_k8s.Proxy.Pmap.Innermost.{NestedAt, Best, get_index-Best}
use cloudlab_k8s.Proxy.Pmap.Ids.{compute_id-injective}
use cloudlab_k8s.Proxy.Pmap.Homes.{
  Home, IsAtHome, IsHomed, new-IsHomed, put_cached_instance-IsHomed,
}
use cloudlab_k8s.Proxy.Pmap.Deletion.{IsGone, del_cached_instance-IsHomed}
use cloudlab_k8s.Proxy.Cache.{
  RiakConn, Cache, found, get_instance_from_net_map, get_instance_from_id, put_instance,
  del_instance,
}
use cloudlab_k8s.Proxy.Cache.Reload.{IsHonest, AllAtHome, AllNamed}
use cloudlab_k8s.Proxy.Cache.Lookups.{
  Owns, Names, Answers, get_instance_from_net_map-Owns, get_instance_from_id-Names,
}
use cloudlab_k8s.Proxy.Cache.Writes.{put_instance-get_instance_from_id, del_instance-IsGone}
use cloudlab_k8s.Proxy.Cache.Misplaced.{del_instance-other_address}

abbrev pub host_a : Ip
host_a = 10 ∷ 0 ∷ 0 ∷ 1 ∷ []

abbrev pub host_b : Ip
host_b = 10 ∷ 0 ∷ 0 ∷ 2 ∷ []

-- Package net for two addresses and no networks.
abbrev pub two_hosts : Net
two_hosts = record {
  ip_string = λ ip. if text_beq ip host_a then "10.0.0.1" else "10.0.0.2";
  parse_ip =
      λ s. if s == "10.0.0.1" then some host_a else if s == "10.0.0.2" then some host_b else none;
  ip_equal = λ a b. text_beq a b;
  cidr_contains = λ n ip. false;
  to4 = λ ip. if text_beq ip host_a then some (10, 0, 0, 1) else some (10, 0, 0, 2);
  parse_cidr = λ s. none;
  cidr_string = λ n. "";
}

abbrev pub worker : CachedInstance
worker = record {
  ip = host_a;
  lport = pos 100;
  rport = pos 200;
  id = record { pid = "worker"; ppid = "vm"; cidr = none; type = "normal" };
}

abbrev pub homes : String → Option Home
homes pid = if pid == "worker" then some ("10.0.0.1", pos 100, pos 200) else none

abbrev pub worker_id : ℕ
worker_id = pack_id (big_endian (10, 0, 0, 1)) (pos 100) (pos 201)

pub worker_id_lem : compute_id two_hosts "10.0.0.1" (pos 100) (pos 201) ≡ some worker_id
unfolding compute_id
worker_id_lem = refl

pub worker-IsAtHome : IsAtHome two_hosts homes worker
worker-IsAtHome = record { homed = refl; numbered = (worker_id, worker_id_lem) }

-- The backend: it knows the worker, takes every write, and has no state.
abbrev pub backend : RiakConn Unit
backend = record {
  put_net_id_map = λ ip lport rport cred r. (true, r);
  del_net_id_map = λ ip lport rport r. (true, r);
  get_all_net_id = λ ip r. (some (worker ∷ []), r);
  search_id_net = λ uuid r. (some (if uuid == "worker" then worker ∷ [] else []), r);
}

at_home :
    (insts : List CachedInstance)
    → some (worker ∷ []) ≡ some insts
    → AllAtHome two_hosts homes insts
at_home insts e = rw (← some-eq e) (worker-IsAtHome, tt)

pub backend-IsHonest : IsHonest two_hosts homes backend
backend-IsHonest = record {
  all_home = λ ip r insts e. at_home insts e;
  search_home = λ uuid r insts e. rw (← some-eq e) (searched_home (uuid == "worker"));
  search_named = λ uuid r insts e. rw (← some-eq e) (searched_named uuid (uuid == "worker") refl);
}
  where
    searched_home : (b : Bool) → AllAtHome two_hosts homes (if b then worker ∷ [] else [])
    searched_home true = (worker-IsAtHome, tt)
    searched_home false = tt

    searched_named :
        (uuid : String) (b : Bool)
        → (uuid == "worker") ≡ b
        → AllNamed uuid (if b then worker ∷ [] else [])
    searched_named uuid true e = (sym ((eq_iff uuid "worker").0 e), tt)
    searched_named uuid false e = tt

put_cached_instance-IsHomed_example :
    (m' : Pmap (List PrincipalIndex)) × (put_cached_instance two_hosts list_tree new_pmap worker
      ≡ some m')
    × IsHomed two_hosts list_holds homes m'
put_cached_instance-IsHomed_example =
    put_cached_instance-IsHomed two_hosts list_tree list_holds list_tree-IsIntTree homes new_pmap
      worker (new-IsHomed two_hosts list_holds homes) worker-IsAtHome

-- The Pmap that holds the worker.
abbrev pub worker_index : PrincipalIndex
worker_index = record {
  index = record { pmin = pos 100; pmax = pos 201; id = worker_id };
  p = "worker";
  pp = "vm";
}

abbrev pub worker_pmap : Pmap (List PrincipalIndex)
worker_pmap = record {
  identities = ("10.0.0.1", worker_index ∷ []) ∷ [];
  pid_map = ("worker", worker) ∷ [];
  counter = 2;
}

put_worker : put_cached_instance two_hosts list_tree new_pmap worker ≡ some worker_pmap
unfolding put_cached_instance create_principal_pp compute_id insert lookup
put_worker = refl

pub worker_pmap-IsHomed : IsHomed two_hosts list_holds homes worker_pmap
worker_pmap-IsHomed =
    let (m', e, h) =
      put_cached_instance-IsHomed two_hosts list_tree list_holds list_tree-IsIntTree homes new_pmap
        worker (new-IsHomed two_hosts list_holds homes) worker-IsAtHome in
    rw (some-eq (sym e ∙ put_worker)) at h

abbrev pub cache : Cache (List PrincipalIndex) Unit
cache = record { pmap = worker_pmap; conn = tt }

abbrev pub empty_cache : Cache (List PrincipalIndex) Unit
empty_cache = record { pmap = new_pmap; conn = tt }

worker_only : (a : PrincipalIndex) → list_holds (worker_index ∷ []) a ≡ true → a ≡ worker_index
worker_only a h = elim (holds-In (worker_index ∷ []) a h) [ inl e ↦ e | inr i ↦ absurd i ]

worker_nested : NestedAt list_tree list_holds list_tree-IsIntTree (worker_index ∷ []) (pos 150)
worker_nested a b h k c d = inl (rw (worker_only a h, worker_only b k) (omega arith, omega arith))

get_index-Best_example :
    Best list_tree list_holds list_tree-IsIntTree
      (worker_index ∷ [])
      (pos 150)
      (get_index list_tree worker_pmap "10.0.0.1" (pos 150))
get_index-Best_example =
    get_index-Best list_tree list_holds list_tree-IsIntTree worker_pmap "10.0.0.1"
      (worker_index ∷ []) (pos 150) (unfold lookup in refl) worker_nested

abbrev first_port : ℕ
first_port = 100

abbrev end_port : ℕ
end_port = 201

abbrev top_port : ℕ
top_port = 65536

compute_id-injective_example :
    (big_endian (10, 0, 0, 1) ≡ big_endian (10, 0, 0, 1))
    × (first_port ≡ first_port)
    × (end_port ≡ end_port)
compute_id-injective_example =
    compute_id-injective two_hosts "10.0.0.1" "10.0.0.1" host_a host_a (10, 0, 0, 1) (10, 0, 0, 1)
      first_port end_port first_port end_port refl refl (omega arith) refl refl (omega arith)
      (omega arith) (omega arith) (omega arith) (omega arith) refl

del_cached_instance-IsHomed_example :
    (m' : Pmap (List PrincipalIndex)) × (del_cached_instance_alt two_hosts list_tree worker_pmap
        host_a
        (pos 100)
        (pos 200)
        "worker"
      ≡ some m')
    × IsHomed two_hosts list_holds homes m'
    × IsGone two_hosts list_tree list_holds list_tree-IsIntTree homes m' "worker"
del_cached_instance-IsHomed_example =
    del_cached_instance-IsHomed two_hosts list_tree list_holds list_tree-IsIntTree homes worker_pmap
      host_a (pos 100) (pos 200) "worker" worker_id worker_pmap-IsHomed refl worker_id_lem
      (omega arith)

get_instance_from_net_map-Owns_example :
    Answers two_hosts list_tree backend list_holds list_tree-IsIntTree homes
      (Owns two_hosts homes host_a (pos 150))
      (get_instance_from_net_map two_hosts list_tree backend host_a (pos 150) cache)
get_instance_from_net_map-Owns_example =
    get_instance_from_net_map-Owns two_hosts list_tree backend list_holds list_tree-IsIntTree homes
      cache host_a (pos 150) backend-IsHonest worker_pmap-IsHomed

get_instance_from_id-Names_example :
    Answers two_hosts list_tree backend list_holds list_tree-IsIntTree homes
      (Names two_hosts homes "worker")
      (get_instance_from_id two_hosts list_tree backend "worker" empty_cache)
get_instance_from_id-Names_example =
    get_instance_from_id-Names two_hosts list_tree backend list_holds list_tree-IsIntTree homes
      empty_cache "worker" backend-IsHonest (new-IsHomed two_hosts list_holds homes)

put_instance-get_instance_from_id_example :
    (c' : Cache (List PrincipalIndex) Unit) × (put_instance two_hosts list_tree backend worker
        empty_cache
      ≡ some (status_ok, c'))
    × (get_instance_from_id two_hosts list_tree backend "worker" c' ≡ some (found worker, c'))
put_instance-get_instance_from_id_example =
    put_instance-get_instance_from_id two_hosts list_tree backend empty_cache worker_pmap worker
      put_worker

del_instance-IsGone_example :
    (c' : Cache (List PrincipalIndex) Unit) × (del_instance two_hosts list_tree backend host_a
        (pos 100)
        (pos 200)
        "worker"
        cache
      ≡ some (status_ok, c'))
    × IsHomed two_hosts list_holds homes c'.pmap
    × IsGone two_hosts list_tree list_holds list_tree-IsIntTree homes c'.pmap "worker"
del_instance-IsGone_example =
    del_instance-IsGone two_hosts list_tree backend list_holds list_tree-IsIntTree homes cache
      host_a (pos 100) (pos 200) "worker" worker_id worker_pmap-IsHomed refl worker_id_lem
      (omega arith)

pub worker_found : get_index list_tree worker_pmap "10.0.0.1" (pos 150) ≡ some worker_index
unfolding get_index lookup overlap innermost
worker_found = refl

true_ne_false : true ≢ false
true_ne_false e = cc

hosts_differ : two_hosts.ip_string host_b ≢ two_hosts.ip_string host_a
hosts_differ e = true_ne_false (sym ((eq_iff "10.0.0.2" "10.0.0.1").1 e))

del_instance-other_address_example :
    (del_instance two_hosts list_tree backend host_b (pos 100) (pos 200) "worker" >>= λ _.
    get_instance_from_net_map two_hosts list_tree backend host_a (pos 150))
      cache
    ≡ none
del_instance-other_address_example =
    del_instance-other_address two_hosts list_tree backend cache host_a host_b (pos 150) (pos 100)
      (pos 200) worker_index worker_found hosts_differ
