-- ===== src/Tests/Setup.antt =====
-- The theorems on the set-up of the Riak client at a cluster that shows its index and its bucket type.
use cloudlab_k8s.Prelude.{
  ℕ, ◌≡◌, refl, inr, Bool, true, false, none, some, List, [], ◌∷◌, String, pos, if◌then◌else◌,
}
use cloudlab_k8s.Proxy.Pmap.{PrincipalIndex}
use cloudlab_k8s.Proxy.Api.{MetadataProxy}
use cloudlab_k8s.Proxy.Main.{Given, serving, config, after_connect, main}
use cloudlab_k8s.Proxy.Main.Started.{IsStarted, main-IsStarted}
use cloudlab_k8s.Proxy.Riak.Setup.{
  RiakSetup, Link, first_is, riak_index_name, new_riak_conn, stop_previous, open_client, use_client,
  check_index, create_index, associate, connect,
}
use cloudlab_k8s.Proxy.Riak.Setup.Ready.{IsCluster, IsReady, connect-IsReady}

-- The index is there, and the bucket type has it set.
abbrev Cluster : Type 0
Cluster = Bool × Bool

abbrev cluster_setup : RiakSetup Unit Cluster
cluster_setup = record {
  new_client = λ addrs s. (some tt, s);
  stop = λ h s. (true, s);
  build_fetch_index = λ name. true;
  fetch_index = λ h name s. (some (if s.0 then name ∷ [] else []), s);
  build_store_index = λ name. true;
  store_index = λ h name s. (true, (true, s.1));
  build_store_props = λ type name. true;
  store_props = λ h type name s. (true, (s.0, true));
}

abbrev has_index : Cluster → Bool
has_index s = s.0

abbrev is_set : Cluster → Bool
is_set s = s.1

cluster_finds :
    (s : Cluster)
    → first_is (cluster_setup.fetch_index tt riak_index_name s).0 riak_index_name ≡ has_index s
cluster_finds (true, b) = refl
cluster_finds (false, b) = refl

cluster_setup-IsCluster : IsCluster cluster_setup has_index is_set
cluster_setup-IsCluster = record {
  new_indexed = λ addrs s. refl;
  new_bound = λ addrs s. refl;
  stop_indexed = λ h s. refl;
  stop_bound = λ h s. refl;
  fetch_indexed = λ h s. refl;
  fetch_bound = λ h s. refl;
  fetch_finds = λ h s. inr (cluster_finds s);
  store_indexes = λ h s e. refl;
  props_indexed = λ h s. refl;
  props_bind = λ h s e. refl;
}

abbrev riak_addrs : List String
riak_addrs = "localhost:8087" ∷ []

abbrev fresh : Link Unit Cluster
fresh = record { addrs = []; client = some tt; cluster = (false, false) }

connected : (l : Link Unit Cluster) × (connect cluster_setup riak_addrs fresh ≡ some (true, l))
unfolding connect stop_previous open_client use_client check_index create_index associate
connected = (_, refl)

connect-IsReady_example : IsReady has_index is_set riak_addrs fresh.cluster connected.0
connect-IsReady_example =
    connect-IsReady cluster_setup has_index is_set cluster_setup-IsCluster riak_addrs fresh
      connected.0 connected.1

abbrev half_way : Cluster
half_way = (true, false)

-- Two addresses and three workers.
abbrev asked : Given
asked = record {
  addr = "riak-1:8087" ∷ "riak-2:8087" ∷ [];
  debug = none;
  safe = none;
  listen = none;
  nworker = some (pos 3);
}

abbrev resolves_all : String → Bool
resolves_all val = true

started_proxy :
    (c : MetadataProxy (List PrincipalIndex) (Link Unit Cluster) ℕ) × (main resolves_all
        cluster_setup half_way 0 asked
      ≡ serving c "localhost:7777" "0.0.0.0:19851")
unfolding main config after_connect connect stop_previous open_client use_client check_index
    new_riak_conn
started_proxy = (_, refl)

main-IsStarted_example :
    IsStarted cluster_setup has_index is_set cluster_setup-IsCluster resolves_all asked half_way 0
      started_proxy.0 "localhost:7777" "0.0.0.0:19851"
main-IsStarted_example =
    main-IsStarted cluster_setup has_index is_set cluster_setup-IsCluster resolves_all half_way 0
      asked started_proxy.0 "localhost:7777" "0.0.0.0:19851" started_proxy.1
