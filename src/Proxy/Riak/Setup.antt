-- ===== src/Proxy/Riak/Setup.antt =====
-- NewRiakConn, Connect, checkIndex and Shutdown of proxy/riak.go over the Riak client, which is a
-- parameter.
pub mod Ready
use cloudlab_k8s.Prelude.{
  Bool, true, false, Option, none, some, List, [], ◌∷◌, String, string_key, ◌==◌, if◌then◌else◌,
}
use cloudlab_k8s.Proxy.Run.{Run, pure, ◌>>=◌}
use cloudlab_k8s.Proxy.Riak.{riak_bucket_type}

-- The commands that set a client up, on the cluster's state: whether a command can be built, and
-- what its execution comes to, `false` or `none` on an error. The command that fetches an index
-- returns the names of those that it finds.
pub record RiakSetup (H S : Type 0) : Type 0 where
  pub new_client : List String → S → Option H × S
  pub stop : H → S → Bool × S
  pub build_fetch_index : String → Bool
  pub fetch_index : H → String → S → Option (List String) × S
  pub build_store_index : String → Bool
  pub store_index : H → String → S → Bool × S
  pub build_store_props : String → String → Bool
  pub store_props : H → String → String → S → Bool × S

-- `riakConn` with the cluster behind it.
pub record Link (H S : Type 0) : Type 0 where
  pub addrs : List String
  pub client : Option H
  pub cluster : S

abbrev pub riak_index_name : String
riak_index_name = "netmap"

-- Is the first index that was found the one of the name?
abbrev pub first_is : Option (List String) → String → Bool
first_is none name = false
first_is (some []) name = false
first_is (some (first ∷ rest)) name = first == name

module _ {H S : Type 0} (setup : RiakSetup H S) where
  abbrev pub on_cluster : {A : Type 0} → (S → A × S) → Run (Link H S) A
  on_cluster command l =
      let (result, cluster) = command l.cluster in some (result, record l { cluster = cluster })

  -- NewRiakConn
  unfoldable pub new_riak_conn : S → Link H S
  new_riak_conn cluster = record { addrs = []; client = none; cluster = cluster }

  -- The end of checkIndex: the bucket type gets the index.
  unfoldable pub associate : H → Run (Link H S) Bool
  associate client =
      if setup.build_store_props riak_bucket_type riak_index_name
      then on_cluster (setup.store_props client riak_bucket_type riak_index_name)
      else pure false

  -- checkIndex where the index was not found.
  unfoldable pub create_index : H → String → Run (Link H S) Bool
  create_index client name =
      if setup.build_store_index name
      then (do
        stored ← on_cluster (setup.store_index client name)
        if stored then associate client else pure false)
      else pure false

  unfoldable pub check_index : H → String → Run (Link H S) Bool
  check_index client name =
      if setup.build_fetch_index name
      then (do
        fetched ← on_cluster (setup.fetch_index client name)
        if first_is fetched name then pure true else create_index client name)
      else pure false

  -- Stops the client that the connection has, if any.
  unfoldable pub stop_previous : Run (Link H S) Bool
  stop_previous l = elim l.client [
    | none ↦ some (true, l)
    | some client ↦ on_cluster (setup.stop client) l
  ]

  -- Connect with the client that it made, or did not make.
  unfoldable pub use_client : List String → Option H → Run (Link H S) Bool
  use_client addrs none l = some (false, l)
  use_client addrs (some client) l =
      check_index client riak_index_name (record l { addrs = addrs; client = some client })

  unfoldable pub open_client : List String → Run (Link H S) Bool
  open_client addrs = do made ← on_cluster (setup.new_client addrs); use_client addrs made

  unfoldable pub connect : List String → Run (Link H S) Bool
  connect addrs = do stopped ← stop_previous; if stopped then open_client addrs else pure false

  -- Shutdown: an error without a client. The connection keeps the client that it stopped.
  unfoldable pub shutdown : Run (Link H S) Bool
  shutdown l = elim l.client [
    | none ↦ some (false, l)
    | some client ↦ on_cluster (setup.stop client) l
  ]
