-- ===== src/Proxy/Main.antt =====
-- main, config and Addresses of proxy/server.go: the flags, the connection to Riak, the caches and
-- the proxy that serves. Logging, the server of profiles and what ListenAndServe does are left out.
pub mod Started
use mathlib.Core.Path.{subst}
use mathlib.Core.List.{append-nil, append_assoc}
use cloudlab_k8s.Prelude.{
  ℕ, Bool, true, false, Option, none, some, List, [], ◌∷◌, ◌++◌, String, ℤ, pos, negsuc,
  if◌then◌else◌, ◌≡◌, ◌≢◌, refl, sym, ap, ◌∙◌, some-eq, Bool-cases, Option-cases, inl, inr,
}
use cloudlab_k8s.Proxy.Types.{status_ok}
use cloudlab_k8s.Proxy.Riak.Setup.{RiakSetup, Link, new_riak_conn, connect}
use cloudlab_k8s.Proxy.Riak.Setup.Ready.{IsCluster, IsReady, connect-IsReady}
use cloudlab_k8s.Proxy.Api.{MetadataProxy}
use cloudlab_k8s.Proxy.Api.Steps.{start_proxy}

-- rootHandler: the status and the text.
abbrev pub root_handler : ℕ × String
root_handler = (status_ok, "Metadata Service Proxy")

-- What the command line gives: the values of `-addr`, in order, and of the other flags.
pub record Given : Type 0 where
  pub addr : List String
  pub debug : Option Bool
  pub safe : Option String
  pub listen : Option String
  pub nworker : Option ℤ

abbrev pub flag_or : {A : Type 0} → Option A → A → A
flag_or none default = default
flag_or (some given) default = given

-- The configuration; `riak_addrs` is what Set has collected.
pub record Config : Type 0 where
  pub riak_addrs : List String
  pub conf_debug : Bool
  pub safe_addr : String
  pub listen_addr : String
  pub nworker : ℤ

-- Addresses.Set: the address at the end of those before, or the resolver's error.
unfoldable pub set_address : (String → Bool) → List String → String → Option (List String)
set_address resolves addrs val = if resolves val then some (addrs ++ (val ∷ [])) else none

-- The values of `-addr` one after the other; the first error ends the process.
unfoldable pub set_addresses : (String → Bool) → List String → List String → Option (List String)
unfolding set_address
set_addresses resolves addrs [] = some addrs
set_addresses resolves addrs (val ∷ vals) = elim (set_address resolves addrs val) [
  | none ↦ none
  | some more ↦ set_addresses resolves more vals
]

-- config
unfoldable pub config : (String → Bool) → Given → Option Config
unfolding set_addresses
config resolves given = elim (set_addresses resolves [] given.addr) [
  | none ↦ none
  | some addrs ↦ some (record {
    riak_addrs = addrs;
    conf_debug = flag_or given.debug false;
    safe_addr = flag_or given.safe "localhost:7777";
    listen_addr = flag_or given.listen "0.0.0.0:19851";
    nworker = flag_or given.nworker (pos 64);
  })
]

-- The addresses that main connects to.
unfoldable pub riak_addresses : List String → List String
riak_addresses [] = "localhost:8087" ∷ []
riak_addresses (addr ∷ addrs) = addr ∷ addrs

-- How main ends, or that it serves at an address. `make` of a negative number of caches panics.
pub data Startup (Tree R W : Type 0) : Type 0 where
  bad_flag : Startup Tree R W
  not_connected : Startup Tree R W
  panicked : Startup Tree R W
  serving : MetadataProxy Tree R W → String → String → Startup Tree R W

-- main behind the connection.
unfoldable pub serve : {Tree R W : Type 0} → R → W → String → String → ℤ → Startup Tree R W
serve conn safe safe_addr listen_addr (pos n) =
    serving (start_proxy n conn safe) safe_addr listen_addr
serve conn safe safe_addr listen_addr (negsuc n) = panicked

unfoldable pub after_connect :
    {Tree R W : Type 0} → Config → W → Option (Bool × R) → Startup Tree R W
unfolding serve
after_connect conf safe none = panicked
after_connect conf safe (some (false, conn)) = not_connected
after_connect conf safe (some (true, conn)) =
    serve conn safe conf.safe_addr conf.listen_addr conf.nworker

unfoldable pub configured :
    {Tree H S W : Type 0} → RiakSetup H S → S → W → Option Config → Startup Tree (Link H S) W
unfolding after_connect
configured setup cluster safe none = bad_flag
configured setup cluster safe (some conf) =
    after_connect conf safe
      (connect setup (riak_addresses conf.riak_addrs) (new_riak_conn setup cluster))

unfoldable pub main :
    {Tree H S W : Type 0}
    → (String → Bool)
    → RiakSetup H S
    → S
    → W
    → Given
    → Startup Tree (Link H S) W
unfolding configured
main resolves setup cluster safe given = configured setup cluster safe (config resolves given)
