-- ===== src/Proxy/Main/Started.antt =====
-- What main of proxy/server.go has done when it comes to serve.
use mathlib.Core.Path.{subst}
use mathlib.Core.List.{append-nil, append_assoc}
use cloudlab_k8s.Prelude.{
  zero, suc, length, ◌⊎◌, ℕ, Bool, true, false, Option, none, some, List, [], ◌∷◌, ◌++◌, String, ℤ,
  pos, negsuc, ◌≡◌, ◌≢◌, refl, sym, ap, ◌∙◌, some-eq, Bool-cases, Option-cases, inl, inr,
}
use cloudlab_k8s.Proxy.Riak.Setup.{RiakSetup, Link, new_riak_conn}
use cloudlab_k8s.Proxy.Riak.Setup.Ready.{IsCluster, IsReady, connect-IsReady}
use cloudlab_k8s.Proxy.Api.{MetadataProxy}
use cloudlab_k8s.Proxy.Pmap.{Pmap}
use cloudlab_k8s.Proxy.Api.Steps.{start_proxy, new_caches}
use cloudlab_k8s.Proxy.Main.{
  Given, Config, flag_or, set_address, set_addresses, config, riak_addresses, bad_flag, serving,
  serve, after_connect, configured, main,
}

-- Every address resolves.
abbrev pub AllResolve : (String → Bool) → List String → Type 0
AllResolve resolves [] = Unit
AllResolve resolves (val ∷ vals) = (resolves val ≡ true) × AllResolve resolves vals

-- What a flag comes to: the given value, or the default where there is none.
abbrev pub Chosen : {A : Type 0} → Option A → A → A → Type 0
Chosen given default value = (given ≡ some value) ⊎ ((given ≡ none) × (value ≡ default))

flag_or-Chosen :
    {A : Type 0} (given : Option A) (default : A) → Chosen given default (flag_or given default)
flag_or-Chosen none default = inr (refl, refl)
flag_or-Chosen (some value) default = inl refl

-- No cache has a principal, by address or by identity.
abbrev pub AllEmpty : {Tree : Type 0} → List (Pmap Tree) → Type 0
AllEmpty [] = Unit
AllEmpty (m ∷ pmaps) = (m.identities ≡ []) × (m.pid_map ≡ []) × AllEmpty pmaps

none-not_some : {A : Type 0} {x : A} → none ≢ some x
none-not_some e = cc

set_addresses_inv :
    (resolves : String → Bool) (addrs vals after : List String)
    → set_addresses resolves addrs vals ≡ some after
    → AllResolve resolves vals × (after ≡ addrs ++ vals)
unfolding set_addresses set_address
set_addresses_inv resolves addrs [] after e = (tt, sym (some-eq e) ∙ sym (append-nil addrs))
set_addresses_inv resolves addrs (val ∷ vals) after e = elim (Bool-cases (resolves val)) [
  | inl ok ↦
      let (all, eq) =
        set_addresses_inv resolves (addrs ++ (val ∷ [])) vals after (rw (ok, set_addresses) at e) in
      ((ok, all), eq ∙ append_assoc addrs (val ∷ []) vals)
  | inr bad ↦ absurd (none-not_some (rw (bad, set_addresses) at e))
]

config_inv :
    (resolves : String → Bool) (given : Given) (conf : Config)
    → config resolves given ≡ some conf
    → AllResolve resolves given.addr
      × (conf.riak_addrs ≡ given.addr)
      × Chosen given.nworker (pos 64) conf.nworker
      × Chosen given.safe "localhost:7777" conf.safe_addr
      × Chosen given.listen "0.0.0.0:19851" conf.listen_addr
unfolding config
config_inv resolves given conf e = elim (Option-cases (set_addresses resolves [] given.addr)) [
  | inl bad ↦ absurd (none-not_some (rw (bad, config) at e))
  | inr (addrs, ok) ↦
      let (all, same) = set_addresses_inv resolves [] given.addr addrs ok in
      let made = some-eq (rw (ok, config) at e) in
      (
        all,
        ap (λ (c : Config). c.riak_addrs) (sym made) ∙ same,
        rw (← made) (flag_or-Chosen given.nworker (pos 64)),
        rw (← made) (flag_or-Chosen given.safe "localhost:7777"),
        rw (← made) (flag_or-Chosen given.listen "0.0.0.0:19851"),
      )
]

-- The addresses that the connection is made to: those of the command line, or one by default.
abbrev pub ConnectsTo : List String → List String → Type 0
ConnectsTo given addrs =
    ((given ≡ []) × (addrs ≡ "localhost:8087" ∷ [])) ⊎ ((given ≢ []) × (addrs ≡ given))

riak_addresses-ConnectsTo : (given : List String) → ConnectsTo given (riak_addresses given)
unfolding riak_addresses
riak_addresses-ConnectsTo [] = inl (refl, refl)
riak_addresses-ConnectsTo (addr ∷ addrs) = inr (cons-not_nil, refl)
  where
    cons-not_nil : addr ∷ addrs ≢ []
    cons-not_nil e = cc

new_caches-AllEmpty :
    (Tree : Type 0) (n : ℕ)
    → (length (new_caches {Tree = Tree} n) ≡ n) × AllEmpty (new_caches {Tree = Tree} n)
unfolding new_caches
new_caches-AllEmpty Tree zero = (refl, tt)
new_caches-AllEmpty Tree (suc n) =
    let (counted, empty) = new_caches-AllEmpty Tree n in (ap suc counted, (refl, refl, empty))

module _ {Tree H S W : Type 0} (setup : RiakSetup H S) (indexed bound : S → Bool)
    (laws : IsCluster setup indexed bound) where
  -- A proxy as it comes to serve.
  pub record IsStarted (resolves : String → Bool) (given : Given) (cluster : S) (safe : W)
      (c : MetadataProxy Tree (Link H S) W) (safe_addr listen_addr : String) : Type 0 where
    pub resolved : AllResolve resolves given.addr
    pub counted : Chosen given.nworker (pos 64) (pos (length c.pmaps))
    pub emptied : AllEmpty c.pmaps
    pub no_pods : c.pods ≡ []
    pub same_safe : c.safe ≡ safe
    pub at_safe : Chosen given.safe "localhost:7777" safe_addr
    pub listens : Chosen given.listen "0.0.0.0:19851" listen_addr
    pub linked :
        (addrs : List String) × ConnectsTo given.addr addrs
        × IsReady indexed bound addrs cluster c.conn

  serve_inv :
      (conn : Link H S) (safe : W) (a b safe_addr listen_addr : String) (z : ℤ)
      (c : MetadataProxy Tree (Link H S) W)
      → serve conn safe a b z ≡ serving c safe_addr listen_addr
      → (n : ℕ) × (z ≡ pos n) × (c ≡ start_proxy n conn safe) × (safe_addr ≡ a) × (listen_addr ≡ b)
  unfolding serve
  serve_inv conn safe a b safe_addr listen_addr (pos n) c e = (n, refl, cc, cc, cc)
  serve_inv conn safe a b safe_addr listen_addr (negsuc n) c e = cc

  after_connect_inv :
      (conf : Config) (safe : W) (o : Option (Bool × Link H S)) (safe_addr listen_addr : String)
      (c : MetadataProxy Tree (Link H S) W)
      → after_connect conf safe o ≡ serving c safe_addr listen_addr
      → (l : Link H S) × (n : ℕ) × (o ≡ some (true, l))
        × (conf.nworker ≡ pos n)
        × (c ≡ start_proxy n l safe)
        × (safe_addr ≡ conf.safe_addr)
        × (listen_addr ≡ conf.listen_addr)
  unfolding after_connect
  after_connect_inv conf safe none safe_addr listen_addr c e = cc
  after_connect_inv conf safe (some (false, l)) safe_addr listen_addr c e = cc
  after_connect_inv conf safe (some (true, l)) safe_addr listen_addr c e =
      let (n, workers, made, at_safe, listens) =
        serve_inv l safe conf.safe_addr conf.listen_addr safe_addr listen_addr conf.nworker c e in
      (l, n, refl, workers, made, at_safe, listens)

  start_proxy-IsStarted :
      (resolves : String → Bool) (cluster : S) (safe : W) (given : Given) (conf : Config) (n : ℕ)
      (l : Link H S)
      → config resolves given ≡ some conf
      → conf.nworker ≡ pos n
      → IsReady indexed bound (riak_addresses conf.riak_addrs) cluster l
      → IsStarted resolves given cluster safe (start_proxy n l safe) conf.safe_addr conf.listen_addr
  unfolding start_proxy
  start_proxy-IsStarted resolves cluster safe given conf n l ok asked ready =
      let (all, addrs, workers, at_safe, listens) = config_inv resolves given conf ok in
      let (counted, empty) = new_caches-AllEmpty Tree n in
      record {
        resolved = all;
        counted = subst (Chosen given.nworker (pos 64)) (asked ∙ ap pos (sym counted)) workers;
        emptied = empty;
        no_pods = refl;
        same_safe = refl;
        at_safe = at_safe;
        listens = listens;
        linked = (
          riak_addresses conf.riak_addrs,
          subst (λ a. ConnectsTo a (riak_addresses conf.riak_addrs)) addrs
              (riak_addresses-ConnectsTo conf.riak_addrs),
          ready,
        );
      }

  -- Where main comes to serve, every address of the command line resolved. The proxy has one cache for
  -- each of the workers asked for, 64 without the flag, with no principal in any of them, and no pods.
  -- Its SAFE server and its own address are those of the flags, or localhost:7777 and 0.0.0.0:19851.
  -- It is connected to the addresses of the command line in their order, or to localhost:8087 if there
  -- are none, on a cluster that has the index. The cluster does what Riak documents.
  pub main-IsStarted :
      (resolves : String → Bool) (cluster : S) (safe : W) (given : Given)
      (c : MetadataProxy Tree (Link H S) W) (safe_addr listen_addr : String)
      → main resolves setup cluster safe given ≡ serving c safe_addr listen_addr
      → IsStarted resolves given cluster safe c safe_addr listen_addr
  unfolding main configured
  main-IsStarted resolves cluster safe given c safe_addr listen_addr e =
      elim (Option-cases (config resolves given)) [
        | inl bad ↦ absurd (flag-not_serving (rw (bad, main, configured) at e))
        | inr (conf, ok) ↦
            let (l, n, linked, asked, made, at_safe, listens) =
              after_connect_inv conf safe _ safe_addr listen_addr c
                (rw (ok, main, configured) at e) in
            rw (made, at_safe, listens)
              (start_proxy-IsStarted resolves cluster safe given conf n l ok asked (
                unfold new_riak_conn in
                connect-IsReady setup indexed bound laws (riak_addresses conf.riak_addrs)
                  (new_riak_conn setup cluster) l linked))
      ]
    where
      flag-not_serving :
          {c : MetadataProxy Tree (Link H S) W} {a b : String} → bad_flag ≢ serving c a b
      flag-not_serving e = cc
