-- ===== src/Proxy/Riak/Setup/Ready.antt =====
-- What a successful Connect leaves: an index, and the bucket type that it may not be set for.
use cloudlab_k8s.Prelude.{
  ◌≡◌, refl, sym, ◌∙◌, ◌⊎◌, inl, inr, Bool, Bool-cases, true, false, Option, Option-cases, none,
  some, List, String, arith, if◌then◌else◌,
}
use cloudlab_k8s.Proxy.Run.{pure, ◌>>=◌, bind_steps}
use cloudlab_k8s.Proxy.Riak.{riak_bucket_type}
use cloudlab_k8s.Proxy.Riak.Setup.{
  RiakSetup, Link, first_is, riak_index_name, on_cluster, associate, create_index, check_index,
  stop_previous, new_riak_conn, use_client, open_client, connect,
}

-- What the cluster's commands do, of which the cluster shows two things: whether it has the index,
-- and whether the bucket type has the index set.
pub record IsCluster {H S : Type 0} (setup : RiakSetup H S) (indexed bound : S → Bool)
    : Type 0 where
  pub new_indexed : (addrs : List String) (s : S) → indexed (setup.new_client addrs s).1 ≡ indexed s
  pub new_bound : (addrs : List String) (s : S) → bound (setup.new_client addrs s).1 ≡ bound s
  pub stop_indexed : (h : H) (s : S) → indexed (setup.stop h s).1 ≡ indexed s
  pub stop_bound : (h : H) (s : S) → bound (setup.stop h s).1 ≡ bound s
  pub fetch_indexed :
      (h : H) (s : S) → indexed (setup.fetch_index h riak_index_name s).1 ≡ indexed s
  pub fetch_bound : (h : H) (s : S) → bound (setup.fetch_index h riak_index_name s).1 ≡ bound s
  pub fetch_finds :
      (h : H) (s : S)
      → ((setup.fetch_index h riak_index_name s).0 ≡ none)
        ⊎ (first_is (setup.fetch_index h riak_index_name s).0 riak_index_name ≡ indexed s)
  pub store_indexes :
      (h : H) (s : S)
      → (setup.store_index h riak_index_name s).0 ≡ true
      → indexed (setup.store_index h riak_index_name s).1 ≡ true
  pub props_indexed :
      (h : H) (s : S)
      → indexed (setup.store_props h riak_bucket_type riak_index_name s).1 ≡ indexed s
  pub props_bind :
      (h : H) (s : S)
      → (setup.store_props h riak_bucket_type riak_index_name s).0 ≡ true
      → bound (setup.store_props h riak_bucket_type riak_index_name s).1 ≡ true

-- A connection to the addresses, to a cluster with the index; the bucket type has it set, unless the
-- index was there before.
pub record IsReady {H S : Type 0} (indexed bound : S → Bool) (addrs : List String) (before : S)
    (l : Link H S) : Type 0 where
  pub addrs_eq : l.addrs ≡ addrs
  pub client : H
  pub client_eq : l.client ≡ some client
  pub has_index : indexed l.cluster ≡ true
  pub is_bound : (indexed before ≡ true) ⊎ (bound l.cluster ≡ true)

module _ {H S : Type 0} (setup : RiakSetup H S) (indexed bound : S → Bool)
    (laws : IsCluster setup indexed bound) where
  -- The connection with a client, before its index is checked.
  abbrev opened : List String → H → S → Link H S
  opened addrs h s = record { addrs = addrs; client = some h; cluster = s }

  some_eq :
      {A : Type 0} {a b : A} {s t : Link H S}
      → Path (Option (A × Link H S)) (some (a, s)) (some (b, t))
      → (a ≡ b) × (s ≡ t)
  some_eq e = ((cc), (cc))

  associated :
      (addrs : List String) (h : H) (s : S) (l : Link H S) (before : S)
      → indexed s ≡ true
      → associate setup h (opened addrs h s) ≡ some (true, l)
      → IsReady indexed bound addrs before l
  unfolding associate
  associated addrs h s l before i e =
      elim (Bool-cases (setup.build_store_props riak_bucket_type riak_index_name)) [
        | inl built ↦
            let (ok, same) = some_eq (rw built at e) in
            rw (← same) (record {
              addrs_eq = refl;
              client = h;
              client_eq = refl;
              has_index = laws.props_indexed h s ∙ i;
              is_bound = inr (laws.props_bind h s ok);
            })
        | inr not_built ↦ absurd (ground (arith, some_eq (rw not_built at e)))
      ]

  created_index :
      (addrs : List String) (h : H) (s : S) (l : Link H S) (before : S)
      → create_index setup h riak_index_name (opened addrs h s) ≡ some (true, l)
      → IsReady indexed bound addrs before l
  unfolding create_index
  created_index addrs h s l before e = elim (Bool-cases (setup.build_store_index riak_index_name)) [
    | inr not_built ↦ absurd (ground (arith, some_eq (rw not_built at e)))
    | inl built ↦
        let (stored, q) = outcome (rw built at e) in
        associated addrs h (setup.store_index h riak_index_name s).1 l before
          (laws.store_indexes h s stored) q
  ]
    where
      t : S
      t = (setup.store_index h riak_index_name s).1

      go :
          (stored : Bool)
          → (if stored then associate setup h else pure false) (opened addrs h t) ≡ some (true, l)
          → (stored ≡ true) × (associate setup h (opened addrs h t) ≡ some (true, l))
      go true e = (refl, e)
      go false e = absurd (ground (arith, some_eq e))

      outcome :
          (on_cluster setup (setup.store_index h riak_index_name) >>= λ stored.
          if stored then associate setup h else pure false)
              (opened addrs h s)
            ≡ some (true, l)
          → ((setup.store_index h riak_index_name s).0 ≡ true)
            × (associate setup h (opened addrs h t) ≡ some (true, l))
      outcome e = go (setup.store_index h riak_index_name s).0 e

  found_index :
      (h : H) (s : S)
      → first_is (setup.fetch_index h riak_index_name s).0 riak_index_name ≡ true
      → indexed s ≡ true
  found_index h s f = elim (laws.fetch_finds h s) [
    | inl failed ↦ absurd (ground (arith, rw failed at f))
    | inr finds ↦ sym finds ∙ f
  ]

  checked :
      (addrs : List String) (h : H) (s : S) (l : Link H S)
      → check_index setup h riak_index_name (opened addrs h s) ≡ some (true, l)
      → IsReady indexed bound addrs s l
  unfolding check_index
  checked addrs h s l e = elim (Bool-cases (setup.build_fetch_index riak_index_name)) [
    | inr not_built ↦ absurd (ground (arith, some_eq (rw not_built at e)))
    | inl built ↦
        go (first_is (setup.fetch_index h riak_index_name s).0 riak_index_name) refl (rw built at e)
  ]
    where
      t : S
      t = (setup.fetch_index h riak_index_name s).1

      go :
          (found : Bool)
          → first_is (setup.fetch_index h riak_index_name s).0 riak_index_name ≡ found
          → (if found then pure true else create_index setup h riak_index_name) (opened addrs h t)
            ≡ some (true, l)
          → IsReady indexed bound addrs s l
      go true f e = rw (← (some_eq e).1) (record {
        addrs_eq = refl;
        client = h;
        client_eq = refl;
        has_index = laws.fetch_indexed h s ∙ found_index h s f;
        is_bound = inl (found_index h s f);
      })
      go false f e = created_index addrs h t l s e

  IsReady-before :
      (addrs : List String) (s before : S) (l : Link H S)
      → indexed s ≡ indexed before
      → IsReady indexed bound addrs s l
      → IsReady indexed bound addrs before l
  IsReady-before addrs s before l e r = record {
    addrs_eq = r.addrs_eq;
    client = r.client;
    client_eq = r.client_eq;
    has_index = r.has_index;
    is_bound = elim r.is_bound [ inl i ↦ inl (sym e ∙ i) | inr b ↦ inr b ];
  }

  opened-IsReady :
      (addrs : List String) (l l' : Link H S)
      → open_client setup addrs l ≡ some (true, l')
      → IsReady indexed bound addrs l.cluster l'
  unfolding open_client use_client
  opened-IsReady addrs l l' e = go (setup.new_client addrs l.cluster).0 e
    where
      t : S
      t = (setup.new_client addrs l.cluster).1

      go :
          (made : Option H)
          → use_client setup addrs made (record l { cluster = t }) ≡ some (true, l')
          → IsReady indexed bound addrs l.cluster l'
      go none e = absurd (ground (arith, some_eq e))
      go (some h) e =
          IsReady-before addrs t l.cluster l' (laws.new_indexed addrs l.cluster)
            (checked addrs h t l' e)

  stop_indexed :
      (l m : Link H S) (ok : Bool)
      → stop_previous setup l ≡ some (ok, m)
      → indexed m.cluster ≡ indexed l.cluster
  unfolding stop_previous
  stop_indexed l m ok e = elim (Option-cases l.client) [
    | inl no_client ↦ rw (← (some_eq (rw no_client at e)).1) refl
    | inr (h, has_client) ↦ rw (← (some_eq (rw has_client at e)).1) (laws.stop_indexed h l.cluster)
  ]

  -- Where Connect succeeds, whatever connection there was before, the connection is to the new
  -- addresses, the cluster has the index, and the bucket type has the index set unless the index was
  -- there before. The cluster's commands do what they say.
  pub connect-IsReady :
      (addrs : List String) (l l' : Link H S)
      → connect setup addrs l ≡ some (true, l')
      → IsReady indexed bound addrs l.cluster l'
  unfolding connect
  connect-IsReady addrs l l' e =
      let (ok, m, first, second) =
        bind_steps (stop_previous setup) (λ ok. if ok then open_client setup addrs else pure false)
          l l' true e in
      go ok m first second
    where
      go :
          (ok : Bool) (m : Link H S)
          → stop_previous setup l ≡ some (ok, m)
          → (if ok then open_client setup addrs else pure false) m ≡ some (true, l')
          → IsReady indexed bound addrs l.cluster l'
      go false m first second = absurd (ground (arith, some_eq second))
      go true m first second =
          IsReady-before addrs m.cluster l.cluster l' (stop_indexed l m true first)
            (opened-IsReady addrs m l' second)

  -- A proxy that is started on a cluster where the index was stored but the bucket type was not set
  -- for it, as a Connect leaves it that fails in between, connects with success, and the bucket type
  -- is still not set for the index. The client can be made and the index fetched.
  connect_unbound :
      (addrs : List String) (s : S) (h : H)
      → (setup.new_client addrs s).0 ≡ some h
      → setup.build_fetch_index riak_index_name ≡ true
      → first_is
          (setup.fetch_index h riak_index_name (setup.new_client addrs s).1).0
          riak_index_name
        ≡ true
      → bound s ≡ false
      → (l : Link H S) × (connect setup addrs (new_riak_conn setup s) ≡ some (true, l))
        × (bound l.cluster ≡ false)
  unfolding connect stop_previous open_client use_client check_index new_riak_conn
  connect_unbound addrs s h made built found unbound = (
    opened addrs h (setup.fetch_index h riak_index_name (setup.new_client addrs s).1).1,
    rw (made, built, found) refl,
    laws.fetch_bound h (setup.new_client addrs s).1 ∙ laws.new_bound addrs s ∙ unbound,
  )
