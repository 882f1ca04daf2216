-- ===== src/Proxy/Riak/Calls.antt =====
-- The calls of the connection of proxy/riak.go, and the instances that may be held after them.
use cloudlab_k8s.Prelude.{
  ◌≡◌, refl, sym, ap, ◌∙◌, inl, inr, Bool, Bool-cases, false, ◌&&◌, Option, none, some, List, [],
  ◌∷◌, String, string_key, ◌==◌, Text, ℤ, if◌then◌else◌,
}
use cloudlab_k8s.Proxy.Types.{Ip, Net, CachedInstance}
use cloudlab_k8s.Proxy.Pmap.{In}
use cloudlab_k8s.Proxy.Fmt.RoundTrip.{IsInt}
use cloudlab_k8s.Proxy.Cache.{RiakConn}
use cloudlab_k8s.Proxy.Riak.{
  Codec, net_map_key, net_map_obj, SearchDoc, gen_cached_instance, gen_cached_instances, RiakClient,
  with_instance, riak_conn,
}
use cloudlab_k8s.Proxy.Riak.Roundtrip.{IsPrinted, IsDocOf}
use cloudlab_k8s.Proxy.Riak.Indexed.{is_at}

-- The calls of the cache.
pub data Call : Type 0 where
  put_call : CachedInstance → Call
  del_call : Ip → ℤ → ℤ → Call
  all_call : Ip → Call
  id_call : String → Call

-- A search of the cache.
pub data Search : Type 0 where
  by_ip : Ip → Search
  by_id : String → Search

module _ (net : Net) (codec : Codec) where
  -- An instance that the connection can write and read back: its ports are ints, package json encodes
  -- its credential, and package net parses its address and its network as it prints them.
  pub record IsWritable (inst : CachedInstance) : Type 0 where
    pub encoded : (bytes : Text) × (codec.encode (net_map_obj net inst.id) ≡ some bytes)
    pub printed : IsPrinted net inst.id.cidr
    pub lport_int : IsInt inst.lport
    pub rport_int : IsInt inst.rport
    pub parsed : net.parse_ip (net.ip_string inst.ip) ≡ some inst.ip

  abbrev pub AllWritable : List Call → Type 0
  AllWritable [] = Unit
  AllWritable (put_call inst ∷ calls) = IsWritable inst × AllWritable calls
  AllWritable (del_call ip lport rport ∷ calls) = AllWritable calls
  AllWritable (all_call ip ∷ calls) = AllWritable calls
  AllWritable (id_call uuid ∷ calls) = AllWritable calls

  -- The instance is stored under the key in the bucket.
  abbrev pub sits : String → String → CachedInstance → Bool
  sits bucket key inst = net.ip_string inst.ip == bucket && net_map_key inst.lport inst.rport == key

  abbrev pub without : String → String → List CachedInstance → List CachedInstance
  without bucket key [] = []
  without bucket key (inst ∷ insts) =
      let rest = without bucket key insts in if sits bucket key inst then rest else inst ∷ rest

  -- What a search asks for.
  abbrev pub term_of : Search → String
  term_of (by_ip ip) = net.ip_string ip
  term_of (by_id uuid) = uuid

  abbrev pub Matches : Search → CachedInstance → Type 0
  Matches (by_ip ip) inst = net.ip_string inst.ip ≡ net.ip_string ip
  Matches (by_id uuid) inst = inst.id.pid ≡ uuid

  pub is_at-sits :
      (bucket key : String) (inst : CachedInstance) (d : SearchDoc)
      → IsDocOf net codec inst d
      → is_at bucket key d ≡ sits bucket key inst
  is_at-sits bucket key inst d h = rw (h.bucket_eq, h.key_eq) refl

  pub In-without :
      (bucket key : String) (inst : CachedInstance) (insts : List CachedInstance)
      → sits bucket key inst ≡ false
      → In inst insts
      → In inst (without bucket key insts)
  In-without bucket key inst [] away i = elim i [ ]
  In-without bucket key inst (x ∷ insts) away (inl e) =
      rw (sym (ap (sits bucket key) e) ∙ away) (inl e)
  In-without bucket key inst (x ∷ insts) away (inr i) = elim (Bool-cases (sits bucket key x)) [
    | inl gone ↦ rw gone (In-without bucket key inst insts away i)
    | inr stays ↦ rw stays (inr (In-without bucket key inst insts away i))
  ]

  -- What a list of documents is read as comes from one of them.
  pub from_doc :
      (docs : List SearchDoc) (inst : CachedInstance)
      → In inst (gen_cached_instances net codec docs)
      → (d : SearchDoc) × In d docs × (gen_cached_instance net codec d ≡ some inst)
  unfolding gen_cached_instances
  from_doc [] inst i = elim i [ ]
  from_doc (d ∷ docs) inst i =
      go (λ i. let (d', at, eq) = from_doc docs inst i in (d', inr at, eq))
        (gen_cached_instance net codec d) refl i
    where
      go :
          (In inst (gen_cached_instances net codec docs)
            → (d' : SearchDoc) × In d' (d ∷ docs) × (gen_cached_instance net codec d' ≡ some inst))
          → (o : Option CachedInstance) → gen_cached_instance net codec d ≡ o
          → In inst (with_instance o (gen_cached_instances net codec docs))
          → (d' : SearchDoc) × In d' (d ∷ docs) × (gen_cached_instance net codec d' ≡ some inst)
      go later none e i = later i
      go later (some read) e (inl same) = (d, inl refl, e ∙ ap some (sym same))
      go later (some read) e (inr i) = later i

module _ {R : Type 0} (net : Net) (codec : Codec) (client : RiakClient R) where
  abbrev pub conn : RiakConn R
  conn = riak_conn net codec client

  -- The state after a call, and the instances that may be held: a put adds its instance, and what
  -- succeeds under a key takes away the others there.
  abbrev pub call : R × List CachedInstance → Call → R × List CachedInstance
  call (r, known) (put_call inst) =
      let (ok, r') = conn.put_net_id_map inst.ip inst.lport inst.rport inst.id r in
      (
        r',
        inst
            ∷ (if ok
                then without net codec (net.ip_string inst.ip) (net_map_key inst.lport inst.rport)
                    known
                else known),
      )
  call (r, known) (del_call ip lport rport) =
      let (ok, r') = conn.del_net_id_map ip lport rport r in
      (
        r',
        if ok then without net codec (net.ip_string ip) (net_map_key lport rport) known else known,
      )
  call (r, known) (all_call ip) = ((conn.get_all_net_id ip r).1, known)
  call (r, known) (id_call uuid) = ((conn.search_id_net uuid r).1, known)

  abbrev pub calls_from : R × List CachedInstance → List Call → R × List CachedInstance
  calls_from s [] = s
  calls_from s (c ∷ calls) = calls_from (call s c) calls

  abbrev pub answer : Search → R → Option (List CachedInstance)
  answer (by_ip ip) r = (conn.get_all_net_id ip r).0
  answer (by_id uuid) r = (conn.search_id_net uuid r).0
