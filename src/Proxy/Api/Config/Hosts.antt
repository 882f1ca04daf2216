-- ===== src/Proxy/Api/Config/Hosts.antt =====
-- Who may configure an instance, and what the configuration of the host comes to.
use Prim.Native.String.{◌++◌ as ◌+++◌}
use text.Mathlib.TextEquality.{eq_iff}
use cloudlab_k8s.Prelude.{
  ℕ, ◌-◌, ◌%◌, ◌≡◌, refl, ◌∙◌, ap, false, ◌||◌, Option, none, some, List, [], ◌∷◌, arith, String,
  string_key, ◌==◌, get_elem?, set, length, nat_beq, ltb, if◌then◌else◌,
}
use cloudlab_k8s.Proxy.Types.{Net, CachedInstance, unauthorized}
use cloudlab_k8s.Proxy.Run.{Run, pure, deref, ◌>>=◌, bind_some}
use cloudlab_k8s.Proxy.Pmap.{IntTree}
use cloudlab_k8s.Proxy.Cache.{RiakConn, found}
use cloudlab_k8s.Proxy.Api.{MetadataRequest, MetadataProxy, authenticate}
use cloudlab_k8s.Proxy.Api.Handler.{plain, Safe, new_handler}
use cloudlab_k8s.Proxy.Api.Config.{
  config_copy, Hooked, after_host, speaker, pair_texts, kv_text, post_for_host, post_pairs,
  finish_kv, pre_instance_config, pre_instance_kv_config,
}
use cloudlab_k8s.Proxy.Api.Config.Rounds.{post_each, config_end, post_all-rounds}
use cloudlab_k8s.Proxy.Api.Config.Tens.{ten_requests}

-- The request with the instance's identity in place of the name.
abbrev pub identified : MetadataRequest → CachedInstance → MetadataRequest
identified mr inst = record mr { other_values = set mr.other_values 0 inst.id.pid }

-- The refusal of a speaker who is not the host.
abbrev pub not_host : MetadataRequest → CachedInstance → Hooked
not_host mr inst =
    (mr, plain ("Config can only be published by host instance:" +++ speaker mr inst), unauthorized)

tail_texts :
    (key val : String) (o : Option (List String)) (result : List String)
    → Path
        (Option (List String))
        (elim o [
          | none ↦ none
          | some texts ↦ some (("[\\\"" +++ key +++ "\\\", \\\"" +++ val +++ "\\\"]") ∷ texts)
        ])
        (some result)
    → (texts : List String) × (o ≡ some texts)
tail_texts key val none result e = cc
tail_texts key val (some texts) result e = (texts, refl)

length-pair_texts :
    (values result : List String) → pair_texts values ≡ some result → length values % 2 ≡ 0
unfolding pair_texts
length-pair_texts [] result e = refl
length-pair_texts (key ∷ []) result e = cc
length-pair_texts (key ∷ val ∷ rest) result e =
    let (texts, q) = tail_texts key val (pair_texts rest) result e in
    omega (arith, length-pair_texts rest texts q)

module _ {Tree R W : Type 0} (safe : Safe W) (addr : String) (net : Net) (ops : IntTree Tree)
    (riak : RiakConn R) (hash : String → ℕ) where
  host_hook :
      (next : MetadataRequest → CachedInstance → Run (MetadataProxy Tree R W) Hooked)
      (mr : MetadataRequest) (name : String) (inst : CachedInstance) (c c' : MetadataProxy Tree R W)
      → get_elem? mr.other_values 0 ≡ some name
      → authenticate net ops riak hash mr name c ≡ some (found inst, c')
      → (deref (get_elem? mr.other_values 0) >>= λ n.
            authenticate net ops riak hash mr n >>= after_host next mr n)
          c
        ≡ (if mr.principal == inst.id.ppid
            then next (identified mr inst) inst c'
            else some (not_host mr inst, c'))
  host_hook next mr name inst c c' g a =
      ap (λ o. (deref o >>= λ n. authenticate net ops riak hash mr n >>= after_host next mr n) c) g
      ∙ bind_some (authenticate net ops riak hash mr name) (after_host next mr name) c c'
          (found inst) a
      ∙ ground arith

  -- The hook of createInstanceConfig, for an instance that authenticate finds: where the speaker is
  -- not its host, the answer is Unauthorized and nothing is posted; for the host it posts the tens of
  -- the values behind the instance's identity, and goes on with the rest, as far as no post fails.
  pub pre_instance_config-rounds :
      (mr : MetadataRequest) (name : String) (values : List String) (inst : CachedInstance)
      (c c' : MetadataProxy Tree R W)
      → mr.other_values ≡ name ∷ values
      → authenticate net ops riak hash mr name c ≡ some (found inst, c')
      → pre_instance_config safe addr net ops riak hash mr c ≡ (
          if mr.principal == inst.id.ppid
          then (post_each safe addr (ten_requests (identified mr inst) inst.id.pid values)
                >>= λ stop. pure (config_end (identified mr inst) inst.id.pid values mr.url stop))
              c'
          else some (not_host mr inst, c'))
  unfolding pre_instance_config post_for_host
  pre_instance_config-rounds mr name values inst c c' v a =
      host_hook (post_for_host safe addr) mr name inst c c' (ap (λ vs. get_elem? vs 0) v) a
      ∙ ap (λ o. if mr.principal == inst.id.ppid then o else some (not_host mr inst, c'))
          (post_all-rounds safe addr (identified mr inst) inst.id.pid values mr.url c'
            (ap (λ vs. set vs 0 inst.id.pid) v))

  post_pairs_lem :
      (mr : MetadataRequest) (inst : CachedInstance) (pid conf key val : String)
      (rest result : List String) (c : MetadataProxy Tree R W)
      → pair_texts (key ∷ val ∷ rest) ≡ some result
      → post_pairs safe addr (record mr { other_values = pid ∷ conf ∷ key ∷ val ∷ rest }) inst c
        ≡ (new_handler safe addr
                (config_copy mr "/postInstanceConfig1" (pid ∷ conf ∷ kv_text result ∷ []))
                none
                none
              >>= finish_kv (record mr { other_values = pid ∷ conf ∷ kv_text result ∷ val ∷ rest }))
            c
  unfolding post_pairs config_copy
  post_pairs_lem mr inst pid conf key val rest result c p = rw (listed, p) refl
    where
      listed :
          (let remain = length (pid ∷ conf ∷ key ∷ val ∷ rest) - 1 in
            nat_beq (remain % 2) 0 || ltb remain 2)
          ≡ false
      listed = ground (arith, length-pair_texts (key ∷ val ∷ rest) result p)

  -- The hook of createInstanceKvConfig for the host of an instance that authenticate finds, with a
  -- name and keys with their values: one post has the identity, the name and the text of the keys and
  -- values. The request goes on after it with that text over the first key, and what follows the
  -- first key as it was.
  pre_instance_kv_config_lem :
      (mr : MetadataRequest) (name conf key val : String) (rest result : List String)
      (inst : CachedInstance) (c c' : MetadataProxy Tree R W)
      → mr.other_values ≡ name ∷ conf ∷ key ∷ val ∷ rest
      → mr.principal ≡ inst.id.ppid
      → pair_texts (key ∷ val ∷ rest) ≡ some result
      → authenticate net ops riak hash mr name c ≡ some (found inst, c')
      → pre_instance_kv_config safe addr net ops riak hash mr c
        ≡ (new_handler safe addr
                (config_copy
                  (identified mr inst)
                  "/postInstanceConfig1"
                  (inst.id.pid ∷ conf ∷ kv_text result ∷ []))
                none
                none
              >>= finish_kv
                  (record mr { other_values = inst.id.pid ∷ conf ∷ kv_text result ∷ val ∷ rest }))
            c'
  unfolding pre_instance_kv_config config_copy
  pre_instance_kv_config_lem mr name conf key val rest result inst c c' v h p a =
      host_hook (post_pairs safe addr) mr name inst c c' (ap (λ vs. get_elem? vs 0) v) a
      ∙ rw ((eq_iff mr.principal inst.id.ppid).1 h) (
          ap
            (λ vs. post_pairs safe addr (record mr { other_values = set vs 0 inst.id.pid }) inst c')
            v
          ∙ post_pairs_lem mr inst inst.id.pid conf key val rest result c' p)
