-- ===== src/Proxy/Api/Steps/Configured.antt =====
-- The configuration handlers' hooks keep the caches in agreement.
use cloudlab_k8s.Prelude.{
  ℕ, zero, suc, Bool, Option, none, ◌∷◌, ltb, ◌-◌, ◌+◌, String, string_key, ◌==◌, get_elem?,
  nat_beq,
}
use cloudlab_k8s.Proxy.Types.{Net, CachedInstance, status_ok}
use cloudlab_k8s.Proxy.Run.{Run}
use cloudlab_k8s.Proxy.Pmap.{PrincipalIndex, IntTree, IsIntTree}
use cloudlab_k8s.Proxy.Pmap.Homes.{Home}
use cloudlab_k8s.Proxy.Cache.{RiakConn, Answer, found, failed}
use cloudlab_k8s.Proxy.Cache.Reload.{IsHonest}
use cloudlab_k8s.Proxy.Api.{MetadataRequest, MetadataProxy}
use cloudlab_k8s.Proxy.Api.Handler.{Body, Safe, new_handler}
use cloudlab_k8s.Proxy.Api.Config.{
  Posted, stopped, left, post_configs, post_all, post_pairs, post_for_host, pre_self_config,
  pre_instance_config, pre_instance_kv_config, after_host, after_post, finish_configs, finish_kv,
  config_copy, slice_values, Hooked,
}
use cloudlab_k8s.Proxy.Api.Steps.Kept.{
  Kept, kept_bind, kept_pure, kept_deref, kept_if, authenticate-Kept, new_handler-kept,
}

module _ {Tree R W : Type 0} (net : Net) (ops : IntTree Tree) (riak : RiakConn R)
    (holds : Tree → PrincipalIndex → Bool) (laws : IsIntTree ops holds)
    (home : String → Option Home) (honest : IsHonest net home riak) (n : ℕ) where
  abbrev KeptHere : {A : Type 0} → Run (MetadataProxy Tree R W) A → Type 0
  KeptHere m = Kept net holds home n m

  module _ (safe : Safe W) (addr : String) where
    -- A request without hooks.
    plain-Kept : (mr : MetadataRequest) → KeptHere (new_handler safe addr mr none none)
    plain-Kept mr reply c c' s e =
        new_handler-kept net ops riak holds laws home honest n safe addr mr none none c c' reply
          (kept_pure net holds home n _) (λ mr' msg d q body status. kept_pure net holds home n _) s
          e

    after_post-Kept :
        (next : Run (MetadataProxy Tree R W) Posted) (reply : Body × ℕ)
        → KeptHere next
        → KeptHere (after_post next reply)
    after_post-Kept next (msg, status) k =
        kept_if net holds home n (nat_beq status status_ok) _ _ k (kept_pure net holds home n _)

    post_configs-Kept :
        (fuel : ℕ) (mr : MetadataRequest) (remain current : ℕ)
        → KeptHere (post_configs safe addr fuel mr remain current)
    unfolding post_configs
    post_configs-Kept zero mr remain current = kept_pure net holds home n _
    post_configs-Kept (suc fuel) mr remain current =
        kept_if net holds home n (ltb 10 remain) _ _
          (kept_bind net holds home n _ _
            (kept_deref net holds home n (get_elem? mr.other_values 0))
            (λ first.
              kept_bind net holds home n _ _
                (kept_deref net holds home n (slice_values mr.other_values current (current + 10)))
                (λ args.
                  kept_bind net holds home n _ _
                    (plain-Kept (config_copy mr "/postInstanceConfig5" (first ∷ args)))
                    (λ reply.
                      after_post-Kept _ reply
                        (post_configs-Kept fuel mr (remain - 10) (current + 10))))))
          (kept_pure net holds home n (left remain current))

    post_all-Kept : (mr : MetadataRequest) → KeptHere (post_all safe addr mr)
    unfolding post_all
    post_all-Kept mr = post_configs-Kept _ mr _ _

    finish_configs-Kept :
        (mr : MetadataRequest) (url : String) (posted : Posted)
        → KeptHere (finish_configs mr url posted)
    finish_configs-Kept mr url (stopped msg status) = kept_pure net holds home n _
    finish_configs-Kept mr url (left remain current) = kept_pure net holds home n _

    pub pre_self_config-Kept : (mr : MetadataRequest) → KeptHere (pre_self_config safe addr mr)
    unfolding pre_self_config
    pre_self_config-Kept mr =
        kept_bind net holds home n _ _ (post_all-Kept _) (λ posted. finish_configs-Kept _ _ posted)

    post_for_host-Kept :
        (mr : MetadataRequest) (inst : CachedInstance) → KeptHere (post_for_host safe addr mr inst)
    unfolding post_for_host
    post_for_host-Kept mr inst =
        kept_bind net holds home n _ _ (post_all-Kept mr) (λ posted. finish_configs-Kept _ _ posted)

    finish_kv-Kept : (mr : MetadataRequest) (reply : Body × ℕ) → KeptHere (finish_kv mr reply)
    finish_kv-Kept mr (msg, status) =
        kept_if net holds home n (nat_beq status status_ok) _ _ (kept_pure net holds home n _)
          (kept_pure net holds home n _)

    post_pairs-Kept :
        (mr : MetadataRequest) (inst : CachedInstance) → KeptHere (post_pairs safe addr mr inst)
    unfolding post_pairs
    post_pairs-Kept mr inst = kept_if net holds home n _ _ _ (kept_pure net holds home n _) (
        kept_bind net holds home n _ _ (kept_deref net holds home n _) (λ result.
          kept_bind net holds home n _ _ (plain-Kept _) (λ reply. finish_kv-Kept _ reply)))

    after_host-Kept :
        (next : MetadataRequest → CachedInstance → Run (MetadataProxy Tree R W) Hooked)
        (mr : MetadataRequest) (name : String) (answer : Answer)
        → ((q : MetadataRequest) (inst : CachedInstance) → KeptHere (next q inst))
        → KeptHere (after_host next mr name answer)
    after_host-Kept next mr name (failed status) k = kept_pure net holds home n _
    after_host-Kept next mr name (found inst) k =
        kept_if net holds home n (mr.principal == inst.id.ppid) _ _ (k _ inst)
          (kept_pure net holds home n _)

    pub pre_instance_config-Kept :
        (hash : String → ℕ) (mr : MetadataRequest)
        → KeptHere (pre_instance_config safe addr net ops riak hash mr)
    unfolding pre_instance_config
    pre_instance_config-Kept hash mr =
        kept_bind net holds home n _ _ (kept_deref net holds home n _) (λ name.
          kept_bind net holds home n _ _
            (authenticate-Kept net ops riak holds laws home honest n hash mr name)
            (λ answer. after_host-Kept _ mr name answer (post_for_host-Kept)))

    pub pre_instance_kv_config-Kept :
        (hash : String → ℕ) (mr : MetadataRequest)
        → KeptHere (pre_instance_kv_config safe addr net ops riak hash mr)
    unfolding pre_instance_kv_config
    pre_instance_kv_config-Kept hash mr =
        kept_bind net holds home n _ _ (kept_deref net holds home n _) (λ name.
          kept_bind net holds home n _ _
            (authenticate-Kept net ops riak holds laws home honest n hash mr name)
            (λ answer. after_host-Kept _ mr name answer post_pairs-Kept))
