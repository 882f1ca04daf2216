-- ===== src/Proxy/Api/Steps/Hooked.antt =====
-- The hooks of the handlers and the handlers keep the caches in agreement.
use cloudlab_k8s.Prelude.{
  ℕ, inl, inr, Bool, true, false, Option, Option-cases, none, some, [], ◌∷◌, String, string_key,
  ◌==◌, get_elem?, nat_beq,
}
use cloudlab_k8s.Proxy.Types.{IpNet, Net, status_ok, bad_request, unauthorized, vm_instance_type}
use cloudlab_k8s.Proxy.Run.{Run, pure}
use cloudlab_k8s.Proxy.Pmap.{PrincipalIndex, IntTree, IsIntTree}
use cloudlab_k8s.Proxy.Pmap.Homes.{Home}
use cloudlab_k8s.Proxy.Cache.{RiakConn, Answer, found, failed}
use cloudlab_k8s.Proxy.Cache.Reload.{IsHonest}
use cloudlab_k8s.Proxy.Address.{parse_ip_new}
use cloudlab_k8s.Proxy.Api.{MetadataRequest, MetadataProxy, iaas_provider}
use cloudlab_k8s.Proxy.Api.Control.{authz_control, finish_control, decide_control, after_target}
use cloudlab_k8s.Proxy.Api.Handler.{Body, plain, Safe}
use cloudlab_k8s.Proxy.Api.Hooks.{
  pre_instance_call_handler, pre_vm_instance_call_handler, pre_legacy_instance_call_handler,
  pre_lazy_delete, finish_pre, finish_lazy,
}
use cloudlab_k8s.Proxy.Api.Links.{
  link_checked, pre_endorsement_link, pre_membership, pre_check_instance,
}
use cloudlab_k8s.Proxy.Api.Steps.Kept.{
  Kept, kept_bind, kept_pure, kept_deref, kept_if, authenticate-Kept, on_cache-Kept, id-Keeps,
}

module _ {Tree R W : Type 0} (net : Net) (ops : IntTree Tree) (riak : RiakConn R)
    (holds : Tree → PrincipalIndex → Bool) (laws : IsIntTree ops holds)
    (home : String → Option Home) (honest : IsHonest net home riak) (n : ℕ) where
  abbrev KeptHere : {A : Type 0} → Run (MetadataProxy Tree R W) A → Type 0
  KeptHere m = Kept net holds home n m

  finish_control-Kept : (mr : MetadataRequest) → KeptHere (finish_control net mr)
  finish_control-Kept mr a c c' s e = elim (Option-cases (decide_control net mr)) [
    | inl gone ↦ cc (rw (finish_control, gone) at e)
    | inr (status, q) ↦
        kept_pure net holds home n (mr, status) a c c' s (rw (finish_control, q) at e)
  ]

  after_target-Kept :
      (mr : MetadataRequest) (answer : Answer) → KeptHere (after_target net mr answer)
  after_target-Kept mr (failed status) = kept_pure net holds home n _
  after_target-Kept mr (found inst) = finish_control-Kept _

  authz_control-Kept :
      (mr : MetadataRequest) (target : String) (allow_uuid : Bool)
      → KeptHere (authz_control net ops riak mr target allow_uuid)
  unfolding authz_control
  authz_control-Kept mr target allow_uuid =
      kept_if net holds home n (nat_beq (parse_ip_new net target).3 status_ok) _ _
        (finish_control-Kept _)
        (kept_if net holds home n allow_uuid _ _
          (kept_bind net holds home n _ _
            (on_cache-Kept net holds home n mr.cache _
              (id-Keeps net ops riak holds laws home honest target))
            (λ answer. after_target-Kept _ answer))
          (kept_pure net holds home n _))

  finish_pre-Kept : (r : MetadataRequest × ℕ) → KeptHere (finish_pre net ops riak r)
  unfolding finish_pre
  finish_pre-Kept (mr, status) =
      kept_if net holds home n (nat_beq status status_ok) _ _ (kept_pure net holds home n _)
        (kept_pure net holds home n _)

  finish_lazy-Kept : (r : MetadataRequest × ℕ) → KeptHere (finish_lazy net ops riak r)
  unfolding finish_lazy
  finish_lazy-Kept (mr, status) =
      kept_if net holds home n (nat_beq status status_ok) _ _ (kept_pure net holds home n _)
        (kept_pure net holds home n _)

  pub pre_instance_call_handler-Kept :
      (mr : MetadataRequest) → KeptHere (pre_instance_call_handler net ops riak mr)
  unfolding pre_instance_call_handler
  pre_instance_call_handler-Kept mr =
      kept_bind net holds home n _ _ (kept_deref net holds home n _) (λ target.
        kept_bind net holds home n _ _ (authz_control-Kept mr target false)
          (λ r. finish_pre-Kept r))

  pub pre_vm_instance_call_handler-Kept :
      (mr : MetadataRequest) → KeptHere (pre_vm_instance_call_handler net ops riak mr)
  unfolding pre_vm_instance_call_handler
  pre_vm_instance_call_handler-Kept mr =
      kept_if net holds home n (mr.principal == iaas_provider) _ _
        (kept_bind net holds home n _ _ (kept_deref net holds home n (get_elem? mr.other_values 4))
          (λ text. parsed (net.parse_cidr text)))
        (kept_pure net holds home n (mr, plain "only IaaS provider can create VM", unauthorized))
    where
      parsed :
          (o : Option IpNet)
          → KeptHere {A = MetadataRequest × Body × ℕ}
              (elim o as (λ _. Run (MetadataProxy Tree R W) (MetadataRequest × Body × ℕ)) [
                | none ↦ pure (mr, plain "can not allocate CIDR", bad_request)
                | some cidr ↦ pre_instance_call_handler net ops riak (record mr {
                  target_cidr = some cidr;
                  target_type = vm_instance_type;
                  target_addr_index = 3;
                })
              ])
      parsed none = kept_pure net holds home n _
      parsed (some cidr) = pre_instance_call_handler-Kept _

  pub pre_legacy_instance_call_handler-Kept :
      (mr : MetadataRequest) → KeptHere (pre_legacy_instance_call_handler net ops riak mr)
  unfolding pre_legacy_instance_call_handler
  pre_legacy_instance_call_handler-Kept mr =
      kept_if net holds home n (mr.principal == iaas_provider) _ _
        (kept_pure net holds home n
          (mr, plain "Should not use legacy API to create VMs!", bad_request))
        (kept_bind net holds home n _ _ (kept_deref net holds home n (get_elem? mr.other_values 0))
          (λ first.
            kept_bind net holds home n _ _
              (kept_deref net holds home n (get_elem? mr.other_values 1))
              (λ second.
                pre_instance_call_handler-Kept (record mr { other_values = first ∷ second ∷ [] }))))

  pub pre_lazy_delete-Kept : (mr : MetadataRequest) → KeptHere (pre_lazy_delete net ops riak mr)
  unfolding pre_lazy_delete
  pre_lazy_delete-Kept mr =
      kept_bind net holds home n _ _ (kept_deref net holds home n _) (λ target.
        kept_bind net holds home n _ _ (authz_control-Kept mr target true)
          (λ r. finish_lazy-Kept r))

  module _ (hash : String → ℕ) where
    pub pre_endorsement_link-Kept :
        (safe : Safe W) (addr : String) (mr : MetadataRequest)
        → KeptHere (pre_endorsement_link safe addr net ops riak hash mr)
    unfolding pre_endorsement_link
    pre_endorsement_link-Kept safe addr mr =
        kept_bind net holds home n _ _ (kept_deref net holds home n _) (λ endorser.
          kept_bind net holds home n _ _
            (authenticate-Kept net ops riak holds laws home honest n hash mr endorser)
            (λ answer. kept_pure net holds home n _))

    pub pre_membership-Kept :
        (safe : Safe W) (addr : String) (mr : MetadataRequest)
        → KeptHere (pre_membership safe addr net ops riak hash mr)
    unfolding pre_membership
    pre_membership-Kept safe addr mr =
        kept_bind net holds home n _ _ (kept_deref net holds home n _) (λ member.
          kept_bind net holds home n _ _
            (authenticate-Kept net ops riak holds laws home honest n hash mr member)
            (λ answer. kept_pure net holds home n _))

    pub pre_check_instance-Kept :
        (safe : Safe W) (addr : String) (mr : MetadataRequest)
        → KeptHere (pre_check_instance safe addr net ops riak hash mr)
    unfolding pre_check_instance
    pre_check_instance-Kept safe addr mr =
        kept_bind net holds home n _ _ (kept_deref net holds home n (get_elem? mr.other_values 0))
          (λ target.
            kept_if net holds home n (target == iaas_provider) _ _
              (kept_pure net holds home n (mr, plain "", status_ok))
              (kept_bind net holds home n _ _
                (authenticate-Kept net ops riak holds laws home honest n hash mr target)
                (λ answer.
                  kept_pure net holds home n (link_checked mr answer, plain "", status_ok))))
