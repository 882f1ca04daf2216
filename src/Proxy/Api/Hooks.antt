-- ===== src/Proxy/Api/Hooks.antt =====
-- The hooks of proxy/newapi.go that create and delete instances, and the handlers that they make.
pub mod Outcomes
use cloudlab_k8s.Prelude.{
  ℕ, zero, suc, ◌<◌, ◌≡◌, ◌≢◌, refl, ◌∙◌, ap, Bool, true, false, Option, Option-cases, none, some,
  List, [], ◌∷◌, ◌++◌, arith, String, string_key, ◌==◌, get_elem?, length, nat_beq, ltb, ◌&&◌, inl,
  inr, if◌then◌else◌,
}
use cloudlab_k8s.Proxy.Types.{
  Ip, Net, InstanceCred, CachedInstance, status_ok, bad_request, unauthorized, vm_instance_type,
  normal_instance_type, default_vm_trust_hub, default_ctn_trust_hub,
}
use cloudlab_k8s.Proxy.Run.{Run, pure, panic, deref, ◌>>=◌, ◌>>◌, bind_some, bind_none}
use cloudlab_k8s.Proxy.Pmap.{IntTree}
use cloudlab_k8s.Proxy.Cache.{RiakConn, Answer, found, failed, put_instance, del_instance}
use cloudlab_k8s.Proxy.Api.{
  MetadataRequest, MetadataProxy, HttpRequest, Auth, authenticated, refused, iaas_provider,
  on_cache, authenticate, new_auth,
}
use cloudlab_k8s.Proxy.Api.Control.{authz_control}
use cloudlab_k8s.Proxy.Api.Handler.{
  Body, plain, safe_text, pid_message, not_authorized, Safe, PreHook, PostHook, after_auth,
  new_handler, new_handler_unwrapped,
}

-- workaroundEmptyTrustHub
unfoldable pub workaround_empty_trust_hub : MetadataRequest → MetadataRequest
workaround_empty_trust_hub mr =
    if nat_beq (length mr.other_values) 4 && mr.principal == iaas_provider
    then record mr { other_values = mr.other_values ++ default_vm_trust_hub ∷ [] }
    else if nat_beq (length mr.other_values) 3
    then record mr { other_values = mr.other_values ++ default_ctn_trust_hub ∷ [] }
    else mr

module _ {Tree R W : Type 0} (net : Net) (ops : IntTree Tree) (riak : RiakConn R) where
  -- What preInstanceCallHandler makes of authzControl's status.
  unfoldable pub finish_pre :
      MetadataRequest × ℕ → Run (MetadataProxy Tree R W) (MetadataRequest × Body × ℕ)
  finish_pre (mr, status) =
      if nat_beq status status_ok
      then pure (mr, plain "", status_ok)
      else pure (mr, not_authorized mr, status)

  -- An index out of range panics.
  unfoldable pub pre_instance_call_handler : PreHook (MetadataProxy Tree R W)
  pre_instance_call_handler mr = do
    target ←
        deref (
          get_elem? mr.other_values
            (if ltb 0 mr.target_addr_index then mr.target_addr_index else 2))
    r ← authz_control net ops riak mr target false
    finish_pre r

  unfoldable pub pre_vm_instance_call_handler : PreHook (MetadataProxy Tree R W)
  pre_vm_instance_call_handler mr =
      if mr.principal == iaas_provider
      then (do
        text_of_cidr ← deref (get_elem? mr.other_values 4)
        elim (net.parse_cidr text_of_cidr) [
          | none ↦ pure (mr, plain "can not allocate CIDR", bad_request)
          | some cidr ↦ pre_instance_call_handler (record mr {
            target_cidr = some cidr;
            target_type = vm_instance_type;
            target_addr_index = 3;
          })
        ])
      else pure (mr, plain "only IaaS provider can create VM", unauthorized)

  unfoldable pub pre_legacy_instance_call_handler : PreHook (MetadataProxy Tree R W)
  pre_legacy_instance_call_handler mr =
      if mr.principal == iaas_provider
      then pure (mr, plain "Should not use legacy API to create VMs!", bad_request)
      else (do
        first ← deref (get_elem? mr.other_values 0)
        second ← deref (get_elem? mr.other_values 1)
        pre_instance_call_handler (record mr { other_values = first ∷ second ∷ [] }))

  -- The instance that is created: its status is not looked at.
  unfoldable pub post_instance_creation_handler : PostHook (MetadataProxy Tree R W)
  post_instance_creation_handler mr body status =
      if nat_beq status status_ok
      then (do
        pid ← deref (get_elem? mr.other_values 0)
        on_cache mr.cache (
            put_instance net ops riak (record {
              ip = mr.target_ip;
              lport = mr.target_lport;
              rport = mr.target_rport;
              id = record {
                pid = pid;
                ppid = mr.principal;
                type = mr.target_type;
                cidr = mr.target_cidr;
              };
            }))
        pure (pid_message pid, status_ok))
      else pure (safe_text body, status)

  unfoldable pub post_instance_deletion_handler : PostHook (MetadataProxy Tree R W)
  post_instance_deletion_handler mr body status =
      if nat_beq status status_ok
      then (do
        pid ← deref (get_elem? mr.other_values 0)
        on_cache mr.cache
            (del_instance net ops riak mr.target_ip mr.target_lport mr.target_rport pid)
        pure (pid_message pid, status_ok))
      else pure (safe_text body, status)

  -- The first hook of lazyDeleteInstance, whose target may be a UUID.
  unfoldable pub finish_lazy :
      MetadataRequest × ℕ → Run (MetadataProxy Tree R W) (MetadataRequest × Body × ℕ)
  finish_lazy (mr, status) =
      if nat_beq status status_ok
      then pure (
        record mr { target_type = normal_instance_type; target_cidr = none },
        plain "",
        status_ok,
      )
      else pure (mr, not_authorized mr, status)

  unfoldable pub pre_lazy_delete : PreHook (MetadataProxy Tree R W)
  pre_lazy_delete mr = do
    target ← deref (get_elem? mr.other_values 0)
    r ← authz_control net ops riak mr target true
    finish_lazy r

  module _ (safe : Safe W) (addr : String) (hash : String → ℕ) where
    abbrev pub handle :
        PreHook (MetadataProxy Tree R W)
        → PostHook (MetadataProxy Tree R W)
        → HttpRequest
        → Run (MetadataProxy Tree R W) (Body × ℕ)
    handle pre post r =
        new_handler_unwrapped safe addr net ops riak hash r (some pre) (some post) true

    unfoldable pub create_instance : HttpRequest → Run (MetadataProxy Tree R W) (Body × ℕ)
    create_instance = handle pre_instance_call_handler post_instance_creation_handler

    unfoldable pub create_instance_legacy : HttpRequest → Run (MetadataProxy Tree R W) (Body × ℕ)
    create_instance_legacy = handle pre_legacy_instance_call_handler post_instance_creation_handler

    unfoldable pub create_vm_instance : HttpRequest → Run (MetadataProxy Tree R W) (Body × ℕ)
    create_vm_instance = handle pre_vm_instance_call_handler post_instance_creation_handler

    unfoldable pub delete_instance : HttpRequest → Run (MetadataProxy Tree R W) (Body × ℕ)
    delete_instance = handle pre_instance_call_handler post_instance_deletion_handler

    unfoldable pub delete_vm_instance : HttpRequest → Run (MetadataProxy Tree R W) (Body × ℕ)
    delete_vm_instance = handle pre_vm_instance_call_handler post_instance_deletion_handler

    unfoldable pub lazy_delete_instance : HttpRequest → Run (MetadataProxy Tree R W) (Body × ℕ)
    lazy_delete_instance = handle pre_lazy_delete post_instance_deletion_handler
