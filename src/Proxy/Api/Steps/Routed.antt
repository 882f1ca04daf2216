-- ===== src/Proxy/Api/Steps/Routed.antt =====
-- Every route keeps the caches in agreement.
use cloudlab_k8s.Prelude.{some-eq, ℕ, ◌≡◌, ap, ◌∙◌, Bool, true, false, Option, none, some, String}
use cloudlab_k8s.Proxy.Types.{Net, status_ok}
use cloudlab_k8s.Proxy.Run.{Run, bind_steps}
use cloudlab_k8s.Proxy.Pmap.{PrincipalIndex, IntTree, IsIntTree}
use cloudlab_k8s.Proxy.Pmap.Homes.{Home}
use cloudlab_k8s.Proxy.Cache.{RiakConn}
use cloudlab_k8s.Proxy.Cache.Reload.{IsHonest}
use cloudlab_k8s.Proxy.Api.{
  MetadataRequest, MetadataProxy, HttpRequest, Auth, authenticated, refused, new_auth,
}
use cloudlab_k8s.Proxy.Api.Handler.{
  Body, plain, Safe, PreHook, PostHook, run_pre, new_handler_unwrapped, after_auth, safe_text,
}
use cloudlab_k8s.Proxy.Api.Hooks.{
  create_instance, create_instance_legacy, create_vm_instance, delete_instance, delete_vm_instance,
  lazy_delete_instance,
}
use cloudlab_k8s.Proxy.Api.Config.{
  create_self_config, create_instance_config, create_instance_kv_config,
}
use cloudlab_k8s.Proxy.Api.Links.{
  create_membership, create_endorsement_link, create_endorsement, handle_check_instance,
  handle_other, handle_other_no_auth,
}
use cloudlab_k8s.Proxy.Api.Routes.{
  Route, handler, to_create_instance, to_create_instance_legacy, to_create_vm_instance,
  to_delete_instance, to_delete_vm_instance, to_lazy_delete_instance, to_create_instance_config,
  to_create_instance_kv_config, to_create_self_config, to_create_membership, to_handle_other,
  to_create_endorsement_link, to_create_endorsement, to_handle_check_instance,
  to_handle_other_no_auth, to_post_pod_new, to_auth_pod_new, to_authenticate_addr,
}
use cloudlab_k8s.Proxy.Api.Steps.{IsPlaced, IsPlacedInOrder, Passes, IsOrderly}
use cloudlab_k8s.Proxy.Api.Steps.Kept.{
  IsServing, Kept, KeptAfter, kept_pure, new_auth-Kept, new_handler-kept,
}
use cloudlab_k8s.Proxy.Api.Steps.Configured.{
  pre_self_config-Kept, pre_instance_config-Kept, pre_instance_kv_config-Kept,
}
use cloudlab_k8s.Proxy.Api.Steps.Hooked.{
  pre_instance_call_handler-Kept, pre_vm_instance_call_handler-Kept,
  pre_legacy_instance_call_handler-Kept, pre_lazy_delete-Kept, pre_endorsement_link-Kept,
  pre_membership-Kept, pre_check_instance-Kept,
}
use cloudlab_k8s.Proxy.Api.Steps.Writes.{creation-Kept, deletion-Kept}

module _ {Tree R W : Type 0} (safe : Safe W) (addr : String) (net : Net) (ops : IntTree Tree)
    (riak : RiakConn R) (hash : String → ℕ) (holds : Tree → PrincipalIndex → Bool)
    (laws : IsIntTree ops holds) (home : String → Option Home) (honest : IsHonest net home riak)
    (n : ℕ) where
  abbrev KeptHere : {A : Type 0} → Run (MetadataProxy Tree R W) A → Type 0
  KeptHere m = Kept net holds home n m

  abbrev Serving : MetadataProxy Tree R W → Type 0
  Serving = IsServing net holds home n

  -- A handler keeps what its hooks keep; the second runs on what the first passes.
  unwrapped-kept :
      (r : HttpRequest) (pre : Option (PreHook (MetadataProxy Tree R W)))
      (post : Option (PostHook (MetadataProxy Tree R W))) (auth_principal : Bool)
      (c c' : MetadataProxy Tree R W) (reply : Body × ℕ)
      → ((mr : MetadataRequest) → KeptHere (run_pre pre mr))
      → ((mr mr' : MetadataRequest) (msg : Body) (d e : MetadataProxy Tree R W)
          → new_auth net ops riak hash r auth_principal c ≡ some (authenticated mr, d)
          → run_pre pre mr d ≡ some ((mr', msg, status_ok), e)
          → KeptAfter net holds home n mr' post)
      → Serving c
      → new_handler_unwrapped safe addr net ops riak hash r pre post auth_principal c
        ≡ some (reply, c')
      → Serving c'
  unfolding new_handler_unwrapped after_auth
  unwrapped-kept r pre post auth_principal c c' reply h k s e =
      let (a, d, first, second) =
        bind_steps (new_auth net ops riak hash r auth_principal)
          (after_auth safe addr net ops riak hash pre post) c c' reply e in
      go a d first
        (new_auth-Kept net ops riak holds laws home honest n hash r auth_principal a c d s first)
        second
    where
      go :
          (a : Auth) (d : MetadataProxy Tree R W)
          → new_auth net ops riak hash r auth_principal c ≡ some (a, d)
          → Serving d
          → after_auth safe addr net ops riak hash pre post a d ≡ some (reply, c')
          → Serving c'
      go (refused status) d first t second =
          kept_pure net holds home n (plain "can not authenticate request", status) reply d c' t
            second
      go (authenticated mr) d first t second =
          new_handler-kept net ops riak holds laws home honest n safe addr mr pre post d c' reply
            (h mr) (λ mr' msg e'. k mr mr' msg d e' first) t second

  -- A handler without a second hook.
  passing-kept :
      (r : HttpRequest) (pre : Option (PreHook (MetadataProxy Tree R W))) (auth_principal : Bool)
      (c c' : MetadataProxy Tree R W) (reply : Body × ℕ)
      → ((mr : MetadataRequest) → KeptHere (run_pre pre mr))
      → Serving c
      → new_handler_unwrapped safe addr net ops riak hash r pre none auth_principal c
        ≡ some (reply, c')
      → Serving c'
  passing-kept r pre auth_principal c c' reply h s e =
      unwrapped-kept r pre none auth_principal c c' reply h
        (λ mr mr' msg d e' q q' body status. kept_pure net holds home n (safe_text body, status)) s
        e

  -- A handler that creates or deletes an instance.
  writing-kept :
      (placed : MetadataRequest → Type 0) (r : HttpRequest) (pre : PreHook (MetadataProxy Tree R W))
      (post : PostHook (MetadataProxy Tree R W)) (c c' : MetadataProxy Tree R W) (reply : Body × ℕ)
      → ((mr : MetadataRequest) → KeptHere (pre mr))
      → ((mr : MetadataRequest) (body : String) (status : ℕ)
          → placed mr
          → KeptHere (post mr body status))
      → Passes safe addr net ops riak hash home placed pre r c
      → Serving c
      → new_handler_unwrapped safe addr net ops riak hash r (some pre) (some post) true c
        ≡ some (reply, c')
      → Serving c'
  writing-kept placed r pre post c c' reply h k o s e =
      unwrapped-kept r (some pre) (some post) true c c' reply h
        (λ mr mr' msg d e' q q' body status. k mr' body status (o mr mr' msg d e' q q')) s e

  pub route-kept :
      (route : Route) (f : HttpRequest → Run (MetadataProxy Tree R W) (Body × ℕ)) (r : HttpRequest)
      (reply : Body × ℕ) (c c' : MetadataProxy Tree R W)
      → handler safe addr net ops riak hash route ≡ some f
      → IsOrderly safe addr net ops riak hash home route r c
      → Serving c
      → f r c ≡ some (reply, c')
      → Serving c'
  unfolding handler create_instance create_instance_legacy create_vm_instance delete_instance
      delete_vm_instance lazy_delete_instance create_instance_config create_instance_kv_config
      create_self_config create_membership create_endorsement_link create_endorsement
      handle_check_instance handle_other handle_other_no_auth
  route-kept route f r reply c c' q o s e = go route q o
    where
      run :
          (g : HttpRequest → Run (MetadataProxy Tree R W) (Body × ℕ))
          → some g ≡ some f
          → g r c ≡ some (reply, c')
      run g q = ap (λ h. h r c) (some-eq q) ∙ e

      go :
          (route : Route)
          → handler safe addr net ops riak hash route ≡ some f
          → IsOrderly safe addr net ops riak hash home route r c
          → Serving c'
      go to_create_instance q o =
          writing-kept (IsPlaced net home) r _ _ c c' reply
            (pre_instance_call_handler-Kept net ops riak holds laws home honest n)
            (creation-Kept net ops riak holds laws home honest n) o s (run _ q)
      go to_create_instance_legacy q o =
          writing-kept (IsPlaced net home) r _ _ c c' reply
            (pre_legacy_instance_call_handler-Kept net ops riak holds laws home honest n)
            (creation-Kept net ops riak holds laws home honest n) o s (run _ q)
      go to_create_vm_instance q o =
          writing-kept (IsPlaced net home) r _ _ c c' reply
            (pre_vm_instance_call_handler-Kept net ops riak holds laws home honest n)
            (creation-Kept net ops riak holds laws home honest n) o s (run _ q)
      go to_delete_instance q o =
          writing-kept (IsPlacedInOrder net home) r _ _ c c' reply
            (pre_instance_call_handler-Kept net ops riak holds laws home honest n)
            (deletion-Kept net ops riak holds laws home honest n) o s (run _ q)
      go to_delete_vm_instance q o =
          writing-kept (IsPlacedInOrder net home) r _ _ c c' reply
            (pre_vm_instance_call_handler-Kept net ops riak holds laws home honest n)
            (deletion-Kept net ops riak holds laws home honest n) o s (run _ q)
      go to_lazy_delete_instance q o =
          writing-kept (IsPlacedInOrder net home) r _ _ c c' reply
            (pre_lazy_delete-Kept net ops riak holds laws home honest n)
            (deletion-Kept net ops riak holds laws home honest n) o s (run _ q)
      go to_create_instance_config q o =
          passing-kept r _ true c c' reply
            (pre_instance_config-Kept net ops riak holds laws home honest n safe addr hash) s
            (run _ q)
      go to_create_instance_kv_config q o =
          passing-kept r _ true c c' reply
            (pre_instance_kv_config-Kept net ops riak holds laws home honest n safe addr hash) s
            (run _ q)
      go to_create_self_config q o =
          passing-kept r _ true c c' reply
            (pre_self_config-Kept net ops riak holds laws home honest n safe addr) s (run _ q)
      go to_create_membership q o =
          passing-kept r _ true c c' reply
            (pre_membership-Kept net ops riak holds laws home honest n hash safe addr) s (run _ q)
      go to_create_endorsement_link q o =
          passing-kept r _ false c c' reply
            (pre_endorsement_link-Kept net ops riak holds laws home honest n hash safe addr) s
            (run _ q)
      go to_create_endorsement q o =
          passing-kept r _ false c c' reply (λ mr. kept_pure net holds home n _) s (run _ q)
      go to_handle_check_instance q o =
          passing-kept r _ false c c' reply
            (pre_check_instance-Kept net ops riak holds laws home honest n hash safe addr) s
            (run _ q)
      go to_handle_other q o =
          passing-kept r none true c c' reply
            (λ mr. kept_pure net holds home n (mr, plain "", status_ok)) s (run _ q)
      go to_handle_other_no_auth q o =
          passing-kept r none false c c' reply
            (λ mr. kept_pure net holds home n (mr, plain "", status_ok)) s (run _ q)
      go to_post_pod_new q o = cc
      go to_auth_pod_new q o = cc
      go to_authenticate_addr q o = cc
