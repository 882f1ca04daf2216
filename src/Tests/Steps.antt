-- ===== src/Tests/Steps.antt =====
-- The theorems on a proxy from its start on, after the provider created the worker.
use cloudlab_k8s.Prelude.{
  some-eq, ℕ, ◌≡◌, refl, sym, ◌∙◌, true, Option, some, List, [], ◌∷◌, string_key, get_elem?, lookup,
  insert, arith,
}
use cloudlab_k8s.Proxy.Types.{status_ok}
use cloudlab_k8s.Proxy.Run.{Returns}
use cloudlab_k8s.Proxy.Pmap.{PrincipalIndex, put_cached_instance, create_principal_pp, compute_id}
use cloudlab_k8s.Proxy.Pmap.ListTree.{list_tree, list_holds, list_tree-IsIntTree}
use cloudlab_k8s.Proxy.Pmap.Homes.{IsAtHome}
use cloudlab_k8s.Proxy.Cache.{put_instance}
use cloudlab_k8s.Proxy.Address.Regexp.{find_string_submatch}
use cloudlab_k8s.Proxy.Address.Decimal.{parse_int32}
use cloudlab_k8s.Proxy.Address.{parse_ip3, parse_ip_new}
use cloudlab_k8s.Proxy.Api.{
  HttpRequest, MetadataRequest, MetadataProxy, Auth, authenticated, iaas_provider, get_cache,
  auth_decoded, new_auth,
}
use cloudlab_k8s.Proxy.Api.Caches.{AllHomed}
use cloudlab_k8s.Proxy.Api.Authentic.{Grants, claimed}
use cloudlab_k8s.Proxy.Api.Control.{authz_control, decide_control}
use cloudlab_k8s.Proxy.Api.Handler.{
  Body, plain, pid_message, get_url, new_handler, new_handler_unwrapped, after_auth, after_pre,
  send_encoded, after_reply,
}
use cloudlab_k8s.Proxy.Api.Hooks.{
  finish_pre, pre_instance_call_handler, post_instance_creation_handler, create_instance,
}
use cloudlab_k8s.Proxy.Api.Hooks.Outcomes.{created}
use cloudlab_k8s.Proxy.Api.Routes.{to_create_instance, handler}
use cloudlab_k8s.Proxy.Api.Steps.{
  IsOrderly, Reachable, started, stepped, request_step, start_proxy, new_caches,
}
use cloudlab_k8s.Proxy.Api.Steps.Kept.{IsServing}
use cloudlab_k8s.Proxy.Api.Steps.Served.{Reachable-IsServing, Reachable-Grants}
use cloudlab_k8s.Tests.Proxy.{two_hosts, homes, backend, backend-IsHonest, worker_id, worker_id_lem}
use cloudlab_k8s.Tests.Api.{safe_server}
use cloudlab_k8s.Tests.Config.{first_cache, claim, http}

abbrev creation : HttpRequest
creation = record {
  method = "POST";
  remote_addr = "10.0.0.2:80";
  uri = "/postInstance";
  body = some (record {
    principal = iaas_provider;
    parent_bear = "";
    other_values = "worker" ∷ "image" ∷ "10.0.0.1:100-200" ∷ [];
    auth = "";
  });
}

abbrev begin : MetadataProxy (List PrincipalIndex) Unit ℕ
begin = start_proxy 1 tt 0

creation_granted :
    (mr : MetadataRequest) × (new_auth two_hosts list_tree backend first_cache creation true begin
      ≡ some (authenticated mr, begin))
unfolding new_auth auth_decoded get_cache start_proxy new_caches
creation_granted = (_, refl)

creation_passed :
    (mr : MetadataRequest) × (pre_instance_call_handler two_hosts list_tree backend
        creation_granted.0 begin
      ≡ some ((mr, plain "", status_ok), begin))
    × (get_elem? mr.other_values 0 ≡ some "worker")
    × IsAtHome two_hosts homes (created mr "worker")
unfolding pre_instance_call_handler finish_pre authz_control decide_control parse_ip_new parse_ip3
    find_string_submatch parse_int32 creation_granted
creation_passed = (_, refl, refl, record { homed = refl; numbered = (worker_id, worker_id_lem) })

same_auth :
    {S : Type 0} {mr mr' : MetadataRequest} {c d : S}
    → Path (Option (Auth × S)) (some (authenticated mr, c)) (some (authenticated mr', d))
    → (mr ≡ mr') × (c ≡ d)
same_auth e = (cc, cc)

same_pass :
    {S : Type 0} {mr mr' : MetadataRequest} {b b' : Body} {c d : S} {i : ℕ}
    → Path
        (Option ((MetadataRequest × Body × ℕ) × S))
        (some ((mr, b, i), c))
        (some ((mr', b', i), d))
    → mr ≡ mr'
same_pass e = cc

creation-IsOrderly :
    IsOrderly safe_server "safe" two_hosts list_tree backend first_cache homes to_create_instance
      creation begin
creation-IsOrderly mr mr' msg d e a p =
    let granted : (creation_granted.0 ≡ mr) × (begin ≡ d) =
      same_auth (sym creation_granted.1 ∙ a) in
    let (passed, p0, named, at_home) = creation_passed in
    let same : passed ≡ mr' = same_pass (sym p0 ∙ rw (← granted.0, ← granted.1) at p) in
    rw (← same) (λ pid q. rw (← some-eq (sym named ∙ q)) at_home)

creation_done :
    (c : MetadataProxy (List PrincipalIndex) Unit ℕ) × (create_instance two_hosts list_tree backend
        safe_server "safe" first_cache creation begin
      ≡ some ((pid_message "worker", status_ok), c))
unfolding create_instance new_handler_unwrapped new_auth auth_decoded get_cache after_auth
    new_handler pre_instance_call_handler finish_pre authz_control decide_control parse_ip_new
    parse_ip3 find_string_submatch parse_int32 after_pre send_encoded get_url after_reply
    post_instance_creation_handler put_instance put_cached_instance create_principal_pp compute_id
    insert lookup start_proxy new_caches
creation_done = (_, refl)

with_worker :
    Reachable safe_server "safe" two_hosts list_tree backend first_cache homes 1 creation_done.0
with_worker = stepped begin creation_done.0 (started tt 0) (
    request_step to_create_instance
      (create_instance two_hosts list_tree backend safe_server "safe" first_cache) creation
      (pid_message "worker", status_ok) begin creation_done.0 (unfold handler in refl)
      creation-IsOrderly creation_done.1)

Reachable-IsServing_example : IsServing two_hosts list_holds homes 1 creation_done.0
Reachable-IsServing_example =
    Reachable-IsServing safe_server "safe" two_hosts list_tree backend first_cache list_holds
      list_tree-IsIntTree homes backend-IsHonest 1 creation_done.0 with_worker

Reachable-Grants_example :
    Returns
      (λ a c'.
        Grants two_hosts homes (claimed (http "worker") (claim "worker")) a
        × AllHomed two_hosts list_holds homes c'.pmaps)
      (new_auth two_hosts list_tree backend first_cache (http "worker") true creation_done.0)
Reachable-Grants_example =
    Reachable-Grants safe_server "safe" two_hosts list_tree backend first_cache list_holds
      list_tree-IsIntTree homes backend-IsHonest 1 creation_done.0 (http "worker") (claim "worker")
      with_worker (omega arith) refl
