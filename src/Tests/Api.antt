-- ===== src/Tests/Api.antt =====
-- The theorems on the API for a request of the worker, for a pod and for SAFE addresses.
use cloudlab_k8s.Prelude.{
  some-eq, ℕ, suc, ◌≡◌, refl, sym, ◌∙◌, ◌≢◌, inr, true, none, some, List, [], ◌∷◌, string_key,
  lookup, pos, arith, ◌⊎◌, false,
}
use cloudlab_k8s.Proxy.Types.{status_ok, unauthorized}
use cloudlab_k8s.Proxy.Pmap.{PrincipalIndex, Pmap, new_pmap}
use cloudlab_k8s.Proxy.Pmap.ListTree.{list_tree}
use cloudlab_k8s.Proxy.Address.Regexp.{find_string_submatch, chars}
use cloudlab_k8s.Proxy.Address.Decimal.{parse_int32}
use cloudlab_k8s.Proxy.Address.{parse_ip2, parse_ip3, parse_ip_new}
use cloudlab_k8s.Proxy.Pods.{PodRequest, pod_lines, post_pod_new, auth_pod_new, auth_pod-post_pod}
use cloudlab_k8s.Proxy.Api.{MetadataRequest, MetadataProxy}
use cloudlab_k8s.Proxy.Api.Control.{MayControl, decide_control, decide_control_iff}
use cloudlab_k8s.Proxy.Fmt.{sprint_int}
use cloudlab_k8s.Proxy.Api.Control.Targets.{
  ControlsAddress, port, ports, OwnsPorts, Authorizes, authz_control-OwnsPorts,
}
use cloudlab_k8s.Tests.Address.{low-IsNumber, high-IsNumber, host_a-IsDotted}
use cloudlab_k8s.Proxy.Api.Handler.{not_authorized, answered, Safe, new_handler}
use cloudlab_k8s.Proxy.Api.Hooks.{pre_instance_call_handler}
use cloudlab_k8s.Proxy.Api.Hooks.Outcomes.{targeted, unauthorized_target}
use cloudlab_k8s.Tests.Proxy.{two_hosts, worker, backend, host_a, host_b}

abbrev pub safe_server : Safe ℕ
safe_server = record {
  encode = λ mr. some "";
  new_request = λ method url. true;
  send = λ method url body w. (answered "ok" status_ok, suc w);
}

-- The worker asks for an instance on the other host.
abbrev pub request : MetadataRequest
request = record {
  principal = "worker";
  parent_bear = "";
  other_values = "pod" ∷ "image" ∷ "10.0.0.2:100-200" ∷ [];
  auth = "";
  ip = host_a;
  lport = pos 100;
  rport = pos 200;
  target_cidr = none;
  target_ip = host_b;
  target_lport = pos 100;
  target_rport = pos 200;
  target_type = "normal";
  target_addr_index = 0;
  url = "/postInstance";
  method = "POST";
  inst = some worker;
  cache = 0;
}

abbrev proxy : MetadataProxy (List PrincipalIndex) Unit ℕ
proxy = record { pmaps = new_pmap ∷ []; conn = tt; pods = []; safe = 0 }

abbrev pod_request : PodRequest
pod_request = record { uuid = "u"; tag = "t"; addr = "10.0.0.1" }

addr_given : pod_request.addr ≢ ""
addr_given e = cc

auth_pod-post_pod_example :
    auth_pod_new (post_pod_new [] (some pod_request)).0 "10.0.0.1:80" ≡ pod_lines "u" "t"
auth_pod-post_pod_example = auth_pod-post_pod [] pod_request "10.0.0.1:80" (
    inr (
      unfold lookup in refl,
      unfold parse_ip2 find_string_submatch parse_int32 in refl,
      unfold parse_ip2 find_string_submatch parse_int32 in refl,
      addr_given,
    ))

a_worker : request.inst ≢ none
a_worker e = cc

-- The instance at 10.0.0.1 with the ports 100 to 200, and a port beyond them.
authz_control-OwnsPorts_example :
    Authorizes two_hosts list_tree backend request "10.0.0.1:5000" false proxy
      (ControlsAddress two_hosts request host_a ⊎ OwnsPorts two_hosts request host_a (port 5000))
unfolding sprint_int
authz_control-OwnsPorts_example =
    authz_control-OwnsPorts two_hosts list_tree backend request "10.0.0.1" (port 5000) host_a false
      proxy host_a-IsDotted (omega arith) refl (inr a_worker)

-- The same for a range.
its_own_range : Authorizes two_hosts list_tree backend request "10.0.0.1:100-200" false proxy (
    ControlsAddress two_hosts request host_a
    ⊎ OwnsPorts two_hosts request host_a (ports "100" "200"))
its_own_range =
    authz_control-OwnsPorts two_hosts list_tree backend request "10.0.0.1" (ports "100" "200")
      host_a false proxy host_a-IsDotted
      (low-IsNumber, high-IsNumber, (unfold chars in omega arith), (unfold chars in omega arith))
      refl (inr a_worker)

-- It is authorized for the port 5000.
beyond_its_ports :
    decide_control two_hosts (targeted two_hosts request "10.0.0.1:5000") ≡ some status_ok
unfolding decide_control parse_ip_new parse_ip3 find_string_submatch parse_int32 parse_ip2
beyond_its_ports = refl

target_parses : (parse_ip_new two_hosts "10.0.0.2:100-200").3 ≡ status_ok
unfolding parse_ip_new parse_ip3 find_string_submatch parse_int32
target_parses = refl

abbrev target : MetadataRequest
target = targeted two_hosts request "10.0.0.2:100-200"

refused_control : decide_control two_hosts target ≡ some unauthorized
unfolding decide_control parse_ip_new parse_ip3 find_string_submatch parse_int32
refused_control = refl

may_not_control : ¬ MayControl two_hosts target
may_not_control m =
    absurd
      (omega (arith, some-eq (sym refused_control ∙ (decide_control_iff two_hosts target).1 m)))

unauthorized_target_example :
    new_handler safe_server "safe" request
      (some (pre_instance_call_handler two_hosts list_tree backend))
      none
      proxy
    ≡ some ((not_authorized (targeted two_hosts request "10.0.0.2:100-200"), unauthorized), proxy)
unauthorized_target_example =
    unauthorized_target two_hosts list_tree backend safe_server "safe" request "10.0.0.2:100-200"
      none proxy refl refl target_parses (λ e. cc) may_not_control
