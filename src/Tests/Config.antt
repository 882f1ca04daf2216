-- ===== src/Tests/Config.antt =====
-- The theorems on authentication, configuration and routes for a host and the worker on it.
use cloudlab_k8s.Prelude.{
  ℕ, ◌≡◌, refl, inl, inr, true, some, List, [], ◌∷◌, String, string_key, ◌==◌, lookup, pos,
  if◌then◌else◌, arith,
}
use cloudlab_k8s.Proxy.Types.{unauthorized}
use cloudlab_k8s.Proxy.Run.{pure, ◌>>=◌, Returns}
use cloudlab_k8s.Proxy.Pmap.{PrincipalIndex, get_cached_instance}
use cloudlab_k8s.Proxy.Pmap.ListTree.{list_tree, list_holds, list_tree-IsIntTree}
use cloudlab_k8s.Proxy.Pmap.Homes.{new-IsHomed}
use cloudlab_k8s.Proxy.Cache.{found, get_instance_from_id, cached_or_loaded}
use cloudlab_k8s.Proxy.Cache.Complete.{Finds, get_instance_from_net_map-Finds}
use cloudlab_k8s.Proxy.Address.Regexp.{find_string_submatch}
use cloudlab_k8s.Proxy.Address.Decimal.{parse_int32}
use cloudlab_k8s.Proxy.Address.{parse_ip2, parse_ip3, parse_ip_new}
use cloudlab_k8s.Proxy.Api.{
  Decoded, HttpRequest, MetadataRequest, MetadataProxy, refused, get_cache, authenticate,
  auth_decoded, after_authenticate, new_auth,
}
use cloudlab_k8s.Proxy.Api.Caches.{AllHomed}
use cloudlab_k8s.Proxy.Api.Authentic.{Grants, claimed, new_auth-Grants}
use cloudlab_k8s.Proxy.Api.Config.{pre_self_config, pre_instance_config}
use cloudlab_k8s.Proxy.Api.Config.Rounds.{
  IsSplit, post_each, config_end, self_request, pre_self_config-rounds,
}
use cloudlab_k8s.Proxy.Api.Config.Tens.{ten_requests}
use cloudlab_k8s.Proxy.Api.Config.Hosts.{identified, not_host, pre_instance_config-rounds}
use cloudlab_k8s.Proxy.Api.Routes.{to_delete_instance}
use cloudlab_k8s.Proxy.Api.Routes.Guarded.{RefusedBy, guarded_route}
use cloudlab_k8s.Tests.Proxy.{
  host_a, two_hosts, worker, homes, backend, backend-IsHonest, worker_pmap, worker_pmap-IsHomed,
  empty_cache,
}
use cloudlab_k8s.Tests.Api.{safe_server, request}

-- One cache, which has the worker.
abbrev one_cache : MetadataProxy (List PrincipalIndex) Unit ℕ
one_cache = record { pmaps = worker_pmap ∷ []; conn = tt; pods = []; safe = 0 }

abbrev pub first_cache : String → ℕ
first_cache auth = 0

get_instance_from_net_map-Finds_example :
    Finds two_hosts list_tree backend list_holds list_tree-IsIntTree homes host_a
      (pos 150)
      empty_cache
get_instance_from_net_map-Finds_example =
    get_instance_from_net_map-Finds two_hosts list_tree backend list_holds list_tree-IsIntTree homes
      empty_cache host_a (pos 150) (worker ∷ []) worker backend-IsHonest
      (new-IsHomed two_hosts list_holds homes) refl ((100, 201, refl, refl, omega arith), tt)
      (inl refl) (refl, omega arith, omega arith)

-- A request that claims a principal.
abbrev pub claim : String → Decoded
claim principal = record { principal = principal; parent_bear = ""; other_values = []; auth = "" }

abbrev pub http : String → HttpRequest
http principal = record {
  method = "POST";
  remote_addr = "10.0.0.1:80";
  uri = "/delInstance";
  body = some (claim principal);
}

new_auth-Grants_example :
    Returns
      (λ a c'.
        Grants two_hosts homes (claimed (http "worker") (claim "worker")) a
        × AllHomed two_hosts list_holds homes c'.pmaps)
      (new_auth two_hosts list_tree backend first_cache (http "worker") true one_cache)
new_auth-Grants_example =
    new_auth-Grants two_hosts list_tree backend first_cache list_holds list_tree-IsIntTree homes
      (http "worker") (claim "worker") one_cache refl backend-IsHonest (worker_pmap-IsHomed, tt)
      (omega arith)

abbrev twelve : MetadataRequest
twelve = record request {
  other_values = "1" ∷ "2" ∷ "3" ∷ "4" ∷ "5" ∷ "6" ∷ "7" ∷ "8" ∷ "9" ∷ "10" ∷ "11" ∷ "12" ∷ [];
}

pre_self_config-rounds_example :
    (pre_self_config safe_server "safe" twelve one_cache
      ≡ (post_each safe_server "safe"
              (ten_requests (self_request twelve) twelve.principal twelve.other_values)
            >>= λ stop. pure (
                config_end
                  (self_request twelve)
                  twelve.principal
                  twelve.other_values
                  "/postInstanceConfig"
                  stop))
          one_cache)
    × IsSplit twelve.other_values
pre_self_config-rounds_example = pre_self_config-rounds safe_server "safe" twelve one_cache

-- The host of the worker configures it.
abbrev configured : MetadataRequest
configured = record request { principal = "vm"; other_values = "worker" ∷ "conf" ∷ "k" ∷ "v" ∷ [] }

worker_known :
    authenticate two_hosts list_tree backend first_cache configured "worker" one_cache
    ≡ some (found worker, one_cache)
unfolding authenticate parse_ip_new parse_ip3 find_string_submatch parse_int32 parse_ip2
    get_instance_from_id cached_or_loaded get_cached_instance lookup
worker_known = refl

pre_instance_config-rounds_example :
    pre_instance_config safe_server "safe" two_hosts list_tree backend first_cache configured
      one_cache
    ≡ (if configured.principal == worker.id.ppid
        then (post_each safe_server "safe" (
                ten_requests (identified configured worker) worker.id.pid ("conf" ∷ "k" ∷ "v" ∷ []))
              >>= λ stop. pure (
                  config_end
                    (identified configured worker)
                    worker.id.pid
                    ("conf" ∷ "k" ∷ "v" ∷ [])
                    configured.url
                    stop))
            one_cache
        else some (not_host configured worker, one_cache))
pre_instance_config-rounds_example =
    pre_instance_config-rounds safe_server "safe" two_hosts list_tree backend first_cache configured
      "worker" ("conf" ∷ "k" ∷ "v" ∷ []) worker one_cache one_cache refl worker_known

abbrev one_pair : List String
one_pair = "[\\\"k\\\", \\\"v\\\"]" ∷ []

-- A principal with the prefix of those that do not authenticate.
stranger_refused :
    new_auth two_hosts list_tree backend first_cache (http "noauth_x") true one_cache
    ≡ some (refused unauthorized, one_cache)
unfolding new_auth auth_decoded get_cache authenticate after_authenticate
stranger_refused = refl

guarded_route_example :
    RefusedBy safe_server "safe" two_hosts list_tree backend first_cache to_delete_instance
      (http "noauth_x")
      unauthorized
      one_cache
      one_cache
guarded_route_example =
    guarded_route safe_server "safe" two_hosts list_tree backend first_cache "/delInstance"
      to_delete_instance (http "noauth_x") unauthorized one_cache one_cache
      (inr (inr (inr (inr (inl refl))))) refl stranger_refused
