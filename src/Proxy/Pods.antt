-- ===== src/Proxy/Pods.antt =====
-- proxy/pod.go: the pods by address. Requests come as what the JSON decoder or the router made of
-- them.
use cloudlab_k8s.Prelude.{
  ℕ, ◌≡◌, ◌≢◌, ◌⊎◌, not, ◌||◌, Option, none, some, arith, String, string_key, ◌==◌, Map, lookup,
  insert, lookup-insert, nat_beq, if◌then◌else◌,
}
use text.Mathlib.TextEquality.{eq_iff}
use cloudlab_k8s.Proxy.Types.{Pod, status_ok, bad_request, not_found}
use cloudlab_k8s.Proxy.Address.{parse_ip2}

pub record PodRequest : Type 0 where
  pub uuid : String
  pub tag : String
  pub addr : String

-- A pod's two lines with OK, or an error's status.
pub data PodResponse : Type 0 where
  empty_body : PodResponse
  pod_lines : String → String → PodResponse
  refused : ℕ → PodResponse

-- `none`: ParsePodRequest failed.
unfoldable pub post_pod_new : Map String Pod → Option PodRequest → Map String Pod × PodResponse
post_pod_new pods none = (pods, refused bad_request)
post_pod_new pods (some pod_req) =
    (insert pod_req.addr (record { uuid = pod_req.uuid; tag = pod_req.tag }) pods, empty_body)

unfoldable pub auth_pod_inner : Map String Pod → String → Option Pod
auth_pod_inner pods addr = lookup addr pods

abbrev pub pod_or : PodResponse → Option Pod → PodResponse
pod_or r none = r
pod_or r (some pod) = pod_lines pod.uuid pod.tag

unfoldable pub auth_pod_new : Map String Pod → String → PodResponse
auth_pod_new pods saddr =
    let (addr, port, none_port, status) = parse_ip2 saddr in
    let second =
      if not (nat_beq status status_ok) || addr == ""
      then refused bad_request
      else pod_or (refused not_found) (auth_pod_inner pods addr) in
    pod_or second (auth_pod_inner pods saddr)

-- After a pod is posted for an address, authPod of that address answers with the pod; so it does
-- for what ParseIP2 reads as that address with a port, where no pod has the two together and the
-- address is not empty.
pub auth_pod-post_pod :
    (pods : Map String Pod) (r : PodRequest) (saddr : String)
    → (saddr ≡ r.addr)
      ⊎ ((lookup saddr pods ≡ none)
          × ((parse_ip2 saddr).0 ≡ r.addr)
          × ((parse_ip2 saddr).3 ≡ status_ok)
          × (r.addr ≢ ""))
    → auth_pod_new (post_pod_new pods (some r)).0 saddr ≡ pod_lines r.uuid r.tag
unfolding auth_pod_new post_pod_new auth_pod_inner
auth_pod-post_pod pods r saddr h = ground (
  arith,
  lookup-insert r.addr saddr (record { uuid = r.uuid; tag = r.tag }) pods,
  lookup-insert r.addr (parse_ip2 saddr).0 (record { uuid = r.uuid; tag = r.tag }) pods,
  eq_iff r.addr saddr,
  eq_iff r.addr (parse_ip2 saddr).0,
  eq_iff (parse_ip2 saddr).0 "",
)
