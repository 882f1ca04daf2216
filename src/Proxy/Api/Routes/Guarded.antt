-- ===== src/Proxy/Api/Routes/Guarded.antt =====
-- Which routes are closed to a principal that does not authenticate.
use text.Mathlib.Text.{starts_with}
use cloudlab_k8s.Prelude.{
  ℕ, ◌≡◌, refl, sym, ap, ◌∙◌, inl, inr, Bool, true, not, ◌&&◌, ◌||◌, Option, some, List, [], ◌∷◌,
  String, arith,
}
use cloudlab_k8s.Proxy.Types.{Net}
use cloudlab_k8s.Proxy.Run.{Run, bind_some}
use cloudlab_k8s.Proxy.Pmap.{IntTree, In}
use cloudlab_k8s.Proxy.Cache.{RiakConn}
use cloudlab_k8s.Proxy.Api.{MetadataProxy, HttpRequest, refused, new_auth}
use cloudlab_k8s.Proxy.Api.Handler.{
  Body, plain, Safe, PreHook, PostHook, after_auth, new_handler_unwrapped,
}
use cloudlab_k8s.Proxy.Api.Hooks.{
  create_instance, create_instance_legacy, create_vm_instance, delete_instance, delete_vm_instance,
  lazy_delete_instance,
}
use cloudlab_k8s.Proxy.Api.Config.{
  create_self_config, create_instance_config, create_instance_kv_config,
}
use cloudlab_k8s.Proxy.Api.Links.{create_membership, handle_other}
use cloudlab_k8s.Proxy.Api.Routes.{
  Route, setup_new_apis, authenticates, handler, to_create_instance, to_create_instance_legacy,
  to_create_vm_instance, to_delete_instance, to_delete_vm_instance, to_lazy_delete_instance,
  to_create_instance_config, to_create_instance_kv_config, to_create_self_config,
  to_create_membership, to_handle_other, to_create_endorsement_link, to_create_endorsement,
  to_handle_check_instance, to_handle_other_no_auth, to_post_pod_new, to_auth_pod_new,
  to_authenticate_addr,
}

-- The paths under which something is deleted, or an instance, a membership, a cluster or a
-- configuration is posted.
abbrev pub is_guarded : String → Bool
is_guarded path =
    starts_with path "/del"
    || starts_with path "/retract"
    || starts_with path "/lazyDelete"
    || starts_with path "/postInstance"
    || starts_with path "/postVMInstance"
    || starts_with path "/postSelfConfig"
    || starts_with path "/postVpcConfig"
    || starts_with path "/postCluster"
    || starts_with path "/postMembership"
    || starts_with path "/postAckMembership"

abbrev all_authenticate : List (String × Route) → Bool
all_authenticate [] = true
all_authenticate ((path, route) ∷ routes) =
    (not (is_guarded path) || authenticates route) && all_authenticate routes

setup-all_authenticate : all_authenticate setup_new_apis ≡ true
setup-all_authenticate = refl

implied : (g a rest : Bool) → ((not g || a) && rest) ≡ true → (g ≡ true → a ≡ true) × (rest ≡ true)
implied g a rest h = ((λ k. ground arith), ground arith)

route_authenticates :
    (routes : List (String × Route)) (path : String) (route : Route)
    → all_authenticate routes ≡ true
    → In (path, route) routes
    → is_guarded path ≡ true
    → authenticates route ≡ true
route_authenticates [] path route a i g = absurd i
route_authenticates ((p, r) ∷ routes) path route a (inl e) g =
    ap (λ x. authenticates x.1) e
    ∙ (implied (is_guarded p) (authenticates r) (all_authenticate routes) a).0
        (sym (ap (λ x. is_guarded x.0) e) ∙ g)
route_authenticates ((p, r) ∷ routes) path route a (inr i) g =
    route_authenticates routes path route
      (implied (is_guarded p) (authenticates r) (all_authenticate routes) a).1 i g

module _ {Tree R W : Type 0} (safe : Safe W) (addr : String) (net : Net) (ops : IntTree Tree)
    (riak : RiakConn R) (hash : String → ℕ) where
  unwrapped_refused :
      (r : HttpRequest) (pre : Option (PreHook (MetadataProxy Tree R W)))
      (post : Option (PostHook (MetadataProxy Tree R W))) (status : ℕ)
      (c c' : MetadataProxy Tree R W)
      → new_auth net ops riak hash r true c ≡ some (refused status, c')
      → new_handler_unwrapped safe addr net ops riak hash r pre post true c
        ≡ some ((plain "can not authenticate request", status), c')
  unfolding new_handler_unwrapped after_auth
  unwrapped_refused r pre post status c c' e =
      bind_some (new_auth net ops riak hash r true)
        (after_auth safe addr net ops riak hash pre post) c c' (refused status) e

  -- The reply of the route to a request, if the route has a handler that passes it on.
  abbrev pub RefusedBy :
      Route → HttpRequest → ℕ → MetadataProxy Tree R W → MetadataProxy Tree R W → Type 0
  RefusedBy route r status c c' =
      (h : HttpRequest → Run (MetadataProxy Tree R W) (Body × ℕ)) × (handler safe addr net ops riak
          hash route
        ≡ some h)
      × (h r c ≡ some ((plain "can not authenticate request", status), c'))

  refused_by :
      (route : Route) (r : HttpRequest) (status : ℕ) (c c' : MetadataProxy Tree R W)
      → authenticates route ≡ true
      → new_auth net ops riak hash r true c ≡ some (refused status, c')
      → RefusedBy route r status c c'
  unfolding handler create_instance create_instance_legacy create_vm_instance delete_instance
      delete_vm_instance lazy_delete_instance create_instance_config create_instance_kv_config
      create_self_config create_membership handle_other
  refused_by to_create_instance r status c c' a e = (_, refl, unwrapped_refused r _ _ status c c' e)
  refused_by to_create_instance_legacy r status c c' a e =
      (_, refl, unwrapped_refused r _ _ status c c' e)
  refused_by to_create_vm_instance r status c c' a e =
      (_, refl, unwrapped_refused r _ _ status c c' e)
  refused_by to_delete_instance r status c c' a e = (_, refl, unwrapped_refused r _ _ status c c' e)
  refused_by to_delete_vm_instance r status c c' a e =
      (_, refl, unwrapped_refused r _ _ status c c' e)
  refused_by to_lazy_delete_instance r status c c' a e =
      (_, refl, unwrapped_refused r _ _ status c c' e)
  refused_by to_create_instance_config r status c c' a e =
      (_, refl, unwrapped_refused r _ _ status c c' e)
  refused_by to_create_instance_kv_config r status c c' a e =
      (_, refl, unwrapped_refused r _ _ status c c' e)
  refused_by to_create_self_config r status c c' a e =
      (_, refl, unwrapped_refused r _ _ status c c' e)
  refused_by to_create_membership r status c c' a e =
      (_, refl, unwrapped_refused r _ _ status c c' e)
  refused_by to_handle_other r status c c' a e = (_, refl, unwrapped_refused r _ _ status c c' e)
  refused_by to_create_endorsement_link r status c c' a e = absurd (ground arith)
  refused_by to_create_endorsement r status c c' a e = absurd (ground arith)
  refused_by to_handle_check_instance r status c c' a e = absurd (ground arith)
  refused_by to_handle_other_no_auth r status c c' a e = absurd (ground arith)
  refused_by to_post_pod_new r status c c' a e = absurd (ground arith)
  refused_by to_auth_pod_new r status c c' a e = absurd (ground arith)
  refused_by to_authenticate_addr r status c c' a e = absurd (ground arith)

  -- Every route under which something is deleted, or an instance, a membership, a cluster or a
  -- configuration is posted, refuses a request whose principal newAuth refuses: with its status,
  -- without a call of the SAFE server, and with the proxy as newAuth left it.
  pub guarded_route :
      (path : String) (route : Route) (r : HttpRequest) (status : ℕ) (c c' : MetadataProxy Tree R W)
      → In (path, route) setup_new_apis
      → is_guarded path ≡ true
      → new_auth net ops riak hash r true c ≡ some (refused status, c')
      → RefusedBy route r status c c'
  guarded_route path route r status c c' i g e =
      refused_by route r status c c'
        (route_authenticates setup_new_apis path route setup-all_authenticate i g) e
