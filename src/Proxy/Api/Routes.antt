-- ===== src/Proxy/Api/Routes.antt =====
-- SetupNewAPIs of proxy/newapi.go: the routes in the order of their registration. The server that
-- dispatches on them is third-party.
pub mod Guarded
use cloudlab_k8s.Prelude.{
  ℕ, ◌≡◌, refl, ◌∙◌, ◌⊎◌, inl, inr, Bool, true, false, ◌||◌, Option, none, some, List, [], ◌∷◌,
  ◌++◌, map, String, arith,
}
use cloudlab_k8s.Proxy.Types.{Net}
use cloudlab_k8s.Proxy.Run.{Run, ◌>>=◌, bind_some}
use cloudlab_k8s.Proxy.Pmap.{IntTree, In}
use cloudlab_k8s.Proxy.Cache.{RiakConn}
use cloudlab_k8s.Proxy.Api.{MetadataRequest, MetadataProxy, HttpRequest, Auth, refused, new_auth}
use cloudlab_k8s.Proxy.Api.Handler.{Body, plain, Safe, after_auth, new_handler_unwrapped}
use cloudlab_k8s.Proxy.Api.Hooks.{
  create_instance, create_instance_legacy, create_vm_instance, delete_instance, delete_vm_instance,
  lazy_delete_instance,
}
use cloudlab_k8s.Proxy.Api.Config.{
  create_self_config, create_instance_config, create_instance_kv_config,
}
use cloudlab_k8s.Proxy.Api.Links.{
  create_endorsement_link, create_endorsement, create_membership, handle_check_instance,
  handle_other, handle_other_no_auth,
}

-- The method of MetadataProxy that a route calls.
pub data Route : Type 0 where
  to_create_instance : Route
  to_create_instance_legacy : Route
  to_delete_instance : Route
  to_create_vm_instance : Route
  to_delete_vm_instance : Route
  to_lazy_delete_instance : Route
  to_create_instance_config : Route
  to_create_instance_kv_config : Route
  to_create_self_config : Route
  to_create_membership : Route
  to_create_endorsement_link : Route
  to_create_endorsement : Route
  to_handle_check_instance : Route
  to_handle_other : Route
  to_handle_other_no_auth : Route
  to_post_pod_new : Route
  to_auth_pod_new : Route
  to_authenticate_addr : Route

abbrev pub other_methods : List String
other_methods =
    "/postCluster" ∷ "/delAckMembership" ∷ "/delCluster" ∷ "/delConditionalEndorsement"
    ∷ "/delEndorsement" ∷ "/delInstanceAuthID" ∷ "/delInstanceAuthKey" ∷ "/delInstanceCidrConfig"
    ∷ "/delInstanceConfig1" ∷ "/delInstanceConfig2" ∷ "/delInstanceConfig3" ∷ "/delInstanceConfig4"
    ∷ "/delInstanceConfig5" ∷ "/delInstanceControl" ∷ "/delLinkImageOwner" ∷ "/delMembership"
    ∷ "/delParameterizedConnection" ∷ "/delParameterizedEndorsement" ∷ "/delVpcConfig1"
    ∷ "/delVpcConfig2" ∷ "/delVpcConfig3" ∷ "/delVpcConfig4" ∷ "/delVpcConfig5"
    ∷ "/postConditionalEndorsement" ∷ "/postInstanceConfigList" ∷ "/postInstanceConfig1"
    ∷ "/postInstanceConfig2" ∷ "/postInstanceConfig3" ∷ "/postInstanceConfig4"
    ∷ "/postInstanceConfig5" ∷ "/postParameterizedConnection" ∷ "/postParameterizedEndorsement"
    ∷ "/postVpcConfig1" ∷ "/postVpcConfig2" ∷ "/postVpcConfig3" ∷ "/postVpcConfig4"
    ∷ "/postVpcConfig5" ∷ []

abbrev pub check_methods : List String
check_methods =
    "/checkClusterGuard" ∷ "/checkCodeQuality" ∷ "/checkContainerIsolation" ∷ "/checkFetch"
    ∷ "/checkAttester" ∷ "/checkBuilder" ∷ "/checkProperty" ∷ "/checkLaunches" ∷ "/checkBuildsFrom"
    ∷ "/checkEndorse" ∷ "/checkTrustedCluster" ∷ "/checkMySQLConnection" ∷ "/checkKeystoneReq"
    ∷ "/checkAllForSparkEvaluation" ∷ "/checkMaster" ∷ "/checkWorkerFromMaster"
    ∷ "/checkExecutorFromDriver" ∷ "/checkDriverFromHDFS" ∷ "/checkTrustedConnections"
    ∷ "/checkK8sHDFSAccess" ∷ "/checkSafeSpark" ∷ "/checkK8sVm" ∷ "/checkTrustedEndorser"
    ∷ "/checkEndorsed" ∷ "/checkPodAttestation" ∷ "/debugCheck1" ∷ "/debugCheck2" ∷ "/debugCheck3"
    ∷ "/debugCheck4" ∷ "/debugCheck5" ∷ "/debugCheck6" ∷ "/debugCheck7" ∷ "/debugCheck8"
    ∷ "/checkPodByPolicy" ∷ "/checkHasConfig" ∷ "/debug" ∷ []

abbrev pub noauth_methods : List String
noauth_methods =
    "/postTrustedEndorser" ∷ "/postTrustHubLink" ∷ "/postImageSpec" ∷ "/postPropertySpec"
    ∷ "/postImagePolicy" ∷ "/postProhibitedKeyPolicy" ∷ "/postRequiredKeyPolicy"
    ∷ "/postQualifierKeyPolicy" ∷ []

abbrev pub named_routes : List (String × Route)
named_routes =
    ("/postInstance", to_create_instance)
    ∷ ("/postInstanceSet", to_create_instance_legacy)
    ∷ ("/retractInstanceSet", to_delete_instance)
    ∷ ("/postVMInstance", to_create_vm_instance)
    ∷ ("/delInstance", to_delete_instance)
    ∷ ("/delVMInstance", to_delete_vm_instance)
    ∷ ("/lazyDeleteInstance", to_lazy_delete_instance)
    ∷ ("/postInstanceConfig", to_create_instance_config)
    ∷ ("/postInstanceKV", to_create_instance_kv_config)
    ∷ ("/postSelfConfig", to_create_self_config)
    ∷ ("/postAckMembership", to_create_membership)
    ∷ ("/postMembership", to_create_membership)
    ∷ ("/postEndorsementLink", to_create_endorsement_link)
    ∷ ("/postEndorsement", to_create_endorsement)
    ∷ ("/postConditionalEndorsement", to_create_endorsement)
    ∷ ("/postParameterizedEndorsement", to_create_endorsement)
    ∷ []

abbrev pub pod_routes : List (String × Route)
pod_routes =
    ("/postPod", to_post_pod_new)
    ∷ ("/authPod/{addr}", to_auth_pod_new)
    ∷ ("/authenticate/{instance_addr}", to_authenticate_addr)
    ∷ []

abbrev pub each_to : Route → List String → List (String × Route)
each_to route [] = []
each_to route (method ∷ methods) = (method, route) ∷ each_to route methods

abbrev pub setup_new_apis : List (String × Route)
setup_new_apis =
    named_routes
    ++ each_to to_handle_check_instance check_methods
    ++ each_to to_handle_other other_methods
    ++ each_to to_handle_other_no_auth noauth_methods
    ++ pod_routes

-- Does the route refuse a request whose principal it cannot authenticate?
abbrev pub authenticates : Route → Bool
authenticates to_create_instance = true
authenticates to_create_instance_legacy = true
authenticates to_delete_instance = true
authenticates to_create_vm_instance = true
authenticates to_delete_vm_instance = true
authenticates to_lazy_delete_instance = true
authenticates to_create_instance_config = true
authenticates to_create_instance_kv_config = true
authenticates to_create_self_config = true
authenticates to_create_membership = true
authenticates to_create_endorsement_link = false
authenticates to_create_endorsement = false
authenticates to_handle_check_instance = false
authenticates to_handle_other = true
authenticates to_handle_other_no_auth = false
authenticates to_post_pod_new = false
authenticates to_auth_pod_new = false
authenticates to_authenticate_addr = false

module _ {Tree R W : Type 0} (safe : Safe W) (addr : String) (net : Net) (ops : IntTree Tree)
    (riak : RiakConn R) (hash : String → ℕ) where
  -- The handler of a route that passes requests on to the SAFE server; `none` for the pods' routes
  -- and authenticateAddr, which do not.
  unfoldable pub handler : Route → Option (HttpRequest → Run (MetadataProxy Tree R W) (Body × ℕ))
  handler to_create_instance = some (create_instance net ops riak safe addr hash)
  handler to_create_instance_legacy = some (create_instance_legacy net ops riak safe addr hash)
  handler to_delete_instance = some (delete_instance net ops riak safe addr hash)
  handler to_create_vm_instance = some (create_vm_instance net ops riak safe addr hash)
  handler to_delete_vm_instance = some (delete_vm_instance net ops riak safe addr hash)
  handler to_lazy_delete_instance = some (lazy_delete_instance net ops riak safe addr hash)
  handler to_create_instance_config = some (create_instance_config safe addr net ops riak hash)
  handler to_create_instance_kv_config =
      some (create_instance_kv_config safe addr net ops riak hash)
  handler to_create_self_config = some (create_self_config safe addr net ops riak hash)
  handler to_create_membership = some (create_membership safe addr net ops riak hash)
  handler to_create_endorsement_link = some (create_endorsement_link safe addr net ops riak hash)
  handler to_create_endorsement = some (create_endorsement safe addr net ops riak hash)
  handler to_handle_check_instance = some (handle_check_instance safe addr net ops riak hash)
  handler to_handle_other = some (handle_other safe addr net ops riak hash)
  handler to_handle_other_no_auth = some (handle_other_no_auth safe addr net ops riak hash)
  handler to_post_pod_new = none
  handler to_auth_pod_new = none
  handler to_authenticate_addr = none
