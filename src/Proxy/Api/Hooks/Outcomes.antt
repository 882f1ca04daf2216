-- ===== src/Proxy/Api/Hooks/Outcomes.antt =====
-- What the instance handlers of proxy/newapi.go come to, from the authenticated request on.
use cloudlab_k8s.Prelude.{
  ℕ, zero, suc, ◌≡◌, ◌≢◌, refl, ◌∙◌, ap, ◌⊎◌, Bool-cases, false, Option, none, some, List, [], ◌∷◌,
  arith, String, string_key, ◌==◌, get_elem?, ltb, inl, inr, if◌then◌else◌,
}
use cloudlab_k8s.Proxy.Types.{Net, CachedInstance, status_ok, bad_request, unauthorized}
use cloudlab_k8s.Proxy.Run.{Run, pure, deref, ◌>>=◌, bind_some, bind_none}
use cloudlab_k8s.Proxy.Pmap.{IntTree, Pmap}
use cloudlab_k8s.Proxy.Cache.{RiakConn}
use cloudlab_k8s.Proxy.Address.{parse_ip_new}
use cloudlab_k8s.Proxy.Api.{MetadataRequest, MetadataProxy, iaas_provider}
use cloudlab_k8s.Proxy.Api.Control.{
  MayControl, decide_control, decide_control_iff, control_total, authz_control,
}
use cloudlab_k8s.Proxy.Api.Handler.{
  Body, plain, not_authorized, Safe, PostHook, after_pre, new_handler, new_handler-refused,
}
use cloudlab_k8s.Proxy.Api.Hooks.{
  finish_pre, pre_instance_call_handler, pre_legacy_instance_call_handler,
}

-- The request with the target that was parsed.
abbrev pub targeted : Net → MetadataRequest → String → MetadataRequest
targeted net mr target =
    let (ip, lport, rport, ok) = parse_ip_new net target in
    record mr { target_ip = ip; target_lport = lport; target_rport = rport }

target_at :
    (values : List String) (i : ℕ)
    → i ≡ 0
    → get_elem? values (if ltb 0 i then i else 2) ≡ get_elem? values 2
target_at values zero z = refl
target_at values (suc i) z = absurd (omega arith)

module _ {Tree R W : Type 0} (net : Net) (ops : IntTree Tree) (riak : RiakConn R) where
  control_parsed :
      (mr : MetadataRequest) (target : String) (c : MetadataProxy Tree R W) (status : ℕ)
      → (parse_ip_new net target).3 ≡ status_ok
      → decide_control net (targeted net mr target) ≡ some status
      → authz_control net ops riak mr target false c ≡ some ((targeted net mr target, status), c)
  unfolding authz_control
  control_parsed mr target c status p d = ground arith

  pre_instance_refused :
      (mr : MetadataRequest) (target : String) (c : MetadataProxy Tree R W)
      → mr.target_addr_index ≡ 0
      → get_elem? mr.other_values 2 ≡ some target
      → (parse_ip_new net target).3 ≡ status_ok
      → decide_control net (targeted net mr target) ≡ some unauthorized
      → pre_instance_call_handler net ops riak mr c
        ≡ some ((targeted net mr target, not_authorized (targeted net mr target), unauthorized), c)
  unfolding pre_instance_call_handler
  pre_instance_refused mr target c z g p d =
      ap
        (λ o.
          (deref o >>= λ t. authz_control net ops riak mr t false >>= finish_pre net ops riak) c)
        (target_at mr.other_values mr.target_addr_index z ∙ g)
      ∙ bind_some (authz_control net ops riak mr target false) (finish_pre net ops riak) c c
          (targeted net mr target, unauthorized) (control_parsed mr target c unauthorized p d)
      ∙ (unfold finish_pre in refl)

  -- A request with an instance whose third value is a target that parses and that it may not control:
  -- the reply is Unauthorized, the SAFE server is not called, and the proxy is as it was. So it is
  -- with whatever second hook, for creation and deletion alike. (No index of the target is set.)
  pub unauthorized_target :
      (safe : Safe W) (addr : String) (mr : MetadataRequest) (target : String)
      (post : Option (PostHook (MetadataProxy Tree R W))) (c : MetadataProxy Tree R W)
      → mr.target_addr_index ≡ 0
      → get_elem? mr.other_values 2 ≡ some target
      → (parse_ip_new net target).3 ≡ status_ok
      → mr.inst ≢ none
      → ¬ MayControl net (targeted net mr target)
      → new_handler safe addr mr (some (pre_instance_call_handler net ops riak)) post c
        ≡ some ((not_authorized (targeted net mr target), unauthorized), c)
  unauthorized_target safe addr mr target post c z g p i n =
      new_handler-refused safe addr mr (targeted net mr target)
        (pre_instance_call_handler net ops riak) post c c (not_authorized (targeted net mr target))
        unauthorized (pre_instance_refused mr target c z g p denied) (λ e. absurd (omega arith))
    where
      denied : decide_control net (targeted net mr target) ≡ some unauthorized
      denied = elim (control_total net (targeted net mr target) i) [
        | inl yes_ok ↦ absurd (n ((decide_control_iff net (targeted net mr target)).0 yes_ok))
        | inr e ↦ e
      ]

  pre_instance_short :
      (mr : MetadataRequest) (c : MetadataProxy Tree R W)
      → mr.target_addr_index ≡ 0
      → get_elem? mr.other_values 2 ≡ none
      → pre_instance_call_handler net ops riak mr c ≡ none
  unfolding pre_instance_call_handler
  pre_instance_short mr c z g =
      ap
        (λ o.
          (deref o >>= λ t. authz_control net ops riak mr t false >>= finish_pre net ops riak) c)
        (target_at mr.other_values mr.target_addr_index z ∙ g)

  legacy_hook :
      (mr : MetadataRequest) (c : MetadataProxy Tree R W)
      → mr.target_addr_index ≡ 0
      → (pre_legacy_instance_call_handler net ops riak mr c ≡ none)
        ⊎ ((body : Body) × (pre_legacy_instance_call_handler net ops riak mr c
              ≡ some ((mr, body, bad_request), c)))
  unfolding pre_legacy_instance_call_handler
  legacy_hook mr c z = elim (Bool-cases (mr.principal == iaas_provider)) [
    | inl iaas ↦ inr (plain "Should not use legacy API to create VMs!", ground arith)
    | inr other ↦ inl (
        ap {B = Option ((MetadataRequest × Body × ℕ) × MetadataProxy Tree R W)}
          (λ b.
            (if b
                then pure (mr, plain "Should not use legacy API to create VMs!", bad_request)
                else shortened)
              c)
          other
        ∙ go (get_elem? mr.other_values 0) (get_elem? mr.other_values 1))
  ]
    where
      short : String → String → Run (MetadataProxy Tree R W) (MetadataRequest × Body × ℕ)
      short first second =
          pre_instance_call_handler net ops riak (record mr { other_values = first ∷ second ∷ [] })

      shortened : Run (MetadataProxy Tree R W) (MetadataRequest × Body × ℕ)
      shortened = deref (get_elem? mr.other_values 0) >>= λ first.
          deref (get_elem? mr.other_values 1) >>= λ second. short first second

      go :
          (a b : Option String)
          → (deref a >>= λ first. deref b >>= λ second. short first second) c ≡ none
      go none b = refl
      go (some first) none = refl
      go (some first) (some second) =
          pre_instance_short (record mr { other_values = first ∷ second ∷ [] }) c z refl

  -- createInstanceLegacy of an authenticated request panics or answers Bad Request; it neither
  -- calls the SAFE server nor changes the proxy. (No request that newAuth returns has an index of
  -- its target address set.)
  create_legacy_fails :
      (safe : Safe W) (addr : String) (mr : MetadataRequest)
      (post : Option (PostHook (MetadataProxy Tree R W))) (c : MetadataProxy Tree R W)
      → mr.target_addr_index ≡ 0
      → (new_handler safe addr mr (some (pre_legacy_instance_call_handler net ops riak)) post c
          ≡ none)
        ⊎ ((body : Body) × (new_handler safe addr mr
                (some (pre_legacy_instance_call_handler net ops riak))
                post
                c
              ≡ some ((body, bad_request), c)))
  unfolding new_handler
  create_legacy_fails safe addr mr post c z = elim (legacy_hook mr c z) [
    | inl panics ↦ inl (
        bind_none (pre_legacy_instance_call_handler net ops riak mr) (after_pre safe addr post) c
          panics)
    | inr (body, e) ↦ inr (
      body,
      new_handler-refused safe addr mr mr (pre_legacy_instance_call_handler net ops riak) post c c
          body bad_request e (λ k. absurd (omega arith)),
    )
  ]

-- The instance that postInstanceCreationHandler makes of a request.
abbrev pub created : MetadataRequest → String → CachedInstance
created mr pid = record {
  ip = mr.target_ip;
  lport = mr.target_lport;
  rport = mr.target_rport;
  id = record { pid = pid; ppid = mr.principal; type = mr.target_type; cidr = mr.target_cidr };
}
