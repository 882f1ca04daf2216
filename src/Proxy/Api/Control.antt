-- ===== src/Proxy/Api/Control.antt =====
-- authzControl of proxy/newapi.go: who may control which address.
pub mod Targets
use cloudlab_k8s.Prelude.{
  ℕ, ◌≡◌, ◌≢◌, ◌⊎◌, ◌↔◌, inl, inr, Bool, Bool-cases, true, false, ◌&&◌, Option, Option-cases, none,
  some, arith, String, string_key, ◌==◌, nat_beq, ◌≤ℤ◌, leb_ℤ, if◌then◌else◌,
}
use text.Mathlib.TextEquality.{eq_iff}
use cloudlab_k8s.Proxy.Types.{IpNet, Net, CachedInstance, status_ok, unauthorized, vm_instance_type}
use cloudlab_k8s.Proxy.Run.{Run, pure, ◌>>=◌}
use cloudlab_k8s.Proxy.Pmap.{IntTree}
use cloudlab_k8s.Proxy.Cache.{RiakConn, Answer, found, failed, get_instance_from_id}
use cloudlab_k8s.Proxy.Address.{parse_ip_new}
use cloudlab_k8s.Proxy.Api.{MetadataRequest, MetadataProxy, iaas_provider, on_cache}

-- The end of authzControl, behind the parsing of the target; `none` where it dereferences the
-- instance of a request that has none.
unfoldable pub decide_control : Net → MetadataRequest → Option ℕ
decide_control net mr =
    if mr.principal == iaas_provider
    then some status_ok
    else if net.ip_equal mr.ip mr.target_ip
        && leb_ℤ mr.lport mr.target_lport
        && leb_ℤ mr.target_rport mr.rport
    then some status_ok
    else elim mr.inst [
      | none ↦ none
      | some inst ↦ elim inst.id.cidr [
        | none ↦ some unauthorized
        | some alloc ↦
            if inst.id.type == vm_instance_type && net.cidr_contains alloc mr.target_ip
            then some status_ok
            else some unauthorized
      ]
    ]

abbrev pub finish_control :
    {Tree R W : Type 0} → Net → MetadataRequest → Run (MetadataProxy Tree R W) (MetadataRequest × ℕ)
finish_control net mr c = elim (decide_control net mr) [
  | none ↦ none
  | some status ↦ some ((mr, status), c)
]

-- The target of a control message found by UUID.
abbrev pub target_instance : MetadataRequest → CachedInstance → MetadataRequest
target_instance mr inst = record mr {
  target_ip = inst.ip;
  target_lport = inst.lport;
  target_rport = inst.rport;
}

abbrev pub after_target :
    {Tree R W : Type 0}
    → Net
    → MetadataRequest
    → Answer
    → Run (MetadataProxy Tree R W) (MetadataRequest × ℕ)
after_target net mr (failed status) = pure (mr, status)
after_target net mr (found inst) = finish_control net (target_instance mr inst)

module _ {Tree R W : Type 0} (net : Net) (ops : IntTree Tree) (riak : RiakConn R) where
  -- The request with its target fields, and the status.
  unfoldable pub authz_control :
      MetadataRequest → String → Bool → Run (MetadataProxy Tree R W) (MetadataRequest × ℕ)
  authz_control mr target_addr allow_uuid =
      let (ip, lport, rport, ok) = parse_ip_new net target_addr in
      let mr1 = record mr { target_ip = ip; target_lport = lport; target_rport = rport } in
      if nat_beq ok status_ok
      then finish_control net mr1
      else if allow_uuid
      then (do
        answer ← on_cache mr1.cache (get_instance_from_id net ops riak target_addr)
        after_target net mr1 answer)
      else pure (mr1, ok)

-- The rule for the target fields as they were parsed: the IaaS provider controls everything, an
-- instance what has its own IP, a left port not below its own and a right port not above its own, and
-- a VM the IPs of its allocation. The right port of a target with one port is -1.
abbrev pub MayControl : Net → MetadataRequest → Type 0
MayControl net mr =
    (mr.principal ≡ iaas_provider)
    ⊎ ((net.ip_equal mr.ip mr.target_ip ≡ true)
        × (mr.lport ≤ℤ mr.target_lport)
        × (mr.target_rport ≤ℤ mr.rport))
    ⊎ ((inst : CachedInstance) × (mr.inst ≡ some inst)
        × (inst.id.type ≡ vm_instance_type)
        × ((alloc : IpNet) × (inst.id.cidr ≡ some alloc)
            × (net.cidr_contains alloc mr.target_ip ≡ true)))

abbrev own_range : Net → MetadataRequest → Bool
own_range net mr =
    net.ip_equal mr.ip mr.target_ip
    && leb_ℤ mr.lport mr.target_lport
    && leb_ℤ mr.target_rport mr.rport

allocated :
    (net : Net) (mr : MetadataRequest)
    → (mr.principal == iaas_provider) ≡ false
    → own_range net mr ≡ false
    → decide_control net mr ≡ some status_ok
    → (inst : CachedInstance) × (mr.inst ≡ some inst)
      × (inst.id.type ≡ vm_instance_type)
      × ((alloc : IpNet) × (inst.id.cidr ≡ some alloc)
          × (net.cidr_contains alloc mr.target_ip ≡ true))
unfolding decide_control
allocated net mr p q h = elim (Option-cases mr.inst) [
  | inl none_there ↦ ground arith
  | inr (inst, has) ↦ elim (Option-cases inst.id.cidr) [
    | inl no_cidr ↦ ground arith
    | inr (alloc, cidr_eq) ↦ (
      inst,
      has,
      (ground (arith, eq_iff inst.id.type vm_instance_type)),
      (alloc, cidr_eq, ground arith),
    )
  ]
]

control_complete :
    (net : Net) (mr : MetadataRequest) → MayControl net mr → decide_control net mr ≡ some status_ok
unfolding decide_control
control_complete net mr (inl e) = ground (arith, eq_iff mr.principal iaas_provider)
control_complete net mr (inr (inl (e, l, r))) = ground arith
control_complete net mr (inr (inr (inst, has, vm, (alloc, cidr_eq, c)))) =
    ground (arith, eq_iff inst.id.type vm_instance_type)

-- The decision of a request that has an instance is one of OK and Unauthorized.
pub control_total :
    (net : Net) (mr : MetadataRequest)
    → mr.inst ≢ none
    → (decide_control net mr ≡ some status_ok) ⊎ (decide_control net mr ≡ some unauthorized)
unfolding decide_control
control_total net mr h = ground arith

control_sound :
    (net : Net) (mr : MetadataRequest) → decide_control net mr ≡ some status_ok → MayControl net mr
control_sound net mr h = elim (Bool-cases (mr.principal == iaas_provider)) [
  | inl iaas ↦ inl ((eq_iff mr.principal iaas_provider).0 iaas)
  | inr other ↦ elim (Bool-cases (own_range net mr)) [
    | inl own ↦ inr (inl (ground arith))
    | inr outside ↦ inr (inr (allocated net mr other outside h))
  ]
]

-- The decision is OK exactly for those that the rule allows to control the target fields.
pub decide_control_iff :
    (net : Net) (mr : MetadataRequest)
    → (decide_control net mr ≡ some status_ok) ↔ MayControl net mr
decide_control_iff net mr = (control_sound net mr, control_complete net mr)
