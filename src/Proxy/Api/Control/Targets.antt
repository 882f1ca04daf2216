-- ===== src/Proxy/Api/Control/Targets.antt =====
-- authzControl of proxy/newapi.go on the text of a target: an address with a range of ports, and an
-- address with one port.
use Prim.Native.String.{◌++◌ as ◌+++◌}
use cloudlab_k8s.Prelude.{
  ℕ, ◌^◌, ◌<◌, ◌≡◌, ◌≢◌, ◌⊎◌, ◌↔◌, inl, inr, refl, sym, ap, ◌∙◌, Bool, true, none, some, some-eq,
  String, ℤ, pos, ◌≤ℤ◌, arith,
}
use text.Mathlib.TextEquality.{eq_iff}
use cloudlab_k8s.Proxy.Types.{
  Ip, IpNet, Net, CachedInstance, nil_ip, status_ok, bad_request, unauthorized, vm_instance_type,
}
use cloudlab_k8s.Proxy.Pmap.{IntTree}
use cloudlab_k8s.Proxy.Cache.{RiakConn}
use cloudlab_k8s.Proxy.Address.{Parsed, minus_one, parse_ip_new}
use cloudlab_k8s.Proxy.Address.Dotted.{IsDotted, IsNumber, number}
use cloudlab_k8s.Proxy.Address.Printed.{claimed_port, parse_ip_new-claimed_port, parse_ip3-whole}
use cloudlab_k8s.Proxy.Api.{MetadataRequest, MetadataProxy, iaas_provider}
use cloudlab_k8s.Proxy.Api.Control.{
  decide_control, authz_control, MayControl, decide_control_iff, control_total,
}

-- The IaaS provider, and a VM whose allocation has the address: they may control every port there.
abbrev pub ControlsAddress : Net → MetadataRequest → Ip → Type 0
ControlsAddress net mr ip =
    (mr.principal ≡ iaas_provider)
    ⊎ ((inst : CachedInstance) × (mr.inst ≡ some inst)
        × (inst.id.type ≡ vm_instance_type)
        × ((alloc : IpNet) × (inst.id.cidr ≡ some alloc) × (net.cidr_contains alloc ip ≡ true)))

-- The text of a range of ports at an address.
abbrev pub range_text : String → String → String → String
range_text s l r = s +++ (":" +++ (l +++ ("-" +++ r)))

-- What follows the address in the text of a target.
pub data Ports : Type 0 where
  port : ℕ → Ports
  ports : String → String → Ports

abbrev pub target_text : String → Ports → String
target_text s (port p) = claimed_port s p
target_text s (ports l r) = range_text s l r

-- The ports are numbers below 2^31.
abbrev pub AreNumbers : Ports → Type 0
AreNumbers (port p) = p < 2 ^ 31
AreNumbers (ports l r) = IsNumber l × IsNumber r × (number l < 2 ^ 31) × (number r < 2 ^ 31)

-- An instance at the address owns the ports: it has its own around a range; for one port its left port
-- is not above it, and its right port is not below -1.
abbrev pub OwnsPorts : Net → MetadataRequest → Ip → Ports → Type 0
OwnsPorts net mr ip (port p) =
    (net.ip_equal mr.ip ip ≡ true) × (mr.lport ≤ℤ pos p) × (minus_one ≤ℤ mr.rport)
OwnsPorts net mr ip (ports l r) =
    (net.ip_equal mr.ip ip ≡ true) × (mr.lport ≤ℤ pos (number l)) × (pos (number r) ≤ℤ mr.rport)

parse_ip_new-range :
    (net : Net) (s l r : String) (ip : Ip)
    → IsDotted s
    → IsNumber l
    → IsNumber r
    → number l < 2 ^ 31
    → number r < 2 ^ 31
    → net.parse_ip s ≡ some ip
    → parse_ip_new net (range_text s l r) ≡ (ip, pos (number l), pos (number r), status_ok)
unfolding parse_ip_new
parse_ip_new-range net s l r ip hs hl hr bl br parsed =
    ap
      (λ (r : Parsed). elim (net.parse_ip r.0) as (λ _. Ip × ℤ × ℤ × ℕ) [
        | none ↦ (nil_ip, minus_one, minus_one, bad_request)
        | some ip ↦ (ip, r.1, r.2, r.3)
      ])
      (parse_ip3-whole s l r hs hl hr bl br)
    ∙ ap
        (λ o. elim o as (λ _. Ip × ℤ × ℤ × ℕ) [
          | none ↦ (nil_ip, minus_one, minus_one, bad_request)
          | some ip ↦ (ip, pos (number l), pos (number r), status_ok)
        ])
        parsed

provider_control :
    (net : Net) (mr : MetadataRequest)
    → mr.principal ≡ iaas_provider
    → decide_control net mr ≡ some status_ok
unfolding decide_control
provider_control net mr e = ground (arith, eq_iff mr.principal iaas_provider)

regroup : {A B C : Type 0} → A ⊎ (B ⊎ C) → (A ⊎ C) ⊎ B
regroup (inl a) = inl (inl a)
regroup (inr (inl b)) = inr b
regroup (inr (inr c)) = inl (inr c)

group_back : {A B C : Type 0} → (A ⊎ C) ⊎ B → A ⊎ (B ⊎ C)
group_back (inl (inl a)) = inl a
group_back (inl (inr c)) = inr (inr c)
group_back (inr b) = inr (inl b)

module _ {Tree R W : Type 0} (net : Net) (ops : IntTree Tree) (riak : RiakConn R) where
  -- authzControl of the request and text leaves the proxy as it is and answers OK or Unauthorized, OK
  -- exactly under the condition.
  abbrev pub Authorizes : MetadataRequest → String → Bool → MetadataProxy Tree R W → Type 0 → Type 0
  Authorizes mr target allow_uuid c P =
      (mr' : MetadataRequest) × (status : ℕ) × (authz_control net ops riak mr target allow_uuid c
        ≡ some ((mr', status), c))
      × ((status ≡ status_ok) ⊎ (status ≡ unauthorized))
      × ((status ≡ status_ok) ↔ P)

  decided :
      (mr mr' : MetadataRequest) (target : String) (allow_uuid : Bool) (c : MetadataProxy Tree R W)
      (P : Type 0)
      → authz_control net ops riak mr target allow_uuid c
        ≡ elim (decide_control net mr') [ none ↦ none | some status ↦ some ((mr', status), c) ]
      → (mr'.principal ≡ iaas_provider) ⊎ (mr'.inst ≢ none)
      → MayControl net mr' ↔ P
      → Authorizes mr target allow_uuid c P
  decided mr mr' target allow_uuid c P e who rule = elim (total who) [
    | inl yes_ok ↦ (
      mr',
      status_ok,
      e ∙ (rw yes_ok refl),
      inl refl,
      ((λ _. rule.0 ((decide_control_iff net mr').0 yes_ok)), (λ _. refl)),
    )
    | inr denied ↦ (
      mr',
      unauthorized,
      e ∙ (rw denied refl),
      inr refl,
      (
        (λ h. absurd (omega arith)),
        (λ p. absurd (denied_not_ok (sym denied ∙ (decide_control_iff net mr').1 (rule.1 p)))),
      ),
    )
  ]
    where
      total :
          (mr'.principal ≡ iaas_provider) ⊎ (mr'.inst ≢ none)
          → (decide_control net mr' ≡ some status_ok) ⊎ (decide_control net mr' ≡ some unauthorized)
      total (inl e) = inl (provider_control net mr' e)
      total (inr h) = control_total net mr' h

      denied_not_ok : some unauthorized ≢ some status_ok
      denied_not_ok e = absurd (omega (arith, some-eq e))

  parsed_control :
      (mr : MetadataRequest) (target : String) (allow_uuid : Bool) (c : MetadataProxy Tree R W)
      (ip : Ip) (l r : ℤ)
      → parse_ip_new net target ≡ (ip, l, r, status_ok)
      → authz_control net ops riak mr target allow_uuid c
        ≡ elim (decide_control net
            (record mr { target_ip = ip; target_lport = l; target_rport = r })) [
              | none ↦ none
              | some status ↦
                  some
                    ((record mr { target_ip = ip; target_lport = l; target_rport = r }, status), c)
            ]
  unfolding authz_control
  parsed_control mr target allow_uuid c ip l r e = rw e refl

  authz_control-range :
      (mr : MetadataRequest) (s l r : String) (ip : Ip) (allow_uuid : Bool)
      (c : MetadataProxy Tree R W)
      → IsDotted s
      → IsNumber l
      → IsNumber r
      → number l < 2 ^ 31
      → number r < 2 ^ 31
      → net.parse_ip s ≡ some ip
      → (mr.principal ≡ iaas_provider) ⊎ (mr.inst ≢ none)
      → Authorizes mr (range_text s l r) allow_uuid c (
          ControlsAddress net mr ip
          ⊎ ((net.ip_equal mr.ip ip ≡ true)
              × (mr.lport ≤ℤ pos (number l))
              × (pos (number r) ≤ℤ mr.rport)))
  authz_control-range mr s l r ip allow_uuid c hs hl hr bl br parsed who =
      decided mr _ (range_text s l r) allow_uuid c _
        (parsed_control mr (range_text s l r) allow_uuid c ip (pos (number l)) (pos (number r))
          (parse_ip_new-range net s l r ip hs hl hr bl br parsed))
        who (regroup, group_back)

  authz_control-port :
      (mr : MetadataRequest) (s : String) (p : ℕ) (ip : Ip) (allow_uuid : Bool)
      (c : MetadataProxy Tree R W)
      → IsDotted s
      → p < 2 ^ 31
      → net.parse_ip s ≡ some ip
      → (mr.principal ≡ iaas_provider) ⊎ (mr.inst ≢ none)
      → Authorizes mr (claimed_port s p) allow_uuid c (
          ControlsAddress net mr ip
          ⊎ ((net.ip_equal mr.ip ip ≡ true) × (mr.lport ≤ℤ pos p) × (minus_one ≤ℤ mr.rport)))
  authz_control-port mr s p ip allow_uuid c hs b parsed who =
      decided mr _ (claimed_port s p) allow_uuid c _
        (parsed_control mr (claimed_port s p) allow_uuid c ip (pos p) minus_one
          (parse_ip_new-claimed_port net s ip p hs b parsed))
        who (regroup, group_back)

  -- authzControl of a target that is written as an address and one port or a range of ports, below
  -- 2^31, by a request that has an instance or comes from the provider. The proxy stays as it is. The
  -- answer is OK if and only if the provider asks, or a VM whose allocation has the address, or an
  -- instance at the address that owns the ports, and Unauthorized otherwise. To own a range is to have
  -- ports around it. To own one port it is enough that the left port is not above it: the right port is
  -- compared with -1 only, so an instance controls every port of its address from its left port on.
  pub authz_control-OwnsPorts :
      (mr : MetadataRequest) (s : String) (t : Ports) (ip : Ip) (allow_uuid : Bool)
      (c : MetadataProxy Tree R W)
      → IsDotted s
      → AreNumbers t
      → net.parse_ip s ≡ some ip
      → (mr.principal ≡ iaas_provider) ⊎ (mr.inst ≢ none)
      → Authorizes mr
          (target_text s t)
          allow_uuid
          c
          (ControlsAddress net mr ip ⊎ OwnsPorts net mr ip t)
  authz_control-OwnsPorts mr s (port p) ip allow_uuid c hs b parsed who =
      authz_control-port mr s p ip allow_uuid c hs b parsed who
  authz_control-OwnsPorts mr s (ports l r) ip allow_uuid c hs (hl, hr, bl, br) parsed who =
      authz_control-range mr s l r ip allow_uuid c hs hl hr bl br parsed who
