-- ===== src/Proxy/Api/Links.antt =====
-- The handlers of proxy/newapi.go that pass a request on after they resolved an identity in it:
-- endorsements, memberships and checks; those that pass it on as it is; and authenticateAddr.
use text.Mathlib.Text.{find?}
use Prim.Native.String.{len, slice, ◌++◌}
use cloudlab_k8s.Prelude.{
  ℕ, ◌+◌, Bool, true, false, Option, none, some, String, string_key, ◌==◌, get_elem?, set, nat_beq,
  if◌then◌else◌,
}
use cloudlab_k8s.Proxy.Types.{Net, status_ok, bad_request, not_found}
use cloudlab_k8s.Proxy.Run.{Run, pure, deref, ◌>>=◌}
use cloudlab_k8s.Proxy.Pmap.{IntTree}
use cloudlab_k8s.Proxy.Cache.{RiakConn, Answer, found, failed, get_instance_from_net_map}
use cloudlab_k8s.Proxy.Address.{parse_ip2}
use cloudlab_k8s.Proxy.Api.{
  MetadataRequest, MetadataProxy, HttpRequest, iaas_provider, on_cache, get_cache, authenticate,
}
use cloudlab_k8s.Proxy.Api.Handler.{Body, plain, Safe, PreHook, new_handler_unwrapped}

-- strings.Replace(s, old, new, 1)
unfoldable pub replace_first : String → String → String → String
replace_first s old new = elim (find? s old) [
  | none ↦ s
  | some i ↦ slice s 0 i ++ new ++ slice s (i + len old) (len s)
]

-- The hook of createEndorsementLink behind authenticate: who is no instance stays as it is.
unfoldable pub link_endorser : MetadataRequest → Answer → MetadataRequest
link_endorser mr (failed status) = mr
link_endorser mr (found creator) = record mr { other_values = set mr.other_values 0 creator.id.pid }

-- The hook of createEndorsement.
unfoldable pub endorse : MetadataRequest → MetadataRequest
endorse mr = elim mr.inst [
  | none ↦ mr
  | some inst ↦ record mr { url = replace_first mr.url "/post" "/postInstance" }
]

-- The hook of createMembership behind authenticate.
unfoldable pub link_member : MetadataRequest → Answer → MetadataRequest × Body × ℕ
link_member mr (failed status) = (mr, plain "cannot authenticate membership creator", status)
link_member mr (found member) =
    (record mr { other_values = set mr.other_values 1 member.id.pid }, plain "", status_ok)

-- The hook of handleCheckInstance behind authenticate: who is no instance is checked as an object.
unfoldable pub link_checked : MetadataRequest → Answer → MetadataRequest
link_checked mr (failed status) = record mr { parent_bear = "no-such-pid" }
link_checked mr (found inst) = record mr {
  other_values = set mr.other_values 0 inst.id.pid;
  parent_bear = inst.id.ppid;
}

-- A reply of authenticateAddr: an instance's two identities, or a status.
pub data AddrReply : Type 0 where
  instance_lines : String → String → AddrReply
  refused_addr : ℕ → AddrReply

-- authenticateAddr behind the cache's answer. Every error of the cache is Not Found.
unfoldable pub addr_reply : Answer → AddrReply
addr_reply (failed status) = refused_addr not_found
addr_reply (found inst) = instance_lines inst.id.pid inst.id.ppid

module _ {Tree R W : Type 0} (safe : Safe W) (addr : String) (net : Net) (ops : IntTree Tree)
    (riak : RiakConn R) (hash : String → ℕ) where
  unfoldable pub pre_endorsement_link : PreHook (MetadataProxy Tree R W)
  pre_endorsement_link mr = do
    endorser ← deref (get_elem? mr.other_values 0)
    answer ← authenticate net ops riak hash mr endorser
    pure (link_endorser mr answer, plain "", status_ok)

  unfoldable pub pre_membership : PreHook (MetadataProxy Tree R W)
  pre_membership mr = do
    member ← deref (get_elem? mr.other_values 1)
    answer ← authenticate net ops riak hash mr member
    pure (link_member mr answer)

  unfoldable pub pre_check_instance : PreHook (MetadataProxy Tree R W)
  pre_check_instance mr = do
    target ← deref (get_elem? mr.other_values 0)
    if target == iaas_provider then pure (mr, plain "", status_ok) else (do
      answer ← authenticate net ops riak hash mr target
      pure (link_checked mr answer, plain "", status_ok))

  -- A handler without a second hook.
  abbrev pub pass_on :
      Option (PreHook (MetadataProxy Tree R W))
      → Bool
      → HttpRequest
      → Run (MetadataProxy Tree R W) (Body × ℕ)
  pass_on pre auth_principal r =
      new_handler_unwrapped safe addr net ops riak hash r pre none auth_principal

  unfoldable pub create_endorsement_link : HttpRequest → Run (MetadataProxy Tree R W) (Body × ℕ)
  create_endorsement_link = pass_on (some pre_endorsement_link) false

  unfoldable pub create_endorsement : HttpRequest → Run (MetadataProxy Tree R W) (Body × ℕ)
  create_endorsement = pass_on (some (λ mr. pure (endorse mr, plain "", status_ok))) false

  unfoldable pub create_membership : HttpRequest → Run (MetadataProxy Tree R W) (Body × ℕ)
  create_membership = pass_on (some pre_membership) true

  unfoldable pub handle_check_instance : HttpRequest → Run (MetadataProxy Tree R W) (Body × ℕ)
  handle_check_instance = pass_on (some pre_check_instance) false

  unfoldable pub handle_other : HttpRequest → Run (MetadataProxy Tree R W) (Body × ℕ)
  handle_other = pass_on none true

  unfoldable pub handle_other_no_auth : HttpRequest → Run (MetadataProxy Tree R W) (Body × ℕ)
  handle_other_no_auth = pass_on none false

  -- authenticateAddr of the address in the route. The cache is always that of the text "1".
  unfoldable pub authenticate_addr : String → Run (MetadataProxy Tree R W) AddrReply
  authenticate_addr saddr = do
    cache ← get_cache net ops riak hash "1"
    let (ip, port, none_port, status) = parse_ip2 saddr
    elim (net.parse_ip ip) [
      | none ↦ pure (refused_addr bad_request)
      | some netaddr ↦
          if nat_beq status status_ok
          then (do
            answer ← on_cache cache (get_instance_from_net_map net ops riak netaddr port)
            pure (addr_reply answer))
          else pure (refused_addr bad_request)
    ]
