-- ===== src/Proxy/Api/Authentic.antt =====
-- What newAuth grants: whom a request that it lets through speaks for.
use text.Mathlib.Text.{starts_with}
use cloudlab_k8s.Prelude.{
  ℕ, ◌%◌, ◌<◌, ◌≡◌, ◌≢◌, refl, ◌⊎◌, inl, inr, Bool, true, false, Bool-cases, Option, none, some,
  arith, String, string_key, ◌==◌, get_elem?, length, nat_beq, if◌then◌else◌,
}
use text.Mathlib.TextEquality.{eq_iff}
use cloudlab_k8s.Proxy.Types.{Net, CachedInstance, status_ok, unauthorized, noauth_prefix}
use cloudlab_k8s.Proxy.Run.{pure, ◌>>=◌, Returns, Returns-bind, Returns-mono}
use cloudlab_k8s.Proxy.Pmap.{PrincipalIndex, IntTree, IsIntTree, Pmap}
use cloudlab_k8s.Proxy.Pmap.Homes.{Home, IsHomed}
use cloudlab_k8s.Proxy.Cache.{
  RiakConn, Answer, found, failed, get_instance_from_net_map, get_instance_from_id,
}
use cloudlab_k8s.Proxy.Cache.Reload.{IsHonest}
use cloudlab_k8s.Proxy.Cache.Lookups.{
  Owns, Names, get_instance_from_net_map-Owns, get_instance_from_id-Names,
}
use cloudlab_k8s.Proxy.Address.{parse_ip_new}
use cloudlab_k8s.Proxy.Api.{
  MetadataRequest, MetadataProxy, HttpRequest, Decoded, Auth, authenticated, refused, iaas_provider,
  on_cache, read_request, bind_instance, after_authenticate, get_cache, authenticate, auth_decoded,
  new_auth,
}
use cloudlab_k8s.Proxy.Api.Caches.{AllHomed, AllHomed-at, on_cache-Answers, get_elem?_in_range}

-- The answer for a principal that is claimed: for an address, an instance whose home has that IP and
-- port; for anything else, the instance of that identity; or a status that is not OK.
abbrev pub Known : Net → (String → Option Home) → String → Answer → Type 0
Known net home principal answer =
    let (ip, port, unused, ok) = parse_ip_new net principal in
    ((ok ≡ status_ok) × Owns net home ip port answer)
    ⊎ ((ok ≢ status_ok) × Names net home principal answer)
    ⊎ (answer ≡ failed unauthorized)

-- The principal that a request claims.
abbrev pub claimed : HttpRequest → Decoded → String
claimed r d = if d.principal == "" then r.remote_addr else d.principal

-- The request carries the instance: its identities, its address and its ports.
pub record Carries (mr : MetadataRequest) (inst : CachedInstance) : Type 0 where
  pub inst_eq : mr.inst ≡ some inst
  pub principal_eq : mr.principal ≡ inst.id.pid
  pub parent_eq : mr.parent_bear ≡ inst.id.ppid
  pub ip_eq : mr.ip ≡ inst.ip
  pub lport_eq : mr.lport ≡ inst.lport
  pub rport_eq : mr.rport ≡ inst.rport

-- What newAuth grants where the principal must authenticate: the provider's request has no instance,
-- any other carries the instance that the claimed principal is known as.
abbrev pub Grants : Net → (String → Option Home) → String → Auth → Type 0
Grants net home principal (refused status) = status ≢ status_ok
Grants net home principal (authenticated mr) =
    ((principal ≡ iaas_provider) × (mr.principal ≡ iaas_provider) × (mr.inst ≡ none))
    ⊎ ((inst : CachedInstance) × Known net home principal (found inst) × Carries mr inst)

mod_lt : (a n : ℕ) → 0 < n → a % n < n
mod_lt a n h = grind arith

Known-failed :
    (net : Net) (home : String → Option Home) (principal : String) (status : ℕ)
    → Known net home principal (failed status)
    → status ≢ status_ok
Known-failed net home principal status (inl k) = k.1
Known-failed net home principal status (inr (inl k)) = k.1
Known-failed net home principal status (inr (inr e)) = λ h. absurd (ground arith)

after_authenticate-Grants :
    (net : Net) (home : String → Option Home) (r : HttpRequest) (mr : MetadataRequest)
    (principal : String) (answer : Answer)
    → Known net home principal answer
    → Grants net home principal (after_authenticate net r true mr answer)
unfolding after_authenticate bind_instance
after_authenticate-Grants net home r mr principal (failed status) k =
    Known-failed net home principal status k
after_authenticate-Grants net home r mr principal (found inst) k =
    elim (Bool-cases (nat_beq (parse_ip_new net r.remote_addr).3 status_ok)) [
      | inl ok ↦ rw ok (
          inr (
            inst,
            k,
            record {
              inst_eq = refl;
              principal_eq = refl;
              parent_eq = refl;
              ip_eq = refl;
              lport_eq = refl;
              rport_eq = refl;
            },
          ))
      | inr bad ↦ rw bad (λ e. absurd (ground arith))
    ]

module _ {Tree R W : Type 0} (net : Net) (ops : IntTree Tree) (riak : RiakConn R)
    (hash : String → ℕ) (holds : Tree → PrincipalIndex → Bool) (laws : IsIntTree ops holds)
    (home : String → Option Home) where
  authenticate-Known :
      (mr : MetadataRequest) (principal : String) (c : MetadataProxy Tree R W)
      → IsHonest net home riak
      → AllHomed net holds home c.pmaps
      → mr.cache < length c.pmaps
      → Returns
          (λ answer (d : MetadataProxy Tree R W).
            Known net home principal answer × AllHomed net holds home d.pmaps)
          (authenticate net ops riak hash mr principal c)
  unfolding authenticate
  authenticate-Known mr principal c honest h i =
      elim (Bool-cases (starts_with principal noauth_prefix)) [
        | inl prefixed ↦ rw prefixed (inr (inr refl), h)
        | inr other ↦ elim (Bool-cases (nat_beq (parse_ip_new net principal).3 status_ok)) [
          | inl ok ↦ rw (other, ok) (by_address (ground arith))
          | inr bad ↦ rw (other, bad) (by_identity (λ e. absurd (ground arith)))
        ]
      ]
    where
      cache : (m : Pmap Tree) × (get_elem? c.pmaps mr.cache ≡ some m)
      cache = get_elem?_in_range c.pmaps mr.cache i

      cache-IsHomed : IsHomed net holds home cache.0
      cache-IsHomed = AllHomed-at net holds home c.pmaps mr.cache cache.0 cache.1 h

      Wanted : Answer → MetadataProxy Tree R W → Type 0
      Wanted answer d = Known net home principal answer × AllHomed net holds home d.pmaps

      by_address :
          (parse_ip_new net principal).3 ≡ status_ok
          → Returns Wanted (
              on_cache mr.cache
                (get_instance_from_net_map net ops riak
                  (parse_ip_new net principal).0
                  (parse_ip_new net principal).1)
                c)
      by_address ok =
          let (ip, port, unused, status) = parse_ip_new net principal in
          Returns-mono _ Wanted _
            (on_cache-Answers net ops riak holds laws home (Owns net home ip port) mr.cache
              (get_instance_from_net_map net ops riak ip port) c cache.0 cache.1 h
              (get_instance_from_net_map-Owns net ops riak holds laws home
                (record { pmap = cache.0; conn = c.conn }) ip port honest cache-IsHomed))
            (λ a d k. (inl (ok, k.0), k.1))

      by_identity :
          (parse_ip_new net principal).3 ≢ status_ok
          → Returns Wanted (on_cache mr.cache (get_instance_from_id net ops riak principal) c)
      by_identity bad =
          Returns-mono _ Wanted _
            (on_cache-Answers net ops riak holds laws home (Names net home principal) mr.cache
              (get_instance_from_id net ops riak principal) c cache.0 cache.1 h
              (get_instance_from_id-Names net ops riak holds laws home
                (record { pmap = cache.0; conn = c.conn }) principal honest cache-IsHomed))
            (λ a d k. (inr (inl (bad, k.0)), k.1))

  -- newAuth of a request that was decoded, where the principal must authenticate, the backend is
  -- honest, there is a cache and the maps of every cache agree: it does not panic and the maps of
  -- every cache still agree. It refuses with a status that is not OK, or grants the request as the
  -- provider, if that is what the request claims, or as the instance that the claimed principal is
  -- known as: one whose home has the claimed address, or the one with the claimed identity.
  pub new_auth-Grants :
      (r : HttpRequest) (d : Decoded) (c : MetadataProxy Tree R W)
      → r.body ≡ some d
      → IsHonest net home riak
      → AllHomed net holds home c.pmaps
      → 0 < length c.pmaps
      → Returns
          (λ a (c' : MetadataProxy Tree R W).
            Grants net home (claimed r d) a × AllHomed net holds home c'.pmaps)
          (new_auth net ops riak hash r true c)
  unfolding new_auth auth_decoded get_cache after_authenticate bind_instance
  new_auth-Grants r d c b honest h some_cache = rw b (
      Returns-bind
        (λ i (c' : MetadataProxy Tree R W).
          (i < length c'.pmaps) × AllHomed net holds home c'.pmaps)
        _ (get_cache net ops riak hash d.auth) _ c
        (rw filled (mod_lt (hash d.auth) (length c.pmaps) some_cache, h))
        (λ i c' k. rest i c' k.0 k.1))
    where
      filled : nat_beq (length c.pmaps) 0 ≡ false
      filled = ground arith

      Wanted : Auth → MetadataProxy Tree R W → Type 0
      Wanted a c' = Grants net home (claimed r d) a × AllHomed net holds home c'.pmaps

      request : ℕ → MetadataRequest
      request cache = record (read_request d) {
        method = r.method;
        principal = claimed r d;
        url = r.uri;
        cache = cache;
        auth = "";
      }

      rest :
          (i : ℕ) (c' : MetadataProxy Tree R W)
          → i < length c'.pmaps
          → AllHomed net holds home c'.pmaps
          → Returns Wanted (
              (if claimed r d == iaas_provider then pure (authenticated (request i)) else (do
                answer ← authenticate net ops riak hash (request i) (claimed r d)
                pure (after_authenticate net r true (request i) answer)))
                c')
      rest i c' l k = elim (Bool-cases (claimed r d == iaas_provider)) [
        | inl provider ↦
            let e = (eq_iff (claimed r d) iaas_provider).0 provider in
            rw provider (inl (e, e, refl), k)
        | inr other ↦ rw other (
            Returns-bind
              (λ answer (t : MetadataProxy Tree R W).
                Known net home (claimed r d) answer × AllHomed net holds home t.pmaps)
              Wanted (authenticate net ops riak hash (request i) (claimed r d)) _ c'
              (authenticate-Known (request i) (claimed r d) c' honest k l)
              (λ answer t known. (
                after_authenticate-Grants net home r (request i) (claimed r d) answer known.0,
                known.1,
              )))
      ]
