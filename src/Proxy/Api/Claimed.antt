-- ===== src/Proxy/Api/Claimed.antt =====
-- authenticate of proxy/newapi.go on a principal that is written as an address with a port, and the
-- creation of an instance before it, through another cache.
use Prim.Native.String.{◌++◌ as ◌+++◌}
use text.Mathlib.Text.{starts_with}
use text.Mathlib.TextEquality.{starts_with_iff}
use cloudlab_k8s.Prelude.{
  ℕ, ◌<◌, ◌^◌, ◌≡◌, ◌≢◌, refl, ap, ◌∙◌, Bool, true, false, not, Option, some, List, [], ◌∷◌, ◌++◌,
  String, ℤ, suc_ℤ, pos, ◌≤ℤ◌, length, arith, Bool-cases, inl, inr,
}
use cloudlab_k8s.Proxy.Types.{Ip, Net, CachedInstance, status_ok, noauth_prefix}
use cloudlab_k8s.Proxy.Pmap.{PrincipalIndex, IntTree, IsIntTree, In}
use cloudlab_k8s.Proxy.Pmap.Homes.{Home, IsAtHome}
use cloudlab_k8s.Proxy.Cache.{RiakConn, found, get_instance_from_net_map, put_instance}
use cloudlab_k8s.Proxy.Cache.Reload.{IsHonest}
use cloudlab_k8s.Proxy.Cache.Lookups.{Owns}
use cloudlab_k8s.Proxy.Cache.Serves.{Ported, AllPorted}
use cloudlab_k8s.Proxy.Address.Regexp.{chars}
use cloudlab_k8s.Proxy.Address.Regexp.Texts.{chars-append}
use cloudlab_k8s.Proxy.Address.Regexp.Spelled.{AllIn}
use cloudlab_k8s.Proxy.Address.Decimal.{is_digit}
use cloudlab_k8s.Proxy.Address.{is_char}
use cloudlab_k8s.Proxy.Address.Dotted.{IsDotted}
use cloudlab_k8s.Proxy.Address.Printed.{claimed_port, claimed_port-AllIn, parse_ip_new-claimed_port}
use cloudlab_k8s.Proxy.Api.{MetadataRequest, MetadataProxy, on_cache, authenticate}
use cloudlab_k8s.Proxy.Api.Caches.{AllHomed}
use cloudlab_k8s.Proxy.Api.Shared.{put_instance-FindsThrough}

abbrev not_n : ℕ → Bool
not_n c = not (is_char b'n' c)

digit-not_n : (c : ℕ) → is_digit c ≡ true → not_n c ≡ true
digit-not_n c e = ground arith

dot-not_n : (c : ℕ) → is_char b'.' c ≡ true → not_n c ≡ true
dot-not_n c e = ground arith

noauth-AllIn : (s : String) → AllIn not_n (chars (noauth_prefix +++ s)) → ⊥
unfolding chars
noauth-AllIn s h = no_n (rw (chars-append noauth_prefix s) at h)
  where
    false-not_true : false ≢ true
    false-not_true e = cc

    no_n : AllIn not_n (chars noauth_prefix ++ chars s) → ⊥
    no_n h = false-not_true h.0

-- An address is no name that needs no authentication.
claimed_port-noauth :
    (s : String) (p : ℕ)
    → IsDotted s
    → p < 2 ^ 31
    → starts_with (claimed_port s p) noauth_prefix ≡ false
claimed_port-noauth s p hi h = elim (Bool-cases (starts_with (claimed_port s p) noauth_prefix)) [
  | inl e ↦
      let (u, whole) = (starts_with_iff (claimed_port s p) noauth_prefix).0 e in
      absurd
        (noauth-AllIn u (rw whole (claimed_port-AllIn not_n s p digit-not_n dot-not_n refl hi h)))
  | inr e ↦ e
]

In-Ported :
    (inst : CachedInstance) (insts : List CachedInstance)
    → In inst insts
    → AllPorted insts
    → Ported inst.lport (suc_ℤ inst.rport)
In-Ported inst [] i h = absurd i
In-Ported inst (first ∷ insts) (inl e) h = rw e h.0
In-Ported inst (first ∷ insts) (inr i) h = In-Ported inst insts i h.1

port_small : (l r : ℤ) (p : ℕ) → Ported l (suc_ℤ r) → pos p ≤ℤ r → p < 2 ^ 31
port_small l r p (a, q, el, er, small) h = ground arith

module _ {Tree R W : Type 0} (net : Net) (ops : IntTree Tree) (riak : RiakConn R)
    (hash : String → ℕ) where
  -- authenticate of the text of an address looks the address up in the request's cache.
  authenticate-claimed_port :
      (mr : MetadataRequest) (ip : Ip) (p : ℕ)
      → IsDotted (net.ip_string ip)
      → p < 2 ^ 31
      → net.parse_ip (net.ip_string ip) ≡ some ip
      → (c : MetadataProxy Tree R W)
      → authenticate net ops riak hash mr (claimed_port (net.ip_string ip) p) c
        ≡ on_cache mr.cache (get_instance_from_net_map net ops riak ip (pos p)) c
  unfolding authenticate
  authenticate-claimed_port mr ip p hi h parsed c =
      rw
        (
          claimed_port-noauth (net.ip_string ip) p hi h,
          parse_ip_new-claimed_port net (net.ip_string ip) ip p hi h parsed,
        )
        refl

  -- Authenticates as an instance that owns the address.
  abbrev pub KnownThrough :
      (String → Option Home) → MetadataRequest → Ip → ℕ → MetadataProxy Tree R W → Type 0
  KnownThrough home mr ip p c =
      (a : CachedInstance) × (d : MetadataProxy Tree R W) × (authenticate net ops riak hash mr
          (claimed_port (net.ip_string ip) p) c
        ≡ some (found a, d))
      × Owns net home ip (pos p) (found a)

  -- An instance that is created through one cache is known to every other: after PutInstance through
  -- the cache `i`, authenticate of a request with the cache `j`, whose principal is the text of the
  -- instance's IP, a colon and one of its ports, answers with an instance whose home has that address.
  -- The backend takes the instance, is honest, and then returns instances of the IP with 16-bit ports,
  -- the new one among them; the maps of the caches agree before and the instance is at its home;
  -- package net prints its IP as dotted digits and reads them back.
  pub put_instance-KnownThrough :
      (holds : Tree → PrincipalIndex → Bool) (laws : IsIntTree ops holds)
      (home : String → Option Home) (c : MetadataProxy Tree R W) (i j : ℕ) (inst : CachedInstance)
      (insts : List CachedInstance) (mr : MetadataRequest) (p : ℕ)
      → IsHonest net home riak
      → AllHomed net holds home c.pmaps
      → i < length c.pmaps
      → j < length c.pmaps
      → IsAtHome net home inst
      → (riak.put_net_id_map inst.ip inst.lport inst.rport inst.id c.conn).0 ≡ true
      → (riak.get_all_net_id inst.ip
          (riak.put_net_id_map inst.ip inst.lport inst.rport inst.id c.conn).1).0
        ≡ some insts
      → In inst insts
      → AllPorted insts
      → IsDotted (net.ip_string inst.ip)
      → net.parse_ip (net.ip_string inst.ip) ≡ some inst.ip
      → mr.cache ≡ j
      → inst.lport ≤ℤ pos p
      → pos p ≤ℤ inst.rport
      → (c' : MetadataProxy Tree R W) × (on_cache i (put_instance net ops riak inst) c
          ≡ some (status_ok, c'))
        × AllHomed net holds home c'.pmaps
        × KnownThrough home mr inst.ip p c'
  put_instance-KnownThrough holds laws home c i j inst insts mr p honest homed hi hj at_home taken
        all i_in ported dotted parsed cached l r =
      let (c', put, homed', (a, d, eq, owns)) =
        put_instance-FindsThrough net ops riak holds laws home c i j inst insts (pos p) honest homed
          hi hj at_home taken all i_in ported l r in
      (
        c',
        put,
        homed',
        (
          a,
          d,
          authenticate-claimed_port mr inst.ip p dotted
                (port_small inst.lport inst.rport p (In-Ported inst insts i_in ported) r) parsed c'
              ∙ ap (λ k. on_cache k (get_instance_from_net_map net ops riak inst.ip (pos p)) c')
                  cached
              ∙ eq,
          owns,
        ),
      )
