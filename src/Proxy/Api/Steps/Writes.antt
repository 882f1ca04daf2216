-- ===== src/Proxy/Api/Steps/Writes.antt =====
-- The hooks that create and delete instances keep the caches in agreement, on a request that is
-- placed.
use cloudlab_k8s.Prelude.{
  some-eq, ℕ, ◌≡◌, refl, sym, ap, ◌∙◌, Bool, Option, none, some, String, get_elem?, nat_beq, ℤ,
  suc_ℤ, ◌≤ℤ◌,
}
use cloudlab_k8s.Proxy.Types.{Ip, Net, CachedInstance, status_ok}
use cloudlab_k8s.Proxy.Run.{Run, deref, ◌>>=◌, Keeps}
use cloudlab_k8s.Proxy.Pmap.{PrincipalIndex, IntTree, IsIntTree, compute_id}
use cloudlab_k8s.Proxy.Pmap.Homes.{Home, IsHomed, IsAtHome, put_cached_instance-IsHomed}
use cloudlab_k8s.Proxy.Pmap.Deletion.{del_cached_instance-IsHomed}
use cloudlab_k8s.Proxy.Cache.{RiakConn, Cache, put_instance, del_instance}
use cloudlab_k8s.Proxy.Cache.Reload.{IsHonest}
use cloudlab_k8s.Proxy.Cache.Writes.{put_instance_step, del_instance_step}
use cloudlab_k8s.Proxy.Api.{MetadataRequest, MetadataProxy}
use cloudlab_k8s.Proxy.Api.Handler.{safe_text, pid_message}
use cloudlab_k8s.Proxy.Api.Hooks.{post_instance_creation_handler, post_instance_deletion_handler}
use cloudlab_k8s.Proxy.Api.Hooks.Outcomes.{created}
use cloudlab_k8s.Proxy.Api.Steps.{IsPlaced, IsPlacedInOrder}
use cloudlab_k8s.Proxy.Api.Steps.Kept.{Kept, kept_bind, kept_pure, kept_if, on_cache-Kept}

module _ {Tree R : Type 0} (net : Net) (ops : IntTree Tree) (riak : RiakConn R)
    (holds : Tree → PrincipalIndex → Bool) (laws : IsIntTree ops holds)
    (home : String → Option Home) where
  put_instance-Keeps :
      (inst : CachedInstance)
      → IsAtHome net home inst
      → Keeps (λ (k : Cache Tree R). IsHomed net holds home k.pmap) (put_instance net ops riak inst)
  put_instance-Keeps inst at_home status c k h e =
      let (m, eq, mh) = put_cached_instance-IsHomed net ops holds laws home c.pmap inst h at_home in
      rw (← ap (λ x. x.1.pmap) (some-eq (sym (put_instance_step net ops riak c m inst eq) ∙ e))) mh

  del_instance-Keeps :
      (ip : Ip) (lport rport : ℤ) (pid : String) (id : ℕ)
      → home pid ≡ some (net.ip_string ip, lport, rport)
      → compute_id net (net.ip_string ip) lport (suc_ℤ rport) ≡ some id
      → lport ≤ℤ suc_ℤ rport
      → Keeps
          (λ (k : Cache Tree R). IsHomed net holds home k.pmap)
          (del_instance net ops riak ip lport rport pid)
  del_instance-Keeps ip lport rport pid id homed numbered ordered status c k h e =
      let (m, eq, mh, gone) =
        del_cached_instance-IsHomed net ops holds laws home c.pmap ip lport rport pid id h homed
          numbered ordered in
      rw
        (← ap (λ x. x.1.pmap)
          (some-eq (sym (del_instance_step net ops riak c m ip lport rport pid eq) ∙ e)))
        mh

module _ {Tree R W : Type 0} (net : Net) (ops : IntTree Tree) (riak : RiakConn R)
    (holds : Tree → PrincipalIndex → Bool) (laws : IsIntTree ops holds)
    (home : String → Option Home) (honest : IsHonest net home riak) (n : ℕ) where
  abbrev KeptHere : {A : Type 0} → Run (MetadataProxy Tree R W) A → Type 0
  KeptHere m = Kept net holds home n m

  -- A step on the identity that a request names.
  named-Kept :
      {A : Type 0} (name : Option String) (f : String → Run (MetadataProxy Tree R W) A)
      → ((pid : String) → name ≡ some pid → KeptHere (f pid))
      → KeptHere (deref name >>= f)
  named-Kept none f k a c c' s e = cc
  named-Kept (some pid) f k a c c' s e = k pid refl a c c' s e

  pub creation-Kept :
      (mr : MetadataRequest) (body : String) (status : ℕ)
      → IsPlaced net home mr
      → KeptHere (post_instance_creation_handler net ops riak mr body status)
  unfolding post_instance_creation_handler
  creation-Kept mr body status placed =
      kept_if net holds home n (nat_beq status status_ok) _ _
        (named-Kept (get_elem? mr.other_values 0) _ (λ pid e.
          kept_bind net holds home n _ _
            (on_cache-Kept net holds home n mr.cache _
              (put_instance-Keeps net ops riak holds laws home (created mr pid) (placed pid e)))
            (λ put_status. kept_pure net holds home n (pid_message pid, status_ok))))
        (kept_pure net holds home n (safe_text body, status))

  pub deletion-Kept :
      (mr : MetadataRequest) (body : String) (status : ℕ)
      → IsPlacedInOrder net home mr
      → KeptHere (post_instance_deletion_handler net ops riak mr body status)
  unfolding post_instance_deletion_handler
  deletion-Kept mr body status (placed, ordered) =
      kept_if net holds home n (nat_beq status status_ok) _ _
        (named-Kept (get_elem? mr.other_values 0) _ (λ pid e.
          let at_home = placed pid e in
          kept_bind net holds home n _ _
            (on_cache-Kept net holds home n mr.cache _ (
              del_instance-Keeps net ops riak holds laws home mr.target_ip mr.target_lport
                mr.target_rport pid at_home.numbered.0 at_home.homed at_home.numbered.1 ordered))
            (λ del_status. kept_pure net holds home n (pid_message pid, status_ok))))
        (kept_pure net holds home n (safe_text body, status))
