-- ===== src/Proxy/Api/Steps/Kept.antt =====
-- What the steps of the API keep: as many caches, in each of which the maps agree.
use cloudlab_k8s.Prelude.{
  length-set, some-eq, ℕ, ◌≡◌, refl, sym, ap, ◌∙◌, inl, inr, ◌%◌, Bool, true, false, Bool-cases,
  Option, none, some, ℤ, String, string_key, arith, get_elem?, set, length, nat_beq, if◌then◌else◌,
}
use text.Mathlib.Text.{starts_with}
use cloudlab_k8s.Proxy.Types.{Ip, Net, status_ok}
use cloudlab_k8s.Proxy.Run.{
  Run, pure, deref, ◌>>=◌, Keeps, Keeps-bind, Keeps-pure, Keeps-deref, bind_steps,
}
use cloudlab_k8s.Proxy.Pmap.{PrincipalIndex, IntTree, IsIntTree, Pmap}
use cloudlab_k8s.Proxy.Pmap.Homes.{Home, IsHomed}
use cloudlab_k8s.Proxy.Cache.{
  RiakConn, Cache, Answer, get_instance_from_net_map, get_instance_from_id,
}
use cloudlab_k8s.Proxy.Cache.Reload.{IsHonest}
use cloudlab_k8s.Proxy.Cache.Lookups.{
  Owns, Names, Answers, get_instance_from_net_map-Owns, get_instance_from_id-Names,
}
use cloudlab_k8s.Proxy.Address.{parse_ip_new}
use cloudlab_k8s.Proxy.Api.{
  MetadataRequest, MetadataProxy, HttpRequest, on_cache, get_cache, authenticate, auth_decoded,
  new_auth, noauth_prefix,
}
use cloudlab_k8s.Proxy.Api.Caches.{AllHomed, AllHomed-at, AllHomed-set, on_cache-some}
use cloudlab_k8s.Proxy.Api.Handler.{
  Body, Safe, get_url, call, run_pre, PreHook, PostHook, Reply, run_post, new_handler, after_pre,
  send_encoded, after_reply, unreadable, transport_error, answered,
}

-- The proxy has `n` caches, and the maps of each agree.
pub record IsServing {Tree R W : Type 0} (net : Net) (holds : Tree → PrincipalIndex → Bool)
    (home : String → Option Home) (n : ℕ) (c : MetadataProxy Tree R W) : Type 0 where
  pub caches : length c.pmaps ≡ n
  pub homed : AllHomed net holds home c.pmaps

module _ {Tree R : Type 0} (net : Net) (ops : IntTree Tree) (riak : RiakConn R)
    (holds : Tree → PrincipalIndex → Bool) (laws : IsIntTree ops holds)
    (home : String → Option Home) (honest : IsHonest net home riak) where
  IsHomed-after :
      (P : Answer → Type 0) (o : Option (Answer × Cache Tree R)) (a : Answer) (k : Cache Tree R)
      → Answers net ops riak holds laws home P o
      → o ≡ some (a, k)
      → IsHomed net holds home k.pmap
  IsHomed-after P o a k h e = (rw e at h).1

  pub net_map-Keeps :
      (ip : Ip) (port : ℤ)
      → Keeps
          (λ (k : Cache Tree R). IsHomed net holds home k.pmap)
          (get_instance_from_net_map net ops riak ip port)
  net_map-Keeps ip port a c k h e =
      IsHomed-after (Owns net home ip port) (get_instance_from_net_map net ops riak ip port c) a k
        (get_instance_from_net_map-Owns net ops riak holds laws home c ip port honest h) e

  pub id-Keeps :
      (pid : String)
      → Keeps
          (λ (k : Cache Tree R). IsHomed net holds home k.pmap)
          (get_instance_from_id net ops riak pid)
  id-Keeps pid a c k h e =
      IsHomed-after (Names net home pid) (get_instance_from_id net ops riak pid c) a k
        (get_instance_from_id-Names net ops riak holds laws home c pid honest h) e

module _ {Tree R W : Type 0} (net : Net) (holds : Tree → PrincipalIndex → Bool)
    (home : String → Option Home) (n : ℕ) where
  -- The block keeps the proxy serving.
  abbrev pub Kept : {A : Type 0} → Run (MetadataProxy Tree R W) A → Type 0
  Kept m = Keeps (IsServing net holds home n) m

  abbrev pub kept_bind :
      {A B : Type 0} (m : Run (MetadataProxy Tree R W) A) (f : A → Run (MetadataProxy Tree R W) B)
      → Kept m
      → ((a : A) → Kept (f a))
      → Kept (m >>= f)
  kept_bind m f = Keeps-bind (IsServing net holds home n) m f

  abbrev pub kept_pure : {A : Type 0} (a : A) → Kept (pure a)
  kept_pure a = Keeps-pure (IsServing net holds home n) a

  abbrev pub kept_deref : {A : Type 0} (o : Option A) → Kept (deref o)
  kept_deref o = Keeps-deref (IsServing net holds home n) o

  abbrev pub kept_if :
      {A : Type 0} (b : Bool) (m k : Run (MetadataProxy Tree R W) A)
      → Kept m
      → Kept k
      → Kept (if b then m else k)
  kept_if true m k h i = h
  kept_if false m k h i = i

  -- A method of a cache that keeps its maps in agreement.
  pub on_cache-Kept :
      {A : Type 0} (i : ℕ) (op : Run (Cache Tree R) A)
      → Keeps (λ (k : Cache Tree R). IsHomed net holds home k.pmap) op
      → Kept (on_cache i op)
  on_cache-Kept {A} i op h a c c' s e = go (get_elem? c.pmaps i) refl
    where
      served :
          (m : Pmap Tree) (b : A) (k : Cache Tree R)
          → get_elem? c.pmaps i ≡ some m
          → op (record { pmap = m; conn = c.conn }) ≡ some (b, k)
          → IsServing net holds home n c'
      served m b k g o =
          let out : some (b, record c { pmaps = set c.pmaps i k.pmap; conn = k.conn })
              ≡ some (a, c') =
            sym (on_cache-some i op c m b k g o) ∙ e in
          rw (← ap (λ x. x.1) (some-eq out)) (record {
            caches = length-set c.pmaps i k.pmap ∙ s.caches;
            homed =
                AllHomed-set net holds home c.pmaps i k.pmap
                  (h b (record { pmap = m; conn = c.conn }) k
                    (AllHomed-at net holds home c.pmaps i m g s.homed) o)
                  s.homed;
          })

      go : (o : Option (Pmap Tree)) → get_elem? c.pmaps i ≡ o → IsServing net holds home n c'
      go none g = cc (rw (on_cache, g) at e)
      go (some m) g = ran (op (record { pmap = m; conn = c.conn })) refl
        where
          ran :
              (o : Option (A × Cache Tree R))
              → op (record { pmap = m; conn = c.conn }) ≡ o
              → IsServing net holds home n c'
          ran none q = cc (rw (on_cache, g, q) at e)
          ran (some (b, k)) q = served m b k g q

  -- The second hook keeps the proxy serving, whatever the SAFE server answers.
  abbrev pub KeptAfter : MetadataRequest → Option (PostHook (MetadataProxy Tree R W)) → Type 0
  KeptAfter mr post = (body : String) (status : ℕ) → Kept (run_post post mr body status)

module _ {Tree R W : Type 0} (net : Net) (ops : IntTree Tree) (riak : RiakConn R)
    (holds : Tree → PrincipalIndex → Bool) (laws : IsIntTree ops holds)
    (home : String → Option Home) (honest : IsHonest net home riak) (n : ℕ) where
  abbrev KeptHere : {A : Type 0} → Run (MetadataProxy Tree R W) A → Type 0
  KeptHere m = Kept net holds home n m

  pub authenticate-Kept :
      (hash : String → ℕ) (mr : MetadataRequest) (principal : String)
      → KeptHere (authenticate net ops riak hash mr principal)
  unfolding authenticate
  authenticate-Kept hash mr principal =
      kept_if net holds home n (starts_with principal noauth_prefix) _ _
        (kept_pure net holds home n _)
        (kept_if net holds home n (nat_beq (parse_ip_new net principal).3 status_ok) _ _
          (on_cache-Kept net holds home n mr.cache _
            (net_map-Keeps net ops riak holds laws home honest _ _))
          (on_cache-Kept net holds home n mr.cache _
            (id-Keeps net ops riak holds laws home honest principal)))

  pub get_cache-Kept :
      (hash : String → ℕ) (auth : String) → KeptHere (get_cache net ops riak hash auth)
  unfolding get_cache
  get_cache-Kept hash auth i c c' s e = elim (Bool-cases (nat_beq (length c.pmaps) 0)) [
    | inl zero_caches ↦ cc (rw zero_caches at e)
    | inr caches ↦ kept_pure net holds home n (hash auth % length c.pmaps) i c c' s (rw caches at e)
  ]

  pub new_auth-Kept :
      (hash : String → ℕ) (r : HttpRequest) (auth_principal : Bool)
      → KeptHere (new_auth net ops riak hash r auth_principal)
  unfolding new_auth auth_decoded
  new_auth-Kept hash r auth_principal =
      kept_bind net holds home n (deref r.body) _ (kept_deref net holds home n r.body) (λ d.
        kept_bind net holds home n (get_cache net ops riak hash d.auth) _
          (get_cache-Kept hash d.auth)
          (λ i. kept_if net holds home n _ _ _ (kept_pure net holds home n _) (
            kept_bind net holds home n _ _ (authenticate-Kept hash _ _)
              (λ a. kept_pure net holds home n _))))

  -- The API's second half: it only calls the SAFE server and the second hook.
  module _ (safe : Safe W) (addr : String) where
    after_reply-Kept :
        (mr : MetadataRequest) (post : Option (PostHook (MetadataProxy Tree R W))) (reply : Reply)
        → KeptAfter net holds home n mr post
        → KeptHere (after_reply safe addr mr post reply)
    unfolding after_reply
    after_reply-Kept mr post (transport_error none) k = kept_pure net holds home n _
    after_reply-Kept mr post (transport_error (some status)) k = kept_pure net holds home n _
    after_reply-Kept mr post unreadable k = kept_pure net holds home n _
    after_reply-Kept mr post (answered body status) k = k body status

    send_encoded-Kept :
        (mr : MetadataRequest) (post : Option (PostHook (MetadataProxy Tree R W)))
        (encoded : Option String)
        → KeptAfter net holds home n mr post
        → KeptHere (send_encoded safe addr mr post encoded)
    unfolding send_encoded
    send_encoded-Kept mr post none k = kept_pure net holds home n _
    send_encoded-Kept mr post (some body) k =
        kept_if net holds home n (safe.new_request mr.method (get_url addr mr.url)) _ _
          (kept_bind net holds home n (call safe addr mr.method (get_url addr mr.url) body) _
            (call-Kept mr.method (get_url addr mr.url) body)
            (λ reply. after_reply-Kept mr post reply k))
          (kept_pure net holds home n _)
      where
        call-Kept : (method url body : String) → KeptHere (call safe addr method url body)
        call-Kept method url body a c c' s e =
            rw (← ap (λ x. x.1) (some-eq e)) (record { caches = s.caches; homed = s.homed })

    after_pre-Kept :
        (post : Option (PostHook (MetadataProxy Tree R W))) (mr : MetadataRequest) (msg : Body)
        (status : ℕ)
        → (status ≡ status_ok → KeptAfter net holds home n mr post)
        → KeptHere (after_pre safe addr post (mr, msg, status))
    unfolding after_pre
    after_pre-Kept post mr msg status k = elim (Bool-cases (nat_beq status status_ok)) [
      | inl ok ↦ rw ok (send_encoded-Kept mr post (safe.encode mr) (k (ground arith)))
      | inr bad ↦ rw bad (kept_pure net holds home n _)
    ]

    -- newHandler keeps what its hooks keep; the second hook runs on a request that the first passes.
    pub new_handler-kept :
        (mr : MetadataRequest) (pre : Option (PreHook (MetadataProxy Tree R W)))
        (post : Option (PostHook (MetadataProxy Tree R W))) (c c' : MetadataProxy Tree R W)
        (reply : Body × ℕ)
        → KeptHere (run_pre pre mr)
        → ((mr' : MetadataRequest) (msg : Body) (d : MetadataProxy Tree R W)
            → run_pre pre mr c ≡ some ((mr', msg, status_ok), d)
            → KeptAfter net holds home n mr' post)
        → IsServing net holds home n c
        → new_handler safe addr mr pre post c ≡ some (reply, c')
        → IsServing net holds home n c'
    unfolding new_handler
    new_handler-kept mr pre post c c' reply h k s e =
        let ((mr', msg, status), d, first, second) =
          bind_steps (run_pre pre mr) (after_pre safe addr post) c c' reply e in
        after_pre-Kept post mr' msg status
          (λ ok. k mr' msg d (first ∙ ap (λ st. some ((mr', msg, st), d)) ok)) reply d c'
          (h (mr', msg, status) c d s first) second
