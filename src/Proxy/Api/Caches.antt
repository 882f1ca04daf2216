-- ===== src/Proxy/Api/Caches.antt =====
-- The caches of the proxy: a call of one of them keeps what holds of all.
use cloudlab_k8s.Prelude.{
  some-eq, Option-cases, inl, inr, sym, ◌≢◌, get_elem?-set_other, ℕ, zero, suc, ◌≡◌, refl, ◌∙◌, ap,
  ◌<◌, Bool, Option, none, some, List, [], ◌∷◌, arith, String, get_elem?, set, length,
}
use cloudlab_k8s.Proxy.Types.{Net}
use cloudlab_k8s.Proxy.Run.{Run, Returns}
use cloudlab_k8s.Proxy.Pmap.{PrincipalIndex, IntTree, IsIntTree, Pmap}
use cloudlab_k8s.Proxy.Pmap.Homes.{Home, IsHomed}
use cloudlab_k8s.Proxy.Cache.{RiakConn, Cache, Answer}
use cloudlab_k8s.Proxy.Cache.Lookups.{Answers}
use cloudlab_k8s.Proxy.Api.{MetadataProxy, on_cache}

pub get_elem?-set-some :
    {A : Type 0} (xs : List A) (i : ℕ) (a v : A)
    → get_elem? xs i ≡ some a
    → get_elem? (set xs i v) i ≡ some v
get_elem?-set-some [] i a v h = cc
get_elem?-set-some (x ∷ xs) zero a v h = refl
get_elem?-set-some (x ∷ xs) (suc i) a v h = get_elem?-set-some xs i a v h

-- The two ends of `on_cache`: of the cache that is there, and of what its call came to.
abbrev call_end :
    {Tree R W A : Type 0}
    → ℕ
    → MetadataProxy Tree R W
    → Option (A × Cache Tree R)
    → Option (A × MetadataProxy Tree R W)
call_end i c none = none
call_end i c (some (a, k)) = some (a, record c { pmaps = set c.pmaps i k.pmap; conn = k.conn })

abbrev call_of :
    {Tree R W A : Type 0}
    → ℕ
    → Run (Cache Tree R) A
    → MetadataProxy Tree R W
    → Option (Pmap Tree)
    → Option (A × MetadataProxy Tree R W)
call_of i op c none = none
call_of i op c (some m) = call_end i c (op (record { pmap = m; conn = c.conn }))

pub on_cache-some :
    {Tree R W A : Type 0} (i : ℕ) (op : Run (Cache Tree R) A) (c : MetadataProxy Tree R W)
    (m : Pmap Tree) (a : A) (k : Cache Tree R)
    → get_elem? c.pmaps i ≡ some m
    → op (record { pmap = m; conn = c.conn }) ≡ some (a, k)
    → on_cache i op c ≡ some (a, record c { pmaps = set c.pmaps i k.pmap; conn = k.conn })
on_cache-some i op c m a k e h = ap (call_of i op c) e ∙ ap (call_end i c) h

no_cache :
    {Tree R W A : Type 0} (i : ℕ) (op : Run (Cache Tree R) A) (c : MetadataProxy Tree R W)
    → get_elem? c.pmaps i ≡ none
    → on_cache i op c ≡ none
no_cache i op c e = ap (call_of i op c) e

on_cache-panic :
    {Tree R W A : Type 0} (i : ℕ) (op : Run (Cache Tree R) A) (c : MetadataProxy Tree R W)
    (m : Pmap Tree)
    → get_elem? c.pmaps i ≡ some m
    → op (record { pmap = m; conn = c.conn }) ≡ none
    → on_cache i op c ≡ none
on_cache-panic i op c m e h = ap (call_of i op c) e ∙ ap (call_end i c) h

-- A call through one cache leaves the maps of the others.
pub on_cache-other :
    {Tree R W A : Type 0} (i j : ℕ) (op : Run (Cache Tree R) A) (c c' : MetadataProxy Tree R W)
    (a : A)
    → i ≢ j
    → on_cache i op c ≡ some (a, c')
    → get_elem? c'.pmaps j ≡ get_elem? c.pmaps j
on_cache-other i j op c c' a other e = elim (Option-cases (get_elem? c.pmaps i)) [
  | inl none_there ↦ absurd (some-none (sym e ∙ no_cache i op c none_there))
  | inr (m, at_i) ↦ elim (Option-cases (op (record { pmap = m; conn = c.conn }))) [
    | inl panicked ↦ absurd (some-none (sym e ∙ on_cache-panic i op c m at_i panicked))
    | inr ((b, k), done) ↦
        ap (λ r. get_elem? r.1.pmaps j) (some-eq (sym e ∙ on_cache-some i op c m b k at_i done))
        ∙ get_elem?-set_other c.pmaps i j k.pmap other
  ]
]
  where
    some-none : {A : Type 0} {x : A} → some x ≢ none
    some-none e = cc

pub get_elem?_in_range :
    {A : Type 0} (xs : List A) (i : ℕ) → i < length xs → (x : A) × (get_elem? xs i ≡ some x)
get_elem?_in_range [] i h = absurd (omega arith)
get_elem?_in_range (x ∷ xs) zero h = (x, refl)
get_elem?_in_range (x ∷ xs) (suc i) h = get_elem?_in_range xs i (omega arith)

module _ {Tree : Type 0} (net : Net) (holds : Tree → PrincipalIndex → Bool)
    (home : String → Option Home) where
  -- Every cache's maps agree.
  abbrev pub AllHomed : List (Pmap Tree) → Type 0
  AllHomed [] = Unit
  AllHomed (m ∷ pmaps) = IsHomed net holds home m × AllHomed pmaps

  pub AllHomed-at :
      (pmaps : List (Pmap Tree)) (i : ℕ) (m : Pmap Tree)
      → get_elem? pmaps i ≡ some m
      → AllHomed pmaps
      → IsHomed net holds home m
  AllHomed-at [] i m e h = absurd (ground arith)
  AllHomed-at (n ∷ pmaps) zero m e h = rw (← some-eq e) h.0
  AllHomed-at (n ∷ pmaps) (suc i) m e h = AllHomed-at pmaps i m e h.1

  pub AllHomed-set :
      (pmaps : List (Pmap Tree)) (i : ℕ) (m : Pmap Tree)
      → IsHomed net holds home m
      → AllHomed pmaps
      → AllHomed (set pmaps i m)
  AllHomed-set [] i m k h = tt
  AllHomed-set (n ∷ pmaps) zero m k h = (k, h.1)
  AllHomed-set (n ∷ pmaps) (suc i) m k h = (h.0, AllHomed-set pmaps i m k h.1)

module _ {Tree R W : Type 0} (net : Net) (ops : IntTree Tree) (riak : RiakConn R)
    (holds : Tree → PrincipalIndex → Bool) (laws : IsIntTree ops holds)
    (home : String → Option Home) where
  -- A lookup in one cache answers as the cache does, and every cache's maps still agree.
  pub on_cache-Answers :
      (P : Answer → Type 0) (i : ℕ) (op : Run (Cache Tree R) Answer) (c : MetadataProxy Tree R W)
      (m : Pmap Tree)
      → get_elem? c.pmaps i ≡ some m
      → AllHomed net holds home c.pmaps
      → Answers net ops riak holds laws home P (op (record { pmap = m; conn = c.conn }))
      → Returns
          (λ answer (d : MetadataProxy Tree R W). P answer × AllHomed net holds home d.pmaps)
          (on_cache i op c)
  on_cache-Answers P i op c m g h a = go (op (record { pmap = m; conn = c.conn })) refl a
    where
      go :
          (o : Option (Answer × Cache Tree R))
          → op (record { pmap = m; conn = c.conn }) ≡ o
          → Answers net ops riak holds laws home P o
          → Returns
              (λ answer (d : MetadataProxy Tree R W). P answer × AllHomed net holds home d.pmaps)
              (on_cache i op c)
      go none e a = absurd a
      go (some (answer, k)) e a =
          rw (on_cache-some i op c m answer k g e)
            (a.0, AllHomed-set net holds home c.pmaps i k.pmap a.1 h)
