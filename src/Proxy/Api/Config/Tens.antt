-- ===== src/Proxy/Api/Config/Tens.antt =====
-- The values of a configuration in tens, as the loop of createSelfConfig in proxy/newapi.go takes
-- them.
use mathlib.Core.List.{append_assoc}
use cloudlab_k8s.Prelude.{
  ℕ, zero, suc, ◌+◌, ◌-◌, ◌*◌, ◌/◌, ◌≤◌, ◌<◌, ◌≡◌, refl, ap, inl, inr, ◌⊎◌, true, Option, none,
  some, List, [], ◌∷◌, ◌++◌, map, arith, String, length, take, drop, take-append-drop, length-take,
  length-drop, ltb,
}
use cloudlab_k8s.Proxy.Api.{MetadataRequest}
use cloudlab_k8s.Proxy.Api.Handler.{Body}
use cloudlab_k8s.Proxy.Api.Config.{slice_values, config_copy, Posted, stopped, left}

-- The first `n` tens of the values.
abbrev pub tens : ℕ → List String → List (List String)
tens zero values = []
tens (suc n) values = take 10 values ∷ tens n (drop 10 values)

abbrev pub joined : List (List String) → List String
joined [] = []
joined (vs ∷ rest) = vs ++ joined rest

abbrev pub AllTen : List (List String) → Type 0
AllTen [] = Unit
AllTen (vs ∷ rest) = (length vs ≡ 10) × AllTen rest

-- How many tens are posted before the last request, which has at most ten values and, where there are
-- any, at least one.
abbrev pub rounds : List String → ℕ
rounds values = (length values - 1) / 10

-- The requests of the tens.
abbrev pub ten_requests : MetadataRequest → String → List String → List MetadataRequest
ten_requests mr first values =
    map (λ args. config_copy mr "/postInstanceConfig5" (first ∷ args)) (tens (rounds values) values)

pub drop-drop :
    (n m k : ℕ) (values : List String) → k ≡ m + n → drop n (drop m values) ≡ drop k values
drop-drop n zero k values e = let e' : n ≡ k = omega arith in ap (λ i. drop i values) e'
drop-drop zero (suc m) zero [] e = refl
drop-drop (suc n) (suc m) zero [] e = refl
drop-drop zero (suc m) (suc k) [] e = refl
drop-drop (suc n) (suc m) (suc k) [] e = refl
drop-drop n (suc m) zero (v ∷ values) e = absurd (omega arith)
drop-drop n (suc m) (suc k) (v ∷ values) e = drop-drop n m k values (omega arith)

pub joined-tens :
    (n k : ℕ) (values : List String) → k ≡ 10 * n → joined (tens n values) ++ drop k values ≡ values
joined-tens zero k values e = let e' : k ≡ zero = omega arith in ap (λ i. drop i values) e'
joined-tens (suc n) k values e =
    rw
      (
        append_assoc,
        ← drop-drop (10 * n) 10 k values (omega arith),
        joined-tens n (10 * n) (drop 10 values) refl,
      )
      (take-append-drop 10 values)

pub tens-AllTen : (n : ℕ) (values : List String) → 10 * n ≤ length values → AllTen (tens n values)
tens-AllTen zero values h = tt
tens-AllTen (suc n) values h = (
  omega (arith, length-take 10 values),
  tens-AllTen n (drop 10 values) (omega (arith, length-drop 10 values)),
)

-- The loop's outcome from that of the posts.
abbrev pub outcome : ℕ → ℕ → Option (Body × ℕ) → Posted
outcome remain current none = left remain current
outcome remain current (some (msg, status)) = stopped msg status

pub last_pos : (n last : ℕ) → (suc n ≡ 0) ⊎ (0 < last) → (n ≡ 0) ⊎ (0 < last)
last_pos n last (inl e) = absurd (omega arith)
last_pos n last (inr h) = inr h

pub above :
    (n last remain : ℕ)
    → (suc n ≡ 0) ⊎ (0 < last)
    → last ≤ 10
    → remain ≡ 10 * suc n + last
    → ltb 10 remain ≡ true
above n last remain (inl e) l r = absurd (omega arith)
above n last remain (inr h) l r = ground arith

pub left_eq : (r s d e : ℕ) → r ≡ s → d ≡ e → left r d ≡ left s e
left_eq r s d e h k = cc

pub sliced :
    (values : List String) (current : ℕ)
    → current + 10 ≤ length values
    → slice_values values current (current + 10) ≡ some (take 10 (drop current values))
unfolding slice_values
sliced values current h =
    let width : current + 10 - current ≡ 10 = omega arith in rw width (ground arith)

-- Posts requests one after the other up to the first that fails, whose reply it returns.
