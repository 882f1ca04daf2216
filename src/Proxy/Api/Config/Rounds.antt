-- ===== src/Proxy/Api/Config/Rounds.antt =====
-- The loop over configuration values, against posting their tens one after the other.
use Prim.Native.String.{◌++◌ as ◌+++◌}
use cloudlab_k8s.Proxy.Fmt.{sprint_int}
use cloudlab_k8s.Prelude.{
  ℕ, zero, suc, ◌+◌, ◌-◌, ◌*◌, ◌/◌, ◌≤◌, ◌<◌, ◌≡◌, refl, sym, ◌∙◌, ap, inl, inr, ◌⊎◌, true, false,
  Bool-cases, Option, none, some, List, [], ◌∷◌, ◌++◌, map, arith, String, get_elem?, length, take,
  drop, length-drop, nat_beq, ltb, pos, if◌then◌else◌,
}
use cloudlab_k8s.Proxy.Types.{status_ok}
use cloudlab_k8s.Proxy.Run.{Run, pure, ◌>>=◌, bind_through, bind_same, bind_mapped}
use cloudlab_k8s.Proxy.Api.{MetadataRequest, MetadataProxy}
use cloudlab_k8s.Proxy.Api.Handler.{Body, plain, Safe, new_handler}
use cloudlab_k8s.Proxy.Api.Config.{
  config_copy, Posted, Hooked, after_post, finish_configs, post_configs, post_all, pre_self_config,
}
use cloudlab_k8s.Proxy.Api.Config.Tens.{
  tens, joined, AllTen, rounds, ten_requests, drop-drop, joined-tens, tens-AllTen, outcome,
  last_pos, above, left_eq, sliced,
}

module _ {Tree R W : Type 0} (safe : Safe W) (addr : String) where
  abbrev pub after_each :
      Run (MetadataProxy Tree R W) (Option (Body × ℕ))
      → Body × ℕ
      → Run (MetadataProxy Tree R W) (Option (Body × ℕ))
  after_each next (msg, status) =
      if nat_beq status status_ok then next else pure (some (msg, status))

  abbrev pub post_each : List MetadataRequest → Run (MetadataProxy Tree R W) (Option (Body × ℕ))
  post_each [] = pure none
  post_each (q ∷ requests) = do
    reply ← new_handler safe addr q none none
    after_each (post_each requests) reply

  after_ok :
      (next : Run (MetadataProxy Tree R W) Posted)
      (each : Run (MetadataProxy Tree R W) (Option (Body × ℕ))) (remain current : ℕ)
      (reply : Body × ℕ) (c : MetadataProxy Tree R W)
      → next c ≡ (each >>= λ stop. pure (outcome remain current stop)) c
      → after_post next reply c
        ≡ (after_each each reply >>= λ stop. pure (outcome remain current stop)) c
  after_ok next each remain current (msg, status) c e =
      elim (Bool-cases (nat_beq status status_ok)) [
        | inl ok ↦ rw ok e
        | inr failed ↦ rw failed refl
      ]

  post_configs-rounds :
      (n fuel : ℕ) (mr : MetadataRequest) (first : String) (remain current last end : ℕ)
      (rest : List String) (c : MetadataProxy Tree R W)
      → get_elem? mr.other_values 0 ≡ some first
      → n ≤ fuel
      → remain ≡ 10 * n + last
      → end ≡ current + 10 * n
      → last ≤ 10
      → (n ≡ 0) ⊎ (0 < last)
      → current + remain ≡ length mr.other_values
      → drop current mr.other_values ≡ rest
      → post_configs safe addr fuel mr remain current c
        ≡ (post_each
                (map (λ args. config_copy mr "/postInstanceConfig5" (first ∷ args)) (tens n rest))
              >>= λ stop. pure (outcome last end stop))
            c
  unfolding post_configs
  post_configs-rounds zero zero mr first remain current last end rest c g f r e l z k d =
      ap (λ p. some (p, c)) (left_eq remain last current end (omega arith) (omega arith))
  post_configs-rounds zero (suc fuel) mr first remain current last end rest c g f r e l z k d =
      let small : ltb 10 remain ≡ false = ground arith in
      rw small (ap (λ p. some (p, c)) (left_eq remain last current end (omega arith) (omega arith)))
  post_configs-rounds (suc n) zero mr first remain current last end rest c g f r e l z k d =
      absurd (omega arith)
  post_configs-rounds (suc n) (suc fuel) mr first remain current last end rest c g f r e l z k d =
      let big : ltb 10 remain ≡ true = more in
      rw (big, g, sliced mr.other_values current (omega (arith, r, k)), d)
        (bind_through (new_handler safe addr (request (take 10 rest)) none none)
          (λ reply. after_post (post_configs safe addr fuel mr (remain - 10) (current + 10)) reply)
          (λ reply. after_each (post_each (map request (tens n (drop 10 rest)))) reply)
          (λ stop. pure (outcome last end stop)) c
          (λ reply t.
            after_ok (post_configs safe addr fuel mr (remain - 10) (current + 10))
              (post_each (map request (tens n (drop 10 rest)))) last end reply t
              (post_configs-rounds n fuel mr first (remain - 10) (current + 10) last end
                (drop 10 rest) t g (omega arith) (omega arith) (omega arith) l (last_pos n last z)
                (omega arith)
                (sym (drop-drop 10 current (current + 10) mr.other_values refl) ∙ ap (drop 10) d))))
    where
      request : List String → MetadataRequest
      request args = config_copy mr "/postInstanceConfig5" (first ∷ args)

      more : ltb 10 remain ≡ true
      more = above n last remain z l r

-- The request of createSelfConfig: its principal in front of the values.
abbrev pub self_request : MetadataRequest → MetadataRequest
self_request mr = record mr { other_values = mr.principal ∷ mr.other_values }

-- The values of the last request.
abbrev pub last_values : List String → List String
last_values values = drop (10 * rounds values) values

-- What the hook makes of the posts: the request that is still to go out, or the reply that failed.
abbrev pub config_end : MetadataRequest → String → List String → String → Option (Body × ℕ) → Hooked
config_end mr first values url none = (
  record mr {
    other_values = first ∷ last_values values;
    method = "POST";
    url = url +++ sprint_int (pos (length (last_values values) / 2));
  },
  plain "",
  status_ok,
)
config_end mr first values url (some (msg, status)) = (mr, msg, status)

-- The tens and the last values are all values in their order; each ten has ten, and the last request
-- between one and ten, or none where there is no value.
pub record IsSplit (values : List String) : Type 0 where
  pub all_values : joined (tens (rounds values) values) ++ last_values values ≡ values
  pub full : AllTen (tens (rounds values) values)
  pub short : length (last_values values) ≤ 10
  pub used : (values ≡ []) ⊎ (0 < length (last_values values))

values_used : (values : List String) → (values ≡ []) ⊎ (0 < length (last_values values))
values_used [] = inl refl
values_used (v ∷ values) = inr (omega (arith, length-drop (10 * rounds (v ∷ values)) (v ∷ values)))

some_left : (values : List String) → (rounds values ≡ 0) ⊎ (0 < length (last_values values))
some_left [] = inl (omega arith)
some_left (v ∷ values) = inr (omega (arith, length-drop (10 * rounds (v ∷ values)) (v ∷ values)))

values-IsSplit : (values : List String) → IsSplit values
values-IsSplit values = record {
  all_values = joined-tens (rounds values) (10 * rounds values) values refl;
  full = tens-AllTen (rounds values) values (omega arith);
  short = omega (arith, length-drop (10 * rounds values) values);
  used = values_used values;
}

module _ {Tree R W : Type 0} (safe : Safe W) (addr : String) where
  finish_left :
      (mr : MetadataRequest) (first : String) (values : List String) (url : String) (end : ℕ)
      (stop : Option (Body × ℕ)) (c : MetadataProxy Tree R W)
      → mr.other_values ≡ first ∷ values
      → end ≡ suc (10 * rounds values)
      → finish_configs mr url (outcome (length (last_values values)) end stop) c
        ≡ some (config_end mr first values url stop, c)
  finish_left mr first values url end none c v e = rw (v, e) refl
  finish_left mr first values url end (some (msg, status)) c v e = refl

  pub post_all-rounds :
      (mr : MetadataRequest) (first : String) (values : List String) (url : String)
      (c : MetadataProxy Tree R W)
      → mr.other_values ≡ first ∷ values
      → (post_all safe addr mr >>= finish_configs mr url) c
        ≡ (post_each safe addr (ten_requests mr first values) >>= λ stop.
              pure (config_end mr first values url stop))
            c
  unfolding post_all
  post_all-rounds mr first values url c v =
      bind_same (post_all safe addr mr)
        (post_each safe addr (ten_requests mr first values) >>= λ stop.
          pure (outcome (length (last_values values)) (suc (10 * rounds values)) stop))
        (finish_configs mr url) c c
        (post_configs-rounds safe addr (rounds values) (length mr.other_values) mr first
          (length mr.other_values - 1) 1 (length (last_values values)) (suc (10 * rounds values))
          values c (ap (λ vs. get_elem? vs 0) v) (omega (arith, ap length v))
          (omega (arith, ap length v, length-drop (10 * rounds values) values)) (omega arith)
          (values-IsSplit values).short (some_left values) (omega (arith, ap length v))
          (ap (drop 1) v))
      ∙ bind_mapped (post_each safe addr (ten_requests mr first values))
          (outcome (length (last_values values)) (suc (10 * rounds values))) (finish_configs mr url)
          (λ stop. pure (config_end mr first values url stop)) c
          (λ stop t. finish_left mr first values url (suc (10 * rounds values)) stop t v refl)

  -- The hook of createSelfConfig, for any number of values: it posts their tens, each behind the
  -- principal, one after the other up to the first post that fails, whose reply it returns; else the
  -- request goes on with the values that are left. These are all values in their order, and at most
  -- ten are left.
  pub pre_self_config-rounds :
      (mr : MetadataRequest) (c : MetadataProxy Tree R W)
      → (pre_self_config safe addr mr c
          ≡ (post_each safe addr (ten_requests (self_request mr) mr.principal mr.other_values)
                >>= λ stop. pure (
                    config_end
                      (self_request mr)
                      mr.principal
                      mr.other_values
                      "/postInstanceConfig"
                      stop))
              c)
        × IsSplit mr.other_values
  unfolding pre_self_config
  pre_self_config-rounds mr c = (
    post_all-rounds (self_request mr) mr.principal mr.other_values "/postInstanceConfig" c refl,
    values-IsSplit mr.other_values,
  )
