-- ===== src/Proxy/Api/Config.antt =====
-- createSelfConfig, createInstanceConfig and createInstanceKvConfig of proxy/newapi.go.
pub mod Tens
pub mod Rounds
pub mod Hosts
use Prim.Native.String.{◌++◌ as ◌+++◌}
use cloudlab_k8s.Proxy.Fmt.{sprint_int}
use cloudlab_k8s.Prelude.{
  ℕ, zero, suc, ◌+◌, ◌-◌, ◌/◌, ◌%◌, Bool, true, false, not, ◌||◌, Option, none, some, List, [], ◌∷◌,
  ◌++◌, String, string_key, ◌==◌, get_elem?, set, length, take, drop, nat_beq, ltb, leb, ◌&&◌,
  if◌then◌else◌, pos,
}
use cloudlab_k8s.Proxy.Types.{Net, CachedInstance, nil_ip, status_ok, bad_request, unauthorized}
use cloudlab_k8s.Proxy.Run.{Run, pure, deref, ◌>>=◌, ◌>>◌}
use cloudlab_k8s.Proxy.Pmap.{IntTree}
use cloudlab_k8s.Proxy.Cache.{RiakConn, Answer, found, failed}
use cloudlab_k8s.Proxy.Api.{MetadataRequest, MetadataProxy, HttpRequest, authenticate}
use cloudlab_k8s.Proxy.Api.Handler.{Body, plain, Safe, PreHook, new_handler, new_handler_unwrapped}

-- `values[low:high]`; out of range it panics.
unfoldable pub slice_values : List String → ℕ → ℕ → Option (List String)
slice_values values low high =
    if leb low high && leb high (length values)
    then some (take (high - low) (drop low values))
    else none

-- The request that posts some of the values, with nothing else of `mr` than the source copies.
unfoldable pub config_copy : MetadataRequest → String → List String → MetadataRequest
config_copy mr url args = record {
  principal = mr.principal;
  parent_bear = "";
  other_values = args;
  auth = mr.auth;
  ip = nil_ip;
  lport = pos 0;
  rport = pos 0;
  target_cidr = none;
  target_ip = nil_ip;
  target_lport = pos 0;
  target_rport = pos 0;
  target_type = "";
  target_addr_index = 0;
  url = url;
  method = "POST";
  inst = mr.inst;
  cache = mr.cache;
}

-- How the loop over the values ends: with the reply of a request that failed, or with `remain` values
-- that are left from the position `current` on.
pub data Posted : Type 0 where
  stopped : Body → ℕ → Posted
  left : ℕ → ℕ → Posted

-- The end of a request's handler, which refuses or goes on.
abbrev pub Hooked : Type 0
Hooked = MetadataRequest × Body × ℕ

-- After a round: the loop goes on, or stops with the reply.
abbrev pub after_post : {S : Type 0} → Run S Posted → Body × ℕ → Run S Posted
after_post next (msg, status) = if nat_beq status status_ok then next else pure (stopped msg status)

-- After the loop: the values that are left stay in the request, whose URL gets half their number.
abbrev pub finish_configs : {S : Type 0} → MetadataRequest → String → Posted → Run S Hooked
finish_configs mr url (stopped msg status) = pure (mr, msg, status)
finish_configs mr url (left remain current) = pure (
  record mr {
    other_values = take 1 mr.other_values ++ drop current mr.other_values;
    method = "POST";
    url = url +++ sprint_int (pos (remain / 2));
  },
  plain "",
  status_ok,
)

-- The message's part about who speaks for which instance.
abbrev pub speaker : MetadataRequest → CachedInstance → String
speaker mr inst =
    "Speaker: " +++ mr.principal +++ ", Pid: " +++ inst.id.pid +++ ", Saved-PPid: " +++ inst.id.ppid

-- The check that the speaker is the host of the instance; `next` goes on with the instance's
-- identity in place of its name.
abbrev pub after_host :
    {S : Type 0}
    → (MetadataRequest → CachedInstance → Run S Hooked)
    → MetadataRequest
    → String
    → Answer
    → Run S Hooked
after_host next mr name (failed status) =
    pure (mr, plain ("Fail to authenticate the instance " +++ name), status)
after_host next mr name (found inst) =
    if mr.principal == inst.id.ppid
    then next (record mr { other_values = set mr.other_values 0 inst.id.pid }) inst
    else pure (
      mr,
      plain ("Config can only be published by host instance:" +++ speaker mr inst),
      unauthorized,
    )

-- `["key", "value"]` with its quotes escaped, for each key and value. A key without a value panics.
unfoldable pub pair_texts : List String → Option (List String)
pair_texts [] = some []
pair_texts (key ∷ []) = none
pair_texts (key ∷ val ∷ rest) = elim (pair_texts rest) [
  | none ↦ none
  | some result ↦ some (("[\\\"" +++ key +++ "\\\", \\\"" +++ val +++ "\\\"]") ∷ result)
]

-- strings.Join(result, ",")
unfoldable pub join_commas : List String → String
join_commas [] = ""
join_commas (text ∷ []) = text
join_commas (text ∷ next ∷ rest) = text +++ "," +++ join_commas (next ∷ rest)

abbrev pub kv_text : List String → String
kv_text result = "\"[" +++ join_commas result +++ "]\""

-- After the post of the keys and values.
abbrev pub finish_kv : {S : Type 0} → MetadataRequest → Body × ℕ → Run S Hooked
finish_kv mr (msg, status) =
    if nat_beq status status_ok then pure (mr, plain "", status_ok) else pure (mr, msg, status)

module _ {Tree R W : Type 0} (safe : Safe W) (addr : String) where
  -- The loop of createSelfConfig and createInstanceConfig, on fuel: ten values at a time.
  unfoldable pub post_configs : ℕ → MetadataRequest → ℕ → ℕ → Run (MetadataProxy Tree R W) Posted
  post_configs zero mr remain current = pure (left remain current)
  post_configs (suc fuel) mr remain current =
      if ltb 10 remain
      then (do
        first ← deref (get_elem? mr.other_values 0)
        args ← deref (slice_values mr.other_values current (current + 10))
        reply ←
            new_handler safe addr (config_copy mr "/postInstanceConfig5" (first ∷ args)) none none
        after_post (post_configs fuel mr (remain - 10) (current + 10)) reply)
      else pure (left remain current)

  unfoldable pub post_all : MetadataRequest → Run (MetadataProxy Tree R W) Posted
  post_all mr = post_configs (length mr.other_values) mr (length mr.other_values - 1) 1

  -- What createInstanceKvConfig does for the host. `append` to the first two values writes the text
  -- over the third in the array that the request's values share, and the request goes out as well.
  unfoldable pub post_pairs : MetadataRequest → CachedInstance → Run (MetadataProxy Tree R W) Hooked
  post_pairs mr inst =
      let remain = length mr.other_values - 1 in
      if nat_beq (remain % 2) 0 || ltb remain 2
      then pure (mr, plain ("Config must be key value list:" +++ speaker mr inst), bad_request)
      else (do
        result ← deref (pair_texts (drop 2 mr.other_values))
        let actual_args = take 2 mr.other_values ++ kv_text result ∷ []
        let mr' = record mr { other_values = set mr.other_values 2 (kv_text result) }
        reply ← new_handler safe addr (config_copy mr "/postInstanceConfig1" actual_args) none none
        finish_kv mr' reply)

  unfoldable pub pre_self_config : PreHook (MetadataProxy Tree R W)
  pre_self_config mr0 =
      let mr = record mr0 { other_values = mr0.principal ∷ mr0.other_values } in
      (do posted ← post_all mr; finish_configs mr "/postInstanceConfig" posted)

  unfoldable pub post_for_host :
      MetadataRequest → CachedInstance → Run (MetadataProxy Tree R W) Hooked
  post_for_host mr inst = do posted ← post_all mr; finish_configs mr mr.url posted

  module _ (net : Net) (ops : IntTree Tree) (riak : RiakConn R) (hash : String → ℕ) where
    unfoldable pub pre_instance_config : PreHook (MetadataProxy Tree R W)
    pre_instance_config mr = do
      name ← deref (get_elem? mr.other_values 0)
      answer ← authenticate net ops riak hash mr name
      after_host (post_for_host) mr name answer

    unfoldable pub pre_instance_kv_config : PreHook (MetadataProxy Tree R W)
    pre_instance_kv_config mr = do
      name ← deref (get_elem? mr.other_values 0)
      answer ← authenticate net ops riak hash mr name
      after_host post_pairs mr name answer

    abbrev configure :
        PreHook (MetadataProxy Tree R W) → HttpRequest → Run (MetadataProxy Tree R W) (Body × ℕ)
    configure pre r = new_handler_unwrapped safe addr net ops riak hash r (some pre) none true

    unfoldable pub create_self_config : HttpRequest → Run (MetadataProxy Tree R W) (Body × ℕ)
    create_self_config = configure (pre_self_config)

    unfoldable pub create_instance_config : HttpRequest → Run (MetadataProxy Tree R W) (Body × ℕ)
    create_instance_config = configure pre_instance_config

    unfoldable pub create_instance_kv_config : HttpRequest → Run (MetadataProxy Tree R W) (Body × ℕ)
    create_instance_kv_config = configure pre_instance_kv_config
