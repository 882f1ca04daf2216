-- ===== src/Proxy/Api/Handler.antt =====
-- newHandler and newHandlerUnwrapped of proxy/newapi.go: the hooks around one call of the SAFE
-- server.
use Prim.Native.String.{len, slice, ◌++◌}
use text.Mathlib.Text.{starts_with}
use cloudlab_k8s.Prelude.{
  ℕ, ◌-◌, string_key, ◌==◌, ◌≡◌, ◌≢◌, ◌∙◌, Bool, true, Option, none, some, arith, String, nat_beq,
  if◌then◌else◌,
}
use cloudlab_k8s.Proxy.Types.{Net, status_ok, internal_server_error}
use cloudlab_k8s.Proxy.Run.{Run, pure, ◌>>=◌, bind_some}
use cloudlab_k8s.Proxy.Pmap.{IntTree}
use cloudlab_k8s.Proxy.Cache.{RiakConn}
use cloudlab_k8s.Proxy.Api.{
  MetadataRequest, MetadataProxy, HttpRequest, Auth, authenticated, refused, new_auth,
}

-- The body of a reply: a fixed text, the text of the SAFE server, the JSON message with a pid, or
-- the refusal of a request with its addresses.
pub data Body : Type 0 where
  plain : String → Body
  safe_text : String → Body
  pid_message : String → Body
  not_authorized : MetadataRequest → Body

-- What http.Client.Do and ReadAll come to: an error, with the response's status if there is one; a
-- body that cannot be read; or a body and its status.
pub data Reply : Type 0 where
  transport_error : Option ℕ → Reply
  unreadable : Reply
  answered : String → ℕ → Reply

-- The SAFE server behind the HTTP client. `encode` is the JSON of a request, and `new_request` says
-- whether http.NewRequest takes the method and the URL.
pub record Safe (W : Type 0) : Type 0 where
  pub encode : MetadataRequest → Option String
  pub new_request : String → String → Bool
  pub send : String → String → String → W → Reply × W

-- strings.HasSuffix with a text of one byte
abbrev pub ends_with_slash : String → Bool
ends_with_slash s = slice s (len s - 1) (len s) == "/"

abbrev pub http_scheme : String
http_scheme = "http://"

-- getUrl of proxy/server.go
unfoldable pub get_url : String → String → String
get_url addr api =
    let a0 : String = if ends_with_slash addr then "" else addr ++ "/" in
    let a1 : String = if starts_with addr http_scheme then a0 else http_scheme ++ a0 in
    let rest : String = if starts_with api "/" then slice api 1 (len api) else api in a1 ++ rest

-- Of a configured SAFE address that ends with a slash nothing but its scheme is left in the URL: two
-- such addresses, both with the scheme or both without, give the same URL.
get_url-slash :
    (a b api : String)
    → ends_with_slash a ≡ true
    → ends_with_slash b ≡ true
    → starts_with a http_scheme ≡ starts_with b http_scheme
    → get_url a api ≡ get_url b api
unfolding get_url
get_url-slash a b api h k e = rw (h, k, e)

-- A hook before the call, which may change the request, and one behind it.
abbrev pub PreHook : Type 0 → Type 0
PreHook S = MetadataRequest → Run S (MetadataRequest × Body × ℕ)

abbrev pub PostHook : Type 0 → Type 0
PostHook S = MetadataRequest → String → ℕ → Run S (Body × ℕ)

abbrev pub run_pre : {S : Type 0} → Option (PreHook S) → PreHook S
run_pre none mr = pure (mr, plain "", status_ok)
run_pre (some hook) mr = hook mr

abbrev pub run_post : {S : Type 0} → Option (PostHook S) → PostHook S
run_post none mr body status = pure (safe_text body, status)
run_post (some hook) mr body status = hook mr body status

module _ {Tree R W : Type 0} (safe : Safe W) (addr : String) where
  abbrev pub call : String → String → String → Run (MetadataProxy Tree R W) Reply
  call method url body c =
      let (reply, w) = safe.send method url body c.safe in some (reply, record c { safe = w })

  -- newHandler behind the reply.
  unfoldable pub after_reply :
      MetadataRequest
      → Option (PostHook (MetadataProxy Tree R W))
      → Reply
      → Run (MetadataProxy Tree R W) (Body × ℕ)
  after_reply mr post (transport_error none) = pure (plain "error proxying", internal_server_error)
  after_reply mr post (transport_error (some status)) = pure (plain "error proxying", status)
  after_reply mr post unreadable = pure (plain "error reading the response", internal_server_error)
  after_reply mr post (answered body status) = run_post post mr body status

  -- newHandler behind the encoding of the request.
  unfoldable pub send_encoded :
      MetadataRequest
      → Option (PostHook (MetadataProxy Tree R W))
      → Option String
      → Run (MetadataProxy Tree R W) (Body × ℕ)
  send_encoded mr post none = pure (plain "error encoding", internal_server_error)
  send_encoded mr post (some body) =
      if safe.new_request mr.method (get_url addr mr.url)
      then (do reply ← call mr.method (get_url addr mr.url) body; after_reply mr post reply)
      else pure (plain "fail to generate new request", internal_server_error)

  -- newHandler behind the first hook.
  unfoldable pub after_pre :
      Option (PostHook (MetadataProxy Tree R W))
      → MetadataRequest × Body × ℕ
      → Run (MetadataProxy Tree R W) (Body × ℕ)
  after_pre post (mr, msg, status) =
      if nat_beq status status_ok then send_encoded mr post (safe.encode mr) else pure (msg, status)

  unfoldable pub new_handler :
      MetadataRequest
      → Option (PreHook (MetadataProxy Tree R W))
      → Option (PostHook (MetadataProxy Tree R W))
      → Run (MetadataProxy Tree R W) (Body × ℕ)
  new_handler mr pre post = do r ← run_pre pre mr; after_pre post r

  module _ (net : Net) (ops : IntTree Tree) (riak : RiakConn R) (hash : String → ℕ) where
    unfoldable pub after_auth :
        Option (PreHook (MetadataProxy Tree R W))
        → Option (PostHook (MetadataProxy Tree R W))
        → Auth
        → Run (MetadataProxy Tree R W) (Body × ℕ)
    after_auth pre post (refused status) = pure (plain "can not authenticate request", status)
    after_auth pre post (authenticated mr) = new_handler mr pre post

    unfoldable pub new_handler_unwrapped :
        HttpRequest
        → Option (PreHook (MetadataProxy Tree R W))
        → Option (PostHook (MetadataProxy Tree R W))
        → Bool
        → Run (MetadataProxy Tree R W) (Body × ℕ)
    new_handler_unwrapped r pre post auth_principal = do
      a ← new_auth net ops riak hash r auth_principal
      after_auth pre post a

  -- A request that the first hook refuses reaches neither the SAFE server nor the second hook: the
  -- reply is the hook's, and the proxy is as the hook left it.
  pub new_handler-refused :
      (mr mr' : MetadataRequest) (hook : PreHook (MetadataProxy Tree R W))
      (post : Option (PostHook (MetadataProxy Tree R W))) (c c' : MetadataProxy Tree R W)
      (msg : Body) (status : ℕ)
      → hook mr c ≡ some ((mr', msg, status), c')
      → status ≢ status_ok
      → new_handler mr (some hook) post c ≡ some ((msg, status), c')
  unfolding new_handler after_pre
  new_handler-refused mr mr' hook post c c' msg status e ne =
      bind_some hook' (after_pre post) c c' (mr', msg, status) e ∙ ground arith
    where
      hook' : Run (MetadataProxy Tree R W) (MetadataRequest × Body × ℕ)
      hook' = hook mr
