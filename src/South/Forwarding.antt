-- ===== src/South/Forwarding.antt =====
-- internal/south/handler.go and proxy.go: a runner that has fetched its task reaches the instance of the
-- task through the proxy.
use forgery.Base.{
  ℕ, ◌+◌, ◌<◌, Str, ◌≡◌, subst, arith, true, false, some, Option, lookup, insert, lookup-insert,
  eq_refl, str_eq, In,
}
use forgery.Proto.{Result, ok, err, panicked}
use forgery.Task.{is_terminal}
use forgery.Session.{Session}
use forgery.Session.Expiry.{IsValid, touch-some}
use forgery.North.{InstanceEntry, Resolver, resolve}
use forgery.World.{World}
use forgery.Registry.{runtime_task_tokens, proxy_entry_ttl}
use forgery.Registry.Laws.{lookup_token-put_task_tokens}
use forgery.Payload.{Yaml}
use forgery.Proxy.{Target, forward, is_proxied_path, proxy_token, serve_http}
use forgery.Proxy.Answers.{IsWeb, serve_http-known}
use forgery.South.Auth.{Auth, refuses, resumes, adopts, one_job_session, authenticate-Auth}
use forgery.South.{Headers, authenticate, fetch_task, fetch_session}

-- an authenticated session is in the session manager
abbrev HasSession : Result Session × World → Type 0
HasSession (ok s, v) = (x : Session) × (lookup s.session_token v.sessions ≡ some x)
HasSession (err e, v) = Unit
HasSession (panicked, v) = Unit

Auth-HasSession :
    (now : ℕ) (hd : Headers) (w : World) (out : Result Session × World)
    → IsValid w.sessions
    → Auth now hd w out
    → HasSession out
Auth-HasSession now hd w out v (refuses m e) = rw e (record {})
Auth-HasSession now hd w out v (resumes token s given known e) = rw e (
  record s { last_activity = now },
  ground (
    arith,
    v.keyed token s known,
    eq_refl token,
    lookup-insert token s.session_token (record s { last_activity = now }) w.sessions,
  ),
)
Auth-HasSession now hd w out v (adopts token r given new found fresh e) =
    let x = one_job_session now token r in
    let m = insert token x w.sessions in
    let held : lookup token m ≡ some x =
      ground (arith, lookup-insert token token x w.sessions, eq_refl token) in
    rw (e, touch-some token now x m held)
      (
        record x { last_activity = now },
        ground
            (arith, lookup-insert token token (record x { last_activity = now }) m, eq_refl token),
      )

-- Once a runner has fetched its task, a git or API request with one of the tokens of the task is forwarded
-- to the instance that the task was fetched from, where the entry of the token has not expired, the task
-- is not terminal, the instance has a web URL, and nothing else has changed the state.
pub fetch_task-forward :
    (yaml : Yaml) (resolver : Resolver) (decode : Str → Option Str) (parse : Str → Option Target)
    (now later : ℕ) (hd : Headers) (w v : World) (s : Session) (path header token : Str)
    (e : InstanceEntry) (target : Target)
    → IsValid w.sessions
    → authenticate now hd w ≡ (ok s, v)
    → In token (runtime_task_tokens (v.heap s.task_ctx).task)
    → later < now + proxy_entry_ttl
    → is_terminal (v.heap s.task_ctx).status ≡ false
    → is_proxied_path path ≡ true
    → proxy_token decode header ≡ some token
    → resolve (v.heap s.task_ctx).instance_name resolver ≡ some e
    → parse e.inst.forgejo_url ≡ some target
    → IsWeb target
    → (serve_http decode parse resolver later path header (fetch_task yaml resolver now hd w).1).0
      ≡ forward e.inst target
unfolding fetch_task fetch_session
fetch_task-forward yaml resolver decode parse now later hd w v s path header token e target valid
      known listed fresh goes_on proxied sent found parsed web =
    let (x, held) : HasSession (ok s, v) =
      subst HasSession known (Auth-HasSession now hd w _ valid (authenticate-Auth now hd w)) in
    rw known (
      serve_http-known decode parse resolver later path header token
        (v.heap s.task_ctx).instance_name _ e target proxied sent
        (lookup_token-put_task_tokens s.task_ctx s.session_token now later v token x listed fresh
          goes_on held)
        found parsed web)
