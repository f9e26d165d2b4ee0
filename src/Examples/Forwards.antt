-- ===== src/Examples/Forwards.antt =====
-- A runner that fetches its task and then asks for a repository.
use forgery.Base.{
  text, ◌≡◌, refl, none, some, inl, cut, cut_prefix, lookup, trim_space, str_eq, arith,
}
use forgery.Proto.{ok}
use forgery.Payload.{Yaml}
use forgery.Store.{get_by_reg_token, mark_reg_token_consumed}
use forgery.Session.{create_with_token}
use forgery.Session.Expiry.{IsValid}
use forgery.World.{World}
use forgery.Registry.{runtime_task_tokens}
use forgery.Proxy.{
  Target, forward, serve_http, match_git_path, valid_repo_name, match_git_endpoint, proxy_token,
  is_proxied_path,
}
use forgery.South.{authenticate, session_token_from_request, fetch_task}
use forgery.South.Auth.{one_job_session}
use forgery.South.Forwarding.{fetch_task-forward}
use forgery.Examples.Fixtures.{world, headers, resolver, first_entry}

abbrev entered : World
entered = (authenticate 200 headers world).1

authenticated : authenticate 200 headers world ≡ (ok (one_job_session 200 (text "r1") 0), entered)
unfolding authenticate session_token_from_request lookup cut_prefix get_by_reg_token
    mark_reg_token_consumed create_with_token
authenticated = refl

none_yet : IsValid world.sessions
unfolding lookup
none_yet = record { distinct = tt; keyed = λ token s e. cc }

abbrev target : Target
target = record { scheme = text "https"; host = text "one" }

-- a parser that takes no text
abbrev yaml : Yaml
yaml = record { unmarshal = λ s. none; encode = λ n. none }

fetch_task-forward_example :
    (serve_http
      (λ s. none)
      (λ s. some target)
      resolver
      300
      (text "/o/r/info/refs")
      (text "Bearer t0")
      (fetch_task yaml resolver 200 headers world).1).0
    ≡ forward first_entry.inst target
unfolding authenticate session_token_from_request lookup cut_prefix get_by_reg_token
    mark_reg_token_consumed create_with_token runtime_task_tokens match_git_path valid_repo_name
    match_git_endpoint cut trim_space is_proxied_path proxy_token
fetch_task-forward_example =
    fetch_task-forward yaml resolver (λ s. none) (λ s. some target) 200 300 headers world entered
      (one_job_session 200 (text "r1") 0) (text "/o/r/info/refs") (text "Bearer t0") (text "t0")
      first_entry target none_yet authenticated (inl refl) (omega arith) refl refl refl refl refl
      refl
