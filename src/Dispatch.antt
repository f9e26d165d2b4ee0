-- ===== src/Dispatch.antt =====
-- internal/dispatch/github.go: the retries of a workflow_dispatch request. Sending the request is a
-- parameter: its outcome for each attempt. The waits between attempts are recorded, each as the
-- backoff before the jitter of at most a quarter is applied.
pub mod Retries
use forgery.Base.{
  ℕ, zero, suc, ◌+◌, ◌*◌, Str, text, Bool, true, false, ◌&&◌, Option, none, some, List, [], ◌∷◌,
  ◌++◌, leb, ltb, join, take, if◌then◌else◌,
}
use forgery.Config.{Instance, second}
use forgery.Task.{TaskCtx}

pub record GitHub : Type 0 where
  pub token : Str
  pub repo : Str
  pub workflow_id : Str
  pub ref : Str
  pub api_url : Str
  pub public_url : Str

-- The request that dispatch sends: its URL, its credentials and the fields of its JSON body.
pub record DispatchRequest : Type 0 where
  pub url : Str
  pub authorization : Str
  pub body_ref : Str
  pub proxy_url : Str
  pub reg_token : Str
  pub labels : Str

-- What comes of one request: a status with a body, or a failure below HTTP.
pub data Response : Type 0 where
  status : ℕ → Str → Response
  no_response : Response

pub data DispatchFailure : Type 0 where
  dispatch_error : ℕ → Str → DispatchFailure
  other_failure : DispatchFailure

pub dispatch_request : GitHub → TaskCtx → Instance → DispatchRequest
dispatch_request gh t inst = record {
  url =
      gh.api_url
      ++ text "/repos/"
      ++ gh.repo
      ++ text "/actions/workflows/"
      ++ gh.workflow_id
      ++ text "/dispatches";
  authorization = text "Bearer " ++ gh.token;
  body_ref = gh.ref;
  proxy_url = gh.public_url;
  reg_token = t.reg_token;
  labels = join (text ",") inst.forgejo_runner_labels;
}

-- 1 KiB
abbrev pub error_body_limit : ℕ
error_body_limit = 1024

-- `none` is success: only 204 is one.
pub outcome : Response → Option DispatchFailure
outcome no_response = some other_failure
outcome (status code body) =
    if leb 204 code && leb code 204
    then none
    else some (dispatch_error code (take error_body_limit body))

-- DispatchError.Error, with fmt's %d as a parameter; other failures bring their own text
pub error_text : (ℕ → Str) → (code : ℕ) (body : Str) → Str
error_text decimal code body =
    text "dispatch: GitHub API returned " ++ decimal code ++ text ": " ++ body

abbrev pub is_client_error : DispatchFailure → Bool
is_client_error other_failure = false
is_client_error (dispatch_error code body) = leb 400 code && ltb code 500

-- 1 second
abbrev pub initial_backoff : ℕ
initial_backoff = second

abbrev pub default_max_retries : ℕ
default_max_retries = 3

-- 30 seconds
abbrev pub http_client_timeout : ℕ
http_client_timeout = 30 * second

pub record Dispatcher : Type 0 where
  pub timeout : ℕ
  pub gh : GitHub
  pub max_retries : ℕ

unfoldable pub new_dispatcher : GitHub → Dispatcher
new_dispatcher gh = record {
  timeout = http_client_timeout;
  gh = gh;
  max_retries = default_max_retries;
}

-- How the loop ends: the error that is returned, if any, and why.
pub data Ending : Type 0 where
  triggered : Ending
  client_error : DispatchFailure → Ending
  exhausted : DispatchFailure → Ending
  cancelled : Ending

-- A run of the loop: how it ends, the requests sent and the backoffs waited out.
pub record Run : Type 0 where
  pub ending : Ending
  pub requests : ℕ
  pub backoffs : List ℕ

-- after one more request
abbrev sent_one : Run → Run
sent_one r = record r { requests = suc r.requests }

-- after one more wait
abbrev waited : ℕ → Run → Run
waited backoff r = record r { backoffs = backoff ∷ r.backoffs }

abbrev stopped : Ending → Run
stopped e = record { ending = e; requests = 0; backoffs = [] }

-- One request and what its outcome leads to; `rest` is the loop's next round.
abbrev pub after_request : Option DispatchFailure → (DispatchFailure → Run) → Run
after_request none rest = sent_one (stopped triggered)
after_request (some e) rest =
    sent_one (if is_client_error e then stopped (client_error e) else rest e)

-- `interrupted n` is whether the context ends during the wait before attempt n.
module _ (send : ℕ → Response) (interrupted : ℕ → Bool) where
  -- the rounds that are left, from the retry number `attempt` on, after the failure of the last one
  pub retries : ℕ → ℕ → ℕ → DispatchFailure → Run
  unfolding outcome
  retries zero attempt backoff e = stopped (exhausted e)
  retries (suc left) attempt backoff e =
      let next =
        waited backoff
          (after_request (outcome (send attempt)) (retries left (suc attempt) (backoff * 2))) in
      if interrupted attempt then stopped cancelled else next

  pub trigger_with_retry : ℕ → Run
  unfolding retries
  trigger_with_retry max_retries =
      after_request (outcome (send 0)) (retries max_retries 1 initial_backoff)

  pub trigger : Dispatcher → Run
  unfolding trigger_with_retry
  trigger d = trigger_with_retry d.max_retries
