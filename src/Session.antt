-- ===== src/Session.antt =====
-- internal/session/manager.go: the sessions of internal runners. A session is held by value in the
-- manager's map: no other component keeps a `*Session` beyond one call.
pub mod Expiry
use forgery.Base.{
  ℕ, Str, ℤ, pos, Bool, true, false, not, ◌==◌, nat_eq, str_eq, Option, none, some, List, [], ◌∷◌,
  Dict, lookup, insert, delete, keep, exceeds, if◌then◌else◌,
}
use forgery.Task.{Ref, Heap, update, set_session_token}
use forgery.Token.{Generated, made, failed, generate_bytes, encode_to_string}

pub record Session : Type 0 where
  pub session_token : Str
  pub task_ctx : Ref
  pub runner_name : Str
  pub labels : List Str
  pub last_activity : ℕ

abbrev pub Manager : Type 0
Manager = Dict Str Session

unfoldable pub new_manager : Manager
new_manager = []

unfoldable pub create_with_token :
    Ref → Str → Str → List Str → ℕ → Heap → Manager → Session × Heap × Manager
create_with_token r token name labels now h m =
    (session, update h r (set_session_token token), insert token session m)
  where
    session : Session
    session = record {
      session_token = token;
      task_ctx = r;
      runner_name = name;
      labels = labels;
      last_activity = now;
    }

abbrev pub session_token_bytes : ℤ
session_token_bytes = pos 16

create_from :
    Generated (List ℕ)
    → Ref
    → Str
    → List Str
    → ℕ
    → Heap
    → Manager
    → Option (Session × Heap × Manager)
unfolding create_with_token
create_from (failed e) r name labels now h m = none
create_from (made raw) r name labels now h m =
    some (create_with_token r (encode_to_string raw) name labels now h m)

-- `none` is the panic after a failure of the source of randomness.
unfoldable pub create :
    (rand : ℕ → Option (List ℕ))
    → Ref
    → Str
    → List Str
    → ℕ
    → Heap
    → Manager
    → Option (Session × Heap × Manager)
unfolding create_from
create rand r name labels now h m =
    create_from (generate_bytes rand session_token_bytes) r name labels now h m

abbrev pub lookup_session : Str → Manager → Option Session
lookup_session token m = lookup token m

touch_found : Option Session → Str → ℕ → Manager → Bool × Manager
touch_found none token now m = (false, m)
touch_found (some s) token now m = (true, insert token (record s { last_activity = now }) m)

unfoldable pub touch : Str → ℕ → Manager → Bool × Manager
unfolding touch_found
touch token now m = touch_found (lookup token m) token now m

unfoldable pub remove : Str → Manager → Manager
remove token m = delete token m

abbrev pub is_silent : ℕ → ℤ → Session → Bool
is_silent now max_age s = exceeds now s.last_activity max_age

-- the sessions that Expire returns
silent : ℕ → ℤ → Manager → List Session
silent now max_age [] = []
silent now max_age ((token, s) ∷ m) =
    let rest = silent now max_age m in if is_silent now max_age s then s ∷ rest else rest

pub expire : ℕ → ℤ → Manager → List Session × Manager
unfolding silent
expire now max_age m = (silent now max_age m, keep (λ _ s. not (is_silent now max_age s)) m)
