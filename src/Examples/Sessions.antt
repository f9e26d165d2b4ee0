-- ===== src/Examples/Sessions.antt =====
-- The session map on concrete inputs.
use forgery.Base.{text, pos, ◌≡◌, refl, arith, some, none, [], ◌∷◌, lookup, str_eq, eq_iff}
use forgery.Session.{Session, Manager, touch, expire}
use forgery.Session.Expiry.{IsValid, lookup-expire, lookup-expire-touch}

abbrev session : Session
session = record {
  session_token = text "s";
  task_ctx = 0;
  runner_name = text "runner";
  labels = [];
  last_activity = 100;
}

abbrev manager : Manager
manager = (text "s", session) ∷ []

manager-IsValid : IsValid manager
unfolding lookup
manager-IsValid = record {
  distinct = (refl, tt);
  keyed = λ t s h. ground (arith, eq_iff (text "s") t);
}

lookup-expire_example : lookup (text "s") (expire 2000 (pos 1800) manager).1 ≡ none
unfolding lookup
lookup-expire_example = lookup-expire 2000 (pos 1800) (text "s") manager manager-IsValid

lookup-expire-touch_example :
    lookup (text "s") (expire 2000 (pos 1800) (touch (text "s") 200 manager).1).1
    ≡ some (record session { last_activity = 200 })
unfolding lookup
lookup-expire-touch_example =
    lookup-expire-touch 2000 200 (pos 1800) (text "s") session manager manager-IsValid refl refl
