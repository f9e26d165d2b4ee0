-- ===== src/Registry.antt =====
-- internal/south/proxy.go: the registry that maps the tokens of running tasks to their instances.
pub mod Laws
pub mod Invariant
pub mod Later
use forgery.Base.{
  ℕ, ◌+◌, ◌*◌, Str, text, Bool, true, false, not, ◌&&◌, ◌||◌, ◌==◌, str_eq, Option, none, some,
  List, [], ◌∷◌, ◌++◌, Dict, lookup, insert, delete, is_empty, any, ltb, if◌then◌else◌,
}
use forgery.Proto.{Task, Value, get_string_value, get_string}
use forgery.Task.{Ref, TaskCtx, is_terminal}
use forgery.Config.{second}
use forgery.World.{World, TokenEntry}

-- 24 hours
abbrev pub proxy_entry_ttl : ℕ
proxy_entry_ttl = 24 * (3600 * second)

-- The closure `add`: the tokens so far, and one more unless it is empty or seen.
abbrev add_token : Str → List Str → List Str
add_token s out = if is_empty s || any (λ t. t == s) out then out else out ++ s ∷ []

abbrev context_tokens : Option (Dict Str Value) → List Str
context_tokens none = []
context_tokens (some fields) =
    add_token (get_string_value (lookup (text "gitea_runtime_token") fields))
      (add_token (get_string_value (lookup (text "token") fields)) [])

unfoldable pub runtime_task_tokens : Option Task → List Str
runtime_task_tokens none = []
runtime_task_tokens (some task) =
    add_token (get_string (lookup (text "GITHUB_TOKEN") task.secrets)) (
      add_token (get_string (lookup (text "GITEA_TOKEN") task.secrets))
        (context_tokens task.context))

-- the loop of putTaskTokens
pub put_tokens : TokenEntry → List Str → Dict Str TokenEntry → Dict Str TokenEntry
put_tokens e [] entries = entries
put_tokens e (t ∷ ts) entries = put_tokens e ts (insert t e entries)

abbrev pub entry_for : World → Ref → Str → ℕ → TokenEntry
entry_for w r session_token now = record {
  instance_name = (w.heap r).instance_name;
  task = r;
  session_token = session_token;
  expire_at = now + proxy_entry_ttl;
}

pub put_task_tokens : Ref → Str → ℕ → World → World
unfolding put_tokens
put_task_tokens r session_token now w = record w {
  entries =
      put_tokens (entry_for w r session_token now) (runtime_task_tokens (w.heap r).task) w.entries;
}

-- the session check of a lookup, once the entry itself is alive
lookup_alive : Str → TokenEntry → World → Option Str × World
lookup_alive token e w = elim (lookup e.session_token w.sessions) [
  | none ↦ (none, record w { entries = delete token w.entries })
  | some s ↦ (some e.instance_name, w)
]

lookup_found : Str → ℕ → Option TokenEntry → World → Option Str × World
unfolding lookup_alive
lookup_found token now none w = (none, record w { entries = delete token w.entries })
lookup_found token now (some e) w =
    if not (ltb now e.expire_at) || is_terminal (w.heap e.task).status
    then (none, record w { entries = delete token w.entries })
    else lookup_alive token e w

unfoldable pub lookup_token : Str → ℕ → World → Option Str × World
unfolding lookup_found
lookup_token token now w = lookup_found token now (lookup token w.entries) w
