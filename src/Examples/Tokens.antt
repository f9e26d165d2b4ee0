-- ===== src/Examples/Tokens.antt =====
-- The proxy's tokens of one task, before and after its last update.
use forgery.Base.{Str, text, ◌≡◌, ◌↔◌, some, none, [], ◌∷◌, lookup, str_eq, ◌==◌, if◌then◌else◌}
use forgery.Session.{Session}
use forgery.World.{World, TokenEntry}
use forgery.Registry.{lookup_token}
use forgery.Registry.Laws.{IsAlive, lookup_token_lem}
use forgery.Examples.Fixtures.{world}

abbrev pub session : Session
session = record {
  session_token = text "s0";
  task_ctx = 0;
  runner_name = text "runner";
  labels = [];
  last_activity = 100;
}

abbrev pub with_session : World
with_session = record world { sessions = (text "s0", session) ∷ [] }

lookup_token_lem_example :
    (((lookup_token (text "t9") 300 with_session).0 ≡ some (text "one")) ↔ (
      (e : TokenEntry) × (lookup (text "t9") with_session.entries ≡ some e)
      × IsAlive 300 with_session e
      × (e.instance_name ≡ text "one")))
    × ((lookup_token (text "t9") 300 with_session).0 ≡ none
        → (t : Str)
        → lookup t (lookup_token (text "t9") 300 with_session).1.entries
          ≡ (if text "t9" == t then none else lookup t with_session.entries))
lookup_token_lem_example = lookup_token_lem (text "t9") 300 with_session (text "one")
