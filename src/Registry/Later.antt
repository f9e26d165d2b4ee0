-- ===== src/Registry/Later.antt =====
-- internal/south/proxy.go: the registry of task tokens leaves the tasks alone.
use forgery.Base.{ℕ, Str, delete, inl, inr, str_eq}
use forgery.Task.{Ref}
use forgery.World.{World}
use forgery.World.Later.{IsLater, IsLater-refl, aside-IsLater}
use forgery.Registry.{put_task_tokens, lookup_token}
use forgery.Registry.Laws.{lookup_token_cases}

pub put_task_tokens-IsLater :
    (r : Ref) (session_token : Str) (now : ℕ) (w : World)
    → IsLater w (put_task_tokens r session_token now w)
unfolding put_task_tokens
put_task_tokens-IsLater r session_token now w = aside-IsLater w w.sessions _ w.sent

pub lookup_token-IsLater :
    (token : Str) (now : ℕ) (w : World) → IsLater w (lookup_token token now w).1
lookup_token-IsLater token now w = elim (lookup_token_cases token now w) [
  | inl (e, (found, alive, h)) ↦ rw h (IsLater-refl w)
  | inr (dead, h) ↦ rw h (aside-IsLater w w.sessions (delete token w.entries) w.sent)
]
