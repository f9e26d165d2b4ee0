-- ===== src/Registry/Invariant.antt =====
-- internal/south/proxy.go: the registry of task tokens keeps what ties the shared state together.
use forgery.Base.{
  ℕ, ◌<◌, Str, ◌≡◌, arith, some, List, [], ◌∷◌, Dict, lookup, insert, delete, lookup-insert,
  lookup-delete, str_eq, inl, inr,
}
use forgery.Task.{Ref}
use forgery.World.{World, TokenEntry}
use forgery.World.Routed.{Issued, IsRouted, reenter}
use forgery.Registry.{put_tokens, entry_for, put_task_tokens, runtime_task_tokens, lookup_token}
use forgery.Registry.Laws.{lookup_token_cases}

-- the entries name the instances of their tasks, which are contexts below `issued`
abbrev AreRouted : Issued → World → Dict Str TokenEntry → Type 0
AreRouted issued w m =
    (token : Str) (e : TokenEntry)
    → lookup token m ≡ some e
    → (e.task < issued.made) × (e.instance_name ≡ issued.owner e.task)

put_tokens-AreRouted :
    (issued : Issued) (w : World) (e : TokenEntry) (ts : List Str) (m : Dict Str TokenEntry)
    → (e.task < issued.made) × (e.instance_name ≡ issued.owner e.task)
    → AreRouted issued w m
    → AreRouted issued w (put_tokens e ts m)
unfolding put_tokens
put_tokens-AreRouted issued w e [] m own old = old
put_tokens-AreRouted issued w e (t ∷ ts) m own old =
    put_tokens-AreRouted issued w e ts (insert t e m) own
      (λ u x h. ground (arith, lookup-insert t u e m, old u x))

pub put_task_tokens-IsRouted :
    (issued : Issued) (r : Ref) (session_token : Str) (now : ℕ) (w : World)
    → r < issued.made
    → IsRouted issued w
    → IsRouted issued (put_task_tokens r session_token now w)
unfolding put_task_tokens
put_task_tokens-IsRouted issued r session_token now w known v = reenter issued w v _ (
    put_tokens-AreRouted issued w (entry_for w r session_token now)
      (runtime_task_tokens (w.heap r).task) w.entries (known, (v.contexts r known).1) v.routed)

pub lookup_token-IsRouted :
    (issued : Issued) (token : Str) (now : ℕ) (w : World)
    → IsRouted issued w
    → IsRouted issued (lookup_token token now w).1
lookup_token-IsRouted issued token now w v = elim (lookup_token_cases token now w) [
  | inl (e, (found, alive, h)) ↦ rw h v
  | inr (dead, h) ↦ rw h (
      reenter issued w v (delete token w.entries)
        (λ t e h. v.routed t e (ground (arith, lookup-delete token t w.entries))))
]
