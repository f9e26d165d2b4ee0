-- ===== src/Session/Expiry.antt =====
-- internal/session/manager.go: the laws of the session map, and who is expired.
use forgery.Base.{
  ℕ, Str, ℤ, ◌≡◌, refl, ◌⊎◌, inl, inr, ◌↔◌, arith, true, false, not, str_eq, Option, none, some,
  List, [], ◌∷◌, lookup, insert, only, In, Distinct, lookup-insert, lookup-delete, lookup-keep,
  keep-Distinct, insert-Distinct, delete-Distinct, exceeds, ◌==◌, if◌then◌else◌, eq_iff, eq_refl,
  Bool-cases,
}
use forgery.Task.{Ref, Heap}
use forgery.Token.{encode_to_string, generate_bytes_made, generate_bytes_lost}
use forgery.Session.{
  Session, Manager, create, create_from, create_with_token, touch_found, touch, remove, is_silent,
  silent, expire,
}

-- Each token has one session, which carries that token.
pub record IsValid (m : Manager) : Type 0 where
  pub distinct : Distinct m
  pub keyed : (token : Str) (s : Session) → lookup token m ≡ some s → s.session_token ≡ token

pub insert-IsValid :
    (token : Str) (s : Session) (m : Manager)
    → s.session_token ≡ token
    → IsValid m
    → IsValid (insert token s m)
insert-IsValid token s m e v = record {
  distinct = insert-Distinct token s m v.distinct;
  keyed = λ t r h. ground (arith, lookup-insert token t s m, eq_iff token t, v.keyed t r);
}

pub create_with_token-IsValid :
    (r : Ref) (token name : Str) (labels : List Str) (now : ℕ) (h : Heap) (m : Manager)
    → IsValid m
    → IsValid (create_with_token r token name labels now h m).2
unfolding create_with_token
create_with_token-IsValid r token name labels now h m v = insert-IsValid token _ m refl v

touch_found-IsValid :
    (o : Option Session) (token : Str) (now : ℕ) (m : Manager)
    → lookup token m ≡ o
    → IsValid m
    → IsValid (touch_found o token now m).1
unfolding touch_found
touch_found-IsValid none token now m e v = v
touch_found-IsValid (some s) token now m e v = insert-IsValid token _ m (v.keyed token s e) v

pub touch-some :
    (token : Str) (now : ℕ) (s : Session) (m : Manager)
    → lookup token m ≡ some s
    → touch token now m ≡ (true, insert token (record s { last_activity = now }) m)
unfolding touch touch_found
touch-some token now s m e = rw e refl

pub touch-IsValid :
    (token : Str) (now : ℕ) (m : Manager) → IsValid m → IsValid (touch token now m).1
unfolding touch
touch-IsValid token now m v = touch_found-IsValid (lookup token m) token now m refl v

touch_found-task :
    (o : Option Session) (token t : Str) (now : ℕ) (m : Manager) (s : Session)
    → lookup token m ≡ o
    → lookup t (touch_found o token now m).1 ≡ some s
    → (r : Session) × (lookup t m ≡ some r) × (r.task_ctx ≡ s.task_ctx)
unfolding touch_found
touch_found-task none token t now m s e h = (s, h, refl)
touch_found-task (some u) token t now m s e h = elim (Bool-cases (token == t)) [
  | inl same ↦ (
    u,
    ground (arith, eq_iff token t),
    ground (arith, lookup-insert token t (record u { last_activity = now }) m),
  )
  | inr other ↦
      (s, ground (arith, lookup-insert token t (record u { last_activity = now }) m), refl)
]

-- A touched session belongs to the task it belonged to.
pub touch-task :
    (token t : Str) (now : ℕ) (m : Manager) (s : Session)
    → lookup t (touch token now m).1 ≡ some s
    → (r : Session) × (lookup t m ≡ some r) × (r.task_ctx ≡ s.task_ctx)
unfolding touch
touch-task token t now m s h = touch_found-task (lookup token m) token t now m s refl h

pub remove-IsValid : (token : Str) (m : Manager) → IsValid m → IsValid (remove token m)
unfolding remove
remove-IsValid token m v = record {
  distinct = delete-Distinct token m v.distinct;
  keyed = λ t s h. ground (arith, lookup-delete token t m, v.keyed t s);
}

-- Expire drops a session exactly if it has been silent for longer than the limit.
pub lookup-expire :
    (now : ℕ) (max_age : ℤ) (token : Str) (m : Manager)
    → IsValid m
    → lookup token (expire now max_age m).1
      ≡ only (λ s. not (is_silent now max_age s)) (lookup token m)
unfolding expire
lookup-expire now max_age token m v = lookup-keep _ token m v.distinct

pub expire-IsValid :
    (now : ℕ) (max_age : ℤ) (m : Manager) → IsValid m → IsValid (expire now max_age m).1
expire-IsValid now max_age m v = record {
  distinct = unfold expire in keep-Distinct _ m v.distinct;
  keyed = λ t s h. ground (arith, lookup-expire now max_age t m v, v.keyed t s);
}

abbrev Silenced : ℕ → ℤ → Session → Manager → Type 0
Silenced now max_age s m =
    (token : Str) × (lookup token m ≡ some s) × (is_silent now max_age s ≡ true)

Silenced-cons :
    (now : ℕ) (max_age : ℤ) (s r : Session) (t : Str) (m : Manager)
    → lookup t m ≡ none
    → Silenced now max_age s m
    → Silenced now max_age s ((t, r) ∷ m)
unfolding lookup
Silenced-cons now max_age s r t m free (token, e, h) = (token, ground (arith, eq_iff t token), h)

silent_sound :
    (now : ℕ) (max_age : ℤ) (s : Session) (m : Manager)
    → Distinct m
    → In s (silent now max_age m)
    → Silenced now max_age s m
unfolding silent lookup
silent_sound now max_age s [] d i = elim i [ ]
silent_sound now max_age s ((t, r) ∷ m) d i = elim (Bool-cases (is_silent now max_age r)) [
  | inr kept ↦
      Silenced-cons now max_age s r t m d.0 (silent_sound now max_age s m d.1 (ground arith))
  | inl dropped ↦ elim (first dropped) [
    | inl here ↦ (t, ground (arith, eq_refl t), ground arith)
    | inr later ↦ Silenced-cons now max_age s r t m d.0 (silent_sound now max_age s m d.1 later)
  ]
]
  where
    first : is_silent now max_age r ≡ true → (r ≡ s) ⊎ In s (silent now max_age m)
    first dropped = ground arith

silent_complete :
    (now : ℕ) (max_age : ℤ) (s : Session) (token : Str) (m : Manager)
    → lookup token m ≡ some s
    → is_silent now max_age s ≡ true
    → In s (silent now max_age m)
unfolding silent lookup
silent_complete now max_age s token [] e h = cc
silent_complete now max_age s token ((t, r) ∷ m) e h =
    ground (arith, silent_complete now max_age s token m)

-- The sessions that Expire returns are those that it drops.
pub In-expire :
    (now : ℕ) (max_age : ℤ) (s : Session) (m : Manager)
    → IsValid m
    → In s (expire now max_age m).0 ↔ Silenced now max_age s m
unfolding expire
In-expire now max_age s m v = (
  silent_sound now max_age s m v.distinct,
  λ (token, e, h). silent_complete now max_age s token m e h,
)

-- A touch at an instant keeps the session from every Expire up to the limit after that instant.
pub lookup-expire-touch :
    (now touched : ℕ) (max_age : ℤ) (token : Str) (s : Session) (m : Manager)
    → IsValid m
    → lookup token m ≡ some s
    → exceeds now touched max_age ≡ false
    → lookup token (expire now max_age (touch token touched m).1).1
      ≡ some (record s { last_activity = touched })
lookup-expire-touch now touched max_age token s m v e h =
    rw (lookup-expire now max_age token _ (touch-IsValid token touched m v))
      (unfold touch touch_found in rw e (rw lookup-insert (simp eq_refl (ground arith))))

pub lookup-remove :
    (token t : Str) (m : Manager)
    → lookup t (remove token m) ≡ (if token == t then none else lookup t m)
unfolding remove
lookup-remove token t m = lookup-delete token t m

-- Create with 16 random bytes makes a session under their hexadecimal form.
pub create_made :
    (rand : ℕ → Option (List ℕ)) (r : Ref) (name : Str) (labels : List Str) (now : ℕ) (raw : List ℕ)
    (h : Heap) (m : Manager)
    → rand 16 ≡ some raw
    → create rand r name labels now h m
      ≡ some (create_with_token r (encode_to_string raw) name labels now h m)
unfolding create create_from
create_made rand r name labels now raw h m e = rw (generate_bytes_made rand 15 raw e) refl

-- Without randomness it makes none.
pub create_lost :
    (rand : ℕ → Option (List ℕ)) (r : Ref) (name : Str) (labels : List Str) (now : ℕ) (h : Heap)
    (m : Manager)
    → rand 16 ≡ none
    → create rand r name labels now h m ≡ none
unfolding create create_from
create_lost rand r name labels now h m e = rw (generate_bytes_lost rand 15 e) refl
