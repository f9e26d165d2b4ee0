-- ===== src/North/Connection/Backoff.antt =====
-- internal/north/client.go: the waits between failed registrations.
use forgery.Base.{
  ℕ, zero, suc, ◌+◌, ◌*◌, ◌≤◌, ◌≡◌, refl, ap, sym, ◌∙◌, ◌⊎◌, arith, true, false, some, Str, ltb,
  nat_eq, if◌then◌else◌, List, [], ◌∷◌, length, All,
}
use forgery.Proto.{RpcError}
use forgery.North.Connection.{
  ClientState, RegisterError, register_backoff_base, register_backoff_max,
  is_registration_token_error, next_wait, set_backoff, note_register_failure,
}

-- no wait, or one between the base and the maximum
abbrev pub IsWait : ℕ → Type 0
IsWait w = (w ≡ 0) ⊎ ((register_backoff_base ≤ w) × (w ≤ register_backoff_max))

pub next_wait-bounds :
    (w : ℕ)
    → IsWait w
    → (register_backoff_base ≤ next_wait w) × (next_wait w ≤ register_backoff_max)
unfolding next_wait
next_wait-bounds w h = ground arith

-- The waits of a row of transient failures, without the code's cap: 30 s, 60 s, 120 s and so on
abbrev pub doubled : ℕ → ℕ
doubled zero = register_backoff_base
doubled (suc n) = doubled n * 2

base-le-doubled : (n : ℕ) → register_backoff_base ≤ doubled n
base-le-doubled zero = omega arith
base-le-doubled (suc n) = omega (arith, base-le-doubled n)

abbrev pub lesser : ℕ → ℕ → ℕ
lesser a b = if ltb b a then b else a

-- a row of transient failures, the first in front
pub waits : ℕ → ℕ → ℕ
waits zero w = w
waits (suc n) w = waits n (next_wait w)

waits-suc : (n w : ℕ) → waits (suc n) w ≡ next_wait (waits n w)
unfolding waits
waits-suc zero w = refl
waits-suc (suc n) w = waits-suc n (next_wait w)

waits-suc-zero : (n : ℕ) → waits (suc n) 0 ≡ lesser (doubled n) register_backoff_max
waits-suc-zero zero = unfold waits next_wait in refl
waits-suc-zero (suc n) =
    waits-suc (suc n) 0
    ∙ ap next_wait (waits-suc-zero n)
    ∙ (unfold next_wait in ground (arith, base-le-doubled n))

module _ (error_text : RpcError → Str) where
  abbrev pub note : ℕ × RegisterError → ClientState → ClientState
  note (now, e) s = note_register_failure error_text now e s

  abbrev pub note_all : List (ℕ × RegisterError) → ClientState → ClientState
  note_all [] s = s
  note_all (f ∷ fs) s = note_all fs (note f s)

  -- a failure that is not about the registration token
  abbrev pub IsTransient : ℕ × RegisterError → Type 0
  IsTransient (now, e) = is_registration_token_error error_text e ≡ false

  note_all-waits :
      (fs : List (ℕ × RegisterError)) (s : ClientState)
      → All IsTransient fs
      → (note_all fs s).backoff_wait ≡ waits (length fs) s.backoff_wait
  unfolding waits note_register_failure set_backoff
  note_all-waits [] s h = refl
  note_all-waits ((now, e) ∷ fs) s h =
      note_all-waits fs (note (now, e) s) h.1 ∙ ap (waits (length fs)) (rw h.0 refl)

  -- After n transient failures of Register in a row, one more sets the wait to 30 seconds doubled n
  -- times, or to five minutes where that is less, and one about the registration token sets it to five
  -- minutes; Register is then due when the wait is over, counted from that failure.
  pub note_all-doubles :
      (fs : List (ℕ × RegisterError)) (now : ℕ) (e : RegisterError) (s : ClientState)
      → All IsTransient fs
      → s.backoff_wait ≡ 0
      → (is_registration_token_error error_text e ≡ false
          → (note (now, e) (note_all fs s)).backoff_wait
            ≡ lesser (doubled (length fs)) register_backoff_max)
        × (is_registration_token_error error_text e ≡ true
            → (note (now, e) (note_all fs s)).backoff_wait ≡ register_backoff_max)
        × ((note (now, e) (note_all fs s)).backoff_next
            ≡ some (now + (note (now, e) (note_all fs s)).backoff_wait))
  unfolding note_register_failure set_backoff
  note_all-doubles fs now e s transient fresh =
      let before = note_all-waits fs s transient ∙ ap (waits (length fs)) fresh in
      (
        λ other.
            rw other
              (ap next_wait before ∙ sym (waits-suc (length fs) 0) ∙ waits-suc-zero (length fs)),
        λ config. rw config refl,
        ground arith,
      )
