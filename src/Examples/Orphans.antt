-- ===== src/Examples/Orphans.antt =====
-- A session whose runner went silent.
use forgery.Base.{
  text, ◌≡◌, refl, arith, eq_iff, true, false, Bool, pos, none, some, lookup, str_eq,
}
use forgery.Session.{Session, is_silent}
use forgery.App.{gc_once}
use forgery.App.Reap.{IsGivenUp, gc_once_lem}
use forgery.Examples.Fixtures.{resolver}
use forgery.Examples.Tokens.{session, with_session}

-- the daemon is not stopping
abbrev running : Session → Bool
running s = false

gc_once_lem_example :
    (is_silent 2000 (pos 1800) session ≡ true
      → (lookup (text "s0") (gc_once resolver running 2000 (pos 1800) with_session).sessions ≡ none)
        × IsGivenUp resolver false 0 7
            (text "one")
            (gc_once resolver running 2000 (pos 1800) with_session))
    × (is_silent 2000 (pos 1800) session ≡ false
        → lookup (text "s0") (gc_once resolver running 2000 (pos 1800) with_session).sessions
          ≡ some session)
    × (((x : Session) → false ≡ true)
        → (gc_once resolver running 2000 (pos 1800) with_session).sent ≡ with_session.sent)
unfolding lookup
gc_once_lem_example =
    gc_once_lem resolver running 2000 (pos 1800) with_session (text "s0") session
      (record {
        distinct = (refl, record {});
        keyed = λ t s h. ground (arith, eq_iff (text "s0") t);
      })
      refl
