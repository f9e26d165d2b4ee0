-- ===== src/Proxy/Transports.antt =====
-- internal/south/proxy.go: the cache of transports, one for each instance. Of a transport only the
-- setting is kept that the code gives it: whether it skips the verification of certificates.
use forgery.Base.{
  Str, ◌≡◌, sym, ◌∙◌, arith, Bool, none, some, List, [], ◌∷◌, Dict, lookup, insert, str_eq, eq_iff,
  lookup-insert, inl, inr, Option-cases, All,
}
use forgery.Config.{Instance}

pub transport : Instance → Dict Str Bool → Bool × Dict Str Bool
transport inst m = elim (lookup inst.name m) [
  | some t ↦ (t, m)
  | none ↦ (inst.tls_insecure_skip_verify, insert inst.name inst.tls_insecure_skip_verify m)
]

-- the cache after requests to a list of instances
pub transports : List Instance → Dict Str Bool → Dict Str Bool
transports [] m = m
transports (i ∷ is) m = transports is (transport i m).1

module _ (setting : Str → Bool) where
  abbrev pub HasSetting : Instance → Type 0
  HasSetting i = i.tls_insecure_skip_verify ≡ setting i.name

  abbrev Agrees : Dict Str Bool → Type 0
  Agrees m = (name : Str) (t : Bool) → lookup name m ≡ some t → t ≡ setting name

  insert-Agrees :
      (i : Instance) (m : Dict Str Bool)
      → HasSetting i
      → Agrees m
      → Agrees (insert i.name i.tls_insecure_skip_verify m)
  insert-Agrees i m set agrees name t h = ground (
    arith,
    lookup-insert i.name name i.tls_insecure_skip_verify m,
    eq_iff i.name name,
    agrees name t,
  )

  transport-Agrees :
      (i : Instance) (m : Dict Str Bool)
      → HasSetting i
      → Agrees m
      → ((transport i m).0 ≡ setting i.name) × Agrees (transport i m).1
  unfolding transport
  transport-Agrees i m set agrees = elim (Option-cases (lookup i.name m)) [
    | inl missing ↦ rw (missing, transport) (set, insert-Agrees i m set agrees)
    | inr (t, cached) ↦ rw (cached, transport) (agrees i.name t cached, agrees)
  ]

  transports-Agrees :
      (is : List Instance) (m : Dict Str Bool)
      → All HasSetting is
      → Agrees m
      → Agrees (transports is m)
  unfolding transports
  transports-Agrees [] m sets agrees = agrees
  transports-Agrees (i ∷ is) m (set, sets) agrees =
      transports-Agrees is (transport i m).1 sets (transport-Agrees i m set agrees).1

  -- Where instances of one name have one setting: after any requests, a request to an instance uses a
  -- transport with the instance's own setting.
  pub transport-transports :
      (is : List Instance) (i : Instance)
      → All HasSetting is
      → HasSetting i
      → (transport i (transports is [])).0 ≡ i.tls_insecure_skip_verify
  unfolding lookup
  transport-transports is i sets set =
      (transport-Agrees i (transports is []) set (transports-Agrees is [] sets (λ name t h. cc))).0
      ∙ sym set
