-- ===== src/App/Startup/Resolves.antt =====
-- internal/app/app.go: a daemon that has started can resolve every configured instance.
use forgery.Base.{
  Str, ◌≡◌, ◌≢◌, refl, ap, ◌∙◌, List, [], ◌∷◌, Option, some, Dict, lookup, insert, lookup-insert,
  eq_ne, eq_refl, str_eq, ◌==◌, if◌then◌else◌, eq_iff, sym, subst, inl, inr, Bool-cases, All,
}
use mathlib.Core.Option.{some-injective}
use forgery.Proto.{RpcError}
use forgery.Config.{Instance, Platform, Config}
use forgery.Config.Load.{loaded, load}
use forgery.Config.Defaults.{load-IsReady}
use forgery.Config.Checks.{HasUniqueNames}
use forgery.State.{Json, Disk}
use forgery.North.Connection.{ClientState, new}
use forgery.App.Startup.{
  Network, Started, started, not_started, failed_at, Assembly, assembled, start_instance, proceed,
  assemble,
}

clients_of : Assembly → Dict Str (Instance × ClientState)
clients_of (assembled m d) = m
clients_of (failed_at i e) = []

module _ (json : Json) (error_text : RpcError → Str) (version : Str) (net : Network) where
  proceed-assembled :
      (inst : Instance) (next : ClientState → Assembly) (o : Started)
      (m : Dict Str (Instance × ClientState)) (d : Disk)
      → proceed json error_text version net inst next o ≡ assembled m d
      → (s : ClientState) × (next s ≡ assembled m d)
  proceed-assembled inst next (started s) m d h = (s, h)
  proceed-assembled inst next (not_started e) m d h = cc

  assemble-keeps :
      (is : List Instance) (clients m : Dict Str (Instance × ClientState)) (disk d : Disk)
      (name : Str)
      → assemble json error_text version net is clients disk ≡ assembled m d
      → All (λ (i : Instance). i.name ≢ name) is
      → lookup name m ≡ lookup name clients
  unfolding assemble
  assemble-keeps [] clients m disk d name h others = ap (λ o. lookup name o) (cc)
  assemble-keeps (i ∷ is) clients m disk d name h (other, others) =
      let (s, h') =
        proceed-assembled i _ (start_instance json error_text version net i (new json i disk)) m d
          h in
      assemble-keeps is (insert i.name (i, s) clients) m s.disk d name h' others
      ∙ lookup-insert i.name name (i, s) clients
      ∙ rw (eq_ne i.name name other) refl

  assemble-resolves :
      (is : List Instance) (clients m : Dict Str (Instance × ClientState)) (disk d : Disk)
      → HasUniqueNames is
      → assemble json error_text version net is clients disk ≡ assembled m d
      → All (λ (i : Instance). (s : ClientState) × (lookup i.name m ≡ some (i, s))) is
  unfolding assemble
  assemble-resolves [] clients m disk d u h = record {}
  assemble-resolves (i ∷ is) clients m disk d (apart, u) h =
      let (s, h') =
        proceed-assembled i _ (start_instance json error_text version net i (new json i disk)) m d
          h in
      (
        (
          s,
          assemble-keeps is (insert i.name (i, s) clients) m s.disk d i.name h' apart
              ∙ lookup-insert i.name i.name (i, s) clients
              ∙ rw (eq_refl i.name) refl,
        ),
        assemble-resolves is (insert i.name (i, s) clients) m s.disk d u h',
      )

  -- each instance under its own name
  abbrev pub AreNamed : Dict Str (Instance × ClientState) → Type 0
  AreNamed m =
      (name : Str) (i : Instance) (s : ClientState) → lookup name m ≡ some (i, s) → i.name ≡ name

  insert-AreNamed :
      (i : Instance) (s : ClientState) (m : Dict Str (Instance × ClientState))
      → AreNamed m
      → AreNamed (insert i.name (i, s) m)
  insert-AreNamed i s m named name j t h =
      let read : lookup name (insert i.name (i, s) m)
          ≡ (if i.name == name then some (i, s) else lookup name m) =
        lookup-insert i.name name (i, s) m in
      elim (Bool-cases (i.name == name)) [
        | inl same ↦
            let found : some (i, s) ≡ some (j, t) = sym (rw same at read) ∙ h in
            ap (λ (x : Instance × ClientState). x.0.name) (sym (some-injective (i, s) (j, t) found))
            ∙ (eq_iff i.name name).0 same
        | inr other ↦ named name j t (sym (rw other at read) ∙ h)
      ]

  assemble-AreNamed :
      (is : List Instance) (clients m : Dict Str (Instance × ClientState)) (disk d : Disk)
      → AreNamed clients
      → assemble json error_text version net is clients disk ≡ assembled m d
      → AreNamed m
  unfolding assemble clients_of
  assemble-AreNamed [] clients m disk d named h = subst AreNamed (ap clients_of h) named
  assemble-AreNamed (i ∷ is) clients m disk d named h =
      let (s, h') =
        proceed-assembled i _ (start_instance json error_text version net i (new json i disk)) m d
          h in
      assemble-AreNamed is (insert i.name (i, s) clients) m s.disk d
        (insert-AreNamed i s clients named) h'

  -- Where the configuration was loaded and every instance has started: each configured instance is
  -- resolved by its name, to its own configuration and a client, and every name that is resolved gives
  -- an instance of this name.
  pub assemble-load :
      (platform : Platform) (read_file : Str → Option Str)
      (decode : Str → Option (Config × List Str)) (path : Str) (c : Config)
      (m : Dict Str (Instance × ClientState)) (disk d : Disk)
      → load platform read_file decode path ≡ loaded c
      → assemble json error_text version net c.instances [] disk ≡ assembled m d
      → All (λ (i : Instance). (s : ClientState) × (lookup i.name m ≡ some (i, s))) c.instances
        × AreNamed m
  unfolding lookup
  assemble-load platform read_file decode path c m disk d ready h = (
    assemble-resolves c.instances [] m disk d
        (load-IsReady platform read_file decode path c ready).accepted.unique h,
    assemble-AreNamed c.instances [] m disk d (λ name i s e. cc) h,
  )
