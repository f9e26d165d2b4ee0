-- ===== src/App/Later.antt =====
-- internal/app/app.go: the garbage collection undoes nothing.
use forgery.Base.{arith, Bool, ℕ, ℤ, refl, sym, ◌∙◌, List, [], ◌∷◌, Option, none, some, only-some}
use forgery.Task.{Ref, mark_done}
use forgery.Store.{gc}
use forgery.Store.Index.{IsValid}
use forgery.Store.Gc.{gc_lem}
use forgery.Session.{Session, expire}
use forgery.North.{Resolver, InstanceEntry, resolve}
use forgery.World.{World}
use forgery.World.Later.{
  IsLater, IsKeyed, IsLater-refl, IsLater-trans, IsLater-IsKeyed, aside-IsLater, restock-IsLater,
  end-IsLater,
}
use forgery.App.{report, reap, reap_all, gc_once}

module _ (resolver : Resolver) (aborted : Session → Bool) where
  report-IsLater :
      (stopped : Bool) (o : Option InstanceEntry) (r : Ref) (w : World)
      → IsLater w (report stopped o r w)
  report-IsLater stopped none r w = IsLater-refl w
  report-IsLater stopped (some e) r w = aside-IsLater w w.sessions w.entries _

  reap-IsLater : (s : Session) (w : World) → IsKeyed w → IsLater w (reap resolver aborted s w)
  unfolding reap
  reap-IsLater s w keyed =
      let o = resolve (w.heap s.task_ctx).instance_name resolver in
      let told = report-IsLater (aborted s) o s.task_ctx w in
      let u = report (aborted s) o s.task_ctx w in
      IsLater-trans w u _ told (
        end-IsLater u s.task_ctx mark_done u.sessions (IsLater-IsKeyed w u told keyed) (λ t. refl)
          (λ t h. h) (λ t h. ground arith))

  reap_all-IsLater :
      (expired : List Session) (w : World)
      → IsKeyed w
      → IsLater w (reap_all resolver aborted expired w)
  unfolding reap_all
  reap_all-IsLater [] w keyed = IsLater-refl w
  reap_all-IsLater (s ∷ expired) w keyed =
      let once = reap-IsLater s w keyed in
      IsLater-trans _ _ _ once
        (reap_all-IsLater expired (reap resolver aborted s w) (IsLater-IsKeyed w _ once keyed))

  pub gc_once-IsLater :
      (now : ℕ) (max_age : ℤ) (w : World)
      → IsValid w.store
      → IsKeyed w
      → IsLater w (gc_once resolver aborted now max_age w)
  unfolding gc_once
  gc_once-IsLater now max_age w valid keyed =
      let st = gc w.heap now w.store in
      let m = (expire now max_age w.sessions).1 in
      let thinned =
        restock-IsLater w st
          (λ id r e. only-some _ _ r (sym (gc_lem w.heap now id [] w.store valid).0 ∙ e)) in
      let aside = aside-IsLater (record w { store = st }) m w.entries w.sent in
      let swept = IsLater-trans w _ _ thinned aside in
      IsLater-trans w _ _ swept (
        reap_all-IsLater (expire now max_age w.sessions).0 (record w { store = st; sessions = m })
          (IsLater-IsKeyed w _ swept keyed))
