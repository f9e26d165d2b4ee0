-- ===== src/App/Invariant.antt =====
-- internal/app/app.go: the garbage collection keeps what ties the shared state together.
use forgery.Base.{
  Bool, ℕ, ℤ, ◌<◌, ◌≡◌, refl, sym, ◌∙◌, List, [], ◌∷◌, In, inl, inr, Option, none, some, str_eq,
}
use forgery.Task.{Ref, mark_done}
use forgery.Session.{Session, expire}
use forgery.Session.Expiry.{In-expire}
use forgery.North.{Resolver, InstanceEntry, resolve, IsNamed}
use forgery.World.{World}
use forgery.World.Routed.{
  Issued, IsRouted, modify-IsRouted, drop-IsRouted, gc-IsRouted, expire-IsRouted,
}
use forgery.Run.Invariant.{report_failure-IsRouted}
use forgery.App.{report, reap, reap_all, gc_once}

module _ (issued : Issued) (resolver : Resolver) (aborted : Session → Bool)
    (named : IsNamed resolver) where
  report-IsRouted :
      (stopped : Bool) (o : Option InstanceEntry) (r : Ref) (w : World)
      → resolve (w.heap r).instance_name resolver ≡ o
      → r < issued.made
      → IsRouted issued w
      → IsRouted issued (report stopped o r w)
  report-IsRouted stopped none r w found known v = v
  report-IsRouted stopped (some e) r w found known v =
      report_failure-IsRouted issued r known stopped e w
        (sym (v.contexts r known).1 ∙ sym (named _ e found)) v

  reap-IsRouted :
      (s : Session) (w : World)
      → s.task_ctx < issued.made
      → IsRouted issued w
      → IsRouted issued (reap resolver aborted s w)
  unfolding reap
  reap-IsRouted s w known v =
      let o = resolve (w.heap s.task_ctx).instance_name resolver in
      drop-IsRouted issued _
        (modify-IsRouted issued _ (report-IsRouted (aborted s) o s.task_ctx w refl known v)
          s.task_ctx mark_done (λ t. (refl, refl)))
        _

  reap_all-IsRouted :
      (expired : List Session) (w : World)
      → ((s : Session) → In s expired → s.task_ctx < issued.made)
      → IsRouted issued w
      → IsRouted issued (reap_all resolver aborted expired w)
  unfolding reap_all
  reap_all-IsRouted [] w known v = v
  reap_all-IsRouted (s ∷ expired) w known v =
      reap_all-IsRouted expired (reap resolver aborted s w) (λ x i. known x (inr i))
        (reap-IsRouted s w (known s (inl refl)) v)

  pub gc_once-IsRouted :
      (now : ℕ) (max_age : ℤ) (w : World)
      → IsRouted issued w
      → IsRouted issued (gc_once resolver aborted now max_age w)
  unfolding gc_once
  gc_once-IsRouted now max_age w v =
      reap_all-IsRouted (expire now max_age w.sessions).0 _
        (λ s i.
          let (token, found, silent) = (In-expire now max_age s w.sessions v.sessions_valid).0 i in
          v.held token s found)
        (expire-IsRouted issued _ (gc-IsRouted issued w v now) now max_age)
