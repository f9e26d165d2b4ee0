-- ===== src/South/Routing.antt =====
-- internal/south/handler.go and proxy.go: what a terminal update means for the proxy's tokens.
use forgery.Base.{str_eq}
use forgery.Session.{Session}
use forgery.World.{World}
