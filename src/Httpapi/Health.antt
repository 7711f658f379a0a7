-- ===== src/Httpapi/Health.antt =====
-- internal/httpapi/health.go: the probes.
use tenant_deck.Std.Http.{Request, http_error, write_header}
use tenant_deck.Std.Handler.{Handler, emit, call, ◌>>=◌}
use tenant_deck.Session.Store.{Store, ping}

module _ {W : Type 0} where
  unfoldable pub livez_handler : Request → Handler W (Unit {0})
  unfolding write_header
  livez_handler r = emit (write_header 200)

  unfoldable pub readyz_handler : Store W → Request → Handler W (Unit {0})
  unfolding write_header http_error
  readyz_handler store r = do
    _ ← call (ping store) (λ _. http_error "session store unavailable" 503)
    emit (write_header 200)
