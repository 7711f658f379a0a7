-- ===== src/Webassets/Fallback.antt =====
-- A reload of any page of the frontend.
use tenant_deck.Std.Json.{Json}
use tenant_deck.Session.Store.{Store}
use tenant_deck.Capsule.Client.{Client}
