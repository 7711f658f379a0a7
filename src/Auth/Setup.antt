-- ===== src/Auth/Setup.antt =====
-- internal/auth/oidc.go: how the handler of the login flow is built at startup.
use tenant_deck.Base.{ℕ, ◌*◌, String, ◌+++◌, List, [], ◌∷◌, Result, ok}
use tenant_deck.Base.Io.{Io, pure, lift, ◌>>=◌}
use tenant_deck.Base.Results
use tenant_deck.Std.Strings.{trim_right_slash}
use tenant_deck.Std.Time.{Clock, second}
use tenant_deck.Session.Crypto.{Random}
use tenant_deck.Session.Store.{Store}
use tenant_deck.Config.{Config}
use tenant_deck.Auth.Oidc.{RelyingParty, AuthHandler}

-- What url.Parse gives.
pub record Url : Type 0 where
  pub scheme : String
  pub host : String

unfoldable pub origin_of : (String → Result Url) → String → Result String
origin_of parse_url raw_url =
    Results.◌>>=◌ (parse_url raw_url) λ u. ok (u.scheme +++ ("://" +++ u.host))

-- The options of the relying party: the tolerance for the time of issue, the nonce that is read from
-- the context, the algorithms that discovery names.
pub data PartyOption : Type 0 where
  with_issued_at_offset : ℕ → PartyOption
  with_nonce : PartyOption
  with_signing_algs_from_discovery : PartyOption

pub record PartyRequest : Type 0 where
  pub issuer_url : String
  pub client_id : String
  pub client_secret : String
  pub redirect_url : String
  pub scopes : List String
  pub options : List PartyOption

-- The redirect URL is under the external URL.
abbrev pub party_request : Config → PartyRequest
unfolding trim_right_slash
party_request cfg = record {
  issuer_url = cfg.issuer_url;
  client_id = cfg.client_id;
  client_secret = cfg.client_secret;
  redirect_url = trim_right_slash cfg.external_url +++ "/auth/callback";
  scopes = cfg.scopes;
  options = with_issued_at_offset (5 * second) ∷ with_nonce ∷ with_signing_algs_from_discovery ∷ [];
}

-- `new_relying_party` is rp.NewRelyingPartyOIDC, which asks the issuer.
unfoldable pub new_handler :
    {W : Type 0}
    → (String → Result Url)
    → (PartyRequest → Io W (RelyingParty W))
    → Random W
    → Clock W
    → Config
    → Store W
    → Io W (AuthHandler W)
unfolding origin_of
new_handler parse_url new_relying_party rand clock cfg store = do
  external_origin ← lift (origin_of parse_url cfg.external_url)
  party ← new_relying_party (party_request cfg)
  pure (record {
    party = party;
    store = store;
    insecure = cfg.insecure;
    external_origin = external_origin;
    rand = rand;
    clock = clock;
  })
