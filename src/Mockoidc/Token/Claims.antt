-- ===== src/Mockoidc/Token/Claims.antt =====
-- What a client reads from an ID token, and who it is given to, without the code that builds it.
use tenant_deck.Base.{
  ℕ, ◌+◌, String, ◌≡◌, ◌≢◌, ◌⊎◌, inl, inr, refl, List, [], ◌∷◌, Option, none, some, true, str_eq,
  eq_iff, arith, if◌then◌else◌, Bool-cases, Option-cases, and-eq-true,
}
use tenant_deck.Std.Json.{Json, num, str, obj, null, bool, arr, field_list}
use tenant_deck.Std.Strconv.{format_int}
use tenant_deck.Std.Http.{Request}
use tenant_deck.Mockoidc.{ServerConfig, Library, unix}
use tenant_deck.Mockoidc.Token.{authenticate_client, claims}

abbrev among : String → List (String × Json) → Option Json
among key [] = none
among key ((k, v) ∷ kvs) = if str_eq key k then some v else among key kvs

-- The member of an object under a key, if it is an object and has one.
abbrev pub member : String → Json → Option Json
member key (obj fs) = among key (field_list fs)
member key null = none
member key (bool b) = none
member key (num s) = none
member key (str s) = none
member key (arr vs) = none

-- The claims of an ID token for a subject, from the time `t`, in nanoseconds of the clock.
pub record IsClaims (cfg : ServerConfig) (subject nonce : String) (t : ℕ) (payload : Json)
    : Type 0 where
  pub sub : member "sub" payload ≡ some (str subject)
  pub aud : member "aud" payload ≡ some (str cfg.client_id)
  pub iss : member "iss" payload ≡ some (str cfg.issuer_url)
  pub iat : member "iat" payload ≡ some (num (format_int (unix t)))
  pub exp : member "exp" payload ≡ some (num (format_int (unix (t + cfg.id_token_ttl))))
  pub asked : nonce ≢ "" → member "nonce" payload ≡ some (str nonce)
  pub unasked : nonce ≡ "" → member "nonce" payload ≡ none

pub claims-IsClaims :
    (cfg : ServerConfig) (subject nonce : String) (t : ℕ)
    → IsClaims cfg subject nonce t (claims cfg subject nonce t)
unfolding claims
claims-IsClaims cfg subject nonce t = elim (Bool-cases (str_eq nonce "")) [
  | inl empty ↦ record {
    sub = rw empty refl;
    aud = refl;
    iss = refl;
    iat = refl;
    exp = refl;
    asked = λ given. ground (arith, given ((eq_iff nonce "").0 empty));
    unasked = λ _. rw empty refl;
  }
  | inr there ↦ record {
    sub = rw there refl;
    aud = refl;
    iss = refl;
    iat = refl;
    exp = refl;
    asked = λ _. rw there refl;
    unasked = λ none_given. ground (arith, (eq_iff nonce "").1 none_given);
  }
]

-- The request carries the id and the secret of the configured client: in its Basic credentials, or in
-- its form if it has none.
abbrev pub IsClient : {W U : Type 0} → ServerConfig → Library W U Request → Request → Type 0
IsClient cfg lib r =
    (lib.basic_auth r ≡ some (cfg.client_id, cfg.client_secret))
    ⊎ ((lib.basic_auth r ≡ none)
        × (r.post_form "client_id" ≡ cfg.client_id)
        × (r.post_form "client_secret" ≡ cfg.client_secret))

pub authenticate_client-IsClient :
    {W U : Type 0} (cfg : ServerConfig) (lib : Library W U Request) (r : Request)
    → authenticate_client cfg lib r ≡ true
    → IsClient cfg lib r
unfolding authenticate_client
authenticate_client-IsClient cfg lib r known = elim (Option-cases (lib.basic_auth r)) [
  | inl unsent ↦
      let (same_id, same_secret) = and-eq-true _ _ (rw (unsent, authenticate_client) at known) in
      inr (unsent, (eq_iff _ _).0 same_id, (eq_iff _ _).0 same_secret)
  | inr ((id, secret), sent) ↦
      let (same_id, same_secret) = and-eq-true _ _ (rw (sent, authenticate_client) at known) in
      inl (rw (sent, (eq_iff id _).0 same_id, (eq_iff secret _).0 same_secret) refl)
]
