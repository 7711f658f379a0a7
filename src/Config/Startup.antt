-- ===== src/Config/Startup.antt =====
-- What holds of a configuration that is loaded.
use Prim.Native.Char.{code}
use text.Mathlib.TextLemmas.{nil-append, cons-append}
use tenant_deck.Base.{
  ℕ, ap, ◌∙◌, codes, Bool, false, ◌==◌, String, ◌≡◌, ◌≢◌, ◌+++◌, eq_iff, true, refl, subst, ◌⊎◌,
  List, [], ◌∷◌, ◌++◌, length, Result, str_eq, arith, Bool-cases, Result-cases, inl, inr,
}
use tenant_deck.Session.Crypto.{Bytes, session_key_size}
use tenant_deck.Config.{
  Config, config, has_prefix, missing, flag, key_of, prefix_codes, encryption_key_of, insecure_url,
  problems, settings, load,
}

-- Every required setting is there, the key has the size of an AES-256 key, and outside insecure mode
-- the external URL does not begin with "http://", in exactly these lower-case letters. The URL of the
-- Capsule Proxy may, in either mode.
pub record IsConfigured (c : Config) : Type 0 where
  pub external_url : c.external_url ≢ ""
  pub issuer_url : c.issuer_url ≢ ""
  pub client_id : c.client_id ≢ ""
  pub client_secret : c.client_secret ≢ ""
  pub redis_addr : c.redis_addr ≢ ""
  pub capsule_proxy_url : c.capsule_proxy_url ≢ ""
  pub encryption_key : length c.encryption_key ≡ session_key_size
  pub transport : c.insecure ≡ false → (rest : String) → c.external_url ≢ "http://" +++ rest

append-nil_parts : {A : Type 0} (xs ys : List A) → xs ++ ys ≡ [] → (xs ≡ []) × (ys ≡ [])
append-nil_parts [] ys h = (refl, h)
append-nil_parts (x ∷ xs) ys h = ground arith

List-cases : {A : Type 0} (xs : List A) → (xs ≡ []) ⊎ ((x : A) × (ys : List A) × (xs ≡ x ∷ ys))
List-cases [] = inl refl
List-cases (x ∷ xs) = inr (x, xs, refl)

is_filled : (s : String) → str_eq s "" ≡ false → s ≢ ""
is_filled s there empty = ground (arith, (eq_iff s "").1 empty)

codes-append : (s t : String) → codes (s +++ t) ≡ codes s ++ codes t
codes-append String.[] t = ap codes (nil-append t)
codes-append (String.◌∷◌ c s) t =
    ap codes (cons-append c s t) ∙ ap (λ cs. code c ∷ cs) (codes-append s t)

prefix_codes-append : (ps cs : List ℕ) → prefix_codes ps (ps ++ cs) ≡ true
unfolding prefix_codes
prefix_codes-append [] cs = refl
prefix_codes-append (p ∷ ps) cs = ground (arith, prefix_codes-append ps cs)

-- What begins with a text has it as a prefix.
has_prefix-append : (prefix rest : String) → has_prefix (prefix +++ rest) prefix ≡ true
unfolding has_prefix
has_prefix-append prefix rest =
    rw (codes-append prefix rest) (prefix_codes-append (codes prefix) (codes rest))

module _ (env : String → String) (fields_of : String → List String)
    (decode_base64 : String → Result Bytes) where
  present :
      (name : String) → missing env fields_of decode_base64 name ≡ [] → str_eq (env name) "" ≡ false
  unfolding missing
  present name none_missing = elim (Bool-cases (str_eq (env name) "")) [
    | inl empty ↦ ground arith
    | inr there ↦ there
  ]

  key_size :
      (s : String)
      → str_eq s "" ≡ false
      → (encryption_key_of env fields_of decode_base64 s).1 ≡ []
      → length (encryption_key_of env fields_of decode_base64 s).0 ≡ session_key_size
  unfolding encryption_key_of key_of
  key_size s there fine = elim (Result-cases (decode_base64 s)) [
    | inl (key, decoded) ↦ elim (Bool-cases (length key == session_key_size)) [
      | inl right ↦ ground arith
      | inr wrong ↦ ground arith
    ]
    | inr (e, bad) ↦ ground arith
  ]

  no_plain_http :
      (insecure : Bool) (url : String)
      → insecure_url env fields_of decode_base64 insecure url ≡ []
      → insecure ≡ false
      → (rest : String) → url ≢ "http://" +++ rest
  unfolding insecure_url
  no_plain_http insecure url fine strict rest plain =
      let found : has_prefix url "http://" ≡ true = rw plain (has_prefix-append "http://" rest) in
      ground arith

  settings-IsConfigured :
      problems env fields_of decode_base64 ≡ []
      → IsConfigured (settings env fields_of decode_base64)
  unfolding problems settings
  settings-IsConfigured none_found =
      let (p1, q1) = append-nil_parts _ _ none_found in
      let (p2, q2) = append-nil_parts _ _ q1 in
      let (p3, q3) = append-nil_parts _ _ q2 in
      let (p4, q4) = append-nil_parts _ _ q3 in
      let (p5, q5) = append-nil_parts _ _ q4 in
      let (p6, q6) = append-nil_parts _ _ q5 in
      let (p7, q7) = append-nil_parts _ _ q6 in
      let (p8, q8) = append-nil_parts _ _ q7 in
      let (p9, q9) = append-nil_parts _ _ q8 in
      let (p10, q10) = append-nil_parts _ _ q9 in
      record {
        external_url = is_filled _ (present _ p1);
        issuer_url = is_filled _ (present _ p2);
        client_id = is_filled _ (present _ p3);
        client_secret = is_filled _ (present _ p4);
        redis_addr = is_filled _ (present _ p5);
        capsule_proxy_url = is_filled _ (present _ p6);
        encryption_key = key_size _ (present "TENANTDECK_SESSION_ENCRYPTION_KEY" p9) p10;
        transport =
            no_plain_http (flag env fields_of decode_base64 "TENANTDECK_INSECURE").0
              (env "TENANTDECK_EXTERNAL_URL") q10;
      }

  -- A configuration that loads has the six required settings, none of them the empty text, and an
  -- encryption key of 32 bytes; and outside insecure mode its external URL is not "http://", in these
  -- lower-case letters, followed by anything.
  pub load-IsConfigured :
      (c : Config) → load env fields_of decode_base64 ≡ config c → IsConfigured c
  unfolding load
  load-IsConfigured c loaded = elim (List-cases (problems env fields_of decode_base64)) [
    | inr (p, ps, some_problem) ↦ ground (arith)
    | inl none_found ↦
        let same : settings env fields_of decode_base64 ≡ c = ground arith in
        subst IsConfigured same (settings-IsConfigured none_found)
  ]
