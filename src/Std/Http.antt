-- ===== src/Std/Http.antt =====
-- What the program uses of net/http: a request as handlers read it, the response writer, cookies,
-- http.Error, http.Redirect and http.SetCookie.
use tenant_deck.Base.{
  ℕ, ℤ, Bool, String, Option, none, some, List, [], ◌∷◌, ◌++◌, str_eq, if◌then◌else◌,
}
use tenant_deck.Std.Json.{Json}
use tenant_deck.Session.Records.{Record}

-- Each function is what the call of that name on the request returns: `header` Header.Get, `query`
-- URL.Query().Get, `cookie` Cookie (none for an error), `path_value` PathValue, `post_form`
-- PostForm.Get. `session` is the context's value under sessionContextKey.
pub record Request : Type 0 where
  pub method : String
  pub path : String
  pub header : String → String
  pub cookie : String → Option String
  pub query : String → String
  pub post_form : String → String
  pub path_value : String → String
  pub session : Option Record

pub data SameSite : Type 0 where
  lax strict : SameSite

pub record Cookie : Type 0 where
  pub name : String
  pub value : String
  pub path : String
  pub http_only : Bool
  pub secure : Bool
  pub same_site : SameSite
  pub max_age : ℤ

-- What is written to the body: a line of text, an encoded value, a redirect's link, copied bytes.
pub data Chunk : Type 0 where
  text : String → Chunk
  json : Json → Chunk
  link : String → Chunk
  bytes : List ℕ → Chunk

-- The response as the client gets it: no header changes once the status has been written.
pub record Writer : Type 0 where
  pub status : Option ℕ
  pub headers : List (String × String)
  pub cookies : List Cookie
  pub body : List Chunk

abbrev pub fresh : Writer
fresh = record { status = none; headers = []; cookies = []; body = [] }

abbrev pub set_pair : String → String → List (String × String) → List (String × String)
set_pair k v [] = (k, v) ∷ []
set_pair k v ((j, x) ∷ l) = if str_eq j k then (k, v) ∷ l else (j, x) ∷ set_pair k v l

-- w.Header().Set
unfoldable pub set_header : String → String → Writer → Writer
set_header k v w = elim w.status [
  | none ↦ record w { headers = set_pair k v w.headers }
  | some _ ↦ w
]

-- http.SetCookie
unfoldable pub set_cookie : Cookie → Writer → Writer
set_cookie c w = elim w.status [ none ↦ record w { cookies = w.cookies ++ c ∷ [] } | some _ ↦ w ]

unfoldable pub write_header : ℕ → Writer → Writer
write_header code w = elim w.status [ none ↦ record w { status = some code } | some _ ↦ w ]

-- A write without a status sends 200 first.
unfoldable pub write : Chunk → Writer → Writer
unfolding write_header
write c w = let w' = write_header 200 w in record w' { body = w'.body ++ c ∷ [] }

unfoldable pub http_error : String → ℕ → Writer → Writer
unfolding set_header write_header write
http_error msg code w = write (text msg) (
    write_header code (
      set_header "X-Content-Type-Options" "nosniff"
        (set_header "Content-Type" "text/plain; charset=utf-8" w)))

unfoldable pub redirect : String → ℕ → Writer → Writer
unfolding set_header write_header write
redirect url code w = write (link url) (
    write_header code
      (set_header "Content-Type" "text/html; charset=utf-8" (set_header "Location" url w)))

-- w.Header().Set("Content-Type", "application/json") and the encoder.
unfoldable pub write_json : Json → Writer → Writer
unfolding set_header write
write_json v w = write (json v) (set_header "Content-Type" "application/json" w)
