-- ===== src/Std/Mux.antt =====
-- What the program uses of net/http's mux: patterns of literal and wildcard segments, no two of which
-- match the same path. A GET pattern also serves HEAD.
use tenant_deck.Base.{
  Bool, true, false, ◌&&◌, ◌||◌, String, List, [], ◌∷◌, Option, none, some, str_eq, if◌then◌else◌,
}
use tenant_deck.Std.Http.{Request, http_error}
use tenant_deck.Std.Handler.{Handler, emit}

pub data Segment : Type 0 where
  lit : String → Segment
  wild : String → Segment

abbrev pub HandlerFunc : Type 0 → Type 0
HandlerFunc W = Request → Handler W (Unit {0})

pub record Route (W : Type 0) : Type 0 where
  pub method : String
  pub pattern : List Segment
  pub handler : HandlerFunc W

-- The values of the wildcards, if the segments of a path match.
unfoldable pub match_path : List Segment → List String → Option (List (String × String))
match_path [] [] = some []
match_path (lit s ∷ pattern) (x ∷ path) =
    let rest = match_path pattern path in if str_eq s x then rest else none
match_path (wild name ∷ pattern) (x ∷ path) = elim (match_path pattern path) [
  | none ↦ none
  | some vs ↦ some ((name, x) ∷ vs)
]
match_path _ _ = none

abbrev pub serves : String → String → Bool
serves method asked = str_eq method asked || (str_eq method "GET" && str_eq asked "HEAD")

-- The handler of the route that matches, and the values of its wildcards.
unfoldable pub find_route :
    {W : Type 0}
    → List (Route W)
    → String
    → List String
    → Option (HandlerFunc W × List (String × String))
unfolding match_path
find_route [] asked path = none
find_route (route ∷ routes) asked path =
    let rest = find_route routes asked path in
    elim (match_path route.pattern path) [
      | none ↦ rest
      | some vs ↦ if serves route.method asked then some (route.handler, vs) else rest
    ]

-- A path that some route matches, with whatever method.
unfoldable pub has_path : {W : Type 0} → List (Route W) → List String → Bool
unfolding match_path
has_path [] path = false
has_path (route ∷ routes) path =
    let rest = has_path routes path in
    elim (match_path route.pattern path) [ none ↦ rest | some vs ↦ true ]

unfoldable pub path_value_in : List (String × String) → String → String
path_value_in [] k = ""
path_value_in ((j, x) ∷ vs) k = let rest = path_value_in vs k in if str_eq j k then x else rest

module _ {W : Type 0} where
  -- What no route serves goes to the frontend, if there is one.
  unfoldable pub unmatched : Bool → Option (HandlerFunc W) → HandlerFunc W
  unmatched known (some frontend) r = frontend r
  unmatched known none r =
      emit
        (if known then http_error "Method Not Allowed" 405 else http_error "404 page not found" 404)

  unfoldable pub dispatch :
      Option (HandlerFunc W × List (String × String)) → HandlerFunc W → HandlerFunc W
  dispatch none other r = other r
  dispatch (some (handler, vs)) other r = handler (record r { path_value = path_value_in vs })

  -- `segments` splits the path of a request.
  unfoldable pub serve_mux :
      List (Route W) → (Request → List String) → Option (HandlerFunc W) → HandlerFunc W
  unfolding dispatch unmatched
  serve_mux routes segments frontend r =
      dispatch (find_route routes r.method (segments r))
        (unmatched (has_path routes (segments r)) frontend) r
