-- ===== src/Routes.antt =====
-- proxy.rs and dashboard.rs, the two `router` functions, and main.rs, which merges them: which handler
-- answers which request. How axum finds the route of a request is a parameter.
pub mod Dispatch
use xboxproxy.Prelude.{
  ℕ, ◌≡◌, Bool, true, false, not, ◌&&◌, ◌||◌, List, [], ◌∷◌, ◌++◌, Option, none, some, is_some, any,
  ◌==◌, if◌then◌else◌,
}
use xboxproxy.Text.{Text, codes, text_eq}
use xboxproxy.Proxy.Retry.{Method, get, head, other}

-- The functions that the routes name.
pub data Handler : Type 0 where
  proxy_handler index summary requests speedtests run_speedtest hosts pin_group : Handler

-- `any(h)`, `get(h)` and `post(h)`
pub data MethodFilter : Type 0 where
  any_method get_only post_only : MethodFilter

pub record Route : Type 0 where
  pub path : Text
  pub filter : MethodFilter
  pub handler : Handler

pub data Answer : Type 0 where
  handled : Handler → Answer
  method_not_allowed no_route : Answer

abbrev pub root : Text
root = codes "/"

abbrev pub wildcard : Text
wildcard = codes "/{*path}"

unfoldable pub proxy_routes : List Route
proxy_routes =
    record { path = root; filter = any_method; handler = proxy_handler }
    ∷ record { path = wildcard; filter = any_method; handler = proxy_handler }
    ∷ []

unfoldable pub dashboard_routes : List Route
dashboard_routes =
    record { path = codes "/manage"; filter = get_only; handler = index }
    ∷ record { path = codes "/manage/"; filter = get_only; handler = index }
    ∷ record { path = codes "/manage/api/summary"; filter = get_only; handler = summary }
    ∷ record { path = codes "/manage/api/requests"; filter = get_only; handler = requests }
    ∷ record { path = codes "/manage/api/speedtests"; filter = get_only; handler = speedtests }
    ∷ record {
      path = codes "/manage/api/speedtests/run";
      filter = post_only;
      handler = run_speedtest;
    }
    ∷ record { path = codes "/manage/api/hosts"; filter = get_only; handler = hosts }
    ∷ record { path = codes "/manage/api/groups/pin"; filter = post_only; handler = pin_group }
    ∷ []

-- `proxy_router(..).merge(dashboard::router(..))`
unfoldable pub app_routes : List Route
unfolding proxy_routes dashboard_routes
app_routes = proxy_routes ++ dashboard_routes

-- The route with this path.
unfoldable pub find_route : Text → List Route → Option Route
unfolding text_eq
find_route p [] = none
find_route p (r ∷ rs) = let rest = find_route p rs in if text_eq r.path p then some r else rest

-- A brace makes a path a pattern.
unfoldable pub has_brace : Text → Bool
has_brace = any (λ c. c == b'{')

-- No path is routed twice, which axum refuses, and the only pattern is the wildcard.
unfoldable pub is_plain : List Route → Bool
unfolding find_route has_brace
is_plain [] = true
is_plain (r ∷ rs) =
    not (is_some (find_route r.path rs))
    && ((not (has_brace r.path) || text_eq r.path wildcard) && is_plain rs)

-- What axum takes for a method that a filter lets through, and how it answers a request with the
-- routes of a table.
pub record Axum : Type 0 where
  pub allows : MethodFilter → Method → Bool
  pub dispatch : List Route → Method → Text → Answer

-- The answer of a route that was found.
unfoldable pub answer_of : Axum → Route → Method → Answer
answer_of axum r method =
    if axum.allows r.filter method then handled r.handler else method_not_allowed

-- `any` takes every method, `get` takes GET and HEAD and no other, `post` takes POST and no other. A path that stands in the table matches itself, before any wildcard; the wildcard matches the other
-- paths that have something behind the first slash.
pub record IsAxum (axum : Axum) : Type 0 where
  pub allows_any : (method : Method) → axum.allows any_method method ≡ true
  pub allows_get : axum.allows get_only get ≡ true
  pub allows_get_head : axum.allows get_only head ≡ true
  pub allows_get_other : (m : Text) → axum.allows get_only (other m) ≡ false
  pub allows_post : axum.allows post_only (other (codes "POST")) ≡ true
  pub allows_post_get : axum.allows post_only get ≡ false
  pub allows_post_head : axum.allows post_only head ≡ false
  pub allows_post_other :
      (m : Text) → text_eq m (codes "POST") ≡ false → axum.allows post_only (other m) ≡ false
  pub static_route :
      (routes : List Route) (r : Route) (method : Method) (p : Text)
      → is_plain routes ≡ true
      → has_brace p ≡ false
      → find_route p routes ≡ some r
      → axum.dispatch routes method p ≡ answer_of axum r method
  pub wildcard_route :
      (routes : List Route) (r : Route) (method : Method) (c : ℕ) (rest : Text)
      → is_plain routes ≡ true
      → find_route (b'/' ∷ c ∷ rest) routes ≡ none
      → find_route wildcard routes ≡ some r
      → axum.dispatch routes method (b'/' ∷ c ∷ rest) ≡ answer_of axum r method
