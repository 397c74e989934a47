-- ===== src/Tests/Routing.antt =====
-- A test of the routes: a router that looks for the path, and then for the wildcard.
use xboxproxy.Prelude.{◌≡◌, refl, List, [], ◌∷◌, none, some, if◌then◌else◌}
use xboxproxy.Text.{Text, codes, text_eq}
use xboxproxy.Proxy.Retry.{Method, get, other}
use xboxproxy.Routes.{
  Route, Answer, handled, method_not_allowed, no_route, proxy_handler, summary, wildcard, answer_of,
  find_route, dashboard_routes, app_routes, has_brace, Axum, IsAxum,
}
use xboxproxy.Routes.Dispatch.{takes, served, dispatch-app_routes}

abbrev answers : Route → Method → Answer
answers r method = if takes r.filter method then handled r.handler else method_not_allowed

unfoldable by_wildcard : List Route → Method → Text → Answer
by_wildcard routes method [] = no_route
by_wildcard routes method (a ∷ []) = no_route
by_wildcard routes method (a ∷ c ∷ rest) = elim (find_route wildcard routes) [
  | none ↦ no_route
  | some r ↦ answers r method
]

unfoldable by_path : List Route → Method → Text → Answer
unfolding by_wildcard
by_path routes method p = elim (find_route p routes) [
  | none ↦ by_wildcard routes method p
  | some r ↦ answers r method
]

abbrev plain_axum : Axum
plain_axum = record { allows = takes; dispatch = by_path }

plain_axum-IsAxum : IsAxum plain_axum
unfolding by_path by_wildcard takes answer_of text_eq
plain_axum-IsAxum = record {
  allows_any = λ method. refl;
  allows_get = refl;
  allows_get_head = refl;
  allows_get_other = λ m. refl;
  allows_post = refl;
  allows_post_get = refl;
  allows_post_head = refl;
  allows_post_other = λ m e. e;
  static_route = λ routes r method p plain brace e. rw (e, by_path) refl;
  wildcard_route = λ routes r method c rest plain e w. rw (e, by_path, w, by_wildcard) refl;
}

summary-served :
    (served get (codes "/manage/api/summary") ≡ handled summary)
    × (served (other (codes "POST")) (codes "/manage/api/summary") ≡ method_not_allowed)
    × (served get (codes "/manage/other") ≡ handled proxy_handler)
unfolding served find_route dashboard_routes answer_of takes text_eq
summary-served = (refl, refl, refl)

dispatch-app_routes_example :
    by_path app_routes get (codes "/manage/api/summary") ≡ served get (codes "/manage/api/summary")
unfolding has_brace
dispatch-app_routes_example =
    dispatch-app_routes plain_axum plain_axum-IsAxum get (codes "manage/api/summary") refl
