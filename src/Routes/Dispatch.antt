-- ===== src/Routes/Dispatch.antt =====
-- main.rs: the requests for the dashboard, and those for the proxy.
use mathlib.Core.Bool.{true≢false}
use xboxproxy.Prelude.{
  ℕ, ◌≡◌, refl, sym, ap, ◌∙◌, Bool, if◌then◌else◌, true, false, List, [], ◌∷◌, none, some,
  Option-cases, Bool-cases, inl, inr,
}
use xboxproxy.Text.{Text, codes, text_eq}
use xboxproxy.Text.Equality.{text_eq_iff}
use xboxproxy.Proxy.Retry.{Method, get, head, other}
use xboxproxy.Routes.{
  proxy_handler, MethodFilter, any_method, get_only, post_only, Route, Answer, handled,
  method_not_allowed, root, wildcard, dashboard_routes, app_routes, answer_of, has_brace, is_plain,
  Axum, IsAxum, find_route,
}

-- The proxy's two routes.
abbrev proxied : Text → Route
proxied path = record { path = path; filter = any_method; handler = proxy_handler }

-- The first route of the table has another path.
find_route-skip :
    (p : Text) (r : Route) (rs : List Route)
    → text_eq r.path p ≡ false
    → find_route p (r ∷ rs) ≡ find_route p rs
unfolding find_route
find_route-skip p r rs e = rw e refl

app_routes-is_plain : is_plain app_routes ≡ true
unfolding is_plain app_routes
app_routes-is_plain = refl

-- A text without a brace is not the wildcard's.
text_eq-wildcard : (p : Text) → has_brace p ≡ false → text_eq wildcard p ≡ false
unfolding has_brace
text_eq-wildcard p h = elim (Bool-cases (text_eq wildcard p)) [
  | inl b ↦ absurd (true≢false (ap has_brace ((text_eq_iff wildcard p).0 b) ∙ h))
  | inr b ↦ b
]

-- With something behind the first slash, only the dashboard's routes are left.
find_route-app_routes :
    (c : ℕ) (rest : Text)
    → has_brace (b'/' ∷ c ∷ rest) ≡ false
    → find_route (b'/' ∷ c ∷ rest) app_routes ≡ find_route (b'/' ∷ c ∷ rest) dashboard_routes
unfolding app_routes text_eq
find_route-app_routes c rest h =
    find_route-skip (b'/' ∷ c ∷ rest) _ _ refl
    ∙ find_route-skip (b'/' ∷ c ∷ rest) _ dashboard_routes (text_eq-wildcard (b'/' ∷ c ∷ rest) h)

-- Whether a route with this filter takes a method: every one, GET and HEAD, or POST.
unfoldable pub takes : MethodFilter → Method → Bool
takes any_method method = true
takes get_only get = true
takes get_only head = true
takes get_only (other m) = false
takes post_only get = false
takes post_only head = false
takes post_only (other m) = text_eq m (codes "POST")

-- The answer to a request: if the dashboard has a route with the path, its handler's, or that the
-- method is not allowed, and otherwise the proxy's.
unfoldable pub served : Method → Text → Answer
served method p = elim (find_route p dashboard_routes) [
  | none ↦ handled proxy_handler
  | some r ↦ if takes r.filter method then handled r.handler else method_not_allowed
]

served-none :
    (method : Method) (p : Text)
    → find_route p dashboard_routes ≡ none
    → served method p ≡ handled proxy_handler
unfolding served
served-none method p e = rw (e, served) refl

served-some :
    (method : Method) (p : Text) (r : Route)
    → find_route p dashboard_routes ≡ some r
    → served method p ≡ (if takes r.filter method then handled r.handler else method_not_allowed)
unfolding served
served-some method p r e = rw (e, served) refl

module _ (axum : Axum) (laws : IsAxum axum) where
  -- By the documentation, a filter lets exactly these methods through.
  allows-takes :
      (filter : MethodFilter) (method : Method) → axum.allows filter method ≡ takes filter method
  unfolding takes
  allows-takes any_method method = laws.allows_any method
  allows-takes get_only get = laws.allows_get
  allows-takes get_only head = laws.allows_get_head
  allows-takes get_only (other m) = laws.allows_get_other m
  allows-takes post_only get = laws.allows_post_get
  allows-takes post_only head = laws.allows_post_head
  allows-takes post_only (other m) = elim (Bool-cases (text_eq m (codes "POST"))) [
    | inl e ↦
        ap (λ x. axum.allows post_only (other x)) ((text_eq_iff m (codes "POST")).0 e)
        ∙ laws.allows_post
        ∙ sym e
    | inr e ↦ laws.allows_post_other m e ∙ sym e
  ]

  answer_of-takes :
      (r : Route) (method : Method)
      → answer_of axum r method
        ≡ (if takes r.filter method then handled r.handler else method_not_allowed)
  unfolding answer_of
  answer_of-takes r method =
      ap (λ b. if b then handled r.handler else method_not_allowed) (allows-takes r.filter method)

  answer_of-proxied :
      (path : Text) (method : Method) → answer_of axum (proxied path) method ≡ handled proxy_handler
  unfolding answer_of
  answer_of-proxied path method =
      ap (λ b. if b then handled proxy_handler else method_not_allowed) (laws.allows_any method)

  -- If axum follows its documentation, then the merged routes answer a request whose path begins
  -- with a slash and has no brace thus: if the dashboard has a route with that path, by its handler
  -- where the route takes the method, which for GET routes are GET and HEAD and for POST routes
  -- POST, and by a refusal of the method where not; and whatever the method by `proxy_handler` if
  -- the dashboard has no such route.
  pub dispatch-app_routes :
      (method : Method) (rest : Text)
      → has_brace (b'/' ∷ rest) ≡ false
      → axum.dispatch app_routes method (b'/' ∷ rest) ≡ served method (b'/' ∷ rest)
  dispatch-app_routes method [] h =
      laws.static_route app_routes (proxied root) method root app_routes-is_plain h
        (unfold find_route app_routes in refl)
      ∙ answer_of-proxied root method
      ∙ sym (served-none method (b'/' ∷ []) (unfold find_route dashboard_routes in refl))
  dispatch-app_routes method (c ∷ rest) h =
      let p = b'/' ∷ c ∷ rest in
      let same = find_route-app_routes c rest h in
      elim (Option-cases (find_route p dashboard_routes)) [
        | inl e ↦
            laws.wildcard_route app_routes (proxied wildcard) method c rest app_routes-is_plain
              (same ∙ e) (unfold find_route app_routes in refl)
            ∙ answer_of-proxied wildcard method
            ∙ sym (served-none method p e)
        | inr (r, e) ↦
            laws.static_route app_routes r method p app_routes-is_plain h (same ∙ e)
            ∙ answer_of-takes r method
            ∙ sym (served-some method p r e)
      ]
