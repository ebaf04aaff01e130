-- ===== src/Api/Mux/Patterns.antt =====
-- Which requests reach which handler of routes.go.
use mathlib.Core.List.{Memᴰ}
use gratis.Text.{bytes, str_eq_iff, str_eq, Str}
use gratis.Api.Mux.{
  get_server, list_servers, delete_vhost, healthz, create_vhost, create_token, patterns, wildcard,
  takes_method, literal, Route, Pattern, Values, find_route, match_parts, Part,
}
use gratis.Base.{
  sym, ◌++◌, map, All, ◌∙◌, ap, refl, subst, Option-cases, inr, arith, inl, Bool-cases, some, true,
  ◌≡◌, List, ◌∷◌, [],
}

-- The segments that a pattern has with these values.
abbrev pub fill : List Part → Values → List Str
fill [] vs = []
fill (literal l ∷ parts) vs = l ∷ fill parts vs
fill (wildcard x ∷ parts) [] = [] ∷ fill parts []
fill (wildcard x ∷ parts) ((y, s) ∷ vs) = s ∷ fill parts vs

match_parts-fill :
    (parts : List Part) (segments : List Str) (vs : Values)
    → match_parts parts segments ≡ some vs
    → segments ≡ fill parts vs
unfolding match_parts
match_parts-fill [] [] vs h = refl
match_parts-fill [] (s ∷ segments) vs h = cc h
match_parts-fill (p ∷ parts) [] vs h = cc h
match_parts-fill (literal l ∷ parts) (s ∷ segments) vs h = elim (Bool-cases (str_eq l s)) [
  | inl e ↦
      let same = (str_eq_iff l s).0 e in
      let later = match_parts-fill parts segments vs (ground (arith, e)) in cc (same, later)
  | inr e ↦ absurd (ground (arith, e))
]
match_parts-fill (wildcard x ∷ parts) (s ∷ segments) vs h = elim (Bool-cases (str_eq s [])) [
  | inl e ↦ absurd (ground (arith, e))
  | inr e ↦ elim (Option-cases (match_parts parts segments)) [
    | inl q ↦ absurd (ground (arith, e, q))
    | inr (ws, q) ↦
        let same : (x, s) ∷ ws ≡ vs = ground (arith, e, q) in
        let later = match_parts-fill parts segments ws q in
        subst (λ v. s ∷ segments ≡ fill (wildcard x ∷ parts) v) same (cc later)
  ]
]

-- The pattern by which a request came to a route.
pub record Handled (method : Str) (segments : List Str) (route : Route) (vs : Values) (p : Pattern)
    : Type 0 where
  pub by_method : takes_method p.method method ≡ true
  pub by_path : segments ≡ fill p.parts vs
  pub by_route : p.route ≡ route

find_route-Handled :
    (method : Str) (segments : List Str) (ps : List Pattern) (route : Route) (vs : Values)
    → find_route method segments ps ≡ some (route, vs)
    → (p : Pattern) × Memᴰ p ps × Handled method segments route vs p
unfolding find_route
find_route-Handled method segments [] route vs h = cc h
find_route-Handled method segments (p ∷ ps) route vs h =
    let recurse : find_route method segments ps ≡ some (route, vs)
        → (q : Pattern) × Memᴰ q (p ∷ ps) × Handled method segments route vs q =
      λ e.
        let (q, m, handled) = find_route-Handled method segments ps route vs e in
        (q, Memᴰ.tail m, handled) in
    elim (Option-cases (match_parts p.parts segments)) [
      | inl e ↦ recurse (ground (arith, e))
      | inr (ws, e) ↦ elim (Bool-cases (takes_method p.method method)) [
        | inr n ↦ recurse (ground (arith, e, n))
        | inl t ↦
            let found : Route × Values = (p.route, ws) in
            let same : found ≡ (route, vs) = ground (arith, e, t) in
            let values : ws ≡ vs = ap (λ x. x.1) same in
            (
              p,
              Memᴰ.head refl,
              record {
                by_method = t;
                by_path = match_parts-fill p.parts segments vs (e ∙ ap some values);
                by_route = ap (λ x. x.0) same;
              },
            )
      ]
    ]

-- The pattern of each route.
abbrev pub route_parts : Route → List Part
route_parts healthz = literal (bytes "healthz") ∷ []
route_parts create_token =
    map literal (bytes "api" ∷ bytes "v1" ∷ bytes "admin" ∷ bytes "tokens" ∷ [])
route_parts list_servers = map literal (bytes "api" ∷ bytes "v1" ∷ bytes "servers" ∷ [])
route_parts get_server =
    map literal (bytes "api" ∷ bytes "v1" ∷ bytes "servers" ∷ [])
    ++ wildcard (bytes "server_id") ∷ []
route_parts create_vhost =
    map literal (bytes "api" ∷ bytes "v1" ∷ bytes "servers" ∷ [])
    ++ wildcard (bytes "server_id") ∷ literal (bytes "vhosts") ∷ []
route_parts delete_vhost =
    map literal (bytes "api" ∷ bytes "v1" ∷ bytes "servers" ∷ [])
    ++ wildcard (bytes "server_id") ∷ literal (bytes "vhosts") ∷ wildcard (bytes "domain") ∷ []

abbrev pub route_method : Route → Str
route_method create_token = bytes "POST"
route_method create_vhost = bytes "POST"
route_method delete_vhost = bytes "DELETE"
route_method _ = bytes "GET"

patterns-routes :
    All (λ p. (p.parts ≡ route_parts p.route) × (p.method ≡ route_method p.route)) patterns
unfolding patterns
patterns-routes = (
  (refl, refl),
  ((refl, refl), ((refl, refl), ((refl, refl), ((refl, refl), ((refl, refl), tt))))),
)

member-All : (P : Pattern → Type 0) {p : Pattern} {ps : List Pattern} → Memᴰ p ps → All P ps → P p
member-All P (Memᴰ.head e) h = subst P (sym e) (h.0)
member-All P (Memᴰ.tail m) h = member-All P m h.1

-- A request that reaches a route has its path and its method.
pub find_route_sound :
    (method : Str) (segments : List Str) (route : Route) (vs : Values)
    → find_route method segments patterns ≡ some (route, vs)
    → (segments ≡ fill (route_parts route) vs) × (takes_method (route_method route) method ≡ true)
find_route_sound method segments route vs h =
    let (p, m, handled) = find_route-Handled method segments patterns route vs h in
    let (parts, method') = member-All _ m patterns-routes in
    (
      handled.by_path
          ∙ (ap (λ x. fill x vs) parts ∙ ap (λ x. fill (route_parts x) vs) handled.by_route),
      subst (λ x. takes_method (route_method x) method ≡ true) handled.by_route
          (subst (λ x. takes_method x method ≡ true) method' handled.by_method),
    )
