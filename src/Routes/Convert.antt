-- ===== src/Routes/Convert.antt =====
-- From an Ingress to its routes: `convertIngress`, `httpRedirectRoutes`, `convertPath` and `routeID`
-- of routes.go. `none` is the panic of `cors.origins[0]` on an empty list.
use caddy_k8s.Base.{
  ◌>>=◌, ℕ, suc, String, ◌<>◌, Bool, true, false, Option, none, some, List, [], ◌∷◌, ◌++◌, ◌==◌,
  ◌||◌, if◌then◌else◌, ℤ, pos, negsuc, is_empty,
}
use caddy_k8s.Strings.{is_blank, has_suffix, replace_all}
use caddy_k8s.Strings.Numbers.{itoa}
use caddy_k8s.Kube.{
  PathType, exact, prefix, implementation_specific, ServiceBackend, HttpPath, Rule, Ingress,
}
use caddy_k8s.Json.{Json}
use caddy_k8s.Annotations.Config.{CorsConfig, IngressAnnotations}
use caddy_k8s.Routes.Model.{CaddyMatch, match_all, CaddyRoute, SecurityConfig}
use caddy_k8s.Routes.Build.{
  build_ip_guard_routes, build_handlers, cors_preflight_route, subroute, redirect_response,
}

abbrev is_exact : Option PathType → Bool
is_exact none = false
is_exact (some exact) = true
is_exact (some prefix) = false
is_exact (some implementation_specific) = false

unfoldable pub convert_path : String → Option PathType → List String
convert_path path pt =
    if is_blank path || path == "/"
    then []
    else if is_exact pt
    then path ∷ []
    else if has_suffix path "/"
    then (path <> "*") ∷ []
    else path ∷ (path <> "/*") ∷ []

-- The host's part of a route's id.
unfoldable pub host_label : String → String
host_label host =
    let h = replace_all b'*' "wildcard" (replace_all b'.' "-" host) in
    if is_blank h then "any" else h

-- The index -1 names the route of the host.
unfoldable pub route_id : String → String → String → ℤ → String
unfolding host_label
route_id namespace name host (negsuc n) =
    "caddy-k8s-" <> (namespace <> ("-" <> (name <> ("-" <> host_label host))))
route_id namespace name host (pos n) =
    "caddy-k8s-"
    <> (namespace <> ("-" <> (name <> ("-" <> (host_label host <> ("-p" <> itoa (pos n)))))))

abbrev pub parent : ℤ
parent = negsuc 0

-- Not the empty list of paths: the match of a route, if it restricts anything.
abbrev pub path_matches : List String → List CaddyMatch
path_matches [] = []
path_matches (p ∷ ps) = record match_all { path = p ∷ ps } ∷ []

abbrev pub host_matches : List String → List CaddyMatch
host_matches [] = []
host_matches (h ∷ hs) = record match_all { host = h ∷ hs } ∷ []

-- The handlers of a sole route that restricts nothing.
abbrev pub sole : List CaddyRoute → Option (List Json)
sole [] = none
sole (r ∷ []) = if is_empty r.match then some r.handle else none
sole (r ∷ s ∷ rs) = none

abbrev pub flat_or_subroute : Option (List Json) → List CaddyRoute → List Json
flat_or_subroute (some handle) routes = handle
flat_or_subroute none routes = subroute routes ∷ []

unfoldable pub handle_of : List CaddyRoute → List CaddyRoute → List Json
handle_of guards routes = flat_or_subroute (if is_empty guards then sole routes else none) routes

unfoldable pub preflight_routes : Option CorsConfig → Option (List CaddyRoute)
preflight_routes none = some []
preflight_routes (some cors) = do r ← cors_preflight_route cors; some (r ∷ [])

unfoldable pub upstream_of : Ingress → ServiceBackend → String
upstream_of ing svc =
    svc.name <> ("." <> (ing.namespace <> (".svc.cluster.local:" <> itoa svc.port)))

unfoldable pub hosts_of : IngressAnnotations → Rule → List String
hosts_of ann rule = (if is_blank rule.host then [] else rule.host ∷ []) ++ ann.server_aliases

module _ (ing : Ingress) (sec : SecurityConfig) (ann : IngressAnnotations) where
  -- The route of one path, at its index.
  unfoldable pub path_route : String → ℕ → HttpPath → ServiceBackend → Option CaddyRoute
  path_route host i p svc = do
    handlers ← build_handlers (upstream_of ing svc) sec ann (is_empty ing.tls)
    some (record {
      id = route_id ing.namespace ing.name host (pos i);
      match = path_matches (convert_path p.path p.path_type);
      handle = handlers;
      terminal = false;
    })

  -- The loop over the paths of a rule; a path without a service is skipped.
  unfoldable pub path_routes : String → ℕ → List HttpPath → Option (List CaddyRoute)
  path_routes host i [] = some []
  path_routes host i (p ∷ ps) =
      let rest = path_routes host (suc i) ps in
      elim p.service [
        | none ↦ rest
        | some svc ↦ do r ← path_route host i p svc; rs ← rest; some (r ∷ rs)
      ]

  -- The route of a rule's host, from the routes of its paths.
  unfoldable pub host_route : Rule → List CaddyRoute → Option CaddyRoute
  host_route rule paths = do
    preflight ← preflight_routes ann.cors
    let guards = build_ip_guard_routes ann
    some (record {
      id = route_id ing.namespace ing.name rule.host parent;
      match = host_matches (hosts_of ann rule);
      handle = handle_of guards (guards ++ (preflight ++ paths));
      terminal = true;
    })

  -- The routes of one rule: none if it has no path with a service.
  unfoldable pub rule_routes : Rule → Option (List HttpPath) → Option (List CaddyRoute)
  rule_routes rule none = some []
  rule_routes rule (some paths) = do
    routes ← path_routes rule.host 0 paths
    if is_empty routes then some [] else (do r ← host_route rule routes; some (r ∷ []))

  unfoldable pub convert_rules : List Rule → Option (List CaddyRoute)
  convert_rules [] = some []
  convert_rules (rule ∷ rules) = do
    here ← rule_routes rule rule.http
    rest ← convert_rules rules
    some (here ++ rest)

unfoldable pub convert_ingress :
    Ingress → SecurityConfig → IngressAnnotations → Option (List CaddyRoute)
convert_ingress ing sec ann = convert_rules ing sec ann ing.rules

unfoldable pub redirect_routes : String → String → List Rule → List CaddyRoute
redirect_routes namespace name [] = []
redirect_routes namespace name (rule ∷ rules) =
    let rest = redirect_routes namespace name rules in
    if is_blank rule.host
    then rest
    else record {
      id = route_id namespace name rule.host parent <> "-http-redirect";
      match = record match_all { host = rule.host ∷ [] } ∷ [];
      handle = redirect_response (pos 301) "https://{http.request.host}{http.request.uri}" ∷ [];
      terminal = true;
    }
      ∷ rest

-- The routes that send plain HTTP requests to HTTPS, one for each host.
unfoldable pub http_redirect_routes : Ingress → List CaddyRoute
unfolding redirect_routes
http_redirect_routes ing = redirect_routes ing.namespace ing.name ing.rules
