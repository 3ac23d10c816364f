-- ===== src/App/Overlap.antt =====
-- Handlers of several Ingresses that overlap (app.go): each brings its redirects to the HTTP server, deletes
-- its stale routes and brings its routes to their server, one request after the other, and the requests of
-- the handlers come in any order. For handleDelete all recorded ids are stale, and there is no route. The
-- mutex of a key keeps the handlers of one Ingress apart.
pub mod Done
pub mod Alone
use caddy_k8s.Base.{
  ℕ, suc, String, ◌≡◌, true, false, not, ◌&&◌, Option, none, some, List, [], ◌∷◌, ◌++◌,
  if◌then◌else◌,
}
use caddy_k8s.Strings.{is_blank}
use caddy_k8s.Dict.{lookup}
use caddy_k8s.Kube.{Ingress}
use caddy_k8s.Annotations.Config.{IngressAnnotations}
use caddy_k8s.Routes.Convert.{http_redirect_routes}
use caddy_k8s.Store.Interface.{RouteStore}
use caddy_k8s.App.State.{App, ingress_key}
use caddy_k8s.App.Delete.{ids_of}
use caddy_k8s.App.Add.{IdVisit, stale_ids, route_ids_of, target_server}
use caddy_k8s.Hosts.{elem}
use caddy_k8s.Routes.Model.{CaddyRoute}
use caddy_k8s.Admin.Client.{Net}
use caddy_k8s.Admin.Program.{step}
use caddy_k8s.Admin.Threads.{Job, put, drop}
use caddy_k8s.Admin.Threads.Pool.{Thread, is_finished, start, jobs_of, ids}

-- What a handler is to do: the redirects, the stale ids, then the routes for the server.
pub record Plan : Type 0 where
  pub http_server : String
  pub redirects : List CaddyRoute
  pub stale : List String
  pub server : String
  pub routes : List CaddyRoute

abbrev pub deletions : List String → List Job
deletions [] = []
deletions (id ∷ rest) = drop id ∷ deletions rest

abbrev pub additions : String → List CaddyRoute → List Job
additions server [] = []
additions server (r ∷ rest) = put server r ∷ additions server rest

abbrev pub jobs_for : Plan → List Job
jobs_for plan =
    additions plan.http_server plan.redirects
    ++ (deletions plan.stale ++ additions plan.server plan.routes)

abbrev pub server_or_none : Option String → String
server_or_none none = ""
server_or_none (some server) = server

-- Without a server there is nothing to place.
abbrev pub placed : Option String → List CaddyRoute → List CaddyRoute
placed none routes = []
placed (some server) routes = routes

abbrev pub wanted_redirects : String → Ingress → IngressAnnotations → List CaddyRoute
wanted_redirects http_server ing ann =
    if ann.ssl_redirect && not (is_blank http_server) then http_redirect_routes ing else []

module _ (store : RouteStore) where
  -- What `handleAdd` is to do for the converted routes.
  unfoldable pub plan_of :
      IdVisit → Ingress → IngressAnnotations → List CaddyRoute → App store → Plan
  plan_of order ing ann routes a =
      let target = target_server store ing a in
      let old = ids_of (lookup (ingress_key ing) a.route_ids) in
      record {
        http_server = a.http_server_name;
        redirects = wanted_redirects a.http_server_name ing ann;
        stale = stale_ids order old (route_ids_of routes);
        server = server_or_none target;
        routes = placed target routes;
      }

abbrev pub all_jobs : List Plan → List Job
all_jobs [] = []
all_jobs (plan ∷ plans) = jobs_for plan ++ all_jobs plans

abbrev pub together : List (List Thread) → List Thread
together [] = []
together (ts ∷ hs) = ts ++ together hs

module _ (net : Net) where
  abbrev pub start_all : List Plan → List (List Thread)
  start_all [] = []
  start_all (plan ∷ plans) = start net (jobs_for plan) ∷ start_all plans

  -- A handler makes the next request of the first of its operations that has not returned.
  pub data Works : List Thread → net.World → List Thread → net.World → Type 0 where
    now :
        (t : Thread) (ts : List Thread) (w : net.World)
        → is_finished t.rest ≡ false
        → Works (t ∷ ts) w (record t { rest = (step net t.rest w).0 } ∷ ts) (step net t.rest w).1
    past :
        (t : Thread) {ts ts' : List Thread} {w w' : net.World}
        → is_finished t.rest ≡ true
        → Works ts w ts' w'
        → Works (t ∷ ts) w (t ∷ ts') w'

  pub data Handles : List (List Thread) → net.World → List (List Thread) → net.World → Type 0 where
    this :
        {ts ts' : List Thread} (hs : List (List Thread)) {w w' : net.World}
        → Works ts w ts' w'
        → Handles (ts ∷ hs) w (ts' ∷ hs) w'
    that :
        (ts : List Thread) {hs hs' : List (List Thread)} {w w' : net.World}
        → Handles hs w hs' w'
        → Handles (ts ∷ hs) w (ts ∷ hs') w'

  -- A handler without the others.
  pub data Goes : List Thread → net.World → List Thread → net.World → Type 0 where
    halts : (ts : List Thread) (w : net.World) → Goes ts w ts w
    works :
        {ts ts' us : List Thread} {w w' v : net.World}
        → Works ts w ts' w'
        → Goes ts' w' us v
        → Goes ts w us v

  -- What others leave alone is given by a view of the world, by id. A view of nothing lets them do anything.
  module _ (routes : net.World → String → Option String) where
    -- The requests of the handlers, and what others do in between: in the view, they leave the ids that the
    -- handlers are about alone.
    pub data Overlaps
        : ℕ → List (List Thread) → net.World → List (List Thread) → net.World → Type 0 where
      over : (hs : List (List Thread)) (w : net.World) → Overlaps 0 hs w hs w
      request :
          {n : ℕ} {hs hs' us : List (List Thread)} {w w' v : net.World}
          → Handles hs w hs' w'
          → Overlaps n hs' w' us v
          → Overlaps (suc n) hs w us v
      meanwhile :
          {n : ℕ} {hs us : List (List Thread)} {w v : net.World} (w' : net.World)
          → ((k : String) → elem k (ids (jobs_of (together hs))) ≡ true → routes w' k ≡ routes w k)
          → Overlaps n hs w' us v
          → Overlaps n hs w us v
