-- ===== src/App/Overlap/Alone.antt =====
-- A handler without the others, beside the loops of handleAdd in app.go.
use caddy_k8s.Base.{
  String, ◌≡◌, refl, sym, ap, ◌∙◌, true, not, ◌&&◌, Option, none, some, List, [], ◌∷◌, ◌++◌, All,
  Bool-cases, inl, inr,
}
use caddy_k8s.Routes.Model.{CaddyRoute}
use caddy_k8s.Admin.Client.{Net, delete_route, upsert_route}
use caddy_k8s.Admin.Program.{Program, ret, ask, pause, step, run}
use caddy_k8s.Admin.Program.Agrees.{upsert_program-run, delete_program-run}
use caddy_k8s.Admin.Threads.{Job}
use caddy_k8s.Admin.Threads.Pool.{Thread, is_finished, start}
use caddy_k8s.Strings.{is_blank}
use caddy_k8s.Kube.{Ingress}
use caddy_k8s.Annotations.Config.{IngressAnnotations}
use caddy_k8s.Store.Interface.{RouteStore}
use caddy_k8s.App.State.{App, ingress_key}
use caddy_k8s.App.Delete.{delete_routes}
use caddy_k8s.App.Add.{
  IdVisit, upsert_routes, sync_redirects, place_on, place_routes, target_server,
}
use caddy_k8s.App.Overlap.{
  Plan, deletions, additions, jobs_for, server_or_none, placed, wanted_redirects, plan_of, Works,
  now, past, Goes, halts, works,
}

module _ (net : Net) where
  -- What is left of the operations, run one after the other.
  run_all : List Thread → net.World → net.World
  run_all [] w = w
  run_all (t ∷ ts) w = run_all ts (run net t.rest w).1

  run-step : (p : Program) (w : net.World) → run net (step net p w).0 (step net p w).1 ≡ run net p w
  unfolding run step
  run-step (ret o) w = refl
  run-step (ask m path body k) w = refl
  run-step (pause n k) w = refl

  run_finished : (p : Program) (w : net.World) → is_finished p ≡ true → (run net p w).1 ≡ w
  unfolding run
  run_finished (ret o) w e = refl
  run_finished (ask m path body k) w e = cc
  run_finished (pause n k) w e = cc

  run_all-Works :
      {ts ts' : List Thread} {w w' : net.World}
      → Works net ts w ts' w'
      → run_all ts' w' ≡ run_all ts w
  unfolding run_all
  run_all-Works (now t ts w e) = ap (λ out. run_all ts out.1) (run-step t.rest w)
  run_all-Works (past t {ts} {ts'} {w} {w'} e go) =
      ap (run_all ts') (run_finished t.rest w' e)
      ∙ (run_all-Works go ∙ sym (ap (run_all ts) (run_finished t.rest w e)))

  run_all-Goes :
      {ts us : List Thread} {w v : net.World} → Goes net ts w us v → run_all us v ≡ run_all ts w
  run_all-Goes (halts ts w) = refl
  run_all-Goes (works go more) = run_all-Goes more ∙ run_all-Works go

  run_all_finished :
      (ts : List Thread) (w : net.World)
      → All (λ t. is_finished t.rest ≡ true) ts
      → run_all ts w ≡ w
  unfolding run_all
  run_all_finished [] w _ = refl
  run_all_finished (t ∷ ts) w (e, es) =
      ap (run_all ts) (run_finished t.rest w e) ∙ run_all_finished ts w es

  run_all-additions :
      (server : String) (rs : List CaddyRoute) (more : List Job) (w : net.World)
      → run_all (start net (additions server rs ++ more)) w
        ≡ run_all (start net more) (upsert_routes net server rs w)
  unfolding run_all upsert_routes
  run_all-additions server [] more w = refl
  run_all-additions server (r ∷ rs) more w =
      ap (λ out. run_all (start net (additions server rs ++ more)) out.1)
        (upsert_program-run net server r w)
      ∙ run_all-additions server rs more (upsert_route net server r w).1

  run_all_last :
      (server : String) (rs : List CaddyRoute) (w : net.World)
      → run_all (start net (additions server rs)) w ≡ upsert_routes net server rs w
  unfolding run_all upsert_routes
  run_all_last server [] w = refl
  run_all_last server (r ∷ rs) w =
      ap (λ out. run_all (start net (additions server rs)) out.1)
        (upsert_program-run net server r w)
      ∙ run_all_last server rs (upsert_route net server r w).1

  run_all-deletions :
      (stale : List String) (more : List Job) (w : net.World)
      → run_all (start net (deletions stale ++ more)) w
        ≡ run_all (start net more) (delete_routes net stale w)
  unfolding run_all delete_routes
  run_all-deletions [] more w = refl
  run_all-deletions (id ∷ stale) more w =
      ap (λ out. run_all (start net (deletions stale ++ more)) out.1) (delete_program-run net id w)
      ∙ run_all-deletions stale more (delete_route net id w).1

  run_all-jobs_for :
      (plan : Plan) (w : net.World)
      → run_all (start net (jobs_for plan)) w
        ≡ upsert_routes net plan.server plan.routes
            (delete_routes net plan.stale (upsert_routes net plan.http_server plan.redirects w))
  run_all-jobs_for plan w =
      run_all-additions plan.http_server plan.redirects _ w
      ∙ (run_all-deletions plan.stale _ (upsert_routes net plan.http_server plan.redirects w)
          ∙ run_all_last plan.server plan.routes _)

  sync_redirects-wanted :
      (http_server : String) (ing : Ingress) (ann : IngressAnnotations) (w : net.World)
      → upsert_routes net http_server (wanted_redirects http_server ing ann) w
        ≡ sync_redirects net http_server ing ann w
  unfolding sync_redirects upsert_routes
  sync_redirects-wanted http_server ing ann w =
      elim (Bool-cases (ann.ssl_redirect && not (is_blank http_server))) [
        | inl e ↦ rw e refl
        | inr e ↦ rw e refl
      ]

  module _ (store : RouteStore) where
    place_on-placed :
        (target : Option String) (key : String) (rs : List CaddyRoute) (a : App store)
        (w : net.World)
        → upsert_routes net (server_or_none target) (placed target rs) w
          ≡ (place_on net store target key rs a w).1
    unfolding place_on upsert_routes
    place_on-placed none key rs a w = refl
    place_on-placed (some server) key rs a w = refl

    -- A handler whose requests are not interrupted leaves, once all its operations have returned, the world
    -- that `handleAdd` leaves from the converted routes on.
    Goes-place_routes :
        {us : List Thread} {w v : net.World} (order : IdVisit) (ing : Ingress)
        (ann : IngressAnnotations) (rs : List CaddyRoute) (a : App store)
        → Goes net (start net (jobs_for (plan_of store order ing ann rs a))) w us v
        → All (λ t. is_finished t.rest ≡ true) us
        → v ≡ (place_routes net store order ing ann rs a w).1
    unfolding plan_of place_routes
    Goes-place_routes {us} {w} {v} order ing ann rs a go finished =
        let plan = plan_of store order ing ann rs a in
        sym (run_all_finished us v finished)
        ∙ (run_all-Goes go
            ∙ (run_all-jobs_for plan w
                ∙ (ap
                      (λ w1.
                        upsert_routes net plan.server plan.routes (delete_routes net plan.stale w1))
                      (sync_redirects-wanted a.http_server_name ing ann w)
                    ∙ place_on-placed (target_server store ing a) (ingress_key ing) rs a _)))
