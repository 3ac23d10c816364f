-- ===== src/Tests/Overlap.antt =====
-- Two handlers that overlap on a network that loses every third request.
use caddy_k8s.Base.{◌≤◌, ◌≡◌, refl, true, none, some, String, Option, List, [], ◌∷◌, All, ◌⊎◌}
use caddy_k8s.Json.{field}
use caddy_k8s.Dict.{lookup, insert, erase}
use caddy_k8s.Routes.Model.{marshal_route}
use caddy_k8s.Store.Redis.{drop_prefix}
use caddy_k8s.Admin.Program.{
  ret, step, posting, replacing, asking, attempting, upsert_program, delete_program,
}
use caddy_k8s.Admin.Threads.{put, drop}
use caddy_k8s.Admin.Threads.Pool.{Thread, is_finished, jobs_of, HasDone}
use caddy_k8s.App.Overlap.{
  Plan, all_jobs, together, start_all, now, past, Handles, this, that, Overlaps, over, request,
}
use caddy_k8s.App.Overlap.Done.{Overlaps-HasDone, Overlaps-bound}
use caddy_k8s.Tests.AdminApi.{Server}
use caddy_k8s.Tests.Flaky.{flaky, flaky_server, front, front-IsFit}

abbrev changed : Plan
changed = record {
  http_server = "";
  redirects = [];
  stale = "old" ∷ [];
  server = "srv0";
  routes = front ∷ [];
}

abbrev removed : Plan
removed = record {
  http_server = "";
  redirects = [];
  stale = "gone" ∷ [];
  server = "srv0";
  routes = [];
}

abbrev plans : List Plan
plans = changed ∷ removed ∷ []

abbrev before : Server
before = record { routes = ("old", "old") ∷ ("gone", "gone") ∷ []; requests = 0; writes = 0 }

abbrev changed_done : List Thread
changed_done =
    record { job = drop "old"; rest = ret none }
    ∷ record { job = put "srv0" front; rest = ret none }
    ∷ []

-- The read of the route to delete is lost.
abbrev removed_failed : List Thread
removed_failed = record { job = drop "gone"; rest = ret (some "reset") } ∷ []

abbrev ended : List (List Thread)
ended = changed_done ∷ removed_failed ∷ []

abbrev after : Server
after = record { routes = ("gone", "gone") ∷ ("front", "front") ∷ []; requests = 5; writes = 2 }

abbrev view : Server → String → Option String
view w k = lookup k w.routes

overlap : Overlaps flaky view 5 (start_all flaky plans) before ended after
unfolding step attempting asking posting replacing upsert_program delete_program lookup drop_prefix
    insert erase marshal_route field caddy_k8s.Strings.has_prefix
overlap = request (this _ (now _ _ _ refl)) (
    request (this _ (now _ _ _ refl)) (
      request (that _ (this _ (now _ _ _ refl))) (
        request (this _ (past _ refl (now _ _ _ refl)))
          (request (this _ (past _ refl (now _ _ _ refl))) (over _ _)))))

Overlaps-HasDone_example :
    (jobs_of (together ended) ≡ all_jobs plans)
    × All (HasDone flaky flaky_server after) (together ended)
Overlaps-HasDone_example =
    Overlaps-HasDone flaky flaky_server plans (tt, (refl, (tt, tt)))
      (refl, (front-IsFit, (refl, tt))) refl overlap

Overlaps-bound_example :
    (5 ≤ 33)
    × (All (All (λ t. is_finished t.rest ≡ true)) ended
        ⊎ ((hs : List (List Thread)) × (w : Server) × Handles flaky ended after hs w))
Overlaps-bound_example = Overlaps-bound flaky view plans overlap
