-- ===== src/Tests/Threads.antt =====
-- The operations of the client on a network that loses every third request.
use caddy_k8s.Base.{refl, [], ◌∷◌}
use caddy_k8s.Admin.Threads.Steps.{IsRun, upsert_delete-IsRun}
use caddy_k8s.Admin.Client.{upsert_route, delete_route}
use caddy_k8s.Admin.Threads.{put, drop}
use caddy_k8s.Tests.AdminApi.{Server}
use caddy_k8s.Tests.Flaky.{flaky, flaky_server, front, front-IsFit}

abbrev server : Server
server = record { routes = ("gone", "gone") ∷ []; requests = 0; writes = 0 }

upsert_delete-IsRun_example :
    IsRun flaky flaky_server (put "srv0" front) server (upsert_route flaky "srv0" front server)
    × IsRun flaky flaky_server (drop "gone") server (delete_route flaky "gone" server)
upsert_delete-IsRun_example =
    upsert_delete-IsRun flaky flaky_server "srv0" front "gone" server refl front-IsFit refl
