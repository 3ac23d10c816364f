-- ===== src/Tests/Lifecycle.antt =====
-- The application stopped while it looks for the HTTP server, and the client of the cluster.
use caddy_k8s.Base.{◌≡◌, refl, true, false, some, String}
use caddy_k8s.Admin.Client.{found, failure}
use caddy_k8s.Kube.Connect.{Environment, connect}
use caddy_k8s.Signal.{live, closed}
use caddy_k8s.App.Lifecycle.{
  Lifecycle, provisioned, start, stop, logging, finding_http, Passed, here, further, waits,
  https_found, http_looked, restored, watching, watches,
}
use caddy_k8s.App.Lifecycle.Stopped.{IsAfter, stop-IsAfter}
use caddy_k8s.Reloader.{start_reloader}

abbrev outside_cluster : Environment String String
outside_cluster = record {
  in_cluster = failure "not in cluster";
  kubeconfig = "";
  home = "/home/dev";
  from_file = λ path. found path;
  new_client = λ config. found config;
}

connect_test : connect outside_cluster "k8s_ingress" ≡ found "/home/dev/.kube/config"
unfolding connect
connect_test = refl

connect_error_test :
    connect (record outside_cluster { from_file = λ path. failure "no file" }) "k8s_ingress"
    ≡ failure "k8s_ingress: build kube config: no file"
unfolding connect
connect_error_test = refl

reloader_start_test :
    start_reloader outside_cluster false ≡ some "k8s_config_reloader: cache sync timed out"
unfolding connect start_reloader
reloader_start_test = refl

abbrev client : String
client = "client"

abbrev looking : Lifecycle
looking = record provisioned { context = live; stage = finding_http }

looks : Passed (start (found client) provisioned).1 looking
unfolding start
looks = further (waits _ refl) (further (https_found _ refl) (here _))

stop-IsAfter_example :
    (b : Lifecycle) × (stop looking ≡ some b) × ((c : Lifecycle) → Passed b c → IsAfter looking c)
stop-IsAfter_example = stop-IsAfter client looks

-- The watcher of the secrets begins after the stop, and runs on.
abbrev left_behind : Lifecycle
left_behind = record provisioned {
  context = closed;
  stop_ch = closed;
  manager = live;
  store_open = false;
  stage = logging;
}

left_behind_test :
    (b : Lifecycle) × (stop looking ≡ some b) × Passed b left_behind × (watches left_behind ≡ true)
unfolding stop
left_behind_test = (
  record looking { context = closed; stop_ch = closed; store_open = false },
  refl,
  further (http_looked _ refl) (further (restored _ refl) (further (watching _ refl) (here _))),
  refl,
)
