-- ===== src/Tests/Start.antt =====
-- The start of the application at a server whose configuration appears after a while.
use caddy_k8s.Base.{String, ◌≡◌, refl, Bool, true, false, none, [], ◌∷◌, Option, List, arith}
use caddy_k8s.Dict.{Dict, lookup, insert}
use caddy_k8s.Store.Memory.{MemoryStore, memory_store, memory_store-IsFaithful}
use caddy_k8s.App.State.{App}
use caddy_k8s.Base.{some}
use caddy_k8s.Caddyfile.Options.{Settings}
use caddy_k8s.App.Start.{ServerNames, provision_names, run, ready}
use caddy_k8s.App.Ready.{
  IsProvisioned, provision_names-IsProvisioned, Appears, now, later, IsReady, run-IsReady,
}
use caddy_k8s.Tests.AdminApi.{Server, api}
use caddy_k8s.Tests.Deletion.{app}

abbrev settings : Settings
settings = record {
  ingress_class = "caddy";
  server_name = "";
  http_server_name = "plain";
  admin_api = "";
  security = record {
    waf = false;
    waf_mode = "";
    security_headers = false;
    inject_real_ip = false;
  };
  redis = none;
  access_log = true;
  verbose_logs = false;
}

abbrev servers : Dict (List String)
servers = ("edge", ":80" ∷ []) ∷ ("main", ":8443" ∷ "10.0.0.1:443" ∷ []) ∷ []

provision_names_test :
    provision_names settings (some servers) ≡ record { https = "main"; http = "plain" }
unfolding provision_names caddy_k8s.App.Start.take_servers caddy_k8s.App.Start.take_addresses
    caddy_k8s.Strings.has_suffix
provision_names_test = refl

provision_names-IsProvisioned_example :
    let names = provision_names settings (some servers) in
    IsProvisioned ":443" "" servers names.https × IsProvisioned ":80" "plain" servers names.http
provision_names-IsProvisioned_example = provision_names-IsProvisioned settings servers

-- The text of the configuration of the servers, which stands at its path.
abbrev configure : Server → Server
configure w = record w { routes = insert "fig/apps/http/servers" "{}" w.routes }

abbrev pause : Server → Bool × Server
pause w = (false, configure w)

abbrev view : MemoryStore → String → Option (List String)
view s j = lookup j s.contents

abbrev bare : Server
bare = record { routes = []; requests = 0; writes = 0 }

abbrev once_asked : Server
once_asked = record bare { requests = 1 }

abbrev fresh : App memory_store
fresh = record app { server_name = ""; http_server_name = ""; route_ids = [] }

found_then :
    Appears api pause "" "srv0"
      (record (configure once_asked) { requests = 2 })
      0
      (configure once_asked)
unfolding caddy_k8s.Admin.Policies.resolve_server_name lookup insert
    caddy_k8s.Store.Redis.drop_prefix caddy_k8s.Strings.has_suffix
found_then = now (configure once_asked) refl

found_later : Appears api pause "" "srv0" (record (configure once_asked) { requests = 2 }) 1 bare
unfolding caddy_k8s.Admin.Policies.resolve_server_name lookup caddy_k8s.Strings.Numbers.itoa
found_later =
    later bare once_asked (configure once_asked) "GET /config/apps/http/servers: status 404" refl
      refl found_then

run-IsReady_example :
    (out : App memory_store × Server) × (run api pause memory_store 2 settings fresh bare
      ≡ ready out)
    × IsReady api pause memory_store view settings "srv0" out.0
run-IsReady_example =
    run-IsReady api pause memory_store view memory_store-IsFaithful 1 2 settings fresh bare
      (record (configure once_asked) { requests = 2 }) "srv0" refl refl found_later (omega arith)
