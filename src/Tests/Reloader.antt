-- ===== src/Tests/Reloader.antt =====
-- The reloader at a server that counts the loads.
use caddy_k8s.Base.{◌≡◌, refl, String, true, some, List, [], ◌∷◌}
use caddy_k8s.Kube.{ConfigMap}
use caddy_k8s.Reloader.{ConfigReloader, ReloadEvent, handle_all}
use caddy_k8s.Reloader.Changes.{contents_of, changes, reload_each, handle_all-changes}
use caddy_k8s.Tests.AdminApi.{Server, api}

abbrev reloader : ConfigReloader
reloader = record {
  namespace = "web";
  config_map = "conf";
  key = "Caddyfile";
  admin_api = "";
  last_hash = "a";
}

abbrev config : String → String → ConfigMap
config name text = record {
  name = name;
  namespace = "web";
  labels = [];
  owner_references = [];
  contents = ("Caddyfile", text) ∷ [];
}

abbrev update : String → String → ReloadEvent
update name text = record { object = some (config name text); is_update = true }

abbrev events : List ReloadEvent
events =
    update "conf" "a"
    ∷ update "conf" "b"
    ∷ update "other" "c"
    ∷ update "conf" "b"
    ∷ update "conf" "a"
    ∷ []

abbrev idle : Server
idle = record { routes = []; requests = 0; writes = 0 }

changes_test : changes "a" (contents_of "conf" "Caddyfile" events) ≡ "b" ∷ "a" ∷ []
unfolding changes contents_of caddy_k8s.Reloader.content_of caddy_k8s.Dict.lookup
changes_test = refl

handle_all_test : (handle_all api (λ s. s) events reloader idle).1.requests ≡ 2
unfolding handle_all caddy_k8s.Reloader.handle caddy_k8s.Reloader.content_of caddy_k8s.Dict.lookup
    caddy_k8s.Reloader.reload
handle_all_test = refl

handle_all-changes_example :
    (handle_all api (λ s. s) events reloader idle).1
    ≡ reload_each api (changes "a" (contents_of "conf" "Caddyfile" events)) idle
handle_all-changes_example =
    handle_all-changes api (λ s. s) events reloader "a" idle refl (λ a b ha hb. refl)
