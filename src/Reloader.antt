-- ===== src/Reloader.antt =====
-- The reloader of the configuration: reloader.go, but for its block of the Caddyfile. The lock makes an
-- event one step. SHA-256 is a parameter, and so is the file with the pod's namespace. Log calls are
-- left out.
pub mod Changes
use caddy_k8s.Base.{
  String, ◌<>◌, Bool, true, false, not, ◌&&◌, ◌||◌, Option, none, some, List, [], ◌∷◌, ◌==◌,
  if◌then◌else◌, nat_eq, pos,
}
use caddy_k8s.Dict.{lookup}
use caddy_k8s.Kube.{ConfigMap}
use caddy_k8s.Signal.{Signal, close}
use caddy_k8s.Kube.Connect.{Environment, connect}
use caddy_k8s.Strings.{is_blank, trim_space}
use caddy_k8s.Strings.Numbers.{itoa}
use caddy_k8s.Admin.Client.{Net, Fetched, found, failure, Reply, no_answer, answer, post}

pub record ConfigReloader : Type 0 where
  pub namespace : String
  pub config_map : String
  pub key : String
  pub admin_api : String
  pub last_hash : String

-- The content of the file with the namespace; `none` if it cannot be read.
unfoldable pub reloader_pod_namespace : Option String → String
reloader_pod_namespace none = "default"
reloader_pod_namespace (some b) = trim_space b

abbrev pub default_to : String → String → String
default_to default given = if is_blank given then default else given

unfoldable pub provision : Option String → ConfigReloader → ConfigReloader
provision file r = record r {
  key = default_to "Caddyfile" r.key;
  admin_api = default_to "localhost:2019" r.admin_api;
  namespace = default_to (reloader_pod_namespace file) r.namespace;
}

-- An event of the informer: the object, where it is a ConfigMap, and whether it is an update.
pub record ReloadEvent : Type 0 where
  pub object : Option ConfigMap
  pub is_update : Bool

-- The content at the key of the watched ConfigMap.
unfoldable pub content_of : String → String → Option ConfigMap → Option String
content_of config_map key none = none
content_of config_map key (some cm) = if cm.name == config_map then lookup key cm.contents else none

-- The status is printed by its number; `resp.Status` has the reason phrase after it. The text is only logged.
abbrev load_error : Reply → Option String
load_error (no_answer e) = some ("POST /load: " <> e)
load_error (answer code body) =
    if nat_eq code 200 then none else some ("POST /load returned " <> itoa (pos code))

module _ (net : Net) where
  -- The content is posted to `/load` of the admin API.
  unfoldable pub reload : String → net.World → Option String × net.World
  reload content w =
      let (reply, w') = net.send post "/load" (some content) w in (load_error reply, w')

  module _ (sum256 : String → String) where
    abbrev pub handle_content :
        Option String → Bool → ConfigReloader → net.World → ConfigReloader × net.World
    handle_content none is_update r w = (r, w)
    handle_content (some content) is_update r w =
        let h = sum256 content in
        let r' = record r { last_hash = h } in
        let (e, w') = reload content w in
        if not is_update then (r', w) else if h == r.last_hash then (r', w) else (r', w')

    unfoldable pub handle : ReloadEvent → ConfigReloader → net.World → ConfigReloader × net.World
    handle event r w =
        handle_content (content_of r.config_map r.key event.object) event.is_update r w

    -- The events in the order in which they come.
    unfoldable pub handle_all :
        List ReloadEvent → ConfigReloader → net.World → ConfigReloader × net.World
    handle_all [] r w = (r, w)
    handle_all (event ∷ events) r w = let (r', w') = handle event r w in handle_all events r' w'

abbrev pub start_watch : {Client : Type 0} → Fetched Client → Bool → Option String
start_watch (failure e) synced = some e
start_watch (found client) synced =
    if synced then none else some "k8s_config_reloader: cache sync timed out"

-- `Start`, with what the environment gives and whether the cache of the ConfigMaps gets synced; its error.
unfoldable pub start_reloader :
    {Config Client : Type 0} → Environment Config Client → Bool → Option String
start_reloader env synced = start_watch (connect env "k8s_config_reloader") synced

-- `Stop` closes the channel of the informer; none is a panic.
abbrev stop_reloader : Signal → Option Signal
stop_reloader stop_ch = close stop_ch
