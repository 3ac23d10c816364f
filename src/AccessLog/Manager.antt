-- ===== src/AccessLog/Manager.antt =====
-- The state of `accessLogManager` and its operations. Go visits a map in no fixed order, and the order
-- may differ from one call to the next: a call is given the order as `visit`. The locks make each
-- part that reads or writes the state one step; a call is run here from start to end.
use caddy_k8s.Base.{
  String, ◌<>◌, Option, none, some, List, [], ◌∷◌, ◌++◌, ◌==◌, ◌||◌, if◌then◌else◌,
}
use caddy_k8s.Dict.{Dict, empty, insert, erase}
use caddy_k8s.Json.{Json, str, texts, object}
use caddy_k8s.Strings.{is_blank}
use caddy_k8s.Admin.Client.{patch, Net, perform}
use caddy_k8s.Admin.Policies.{put_or_patch}
use caddy_k8s.Hosts.{unique}

pub record AccessLogManager : Type 0 where
  pub server_name : String
  pub http_server_name : String
  pub disabled : Dict (List String)
  pub last_skip : String

unfoldable pub new_access_log_manager : String → String → AccessLogManager
new_access_log_manager server_name http_server_name = record {
  server_name = server_name;
  http_server_name = http_server_name;
  disabled = empty;
  last_skip = "";
}

unfoldable pub servers : AccessLogManager → List String
servers m =
    m.server_name
    ∷ (if is_blank m.http_server_name || m.http_server_name == m.server_name
        then []
        else m.http_server_name ∷ [])

-- The host lists of a map, in the order of a visit.
abbrev pub Visit : Type 0
Visit = Dict (List String) → List (List String)

abbrev pub concat : List (List String) → List String
concat [] = []
concat (xs ∷ xss) = xs ++ concat xss

-- The hosts of all entries, each once.
unfoldable pub skip_list : Visit → AccessLogManager → List String
skip_list visit m = unique (concat (visit m.disabled))

abbrev pub logs_path : String → String
logs_path srv = "/config/apps/http/servers/" <> (srv <> "/logs")

abbrev pub skip_path : String → String
skip_path srv = "/config/apps/http/servers/" <> (srv <> "/logs/skip_hosts")

module _ (net : Net) where
  open net use {World, marshal}

  -- A loop over the servers goes on after a success, and ends with an error's text.
  abbrev pub go_on :
      Option String → String → String → World → Option String × World → Option String × World
  go_on none what srv w rest = rest
  go_on (some e) what srv w rest = (some (what <> (" (" <> (srv <> ("): " <> e)))), w)

  unfoldable pub patch_servers : List String → String → World → Option String × World
  patch_servers [] body w = (none, w)
  patch_servers (srv ∷ srvs) body w =
      let (e, w') = perform net patch (skip_path srv) (some body) w in
      let rest = patch_servers srvs body w' in go_on e "update skip_hosts" srv w' rest

  -- The state after the requests: the list sent is kept if they all succeeded.
  abbrev pub recorded :
      AccessLogManager → String → Option String × World → Option String × AccessLogManager × World
  recorded m body (none, w) = (none, record m { last_skip = body }, w)
  recorded m body (some e, w) = (some e, m, w)

  unfoldable pub rebuild :
      Visit → AccessLogManager → World → Option String × AccessLogManager × World
  rebuild visit m w =
      let body = marshal (texts (skip_list visit m)) in
      let sent = patch_servers (servers m) body w in
      if m.last_skip == body then (none, m, w) else recorded m body sent

  unfoldable pub skip :
      Visit
      → String
      → List String
      → AccessLogManager
      → World
      → Option String × AccessLogManager × World
  skip visit key hosts m w = rebuild visit (record m { disabled = insert key hosts m.disabled }) w

  unfoldable pub unskip :
      Visit → String → AccessLogManager → World → Option String × AccessLogManager × World
  unskip visit key m w = rebuild visit (record m { disabled = erase key m.disabled }) w

  unfoldable pub configure_servers : List String → String → World → Option String × World
  configure_servers [] body w = (none, w)
  configure_servers (srv ∷ srvs) body w =
      let (e, w') = put_or_patch net (logs_path srv) body w in
      let rest = configure_servers srvs body w' in go_on e "configure server logs" srv w' rest

  abbrev logger_payload : Json
  logger_payload = object (
      ("writer", object (("output", str "stderr") ∷ []))
      ∷ ("encoder", object (("format", str "json") ∷ []))
      ∷ ("include", texts ("http.log.access" ∷ []))
      ∷ [])

  abbrev logs_payload : Json
  logs_payload = object (("default_logger_name", str "access") ∷ ("skip_hosts", texts []) ∷ [])

  abbrev then_servers : Option String → AccessLogManager → World → Option String × World
  then_servers (some e) m w = (some ("configure access logger: " <> e), w)
  then_servers none m w = configure_servers (servers m) (marshal logs_payload) w

  unfoldable pub enable : AccessLogManager → World → Option String × World
  enable m w =
      let (e, w') = put_or_patch net "/config/logging/logs/access" (marshal logger_payload) w in
      then_servers e m w'
