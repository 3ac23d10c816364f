-- ===== src/App/Start.antt =====
-- The start of the application: the defaults and the names of the servers in `Provision`, and `run` up
-- to the informers. The HTTP app's servers with their addresses are an argument, in the order in which Go
-- visits them; `none` is an HTTP app that cannot be reached. Log calls are left out.
use caddy_k8s.Base.{
  ℕ, zero, suc, String, Bool, true, false, ◌&&◌, ◌||◌, Option, none, some, List, [], ◌∷◌, ◌++◌,
  if◌then◌else◌, is_empty,
}
use caddy_k8s.Dict.{Dict}
use caddy_k8s.Json.{Json, str, object, texts}
use caddy_k8s.Strings.{is_blank, has_suffix}
use caddy_k8s.Admin.Client.{Net, Fetched, found, failure}
use caddy_k8s.Admin.Policies.{put_or_patch, resolve_server_name}
use caddy_k8s.AccessLog.Manager.{AccessLogManager, new_access_log_manager, enable}
use caddy_k8s.Store.Interface.{RouteStore}
use caddy_k8s.Tls.Certs.{new_tls_manager}
use caddy_k8s.Reloader.{default_to}
use caddy_k8s.Caddyfile.Options.{Settings}
use caddy_k8s.App.State.{App}
use caddy_k8s.App.Events.{restore}

unfoldable pub provision_defaults : Settings → Settings
provision_defaults s = record s {
  ingress_class = default_to "caddy" s.ingress_class;
  admin_api = default_to "localhost:2019" s.admin_api;
  security = record s.security { waf_mode = default_to "Detection" s.security.waf_mode };
}

-- The names of the HTTPS server and of the HTTP server; blank while they are not known.
pub record ServerNames : Type 0 where
  pub https : String
  pub http : String

-- The first server that listens on the port gives the name.
abbrev pub take_name : String → String → String → String → String
take_name port name address known =
    if is_blank known && has_suffix address port then name else known

abbrev pub take_address : String → String → ServerNames → ServerNames
take_address name address names = record {
  https = take_name ":443" name address names.https;
  http = take_name ":80" name address names.http;
}

unfoldable pub take_addresses : String → List String → ServerNames → ServerNames
take_addresses name [] names = names
take_addresses name (address ∷ rest) names =
    take_addresses name rest (take_address name address names)

unfoldable pub take_servers : Dict (List String) → ServerNames → ServerNames
take_servers [] names = names
take_servers ((name, listen) ∷ rest) names = take_servers rest (take_addresses name listen names)

abbrev no_names : ServerNames
no_names = record { https = ""; http = "" }

abbrev pub discovered : Option (Dict (List String)) → ServerNames
discovered none = no_names
discovered (some servers) = take_servers servers no_names

-- The configured names come before the discovered ones.
unfoldable pub provision_names : Settings → Option (Dict (List String)) → ServerNames
provision_names s servers =
    let names =
      if is_blank s.server_name || is_blank s.http_server_name
      then discovered servers
      else no_names in
    record {
      https = default_to names.https s.server_name;
      http = default_to names.http s.http_server_name;
    }

unfoldable pub log_excludes : Settings → List String
log_excludes s =
    (if s.access_log then "http.log.access" ∷ [] else [])
    ++ (if s.verbose_logs then [] else "admin.api" ∷ [])

abbrev admin_api_logger : Json
admin_api_logger = object (
    ("writer", object (("output", str "stderr") ∷ []))
    ∷ ("encoder", object (("format", str "json") ∷ []))
    ∷ ("level", str "WARN")
    ∷ ("include", texts ("admin.api" ∷ []))
    ∷ [])

module _ (net : Net) where
  open net use {World, marshal}

  unfoldable pub configure_default_logger : Settings → World → World
  configure_default_logger s w =
      let body = marshal (object (("exclude", texts (log_excludes s)) ∷ [])) in
      let (e, w') = put_or_patch net "/config/logging/logs/default" body w in
      let w1 = if is_empty (log_excludes s) then w else w' in
      let (e', w2) =
        put_or_patch net "/config/logging/logs/admin.api" (marshal admin_api_logger) w1 in
      if s.verbose_logs then w1 else w2

  -- How the wait for the HTTPS server ends: with its name, or because the application was stopped, or out
  -- of fuel. `pause` waits two seconds and tells whether the application was stopped meanwhile.
  pub data Waited (A : Type 0) : Type 0 where
    ready : A → Waited A
    stopped : World → Waited A
    waiting : Waited A

  module _ (pause : World → Bool × World) where
    abbrev unless_stopped : {A : Type 0} → Bool × World → (World → Waited A) → Waited A
    unless_stopped (true, w) k = stopped w
    unless_stopped (false, w) k = k w

    abbrev named_or :
        Fetched String → World → (World → Waited (String × World)) → Waited (String × World)
    named_or (found name) w k = ready (name, w)
    named_or (failure e) w k = unless_stopped (pause w) k

    -- The loop that asks for the HTTPS server.
    unfoldable pub wait_for_server : ℕ → String → World → Waited (String × World)
    wait_for_server zero hint w = waiting
    wait_for_server (suc fuel) hint w =
        let (r, w') = resolve_server_name net hint ":443" w in
        named_or r w' (wait_for_server fuel hint)

    abbrev server_name_or : ℕ → String → String → World → Waited (String × World)
    server_name_or fuel hint known w =
        let asked = wait_for_server fuel hint w in
        if is_blank known then asked else ready (known, w)

    abbrev name_or_none : Fetched String → String
    name_or_none (found name) = name
    name_or_none (failure e) = ""

    abbrev pub http_name_or : String → String → World → String × World
    http_name_or hint known w =
        let (r, w') = resolve_server_name net hint ":80" w in
        if is_blank known then (name_or_none r, w') else (known, w)

    unfoldable pub enable_log : Settings → String → String → World → Option AccessLogManager × World
    enable_log s https http w =
        let m = new_access_log_manager https http in
        let (e, w') = enable net m w in if s.access_log then (some m, w') else (none, w)

    module _ (store : RouteStore) where
      -- From the names on: the records, the managers, and the loggers.
      unfoldable pub launch : Settings → String × World → App store → App store × World
      launch s (https, w) a =
          let (http, w1) = http_name_or s.http_server_name a.http_server_name w in
          let a1 = restore store (record a { server_name = https; http_server_name = http }) in
          let (log, w2) = enable_log s https http w1 in
          (
            record a1 { tls_manager = new_tls_manager; access_log_mgr = log },
            configure_default_logger s w2,
          )

      abbrev launched : Settings → App store → Waited (String × World) → Waited (App store × World)
      launched s a (ready named) = ready (launch s named a)
      launched s a (stopped w) = stopped w
      launched s a waiting = waiting

      unfoldable pub run : ℕ → Settings → App store → World → Waited (App store × World)
      run fuel s a w = launched s a (server_name_or fuel s.server_name a.server_name w)
