-- ===== src/Admin/Policies.antt =====
-- The other operations of admin.go: automation policies, writes to a path, and the server's name.
use caddy_k8s.Base.{
  String, ◌<>◌, Bool, true, false, Option, none, some, List, [], ◌∷◌, nat_eq, pos, if◌then◌else◌,
  any,
}
use caddy_k8s.Json.{Json}
use caddy_k8s.Dict.{Dict}
use caddy_k8s.Strings.Numbers.{itoa}
use caddy_k8s.Strings.{is_blank, contains, has_suffix}
use caddy_k8s.Admin.Client.{
  get, put, post, patch, delete, Reply, no_answer, answer, Fetched, found, failure, Net, id_path,
  perform,
}

abbrev pub policies_path : String
policies_path = "/config/apps/tls/automation/policies/"

abbrev servers_path : String
servers_path = "/config/apps/http/servers"

module _ (net : Net) where
  open net use {World, send, marshal, unmarshal_servers}

  abbrev pub exists_of : Reply → Fetched Bool
  exists_of (no_answer e) = failure e
  exists_of (answer code body) = found (nat_eq code 200)

  unfoldable pub route_exists : String → World → Fetched Bool × World
  route_exists id w = let (reply, w') = send get (id_path id) none w in (exists_of reply, w')

  abbrev pub put_or_post : Fetched Bool → String → String → World → Option String × World
  put_or_post (failure e) id body w = (some e, w)
  put_or_post (found true) id body w = perform net put (id_path id) (some body) w
  put_or_post (found false) id body w = perform net post policies_path (some body) w

  -- The policy is given by its id and its JSON.
  unfoldable pub upsert_tls_policy : String → Json → World → Option String × World
  upsert_tls_policy id policy w =
      let (exists, w') = route_exists id w in put_or_post exists id (marshal policy) w'

  abbrev pub delete_if : Fetched Bool → String → World → Option String × World
  delete_if (failure e) id w = (some e, w)
  delete_if (found true) id w = perform net delete (id_path id) none w
  delete_if (found false) id w = (none, w)

  unfoldable pub delete_tls_policy : String → World → Option String × World
  delete_tls_policy id w = let (exists, w') = route_exists id w in delete_if exists id w'

  abbrev patch_on_conflict : Option String → String → String → World → Option String × World
  patch_on_conflict none path body w = (none, w)
  patch_on_conflict (some e) path body w =
      if contains e "status 409" then perform net patch path (some body) w else (some e, w)

  unfoldable pub put_or_patch : String → String → World → Option String × World
  put_or_patch path body w =
      let (e, w') = perform net put path (some body) w in patch_on_conflict e path body w'

  unfoldable pub post_json : String → Json → World → Option String × World
  post_json path payload w = perform net post path (some (marshal payload)) w

  -- The first server, in the order of the map, that listens on the port.
  listening : String → Dict (List String) → Option String
  listening port [] = none
  listening port ((name, addresses) ∷ servers) =
      let rest = listening port servers in
      if any (λ addr. has_suffix addr port) addresses then some name else rest

  abbrev found_server : String → Option String → Fetched String
  found_server port (some name) = found name
  found_server port none =
      failure ("no Caddy server listening on " <> (port <> " found — set server_name explicitly"))

  abbrev decoded : String → Fetched (Dict (List String)) → Fetched String
  decoded port (failure e) = failure ("decode servers: " <> e)
  decoded port (found servers) = found_server port (listening port servers)

  abbrev server_of : String → Reply → Fetched String
  server_of port (no_answer e) = failure ("GET /config/apps/http/servers: " <> e)
  server_of port (answer code body) =
      if nat_eq code 200
      then decoded port (unmarshal_servers body)
      else failure ("GET /config/apps/http/servers: status " <> itoa (pos code))

  unfoldable pub resolve_server_name : String → String → World → Fetched String × World
  unfolding listening
  resolve_server_name hint port w =
      let (reply, w') = send get servers_path none w in
      if is_blank hint then (server_of port reply, w') else (found hint, w)
