-- ===== src/Admin/Client.antt =====
-- HTTP requests to the admin API, and the operations on routes. Caddy is not part of the repository: its
-- answers are a parameter, and so are the texts of `encoding/json`. An operation takes the state of the
-- world to its result and the world after it. Where Go returns an `error`, `none` is `nil`.
use caddy_k8s.Base.{
  ℕ, zero, suc, String, ◌<>◌, Bool, false, ◌&&◌, Option, none, some, List, ◌==◌, ltb, leb, nat_eq,
  if◌then◌else◌, map_option, pos,
}
use caddy_k8s.Json.{Json}
use caddy_k8s.Dict.{Dict}
use caddy_k8s.Strings.Numbers.{itoa}
use caddy_k8s.Routes.Model.{CaddyRoute, marshal_route}

pub data Method : Type 0 where
  get put post patch delete : Method

unfoldable pub method_name : Method → String
method_name get = "GET"
method_name put = "PUT"
method_name post = "POST"
method_name patch = "PATCH"
method_name delete = "DELETE"

-- A request that got no answer, with the text of the error, or the answer's status and body.
pub data Reply : Type 0 where
  no_answer : String → Reply
  answer : ℕ → String → Reply

-- A value, or the text of an error.
pub data Fetched (A : Type 0) : Type 0 where
  found : A → Fetched A
  failure : String → Fetched A

-- What the client is given: the HTTP exchange, the wait of a backoff, which tells whether the context
-- was cancelled meanwhile and with what error, `json.Marshal`, and `json.Unmarshal` into an
-- `interface{}` and into the servers of Caddy's configuration with the addresses that they listen on.
pub record Net : Type 1 where
  pub World : Type 0
  pub send : Method → String → Option String → World → Reply × World
  pub wait : ℕ → World → Option String × World
  pub marshal : Json → String
  pub unmarshal : String → Option Json
  pub unmarshal_servers : String → Fetched (Dict (List String))

abbrev pub id_path : String → String
id_path id = "/id/" <> id

abbrev pub routes_path : String → String
routes_path server = "/config/apps/http/servers/" <> (server <> "/routes/")

-- `resp.StatusCode < 200 || resp.StatusCode >= 300` negated
abbrev pub is_success : ℕ → Bool
is_success code = leb 200 code && ltb code 300

module _ (net : Net) where
  open net use {World, send, wait, marshal, unmarshal}

  abbrev pub reply_error : Method → String → Reply → Option String
  reply_error method path (no_answer e) =
      some (method_name method <> (" " <> (path <> (": " <> e))))
  reply_error method path (answer code body) =
      if is_success code
      then none
      else some (
          method_name method
          <> (" " <> (path <> (": status " <> (itoa (pos code) <> (": " <> body))))))

  -- `do`: the result is `nil` or the text of an error
  unfoldable pub perform : Method → String → Option String → World → Option String × World
  perform method path body w =
      let (reply, w') = send method path body w in (reply_error method path reply, w')

  abbrev pub route_of : String → Reply → Fetched (Option String)
  route_of id (no_answer e) = failure e
  route_of id (answer code body) =
      if nat_eq code 404
      then found none
      else if nat_eq code 200
      then found (some body)
      else failure ("GET /id/" <> (id <> (": status " <> itoa (pos code))))

  -- `getRoute`; `found none` is the missing route.
  unfoldable pub get_route : String → World → Fetched (Option String) × World
  get_route id w = let (reply, w') = send get (id_path id) none w in (route_of id reply, w')

  -- `normaliseJSON`
  unfoldable pub normalise_json : String → Option String
  normalise_json b = map_option marshal (unmarshal b)

  -- `err1 == nil && err2 == nil && currentNorm == desiredNorm`
  abbrev pub same_norm : Option String → Option String → Bool
  same_norm (some a) (some b) = a == b
  same_norm (some a) none = false
  same_norm none o = false

  unfoldable pub is_current : String → String → Bool
  is_current current body = same_norm (normalise_json current) (normalise_json body)

  -- How a round of the retry loop ends: the function returns, or the loop goes on with an error kept.
  pub data Round : Type 0 where
    return : Option String → Round
    continue : String → Round

  abbrev pub posted : Option String → Round
  posted none = return none
  posted (some e) = continue e

  unfoldable pub post_route : String → String → World → Round × World
  post_route server body w =
      let (e, w') = perform post (routes_path server) (some body) w in (posted e, w')

  -- After the deletion of the stale route.
  abbrev pub replaced : Option String → String → String → World → Round × World
  replaced none server body w = post_route server body w
  replaced (some e) server body w = (continue ("delete before update: " <> e), w)

  unfoldable pub replace_route : String → String → String → World → Round × World
  replace_route server id body w =
      let (e, w') = perform delete (id_path id) none w in replaced e server body w'

  -- A round, from the answer about the current route.
  unfoldable pub round_of :
      String → String → String → Fetched (Option String) → World → Round × World
  round_of server id body (failure e) w = (continue e, w)
  round_of server id body (found none) w = post_route server body w
  round_of server id body (found (some current)) w =
      if is_current current body then (return none, w) else replace_route server id body w

  unfoldable pub upsert_round : String → String → String → World → Round × World
  upsert_round server id body w =
      let (current, w') = get_route id w in round_of server id body current w'

  -- The wait before a round; there is none before the first.
  abbrev pub backoff : ℕ → World → Option String × World
  backoff zero w = (none, w)
  backoff (suc n) w = wait (suc n) w

  abbrev pub next : Round → World → (String → Option String × World) → Option String × World
  next (return e) w loop = (e, w)
  next (continue e) w loop = loop e

  -- A context that is cancelled while the loop waits ends it.
  abbrev pub unless_gone : Option String → World → Option String × World → Option String × World
  unless_gone (some e) w rest = (some e, w)
  unless_gone none w rest = rest

  -- The loop, with the rounds left, the number of the next one and the last error.
  unfoldable pub attempts :
      ℕ → ℕ → String → String → String → Option String → World → Option String × World
  attempts zero attempt server id body last w = (last, w)
  attempts (suc left) attempt server id body last w =
      let (gone, w1) = backoff attempt w in
      let (round, w2) = upsert_round server id body w1 in
      let loop = λ (e : String). attempts left (suc attempt) server id body (some e) w2 in
      let rest = next round w2 loop in unless_gone gone w1 rest

  unfoldable pub upsert_route : String → CaddyRoute → World → Option String × World
  upsert_route server r w = attempts 3 0 server r.id (marshal (marshal_route r)) none w

  abbrev pub deletion : String → Fetched (Option String) → World → Option String × World
  deletion id (failure e) w = (some e, w)
  deletion id (found none) w = (none, w)
  deletion id (found (some b)) w = perform delete (id_path id) none w

  unfoldable pub delete_route : String → World → Option String × World
  delete_route id w = let (current, w') = get_route id w in deletion id current w'
