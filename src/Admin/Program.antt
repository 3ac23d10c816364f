-- ===== src/Admin/Program.antt =====
-- The operations on routes as programs that make one request at a time, so that the requests of several
-- goroutines can be interleaved. `run` makes the requests of one program without a break.
pub mod Agrees
use caddy_k8s.Base.{
  ℕ, zero, suc, String, ◌<>◌, Bool, true, false, Option, none, some, if◌then◌else◌,
}
use caddy_k8s.Routes.Model.{CaddyRoute, marshal_route}
use caddy_k8s.Admin.Client.{
  Method, get, post, delete, Reply, Fetched, found, failure, Net, id_path, routes_path, reply_error,
  route_of, is_current,
}

-- A program: it has returned, or it makes a request and goes on from the reply, or it waits and goes on
-- from what the wait tells.
pub data Program : Type 0 where
  ret : Option String → Program
  ask : Method → String → Option String → (Reply → Program) → Program
  pause : ℕ → (Option String → Program) → Program

module _ (net : Net) where
  open net use {World}

  -- One step of a program; one that has returned stays.
  unfoldable pub step : Program → World → Program × World
  step (ret o) w = (ret o, w)
  step (ask m path body k) w = let (reply, w') = net.send m path body w in (k reply, w')
  step (pause n k) w = let (gone, w') = net.wait n w in (k gone, w')

  unfoldable pub run : Program → World → Option String × World
  run (ret o) w = (o, w)
  run (ask m path body k) w = let (reply, w') = net.send m path body w in run (k reply) w'
  run (pause n k) w = let (gone, w') = net.wait n w in run (k gone) w'

  -- After an answer: none is success, and an error goes to the next attempt.
  abbrev pub settle : Option String → (String → Program) → Program
  settle none retry = ret none
  settle (some e) retry = retry e

  unfoldable pub posting : String → String → (String → Program) → Program
  posting server body retry =
      ask post (routes_path server) (some body)
        (λ reply. settle (reply_error net post (routes_path server) reply) retry)

  abbrev pub then_posting : Option String → String → String → (String → Program) → Program
  then_posting none server body retry = posting server body retry
  then_posting (some e) server body retry = retry ("delete before update: " <> e)

  unfoldable pub replacing : String → String → String → (String → Program) → Program
  replacing server id body retry =
      ask delete (id_path id) none
        (λ reply. then_posting (reply_error net delete (id_path id) reply) server body retry)

  abbrev pub comparing :
      Fetched (Option String) → String → String → String → (String → Program) → Program
  comparing (failure e) server id body retry = retry e
  comparing (found none) server id body retry = posting server body retry
  comparing (found (some current)) server id body retry =
      if is_current net current body then ret none else replacing server id body retry

  unfoldable pub asking : String → String → String → (String → Program) → Program
  asking server id body retry =
      ask get (id_path id) none (λ reply. comparing (route_of net id reply) server id body retry)

  abbrev pub unless_cancelled : Option String → Program → Program
  unless_cancelled none p = p
  unless_cancelled (some e) p = ret (some e)

  abbrev pub after_backoff : ℕ → Program → Program
  after_backoff zero p = p
  after_backoff (suc n) p = pause (suc n) (λ gone. unless_cancelled gone p)

  -- The loop of `upsertRoute`.
  unfoldable pub attempting : ℕ → ℕ → String → String → String → Option String → Program
  attempting zero attempt server id body last = ret last
  attempting (suc left) attempt server id body last =
      let retry = λ (e : String). attempting left (suc attempt) server id body (some e) in
      after_backoff attempt (asking server id body retry)

  unfoldable pub upsert_program : String → CaddyRoute → Program
  upsert_program server r = attempting 3 0 server r.id (net.marshal (marshal_route r)) none

  abbrev pub deleting : Fetched (Option String) → String → Program
  deleting (failure e) id = ret (some e)
  deleting (found none) id = ret none
  deleting (found (some b)) id =
      ask delete (id_path id) none (λ reply. ret (reply_error net delete (id_path id) reply))

  unfoldable pub delete_program : String → Program
  delete_program id = ask get (id_path id) none (λ reply. deleting (route_of net id reply) id)
