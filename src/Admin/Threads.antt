-- ===== src/Admin/Threads.antt =====
-- The programs on a server that may fail: what a program knows of the route that it is about, between its
-- requests, while others make theirs.
pub mod Programs
pub mod Steps
pub mod Pool
pub mod Bounds
use caddy_k8s.Base.{ℕ, String, ◌≡◌, Bool, true, false, Option, none, some, ◌==◌}
use caddy_k8s.Strings.{is_blank}
use caddy_k8s.Routes.Model.{CaddyRoute, marshal_route}
use caddy_k8s.Routes.Nested.{IsFit}
use caddy_k8s.Admin.Client.{
  get, post, delete, Reply, no_answer, answer, Net, id_path, routes_path, is_success, is_current,
}
use caddy_k8s.Admin.Program.{Program, ret, ask, pause}

-- What a thread is to do: bring a route to a server, or delete the route with an id.
pub data Job : Type 0 where
  put : String → CaddyRoute → Job
  drop : String → Job

abbrev pub id_of : Job → String
id_of (put server r) = r.id
id_of (drop id) = id

-- The job's route, with the ids nested in it, keeps to the routes that they belong to; the id to delete is
-- not nested in a route.
abbrev pub IsFitJob : (String → String) → Job → Type 0
IsFitJob home (put server r) = IsFit home r
IsFitJob home (drop id) = home id ≡ id

abbrev pub succeeds : Reply → Bool
succeeds (no_answer e) = false
succeeds (answer code body) = is_success code

module _ (net : Net) where
  -- The admin API, as Caddy documents it, on a network that may fail: an answer is true of the top-level
  -- routes, a success has its effect, and a failure has it or not. `home` is as for a server that does not
  -- fail: the top-level route that an id points into. A request about an id changes at most that route.
  pub record FallibleServer : Type 0 where
    pub home : String → String
    pub routes : net.World → String → Option String
    pub stored : String → String
    pub get_found :
        (w : net.World) (id b : String)
        → home id ≡ id
        → (net.send get (id_path id) none w).0 ≡ answer 200 b
        → routes w id ≡ some b
    pub get_missing :
        (w : net.World) (id b : String)
        → home id ≡ id
        → (net.send get (id_path id) none w).0 ≡ answer 404 b
        → routes w id ≡ none
    pub get_keeps :
        (w : net.World) (id k : String) → routes (net.send get (id_path id) none w).1 k ≡ routes w k
    pub delete_drops :
        (w : net.World) (id : String)
        → home id ≡ id
        → succeeds (net.send delete (id_path id) none w).0 ≡ true
        → routes (net.send delete (id_path id) none w).1 id ≡ none
    pub delete_keeps :
        (w : net.World) (id k : String)
        → (home id == k) ≡ false
        → routes (net.send delete (id_path id) none w).1 k ≡ routes w k
    pub post_adds :
        (w : net.World) (server : String) (r : CaddyRoute)
        → is_blank r.id ≡ false
        → IsFit home r
        → routes w r.id ≡ none
        → succeeds (net.send post (routes_path server) (some (net.marshal (marshal_route r))) w).0
          ≡ true
        → routes
            (net.send post (routes_path server) (some (net.marshal (marshal_route r))) w).1
            r.id
          ≡ some (stored (net.marshal (marshal_route r)))
    pub post_keeps :
        (w : net.World) (server : String) (r : CaddyRoute) (k : String)
        → is_blank r.id ≡ false
        → IsFit home r
        → (r.id == k) ≡ false
        → routes (net.send post (routes_path server) (some (net.marshal (marshal_route r))) w).1 k
          ≡ routes w k
    pub wait_keeps : (w : net.World) (n : ℕ) (k : String) → routes (net.wait n w).1 k ≡ routes w k
    pub stored_current :
        (r : CaddyRoute)
        → is_current net (stored (net.marshal (marshal_route r))) (net.marshal (marshal_route r))
          ≡ true

  -- What a job is to make of the text under its id: a current one, or none.
  abbrev pub IsDone : Job → Option String → Type 0
  IsDone (put server r) v =
      (b : String) × (v ≡ some b) × (is_current net b (net.marshal (marshal_route r)) ≡ true)
  IsDone (drop id) v = v ≡ none

  -- A reply to a read of a text.
  pub record IsAnswer (v : Option String) (reply : Reply) : Type 0 where
    pub found_text : (b : String) → reply ≡ answer 200 b → v ≡ some b
    pub missing : (b : String) → reply ≡ answer 404 b → v ≡ none

  -- From the text under its id, a program makes requests about that id alone, posts only where there is
  -- no route, and returns no error only where the job is done.
  pub data Safe (job : Job) (stored : String → String) : Option String → Program → Type 0 where
    returning : (v o : Option String) → (o ≡ none → IsDone job v) → Safe job stored v (ret o)
    reading :
        (v : Option String) (k : Reply → Program)
        → ((reply : Reply) → IsAnswer v reply → Safe job stored v (k reply))
        → Safe job stored v (ask get (id_path (id_of job)) none k)
    dropping :
        (v : Option String) (k : Reply → Program)
        → ((reply : Reply) (v' : Option String)
            → (succeeds reply ≡ true → v' ≡ none)
            → Safe job stored v' (k reply))
        → Safe job stored v (ask delete (id_path (id_of job)) none k)
    adding :
        (v : Option String) (server : String) (r : CaddyRoute) (k : Reply → Program)
        → job ≡ put server r
        → is_blank r.id ≡ false
        → v ≡ none
        → ((reply : Reply) (v' : Option String)
            → (succeeds reply ≡ true → v' ≡ some (stored (net.marshal (marshal_route r))))
            → Safe job stored v' (k reply))
        → Safe job stored v (ask post (routes_path server) (some (net.marshal (marshal_route r))) k)
    waiting :
        (v : Option String) (n : ℕ) (k : Option String → Program)
        → ((gone : Option String) → Safe job stored v (k gone))
        → Safe job stored v (pause n k)
