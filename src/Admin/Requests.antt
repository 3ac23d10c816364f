-- ===== src/Admin/Requests.antt =====
-- How many requests an operation makes, whatever Caddy answers.
use caddy_k8s.Base.{
  ℕ, zero, suc, ◌+◌, ◌*◌, ◌≤◌, String, ◌≡◌, refl, Option, none, some, arith, Bool-cases, inl, inr,
}
use native.Mathlib.Nat.{le_trans}
use caddy_k8s.Routes.Model.{CaddyRoute, marshal_route}
use caddy_k8s.Admin.Client.{
  Method, delete, id_path, backoff, next, unless_gone, Fetched, found, failure, Net, perform,
  get_route, is_current, Round, return, continue, post_route, replaced, replace_route, round_of,
  upsert_round, attempts, upsert_route,
}

module _ (net : Net) where
  -- A count of the requests made: an exchange adds one, and a wait adds none.
  pub record Counter : Type 0 where
    pub spent : net.World → ℕ
    pub spent-send :
        (m : Method) (path : String) (body : Option String) (w : net.World)
        → spent (net.send m path body w).1 ≡ spent w + 1
    pub spent-wait : (n : ℕ) (w : net.World) → spent (net.wait n w).1 ≡ spent w

  module _ (c : Counter) where
    open c use {spent, spent-send, spent-wait}

    spent-perform :
        (m : Method) (path : String) (body : Option String) (w : net.World)
        → spent (perform net m path body w).1 ≡ spent w + 1
    unfolding perform
    spent-perform m path body w = spent-send m path body w

    spent-get_route : (id : String) (w : net.World) → spent (get_route net id w).1 ≡ spent w + 1
    unfolding get_route
    spent-get_route id w = spent-send _ _ _ w

    spent-post_route :
        (server body : String) (w : net.World)
        → spent (post_route net server body w).1 ≡ spent w + 1
    unfolding post_route
    spent-post_route server body w = spent-perform _ _ _ w

    spent-replaced :
        (e : Option String) (server body : String) (w : net.World)
        → spent (replaced net e server body w).1 ≤ spent w + 1
    spent-replaced none server body w = omega (arith, spent-post_route server body w)
    spent-replaced (some e) server body w = omega arith

    spent-replace_route :
        (server id body : String) (w : net.World)
        → spent (replace_route net server id body w).1 ≤ spent w + 2
    unfolding replace_route
    spent-replace_route server id body w =
        let (e, w') = perform net delete (id_path id) none w in
        omega (arith, spent-replaced e server body w', spent-perform delete (id_path id) none w)

    spent-round_of :
        (server id body : String) (current : Fetched (Option String)) (w : net.World)
        → spent (round_of net server id body current w).1 ≤ spent w + 2
    unfolding round_of
    spent-round_of server id body (failure e) w = omega arith
    spent-round_of server id body (found none) w = omega (arith, spent-post_route server body w)
    spent-round_of server id body (found (some b)) w = elim (Bool-cases (is_current net b body)) [
      | inl e ↦ rw e (omega arith)
      | inr e ↦ rw e (spent-replace_route server id body w)
    ]

    spent-upsert_round :
        (server id body : String) (w : net.World)
        → spent (upsert_round net server id body w).1 ≤ spent w + 3
    unfolding upsert_round
    spent-upsert_round server id body w =
        let (current, w') = get_route net id w in
        omega (arith, spent-round_of server id body current w', spent-get_route id w)

    spent-backoff : (n : ℕ) (w : net.World) → spent (backoff net n w).1 ≡ spent w
    spent-backoff zero w = refl
    spent-backoff (suc n) w = spent-wait (suc n) w

    spent-next :
        (round : Round net) (w : net.World) (loop : String → Option String × net.World) (bound : ℕ)
        → spent w ≤ bound
        → ((e : String) → spent (loop e).1 ≤ bound)
        → spent (next net round w loop).1 ≤ bound
    spent-next (return e) w loop bound h k = h
    spent-next (continue e) w loop bound h k = k e

    spent-unless_gone :
        (gone : Option String) (w : net.World) (rest : Option String × net.World) (bound : ℕ)
        → spent w ≤ bound
        → spent rest.1 ≤ bound
        → spent (unless_gone net gone w rest).1 ≤ bound
    spent-unless_gone (some e) w rest bound h k = h
    spent-unless_gone none w rest bound h k = k

    spent-attempts :
        (left attempt : ℕ) (server id body : String) (last : Option String) (w : net.World)
        → spent (attempts net left attempt server id body last w).1 ≤ spent w + 3 * left
    unfolding attempts
    spent-attempts zero attempt server id body last w = omega arith
    spent-attempts (suc left) attempt server id body last w =
        let (gone, w1) = backoff net attempt w in
        let (round, w2) = upsert_round net server id body w1 in
        let waited = spent-backoff attempt w in
        let tried = spent-upsert_round server id body w1 in
        spent-unless_gone gone w1 _ (spent w + 3 * suc left) (omega arith) (
          spent-next round w2 _ (spent w + 3 * suc left) (omega arith) λ e.
            le_trans (spent-attempts left (suc attempt) server id body (some e) w2) (omega arith))

    -- Inserting or updating a route takes at most nine requests, whatever the answers are.
    pub spent-upsert_route :
        (server : String) (r : CaddyRoute) (w : net.World)
        → spent (upsert_route net server r w).1 ≤ spent w + 9
    unfolding upsert_route
    spent-upsert_route server r w =
        spent-attempts 3 0 server r.id (net.marshal (marshal_route r)) none w
