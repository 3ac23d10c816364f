-- ===== src/Admin/Upsert.antt =====
-- `upsertRoute` and `deleteRoute` of admin.go on a server that answers every request.
use caddy_k8s.Base.{
  String, ◌≡◌, refl, ap, ◌∙◌, true, false, Option, none, some, arith, ◌==◌, eq_iff, Option-cases,
  Bool-cases, inl, inr, if◌then◌else◌,
}
use text.Mathlib.TextPositions.{eq_refl}
use caddy_k8s.Strings.{is_blank}
use caddy_k8s.Routes.Model.{CaddyRoute, marshal_route}
use caddy_k8s.Routes.Nested.{IsFit}
use caddy_k8s.Admin.Client.{
  get, post, delete, answer, Net, id_path, routes_path, perform, get_route, is_current, return,
  post_route, replace_route, round_of, upsert_round, attempts, upsert_route, delete_route,
}

module _ (net : Net) where
  -- The text that the client sends for a route.
  abbrev pub body_of : CaddyRoute → String
  body_of r = net.marshal (marshal_route r)

  -- An admin API that answers every request about a top-level route, as Caddy documents it: `routes` are
  -- the texts of the routes in the servers' lists by their own ids, and a posted text is kept up to its
  -- normal form. Caddy's index also has the ids of the objects nested in a route, and takes a path below an
  -- object after its id; `home` gives, for what follows "/id/", the id of the top-level route that it
  -- points into, and a world is a state of a server whose objects keep to it. The laws are about ids
  -- that point at a whole route, and about the posting of routes whose nested ids keep to `home`. What
  -- any other request does is left open.
  pub record RouteServer : Type 0 where
    pub home : String → String
    pub routes : net.World → String → Option String
    pub stored : String → String
    pub missing : String
    pub get_hit :
        (w : net.World) (id b : String)
        → home id ≡ id
        → routes w id ≡ some b
        → (net.send get (id_path id) none w).0 ≡ answer 200 b
    pub get_miss :
        (w : net.World) (id : String)
        → home id ≡ id
        → routes w id ≡ none
        → (net.send get (id_path id) none w).0 ≡ answer 404 missing
    pub get_keeps :
        (w : net.World) (id k : String) → routes (net.send get (id_path id) none w).1 k ≡ routes w k
    pub delete_hit :
        (w : net.World) (id b : String)
        → home id ≡ id
        → routes w id ≡ some b
        → (net.send delete (id_path id) none w).0 ≡ answer 200 ""
    pub delete_drops :
        (w : net.World) (id b k : String)
        → home id ≡ id
        → routes w id ≡ some b
        → routes (net.send delete (id_path id) none w).1 k ≡ (if id == k then none else routes w k)
    pub post_new :
        (w : net.World) (server : String) (r : CaddyRoute)
        → is_blank r.id ≡ false
        → IsFit home r
        → routes w r.id ≡ none
        → (net.send post (routes_path server) (some (body_of r)) w).0 ≡ answer 200 ""
    pub post_adds :
        (w : net.World) (server : String) (r : CaddyRoute) (k : String)
        → is_blank r.id ≡ false
        → IsFit home r
        → routes w r.id ≡ none
        → routes (net.send post (routes_path server) (some (body_of r)) w).1 k
          ≡ (if r.id == k then some (stored (body_of r)) else routes w k)
    pub stored_current : (r : CaddyRoute) → is_current net (stored (body_of r)) (body_of r) ≡ true

  pub upsert_route_current :
      (server : String) (r : CaddyRoute) (w : net.World) (b : String)
      → (net.send get (id_path r.id) none w).0 ≡ answer 200 b
      → is_current net b (body_of r) ≡ true
      → upsert_route net server r w ≡ (none, (net.send get (id_path r.id) none w).1)
  unfolding upsert_route attempts upsert_round get_route round_of
  upsert_route_current server r w b answered current = rw (answered, current) refl

  module _ (s : RouteServer) where
    open s use {
      home, routes, stored, missing, get_hit, get_miss, get_keeps, delete_hit, delete_drops,
      post_new, post_adds, stored_current,
    }

    -- The world after the route is up to date: the route's text is current, and every other route is
    -- as it was.
    pub record IsUpserted (r : CaddyRoute) (w w' : net.World) : Type 0 where
      pub text : String
      pub holds : routes w' r.id ≡ some text
      pub current : is_current net text (body_of r) ≡ true
      pub others :
          (k : String)
          → (if r.id == k then none else routes w' k) ≡ (if r.id == k then none else routes w k)

    post_route-IsUpserted :
        (server : String) (r : CaddyRoute) (w0 w : net.World)
        → is_blank r.id ≡ false
        → IsFit home r
        → routes w r.id ≡ none
        → ((k : String)
            → (if r.id == k then none else routes w k) ≡ (if r.id == k then none else routes w0 k))
        → ((post_route net server (body_of r) w).0 ≡ return none)
          × IsUpserted r w0 (post_route net server (body_of r) w).1
    unfolding post_route perform
    post_route-IsUpserted server r w0 w named fit absent same = (
      rw (post_new w server r named fit absent) refl,
      record {
        text = stored (body_of r);
        holds = rw (post_adds w server r r.id named fit absent, eq_refl) refl;
        current = stored_current r;
        others = λ k.
            rw (post_adds w server r k named fit absent) (elim (Bool-cases (r.id == k)) [
              | inl e ↦ rw e refl
              | inr e ↦ rw e (rw e at (same k))
            ]);
      },
    )

    replace_route-IsUpserted :
        (server : String) (r : CaddyRoute) (b : String) (w0 w : net.World)
        → is_blank r.id ≡ false
        → IsFit home r
        → routes w r.id ≡ some b
        → ((k : String) → routes w k ≡ routes w0 k)
        → ((replace_route net server r.id (body_of r) w).0 ≡ return none)
          × IsUpserted r w0 (replace_route net server r.id (body_of r) w).1
    unfolding replace_route perform
    replace_route-IsUpserted server r b w0 w named fit held same =
        rw (delete_hit w r.id b fit.own held) (
          post_route-IsUpserted server r w0 (net.send delete (id_path r.id) none w).1 named fit
            (rw (delete_drops w r.id b r.id fit.own held, eq_refl) refl)
            λ k.
              rw (delete_drops w r.id b k fit.own held, same k)
                (elim (Bool-cases (r.id == k)) [ inl e ↦ rw e refl | inr e ↦ rw e refl ]))

    upsert_round-IsUpserted :
        (server : String) (r : CaddyRoute) (w : net.World)
        → is_blank r.id ≡ false
        → IsFit home r
        → ((upsert_round net server r.id (body_of r) w).0 ≡ return none)
          × IsUpserted r w (upsert_round net server r.id (body_of r) w).1
    unfolding upsert_round get_route round_of
    upsert_round-IsUpserted server r w named fit =
        let w1 = (net.send get (id_path r.id) none w).1 in
        let same = get_keeps w r.id in
        elim (Option-cases (routes w r.id)) [
          | inl absent ↦ rw (get_miss w r.id fit.own absent) (
              post_route-IsUpserted server r w w1 named fit (same r.id ∙ absent)
                λ k. ap (λ o. if r.id == k then none else o) (same k))
          | inr (b, held) ↦
              rw (get_hit w r.id b fit.own held) (elim (Bool-cases (is_current net b (body_of r))) [
                | inl current ↦ rw current (
                  refl,
                  record {
                    text = b;
                    holds = same r.id ∙ held;
                    current = current;
                    others = λ k. ap (λ o. if r.id == k then none else o) (same k);
                  },
                )
                | inr stale ↦
                    rw stale
                      (replace_route-IsUpserted server r b w w1 named fit (same r.id ∙ held) same)
              ])
        ]

    -- On a server that answers, a route with an id, which with the ids nested in it keeps to the routes
    -- that they belong to, is inserted or updated without an error: the server then holds a text that is
    -- current for the route, and every other top-level route as before.
    pub upsert_route-IsUpserted :
        (server : String) (r : CaddyRoute) (w : net.World)
        → is_blank r.id ≡ false
        → IsFit home r
        → ((upsert_route net server r w).0 ≡ none) × IsUpserted r w (upsert_route net server r w).1
    unfolding upsert_route attempts
    upsert_route-IsUpserted server r w named fit =
        let (returned, upserted) = upsert_round-IsUpserted server r w named fit in
        rw returned (refl, upserted)

    -- On a server that answers, deletion by an id that is not nested in a route leaves no route with the id,
    -- whether there was one or not, and every other top-level route as it was.
    pub delete_route_lem :
        (id : String) (w : net.World)
        → home id ≡ id
        → ((delete_route net id w).0 ≡ none)
          × ((k : String)
              → routes (delete_route net id w).1 k ≡ (if id == k then none else routes w k))
    unfolding delete_route get_route perform
    delete_route_lem id w own =
        let w1 = (net.send get (id_path id) none w).1 in
        let same = get_keeps w id in
        elim (Option-cases (routes w id)) [
          | inl absent ↦
              rw (get_miss w id own absent)
                (refl, λ k. same k ∙ ground (arith, eq_iff id k, absent))
          | inr (b, held) ↦
              rw (get_hit w id b own held, delete_hit w1 id b own (same id ∙ held))
                (
                  refl,
                  λ k.
                      delete_drops w1 id b k own (same id ∙ held)
                      ∙ ap (λ o. if id == k then none else o) (same k),
                )
        ]
