-- ===== src/Admin/Program/Agrees.antt =====
-- The programs of admin.go run without a break, beside the operations of the client.
use caddy_k8s.Base.{
  ℕ, zero, suc, String, ◌≡◌, refl, ◌∙◌, ap, Option, none, some, Bool-cases, inl, inr,
}
use caddy_k8s.Routes.Model.{CaddyRoute}
use caddy_k8s.Admin.Client.{
  Fetched, found, failure, Net, is_current, perform, get_route, Round, return, continue, posted,
  post_route, replaced, replace_route, round_of, upsert_round, backoff, next, unless_gone, attempts,
  upsert_route, deletion, delete_route,
}
use caddy_k8s.Admin.Program.{
  Program, run, settle, posting, then_posting, replacing, comparing, asking, unless_cancelled,
  after_backoff, attempting, upsert_program, deleting, delete_program,
}

module _ (net : Net) where
  open net use {World}

  -- The rest of the loop after a round.
  abbrev finish : (String → Program) → Round net × World → Option String × World
  finish retry (return e, w) = (e, w)
  finish retry (continue e, w) = run net (retry e) w

  settle-run :
      (o : Option String) (retry : String → Program) (w : World)
      → run net (settle net o retry) w ≡ finish retry (posted net o, w)
  unfolding run
  settle-run none retry w = refl
  settle-run (some e) retry w = refl

  posting-run :
      (server body : String) (retry : String → Program) (w : World)
      → run net (posting net server body retry) w ≡ finish retry (post_route net server body w)
  unfolding posting run post_route perform
  posting-run server body retry w = settle-run _ retry _

  then_posting-run :
      (o : Option String) (server body : String) (retry : String → Program) (w : World)
      → run net (then_posting net o server body retry) w
        ≡ finish retry (replaced net o server body w)
  then_posting-run none server body retry w = posting-run server body retry w
  then_posting-run (some e) server body retry w = refl

  replacing-run :
      (server id body : String) (retry : String → Program) (w : World)
      → run net (replacing net server id body retry) w
        ≡ finish retry (replace_route net server id body w)
  unfolding replacing run replace_route perform
  replacing-run server id body retry w = then_posting-run _ server body retry _

  comparing-run :
      (f : Fetched (Option String)) (server id body : String) (retry : String → Program) (w : World)
      → run net (comparing net f server id body retry) w
        ≡ finish retry (round_of net server id body f w)
  unfolding round_of run
  comparing-run (failure e) server id body retry w = refl
  comparing-run (found none) server id body retry w = posting-run server body retry w
  comparing-run (found (some b)) server id body retry w =
      elim (Bool-cases (is_current net b body)) [
        | inl e ↦ rw e refl
        | inr e ↦ rw e (replacing-run server id body retry w)
      ]

  asking-run :
      (server id body : String) (retry : String → Program) (w : World)
      → run net (asking net server id body retry) w
        ≡ finish retry (upsert_round net server id body w)
  unfolding asking run upsert_round get_route
  asking-run server id body retry w = comparing-run _ server id body retry _

  finish-next :
      (o : Round net × World) (retry : String → Program) (loop : String → Option String × World)
      → ((e : String) → run net (retry e) o.1 ≡ loop e)
      → finish retry o ≡ next net o.0 o.1 loop
  finish-next (return e, w) retry loop h = refl
  finish-next (continue e, w) retry loop h = h e

  unless_cancelled-run :
      (gone : Option String) (p : Program) (w : World) (rest : Option String × World)
      → run net p w ≡ rest
      → run net (unless_cancelled net gone p) w ≡ unless_gone net gone w rest
  unfolding run
  unless_cancelled-run none p w rest h = h
  unless_cancelled-run (some e) p w rest h = refl

  after_backoff-run :
      (attempt : ℕ) (p : Program) (w : World)
      → run net (after_backoff net attempt p) w
        ≡ (let (gone, w1) = backoff net attempt w in unless_gone net gone w1 (run net p w1))
  unfolding run
  after_backoff-run zero p w = refl
  after_backoff-run (suc n) p w =
      let (gone, w1) = net.wait (suc n) w in unless_cancelled-run gone p w1 (run net p w1) refl

  attempting-run :
      (left attempt : ℕ) (server id body : String) (last : Option String) (w : World)
      → run net (attempting net left attempt server id body last) w
        ≡ attempts net left attempt server id body last w
  unfolding attempting attempts run
  attempting-run zero attempt server id body last w = refl
  attempting-run (suc left) attempt server id body last w =
      let (gone, w1) = backoff net attempt w in
      let retry = λ (e : String). attempting net left (suc attempt) server id body (some e) in
      after_backoff-run attempt (asking net server id body retry) w
      ∙ ap (unless_gone net gone w1) (
          asking-run server id body retry w1
          ∙ finish-next (upsert_round net server id body w1) retry _
              (λ e. attempting-run left (suc attempt) server id body (some e) _))

  deleting-run :
      (f : Fetched (Option String)) (id : String) (w : World)
      → run net (deleting net f id) w ≡ deletion net id f w
  unfolding run perform
  deleting-run (failure e) id w = refl
  deleting-run (found none) id w = refl
  deleting-run (found (some b)) id w = refl

  pub upsert_program-run :
      (server : String) (r : CaddyRoute) (w : World)
      → run net (upsert_program net server r) w ≡ upsert_route net server r w
  unfolding upsert_program upsert_route
  upsert_program-run server r w = attempting-run 3 0 server r.id _ none w

  pub delete_program-run :
      (id : String) (w : World) → run net (delete_program net id) w ≡ delete_route net id w
  unfolding delete_program delete_route run get_route
  delete_program-run id w = deleting-run _ id _

  -- The programs, run without a break, give what `upsertRoute` and `deleteRoute` give, whatever the answers.
  pub program-run :
      (server : String) (r : CaddyRoute) (id : String) (w : World)
      → (run net (upsert_program net server r) w ≡ upsert_route net server r w)
        × (run net (delete_program net id) w ≡ delete_route net id w)
  program-run server r id w = (upsert_program-run server r w, delete_program-run id w)
