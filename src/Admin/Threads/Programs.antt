-- ===== src/Admin/Threads/Programs.antt =====
-- The programs of admin.go on a server that may fail: what each of their parts relies on.
use caddy_k8s.Base.{
  ℕ, zero, suc, String, ◌≡◌, refl, ◌∙◌, ap, true, false, Option, none, some, nat_eq, nat_eq_iff,
  ◌≢◌, arith, Bool-cases, inl, inr,
}
use caddy_k8s.Strings.{is_blank}
use caddy_k8s.Routes.Model.{CaddyRoute, marshal_route}
use caddy_k8s.Admin.Client.{
  Method, post, delete, Reply, no_answer, answer, Fetched, found, failure, Net, id_path,
  routes_path, reply_error, route_of, is_success, is_current,
}
use caddy_k8s.Admin.Program.{
  Program, settle, posting, then_posting, replacing, comparing, asking, unless_cancelled,
  after_backoff, attempting, upsert_program, deleting, delete_program,
}
use caddy_k8s.Admin.Threads.{
  Job, put, drop, succeeds, IsDone, IsAnswer, Safe, returning, reading, dropping, adding, waiting,
}

-- A route that is to be put has an id.
abbrev pub IsNamed : Job → Type 0
IsNamed (put server r) = is_blank r.id ≡ false
IsNamed (drop id) = Unit

found-injective : {A : Type 0} (a b : A) → found a ≡ found b → a ≡ b
found-injective a b e = cc

failure-found : {A P : Type 0} (e : String) (b : A) → failure e ≡ found b → P
failure-found e b h = cc

module _ (net : Net) where
  reply_error-succeeds :
      (m : Method) (path : String) (reply : Reply)
      → reply_error net m path reply ≡ none
      → succeeds reply ≡ true
  reply_error-succeeds m path (no_answer e) h = cc
  reply_error-succeeds m path (answer code body) h = elim (Bool-cases (is_success code)) [
    | inl e ↦ e
    | inr e ↦ ground (arith, e, h)
  ]

  route_of-IsAnswer :
      (id : String) (reply : Reply) (v : Option String)
      → IsAnswer net v reply
      → (b : Option String) → route_of net id reply ≡ found b
      → v ≡ b
  route_of-IsAnswer id (no_answer e) v h b e' = cc
  route_of-IsAnswer id (answer code body) v h b e = elim (Bool-cases (nat_eq code 404)) [
    | inl missing ↦
        let is_404 = (nat_eq_iff code 404).0 missing in
        h.missing body (ap (λ n. answer n body) is_404) ∙ found-injective none b (rw missing at e)
    | inr other ↦ elim (Bool-cases (nat_eq code 200)) [
      | inl ok ↦
          let is_200 = (nat_eq_iff code 200).0 ok in
          h.found_text body (ap (λ n. answer n body) is_200)
          ∙ found-injective (some body) b (rw (other, ok) at e)
      | inr neither ↦ failure-found _ b (rw (other, neither) at e)
    ]
  ]

  module _ (stored : String → String) where
    unless_cancelled-Safe :
        (job : Job) (gone : Option String) (p : Program) (v : Option String)
        → Safe net job stored v p
        → Safe net job stored v (unless_cancelled net gone p)
    unless_cancelled-Safe job none p v h = h
    unless_cancelled-Safe job (some e) p v h = returning v (some e) (λ ok. cc)

    settle-Safe :
        (job : Job) (v : Option String) (o : Option String) (retry : String → Program)
        → (o ≡ none → IsDone net job v)
        → ((e : String) → Safe net job stored v (retry e))
        → Safe net job stored v (settle net o retry)
    settle-Safe job v none retry h safe = returning v none h
    settle-Safe job v (some e) retry h safe = safe e

    module _ (server : String) (r : CaddyRoute) where
      abbrev body : String
      body = net.marshal (marshal_route r)

      -- What is tried again is safe whatever the text is.
      abbrev Retries : (String → Program) → Type 0
      Retries retry = (e : String) (v : Option String) → Safe net (put server r) stored v (retry e)

      module _ (current : is_current net (stored body) body ≡ true)
          (named : is_blank r.id ≡ false) where
        posting-Safe :
            (retry : String → Program) (v : Option String)
            → v ≡ none
            → Retries retry
            → Safe net (put server r) stored v (posting net server body retry)
        unfolding posting
        posting-Safe retry v absent again = adding v server r _ refl named absent (λ reply v' added.
            settle-Safe (put server r) v' _ retry
              (λ ok. (
                stored body,
                added (reply_error-succeeds post (routes_path server) reply ok),
                current,
              ))
              (λ e. again e v'))

        then_posting-Safe :
            (o : Option String) (retry : String → Program) (v : Option String)
            → (o ≡ none → v ≡ none)
            → Retries retry
            → Safe net (put server r) stored v (then_posting net o server body retry)
        then_posting-Safe none retry v absent again = posting-Safe retry v (absent refl) again
        then_posting-Safe (some e) retry v absent again = again _ v

        replacing-Safe :
            (retry : String → Program) (v : Option String)
            → Retries retry
            → Safe net (put server r) stored v (replacing net server r.id body retry)
        unfolding replacing
        replacing-Safe retry v again = dropping v _ (λ reply v' dropped.
            then_posting-Safe _ retry v'
              (λ ok. dropped (reply_error-succeeds delete (id_path r.id) reply ok)) again)

        comparing-Safe :
            (f : Fetched (Option String)) (retry : String → Program) (v : Option String)
            → ((b : Option String) → f ≡ found b → v ≡ b)
            → Retries retry
            → Safe net (put server r) stored v (comparing net f server r.id body retry)
        comparing-Safe (failure e) retry v h again = again e v
        comparing-Safe (found none) retry v h again = posting-Safe retry v (h none refl) again
        comparing-Safe (found (some b)) retry v h again =
            elim (Bool-cases (is_current net b body)) [
              | inl e ↦ rw e (returning v none (λ ok. (b, h (some b) refl, e)))
              | inr e ↦ rw e (replacing-Safe retry v again)
            ]

        asking-Safe :
            (retry : String → Program) (v : Option String)
            → Retries retry
            → Safe net (put server r) stored v (asking net server r.id body retry)
        unfolding asking
        asking-Safe retry v again = reading v _ (λ reply true_of.
            comparing-Safe (route_of net r.id reply) retry v
              (route_of-IsAnswer r.id reply v true_of) again)

        after_backoff-Safe :
            (attempt : ℕ) (p : Program) (v : Option String)
            → Safe net (put server r) stored v p
            → Safe net (put server r) stored v (after_backoff net attempt p)
        after_backoff-Safe zero p v h = h
        after_backoff-Safe (suc n) p v h =
            waiting v (suc n) _ (λ gone. unless_cancelled-Safe (put server r) gone p v h)

        pub attempting-Safe :
            (left attempt : ℕ) (last : Option String) (v : Option String)
            → (left ≡ 0 → last ≢ none)
            → Safe net (put server r) stored v (attempting net left attempt server r.id body last)
        unfolding attempting
        attempting-Safe zero attempt last v failed =
            returning v last (λ ok. absurd (failed refl ok))
        attempting-Safe (suc left) attempt last v failed =
            after_backoff-Safe attempt _ v (
              asking-Safe _ v (λ e v'. attempting-Safe left (suc attempt) (some e) v' (λ z ok. cc)))

    deleting-Safe :
        (id : String) (f : Fetched (Option String)) (v : Option String)
        → ((b : Option String) → f ≡ found b → v ≡ b)
        → Safe net (drop id) stored v (deleting net f id)
    deleting-Safe id (failure e) v h = returning v (some e) (λ ok. cc)
    deleting-Safe id (found none) v h = returning v none (λ ok. h none refl)
    deleting-Safe id (found (some b)) v h = dropping v _ (λ reply v' dropped.
        returning v' _ (λ ok. dropped (reply_error-succeeds delete (id_path id) reply ok)))

    pub delete_program-Safe :
        (id : String) (v : Option String) → Safe net (drop id) stored v (delete_program net id)
    unfolding delete_program
    delete_program-Safe id v = reading v _ (λ reply true_of.
        deleting-Safe id (route_of net id reply) v (route_of-IsAnswer id reply v true_of))

  -- The program of a job.
  abbrev pub program_of : Job → Program
  program_of (put server r) = upsert_program net server r
  program_of (drop id) = delete_program net id
