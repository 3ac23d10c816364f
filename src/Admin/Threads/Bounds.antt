-- ===== src/Admin/Threads/Bounds.antt =====
-- How many requests and waits a program makes, and how many turns goroutines take together.
use caddy_k8s.Base.{
  ℕ, zero, suc, ◌+◌, ◌*◌, ◌≤◌, ◌<◌, String, ◌≡◌, ◌⊎◌, inl, inr, Option, none, some, true, false,
  List, [], ◌∷◌, arith, length, All, Bool-cases,
}
use caddy_k8s.Admin.Client.{Method, Reply, Fetched, found, failure, Net, is_current}
use caddy_k8s.Admin.Program.{
  Program, ret, ask, pause, step, settle, posting, then_posting, replacing, comparing, asking,
  unless_cancelled, attempting, upsert_program, deleting, delete_program,
}
use caddy_k8s.Admin.Threads.{Job, put, drop}
use caddy_k8s.Admin.Threads.Programs.{program_of}
use caddy_k8s.Admin.Threads.Pool.{
  Thread, start, is_finished, Turn, first, later, Runs, rest_here, turn, outside,
}

-- The program returns after at most so many requests and waits, whatever the answers.
pub data Within : ℕ → Program → Type 0 where
  halts : (n : ℕ) (o : Option String) → Within n (ret o)
  asks :
      (n m : ℕ) (way : Method) (path : String) (body : Option String) (k : Reply → Program)
      → m < n
      → ((reply : Reply) → Within m (k reply))
      → Within n (ask way path body k)
  waits :
      (n m pauses : ℕ) (k : Option String → Program)
      → m < n
      → ((gone : Option String) → Within m (k gone))
      → Within n (pause pauses k)

-- The turns of each goroutine, added up.
data Total : ℕ → List Thread → Type 0 where
  nothing : (n : ℕ) → Total n []
  both :
      (n a b : ℕ) (t : Thread) (ts : List Thread)
      → a + b ≤ n
      → Within a t.rest
      → Total b ts
      → Total n (t ∷ ts)

module _ (net : Net) where
  settle-Within :
      (n : ℕ) (o : Option String) (retry : String → Program)
      → ((e : String) → Within n (retry e))
      → Within n (settle net o retry)
  settle-Within n none retry h = halts n none
  settle-Within n (some e) retry h = h e

  module _ (n : ℕ) (server id body : String) (retry : String → Program)
      (h : (m : ℕ) (e : String) → n ≤ m → Within m (retry e)) where
    posting-Within : (m : ℕ) → n < m → Within m (posting net server body retry)
    unfolding posting
    posting-Within m b =
        asks m n _ _ _ _ b (λ reply. settle-Within n _ retry (λ e. h n e (omega arith)))

    then_posting-Within :
        (m : ℕ) (o : Option String) → n < m → Within m (then_posting net o server body retry)
    then_posting-Within m none b = posting-Within m b
    then_posting-Within m (some e) b = h m _ (omega (arith, b))

    comparing-Within :
        (m : ℕ) (f : Fetched (Option String))
        → n + 1 < m
        → Within m (comparing net f server id body retry)
    unfolding replacing
    comparing-Within m (failure e) b = h m e (omega (arith, b))
    comparing-Within m (found none) b = posting-Within m (omega (arith, b))
    comparing-Within m (found (some text)) b = elim (Bool-cases (is_current net text body)) [
      | inl e ↦ rw e (halts m none)
      | inr e ↦
          rw e (asks m (n + 1) _ _ _ _ b (λ reply. then_posting-Within (n + 1) _ (omega arith)))
    ]

    asking-Within : (m : ℕ) → n + 2 < m → Within m (asking net server id body retry)
    unfolding asking
    asking-Within m b = asks m (n + 2) _ _ _ _ b (λ reply. comparing-Within (n + 2) _ (omega arith))

  unless_cancelled-Within :
      (n : ℕ) (gone : Option String) (p : Program)
      → Within n p
      → Within n (unless_cancelled net gone p)
  unless_cancelled-Within n none p h = h
  unless_cancelled-Within n (some e) p h = halts n (some e)

  -- After the first attempt, an attempt is a wait and at most three requests.
  attempting-Within :
      (left attempt : ℕ) (server id body : String) (last : Option String) (m : ℕ)
      → 4 * left ≤ m
      → Within m (attempting net left (suc attempt) server id body last)
  unfolding attempting
  attempting-Within zero attempt server id body last m b = halts m last
  attempting-Within (suc left) attempt server id body last m b =
      waits m (3 + 4 * left) (suc attempt) _ (omega (arith, b)) (λ gone.
        unless_cancelled-Within (3 + 4 * left) gone _ (
          asking-Within (4 * left) server id body _
            (λ n e le. attempting-Within left (suc attempt) server id body (some e) n le)
            (3 + 4 * left) (omega arith)))

  deleting-Within :
      (n : ℕ) (f : Fetched (Option String)) (id : String) → 0 < n → Within n (deleting net f id)
  deleting-Within n (failure e) id b = halts n (some e)
  deleting-Within n (found none) id b = halts n none
  deleting-Within n (found (some text)) id b = asks n 0 _ _ _ _ b (λ reply. halts 0 _)

  program_of-Within : (job : Job) → Within 11 (program_of net job)
  unfolding upsert_program delete_program attempting
  program_of-Within (put server r) =
      asking-Within 8 server r.id _ _ (λ m e le. attempting-Within 2 0 server r.id _ (some e) m le)
        11 (omega arith)
  program_of-Within (drop id) =
      asks 11 1 _ _ _ _ (omega arith) (λ reply. deleting-Within 1 _ id (omega arith))

  start-Total : (jobs : List Job) → Total (11 * length jobs) (start net jobs)
  start-Total [] = nothing _
  start-Total (job ∷ jobs) =
      both _ 11 (11 * length jobs) _ _ (omega arith) (program_of-Within job) (start-Total jobs)

  Within-step :
      {n : ℕ} {p : Program} (w : net.World)
      → Within n p
      → is_finished p ≡ false
      → (m : ℕ) × (m < n) × Within m (step net p w).0
  unfolding step
  Within-step w (halts n o) e = ground (arith, e)
  Within-step w (asks n m way path body k b h) e = (m, b, h (net.send way path body w).0)
  Within-step w (waits n m pauses k b h) e = (m, b, h (net.wait pauses w).0)

  Total-Turn :
      {ts ts' : List Thread} {w w' : net.World} {n : ℕ}
      → Turn net ts w ts' w'
      → Total n ts
      → (m : ℕ) × (m < n) × Total m ts'
  Total-Turn (first t ts w e) (both n a b t' ts'' le h hs) =
      let (m, less, h') = Within-step w h e in
      (m + b, omega (arith, less, le), both (m + b) m b _ ts (omega arith) h' hs)
  Total-Turn (later t go) (both n a b t' ts'' le h hs) =
      let (m, less, hs') = Total-Turn go hs in
      (a + m, omega (arith, less, le), both (a + m) a m t _ (omega arith) h hs')

  -- All have returned, or one of them can take a turn.
  can_go :
      (ts : List Thread) (w : net.World)
      → All (λ t. is_finished t.rest ≡ true) ts
        ⊎ ((ts' : List Thread) × (w' : net.World) × Turn net ts w ts' w')
  can_go [] w = inl tt
  can_go (t ∷ ts) w = elim (Bool-cases (is_finished t.rest)) [
    | inr e ↦ inr (_, _, first t ts w e)
    | inl e ↦ elim (can_go ts w) [
      | inl es ↦ inl (e, es)
      | inr (ts', w', go) ↦ inr (t ∷ ts', w', later t go)
    ]
  ]

  module _ (view : net.World → String → Option String) where
    Runs-Total :
        {n m : ℕ} {ts us : List Thread} {w v : net.World}
        → Runs net view n ts w us v
        → Total m ts
        → n ≤ m
    Runs-Total (rest_here ts w) h = omega arith
    Runs-Total (turn go more) h =
        let (l, less, h') = Total-Turn go h in omega (arith, less, Runs-Total more h')
    Runs-Total (outside w' same more) h = Runs-Total more h

    -- Goroutines that upsert or delete routes take together at most eleven turns for each, whatever the order
    -- and the answers, and for any view of the world that others leave alone; and while one has not
    -- returned, there is a next turn.
    pub Runs-bound :
        {n : ℕ} {w v : net.World} {us : List Thread} (jobs : List Job)
        → Runs net view n (start net jobs) w us v
        → (n ≤ 11 * length jobs)
          × (All (λ t. is_finished t.rest ≡ true) us
              ⊎ ((ts : List Thread) × (w' : net.World) × Turn net us v ts w'))
    Runs-bound jobs runs = (Runs-Total runs (start-Total jobs), can_go _ _)
