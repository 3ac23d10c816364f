-- ===== src/Caddyfile/Loops.antt =====
-- Loops over a dispenser: with more fuel than tokens they end, and keep what their bodies keep.
use caddy_k8s.Base.{ℕ, zero, suc, ◌≤◌, ◌<◌, String, Bool, true, false, if◌then◌else◌, arith}
use caddy_k8s.Caddyfile.{Dispenser, Outcome, done, refused, then_do, go_on, loop, if_arg, with_arg}

-- The parser has ended: with settings that have the property and at most so many tokens left, or with an
-- error.
pub data Ends {C : Type 0} {S : Type 0} (left : C → ℕ) (P : S → Type 0) (bound : ℕ)
    : Outcome C S → Type 0 where
  finished : (s : S) (c : C) → P s → left c ≤ bound → Ends left P bound (done s c)
  failed : (e : String) → Ends left P bound (refused e)

-- A step that moves takes a token.
abbrev pub Takes : {C : Type 0} → (C → ℕ) → ℕ → Bool × C → Type 0
Takes left bound (true, c) = left c < bound
Takes left bound (false, c) = left c ≤ bound

module _ {C S : Type 0} (left : C → ℕ) (P : S → Type 0) where
  pub Ends-then :
      {T : Type 0} {Q : T → Type 0} (bound : ℕ) {o : Outcome C S} (k : S → C → Outcome C T)
      → Ends left P bound o
      → ((s : S) (c : C) → P s → left c ≤ bound → Ends left Q bound (k s c))
      → Ends left Q bound (then_do o k)
  Ends-then bound k (finished s c h le) f = f s c h le
  Ends-then bound k (failed e) f = failed e

  Ends-weaken : (m n : ℕ) {o : Outcome C S} → m ≤ n → Ends left P m o → Ends left P n o
  Ends-weaken m n le (finished s c h less) = finished s c h (omega arith)
  Ends-weaken m n le (failed e) = failed e

  Ends-go_on :
      (bound : ℕ) (m : Bool × C) (s : S) (k : C → Outcome C S)
      → P s
      → Takes left bound m
      → ((c : C) → left c < bound → Ends left P bound (k c))
      → Ends left P bound (go_on m s k)
  Ends-go_on bound (true, c) s k h takes f = f c takes
  Ends-go_on bound (false, c) s k h takes f = finished s c h takes

  pub Ends-loop :
      (fuel all : ℕ) (cond : C → Bool × C) (body : S → C → Outcome C S) (s : S) (c : C)
      → ((c : C) → Takes left (left c) (cond c))
      → ((s : S) (c : C) → P s → left c < all → Ends left P (left c) (body s c))
      → fuel ≤ all
      → P s
      → left c < fuel
      → Ends left P (left c) (loop fuel cond body s c)
  unfolding loop
  Ends-loop zero all cond body s c takes ends le h lt = absurd (omega arith)
  Ends-loop (suc fuel) all cond body s c takes ends le h lt =
      Ends-go_on (left c) (cond c) s (λ c'. then_do (body s c') (loop fuel cond body)) h (takes c)
        (λ c' less. Ends-weaken (left c') (left c) (omega arith) (
          Ends-then (left c') (loop fuel cond body) (ends s c' h (omega arith)) (λ s' c'' h' fewer.
            Ends-weaken (left c'') (left c') fewer
              (Ends-loop fuel all cond body s' c'' takes ends (omega arith) h' (omega arith)))))

  -- A result that depends on a test.
  pub Ends-if :
      (bound : ℕ) (b : Bool) {x y : Outcome C S}
      → Ends left P bound x
      → Ends left P bound y
      → Ends left P bound (if b then x else y)
  Ends-if bound true hx hy = hx
  Ends-if bound false hx hy = hy

module _ (d : Dispenser) where
  -- A dispenser with finitely many tokens, whose steps take one when they tell that they moved.
  pub record IsFinite : Type 0 where
    pub left : d.Cursor → ℕ
    pub next_takes : (c : d.Cursor) → Takes left (left c) (d.next c)
    pub block_takes : (n : ℕ) (c : d.Cursor) → Takes left (left c) (d.next_block n c)
    pub arg_takes : (c : d.Cursor) → Takes left (left c) (d.next_arg c)

  Ends-if_arg :
      {S : Type 0} (left : d.Cursor → ℕ) (P : S → Type 0) (bound : ℕ) (m : Bool × d.Cursor)
      (set : String → S)
      → ((x : String) → P (set x))
      → Takes left bound m
      → Ends left P bound (if_arg d m set)
  Ends-if_arg left P bound (true, c) set h takes =
      finished (set (d.val c)) c (h (d.val c)) (omega arith)
  Ends-if_arg left P bound (false, c) set h takes = failed (d.arg_err c)

  module _ (f : IsFinite) where
    pub Ends-with_arg :
        {S : Type 0} (P : S → Type 0) (c : d.Cursor) (set : String → S)
        → ((x : String) → P (set x))
        → Ends f.left P (f.left c) (with_arg d c set)
    unfolding with_arg
    Ends-with_arg P c set h = Ends-if_arg f.left P (f.left c) (d.next_arg c) set h (f.arg_takes c)

    -- Two loops, one in the other, as over the blocks of an option.
    pub Ends-blocks :
        {S : Type 0} (P : S → Type 0) (fuel : ℕ) (body : S → d.Cursor → Outcome d.Cursor S) (s : S)
        (c : d.Cursor)
        → ((s : S) (c : d.Cursor) → P s → f.left c < fuel → Ends f.left P (f.left c) (body s c))
        → P s
        → f.left c < fuel
        → Ends f.left P (f.left c) (loop fuel d.next (loop fuel (d.next_block 0) body) s c)
    Ends-blocks P fuel body s c ends h lt =
        Ends-loop f.left P fuel fuel d.next (loop fuel (d.next_block 0) body) s c f.next_takes
          (λ s' c' h' less.
            Ends-loop f.left P fuel fuel (d.next_block 0) body s' c' (f.block_takes 0) ends
              (omega arith) h' less)
          (omega arith) h lt
