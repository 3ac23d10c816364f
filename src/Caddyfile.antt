-- ===== src/Caddyfile.antt =====
-- The blocks of the Caddyfile: caddyfile.go, and `UnmarshalCaddyfile` of reloader.go. The dispenser of
-- the tokens is Caddy's, so it is a parameter. A loop takes fuel.
pub mod Options
pub mod Loops
pub mod Accepted
use caddy_k8s.Base.{ℕ, zero, suc, ◌≤◌, ◌<◌, ◌≡◌, String, Bool, true, false, if◌then◌else◌}

-- The dispenser with the state of its cursor: each step tells whether it moved to a next token, to a next
-- one of the block of a nesting, or to a next one on the line; the current token; and the errors that name its place.
pub record Dispenser : Type 1 where
  pub Cursor : Type 0
  pub next : Cursor → Bool × Cursor
  pub next_block : ℕ → Cursor → Bool × Cursor
  pub next_arg : Cursor → Bool × Cursor
  pub val : Cursor → String
  pub arg_err : Cursor → String
  pub err : String → Cursor → String

-- How a parser ends: with settings at a cursor, with an error, or out of fuel.
pub data Outcome (C : Type 0) (S : Type 0) : Type 0 where
  done : S → C → Outcome C S
  refused : String → Outcome C S
  exhausted : Outcome C S

abbrev pub then_do : {C S T : Type 0} → Outcome C S → (S → C → Outcome C T) → Outcome C T
then_do (done s c) k = k s c
then_do (refused e) k = refused e
then_do exhausted k = exhausted

abbrev pub go_on : {C S : Type 0} → Bool × C → S → (C → Outcome C S) → Outcome C S
go_on (true, c) s k = k c
go_on (false, c) s k = done s c

-- `for cond { body }`
unfoldable pub loop :
    {C S : Type 0} → ℕ → (C → Bool × C) → (S → C → Outcome C S) → S → C → Outcome C S
loop zero cond body s c = exhausted
loop (suc fuel) cond body s c = go_on (cond c) s (λ c'. then_do (body s c') (loop fuel cond body))

module _ (d : Dispenser) where
  open d use {Cursor}

  abbrev pub if_arg : {S : Type 0} → Bool × Cursor → (String → S) → Outcome Cursor S
  if_arg (true, c) set = done (set (d.val c)) c
  if_arg (false, c) set = refused (d.arg_err c)

  -- An argument is wanted: it is given to the setter.
  unfoldable pub with_arg : {S : Type 0} → Cursor → (String → S) → Outcome Cursor S
  with_arg c set = if_arg (d.next_arg c) set
