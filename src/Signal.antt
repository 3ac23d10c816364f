-- ===== src/Signal.antt =====
-- The channels and contexts by which the modules stop what they started.
use caddy_k8s.Base.{Bool, true, false, Option, none, some}

-- A channel or a context that may be closed, if it was made.
pub data Signal : Type 0 where
  absent live closed : Signal

abbrev pub is_live : Signal → Bool
is_live absent = false
is_live live = true
is_live closed = false

abbrev pub is_absent : Signal → Bool
is_absent absent = true
is_absent live = false
is_absent closed = false

abbrev pub is_closed : Signal → Bool
is_closed absent = false
is_closed live = false
is_closed closed = true

-- `close`; none is a panic: Go panics on a channel that is nil or closed.
abbrev pub close : Signal → Option Signal
close absent = none
close live = some closed
close closed = none

abbrev pub cancel : Signal → Signal
cancel absent = absent
cancel live = closed
cancel closed = closed
