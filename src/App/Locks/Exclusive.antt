-- ===== src/App/Locks/Exclusive.antt =====
-- Which handlers are inside at the same time, by their keys (app.go: `ingressMu`, `handleAdd`,
-- `handleDelete`).
use caddy_k8s.Base.{
  All-imp, All-middle, All-replaced, ℕ, ◌+◌, ◌≤◌, String, ◌≡◌, refl, sym, ap, ◌∙◌, true, false,
  ◌&&◌, none, some, List, [], ◌∷◌, ◌++◌, ◌==◌, eq_iff, nat_eq, nat_eq_iff, arith, All, Bool-cases,
  Option-cases, inl, inr,
}
use mathlib.Core.Option.{some-injective, none-ne-some}
use mathlib.Core.Path.{subst}
use caddy_k8s.Dict.{lookup}
use caddy_k8s.App.Locks.{
  KeyMutexes, ingress_mu, Handler, Locks, one_if, holders, handling, Locking, arrives, enters,
  leaves, Locked, at_first, after,
}
use caddy_k8s.App.Locks.Given.{IsMade, load_or_store-IsGiven}

-- The handler has the mutex of its key.
abbrev Registered : KeyMutexes → Handler → Type 0
Registered m h = lookup h.key m.made ≡ some h.mutex

record IsExclusive (s : Locks) : Type 0 where
  made : IsMade s.mutexes
  registered : All (Registered s.mutexes) s.handlers
  alone : (n : ℕ) → holders n s.handlers ≤ 1

holders-append : (n : ℕ) (xs ys : List Handler) → holders n (xs ++ ys) ≡ holders n xs + holders n ys
holders-append n [] ys = omega arith
holders-append n (x ∷ xs) ys = omega (arith, holders-append n xs ys)

-- One more holder at most, and none where the mutex is another.
entered :
    (n : ℕ) (front : List Handler) (x : Handler) (back : List Handler)
    → x.inside ≡ false
    → holders n (front ++ (record x { inside = true } ∷ back))
      ≡ holders n (front ++ (x ∷ back)) + one_if (nat_eq x.mutex n)
entered n front x back outside = ground (
  arith,
  outside,
  holders-append n front (x ∷ back),
  holders-append n front (record x { inside = true } ∷ back),
)

Locking-IsExclusive : {s t : Locks} → Locking s t → IsExclusive s → IsExclusive t
unfolding ingress_mu
Locking-IsExclusive (arrives key s) h =
    let given = load_or_store-IsGiven (lookup key s.mutexes.made) key s.mutexes refl h.made in
    record {
      made = given.made;
      registered =
          (given.given, All-imp s.handlers (λ x r. given.keeps x.key x.mutex r) h.registered);
      alone = λ n. omega (arith, h.alone n);
    }
Locking-IsExclusive (enters m front x back outside free) h =
    let (r, rest) = All-middle (Registered m) front x back h.registered in
    record {
      made = h.made;
      registered = All-replaced (Registered m) front (record x { inside = true }) back r rest;
      alone = λ n. elim (Bool-cases (nat_eq x.mutex n)) [
        | inl same ↦
            let e = (nat_eq_iff x.mutex n).0 same in
            omega (
              arith,
              ap one_if same,
              entered n front x back outside,
              ap (λ i. holders i (front ++ (x ∷ back))) (sym e) ∙ free,
            )
        | inr other ↦ omega (arith, ap one_if other, entered n front x back outside, h.alone n)
      ];
    }
Locking-IsExclusive (leaves m front x back inside) h = record {
  made = h.made;
  registered = (All-middle (Registered m) front x back h.registered).1;
  alone =
      λ n. omega (arith, h.alone n, holders-append n front (x ∷ back), holders-append n front back);
}

Locked-IsExclusive : {s : Locks} → Locked s → IsExclusive s
unfolding lookup
Locked-IsExclusive at_first = record {
  made = record {
    below = λ k n e. absurd (none-ne-some n e);
    apart = λ j k n e f. absurd (none-ne-some n e);
  };
  registered = tt;
  alone = λ n. omega arith;
}
Locked-IsExclusive (after before step) = Locking-IsExclusive step (Locked-IsExclusive before)

same_handler :
    (m : KeyMutexes) (key : String) (n : ℕ) (h : Handler)
    → IsMade m
    → lookup key m.made ≡ some n
    → Registered m h
    → (h.inside && h.key == key) ≡ (h.inside && nat_eq h.mutex n)
same_handler m key n h made e r = elim (Bool-cases (h.key == key)) [
  | inl same ↦
      let mutexes =
        some-injective h.mutex n
          (sym r ∙ (ap (λ k. lookup k m.made) ((eq_iff h.key key).0 same) ∙ e)) in
      ground (arith, same, (nat_eq_iff h.mutex n).1 mutexes)
  | inr other ↦ elim (Bool-cases (nat_eq h.mutex n)) [
    | inl shared ↦
        let keys = made.apart h.key key n (r ∙ ap some ((nat_eq_iff h.mutex n).0 shared)) e in
        ground (arith, other, (eq_iff h.key key).1 keys)
    | inr separate ↦ ground (arith, other, separate)
  ]
]

no_handler :
    (m : KeyMutexes) (key : String) (h : Handler)
    → lookup key m.made ≡ none
    → Registered m h
    → (h.inside && h.key == key) ≡ false
no_handler m key h e r = elim (Bool-cases (h.key == key)) [
  | inl same ↦ absurd (
      none-ne-some h.mutex
        (sym e ∙ (ap (λ k. lookup k m.made) (sym ((eq_iff h.key key).0 same)) ∙ r)))
  | inr other ↦ ground (arith, other)
]

-- Handlers that are inside for a key hold the mutex of that key, and no others do.
handling-holders :
    (m : KeyMutexes) (key : String) (n : ℕ) (hs : List Handler)
    → IsMade m
    → lookup key m.made ≡ some n
    → All (Registered m) hs
    → handling key hs ≡ holders n hs
handling-holders m key n [] made e _ = refl
handling-holders m key n (h ∷ hs) made e (r, rs) =
    omega
      (arith, handling-holders m key n hs made e rs, ap one_if (same_handler m key n h made e r))

-- A key without a mutex is handled by none.
handling-none :
    (m : KeyMutexes) (key : String) (hs : List Handler)
    → lookup key m.made ≡ none
    → All (Registered m) hs
    → handling key hs ≡ 0
handling-none m key [] e _ = refl
handling-none m key (h ∷ hs) e (r, rs) =
    omega (arith, handling-none m key hs e rs, ap one_if (no_handler m key h e r))

waiting-Registered :
    (m : KeyMutexes) (front : List Handler) (h : Handler) (back : List Handler)
    → All (Registered m) (front ++ (h ∷ back))
    → Registered m h
waiting-Registered m front h back rs = (All-middle (Registered m) front h back rs).0

-- In every order in which calls of the handlers begin, get their mutexes and return: at most one handler of
-- each key is inside, and a handler that waits can enter unless one of its own key is inside.
pub Locked-handling :
    {s : Locks}
    → Locked s
    → ((key : String) → handling key s.handlers ≤ 1)
      × ((front : List Handler) (h : Handler) (back : List Handler)
          → s.handlers ≡ front ++ (h ∷ back)
          → handling h.key s.handlers ≡ 0
          → holders h.mutex s.handlers ≡ 0)
Locked-handling {s} locked =
    let inv = Locked-IsExclusive locked in
    (
      λ key. elim (Option-cases (lookup key s.mutexes.made)) [
        | inl e ↦ omega (arith, handling-none s.mutexes key s.handlers e inv.registered)
        | inr (n, e) ↦ omega (
          arith,
          handling-holders s.mutexes key n s.handlers inv.made e inv.registered,
          inv.alone n,
        )
      ],
      λ front h back e none_inside.
          let r =
            waiting-Registered s.mutexes front h back
              (subst (All (Registered s.mutexes)) e inv.registered) in
          sym (handling-holders s.mutexes h.key h.mutex s.handlers inv.made r inv.registered)
          ∙ none_inside,
    )
