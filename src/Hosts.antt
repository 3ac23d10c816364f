-- ===== src/Hosts.antt =====
-- The loops that collect texts without repetition (`rebuild`, `tlsHosts` and `ingressHosts`), and what
-- they collect.
use caddy_k8s.Strings.{is_blank}
use caddy_k8s.Base.{
  String, ◌≡◌, refl, Bool, true, false, ◌&&◌, ◌||◌, not, List, [], ◌∷◌, ◌++◌, ◌==◌, eq_iff, arith,
  any, if◌then◌else◌, Bool-cases, inl, inr,
}

-- The text is in the list.
abbrev pub elem : String → List String → Bool
elem h xs = any (λ x. x == h) xs

-- The loop, with the texts collected so far: `seen` holds those and no others.
unfoldable pub collect : List String → List String → List String
collect [] out = out
collect (h ∷ hs) out =
    let again = collect hs out in
    let added = collect hs (out ++ (h ∷ [])) in if elem h out then again else added

unfoldable pub unique : List String → List String
unique hs = collect hs []

-- No text stands twice in the list.
abbrev pub distinct : List String → Bool
distinct [] = true
distinct (x ∷ xs) = not (elem x xs) && distinct xs

pub elem-append : (h : String) (xs ys : List String) → elem h (xs ++ ys) ≡ (elem h xs || elem h ys)
elem-append h [] ys = refl
elem-append h (x ∷ xs) ys = ground (arith, elem-append h xs ys)

elem-snoc : (h x : String) (xs : List String) → elem h (xs ++ (x ∷ [])) ≡ (elem h xs || x == h)
elem-snoc h x [] = ground arith
elem-snoc h x (y ∷ xs) = ground (arith, elem-snoc h x xs)

distinct-snoc :
    (x : String) (xs : List String)
    → distinct xs ≡ true
    → elem x xs ≡ false
    → distinct (xs ++ (x ∷ [])) ≡ true
distinct-snoc x [] d e = refl
distinct-snoc x (y ∷ xs) d e =
    ground (arith, elem-snoc y x xs, eq_iff x y, eq_iff y x, distinct-snoc x xs)

elem-collect :
    (h : String) (hs out : List String) → elem h (collect hs out) ≡ (elem h out || elem h hs)
unfolding collect
elem-collect h [] out = ground arith
elem-collect h (x ∷ hs) out = ground (
  arith,
  eq_iff x h,
  elem-collect h hs out,
  elem-collect h hs (out ++ (x ∷ [])),
  elem-snoc h x out,
)

distinct-collect : (hs out : List String) → distinct out ≡ true → distinct (collect hs out) ≡ true
unfolding collect
distinct-collect [] out d = d
distinct-collect (x ∷ hs) out d = elim (Bool-cases (elem x out)) [
  | inl e ↦ rw e (distinct-collect hs out d)
  | inr e ↦ rw e (distinct-collect hs (out ++ (x ∷ [])) (distinct-snoc x out d e))
]

-- What is collected is what was there, and each text once.
pub elem-unique : (h : String) (hs : List String) → elem h (unique hs) ≡ elem h hs
unfolding unique
elem-unique h hs = elem-collect h hs []

pub distinct-unique : (hs : List String) → distinct (unique hs) ≡ true
unfolding unique
distinct-unique hs = distinct-collect hs [] refl

-- The hosts that are not empty.
unfoldable pub named_hosts : List String → List String
named_hosts [] = []
named_hosts (h ∷ hs) = let rest = named_hosts hs in if is_blank h then rest else h ∷ rest

pub elem-named_hosts :
    (h : String) (hs : List String) → elem h (named_hosts hs) ≡ (not (is_blank h) && elem h hs)
unfolding named_hosts
elem-named_hosts h [] = ground arith
elem-named_hosts h (x ∷ hs) = ground (arith, eq_iff x h, elem-named_hosts h hs)
