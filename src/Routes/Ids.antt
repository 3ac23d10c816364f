-- ===== src/Routes/Ids.antt =====
-- Route ids: which routes they tell apart, and which share one.
use Prim.Native.String.{[], ◌∷◌, char_at}
use text.Mathlib.TextLemmas.{append-nil, append_cancel_left, nil-append, cons-append, nil≢cons}
use caddy_k8s.Base.{
  ℕ, code, String, false, ◌<>◌, ◌≡◌, ◌≢◌, refl, ◌∙◌, ℤ, pos, negsuc, nat_eq, Bool-cases, inl, inr,
}
use caddy_k8s.Strings.{is_blank, replace_all}
use caddy_k8s.Strings.Numbers.{itoa, print_nat-injective}
use caddy_k8s.Routes.Convert.{host_label, route_id, parent}

-- The part of an id behind the host's label.
host_prefix :
    (namespace name host x y : String)
    → "caddy-k8s-" <> (namespace <> ("-" <> (name <> ("-" <> (host <> x)))))
      ≡ "caddy-k8s-" <> (namespace <> ("-" <> (name <> ("-" <> (host <> y)))))
    → x ≡ y
host_prefix namespace name host x y e = append_cancel_left host x y (
    append_cancel_left "-" _ _ (
      append_cancel_left name _ _ (
        append_cancel_left "-" _ _
          (append_cancel_left namespace _ _ (append_cancel_left "caddy-k8s-" _ _ e)))))

-- Under one host of an Ingress, two paths with one id have one index.
pub route_id-injective :
    (namespace name host : String) (i j : ℕ)
    → route_id namespace name host (pos i) ≡ route_id namespace name host (pos j)
    → i ≡ j
unfolding route_id itoa
route_id-injective namespace name host i j e =
    print_nat-injective i j
      (append_cancel_left "-p" _ _ (host_prefix namespace name (host_label host) _ _ e))

-- The id of a host's route is the id of none of its paths.
pub route_id-parent :
    (namespace name host : String) (i : ℕ)
    → route_id namespace name host parent ≢ route_id namespace name host (pos i)
unfolding route_id
route_id-parent namespace name host i e = nil≢cons (
    host_prefix namespace name (host_label host) "" ("-p" <> itoa (pos i)) (rw append-nil e)
    ∙ cons-append (char_at "-" 0) "p" (itoa (pos i)))

replace_dots_idem :
    (s : String) → replace_all b'.' "-" (replace_all b'.' "-" s) ≡ replace_all b'.' "-" s
unfolding replace_all
replace_dots_idem [] = refl
replace_dots_idem (c ∷ s) = elim (Bool-cases (nat_eq (code c) b'.')) [
  | inl dot ↦ rw (dot, cons-append, nil-append) (rw (replace_dots_idem s) refl)
  | inr other ↦ simp (other, replace_dots_idem s)
]

-- The ids do not tell a host from the host with dashes for its dots.
pub route_id_dashed :
    (namespace name host : String) (index : ℤ)
    → route_id namespace name (replace_all b'.' "-" host) index ≡ route_id namespace name host index
unfolding route_id host_label
route_id_dashed namespace name host (negsuc n) = rw replace_dots_idem
route_id_dashed namespace name host (pos n) = rw replace_dots_idem

pub is_blank-append : (p s : String) → is_blank p ≡ false → is_blank (p <> s) ≡ false
is_blank-append [] s h = cc
is_blank-append (c ∷ p) s h = rw cons-append

-- No route is without an id.
pub is_blank-route_id :
    (namespace name host : String) (index : ℤ)
    → is_blank (route_id namespace name host index) ≡ false
unfolding route_id
is_blank-route_id namespace name host (negsuc n) = is_blank-append "caddy-k8s-" _ refl
is_blank-route_id namespace name host (pos n) = is_blank-append "caddy-k8s-" _ refl
