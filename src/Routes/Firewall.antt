-- ===== src/Routes/Firewall.antt =====
-- The lines of the firewall's configuration.
use caddy_k8s.Base.{
  String, ◌<>◌, ◌≡◌, refl, Option, none, some, List, [], ◌∷◌, ◌++◌, arith, Bool-cases, inl, inr,
  if◌then◌else◌,
}
use caddy_k8s.Strings.{has_prefix, equal_fold}
use caddy_k8s.Routes.Handlers.{rule_engine, waf_lines}

-- The last line that begins with a text: where a directive is given twice, the one that counts.
unfoldable pub last_with : String → List String → Option String
last_with p [] = none
last_with p (x ∷ xs) = elim (last_with p xs) [
  | none ↦ if has_prefix x p then some x else none
  | some y ↦ some y
]

last_with-append :
    (p : String) (xs ys : List String) {y : String}
    → last_with p ys ≡ some y
    → last_with p (xs ++ ys) ≡ some y
unfolding last_with
last_with-append p [] ys e = e
last_with-append p (x ∷ xs) ys e = ground (arith, last_with-append p xs ys e)

abbrev includes : List String
includes =
    "Include @coraza.conf-recommended" ∷ "Include @crs-setup.conf.example"
    ∷ "Include @owasp_crs/*.conf" ∷ []

abbrev ending : String → List String
ending mode =
    ("SecRuleEngine " <> rule_engine mode)
    ∷ "SecRequestBodyAccess On"
    ∷ "SecResponseBodyAccess Off"
    ∷ "SecRequestBodyLimit 13107200"
    ∷ []

last_with-ending :
    (mode : String)
    → last_with "SecRuleEngine" (ending mode) ≡ some ("SecRuleEngine " <> rule_engine mode)
unfolding last_with has_prefix rule_engine
last_with-ending mode = elim (Bool-cases (equal_fold mode "On")) [
  | inl e ↦ rw e refl
  | inr e ↦ rw e refl
]

-- Whatever the extra directives of an Ingress, the last line that starts with `SecRuleEngine` in the list
-- of the directives is the program's, with the engine of the enforcement mode. What Coraza makes of the
-- other lines is not stated.
pub waf_lines-engine :
    (mode : String) (extra : List String)
    → last_with "SecRuleEngine" (waf_lines mode extra) ≡ some ("SecRuleEngine " <> rule_engine mode)
unfolding waf_lines
waf_lines-engine mode extra =
    last_with-append "SecRuleEngine" includes (extra ++ ending mode)
      (last_with-append "SecRuleEngine" extra (ending mode) (last_with-ending mode))
