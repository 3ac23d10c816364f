-- ===== src/Tests/Annotations.antt =====
-- The theorems on annotations at concrete values.
use Prim.Native.String.{[], ◌∷◌, char_at}
use caddy_k8s.Base.{
  ℕ, ◌*◌, ◌^◌, ◌%◌, ◌<◌, ◌≡◌, ◌≢◌, refl, Char, String, ◌<>◌, Bool, Option, none, some, List, [],
  ◌∷◌, arith, All, AllSome, ℤ, pos, IsInt64, code,
}
use caddy_k8s.Dict
use caddy_k8s.Strings.{trim_space, join}
use caddy_k8s.Strings
use caddy_k8s.Strings.Numbers.{parse_int}
use caddy_k8s.Annotations.Config.{BasicAuthAccount}
use caddy_k8s.Annotations.Parse.{
  parse_cidr_list, parse_timeout_seconds, ends_in_digit, parse_body_size, size_unit,
  fetch_waf_directives, is_bcrypt,
}
use caddy_k8s.Annotations.Entries.{IsListed, parse_cidr_list-join}
use caddy_k8s.Annotations.BodySize.{parse_body_size_fits, parse_body_size_wraps}
use caddy_k8s.Annotations.WellFormed.{IsWellFormed, resolve_annotations-IsWellFormed}
use caddy_k8s.Tests.Samples.{cluster, no_json, ingress, configuration}

parse_cidr_list_test :
    parse_cidr_list " 10.0.0.0/8,, 192.168.1.5 " ≡ "10.0.0.0/8" ∷ "192.168.1.5" ∷ []
unfolding parse_cidr_list Strings.split trim_space
parse_cidr_list_test = refl

ranges-IsListed : All IsListed ("10.0.0.0/8" ∷ "1.2.3.4" ∷ [])
unfolding trim_space
ranges-IsListed = (
  (record { inked = refl; trimmed = refl }, ground arith),
  ((record { inked = refl; trimmed = refl }, ground arith), tt),
)

parse_cidr_list-join_example :
    parse_cidr_list (join "," ("10.0.0.0/8" ∷ "1.2.3.4" ∷ [])) ≡ "10.0.0.0/8" ∷ "1.2.3.4" ∷ []
parse_cidr_list-join_example = parse_cidr_list-join ("10.0.0.0/8" ∷ "1.2.3.4" ∷ []) ranges-IsListed

parse_timeout_seconds_test :
    (parse_timeout_seconds " 60 " ≡ "60s")
    × (parse_timeout_seconds "1m30s" ≡ "1m30s")
    × (parse_timeout_seconds "0" ≡ "")
unfolding parse_timeout_seconds trim_space Strings.unsnoc
parse_timeout_seconds_test = (refl, refl, refl)

eight_megabytes : parse_body_size " 8m" ≡ some (pos 8388608)
unfolding parse_body_size trim_space parse_int caddy_k8s.Annotations.Parse.size_parts Strings.unsnoc
    caddy_k8s.Base.wrapping_mul
eight_megabytes = refl

spaced : (trim_space " 8 m" ≡ "8 m") × (parse_int (trim_space "8 ") ≡ some (pos 8))
unfolding trim_space parse_int
spaced = (refl, refl)

large :
    (trim_space "17179869184" ≡ "17179869184") × (parse_int "17179869184" ≡ some (pos 17179869184))
unfolding trim_space parse_int
large = (refl, refl)

g_unit : size_unit (code (char_at "g" 0)) ≢ 1
unfolding size_unit
g_unit = omega arith

g_wraps : (17179869184 * size_unit (code (char_at "g" 0))) % 2 ^ 64 ≡ 0
unfolding size_unit
g_wraps = refl

parse_body_size_fits_example : parse_body_size " 8 m" ≡ some (pos (8 * 1048576))
parse_body_size_fits_example =
    parse_body_size_fits " 8 m" "8 " (char_at "m" 0) 8 1048576 spaced.0 spaced.1 refl (omega arith)

parse_body_size_wraps_example :
    parse_body_size ("17179869184" <> (char_at "g" 0 ∷ "")) ≡ some (pos 0)
parse_body_size_wraps_example =
    parse_body_size_wraps "17179869184" (char_at "g" 0) 17179869184 large.0 large.1 g_unit g_wraps

directives_found :
    fetch_waf_directives cluster "shop" "rules" ≡ some ("SecRuleEngine Off" ∷ "SecRule ARGS x" ∷ [])
unfolding fetch_waf_directives Dict.lookup Strings.split trim_space Strings.has_prefix
directives_found = refl

abbrev ann_account : BasicAuthAccount
ann_account = record { username = "ann"; password = "$2y$05$abc" }

resolve_annotations-IsWellFormed_example : IsWellFormed configuration
resolve_annotations-IsWellFormed_example = resolve_annotations-IsWellFormed no_json cluster ingress
