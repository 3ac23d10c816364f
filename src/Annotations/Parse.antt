-- ===== src/Annotations/Parse.antt =====
-- The parsers of annotation values and of the objects that annotations name: annotations.go from
-- `parseCIDRList` to `fetchBasicAuthAccounts`, and `parseHeaderAnnotation`.
use mathlib.Core.Option
use Prim.Native.String.{[], ◌∷◌}
use caddy_k8s.Base.{
  ◌>>=◌, ℕ, ◌*◌, code, String, ◌<>◌, Bool, false, ◌&&◌, ◌||◌, Option, none, some, List, [], ◌∷◌,
  ◌++◌, ◌==◌, leb, nat_eq, if◌then◌else◌, ℤ, pos, wrapping_mul, is_empty,
}
use caddy_k8s.Strings.{is_blank, trim_space, has_prefix, unsnoc, split, cut}
use caddy_k8s.Strings.Numbers.{parse_int}
use caddy_k8s.Dict.{lookup, insert}
use caddy_k8s.Kube.{Cluster}
use caddy_k8s.Json.{Json}
use caddy_k8s.Annotations.Config.{HeaderConfig, no_headers, BasicAuthAccount}

-- The parts of a list that are not empty after trimming, trimmed: the loop of `parseCIDRList`.
unfoldable pub trimmed_parts : List String → List String
trimmed_parts [] = []
trimmed_parts (p ∷ ps) =
    let rest = trimmed_parts ps in
    let text = trim_space p in if is_blank text then rest else text ∷ rest

unfoldable pub parse_cidr_list : String → List String
unfolding trimmed_parts
parse_cidr_list s = trimmed_parts (split b',' s)

-- `part[1:]`
abbrev tail : String → String
tail [] = ""
tail (c ∷ s) = s

unfoldable pub add_delete : String → HeaderConfig → HeaderConfig
add_delete name cfg =
    if is_blank name then cfg else record cfg { delete = cfg.delete ++ (name ∷ []) }

unfoldable pub add_set : Option (String × String) → HeaderConfig → HeaderConfig
add_set none cfg = cfg
add_set (some (k, v)) cfg = record cfg { set = insert (trim_space k) (trim_space v) cfg.set }

-- One round of the loop, on a trimmed part.
unfoldable pub add_header : String → HeaderConfig → HeaderConfig
add_header part cfg =
    if is_blank part
    then cfg
    else if has_prefix part "-"
    then add_delete (trim_space (tail part)) cfg
    else add_set (cut b'=' part) cfg

unfoldable pub add_headers : List String → HeaderConfig → HeaderConfig
add_headers [] cfg = cfg
add_headers (part ∷ parts) cfg = add_headers parts (add_header (trim_space part) cfg)

unfoldable pub parse_header_annotation : String → HeaderConfig
parse_header_annotation raw = add_headers (split b',' raw) no_headers

abbrev pub is_digit : ℕ → Bool
is_digit c = leb b'0' c && leb c b'9'

-- The text ends in a digit: `last < '0' || last > '9'` negated.
unfoldable pub ends_in_digit : String → Bool
ends_in_digit s = elim (unsnoc s) [ none ↦ false | some (rest, last) ↦ is_digit (code last) ]

unfoldable pub parse_timeout_seconds : String → String
unfolding ends_in_digit
parse_timeout_seconds raw =
    let s = trim_space raw in
    if is_blank s || s == "0" then "" else if ends_in_digit s then s <> "s" else s

-- The multiplier of a unit suffix, 1 for any other character.
unfoldable pub size_unit : ℕ → ℕ
size_unit c =
    if nat_eq c b'k' || nat_eq c b'K'
    then 1024
    else if nat_eq c b'm' || nat_eq c b'M'
    then 1024 * 1024
    else if nat_eq c b'g' || nat_eq c b'G'
    then 1024 * 1024 * 1024
    else 1

-- The number's text without the unit, and the multiplier.
unfoldable pub size_parts : String → String × ℕ
unfolding size_unit
size_parts s = elim (unsnoc s) [
  | none ↦ (s, 1)
  | some (rest, last) ↦
      let unit = size_unit (code last) in if nat_eq unit 1 then (s, 1) else (rest, unit)
]

-- `none` stands for the error. The product is taken in `int64`.
unfoldable pub parse_body_size : String → Option ℤ
parse_body_size raw =
    let s = trim_space raw in
    let (text, unit) = size_parts s in
    let product = Option.map (λ n. wrapping_mul n unit) (parse_int (trim_space text)) in
    if s == "0" then some (pos 0) else if is_blank s then none else product

-- The lines that are neither empty nor comments, trimmed.
unfoldable pub directive_lines : List String → List String
directive_lines [] = []
directive_lines (raw ∷ lines) =
    let rest = directive_lines lines in
    let line = trim_space raw in if is_blank line || has_prefix line "#" then rest else line ∷ rest

unfoldable pub is_bcrypt : String → Bool
is_bcrypt hash = has_prefix hash "$2y$" || has_prefix hash "$2a$"

-- The account of an htpasswd line; `none` for a line that is skipped.
unfoldable pub account_of : String → Option BasicAuthAccount
unfolding is_bcrypt
account_of line = elim (cut b':' line) [
  | none ↦ none
  | some (username, hash) ↦
      if is_bcrypt hash then some (record { username = username; password = hash }) else none
]

abbrev pub prepend : Option BasicAuthAccount → List BasicAuthAccount → List BasicAuthAccount
prepend none rest = rest
prepend (some a) rest = a ∷ rest

unfoldable pub accounts : List String → List BasicAuthAccount
unfolding account_of
accounts [] = []
accounts (line ∷ lines) = prepend (account_of line) (accounts lines)

module _ (cluster : Cluster) where
  unfoldable pub fetch_waf_directives : String → String → Option (List String)
  unfolding directive_lines
  fetch_waf_directives namespace name = do
    cm ← cluster.config_map namespace name
    raw ← lookup "directives" cm
    some (directive_lines (split 10 raw))

  unfoldable pub fetch_basic_auth_accounts : String → String → Option (List BasicAuthAccount)
  unfolding accounts directive_lines
  fetch_basic_auth_accounts namespace name = do
    secret ← cluster.secret namespace name
    raw ← lookup "auth" secret.contents
    let found = accounts (directive_lines (split 10 raw))
    if is_empty found then none else some found

  -- `parse_json` is `json.Unmarshal` into an `interface{}`.
  unfoldable pub fetch_auth_policy_handler : (String → Option Json) → String → String → Option Json
  fetch_auth_policy_handler parse_json namespace name = do
    cm ← cluster.config_map namespace name
    raw ← lookup "handler" cm
    parse_json raw
