-- ===== src/Strings.antt =====
-- The functions of Go's `strings` and `strconv` that the program calls, over `String`.
-- A text is its sequence of code points: every text of the program is UTF-8, and it is only cut at
-- ASCII characters, so positions in bytes and in code points name the same places.
pub mod Trim
pub mod Split
pub mod Numbers
use Prim.Native.String.{[], ◌∷◌, char_at}
use mathlib.Core.Option
use caddy_k8s.Base.{
  ℕ, ◌+◌, ◌-◌, Char, code, String, ◌<>◌, Bool, true, false, ◌&&◌, ◌||◌, Option, none, some, List,
  [], ◌∷◌, ◌==◌, ltb, leb, nat_eq, if◌then◌else◌,
}

abbrev pub is_blank : String → Bool
is_blank [] = true
is_blank (c ∷ s) = false

-- `unicode.IsSpace`
unfoldable pub is_space : ℕ → Bool
is_space c =
    (leb 9 c && leb c 13)
    || nat_eq c 32
    || nat_eq c 0x85
    || nat_eq c 0xa0
    || nat_eq c 0x1680
    || (leb 0x2000 c && leb c 0x200a)
    || nat_eq c 0x2028
    || nat_eq c 0x2029
    || nat_eq c 0x202f
    || nat_eq c 0x205f
    || nat_eq c 0x3000

unfoldable pub trim_left : String → String
unfolding is_space
trim_left [] = ""
trim_left (c ∷ s) = let rest = trim_left s in if is_space (code c) then rest else c ∷ s

unfoldable pub trim_right : String → String
unfolding is_space
trim_right [] = ""
trim_right (c ∷ s) =
    let rest = trim_right s in if is_blank rest && is_space (code c) then "" else c ∷ rest

-- `strings.TrimSpace`
unfoldable pub trim_space : String → String
unfolding trim_left trim_right
trim_space s = trim_right (trim_left s)

-- `strings.HasPrefix`
unfoldable pub has_prefix : String → String → Bool
has_prefix s [] = true
has_prefix [] (d ∷ p) = false
has_prefix (c ∷ s) (d ∷ p) = nat_eq (code c) (code d) && has_prefix s p

-- `strings.HasSuffix`
unfoldable pub has_suffix : String → String → Bool
has_suffix [] p = is_blank p
has_suffix (c ∷ s) p = (c ∷ s) == p || has_suffix s p

-- The text and its last character apart, `s[:len(s)-1]` and `s[len(s)-1]`.
unfoldable pub unsnoc : String → Option (String × Char)
unsnoc [] = none
unsnoc (c ∷ s) = elim (unsnoc s) [ none ↦ some ("", c) | some (rest, last) ↦ some (c ∷ rest, last) ]

abbrev push_head : Char → List String → List String
push_head c [] = (c ∷ "") ∷ []
push_head c (p ∷ ps) = (c ∷ p) ∷ ps

-- `strings.Split` at one ASCII character
unfoldable pub split : ℕ → String → List String
split sep [] = "" ∷ []
split sep (c ∷ s) =
    let rest = split sep s in if nat_eq (code c) sep then "" ∷ rest else push_head c rest

-- `strings.Cut` at one ASCII character; `none` stands for `found == false`. `strings.Index` with the
-- two slices around the position is the same function.
unfoldable pub cut : ℕ → String → Option (String × String)
cut sep [] = none
cut sep (c ∷ s) =
    let rest = cut sep s in
    if nat_eq (code c) sep then some ("", s) else Option.map (λ (k, v). (c ∷ k, v)) rest

-- `strings.Join`
unfoldable pub join : String → List String → String
join sep [] = ""
join sep (p ∷ []) = p
join sep (p ∷ q ∷ ps) = p <> (sep <> join sep (q ∷ ps))

-- `strings.ReplaceAll` of one ASCII character by a text
unfoldable pub replace_all : ℕ → String → String → String
replace_all old new [] = ""
replace_all old new (c ∷ s) =
    let rest = replace_all old new s in if nat_eq (code c) old then new <> rest else c ∷ rest

-- `unicode.ToLower` where the result is ASCII: the capital letters, and the two code points beyond
-- ASCII (the dotted capital I and the Kelvin sign) whose lower case is. Other code points stay: the
-- program compares lowered texts with ASCII words only.
to_lower_char : Char → Char
to_lower_char c =
    let n = code c in
    if leb b'A' n && leb n b'Z'
    then char_at "abcdefghijklmnopqrstuvwxyz" (n - b'A')
    else if nat_eq n 0x130
    then char_at "i" 0
    else if nat_eq n 0x212a
    then char_at "k" 0
    else c

-- `strings.ToLower`
unfoldable pub to_lower : String → String
unfolding to_lower_char
to_lower [] = ""
to_lower (c ∷ s) = to_lower_char c ∷ to_lower s

-- The least ASCII lower-case code point that a code point folds with.
fold_char : ℕ → ℕ
fold_char n =
    if leb b'A' n && leb n b'Z'
    then n + 32
    else if nat_eq n 0x17f
    then b's'
    else if nat_eq n 0x212a
    then b'k'
    else n

-- `strings.EqualFold`, for the ASCII words that the program compares with.
unfoldable pub equal_fold : String → String → Bool
unfolding fold_char
equal_fold [] [] = true
equal_fold [] (d ∷ t) = false
equal_fold (c ∷ s) [] = false
equal_fold (c ∷ s) (d ∷ t) = nat_eq (fold_char (code c)) (fold_char (code d)) && equal_fold s t

-- `strings.Contains`
unfoldable pub contains : String → String → Bool
unfolding has_prefix
contains [] p = is_blank p
contains (c ∷ s) p = has_prefix (c ∷ s) p || contains s p
