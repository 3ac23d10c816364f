-- ===== src/Annotations/Entries.antt =====
-- Comma-separated lists (`parseCIDRList` and the same loop for aliases and origins): what the entries
-- look like, and that a printed list is read back.
use Prim.Native.String.{[], ◌∷◌, char_at}
use Prim.Native.Char.{Char}
use text.Mathlib.TextLemmas.{nil-append, cons-append}
use caddy_k8s.Base.{ℕ, String, ◌<>◌, ◌≡◌, refl, ap, ◌∙◌, false, List, [], ◌∷◌, arith, All}
use caddy_k8s.Strings.{is_blank, trim_left, trim_right, trim_space, split, join}
use caddy_k8s.Strings.Trim.{trim_space_idem}
use caddy_k8s.Strings.Split.{Lacks, split-Lacks, split_of_Lacks, split-append}
use caddy_k8s.Annotations.Parse.{trimmed_parts, parse_cidr_list}

-- A text that is not empty and has no white space around it.
pub record IsEntry (s : String) : Type 0 where
  pub inked : is_blank s ≡ false
  pub trimmed : trim_space s ≡ s

trim_left-Lacks : (sep : ℕ) (s : String) → Lacks sep s → Lacks sep (trim_left s)
unfolding trim_left
trim_left-Lacks sep [] h = tt
trim_left-Lacks sep (c ∷ s) (h, k) = ground (arith, trim_left-Lacks sep s k)

trim_right-Lacks : (sep : ℕ) (s : String) → Lacks sep s → Lacks sep (trim_right s)
unfolding trim_right
trim_right-Lacks sep [] h = tt
trim_right-Lacks sep (c ∷ s) (h, k) = ground (arith, trim_right-Lacks sep s k)

trim_space-Lacks : (sep : ℕ) (s : String) → Lacks sep s → Lacks sep (trim_space s)
unfolding trim_space
trim_space-Lacks sep s h = trim_right-Lacks sep (trim_left s) (trim_left-Lacks sep s h)

-- An entry of a list: it holds no separator either.
abbrev pub IsListed : String → Type 0
IsListed s = IsEntry s × Lacks b',' s

pub trimmed_parts-IsListed :
    (ps : List String) → All (Lacks b',') ps → All IsListed (trimmed_parts ps)
unfolding trimmed_parts
trimmed_parts-IsListed [] h = tt
trimmed_parts-IsListed (p ∷ ps) (h, k) =
    ground (arith, trimmed_parts-IsListed ps k, trim_space_idem p, trim_space-Lacks b',' p h)

-- Each entry of a parsed list is not empty, has no white space around it, and holds no comma.
pub parse_cidr_list-IsListed : (s : String) → All IsListed (parse_cidr_list s)
unfolding parse_cidr_list
parse_cidr_list-IsListed s = trimmed_parts-IsListed (split b',' s) (split-Lacks b',' s)

abbrev comma : Char
comma = char_at "," 0

comma-append : (s : String) → "," <> s ≡ comma ∷ s
comma-append s = rw (cons-append, nil-append) refl

trimmed_parts-cons :
    (x : String) (ps : List String) → IsEntry x → trimmed_parts (x ∷ ps) ≡ x ∷ trimmed_parts ps
unfolding trimmed_parts
trimmed_parts-cons x ps e = ground arith

-- A list of entries, joined by commas, is read back as it was.
pub parse_cidr_list-join : (xs : List String) → All IsListed xs → parse_cidr_list (join "," xs) ≡ xs
unfolding parse_cidr_list join
parse_cidr_list-join [] h = unfold split trim_space in refl
parse_cidr_list-join (x ∷ []) ((entry, lacks), _) =
    rw (split_of_Lacks b',' x lacks) (trimmed_parts-cons x [] entry)
parse_cidr_list-join (x ∷ y ∷ xs) ((entry, lacks), h) =
    let parts = split b',' (join "," (y ∷ xs)) in
    rw (comma-append (join "," (y ∷ xs)), split-append comma x (join "," (y ∷ xs)) lacks)
      (trimmed_parts-cons x parts entry ∙ ap (λ l. x ∷ l) (parse_cidr_list-join (y ∷ xs) h))
