-- ===== src/Annotations/Fetched.antt =====
-- What the objects that annotations name contribute: firewall directives and accounts.
use Prim.Native.String.{[], ◌∷◌}
use caddy_k8s.Base.{
  AllSome, AllSome-value, AllSome-bind, if◌then◌else◌, String, ◌≡◌, refl, true, false, Option, none,
  some, List, [], ◌∷◌, arith, All, ℕ, is_empty,
}
use caddy_k8s.Strings.{is_blank, trim_space, has_prefix, split, cut}
use caddy_k8s.Strings.Split.{Lacks}
use caddy_k8s.Strings.Trim.{trim_space_idem}
use caddy_k8s.Dict.{lookup}
use caddy_k8s.Kube.{Cluster}
use caddy_k8s.Annotations.Config.{BasicAuthAccount}
use caddy_k8s.Annotations.Parse.{
  directive_lines, is_bcrypt, account_of, prepend, accounts, fetch_waf_directives,
  fetch_basic_auth_accounts,
}

-- A line that is not empty, has no white space around it, and is no comment.
pub record IsDirective (line : String) : Type 0 where
  pub inked : is_blank line ≡ false
  pub trimmed : trim_space line ≡ line
  pub no_comment : has_prefix line "#" ≡ false

directive_lines-IsDirective : (lines : List String) → All IsDirective (directive_lines lines)
unfolding directive_lines
directive_lines-IsDirective [] = tt
directive_lines-IsDirective (raw ∷ lines) =
    ground (arith, directive_lines-IsDirective lines, trim_space_idem raw)

-- The firewall receives only proper directives, whatever the ConfigMap holds.
pub fetch_waf_directives-IsDirective :
    (cluster : Cluster) (namespace name : String) (found : List String)
    → fetch_waf_directives cluster namespace name ≡ some found
    → All IsDirective found
unfolding fetch_waf_directives
fetch_waf_directives-IsDirective cluster namespace name found h =
    AllSome-value (All IsDirective) _ found
      (AllSome-bind (All IsDirective) (cluster.config_map namespace name) _ λ cm.
        AllSome-bind (All IsDirective) (lookup "directives" cm) _
          λ raw. directive_lines-IsDirective (split 10 raw))
      h

cut-Lacks : (sep : ℕ) (s : String) → AllSome (λ p. Lacks sep p.0) (cut sep s)
unfolding cut
cut-Lacks sep [] = tt
cut-Lacks sep (c ∷ s) = ground (arith, cut-Lacks sep s)

-- An account whose name holds no colon and whose password is a bcrypt hash.
pub record IsAccount (a : BasicAuthAccount) : Type 0 where
  pub named : Lacks b':' a.username
  pub hashed : is_bcrypt a.password ≡ true

account_of-IsAccount : (line : String) → AllSome IsAccount (account_of line)
unfolding account_of
account_of-IsAccount line = ground (arith, cut-Lacks b':' line)

prepend-IsAccount :
    (o : Option BasicAuthAccount) (rest : List BasicAuthAccount)
    → AllSome IsAccount o
    → All IsAccount rest
    → All IsAccount (prepend o rest)
prepend-IsAccount none rest h k = k
prepend-IsAccount (some a) rest h k = (h, k)

accounts-IsAccount : (lines : List String) → All IsAccount (accounts lines)
unfolding accounts
accounts-IsAccount [] = tt
accounts-IsAccount (line ∷ lines) =
    prepend-IsAccount (account_of line) (accounts lines) (account_of-IsAccount line)
      (accounts-IsAccount lines)

abbrev AreAccounts : List BasicAuthAccount → Type 0
AreAccounts found = (is_empty found ≡ false) × All IsAccount found

some_if_any :
    (found : List BasicAuthAccount)
    → All IsAccount found
    → AllSome AreAccounts (if is_empty found then none else some found)
some_if_any [] h = tt
some_if_any (a ∷ found) h = (refl, h)

pub fetch_basic_auth_accounts-IsAccount :
    (cluster : Cluster) (namespace name : String) (found : List BasicAuthAccount)
    → fetch_basic_auth_accounts cluster namespace name ≡ some found
    → (is_empty found ≡ false) × All IsAccount found
unfolding fetch_basic_auth_accounts
fetch_basic_auth_accounts-IsAccount cluster namespace name found h =
    AllSome-value AreAccounts _ found
      (AllSome-bind AreAccounts (cluster.secret namespace name) _ λ secret.
        AllSome-bind AreAccounts (lookup "auth" secret.contents) _
          λ raw. some_if_any (accounts (directive_lines (split 10 raw))) (accounts-IsAccount _))
      h
