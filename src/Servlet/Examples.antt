-- ===== src/Servlet/Examples.antt =====
-- A dispatcher with paths and patterns, and the theorems on it.
use mingfwq.Prelude.{ℕ, ◌≡◌, Bool, true, some, List, [], ◌∷◌, ◌==◌, ◌+◌, if◌then◌else◌, leb, length}
use mingfwq.Servlet.{ServletDispath, get_matched_servlet}
use mingfwq.Servlet.Routes.{Call, add, add_glob, after, get_matched_servlet-routes}

-- A pattern that starts with * (42) matches everything, another one what is as long.
abbrev glob : List ℕ → List ℕ → Bool
glob [] uri = leb (length uri) 0
glob (c ∷ cs) uri = if c == 42 then true else length cs + 1 == length uri

abbrev star : List ℕ
star = 42 ∷ []

abbrev home : List ℕ
home = 47 ∷ 104 ∷ []

abbrev calls : List Call
calls = add home (some 3) ∷ add_glob star (some 2) ∷ add home (some 1) ∷ []

get_matched_servlet-routes_example : get_matched_servlet home (after glob 9 calls) ≡ some 3
get_matched_servlet-routes_example = get_matched_servlet-routes glob 9 calls home

abbrev two_patterns : ServletDispath
two_patterns = record {
  datas = [];
  globs = record { uri = star; servlet = some 1 } ∷ record { uri = home; servlet = some 2 } ∷ [];
  default = some 9;
}
