-- ===== src/Servlet.antt =====
-- mingfwq/http/servlet.h and mingfwq/http/servlet.cpp: which servlet handles the path of a request.
--
-- A servlet is a name, and a null pointer is `none`. `fnmatch` is the function of the C library:
-- whether a pattern matches a string. The unordered map is a list of entries with a key each, the
-- vector of patterns a list. `serve` runs the servlet of a name on what the request, the response
-- and the session are.
pub mod Routes
pub mod Patterns
mod Examples
use mingfwq.Prelude.{
  ℕ, Bool, true, false, Option, none, some, List, [], ◌∷◌, ◌++◌, if◌then◌else◌, same,
}

pub record Entry : Type 0 where
  pub uri : List ℕ
  pub servlet : Option ℕ

pub record ServletDispath : Type 0 where
  pub datas : List Entry
  pub globs : List Entry
  pub default : Option ℕ

-- The entry of a URI, found by ==.
unfoldable pub find : List ℕ → List Entry → Option (Option ℕ)
find uri [] = none
find uri (e ∷ es) = let later = find uri es in if same uri e.uri then some e.servlet else later

-- m_datas[uri] = slt
pub assign : List ℕ → Option ℕ → List Entry → List Entry
assign uri slt [] = record { uri = uri; servlet = slt } ∷ []
assign uri slt (e ∷ es) =
    let later = assign uri slt es in
    if same uri e.uri then record e { servlet = slt } ∷ es else e ∷ later

-- m_datas.erase(uri)
pub erase : List ℕ → List Entry → List Entry
erase uri [] = []
erase uri (e ∷ es) = let later = erase uri es in if same uri e.uri then es else e ∷ later

-- ServletDispath::ServletDispath, with the name of its NotFoundServlet.
unfoldable pub make_servlet_dispath : ℕ → ServletDispath
make_servlet_dispath not_found = record { datas = []; globs = []; default = some not_found }

-- addServlet
pub add_servlet : List ℕ → Option ℕ → ServletDispath → ServletDispath
unfolding assign
add_servlet uri slt d = record d { datas = assign uri slt d.datas }

-- delServlet
pub del_servlet : List ℕ → ServletDispath → ServletDispath
unfolding erase
del_servlet uri d = record d { datas = erase uri d.datas }

-- setDefault
pub set_default : Option ℕ → ServletDispath → ServletDispath
set_default slt d = record d { default = slt }

-- The null pointer for what is not found.
abbrev pub or_null : Option (Option ℕ) → Option ℕ
or_null none = none
or_null (some s) = s

-- getServlet
pub get_servlet : List ℕ → ServletDispath → Option ℕ
unfolding find
get_servlet uri d = or_null (find uri d.datas)

-- getGlobServlet
pub get_glob_servlet : List ℕ → ServletDispath → Option ℕ
unfolding find
get_glob_servlet uri d = or_null (find uri d.globs)

-- getMatchedServlet
unfoldable pub get_matched_servlet : List ℕ → ServletDispath → Option ℕ
get_matched_servlet uri d = elim (find uri d.datas) [
  | some s ↦ s
  | none ↦ elim (find uri d.globs) [ some s ↦ s | none ↦ d.default ]
]

-- handle, which returns 0.
unfoldable pub handle : {R : Type 0} → (ℕ → R → R) → List ℕ → ServletDispath → R → R
unfolding get_matched_servlet
handle serve path d r = elim (get_matched_servlet path d) [ none ↦ r | some s ↦ serve s r ]

module _ (fnmatch : List ℕ → List ℕ → Bool) where
  -- The loop of addGlobServlet and delGlobServlet: the first pattern that matches goes.
  pub erase_match : List ℕ → List Entry → List Entry
  erase_match uri [] = []
  erase_match uri (e ∷ es) =
      let later = erase_match uri es in if fnmatch e.uri uri then es else e ∷ later

  -- addGlobServlet
  pub add_glob_servlet : List ℕ → Option ℕ → ServletDispath → ServletDispath
  unfolding erase_match
  add_glob_servlet uri slt d = record d {
    globs = erase_match uri d.globs ++ record { uri = uri; servlet = slt } ∷ [];
  }

  -- delGlobServlet
  pub del_glob_servlet : List ℕ → ServletDispath → ServletDispath
  unfolding erase_match
  del_glob_servlet uri d = record d { globs = erase_match uri d.globs }
