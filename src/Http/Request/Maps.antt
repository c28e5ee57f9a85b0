-- ===== src/Http/Request/Maps.antt =====
-- The maps of HttpRequest of mingfwq/http/http.cpp as functions of the names without their case.
use mingfwq.Prelude.{ℕ, ◌≡◌, refl, false, Option, List, if◌then◌else◌, arith}
use mingfwq.Http.{get_field, has_field}
use mingfwq.Http.Fields.{
  same_name, IsSorted, find-assign, find-erase, assign-IsSorted, erase-IsSorted,
}
use mingfwq.Http.Request.{
  HttpRequest, get_header, get_param, get_cookie, set_header, del_header, has_header,
}

-- The maps of the request have their names in order.
pub record IsValid (r : HttpRequest) : Type 0 where
  pub headers : IsSorted r.headers
  pub params : IsSorted r.params
  pub cookies : IsSorted r.cookies

-- setHeader keeps a well-formed request well formed and makes getHeader return the new value for
-- every spelling of the name, and what it returned before for any other name; parameters and
-- cookies stay as they were.
pub set_header-IsValid :
    (key val : List ℕ) (r : HttpRequest)
    → IsValid r
    → IsValid (set_header key val r)
      × ((q def : List ℕ)
          → (get_header q def (set_header key val r)
              ≡ (if same_name q key then val else get_header q def r))
            × (get_param q def (set_header key val r) ≡ get_param q def r)
            × (get_cookie q def (set_header key val r) ≡ get_cookie q def r))
unfolding set_header get_header get_param get_cookie get_field
set_header-IsValid key val r h = (
  record {
    headers = assign-IsSorted key val r.headers h.headers;
    params = h.params;
    cookies = h.cookies;
  },
  λ q def. (ground (arith, find-assign q key val r.headers), refl, refl),
)

-- delHeader keeps a well-formed request well formed; afterwards no spelling of the name is there,
-- so getHeader returns the default and hasHeader leaves what it was given alone, and every other
-- name has the value that it had.
pub del_header-IsValid :
    (key : List ℕ) (r : HttpRequest)
    → IsValid r
    → IsValid (del_header key r)
      × ((q def : List ℕ) (val : Option (List ℕ))
          → (get_header q def (del_header key r)
              ≡ (if same_name q key then def else get_header q def r))
            × (has_header q val (del_header key r)
                ≡ (if same_name q key then (false, val) else has_header q val r)))
unfolding del_header get_header has_header get_field has_field
del_header-IsValid key r h = (
  record {
    headers = erase-IsSorted key r.headers h.headers;
    params = h.params;
    cookies = h.cookies;
  },
  λ q def val. (
    ground (arith, find-erase q key r.headers h.headers),
    ground (arith, find-erase q key r.headers h.headers),
  ),
)
