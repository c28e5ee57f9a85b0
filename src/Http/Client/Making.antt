-- ===== src/Http/Client/Making.antt =====
-- The requests that mingfwq/http/http_connection.cpp makes: their connection and their host.
use mingfwq.Prelude.{
  is_empty, bytes_order, bytes_order_refl, bytes_order→≡, ℕ, Ordering, ◌≡◌, refl, sym, ap, ◌∙◌, inl,
  inr, Bool, true, false, not, ◌||◌, none, some, List, [], ◌∷◌, All, if◌then◌else◌, arith, codes,
  same→≡, Bool-cases,
}
use mingfwq.Uri.{Uri}
use mingfwq.Http.{Field, strcasecmp, folded, to_lower, c_str, find}
use mingfwq.Http.Fields.{same_name, find-assign}
use mingfwq.Http.Printing.{is_eq, is_connection}
use mingfwq.Http.Request.{HttpRequest, set_header}
use mingfwq.Http.Client.{
  is_keep_alive, is_host, add_header, add_headers, uri_request, add_host, make_request,
}

is_eq→≡ : (o : Ordering) → is_eq o ≡ true → o ≡ Ordering.eq
is_eq→≡ o e = ground (arith, e)

-- A name is not "connection" and "keep-alive" at once.
never_keep_alive : (name : List ℕ) → is_connection name ≡ true → is_keep_alive name ≡ false
unfolding is_connection is_keep_alive strcasecmp bytes_order folded c_str to_lower
never_keep_alive name e =
    ap (λ s. is_eq (bytes_order s (folded (codes "keep-alive"))))
      (bytes_order→≡ (folded name) (folded (codes "connection")) (is_eq→≡ _ e))

add_header-close :
    (f : Field) (state : Bool × HttpRequest) → (add_header f state).1.close ≡ state.1.close
unfolding add_header set_header
add_header-close f state = ground (arith, never_keep_alive f.name)

add_headers-close :
    (hs : List Field) (state : Bool × HttpRequest) → (add_headers hs state).1.close ≡ state.1.close
unfolding add_headers
add_headers-close [] state = refl
add_headers-close (f ∷ hs) state =
    add_headers-close hs (add_header f state) ∙ add_header-close f state

add_host-close :
    (host body : List ℕ) (state : Bool × HttpRequest)
    → (add_host (codes "Host") host body state).close ≡ state.1.close
unfolding add_host set_header
add_host-close host body state = ground arith

-- Whatever headers are asked for, "connection: keep-alive" among them, the request that
-- HttpConnection makes asks to close the connection.
pub make_request-close :
    (method : ℕ) (uri : Uri) (headers : List Field) (body : List ℕ)
    → (make_request method uri headers body).close ≡ true
unfolding make_request
make_request-close method uri headers body =
    add_host-close uri.host body (add_headers headers (false, uri_request method uri))
    ∙ add_headers-close headers (false, uri_request method uri)

-- A header that is sent has a value.
abbrev pub any_value : List Field → Bool
any_value [] = false
any_value (f ∷ fs) =
    let later = any_value fs in
    if is_connection f.name then later else not (is_empty f.value) || later

same_name-host : (name : List ℕ) → is_host name ≡ false → same_name (codes "host") name ≡ false
unfolding is_host strcasecmp
same_name-host name e = elim (Bool-cases (same_name (codes "host") name)) [
  | inr d ↦ d
  | inl d ↦ absurd (
      cc (
        e,
        ap (λ s. is_eq (bytes_order s (folded (codes "host"))))
            (sym (same→≡ (folded (codes "host")) (folded name) d)),
        ap is_eq (bytes_order_refl (folded (codes "host"))),
      ))
]

unfoldable pub NamesNoHost : List Field → Type 0
NamesNoHost fs = All (λ f. is_host f.name ≡ false) fs

add_header-host :
    (f : Field) (b : Bool) (r : HttpRequest)
    → is_host f.name ≡ false
    → ((add_header f (b, r)).0
        ≡ (if is_connection f.name then b else (if b then b else not (is_empty f.value))))
      × (find (codes "host") (add_header f (b, r)).1.headers ≡ find (codes "host") r.headers)
unfolding add_header set_header
add_header-host f b r h = (
  ground (arith, h),
  ground (arith, find-assign (codes "host") f.name f.value r.headers, same_name-host f.name h),
)

add_headers-host :
    (hs : List Field) (b : Bool) (r : HttpRequest)
    → NamesNoHost hs
    → ((add_headers hs (b, r)).0 ≡ b || any_value hs)
      × (find (codes "host") (add_headers hs (b, r)).1.headers ≡ find (codes "host") r.headers)
unfolding add_headers NamesNoHost
add_headers-host [] b r h = (ground arith, refl)
add_headers-host (f ∷ hs) b r h =
    let first = add_header-host f b r h.0 in
    let rest = add_headers-host hs (add_header f (b, r)).0 (add_header f (b, r)).1 h.1 in
    (ground (arith, first.0, rest.0), rest.1 ∙ first.1)

add_host-host :
    (host body : List ℕ) (state : Bool × HttpRequest)
    → find (codes "host") (add_host (codes "Host") host body state).headers
      ≡ (if state.0 then find (codes "host") state.1.headers else some host)
unfolding add_host set_header folded c_str to_lower
add_host-host host body state =
    ground (arith, find-assign (codes "host") (codes "Host") host state.1.headers, host_alike)
  where
    host_alike : same_name (codes "host") (codes "Host") ≡ true
    host_alike = refl

-- Of headers none of which is named host, HttpConnection makes a request that names the host of
-- the URI exactly if none of those that are sent has a value.
pub make_request-host :
    (method : ℕ) (uri : Uri) (headers : List Field) (body : List ℕ)
    → NamesNoHost headers
    → find (codes "host") (make_request method uri headers body).headers
      ≡ (if any_value headers then none else some uri.host)
unfolding make_request uri_request find
make_request-host method uri headers body h =
    let sent = add_headers-host headers false (uri_request method uri) h in
    add_host-host uri.host body (add_headers headers (false, uri_request method uri))
    ∙ ground (arith, sent.0, sent.1)
