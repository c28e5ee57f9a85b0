-- ===== src/Uri.antt =====
-- mingfwq/uri.h and the functions of mingfwq/uri.rl.cpp behind the parser: a URI, its port, and its
-- text. m_port is a number that is not negative, as the parser sets it.
pub mod Ports
mod Examples
use mingfwq.Prelude.{
  is_empty, mark, ℕ, Bool, true, false, ◌||◌, List, [], ◌∷◌, ◌++◌, ◌==◌, if◌then◌else◌, codes, same,
}
use mingfwq.Prelude.Decimal.{decimal}

pub record Uri : Type 0 where
  pub scheme : List ℕ
  pub userinfo : List ℕ
  pub host : List ℕ
  pub path : List ℕ
  pub query : List ℕ
  pub fragment : List ℕ
  pub port : ℕ

abbrev is_plain : List ℕ → Bool
is_plain scheme = same scheme (codes "http") || same scheme (codes "ws")

abbrev is_secure : List ℕ → Bool
is_secure scheme = same scheme (codes "https") || same scheme (codes "wss")

-- isDefaultPort
pub is_default_port : Uri → Bool
is_default_port u =
    if u.port == 0
    then true
    else if is_plain u.scheme
    then u.port == 80
    else if is_secure u.scheme
    then u.port == 443
    else false

-- getPath
pub get_path : Uri → List ℕ
get_path u = if is_empty u.path then codes "/" else u.path

-- getPort
pub get_port : Uri → ℕ
get_port u =
    if u.port == 0
    then (if is_plain u.scheme then 80 else if is_secure u.scheme then 443 else u.port)
    else u.port

-- The path, the query and the fragment, as dump and HttpConnectionPool print them.
pub target : Uri → List ℕ
unfolding get_path
target u =
    get_path u
    ++ (mark (codes "?") u.query ++ (u.query ++ (mark (codes "#") u.fragment ++ u.fragment)))

-- dump and toString
pub uri_dump : Uri → List ℕ
unfolding is_default_port target
uri_dump u =
    u.scheme
    ++ (codes "://"
        ++ (u.userinfo
            ++ (mark (codes "@") u.userinfo
                ++ (u.host
                    ++ ((if is_default_port u then [] else codes ":" ++ decimal u.port)
                        ++ target u)))))
