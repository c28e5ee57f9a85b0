-- ===== src/HttpConnectionPool.antt =====
-- mingfwq/http/http_connection.h and mingfwq/http/http_connection.cpp: the pool that lends client
-- connections and takes them back.
--
-- A connection is at an address, and `next` is the address of the next new one. Whether a
-- connection is connected, `live`, and the clock are arguments of a call, as is how the calls of
-- the network go. m_maxAliveTime and m_maxRequest are the uint64_t that they are converted to, and
-- m_total has the bits of an int32_t. The loop of getConnection takes fuel for its rounds, and
-- the result `none` is that it is used up.
pub mod Search
pub mod Lending
mod Examples
use mingfwq.Prelude.{
  ℕ, zero, suc, ◌+◌, ◌-◌, ◌%◌, ◌^◌, Bool, true, false, not, ◌&&◌, ◌||◌, Option, none, some, List,
  [], ◌∷◌, ◌++◌, ltb, leb, ◌==◌, if◌then◌else◌, length,
}

-- The members of HttpConnection.
pub record Connection : Type 0 where
  pub create_time : ℕ
  pub request : ℕ

pub record HttpConnectionPool : Type 0 where
  pub connections : ℕ → Connection
  pub next : ℕ
  pub conns : List ℕ
  pub total : ℕ
  pub max_alive_time : ℕ
  pub max_request : ℕ

-- Whether LookupAnyIPAddress, CreateTCP and connect succeed.
pub record Dial : Type 0 where
  pub looked_up : Bool
  pub created : Bool
  pub connected : Bool

abbrev pub add32 : ℕ → ℕ → ℕ
add32 a b = (a + b) % 2 ^ 32

abbrev pub sub32 : ℕ → ℕ → ℕ
sub32 a b = (a + 2 ^ 32 - b % 2 ^ 32) % 2 ^ 32

-- m_createTime + m_maxAliveTime
abbrev pub expiry : HttpConnectionPool → ℕ → ℕ
expiry p c = ((p.connections c).create_time + p.max_alive_time) % 2 ^ 64

abbrev pub put : (ℕ → Connection) → ℕ → Connection → ℕ → Connection
put h a c b = if a == b then c else h b

-- The loop of getConnection over m_conns: invalid_conns, the connection, and what is left. An
-- invalid connection stays at the front.
pub search :
    ℕ → (ℕ → Bool) → ℕ → HttpConnectionPool → List ℕ → List ℕ → Option (List ℕ × Option ℕ × List ℕ)
search zero live now p conns invalid = none
search (suc fuel) live now p [] invalid = some (invalid, none, [])
search (suc fuel) live now p (c ∷ cs) invalid =
    let again = search fuel live now p (c ∷ cs) (invalid ++ c ∷ []) in
    if not (live c)
    then again
    else if ltb now (expiry p c)
    then again
    else some (invalid, some c, cs)

-- HttpConnectionPool::getConnection
pub get_connection :
    ℕ → (ℕ → Bool) → ℕ → Dial → HttpConnectionPool → Option (Option ℕ × HttpConnectionPool)
get_connection fuel live now dial p = elim (search fuel live now p p.conns []) [
  | none ↦ none
  | some r ↦
      let p' = record p { conns = r.2; total = sub32 p.total (length r.0) } in
      elim r.1 [
        | some c ↦ some (some c, p')
        | none ↦
            if dial.looked_up && dial.created && dial.connected
            then some (
              some p'.next,
              record p' {
                connections = put p'.connections p'.next (record { create_time = 0; request = 0 });
                next = p'.next + 1;
                total = add32 p'.total 1;
              },
            )
            else some (none, p')
      ]
]

-- HttpConnectionPool::ReleasePtr
pub release_ptr : (ℕ → Bool) → ℕ → ℕ → HttpConnectionPool → HttpConnectionPool
release_ptr live now a p =
    let c = p.connections a in
    let used = (c.request + 1) % 2 ^ 64 in
    let p' = record p { connections = put p.connections a (record c { request = used }) } in
    if not (live a) || leb now (expiry p a) || ltb p.max_request used
    then record p' { total = sub32 p.total 1 }
    else record p' { conns = p.conns ++ a ∷ [] }
