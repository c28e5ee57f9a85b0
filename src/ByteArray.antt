-- ===== src/ByteArray.antt =====
-- mingfwq/bytearray.h and mingfwq/bytearray.cpp: the chain of memory blocks behind `ByteArray`
-- and the operations that move bytes through it. The typed reads and writes stand in the
-- children Fixed, Varint and Text.
--
-- A block is the list of its bytes, so `node->size` is its length, and the chain that starts at
-- `m_root` is the list of the blocks. `m_cur` is the index of a block, or `none` for a null
-- pointer. A walk by `cur = cur->next` is a recursion on the blocks from `cur` on, and reading
-- a field of a null `cur` is the fault `null_node`. Positions and sizes are unbounded numbers:
-- no `size_t` wraps while a position lies within the capacity, which `ByteArray.Invariant` keeps.
pub mod Chain
pub mod Invariant
pub mod Capacity
pub mod Write
pub mod Read
pub mod Seek
pub mod Ahead
pub mod Fixed
pub mod Varint
pub mod Text
mod Samples
mod Examples
use mingfwq.Prelude.{
  ◌≡◌, refl, ℕ, zero, suc, ◌+◌, ◌-◌, ◌/◌, ◌%◌, Bool, true, false, Option, none, some, List, [], ◌∷◌,
  ◌++◌, ltb, leb, ◌==◌, if◌then◌else◌, length, take, drop, replicate,
}

pub data Endian : Type 0 where
  little big : Endian

-- `out_of_range` is the exception std::out_of_range; the others are undefined behaviour:
-- a null block is dereferenced, an array on the stack is overrun, a length wraps below zero.
pub data Fault : Type 0 where
  out_of_range null_node overrun bad_length : Fault

pub data Result {ℓ} (A : Type ℓ) : Type ℓ where
  ok : A → Result A
  fault : Fault → Result A

infixl 5 ◌>>=◌
abbrev pub ◌>>=◌ {ℓ κ} : {A : Type ℓ} {B : Type κ} → Result A → (A → Result B) → Result B
call >>= next = elim call [ fault f ↦ fault f | ok a ↦ next a ]

pub ok_of_bind {ℓ κ} :
    {A : Type ℓ} {B : Type κ} {b : B} (call : Result A) (next : A → Result B)
    → (call >>= next) ≡ ok b
    → (a : A) × (call ≡ ok a) × (next a ≡ ok b)
ok_of_bind (fault f) next e = cc
ok_of_bind (ok a) next e = (a, refl, e)

pub >>=-assoc {ℓ κ μ} :
    {A : Type ℓ} {B : Type κ} {C : Type μ} (m : Result A) (f : A → Result B) (g : B → Result C)
    → (m >>= λ a. f a >>= g) ≡ (m >>= f >>= g)
>>=-assoc (ok a) f g = refl
>>=-assoc (fault e) f g = refl

pub ok_value {ℓ κ} :
    {A : Type ℓ} {S : Type κ} {a b : A} {s t : S}
    → ◌≡◌ {A = Result (A × S)} (ok (a, s)) (ok (b, t))
    → a ≡ b
ok_value h = cc

abbrev pub deref {ℓ} : {A : Type ℓ} → Option A → Result A
deref none = fault null_node
deref (some a) = ok a

abbrev pub Node : Type 0
Node = List ℕ

-- `fill` is the byte that stands in memory fresh from `new char[]`; the code leaves it open.
pub record ByteArray : Type 0 where
  pub base_size : ℕ
  pub position : ℕ
  pub capacity : ℕ
  pub size : ℕ
  pub endian : Endian
  pub nodes : List Node
  pub cur : Option ℕ
  pub fill : ℕ

pub make : ℕ → ℕ → ByteArray
make base fill = record {
  base_size = base;
  position = 0;
  capacity = base;
  size = 0;
  endian = big;
  nodes = replicate base fill ∷ [];
  cur = some 0;
  fill = fill;
}

pub is_little_endian : ByteArray → Bool
is_little_endian ba = elim ba.endian [ little ↦ true | big ↦ false ]

pub set_is_little_endian : ByteArray → Bool → ByteArray
set_is_little_endian ba val =
    if val then record ba { endian = little } else record ba { endian = big }

abbrev pub read_size : ByteArray → ℕ
read_size ba = ba.size - ba.position

abbrev pub free_capacity : ByteArray → ℕ
free_capacity ba = ba.capacity - ba.position

-- The `for` loop of addCapacity: one block more at the end of the chain in each round.
pub append_nodes : ℕ → ByteArray → ByteArray
append_nodes zero ba = ba
append_nodes (suc count) ba = append_nodes count (record ba {
  nodes = ba.nodes ++ replicate ba.base_size ba.fill ∷ [];
  capacity = ba.capacity + ba.base_size;
})

abbrev pub blocks_needed : ByteArray → ℕ → ℕ
blocks_needed ba missing =
    missing / ba.base_size + (if ltb (free_capacity ba) (missing % ba.base_size) then 1 else 0)

-- `first` is null when no block was added.
abbrev pub first_added : ByteArray → ℕ → Option ℕ
first_added ba zero = none
first_added ba (suc count) = some (length ba.nodes)

pub add_capacity : ByteArray → ℕ → ByteArray
add_capacity ba size =
    if size == 0
    then ba
    else if ltb size (free_capacity ba)
    then ba
    else (let count = blocks_needed ba (size - free_capacity ba) in
        let grown = append_nodes count ba in
        if free_capacity ba == 0 then record grown { cur = first_added ba count } else grown)

-- memcpy(node + at, src, size)
abbrev pub overwrite : List ℕ → ℕ → List ℕ → List ℕ
overwrite node at src = take at node ++ (src ++ drop (at + length src) node)

-- `m_cur->next`, where `rest` is the chain behind the block `i`.
abbrev pub next_index : ℕ → List Node → Option ℕ
next_index i [] = none
next_index i (node ∷ rest) = some (i + 1)

-- `m_cur` after `size` bytes at `npos` of block `i`, which is `len` bytes long.
abbrev pub advance : ℕ → ℕ → ℕ → List Node → Option ℕ
advance i len end rest = if len == end then next_index i rest else some i

-- The loop of `write`, over the chain from `m_cur` on: the chain as written, and the new `m_cur`.
pub write_loop : List Node → ℕ → ℕ → List ℕ → Result (List Node × Option ℕ)
write_loop [] i npos buf = fault null_node
write_loop (node ∷ rest) i npos buf =
    let ncap = length node - npos in
    let more = write_loop rest (i + 1) 0 (drop ncap buf) in
    if leb (length buf) ncap
    then ok (overwrite node npos buf ∷ rest, advance i (length node) (npos + length buf) rest)
    else (more >>= λ r. ok (overwrite node npos (take ncap buf) ∷ r.0, r.1))

-- The state behind the loop of `write`: the chain, `m_cur`, `m_position`, and `m_size` raised.
abbrev pub written : ByteArray → ℕ → ℕ → List Node × Option ℕ → ByteArray
written ba i n r = record ba {
  nodes = take i ba.nodes ++ r.0;
  cur = r.1;
  position = ba.position + n;
  size = if ltb ba.size (ba.position + n) then ba.position + n else ba.size;
}

write_grown : ByteArray → List ℕ → Result ByteArray
write_grown ba buf = do
  i ← deref ba.cur
  r ← write_loop (drop i ba.nodes) i (ba.position % ba.base_size) buf
  ok (written ba i (length buf) r)

pub write : ByteArray → List ℕ → Result ByteArray
unfolding write_grown
write ba buf = if length buf == 0 then ok ba else write_grown (add_capacity ba (length buf)) buf

-- The loop of both `read`s: the bytes, and where `m_cur` ends.
pub read_loop : List Node → ℕ → ℕ → ℕ → Result (List ℕ × Option ℕ)
read_loop [] i npos n = fault null_node
read_loop (node ∷ rest) i npos n =
    let ncap = length node - npos in
    let more = read_loop rest (i + 1) 0 (n - ncap) in
    if leb n ncap
    then ok (take n (drop npos node), advance i (length node) (npos + n) rest)
    else (more >>= λ r. ok (take ncap (drop npos node) ++ r.0, r.1))

-- The walk of both `read`s. `m_cur->size` is read before the loop is entered, and a loop of
-- no rounds leaves `m_cur` as it is.
pub read_from : ByteArray → ℕ → ℕ → Result (List ℕ × Option ℕ)
read_from ba n position = do
  i ← deref ba.cur
  (if n == 0 then ok ([], some i) else read_loop (drop i ba.nodes) i (position % ba.base_size) n)

-- read(buf, size)
pub read : ByteArray → ℕ → Result (List ℕ × ByteArray)
read ba n =
    if ltb (read_size ba) n
    then fault out_of_range
    else (read_from ba n ba.position >>= λ r.
        ok (r.0, record ba { cur = r.1; position = ba.position + n }))

-- read(buf, size, position) const
pub read_at : ByteArray → ℕ → ℕ → Result (List ℕ)
read_at ba n position =
    if ltb (read_size ba) n then fault out_of_range else (read_from ba n position >>= λ r. ok r.0)

-- The two tests of setPosition that move `m_cur`, over the chain from `m_root` on.
pub seek : List Node → ℕ → ℕ → Result (Option ℕ)
seek [] i v = fault null_node
seek (node ∷ rest) i v =
    let more = seek rest (i + 1) (v - length node) in
    if ltb (length node) v
    then more
    else if v == length node
    then ok (next_index i rest)
    else ok (some i)

pub set_position : ByteArray → ℕ → Result ByteArray
set_position ba v =
    if ltb ba.capacity v
    then fault out_of_range
    else (seek ba.nodes 0 v >>= λ c.
        ok (record ba { position = v; size = if ltb ba.size v then v else ba.size; cur = c }))

pub clear : ByteArray → ByteArray
clear ba = record ba {
  position = 0;
  size = 0;
  capacity = ba.base_size;
  nodes = take 1 ba.nodes;
  cur = some 0;
}

-- toString
pub to_string : ByteArray → Result (List ℕ)
to_string ba = if read_size ba == 0 then ok [] else read_at ba (read_size ba) ba.position
