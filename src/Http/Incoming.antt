-- ===== src/Http/Incoming.antt =====
-- What HttpSession::recvRequest of mingfwq/http/http_session.cpp and HttpConnection::recvResponse of
-- mingfwq/http/http_connection.cpp do in the same way: the body behind a parsed head.
--
-- The buffer is a list of bytes, and its offset is an int that is not negative. `read` answers
-- the bytes, or `none` for the -1 of an error. The loops take fuel, a round for each read.
pub mod Bodies
use mingfwq.Prelude.{
  ℕ, ◌+◌, ◌-◌, ◌^◌, Bool, true, false, ◌||◌, Option, none, some, List, [], ◌∷◌, ◌++◌, ltb, leb,
  ◌==◌, if◌then◌else◌, length, take, drop, replicate,
}
use mingfwq.ByteArray.{overwrite}
use mingfwq.Stream.{Outcome, returned, read_fix_size}

-- What a receiving function returns: the message, a null pointer after close(); or a call leaves the
-- buffer, or the fuel is used up.
pub data Reply (M S : Type 0) : Type 0 where
  message : M → S → Reply M S
  closed : S → Reply M S
  overrun : Reply M S
  unfinished : Reply M S

-- if(len <= 0) after a read, and what follows.
abbrev pub on_bytes {ℓ} : {H : Type ℓ} → Option (List ℕ) → H → (List ℕ → H) → H
on_bytes none stop go = stop
on_bytes (some []) stop go = stop
on_bytes (some (b ∷ bs)) stop go = go (b ∷ bs)

-- memmove(data, data + from, count), `none` where it leaves the buffer.
unfoldable pub memmove : List ℕ → ℕ → ℕ → Option (List ℕ)
memmove buffer from count =
    if leb (from + count) (length buffer)
    then some (overwrite buffer 0 (take count (drop from buffer)))
    else none

-- int64_t length > 0, of the bits of a uint64_t.
abbrev pub is_positive : ℕ → Bool
is_positive n = if n == 0 then false else ltb n (2 ^ 63)

module _ {M S : Type 0} (set_body : List ℕ → M → M) where
  -- What readFixSize into the end of the body leads to.
  unfoldable pub fill_body : List ℕ → M → Outcome S → Reply M S
  fill_body front m (returned rt back s) =
      if (rt == 0) || leb (2 ^ 31) rt then closed s else message (set_body (front ++ back) m) s
  fill_body front m Outcome.overrun = overrun
  fill_body front m Outcome.unfinished = unfinished

module _ {M S : Type 0} (read : S → ℕ → Option (List ℕ) × S) (set_body : List ℕ → M → M) where
  -- The body of `total` bytes, as getContentLength gives it, the first `offset` of which are at
  -- the front of the buffer.
  unfoldable pub receive_body : ℕ → ℕ → List ℕ → ℕ → M → S → Reply M S
  unfolding fill_body
  receive_body fuel total buffer offset m s =
      if is_positive total
      then (if ltb offset total
          then fill_body set_body (take offset buffer) m
              (read_fix_size read fuel (total - offset) (replicate (total - offset) 0) s)
          else message m s)
      else message m s
