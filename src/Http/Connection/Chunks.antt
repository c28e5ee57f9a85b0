-- ===== src/Http/Connection/Chunks.antt =====
-- A chunk of a response in mingfwq/http/http_connection.cpp over a stream that does not fail.
use mingfwq.Prelude.{
  ℕ, zero, suc, ◌+◌, ◌-◌, ◌≤◌, ◌<◌, ◌≡◌, refl, sym, ap, subst, ◌∙◌, inl, inr, true, Option, some,
  List, [], ◌∷◌, ◌++◌, append_assoc, append-nil, leb, leb→le, min, ◌==◌, length, length-append,
  take, drop, length-take, length-drop, take-append-drop, take-take, take-drop, take-length_append,
  arith, Bool-cases,
}
use mingfwq.ByteArray.{overwrite}
use mingfwq.Stream.Reading.{IsSource}
use mingfwq.Http.Incoming.{closed, memmove, on_bytes}
use mingfwq.Http.Connection.{Parser, Chunk, taken, failed, read_left, take_chunk}

module _ {S : Type 0} (pending : S → List ℕ) where
  -- `ahead` are the bytes of the buffer and `s` the stream: the chunk is the next `size` bytes of both
  -- together, and what is left of the buffer and of the stream follows it; or they end first.
  pub data Cut (size : ℕ) (ahead body : List ℕ) (s : S) : Chunk S → Type 0 where
    whole :
        (chunk buffer : List ℕ) (left : ℕ) (after : S)
        → length chunk ≡ size
        → ahead ++ pending s ≡ chunk ++ (take left buffer ++ pending after)
        → Cut size ahead body s (taken (body ++ chunk) buffer left after)
    short :
        (got : List ℕ) (after : S)
        → length got < size
        → ahead ++ pending s ≡ got ++ pending after
        → Cut size ahead body s (failed (closed after))

  Cut-prepend :
      (n total : ℕ) (front ahead body : List ℕ) (s s' : S) (c : Chunk S)
      → length front + n ≡ total
      → ahead ++ pending s ≡ front ++ pending s'
      → Cut n [] (body ++ front) s' c
      → Cut total ahead body s c
  Cut-prepend n total front ahead body s s' c l e (whole chunk buffer left after k d) =
      rw (append_assoc body front chunk) (
        whole (front ++ chunk) buffer left after (omega (arith, l, k, length-append front chunk)) (
          e
          ∙ ap (λ t. front ++ t) d
          ∙ sym (append_assoc front chunk (take left buffer ++ pending after))))
  Cut-prepend n total front ahead body s s' c l e (short got after k d) =
      short (front ++ got) after (omega (arith, l, k, length-append front got))
        (e ∙ ap (λ t. front ++ t) d ∙ sym (append_assoc front got (pending after)))

-- What memmove moves to the front of a buffer of `len` bytes.
take_split :
    (buffer : List ℕ) (size len : ℕ)
    → size ≤ len
    → take len buffer ≡ take size buffer ++ take (len - size) (drop size buffer)
take_split buffer size len h =
    let all : size + (len - size) ≡ len = omega (arith, h) in
    sym (take-append-drop size (take len buffer))
    ∙ ap (λ t. t ++ drop size (take len buffer)) (take-take size len buffer h)
    ∙ ap (λ t. take size buffer ++ t)
        (ap (λ n. drop size (take n buffer)) (sym all) ∙ sym (take-drop (len - size) size buffer))

memmove_front :
    (buffer : List ℕ) (size len : ℕ)
    → size ≤ len
    → len ≤ length buffer
    → (moved : List ℕ) × ((memmove buffer size (len - size) ≡ some moved)
        × (take len buffer ≡ take size buffer ++ take (len - size) moved))
unfolding memmove
memmove_front buffer size len h l =
    let part : List ℕ = take (len - size) (drop size buffer) in
    let fits : leb (size + (len - size)) (length buffer) ≡ true = ground (arith, h, l) in
    let long : length part ≡ len - size =
      length-take (len - size) (drop size buffer) ∙ omega (arith, h, l, length-drop size buffer) in
    (
      overwrite buffer 0 part,
      (
        rw fits refl,
        take_split buffer size len h
            ∙ ap (λ t. take size buffer ++ t)
                (sym (take-length_append part (drop (0 + length part) buffer))
                  ∙ ap (λ n. take n (part ++ drop (0 + length part) buffer)) long),
      ),
    )

module _ {P S : Type 0} (parser : Parser P) (read : S → ℕ → Option (List ℕ) × S)
    (pending : S → List ℕ) (source : IsSource read pending) where
  read_left-Cut :
      (fuel buff_size left : ℕ) (buffer body : List ℕ) (s : S)
      → left < fuel
      → Cut pending left [] body s (read_left parser read fuel buff_size left buffer body s)
  unfolding read_left
  read_left-Cut zero buff_size left buffer body s h = absurd (omega (arith, h))
  read_left-Cut (suc fuel) buff_size left buffer body s h = elim (Bool-cases (left == 0)) [
    | inl z ↦ let none_left : left ≡ 0 = ground (arith, z) in rw (read_left, z) (at_end none_left)
    | inr n ↦
        let (bs, e, size, next) = source s (min left buff_size) in
        rw (read_left, n, e)
          (round bs next (omega (arith, size)) (ground (arith, n)) (λ t some_bytes.
            read_left-Cut fuel buff_size (left - length t) (overwrite buffer 0 t) (body ++ t) s'
              (omega (arith, h, some_bytes))))
  ]
    where
      s' : S
      s' = (read s (min left buff_size)).1

      at_end : left ≡ 0 → Cut pending left [] body s (taken body buffer 0 s)
      at_end z =
          subst (λ b. Cut pending left [] body s (taken b buffer 0 s)) (append-nil body)
            (whole [] buffer 0 s (sym z) refl)

      round :
          (bs : List ℕ)
          → pending s ≡ bs ++ pending s'
          → length bs ≤ left
          → 0 < left
          → ((t : List ℕ)
              → (0 < length t) × (length t ≤ left)
              → Cut pending (left - length t) [] (body ++ t) s' (
                  read_left parser read fuel buff_size
                    (left - length t)
                    (overwrite buffer 0 t)
                    (body ++ t)
                    s'))
          → Cut pending left [] body s (
              on_bytes (some bs) (failed (closed s')) (λ t.
                read_left parser read fuel buff_size
                  (left - length t)
                  (overwrite buffer 0 t)
                  (body ++ t)
                  s'))
      round [] next size pos again = short [] s' pos next
      round (b ∷ t) next size pos again =
          Cut-prepend pending (left - length (b ∷ t)) left (b ∷ t) [] body s s' _
            (omega (arith, size)) next (again (b ∷ t) (omega arith, size))

  -- Over a stream that does not fail, with fuel above the size of a chunk of which `len` bytes are
  -- in the buffer: the body grows by exactly the next bytes of the buffer and of the stream behind
  -- it, as many as the size, and no byte after them is lost; or the stream ends first, and the
  -- connection is closed.
  pub take_chunk-Cut :
      (fuel buff_size : ℕ) (p : P) (buffer : List ℕ) (len : ℕ) (body : List ℕ) (s : S)
      → len ≤ length buffer
      → parser.content_len p < fuel
      → Cut pending
          (parser.content_len p)
          (take len buffer)
          body
          s
          (take_chunk parser read fuel buff_size p buffer len body s)
  unfolding take_chunk
  take_chunk-Cut fuel buff_size p buffer len body s l f =
      let size : ℕ = parser.content_len p in
      elim (Bool-cases (leb size len)) [
        | inl inside ↦
            let (moved, (e, d)) = memmove_front buffer size len (leb→le size len inside) l in
            rw (take_chunk, inside, e)
              (whole (take size buffer) moved (len - size) s
                (omega (arith, inside, l, length-take size buffer, leb→le size len inside))
                (ap (λ t. t ++ pending s) d
                  ∙ append_assoc (take size buffer) (take (len - size) moved) (pending s)))
        | inr beyond ↦
            rw (take_chunk, beyond)
              (Cut-prepend pending (size - len) size (take len buffer) (take len buffer) body s s _
                (ground (arith, beyond, l, length-take len buffer)) refl
                (read_left-Cut fuel buff_size (size - len) buffer (body ++ take len buffer) s
                  (omega (arith, f))))
      ]
