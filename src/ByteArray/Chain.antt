-- ===== src/ByteArray/Chain.antt =====
-- The chain of blocks of mingfwq/bytearray.cpp as one run of bytes, and what the copies of
-- `write` and `read` do to it.
use mingfwq.Prelude.{
  ℕ, ◌+◌, ◌-◌, ◌*◌, ◌≤◌, ◌≡◌, refl, sym, ap, ◌∙◌, arith, List, [], ◌∷◌, ◌++◌, append-nil,
  append_assoc, ltb, if◌then◌else◌, length, take, drop, All, length-append, length-take,
  length-drop, drop-all, take-append_left, take-append_right, drop-append_left, drop-append_right,
  take-take, take-drop, take-append-drop, Bool-cases, inl, inr, ltb→lt,
}
use native.Mathlib.Nat.{add_assoc}
use mingfwq.ByteArray.{Node, overwrite}

abbrev pub concat : List Node → List ℕ
concat [] = []
concat (node ∷ rest) = node ++ concat rest

-- Every block is `b` bytes long.
abbrev pub AllLong : ℕ → List Node → Type 0
AllLong b = All (λ node. length node ≡ b)

pub length-concat : (b : ℕ) (ns : List Node) → AllLong b ns → length (concat ns) ≡ length ns * b
length-concat b [] h = omega arith
length-concat b (n ∷ ns) h = ground (arith, length-append n (concat ns), length-concat b ns h.1)

pub concat-append : (xs ys : List Node) → concat (xs ++ ys) ≡ concat xs ++ concat ys
concat-append [] ys = refl
concat-append (x ∷ xs) ys = rw (concat-append xs ys) (sym (append_assoc x (concat xs) (concat ys)))

pub length-overwrite :
    (xs buf : List ℕ) (k : ℕ) → k + length buf ≤ length xs → length (overwrite xs k buf) ≡ length xs
length-overwrite xs buf k h = omega (
  arith,
  length-append (take k xs) (buf ++ drop (k + length buf) xs),
  length-append buf (drop (k + length buf) xs),
  length-take k xs,
  length-drop (k + length buf) xs,
)

-- A copy that ends within the first part leaves the second.
pub overwrite-append_left :
    (xs ys buf : List ℕ) (k : ℕ)
    → k + length buf ≤ length xs
    → overwrite (xs ++ ys) k buf ≡ overwrite xs k buf ++ ys
overwrite-append_left xs ys buf k h = rw (
  take-append_left k xs ys (omega arith),
  drop-append_left (k + length buf) xs ys h,
  append_assoc (take k xs) (buf ++ drop (k + length buf) xs) ys,
  append_assoc buf (drop (k + length buf) xs) ys,
)

take_behind : (xs ys : List ℕ) (k : ℕ) → take (length xs + k) (xs ++ ys) ≡ xs ++ take k ys
take_behind xs ys k =
    take-append_right (length xs + k) xs ys (omega arith)
    ∙ ap (λ m. xs ++ take m ys) {x = length xs + k - length xs} (omega arith)

pub drop_behind : (xs ys : List ℕ) (k : ℕ) → drop (length xs + k) (xs ++ ys) ≡ drop k ys
drop_behind xs ys k =
    drop-append_right (length xs + k) xs ys (omega arith)
    ∙ ap (λ m. drop m ys) {x = length xs + k - length xs} (omega arith)

-- A copy that starts behind the first part leaves that.
pub overwrite-append_right :
    (xs ys buf : List ℕ) (k : ℕ)
    → overwrite (xs ++ ys) (length xs + k) buf ≡ xs ++ overwrite ys k buf
overwrite-append_right xs ys buf k =
    rw
      (
        take_behind xs ys k,
        add_assoc (length xs) k (length buf),
        drop_behind xs ys (k + length buf),
      )
      (append_assoc xs (take k ys) (buf ++ drop (k + length buf) ys))

-- A copy over the seam is one to the end of the first part and one from the start of the second.
pub overwrite_split :
    (xs ys buf : List ℕ) (k : ℕ)
    → k ≤ length xs
    → length xs - k ≤ length buf
    → overwrite xs k (take (length xs - k) buf) ++ overwrite ys 0 (drop (length xs - k) buf)
      ≡ overwrite (xs ++ ys) k buf
overwrite_split xs ys buf k h j =
    rw (none_left, append-nil, take-append_left k xs ys h, above, append_assoc)
      (ap (◌++◌ (take k xs)) (
        sym (append_assoc (take m buf) (drop m buf) behind)
        ∙ ap (λ l. l ++ behind) (take-append-drop m buf)))
  where
    m : ℕ
    m = length xs - k

    behind : List ℕ
    behind = drop (0 + length (drop m buf)) ys

    none_left : drop (k + length (take m buf)) xs ≡ []
    none_left = drop-all _ xs (omega (arith, length-take m buf))

    above : drop (k + length buf) (xs ++ ys) ≡ behind
    above =
        drop-append_right _ xs ys (omega arith)
        ∙ ap (λ i. drop i ys) {x = k + length buf - length xs} (omega (arith, length-drop m buf))

take_above :
    (xs buf : List ℕ) (k s : ℕ)
    → k ≤ length xs
    → k + length buf ≤ s
    → take s (overwrite xs k buf) ≡ take k xs ++ (buf ++ drop (k + length buf) (take s xs))
take_above xs buf k s h j =
    take-append_right s (take k xs) _ (omega (arith, length-take k xs))
    ∙ ap (◌++◌ (take k xs)) (
        take-append_right _ buf _ (omega (arith, length-take k xs))
        ∙ ap (◌++◌ buf) (
            take-drop _ (k + length buf) xs
            ∙ ap (λ m. drop (k + length buf) (take m xs))
                {x = k + length buf + (s - length (take k xs) - length buf)}
                (omega (arith, length-take k xs))))

-- What stands below the mark `s`, raised to the end of the copy.
pub take-overwrite :
    (xs buf : List ℕ) (k s : ℕ)
    → k ≤ s
    → s ≤ length xs
    → take (if ltb s (k + length buf) then k + length buf else s) (overwrite xs k buf)
      ≡ overwrite (take s xs) k buf
take-overwrite xs buf k s h j = elim (Bool-cases (ltb s (k + length buf))) [
  | inl e ↦
      rw (e, take-take k s xs h)
        (take_above xs buf k (k + length buf) (omega arith) (omega arith)
          ∙ ap (λ l. take k xs ++ (buf ++ l))
              (drop-all (k + length buf) (take (k + length buf) xs)
                  (omega (arith, length-take (k + length buf) xs))
                ∙ sym (
                    drop-all (k + length buf) (take s xs)
                      (omega (arith, length-take s xs, ltb→lt _ _ e)))))
  | inr e ↦ rw (e, take-take k s xs h) (take_above xs buf k s (omega arith) (ground arith))
]
