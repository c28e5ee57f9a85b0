-- ===== src/ByteArray/Write/Loop.antt =====
-- The loop of ByteArray::write in mingfwq/bytearray.cpp, over the chain from `m_cur` on.
use mingfwq.Prelude.{
  ℕ, suc, ◌+◌, ◌-◌, ◌≤◌, ◌<◌, ◌≡◌, refl, sym, ap, ◌∙◌, arith, Option, some, inl, inr, List, [], ◌∷◌,
  ◌++◌, leb, ◌==◌, if◌then◌else◌, length, take, drop, length-append, length-take, length-drop,
  Bool-cases, false, leb→le, lt→not_leb,
}
use native.Mathlib.Nat.{div-eq_of_lt, div_self, add-div_left}
use mingfwq.ByteArray.{Node, ok, fault, null_node, write_loop, overwrite, next_index, advance}
use mingfwq.ByteArray.Invariant.{cur_from}
use mingfwq.ByteArray.Chain.{
  concat, AllLong, length-overwrite, overwrite-append_left, overwrite_split,
}

-- One block: the walk ends in it or at its end.
pub advance-cur_from :
    (b i e : ℕ) (rest : List Node)
    → 0 < b
    → e ≤ b
    → (if b == e then next_index i rest else some i) ≡ cur_from b i (suc (length rest)) e
advance-cur_from b i e [] hb h = ground (arith, div-eq_of_lt {n = e} {m = b}, div_self {n = b} hb)
advance-cur_from b i e (r ∷ rest) hb h =
    ground (arith, div-eq_of_lt {n = e} {m = b}, div_self {n = b} hb)

-- The block that the walk leaves behind.
pub cur_from-suc : (b i k e : ℕ) → 0 < b → cur_from b (i + 1) k e ≡ cur_from b i (suc k) (b + e)
cur_from-suc b i k e hb = rw (add-div_left e hb) (ground arith)

-- What the loop of `write` returns for a chain `chain` from block `i` on.
pub record Wrote (b i npos : ℕ) (chain : List Node) (buf : List ℕ) (r : List Node × Option ℕ)
    : Type 0 where
  pub bytes : concat r.0 ≡ overwrite (concat chain) npos buf
  pub blocks : AllLong b r.0
  pub same_length : length r.0 ≡ length chain
  pub cursor : r.1 ≡ cur_from b i (length chain) (npos + length buf)

pub write_loop-Wrote :
    (b i npos : ℕ) (chain : List Node) (buf : List ℕ)
    → 0 < b
    → AllLong b chain
    → npos < b
    → 0 < length buf
    → npos + length buf ≤ length (concat chain)
    → (r : List Node × Option ℕ) × (write_loop chain i npos buf ≡ ok r) × Wrote b i npos chain buf r
unfolding write_loop
write_loop-Wrote b i npos [] buf hb hc hn hl h = absurd (omega arith)
write_loop-Wrote b i npos (node ∷ rest) buf hb hc hn hl h =
    elim (Bool-cases (leb (length buf) (length node - npos))) [
      | inl e ↦ (
        (overwrite node npos buf ∷ rest, advance i (length node) (npos + length buf) rest),
        rw e,
        in_block (leb→le _ _ e),
      )
      | inr e ↦
          let (r, returns, w) =
            write_loop-Wrote b (i + 1) 0 rest (drop (length node - npos) buf) hb hc.1 hb
              (omega (arith, left, beyond e)) (omega (arith, left, total)) in
          (
            (overwrite node npos (take (length node - npos) buf) ∷ r.0, r.1),
            rw (e, returns),
            record {
              bytes = rw w.bytes (
                  overwrite_split node (concat rest) buf npos (omega (arith, hc.0))
                    (omega (arith, beyond e)));
              blocks = (
                length-overwrite node (take (length node - npos) buf) npos
                      (omega (arith, hc.0, length-take (length node - npos) buf))
                    ∙ hc.0,
                w.blocks,
              );
              same_length = ap suc w.same_length;
              cursor =
                  w.cursor
                  ∙ cur_from-suc b i (length rest) _ hb
                  ∙ ap (cur_from b i (suc (length rest))) (omega (arith, left, beyond e, hc.0));
            },
          )
    ]
  where
    left : length (drop (length node - npos) buf) ≡ length buf - (length node - npos)
    left = length-drop (length node - npos) buf

    total : length (node ++ concat rest) ≡ length node + length (concat rest)
    total = length-append node (concat rest)

    beyond : leb (length buf) (length node - npos) ≡ false → length node - npos < length buf
    beyond e = ground arith

    in_block :
        length buf ≤ length node - npos
        → Wrote b i npos
            (node ∷ rest)
            buf
            (overwrite node npos buf ∷ rest, advance i (length node) (npos + length buf) rest)
    in_block p = record {
      bytes = sym (overwrite-append_left node (concat rest) buf npos (omega (arith, hc.0)));
      blocks = (length-overwrite node buf npos (omega (arith, hc.0)) ∙ hc.0, hc.1);
      same_length = refl;
      cursor = rw hc.0 (advance-cur_from b i (npos + length buf) rest hb (omega (arith, hc.0)));
    }

-- A request past the end of the chain runs into the null pointer behind the last block.
pub write_loop_short :
    (b i npos : ℕ) (chain : List Node) (buf : List ℕ)
    → AllLong b chain
    → npos < b
    → length (concat chain) < npos + length buf
    → write_loop chain i npos buf ≡ fault null_node
unfolding write_loop
write_loop_short b i npos [] buf hc hn h = refl
write_loop_short b i npos (node ∷ rest) buf hc hn h =
    rw
      (
        lt→not_leb (length buf) (length node - npos)
            (omega (arith, length-append node (concat rest))),
        write_loop_short b (i + 1) 0 rest (drop (length node - npos) buf) hc.1 (omega arith)
            (omega (arith, length-append node (concat rest), length-drop (length node - npos) buf)),
      )
      refl
