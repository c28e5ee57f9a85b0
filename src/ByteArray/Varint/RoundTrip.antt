-- ===== src/ByteArray/Varint/RoundTrip.antt =====
-- writeUint32 to readInt64 of mingfwq/bytearray.cpp: what the writes put on the wire, and what the
-- reads make of it.
use mingfwq.Prelude.{
  ℕ, zero, suc, ◌+◌, ◌*◌, ◌/◌, ◌%◌, ◌^◌, ◌≤◌, ◌<◌, ◌≡◌, sym, ap, ◌∙◌, arith, List, [], ◌∷◌, ◌++◌,
  ltb, if◌then◌else◌, length, bit_and, bit_or, bit_or-shift, bit_and_127, bit_or_128, Bool-cases,
  inl, inr, le→leb, ltb→lt, le→not_ltb, lt→not_leb, true, false,
}
use native.Mathlib.Nat.{pow-suc, mod-eq_of_lt, mod-lt, mod-mod, add-mod_right, div-add-mod}
use native.Mathlib.Numerals.{towards_suc}
use mingfwq.ByteArray.{ByteArray, ok}
use mingfwq.ByteArray.Fixed.RoundTrip.{next_byte}
use mingfwq.ByteArray.Varint.{varint_loop, read_groups}
use mingfwq.ByteArray.Invariant.{IsValid}
use mingfwq.ByteArray.Ahead.{ahead}

-- The groups of seven bits of a value below 128 ^ slots, lowest first.
pub groups : ℕ → ℕ → List ℕ
groups zero v = []
groups (suc slots) v =
    let rest = groups slots (v / 128) in if ltb v 128 then v ∷ [] else (v % 128 + 128) ∷ rest

-- A byte with a further one behind it.
marked : (v : ℕ) → bit_or (bit_and v 0x7F) 0x80 % 256 ≡ v % 128 + 128
marked v =
    ap (λ t. bit_or t 128 % 256) (bit_and_127 v)
    ∙ ap (λ t. t % 256) (bit_or_128 (v % 128) (omega arith))
    ∙ omega arith

more_slots : (slots v : ℕ) → v < 128 ^ suc slots → 128 ≤ v → 0 < slots
more_slots zero v h p = absurd (omega arith)
more_slots (suc slots) v h p = omega arith

-- The loop of the compressed writes stays inside `tmp` whenever the value fits its groups.
pub varint_loop_lem :
    (slots v : ℕ) → v < 128 ^ slots → 0 < slots → varint_loop slots v ≡ ok (groups slots v)
unfolding varint_loop groups
varint_loop_lem zero v h p = absurd (omega arith)
varint_loop_lem (suc slots) v h p = elim (Bool-cases (ltb v 128)) [
  | inl e ↦
      rw (e, lt→not_leb 128 v (ltb→lt v 128 e))
        (ap (λ t. ok (t ∷ [])) (omega (arith, ltb→lt v 128 e)))
  | inr e ↦
      let long : 128 ≤ v = ground arith in
      rw (
        e,
        le→leb 128 v long,
        marked v,
        varint_loop_lem slots (v / 128) (omega (arith, pow-suc 128 slots))
            (more_slots slots v h long),
      )
]

pub length-groups : (slots v : ℕ) → length (groups slots v) ≤ slots
unfolding groups
length-groups zero v = omega arith
length-groups (suc slots) v = ground (arith, length-groups slots (v / 128))

groups_pos : (slots v : ℕ) → 0 < slots → 0 < length (groups slots v)
unfolding groups
groups_pos zero v h = h
groups_pos (suc slots) v h = ground arith

shift_seven : (i : ℕ) → 2 ^ (i + 7) ≡ 128 * 2 ^ i
shift_seven i = simp towards_suc (omega arith)

-- The value is its lowest group and the others, all shifted by `i`.
regroup : (v i : ℕ) → v * 2 ^ i ≡ v % 128 * 2 ^ i + v / 128 * 2 ^ (i + 7)
regroup v i = omega (
  arith,
  ap (λ (t : ℕ). t * 2 ^ i) (div-add-mod v 128),
  ap (λ (t : ℕ). v / 128 * t) (shift_seven i),
)

last_group :
    (w i result v : ℕ)
    → result < 2 ^ i
    → result + v * 2 ^ i < 2 ^ w
    → bit_or result (v * 2 ^ i % 2 ^ w) ≡ result + v * 2 ^ i
last_group w i result v h fits =
    ap (bit_or result) (mod-eq_of_lt (omega arith)) ∙ bit_or-shift i result v h

inner_group :
    (w i result v : ℕ)
    → result < 2 ^ i
    → result + v * 2 ^ i < 2 ^ w
    → bit_or result (bit_and (v % 128 + 128) 0x7F * 2 ^ i % 2 ^ w) ≡ result + v % 128 * 2 ^ i
inner_group w i result v h fits =
    ap (λ t. bit_or result (t * 2 ^ i % 2 ^ w))
      (bit_and_127 (v % 128 + 128) ∙ add-mod_right (v % 128) 128 ∙ mod-mod v 128)
    ∙ last_group w i result (v % 128) h (omega (arith, regroup v i))

below_next : (i result v : ℕ) → result < 2 ^ i → result + v % 128 * 2 ^ i < 2 ^ (i + 7)
below_next i result v h = grind (arith, shift_seven i, mod-lt v {m = 128} (omega arith))

groups_last : (slots v : ℕ) → ltb v 128 ≡ true → groups (suc slots) v ≡ v ∷ []
unfolding groups
groups_last slots v t = rw t

groups_more :
    (slots v : ℕ)
    → ltb v 128 ≡ false
    → groups (suc slots) v ≡ (v % 128 + 128) ∷ groups slots (v / 128)
unfolding groups
groups_more slots v t = rw t

-- The loop of the compressed reads adds up the groups ahead and stops behind them.
pub read_groups_lem :
    (w slots i result v : ℕ) (ba : ByteArray) (rest : List ℕ)
    → v < 128 ^ slots
    → 0 < slots
    → result < 2 ^ i
    → result + v * 2 ^ i < 2 ^ w
    → IsValid ba
    → ahead ba ≡ groups slots v ++ rest
    → (ba' : ByteArray) × (read_groups w slots i result ba ≡ ok (result + v * 2 ^ i, ba'))
      × IsValid ba'
      × (ahead ba' ≡ rest)
      × (ba'.position ≡ ba.position + length (groups slots v))
      × (ba'.endian ≡ ba.endian)
unfolding read_groups
read_groups_lem w zero i result v ba rest hv hp hr hw valid e = absurd (omega arith)
read_groups_lem w (suc slots) i result v ba rest hv hp hr hw valid e =
    elim (Bool-cases (ltb v 128)) [
      | inl t ↦
          let (ba', returns, valid', after, moved, order) =
            next_byte ba v rest valid (e ∙ ap (λ xs. xs ++ rest) (groups_last slots v t)) in
          (
            ba',
            rw (returns, t) (ap (λ u. ok (u, ba')) (last_group w i result v hr hw)),
            valid',
            after,
            moved ∙ ap (λ xs. ba.position + length xs) (sym (groups_last slots v t)),
            order,
          )
      | inr t ↦
          let long : 128 ≤ v = ground arith in
          let (ba1, first, valid1, after1, moved1, order1) =
            next_byte ba (v % 128 + 128) (groups slots (v / 128) ++ rest) valid
              (e ∙ ap (λ xs. xs ++ rest) (groups_more slots v t)) in
          let (ba2, returns, valid2, after2, moved2, order2) =
            read_groups_lem w slots (i + 7) (result + v % 128 * 2 ^ i) (v / 128) ba1 rest
              (omega (arith, pow-suc 128 slots)) (more_slots slots v hv long)
              (below_next i result v hr) (omega (arith, regroup v i)) valid1 after1 in
          (
            ba2,
            rw
                (
                  first,
                  le→not_ltb 128 (v % 128 + 128) (omega arith),
                  inner_group w i result v hr hw,
                  returns,
                )
                (ap (λ u. ok (u, ba2)) (omega (arith, regroup v i))),
            valid2,
            after2,
            omega (arith, moved1, moved2, ap length (groups_more slots v t)),
            order2 ∙ order1,
          )
    ]
