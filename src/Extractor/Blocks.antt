-- ===== src/Extractor/Blocks.antt =====
-- The blocks that iperf2-code/src/Extractor.c reads of a file.
use flexfcapf.Prelude.{
  ℕ, zero, suc, ◌^◌, ◌≤◌, ◌<◌, ◌≡◌, refl, ap, sym, ◌∙◌, Bool, true, false, not, Option, none, some,
  List, [], ◌∷◌, ◌++◌, ltb, length, take, drop, take-append-drop, length-take, length-drop, Returns,
  subst, elim_intro, arith,
}
use flexfcapf.Prelude.Int.{ℤ, pos, to_unsigned}
use flexfcapf.Extractor.{Extractor, can_read, fread, get_next_data_block, extractor_initialize_file}

-- The blocks as the loop of a client reads them: one after the other as long as `canRead` holds, with as many rounds as
-- `fuel`; nothing if that is not enough.
unfoldable pub read_all : (fuel : ℕ) → Extractor → Option (List (List ℕ))
read_all zero x = none
read_all (suc fuel) x =
    let (block, y) = get_next_data_block x in
    let later = read_all fuel y in
    elim (can_read y) [
      | true ↦ elim later [ none ↦ none | some blocks ↦ some (block ∷ blocks) ]
      | false ↦ some (block ∷ [])
    ]

abbrev pub joined : List (List ℕ) → List ℕ
joined [] = []
joined (b ∷ bs) = b ++ joined bs

-- Every block but the last one is full, and the last one is not.
abbrev pub IsBlocked : ℕ → List (List ℕ) → Type 0
IsBlocked n [] = ⊥
IsBlocked n (b ∷ []) = length b < n
IsBlocked n (b ∷ c ∷ bs) = (length b ≡ n) × IsBlocked n (c ∷ bs)

take_short : (n : ℕ) (l : List ℕ) → length l < n → take n l ++ [] ≡ l
take_short zero l h = absurd (omega arith)
take_short (suc n) [] h = refl
take_short (suc n) (x ∷ l) h = ap (λ r. x ∷ r) (take_short n l (omega arith))

IsBlocked-cons :
    (n : ℕ) (b : List ℕ) (bs : List (List ℕ)) → length b ≡ n → IsBlocked n bs → IsBlocked n (b ∷ bs)
IsBlocked-cons n b [] e h = absurd h
IsBlocked-cons n b (c ∷ bs) e h = (e, h)

-- The blocks of what is left.
abbrev pub BlocksOf : ℕ → List ℕ → List (List ℕ) → Type 0
BlocksOf n l bs = (joined bs ≡ l) × IsBlocked n bs

one_more :
    (n : ℕ) (l b r : List ℕ) (o : Option (List (List ℕ)))
    → b ++ r ≡ l
    → length b ≡ n
    → Returns (BlocksOf n r) o
    → Returns (BlocksOf n l) (elim o [ none ↦ none | some blocks ↦ some (b ∷ blocks) ])
one_more n l b r none e k h = absurd h
one_more n l b r (some bs) e k h = (ap (λ t. b ++ t) h.0 ∙ e, IsBlocked-cons n b bs k h.1)

not_short : (b : Bool) → not b ≡ true → b ≡ false
not_short b h = ground arith

read_all_left :
    (fuel : ℕ) (l : List ℕ) (size : ℤ)
    → 0 < to_unsigned 64 size
    → length l < fuel
    → Returns
        (BlocksOf (to_unsigned 64 size) l)
        (read_all fuel (record { file = some (record { left = l; eof = false }); size = size }))
unfolding read_all get_next_data_block can_read fread
read_all_left zero l size p h = absurd (omega arith)
read_all_left (suc fuel) l size p h =
    let n = to_unsigned 64 size in
    elim_intro (Returns (BlocksOf n l)) (not (ltb (length l) n))
      (λ q.
        let full : n ≤ length l = ground arith in
        one_more n l (take n l) (drop n l) _ (take-append-drop n l) (omega (arith, length-take n l))
          (subst
            (λ e. Returns (BlocksOf n (drop n l)) (
              read_all fuel
                (record { file = some (record { left = drop n l; eof = e }); size = size })))
            (sym (not_short (ltb (length l) n) q))
            (read_all_left fuel (drop n l) size p (omega (arith, length-drop n l)))))
      (λ q.
        let short : length l < n = ground arith in
        (take_short n l short, omega (arith, length-take n l)))

size_small : (n : ℕ) → n < 2 ^ 64 → to_unsigned 64 (pos n) ≡ n
size_small n h = ground arith

-- With enough rounds, the blocks that a client reads of a file, from its beginning and until `canRead` no longer holds, put
-- together are the contents of the file; all of them but the last are of the size that was asked for, and the last one is
-- shorter.
pub read_all-blocks :
    (fuel size : ℕ) (contents : List ℕ) (x : Extractor)
    → 0 < size
    → size < 2 ^ 31
    → length contents < fuel
    → Returns (BlocksOf size contents) (
        read_all fuel
          (extractor_initialize_file (record { left = contents; eof = false }) (pos size) x))
unfolding extractor_initialize_file
read_all-blocks fuel size contents x p m h =
    let same = size_small size (omega arith) in
    subst
      (λ n. Returns (BlocksOf n contents) (
        read_all fuel
          (record { file = some (record { left = contents; eof = false }); size = pos size })))
      same (read_all_left fuel contents (pos size) (omega (arith, same)) h)
