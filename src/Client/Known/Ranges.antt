-- ===== src/Client/Known/Ranges.antt =====
-- src/relayclient/KnownRelaysManager.ts: the blocks that the parts of `splitRange` cover.
use native.Mathlib.Nat.{le-div_iff_mul-le, mod-eq-sub-mod, mod-eq_of_lt}
use rif_relay.Base.{
  Bool, Bool-cases, List, [], arith, if◌then◌else◌, inl, inr, leb, ltb, refl, suc, zero, ℕ, ◌%◌,
  ◌&&◌, ◌+◌, ◌-◌, ◌<◌, ◌==◌, ◌||◌, ◌∷◌, ◌≡◌, ◌≤◌,
}
use rif_relay.Client.Known.{Range, ceil_div, split_from, split_range}

abbrev pub contains : ℕ → Range → Bool
contains x r = leb r.from_block x && leb x r.to_block

-- How many of the parts contain a block.
unfoldable pub count_of : ℕ → List Range → ℕ
count_of x [] = 0
count_of x (r ∷ rs) = (if contains x r then 1 else 0) + count_of x rs

-- Below the last block, each block from `b` on is in one part, and no other block is in any.
count-split_from :
    (fuel b to_block k x : ℕ)
    → to_block - b ≤ fuel
    → x < to_block
    → count_of x (split_from fuel b to_block (k + 1)) ≡ (if leb b x then 1 else 0)
unfolding count_of split_from
count-split_from zero b to_block k x enough h = ground arith
count-split_from (suc fuel) b to_block k x enough h =
    ground (arith, count-split_from fuel (b + (k + 1)) to_block k x (omega arith) h)

count-split_from_after :
    (fuel b to_block k x : ℕ) → to_block < x → count_of x (split_from fuel b to_block (k + 1)) ≡ 0
unfolding count_of split_from
count-split_from_after zero b to_block k x h = ground arith
count-split_from_after (suc fuel) b to_block k x h =
    ground (arith, count-split_from_after fuel (b + (k + 1)) to_block k x h)

count-split_from_past :
    (fuel b to_block k : ℕ)
    → to_block < b
    → count_of to_block (split_from fuel b to_block (k + 1)) ≡ 0
unfolding count_of split_from
count-split_from_past zero b to_block k h = refl
count-split_from_past (suc fuel) b to_block k h = ground arith

count-split_from_last :
    (fuel b to_block k : ℕ)
    → to_block - b ≤ fuel
    → b ≤ to_block
    → count_of to_block (split_from fuel b to_block (k + 1))
      ≡ (if (to_block - b) % (k + 1) == 0 then 0 else 1)
unfolding count_of split_from
count-split_from_last zero b to_block k enough h = ground arith
count-split_from_last (suc fuel) b to_block k enough h = elim (Bool-cases (ltb b to_block)) [
  | inr e ↦ ground (arith, e)
  | inl e ↦ elim (Bool-cases (leb (b + (k + 1)) to_block)) [
    | inr f ↦
        let short : to_block - b < k + 1 = ground arith in
        ground (
          arith,
          e,
          f,
          mod-eq_of_lt short,
          count-split_from_past fuel (b + (k + 1)) to_block k (omega arith),
        )
    | inl f ↦
        let long : k + 1 ≤ to_block - b = ground arith in
        ground (
          arith,
          e,
          f,
          mod-eq-sub-mod long,
          count-split_from_last fuel (b + (k + 1)) to_block k (omega arith) (omega arith),
        )
  ]
]

-- What `split_from` covers, for parts of at least one block.
split_from-covers :
    (from_block to_block size x : ℕ)
    → 1 ≤ size
    → from_block ≤ to_block
    → count_of x (split_from (to_block - from_block) from_block to_block size) ≡ (
        if ltb x from_block || ltb to_block x
        then 0
        else if x == to_block && (to_block - from_block) % size == 0
        then 0
        else 1)
split_from-covers from_block to_block zero x h le = absurd (omega arith)
split_from-covers from_block to_block (suc k) x h le = ground (
  arith,
  count-split_from (to_block - from_block) from_block to_block k x (omega arith),
  count-split_from_after (to_block - from_block) from_block to_block k x,
  count-split_from_last (to_block - from_block) from_block to_block k (omega arith) le,
)

-- With at least one part asked for and `from_block` at most `to_block`: each block from
-- `from_block` up to but without `to_block` is in exactly one part; `to_block` is in one, but in
-- none where the size of the parts divides the distance; and no other block is in any.
pub split_range-covers :
    (from_block to_block splits x : ℕ)
    → 1 ≤ splits
    → from_block ≤ to_block
    → count_of x (split_range from_block to_block splits) ≡ (
        if ltb x from_block || ltb to_block x
        then 0
        else if x == to_block
            && (to_block - from_block) % ceil_div (to_block - from_block + 1) splits == 0
        then 0
        else 1)
unfolding split_range
split_range-covers from_block to_block splits x h le =
    split_from-covers from_block to_block _ x ((le-div_iff_mul-le h).1 (omega arith)) le
