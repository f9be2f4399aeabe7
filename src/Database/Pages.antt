-- ===== src/Database/Pages.antt =====
-- `PaginateRequest`: the pages divide the rows.
use distributed_math_arh.Prelude.{ℕ, zero, suc, ◌+◌, ◌*◌, ◌<◌, ◌≡◌, arith, u64, sub64}
use distributed_math_arh.Database.{page_offset}

-- Below the machine's limit, page 1 starts at the first row, and each page starts a page's size after
-- the one before.
pub page_offset_next :
    (page_num page_size : ℕ)
    → 0 < page_num
    → page_num < u64
    → page_num * page_size < u64
    → (page_offset 1 page_size ≡ 0)
      × (page_offset (page_num + 1) page_size ≡ page_offset page_num page_size + page_size)
unfolding page_offset
page_offset_next (suc p) size pos small fits =
    let same : sub64 (suc p) 1 ≡ p = omega arith in
    let next : sub64 (suc p + 1) 1 ≡ suc p = omega arith in
    let more : suc p * size ≡ p * size + size = omega arith in
    (omega arith, rw (same, next) (omega (arith, more, fits)))
page_offset_next zero size pos small fits = absurd (omega arith)
