-- ===== src/Fs/Bitmaps/Sync.antt =====
-- The block bitmap on the disk: what is saved is what is loaded.
use Prim.Native.Nat.{min}
use crusader_os_v.Base.{
  ℕ, zero, suc, ◌+◌, ◌-◌, ◌*◌, ◌/◌, ◌%◌, ◌^◌, ◌≤◌, ◌<◌, ◌≡◌, ◌⊎◌, refl, ap, ◌∙◌, inl, ◌&&◌, arith,
  leb, ltb, if◌then◌else◌, dec_lt, ℕ_discrete,
}
use crusader_os_v.Bitmap.{Words}
use crusader_os_v.Disk.{Disk, Block, block_read, block_write}
use crusader_os_v.Disk.Laws.{block_read-block_write_self, block_read-block_write_ne}
use crusader_os_v.Fs.State.{Fs, sector_size}
use crusader_os_v.Fs.Bitmaps.{
  bitmap_sector, save_block_sectors, save_block_bitmap, load_block_sectors, load_block_bitmap,
}

-- The loop writes the sectors from `start + i` on, `n` of them.
pub save_block_sectors-frame :
    (bm : Words) (start n i left src : ℕ) (d : Disk) (a : ℕ)
    → start + i + n ≤ 2 ^ 28
    → a < 2 ^ 28
    → (a < start + i) ⊎ (start + i + n ≤ a)
    → block_read a (save_block_sectors bm start n i left src d) ≡ block_read a d
unfolding save_block_sectors
save_block_sectors-frame bm start zero i left src d a fits low out = refl
save_block_sectors-frame bm start (suc n) i left src d a fits low out =
    let tocopy = min sector_size left in
    let lba = (start + i) % 2 ^ 32 in
    save_block_sectors-frame bm start n (i + 1) (left - sector_size) (src + tocopy)
      (block_write lba (bitmap_sector bm src tocopy) d) a (omega arith) low (omega arith)
    ∙ block_read-block_write_ne a lba (bitmap_sector bm src tocopy) d (omega arith)

-- Where the loops stand after `i` rounds of `bytes` bytes: what is left, and the position in memory.
abbrev Stands : ℕ → ℕ → ℕ → ℕ → Type 0
Stands bytes i left at = (left ≡ bytes - 512 * i) × (at ≡ min (512 * i) bytes)

Stands-next :
    (bytes i : ℕ) {left at : ℕ}
    → Stands bytes i left at
    → Stands bytes (i + 1) (left - 512) (at + min 512 left)
Stands-next bytes i h = omega arith

bitmap_sector_lem :
    (bm : Words) (src tocopy k q : ℕ)
    → k < tocopy
    → src ≡ q * 512
    → bitmap_sector bm src tocopy k ≡ bm (q * 512 + k)
bitmap_sector_lem bm src tocopy k q l e = rw e (ground arith)

module _ (bytes : ℕ) (bm : Words) (start : ℕ) where
  save_block_sectors-read :
      (n i left src : ℕ) (d : Disk) (q k : ℕ)
      → start + i + n ≤ 2 ^ 28
      → Stands bytes i left src
      → i ≤ q
      → q < i + n
      → q * 512 + k < bytes
      → k < 512
      → block_read (start + q) (save_block_sectors bm start n i left src d) k ≡ bm (q * 512 + k)
  unfolding save_block_sectors
  save_block_sectors-read zero i left src d q k fits st lo hi inside within = absurd (omega arith)
  save_block_sectors-read (suc n) i left src d q k fits st lo hi inside within =
      let tocopy = min 512 left in
      let sector = bitmap_sector bm src tocopy in
      let lba = (start + i) % 2 ^ 32 in
      let d' = block_write lba sector d in
      elim (ℕ_discrete q i) [
        | yes e ↦
            let here : start + q ≡ lba = omega arith in
            ap (λ (b : Block). b k)
              (save_block_sectors-frame bm start n (i + 1) (left - 512) (src + tocopy) d'
                (start + q) (omega arith) (omega arith) (inl (omega arith)))
            ∙ ap (λ a. block_read a d' k) here
            ∙ ap (λ (b : Block). b k) (block_read-block_write_self lba sector d)
            ∙ bitmap_sector_lem bm src tocopy k q (omega arith) (omega arith)
        | no later ↦
            save_block_sectors-read n (i + 1) (left - 512) (src + tocopy) d' q k (omega arith)
              (Stands-next bytes i st) (omega arith) (omega arith) inside within
      ]

  -- The loop of `load_block_bitmap` at byte `j`.
  load_block_sectors_lem :
      (d : Disk) (n i left dst : ℕ) (old : Words) (j : ℕ)
      → start + i + n ≤ 2 ^ 28
      → Stands bytes i left dst
      → j < bytes
      → j < (i + n) * 512
      → load_block_sectors d start n i left dst old j
        ≡ (if ltb j (i * 512) then old j else block_read (start + j / 512) d (j % 512))
  unfolding load_block_sectors
  load_block_sectors_lem d zero i left dst old j fits st inside covered = ground arith
  load_block_sectors_lem d (suc n) i left dst old j fits st inside covered =
      let tocopy = min 512 left in
      let lba = (start + i) % 2 ^ 32 in
      let new : Words =
        λ j. if leb dst j && ltb j (dst + tocopy) then block_read lba d (j - dst) else old j in
      load_block_sectors_lem d n (i + 1) (left - 512) (dst + tocopy) new j (omega arith)
        (Stands-next bytes i st) inside (omega arith)
      ∙ elim (dec_lt j (i * 512)) [
        | yes done ↦ ground arith
        | no later ↦ elim (dec_lt j ((i + 1) * 512)) [
          | yes now ↦
              let e : lba ≡ start + j / 512 = omega arith in
              let o : j - dst ≡ j % 512 = omega arith in rw (← e, ← o) (ground arith)
          | no after ↦ ground arith
        ]
      ]

-- The bitmap area holds the bitmap: it is large enough, and the drive can address it.
pub record HasRoom (s : Fs) : Type 0 where
  pub sectors : s.block_bitmap_bytes ≤ s.block_bitmap_sectors * 512
  pub addressable : s.superblock.bitmap_start + s.block_bitmap_sectors ≤ 2 ^ 28

-- A bitmap that was saved is loaded unchanged, at every byte, whatever the memory `old` held before:
-- the bitmap survives a restart. The bitmap area is large enough for it.
pub load_block_bitmap-save_block_bitmap :
    (s : Fs) (old : Words) (j : ℕ)
    → HasRoom s
    → j < s.block_bitmap_bytes
    → (load_block_bitmap (record (save_block_bitmap s) { block_bitmap = old })).block_bitmap j
      ≡ s.block_bitmap j
unfolding load_block_bitmap save_block_bitmap
load_block_bitmap-save_block_bitmap s old j room inside =
    let bytes = s.block_bitmap_bytes in
    let n = s.block_bitmap_sectors in
    let start = s.superblock.bitmap_start in
    let bm = s.block_bitmap in
    let d = save_block_sectors bm start n 0 bytes 0 s.disk in
    let whole : j / 512 * 512 + j % 512 ≡ j = omega arith in
    ground (
      arith,
      load_block_sectors_lem bytes bm start d n 0 bytes 0 old j (omega arith) (omega arith) inside
          (omega arith),
      save_block_sectors-read bytes bm start n 0 bytes 0 s.disk (j / 512) (j % 512) (omega arith)
          (omega arith) (omega arith) (omega arith) (omega arith) (omega arith),
      ap bm whole,
    )
