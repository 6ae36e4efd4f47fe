-- ===== src/Fs/File/Write.antt =====
-- `fs_write` ends, and what it does to the size of the file.
use crusader_os_v.Base.{
  ◌≡◌, refl, ◌⊎◌, ℕ, zero, suc, ◌+◌, ◌-◌, ◌/◌, ◌%◌, ◌^◌, ◌<◌, ◌≤◌, inl, inr, Bool-cases, true, ◌||◌,
  arith, ◌==◌, ltb, if◌then◌else◌, List, length, get_or,
}
use crusader_os_v.Disk.{Block, block_read, block_write, zeros}
use crusader_os_v.Fs.State.{Fs, Inode}
use crusader_os_v.Fs.Inode.{overlay, read_inode}
use crusader_os_v.Fs.Blocks.{get_physical_block}
use crusader_os_v.Fs.File.{Outcome, done, failed, chunk, write_from, close_write, fs_write}

-- The loop ends with as many bytes written as there are, or fails.
data Ends (n : ℕ) : Outcome (ℕ × Inode) → Type 0 where
  writes : (node : Inode) → Ends n (done (n, node))
  fails : Ends n failed

write_from-Ends :
    (fuel inode_idx offset : ℕ) (bytes : List ℕ) (written : ℕ) (buf : Block) (node : Inode) (s : Fs)
    → length bytes - written < fuel
    → written ≤ length bytes
    → Ends (length bytes) (write_from fuel inode_idx offset bytes written buf node s).0
unfolding write_from
write_from-Ends zero inode_idx offset bytes written buf node s h below = elim h [ ]
write_from-Ends (suc fuel) inode_idx offset bytes written buf node s h below =
    let at = (offset + written) % 2 ^ 32 in
    let left = length bytes - written in
    let n = chunk (at % 512) left in
    let got = get_physical_block inode_idx node (at / 512) true s in
    let start : Block =
      if ltb 0 (at % 512) || ltb left 512 then block_read got.0.0 got.1.disk else buf in
    let new = overlay start (at % 512) n (λ k. get_or bytes (written + k) 0) in
    let s' = record (got.1) { disk = block_write got.0.0 new got.1.disk } in
    elim (Bool-cases (ltb written (length bytes))) [
      | inr stop ↦ let all : length bytes ≡ written = ground arith in rw (stop, all) (writes node)
      | inl more ↦
          let ih =
            write_from-Ends fuel inode_idx offset bytes (written + n) new got.0.1 s' (ground arith)
              (ground arith) in
          elim (Bool-cases (got.0.0 == 0)) [
            | inl none_left ↦ rw (more, none_left) fails
            | inr found ↦ rw (more, found) ih
          ]
    ]

close_write-Ends :
    (inode_idx offset n : ℕ) (r : Outcome (ℕ × Inode)) (s : Fs)
    → Ends n r
    → ((close_write inode_idx offset r s).0 ≡ done n)
      ⊎ ((close_write inode_idx offset r s).0 ≡ failed)
unfolding close_write
close_write-Ends inode_idx offset n r s (writes node) = inl refl
close_write-Ends inode_idx offset n r s fails = inr refl

-- `fs_write` ends: its counter has reached the number of bytes it was given, and it returns that, or it fails; its fuel does not run out.
pub fs_write-ends :
    (inode_idx offset : ℕ) (bytes : List ℕ) (s : Fs)
    → ((fs_write inode_idx offset bytes s).0 ≡ done (length bytes))
      ⊎ ((fs_write inode_idx offset bytes s).0 ≡ failed)
unfolding fs_write
fs_write-ends inode_idx offset bytes s =
    let node = read_inode inode_idx s in
    let r = write_from (length bytes + 1) inode_idx offset bytes 0 zeros node s in
    close_write-Ends inode_idx offset (length bytes) r.0 r.1 (
      write_from-Ends (length bytes + 1) inode_idx offset bytes 0 zeros node s (omega arith)
        (omega arith))
