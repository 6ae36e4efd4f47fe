-- ===== src/Fs/File/Read.antt =====
-- `fs_read` copies the bytes of the file, and how many.
use Prim.Native.Nat.{min}
use crusader_os_v.Base.{
  ℕ, zero, suc, ◌+◌, ◌-◌, ◌/◌, ◌%◌, ◌^◌, ◌≤◌, ◌<◌, ◌≡◌, ap, inl, inr, Bool-cases, ◌&&◌, arith, leb,
  ltb, if◌then◌else◌, dec_lt,
}
use crusader_os_v.Disk.{Block}
use crusader_os_v.Fs.State.{Fs, Inode}
use crusader_os_v.Fs.Inode.{overlay}
use crusader_os_v.Fs.File.{done, chunk, read_size, sector_of, read_from, fs_read}

-- Byte `k` of a file: of the sector that it lies in.
pub file_byte : ℕ → Inode → Fs → ℕ → ℕ
file_byte inode_idx node s k = sector_of inode_idx node (k / 512) s (k % 512)

-- What a buffer holds that had bytes `from` to `to` of a read at `offset` copied into it.
abbrev pub Copied : (ℕ → ℕ) → ℕ → ℕ → ℕ → Block → Block → Type 0
Copied byte offset from to old out =
    (i : ℕ) → out i ≡ (if leb from i && ltb i to then byte (offset + i) else old i)

module _ (inode_idx : ℕ) (node : Inode) (s : Fs) (offset size : ℕ)
    (fits : offset + size ≤ 2 ^ 32) where
  -- One round of the loop.
  copy_chunk :
      (bytes_read : ℕ) (buffer : Block)
      → bytes_read < size
      → let at = (offset + bytes_read) % 2 ^ 32 in
        let n = chunk (at % 512) (size - bytes_read) in
        Copied
          (file_byte inode_idx node s)
          offset
          bytes_read
          (bytes_read + n)
          buffer
          (overlay buffer bytes_read n (λ k. sector_of inode_idx node (at / 512) s (at % 512 + k)))
  unfolding overlay file_byte
  copy_chunk bytes_read buffer more i = elim (dec_lt i bytes_read) [
    | yes before ↦ ground arith
    | no from ↦
        elim (dec_lt i
          (bytes_read + chunk ((offset + bytes_read) % 2 ^ 32 % 512) (size - bytes_read))) [
            | yes within ↦
                let q : (offset + bytes_read) % 2 ^ 32 / 512 ≡ (offset + i) / 512 = omega arith in
                let r : (offset + bytes_read) % 2 ^ 32 % 512 + (i - bytes_read)
                    ≡ (offset + i) % 512 =
                  omega arith in
                rw (← q, ← r) (ground arith)
            | no after ↦ ground arith
          ]
  ]

  read_from_lem :
      (fuel bytes_read : ℕ) (buffer : Block)
      → size - bytes_read < fuel
      → bytes_read ≤ size
      → (out : Block) × (read_from fuel inode_idx node offset size bytes_read buffer s
          ≡ done (size, out))
        × Copied (file_byte inode_idx node s) offset bytes_read size buffer out
  unfolding read_from
  read_from_lem zero bytes_read buffer h below = elim h [ ]
  read_from_lem (suc fuel) bytes_read buffer h below = elim (Bool-cases (ltb bytes_read size)) [
    | inr stop ↦ (buffer, rw stop (ap (λ n. done (n, buffer)) (ground arith)), λ i. ground arith)
    | inl more ↦
        let at = (offset + bytes_read) % 2 ^ 32 in
        let n = chunk (at % 512) (size - bytes_read) in
        let buffer' =
          overlay buffer bytes_read n (λ k. sector_of inode_idx node (at / 512) s (at % 512 + k)) in
        let (out, ran, copied) =
          read_from_lem fuel (bytes_read + n) buffer' (ground arith) (ground arith) in
        (
          out,
          rw more ran,
          λ i. ground (arith, copied i, copy_chunk bytes_read buffer (ground arith) i),
        )
  ]

read_size-within :
    (file_size offset size : ℕ)
    → file_size < 2 ^ 32
    → offset ≤ file_size
    → offset + size < 2 ^ 32
    → read_size file_size offset size ≡ min size (file_size - offset)
unfolding read_size
read_size-within file_size offset size small within fits = ground arith

fs_read-of_size :
    (inode_idx : ℕ) (node : Inode) (offset size n : ℕ) (buffer : Block) (s : Fs)
    → read_size node.size offset size ≡ n
    → offset + n ≤ 2 ^ 32
    → n - 0 < n + 1
    → 0 ≤ n
    → (out : Block) × (fs_read inode_idx node offset size buffer s ≡ done (n, out))
      × Copied (file_byte inode_idx node s) offset 0 n buffer out
unfolding fs_read
fs_read-of_size inode_idx node offset size n buffer s e fits fuel from_zero =
    let (out, ran, copied) =
      read_from_lem inode_idx node s offset n fits (n + 1) 0 buffer fuel from_zero in
    (out, rw e ran, copied)

-- From an offset within the file, `fs_read` ends, reads `size` bytes or up to the end of the file,
-- whichever comes first, puts exactly the file's bytes from there into the buffer, and leaves the
-- rest of the buffer alone. A hole of the file reads as zeros. The request does not run past 2^32.
pub fs_read_lem :
    (inode_idx : ℕ) (node : Inode) (offset size : ℕ) (buffer : Block) (s : Fs)
    → node.size < 2 ^ 32
    → offset ≤ node.size
    → offset + size < 2 ^ 32
    → (out : Block) × (fs_read inode_idx node offset size buffer s
        ≡ done (min size (node.size - offset), out))
      × Copied (file_byte inode_idx node s) offset 0 (min size (node.size - offset)) buffer out
fs_read_lem inode_idx node offset size buffer s small within fits =
    fs_read-of_size inode_idx node offset size (min size (node.size - offset)) buffer s
      (read_size-within node.size offset size small within fits) (omega arith) (omega arith)
      (omega arith)

-- From an offset behind the end of the file, the subtraction in `fs_read` wraps: it reads more bytes
-- than the caller asked for, so that it runs over the end of a buffer of `size` bytes.
pub read_size-past_end :
    (file_size offset size : ℕ)
    → file_size < offset
    → offset + size < 2 ^ 32
    → size < read_size file_size offset size
unfolding read_size
read_size-past_end file_size offset size past fits = ground arith
