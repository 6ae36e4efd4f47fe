-- ===== src/Fs/Inode/Codec.antt =====
-- `inode_t` as bytes: what is encoded decodes to the same inode.
use crusader_os_v.Base.{
  ℕ, ◌+◌, ◌-◌, ◌*◌, ◌/◌, ◌%◌, ◌^◌, ◌≤◌, ◌<◌, ◌≡◌, refl, ◌∙◌, [], arith, ltb, true, false, length,
  get_or, tabulate, tabulate-cong, tabulate-get_or,
}
use crusader_os_v.Disk.{Block}
use crusader_os_v.Fs.State.{Inode, inode_size, inode_direct, tag_len, max_tags}
use crusader_os_v.Fs.Inode.{u32, byte_of, inode_byte, inode_at}

-- The fields are in the ranges of their C types.
pub record IsStorable (n : Inode) : Type 0 where
  pub size : n.size < 2 ^ 32
  pub direct : (k : ℕ) → get_or n.direct k 0 < 2 ^ 32
  pub direct_length : length n.direct ≡ inode_direct
  pub single_indirect : n.single_indirect < 2 ^ 32
  pub double_indirect : n.double_indirect < 2 ^ 32
  pub triple_indirect : n.triple_indirect < 2 ^ 32
  pub main_tag : length n.main_tag ≡ tag_len
  pub tags : length n.tags ≡ max_tags
  pub tag : (t : ℕ) → t < max_tags → length (get_or n.tags t []) ≡ tag_len
  pub unused : length n.unused ≡ 15

module _ (b c : Block) (o p : ℕ) (same : (k : ℕ) → k < inode_size → b (o + k) ≡ c (p + k)) where
  byte_same : (k j : ℕ) → k + j < inode_size → b (o + k + j) ≡ c (p + k + j)
  byte_same k j l = ground (arith, same (k + j))

  u32-same : (k : ℕ) → k + 4 ≤ inode_size → u32 b (o + k) ≡ u32 c (p + k)
  unfolding u32
  u32-same k l = ground (arith, same k, byte_same k 1, byte_same k 2, byte_same k 3)

  -- The decoder looks at 128 bytes and at nothing else.
  pub inode_at-same : inode_at b o ≡ inode_at c p
  unfolding inode_at
  inode_at-same = λ i. record {
    size = u32-same 0 (omega arith) i;
    direct = tabulate-cong inode_direct _ _ (λ k l. u32-same (4 + 4 * k) (omega arith)) i;
    single_indirect = u32-same 52 (omega arith) i;
    double_indirect = u32-same 56 (omega arith) i;
    triple_indirect = u32-same 60 (omega arith) i;
    kind = same 64 (omega arith) i;
    main_tag = tabulate-cong tag_len _ _ (λ k l. same (65 + k) (omega arith)) i;
    tags =
        tabulate-cong max_tags _ _
          (λ t l. tabulate-cong tag_len _ _ (λ k m. same (77 + tag_len * t + k) (omega arith))) i;
    unused = tabulate-cong 15 _ _ (λ k l. same (113 + k) (omega arith)) i;
  }

pub u32-bytes :
    (b : Block) (o v : ℕ)
    → v < 2 ^ 32
    → b o ≡ byte_of v 0
    → b (o + 1) ≡ byte_of v 1
    → b (o + 2) ≡ byte_of v 2
    → b (o + 3) ≡ byte_of v 3
    → u32 b o ≡ v
unfolding u32 byte_of
u32-bytes b o v small e0 e1 e2 e3 = omega arith

module _ {n : Inode} (v : IsStorable n) where
  direct-byte :
      (x k j : ℕ)
      → x ≡ 4 + 4 * k + j
      → k < inode_direct
      → j < 4
      → inode_byte n x ≡ byte_of (get_or n.direct k 0) j
  unfolding inode_byte
  direct-byte x k j e l m =
      let q : (x - 4) / 4 ≡ k = omega arith in
      let r : x % 4 ≡ j = omega arith in
      let out : ltb x 4 ≡ false = ground arith in
      let within : ltb x 52 ≡ true = ground arith in rw (out, within, q, r)

  direct-u32 :
      (k : ℕ) → k < inode_direct → u32 (inode_byte n) (0 + (4 + 4 * k)) ≡ get_or n.direct k 0
  direct-u32 k l =
      u32-bytes (inode_byte n) (0 + (4 + 4 * k)) (get_or n.direct k 0) (v.direct k)
        (direct-byte _ k 0 (omega arith) l (omega arith))
        (direct-byte _ k 1 (omega arith) l (omega arith))
        (direct-byte _ k 2 (omega arith) l (omega arith))
        (direct-byte _ k 3 (omega arith) l (omega arith))

  size-u32 : u32 (inode_byte n) 0 ≡ n.size
  unfolding inode_byte
  size-u32 = u32-bytes (inode_byte n) 0 n.size v.size refl refl refl refl

  single-u32 : u32 (inode_byte n) 52 ≡ n.single_indirect
  unfolding inode_byte
  single-u32 = u32-bytes (inode_byte n) 52 n.single_indirect v.single_indirect refl refl refl refl

  double-u32 : u32 (inode_byte n) 56 ≡ n.double_indirect
  unfolding inode_byte
  double-u32 = u32-bytes (inode_byte n) 56 n.double_indirect v.double_indirect refl refl refl refl

  triple-u32 : u32 (inode_byte n) 60 ≡ n.triple_indirect
  unfolding inode_byte
  triple-u32 = u32-bytes (inode_byte n) 60 n.triple_indirect v.triple_indirect refl refl refl refl

  tag-byte :
      (x t k : ℕ)
      → x ≡ 77 + tag_len * t + k
      → t < max_tags
      → k < tag_len
      → inode_byte n x ≡ get_or (get_or n.tags t []) k 0
  unfolding inode_byte
  tag-byte x t k e l m =
      let q : (x - 77) / 12 ≡ t = omega arith in
      let r : (x - 77) % 12 ≡ k = omega arith in
      let out : ltb x 77 ≡ false = ground arith in rw (← q, ← r) (ground arith)

  tag_at :
      (t : ℕ)
      → t < max_tags
      → tabulate tag_len (λ k. inode_byte n (0 + (77 + tag_len * t + k))) ≡ get_or n.tags t []
  tag_at t l =
      tabulate-cong tag_len _ _ (λ k m. tag-byte (0 + (77 + tag_len * t + k)) t k (omega arith) l m)
      ∙ tabulate-get_or (get_or n.tags t []) 0 tag_len (v.tag t l)

  -- An inode survives the way through its 128 bytes.
  pub inode_at-inode_byte : inode_at (inode_byte n) 0 ≡ n
  unfolding inode_at inode_byte
  inode_at-inode_byte = λ i. record {
    size = size-u32 i;
    direct =
        (tabulate-cong inode_direct _ _ direct-u32
            ∙ tabulate-get_or n.direct 0 inode_direct v.direct_length)
          i;
    single_indirect = single-u32 i;
    double_indirect = double-u32 i;
    triple_indirect = triple-u32 i;
    kind = n.kind;
    main_tag = tabulate-get_or n.main_tag 0 tag_len v.main_tag i;
    tags = (tabulate-cong max_tags _ _ tag_at ∙ tabulate-get_or n.tags [] max_tags v.tags) i;
    unused = tabulate-get_or n.unused 0 15 v.unused i;
  }
