-- ===== src/Templar/Load.antt =====
-- templar.c: `templar_load_file`, over the operations of fs.c.
use crusader_os_v.Base.{
  ℕ, ◌+◌, ◌-◌, ◌∷◌, ◌++◌, List, [], Bool, false, none, some, leb, if◌then◌else◌, codes, get_or,
  tabulate, drop,
}
use crusader_os_v.Fs.State.{Fs}
use crusader_os_v.Fs.Inode.{read_inode}
use crusader_os_v.Fs.File as File
use crusader_os_v.Templar.State.{klog, M, done, stopped, out_of_fuel, pure, ◌>>◌, emit, max_src}
use crusader_os_v.Templar.Exec.{templar_run}

-- The part of a file that the source array has room for.
abbrev pub source_size : ℕ → ℕ
source_size size = if leb max_src size then max_src - 1 else size

-- What `fs_read` leaves in the array, with the NUL behind it. A read never ends as `failed`.
unfoldable pub read_source : ℕ → Fs → M (Unit {0})
read_source inode_num fs s =
    let node = read_inode inode_num fs in
    let sz = source_size node.size in
    elim (File.fs_read inode_num node 0 sz (λ i. get_or s.src i 0) fs) [
      | File.done (n, buffer) ↦
          done tt (record s { src = tabulate sz buffer ++ 0 ∷ drop (sz + 1) s.src })
      | File.failed ↦ done tt s
      | File.out_of_fuel ↦ stopped out_of_fuel s
    ]

-- Whether the result is 0; else it is -1.
unfoldable pub templar_load_file : ℕ → List ℕ → Fs → M Bool
templar_load_file fuel filename fs = elim (File.fs_resolve_path filename fs.current_dir fs) [
  | none ↦ (do
    emit (klog (codes "templar: file not found: "))
    emit (klog filename)
    emit (klog (10 ∷ []))
    pure false)
  | some inode_num ↦ (do read_source inode_num fs; templar_run fuel)
]
