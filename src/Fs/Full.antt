-- ===== src/Fs/Full.antt =====
-- create_dir and create_file where there is no room for a new directory or file.
use ext.Base.{
  ℕ, ◌≡◌, refl, List, ◌∷◌, ◌++◌, none, some, arith, eq→==, ne→==, Option-cases, inl, inr, ◌⊎◌,
}
use ext.Base.Image.{Bytes}
use ext.Os.{Host, File, M, fault, IsSteady, pure}
use ext.Os.Ends.{Ends-pure, Ends-attempt}
use ext.Os.Faults.{Faults, Faults-fault, Faults-behind}
use ext.Superblock.{Superblock, root_inode_id, first_free, sizeof_superblock}
use ext.Inode.{Inode}
use ext.Inode.Store.{read_inode-Ends}
use ext.Methods.Names.{Entries, lookup}
use ext.Methods.NoRoom.{Refuses, no_inode-Refuses, no_block-Refuses}
use ext.Methods.Walk.{path_text, get_inode_id_of_dir-Walk}
use ext.Commands.Create.{create_dir, create_file, link}
use ext.Commands.Fresh.{open_fs-Ends}
use ext.Commands.Reach.{Place, to_directory, is_dir_exist-Ends, split_path-path_text}
use ext.Fs.{folder, Fs, walk}
use ext.Fs.Reach.{IsPath, place}
use ext.Fs.Represents.{Represents}

module _ {h : Host} (k : IsSteady h) (fs : Fs) (f : File) (r : Represents fs f.bytes)
    (names : List Bytes) (name : Bytes) (v : IsPath fs.super names name) (parent pb : ℕ)
    (first : ℕ × Bytes) (others : Entries) (w : walk fs.nodes root_inode_id names ≡ some parent)
    (e : fs.nodes parent ≡ some (folder pb first others)) where
  abbrev p : Place fs.super f.bytes names name parent first others
  p = place fs f.bytes r names name parent pb first others v w e

  pub to_directory-Faults :
      {B : Type 0} (nothing : B) (rest : Superblock → ℕ → Inode → Bytes → M B)
      → ((q : ℕ) → Faults h (rest fs.super parent p.there.inode name) (record f { pos = q }))
      → Faults h (to_directory (path_text names ++ name) nothing rest) f
  to_directory-Faults nothing rest g =
      let s = fs.super in
      let (q, walked) =
        get_inode_id_of_dir-Walk k s parent names (record f { pos = sizeof_superblock s }) p.small
          p.long p.parts p.walk in
      let l = p.known in
      Faults-behind _ _
        (open_fs-Ends k s f r.has.valid r.has.magic r.has.root r.has.superblock_there)
        (rw (split_path-path_text s names name p.last p.fits) (
          Faults-behind _ _ (Ends-pure _ _) (
            Faults-behind _ _ walked (
              rw (ne→== parent s.fs_info.inodes_count (omega arith)) (
                Faults-behind _ _
                  (Ends-attempt
                    (read_inode-Ends k s p.there.inode parent _ p.there.valid p.there.inode_there))
                  (rw p.there.kind (g _)))))))

  no_link :
      (full : M (Unit {0})) (t : Superblock) (g : File)
      → t.fs_info ≡ fs.super.fs_info
      → Faults h (link full p.there.inode fs.super.fs_info.inodes_count name t) g
  unfolding link
  no_link full t g same =
      let all = eq→== fs.super.fs_info.inodes_count fs.super.fs_info.inodes_count refl in
      rw (same, all) (Faults-fault g)

  nothing_free-Refuses :
      (first_free fs.super.reserved_inodes_mask ≡ none)
        ⊎ (first_free fs.super.reserved_blocks_mask ≡ none)
      → (g : File) → Refuses fs.super parent h g
  nothing_free-Refuses (inl i) g = no_inode-Refuses fs.super parent g i
  nothing_free-Refuses (inr b) g = elim (Option-cases (first_free fs.super.reserved_inodes_mask)) [
    | inl i ↦ no_inode-Refuses fs.super parent g i
    | inr (id, i) ↦ no_block-Refuses fs.super parent r.has.valid id i b g
  ]

  -- Under a host that fails no call, for a file that represents an abstract file system, and names
  -- that lead to a directory that does not have the name, if no inode or no block is free:
  -- create_dir and create_file come to undefined behaviour. The names have a byte, no slash and no
  -- NUL, and fit the arrays of the functions that split the path.
  pub create-Faults :
      lookup (first ∷ others) name ≡ none
      → (first_free fs.super.reserved_inodes_mask ≡ none)
        ⊎ (first_free fs.super.reserved_blocks_mask ≡ none)
      → Faults h (create_dir (path_text names ++ name)) f
        × Faults h (create_file (path_text names ++ name)) f
  unfolding create_dir create_file
  create-Faults absent full = (
    to_directory-Faults tt _ (λ q.
        let (t, dir, file, same) = nothing_free-Refuses full _ in
        Faults-behind _ _
          (is_dir_exist-Ends k fs.super fs.table names name parent first others f r.has p q)
          (rw absent (Faults-behind _ _ dir (no_link fault t _ same)))),
    to_directory-Faults tt _ (λ q.
        let (t, dir, file, same) = nothing_free-Refuses full _ in
        Faults-behind _ _
          (is_dir_exist-Ends k fs.super fs.table names name parent first others f r.has p q)
          (rw absent (Faults-behind _ _ file (no_link (pure tt) t _ same)))),
  )
