-- ===== src/Commands/WriteFile.antt =====
-- write_to_file of data that fit into the first block of the file, from open to close.
use ext.Base.{
  ℕ, ◌+◌, ◌≤◌, ◌≡◌, ◌∙◌, length, length-set, true, some, get_elem?, take-all, arith, ◌∷◌,
}
use ext.Base.Image.{Bytes, write_at}
use ext.Base.Words.{IsU32}
use ext.Os.{Host, File, IsSteady}
use ext.Os.Ends.{Ends, Ends-pure, Ends-bind, Ends-attempt, Ends-element, Ends-assign}
use ext.Utils.Write.{after_write}
use ext.Superblock.{Superblock}
use ext.Superblock.Store.{bytes_of_superblock, write_super_block-Ends}
use ext.Descriptors.{DescriptorsTable}
use ext.Descriptors.Bounds as Tables
use ext.Descriptors.Bounds.{All-set}
use ext.Inode.{Inode, calculate_offset}
use ext.Inode.Store.{bytes_of_inode, read_inode-Ends, write_inode-Ends}
use ext.Block.{max_size_of_data, get_max_data_size_of_all_blocks}
use ext.Block.Store.{reloaded}
use ext.Commands.Fresh.{open_fs-Ends}
use ext.Commands.Keep.{with_table, moved, table_or_exit-Ends, save_table-Ends}
use ext.Commands.OneBlock.{HasFile, HasFile-table, HasFile-data, HasFile-inode, HasFile-superblock}
use ext.Commands.Transfer.{write_to_file, save_all, save_inode, inode_or_exit}
use ext.Commands.WriteOne.{
  new_data, new_ranges, new_within, with_data, write_blocks-Ends, capacity, max_is_small,
}

-- The descriptor is open on the inode, at a position.
pub record IsOpen (t : DescriptorsTable) (fd inode pos : ℕ) : Type 0 where
  pub reserved : get_elem? t.reserved_fd fd ≡ some true
  pub inode_there : get_elem? t.fd_to_inode fd ≡ some inode
  pub position : get_elem? t.fd_to_position fd ≡ some pos

pub moved-IsValid :
    (s : Superblock) (t : DescriptorsTable) (fd pos : ℕ)
    → Tables.IsValid s t
    → IsU32 pos
    → Tables.IsValid s (moved t fd pos)
moved-IsValid s t fd pos v r = record {
  reserved = v.reserved;
  inodes = v.inodes;
  positions = length-set t.fd_to_position fd pos ∙ v.positions;
  inode_range = v.inode_range;
  position_range = All-set IsU32 t.fd_to_position fd pos v.position_range r;
}

-- The file after save_all.
abbrev pub saved : Superblock → DescriptorsTable → Inode → File → File
saved s t i f =
    after_write
      (record (after_write (record (with_table s t f) { pos = calculate_offset s i.inode_info.id })
        (bytes_of_inode i)) { pos = 0 })
      (bytes_of_superblock s)

module _ {h : Host} (k : IsSteady h) (s : Superblock) (t : DescriptorsTable) (i : Inode) (b n : ℕ)
    (contents : Bytes) where
  save_all-Ends :
      (fd pos old : ℕ) (f : File)
      → HasFile s t f.bytes i b n contents
      → get_elem? t.fd_to_position fd ≡ some old
      → IsU32 pos
      → Ends h (save_all fd pos t i s) f tt (saved s (moved t fd pos) i f)
  unfolding save_all save_inode
  save_all-Ends fd pos old f file e r =
      let v = moved-IsValid s t fd pos file.has.table_valid r in
      Ends-bind _ _ (Ends-assign t.fd_to_position fd pos old _ e) (
        Ends-bind _ _
          (save_table-Ends k s (moved t fd pos) _ v file.has.valid.info.descriptors_count)
          (Ends-bind _ _
            (Ends-bind _ _ (Ends-attempt (write_inode-Ends k s i _ file.valid)) (Ends-pure tt _))
            (Ends-bind _ _ (Ends-attempt (write_super_block-Ends k s _ file.has.valid))
              (Ends-pure tt _))))

  saved-HasFile :
      (u : DescriptorsTable) (f : File)
      → HasFile s t f.bytes i b n contents
      → Tables.IsValid s u
      → HasFile s u (saved s u i f).bytes i b n contents
  saved-HasFile u f file v =
      let one = HasFile-table s t f.bytes i b n contents file u f.pos v in
      let two = HasFile-inode s u _ i b n contents one in
      HasFile-superblock s u _ i b n contents two

module _ {h : Host} (k : IsSteady h) (s : Superblock) (t : DescriptorsTable) (f : File) (i : Inode)
    (b n : ℕ) (contents : Bytes) (file : HasFile s t f.bytes i b n contents) (fd pos c : ℕ)
    (cs : Bytes) (is_open : IsOpen t fd i.inode_info.id pos)
    (inside : pos + length (c ∷ cs) ≤ max_size_of_data s) where
  abbrev pub after_write_to_file : File
  after_write_to_file =
      saved s (moved t fd (pos + length (c ∷ cs))) i
        (with_data s t f i b n contents file pos c cs inside)

  write_to_file-Ends :
      Ends h (write_to_file fd (c ∷ cs)) f (some (length (c ∷ cs))) after_write_to_file
  unfolding write_to_file inode_or_exit
  write_to_file-Ends =
      let has = file.has in
      let m = max_is_small s t f i b n contents file pos c cs inside in
      let block_there = file.some_block in
      let cap =
        capacity s has.valid.info.blocks_count_in_inode (omega (arith, file.valid.blocks_count))
          (omega arith) in
      let new =
        HasFile-data s t f.bytes i b n contents file (pos + length (c ∷ cs))
          (new_data s t f i b n contents file pos c cs inside)
          (new_ranges s t f i b n contents file pos c cs inside)
          (new_within s t f i b n contents file pos c cs inside) in
      let all = take-all (get_max_data_size_of_all_blocks s) (c ∷ cs) (omega arith) in
      Ends-bind _ _ (open_fs-Ends k s f has.valid has.magic has.root has.superblock_there) (
        Ends-bind _ _ (table_or_exit-Ends k s t _ has) (
          Ends-bind _ _ (Ends-element _ true _ is_open.reserved) (
            Ends-bind _ _ (Ends-element _ pos _ is_open.position) (
              Ends-bind _ _ (Ends-element _ i.inode_info.id _ is_open.inode_there) (
                Ends-bind _ _
                  (Ends-bind _ _
                    (Ends-attempt
                      (read_inode-Ends k s i i.inode_info.id _ file.valid file.inode_there))
                    (Ends-pure i _))
                  (rw all (
                    Ends-bind _ _
                      (write_blocks-Ends s t f i b n contents file pos c cs inside k (length cs) fd
                        _)
                      (Ends-bind _ _
                        (save_all-Ends k s t i b _ _ fd _ pos _ new is_open.position (omega arith))
                        (Ends-pure _ _)))))))))

  -- Under a host that fails no call, for a file that has a valid superblock with the magic number,
  -- a reserved root, a valid table behind it, and a valid inode whose first block is there with
  -- its data, if the sizes do not wrap and a block has room for the struct block_info, and if the
  -- descriptor is open on that inode at a position: write_to_file of data that has a byte and ends
  -- inside the first block returns the size of the data; the file then has the same superblock and
  -- inode, the table in which the position of the descriptor is behind the data, and the block in
  -- which the data stand at the position, and data_size is where they end.
  pub write_to_file_lem :
      Ends h (write_to_file fd (c ∷ cs)) f (some (length (c ∷ cs))) after_write_to_file
      × HasFile s
          (moved t fd (pos + length (c ∷ cs)))
          after_write_to_file.bytes
          i
          b
          (pos + length (c ∷ cs))
          (write_at pos (c ∷ cs) (reloaded s n contents))
  write_to_file_lem =
      let m = max_is_small s t f i b n contents file pos c cs inside in
      (
        write_to_file-Ends,
        saved-HasFile k s t i b _ _ _ (with_data s t f i b n contents file pos c cs inside)
            (HasFile-data s t f.bytes i b n contents file (pos + length (c ∷ cs)) _
              (new_ranges s t f i b n contents file pos c cs inside)
              (new_within s t f i b n contents file pos c cs inside))
            (moved-IsValid s t fd _ file.has.table_valid (omega arith)),
      )
