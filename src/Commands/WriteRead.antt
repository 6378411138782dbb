-- ===== src/Commands/WriteRead.antt =====
-- What write_to_file writes is what read_file reads, after lseek_pos to where it was written.
use ext.Base.{ℕ, ◌+◌, ◌≤◌, ◌∷◌, length, get_elem?-lt, get_elem?-set_self, arith, subst}
use ext.Base.Image.{Bytes, read_at-write_at}
use ext.Os.{Host, File, IsSteady, ◌>>=◌, ◌>>◌}
use ext.Os.Ends.{Ends, Ends-bind}
use ext.Superblock.{Superblock}
use ext.Descriptors.{DescriptorsTable}
use ext.Descriptors.Open.{IsConsistent}
use ext.Inode.{Inode}
use ext.Block.{max_size_of_data}
use ext.Block.Store.{reloaded}
use ext.Commands.Descriptor.{lseek_pos}
use ext.Commands.Keep.{moved, with_table, lseek_pos_lem, moved-IsConsistent}
use ext.Commands.OneBlock.{HasFile, HasFile-table}
use ext.Commands.Transfer.{write_to_file, read_file}
use ext.Commands.WriteOne.{capacity, max_is_small}
use ext.Commands.WriteFile.{IsOpen, moved-IsValid, after_write_to_file, write_to_file_lem}
use ext.Commands.ReadOne.{after_read_file, read_file_lem}

moved-IsOpen :
    (t : DescriptorsTable) (fd inode old pos : ℕ)
    → IsOpen t fd inode old
    → IsOpen (moved t fd pos) fd inode pos
moved-IsOpen t fd inode old pos o = record {
  reserved = o.reserved;
  inode_there = o.inode_there;
  position =
      get_elem?-set_self t.fd_to_position fd pos (get_elem?-lt t.fd_to_position fd old o.position);
}

module _ {h : Host} (k : IsSteady h) (s : Superblock) (t : DescriptorsTable) (f : File) (i : Inode)
    (b n : ℕ) (contents : Bytes) (file : HasFile s t f.bytes i b n contents)
    (consistent : IsConsistent t) (fd pos c : ℕ) (cs : Bytes)
    (is_open : IsOpen t fd i.inode_info.id pos)
    (inside : pos + length (c ∷ cs) ≤ max_size_of_data s) where
  -- Under a host that fails no call, for a file that has a valid superblock with the magic number,
  -- a reserved root, a valid and consistent table behind it, and a valid inode whose first block
  -- is there with its data, if the sizes do not wrap and a block has room for the struct
  -- block_info, and if the descriptor is open on that inode at a position: write_to_file of data
  -- that has a byte and ends inside the first block, lseek_pos back to the position and read_file
  -- of as many bytes end, one after the other, and read_file gives the data that was written.
  pub read_file-write_to_file :
      (f' : File) × Ends h
        (do total ← write_to_file fd (c ∷ cs); lseek_pos fd pos; read_file fd (length (c ∷ cs)))
        f
        (c ∷ cs)
        f'
  read_file-write_to_file =
      let m = max_is_small s t f i b n contents file pos c cs inside in
      let some = file.some_block in
      let cap =
        capacity s file.has.valid.info.blocks_count_in_inode
          (omega (arith, file.valid.blocks_count)) (omega arith) in
      let end = pos + length (c ∷ cs) in
      let t1 = moved t fd end in
      let (wrote, file1) =
        write_to_file_lem k s t f i b n contents file fd pos c cs is_open inside in
      let open1 = moved-IsOpen t fd i.inode_info.id pos end is_open in
      let f1 = after_write_to_file k s t f i b n contents file fd pos c cs is_open inside in
      let (sought, has2, consistent2) =
        lseek_pos_lem k s t1 fd pos end f1 file1.has
          (moved-IsConsistent k s t fd end consistent is_open.reserved) open1.reserved
          open1.position (omega arith) in
      let t2 = moved t1 fd pos in
      let f2 = with_table s t2 f1 in
      let file2 =
        HasFile-table s t1 f1.bytes i b end _ file1 t2 f1.pos
          (moved-IsValid s t1 fd pos file1.has.table_valid (omega arith)) in
      let open2 = moved-IsOpen t1 fd i.inode_info.id end pos open1 in
      let (readed, file3) =
        read_file_lem k s t2 f2 i b end _ file2 pos (length cs) (omega arith) fd open2 in
      let f3 = after_read_file k s t2 f2 i b end _ file2 pos (length cs) (omega arith) fd open2 in
      (
        f3,
        Ends-bind _ _ wrote (
            Ends-bind _ _ sought (
              subst (λ d. Ends h (read_file fd (length (c ∷ cs))) f2 d f3)
                (read_at-write_at pos (c ∷ cs) (reloaded s n contents)) readed)),
      )
