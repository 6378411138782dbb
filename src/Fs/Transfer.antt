-- ===== src/Fs/Transfer.antt =====
-- write_to_file and read_file inside the first block of a file, against what they do to the nodes.
use ext.Base.{
  ℕ, zero, suc, ◌<◌, ◌+◌, ◌-◌, ◌*◌, ◌≤◌, ◌≡◌, refl, Bool, true, false, [], ◌∷◌, Option, none, some,
  length, arith, inr, get_elem?, ltb, ltb→lt,
}
use ext.Base.Image.{Bytes}
use ext.Os.{Host, File, IsSteady}
use ext.Os.Ends.{Ends-pure, Ends-bind, Ends-element}
use ext.Superblock.{sizeof_superblock}
use ext.Superblock.Store.{length-bytes_of_superblock, bytes_of_superblock}
use ext.Descriptors.Store.{bytes_of_table, length-bytes_of_table}
use ext.Inode.Store.{bytes_of_inode, length-bytes_of_inode}
use ext.Block.{max_size_of_data}
use ext.Layout.{superblock, table, inode, block}
use ext.Commands.Fresh.{open_fs-Ends}
use ext.Commands.Keep.{moved, moved-IsConsistent, table_or_exit-Ends}
use ext.Commands.OneBlock.{HasFile}
use ext.Commands.Transfer.{write_to_file}
use ext.Commands.WriteFile.{IsOpen, after_write_to_file, write_to_file_lem}
use ext.Commands.WriteOne.{with_data}
use ext.Commands.ReadOne.{after_read_file, read_file_lem}
use ext.Commands.ReadRest.{after_read_rest, read_rest_lem}
use ext.Fs.{Node, folder, regular, Fs}
use ext.Fs.Data.{file_at, Represents-data}
use ext.Fs.Kept.{Kept-write, Kept-trans, Represents-table, length-bytes_of_node}
use ext.Fs.Represents.{regular_formed, Represents, inode_of}
use ext.Fs.Step.{
  write_fd, read_fd, perform, step, write_in, write_to, write_entry, read_in, read_from, read_entry,
}
use ext.Fs.Table.{Simulates, touched-Kept}

module _ {h : Host} (k : IsSteady h) (fs : Fs) (f : File) (r : Represents fs f.bytes) (fd i pos : ℕ)
    (o : IsOpen fs.table fd i pos) where
  module _ (b n : ℕ) (contents : Bytes) (e : fs.nodes i ≡ some (regular b n contents)) where
    abbrev file :
        HasFile fs.super fs.table f.bytes (inode_of fs.super i (regular b n contents)) b n contents
    file = file_at fs f.bytes r i b n contents e

    write_in-Simulates :
        (c : ℕ) (cs : Bytes) (inside : Bool)
        → ltb (pos + length cs) (max_size_of_data fs.super) ≡ inside
        → Simulates h
            (perform (write_fd fd (c ∷ cs)))
            f
            (write_in fs fd i pos b n contents (c ∷ cs) inside)
    write_in-Simulates c cs false l = tt
    write_in-Simulates c cs true l =
        let s = fs.super in
        let bound = ltb→lt (pos + length cs) (max_size_of_data s) l in
        let fit : pos + length (c ∷ cs) ≤ max_size_of_data s = omega arith in
        let nd = inode_of s i (regular b n contents) in
        let (ends, there) =
          write_to_file_lem k s fs.table f nd b n contents file fd pos c cs o fit in
        let g = after_write_to_file k s fs.table f nd b n contents file fd pos c cs o fit in
        let new = moved fs.table fd (pos + length (c ∷ cs)) in
        let written = with_data s fs.table f nd b n contents file pos c cs fit in
        let data_there = r.sound i (regular b n contents) e in
        (
          g,
          Ends-bind _ _ ends (Ends-pure _ _),
          Represents-data fs f.bytes r i b n contents e new g.bytes _ _ there
              (moved-IsConsistent k s fs.table fd _ r.consistent o.reserved)
              (let lt = length-bytes_of_table s new there.has.table_valid in
                let li = length-bytes_of_inode s nd there.valid in
                let ls = length-bytes_of_superblock s there.has.valid in
                let ld =
                  length-bytes_of_node s r.sizes r.has.valid i (regular b _ _)
                    (regular_formed there.ranges there.within.0 there.within.1) in
                Kept-trans s (block b ∷ []) (table ∷ inode i ∷ superblock ∷ []) _ _ _
                  (Kept-write s (block b) f.bytes _ there.fits tt ld)
                  (Kept-trans s (table ∷ []) (inode i ∷ superblock ∷ []) _ _ _
                    (Kept-write s table written.bytes (bytes_of_table new) there.fits tt
                      (omega arith))
                    (Kept-trans s (inode i ∷ []) (superblock ∷ []) _ _ _
                      (Kept-write s (inode i) _ (bytes_of_inode nd) there.fits there.known
                        (omega arith))
                      (Kept-write s superblock _ (bytes_of_superblock s) there.fits tt
                        (omega arith))))),
        )

    read_in-Simulates :
        (need : ℕ) (inside ends behind : Bool)
        → ltb (pos + need) n ≡ inside
        → ltb n (max_size_of_data fs.super) ≡ ends
        → ltb n pos ≡ behind
        → Simulates h
            (perform (read_fd fd (suc need)))
            f
            (read_in fs fd pos (suc need) n contents inside ends behind)
    read_in-Simulates need false false behind l m w = tt
    read_in-Simulates need false true true l m w = tt
    read_in-Simulates need false true false l m w =
        let s = fs.super in
        let room = ltb→lt n (max_size_of_data s) m in
        let le : pos ≤ n = ground arith in
        let beyond : n - pos < suc need = ground arith in
        let nd = inode_of s i (regular b n contents) in
        let (ends, there) =
          read_rest_lem k s fs.table f nd b n contents file room fd pos o (suc need) le beyond in
        let g =
          after_read_rest k s fs.table f nd b n contents file room fd pos o (suc need) le beyond in
        let new = moved fs.table fd n in
        (
          g,
          Ends-bind _ _ ends (Ends-pure _ _),
          Represents-table fs f.bytes g.bytes new r there.has
              (moved-IsConsistent k s fs.table fd _ r.consistent o.reserved)
              (touched-Kept fs f r new g.bytes there.has.table_valid (inr refl)),
        )
    read_in-Simulates need true ends behind l m w =
        let s = fs.super in
        let bound = ltb→lt (pos + need) n l in
        let fit : pos + suc need ≤ n = omega arith in
        let nd = inode_of s i (regular b n contents) in
        let (ends, there) = read_file_lem k s fs.table f nd b n contents file pos need fit fd o in
        let g = after_read_file k s fs.table f nd b n contents file pos need fit fd o in
        let new = moved fs.table fd (pos + suc need) in
        (
          g,
          Ends-bind _ _ ends (Ends-pure _ _),
          Represents-table fs f.bytes g.bytes new r there.has
              (moved-IsConsistent k s fs.table fd _ r.consistent o.reserved)
              (touched-Kept fs f r new g.bytes there.has.table_valid (inr refl)),
        )

  write_to-Simulates :
      (bs : Bytes) (nd : Option Node)
      → fs.nodes i ≡ nd
      → Simulates h (perform (write_fd fd bs)) f (write_to fs fd i pos bs nd)
  write_to-Simulates [] nd e = tt
  write_to-Simulates (c ∷ cs) none e = tt
  write_to-Simulates (c ∷ cs) (some (folder b first others)) e = tt
  write_to-Simulates (c ∷ cs) (some (regular b n contents)) e =
      write_in-Simulates b n contents e c cs _ refl

  read_from-Simulates :
      (size : ℕ) (nd : Option Node)
      → fs.nodes i ≡ nd
      → Simulates h (perform (read_fd fd size)) f (read_from fs fd pos size nd)
  read_from-Simulates zero nd e = tt
  read_from-Simulates (suc need) none e = tt
  read_from-Simulates (suc need) (some (folder b first others)) e = tt
  read_from-Simulates (suc need) (some (regular b n contents)) e =
      read_in-Simulates b n contents e need _ _ _ refl refl refl

module _ {h : Host} (k : IsSteady h) (fs : Fs) (f : File) (r : Represents fs f.bytes) (fd : ℕ) where
  write_entry-Simulates :
      (bs : Bytes) (a : Option Bool) (i pos : Option ℕ)
      → get_elem? fs.table.reserved_fd fd ≡ a
      → get_elem? fs.table.fd_to_inode fd ≡ i
      → get_elem? fs.table.fd_to_position fd ≡ pos
      → Simulates h (perform (write_fd fd bs)) f (write_entry fs fd bs a i pos)
  unfolding write_to_file
  write_entry-Simulates bs none i pos e d c = tt
  write_entry-Simulates bs (some true) none pos e d c = tt
  write_entry-Simulates bs (some true) (some i) none e d c = tt
  write_entry-Simulates bs (some true) (some i) (some pos) e d c =
      write_to-Simulates k fs f r fd i pos (record { reserved = e; inode_there = d; position = c })
        bs _ refl
  write_entry-Simulates bs (some false) i pos e d c =
      let s = fs.super in
      (
        record f { pos = sizeof_superblock s + 7 * s.fs_info.descriptors_count },
        Ends-bind _ _
            (Ends-bind _ _
              (open_fs-Ends k s f r.has.valid r.has.magic r.has.root r.has.superblock_there)
              (Ends-bind _ _
                (table_or_exit-Ends k s fs.table (record f { pos = sizeof_superblock s }) r.has)
                (Ends-bind _ _ (Ends-element _ false _ e) (Ends-pure none _))))
            (Ends-pure _ _),
        r,
      )

  read_entry-Simulates :
      (size : ℕ) (a : Option Bool) (i pos : Option ℕ)
      → get_elem? fs.table.reserved_fd fd ≡ a
      → get_elem? fs.table.fd_to_inode fd ≡ i
      → get_elem? fs.table.fd_to_position fd ≡ pos
      → Simulates h (perform (read_fd fd size)) f (read_entry fs fd size a i pos)
  read_entry-Simulates size none i pos e d c = tt
  read_entry-Simulates size (some false) i pos e d c = tt
  read_entry-Simulates size (some true) none pos e d c = tt
  read_entry-Simulates size (some true) (some i) none e d c = tt
  read_entry-Simulates size (some true) (some i) (some pos) e d c =
      read_from-Simulates k fs f r fd i pos (record { reserved = e; inode_there = d; position = c })
        size _ refl

  pub write_fd-Simulates :
      (bs : Bytes) → Simulates h (perform (write_fd fd bs)) f (step (write_fd fd bs) fs)
  unfolding step
  write_fd-Simulates bs = write_entry-Simulates bs _ _ _ refl refl refl

  pub read_fd-Simulates :
      (size : ℕ) → Simulates h (perform (read_fd fd size)) f (step (read_fd fd size) fs)
  unfolding step
  read_fd-Simulates size = read_entry-Simulates size _ _ _ refl refl refl
