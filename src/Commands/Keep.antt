-- ===== src/Commands/Keep.antt =====
-- close_file and lseek_pos on a file that has a superblock and a descriptor table.
use ext.Base.{
  ℕ, ◌+◌, ◌*◌, ◌<◌, ◌≡◌, ◌≢◌, ◌∙◌, ap, Option, Bool, true, false, some, none, get_elem?,
  get_elem?-set_ne, set, length-set, arith, inl, if◌then◌else◌, lt→ltb,
}
use ext.Base.Holds.{Holds, write_at-Holds, Holds-write_at}
use ext.Base.Image.{Bytes}
use ext.Base.Words.{IsU16, IsU32}
use ext.Os.{Host, File, attempt, caught, IsSteady}
use ext.Os.Ends.{Ends, Ends-pure, Ends-bind, Ends-attempt, Ends-element, Ends-assign}
use ext.Utils.Write.{after_write}
use ext.Superblock.{Superblock, magic_number, root_inode_id, sizeof_superblock}
use ext.Superblock.Bounds as Blocks
use ext.Superblock.Store.{bytes_of_superblock, length-bytes_of_superblock}
use ext.Descriptors.{DescriptorsTable, release, free_descriptor}
use ext.Descriptors.Bounds.{IsValid, All-set, release-IsValid}
use ext.Descriptors.Close.{free_descriptor_lem, release-IsConsistent}
use ext.Descriptors.Open.{IsConsistent}
use ext.Descriptors.Store.{
  bytes_of_table, length-bytes_of_table, write_descriptor_table-Ends, read_descriptors_table-Ends,
}
use ext.Block.{get_max_data_size_of_all_blocks}
use ext.Commands.Fresh.{open_fs-Ends}
use ext.Commands.Descriptor.{table_or_exit, save_table, close_file, lseek_pos}

-- The file begins with the superblock and the table.
pub record HasTable (s : Superblock) (table : DescriptorsTable) (bytes : Bytes) : Type 0 where
  pub valid : Blocks.IsValid s
  pub magic : s.fs_info.magic ≡ magic_number
  pub root : get_elem? s.reserved_inodes_mask root_inode_id ≡ some true
  pub superblock_there : Holds bytes 0 (bytes_of_superblock s)
  pub table_valid : IsValid s table
  pub some_descriptor : 0 < s.fs_info.descriptors_count
  pub table_there : Holds bytes (sizeof_superblock s) (bytes_of_table table)

-- The file with another table.
abbrev pub with_table : Superblock → DescriptorsTable → File → File
with_table s table f = after_write (record f { pos = sizeof_superblock s }) (bytes_of_table table)

pub with_table-HasTable :
    (s : Superblock) (table new : DescriptorsTable) (f : File)
    → HasTable s table f.bytes
    → IsValid s new
    → HasTable s new (with_table s new f).bytes
with_table-HasTable s table new f t v =
    let n = length-bytes_of_superblock s t.valid in
    let m = length-bytes_of_table s new v in
    let d = t.some_descriptor in
    record {
      valid = t.valid;
      magic = t.magic;
      root = t.root;
      superblock_there =
          Holds-write_at f.bytes 0 (bytes_of_superblock s) (sizeof_superblock s)
            (bytes_of_table new) t.superblock_there (inl (omega arith));
      table_valid = v;
      some_descriptor = t.some_descriptor;
      table_there = write_at-Holds f.bytes (sizeof_superblock s) (bytes_of_table new) (omega arith);
    }

-- The table after lseek.
abbrev pub moved : DescriptorsTable → ℕ → ℕ → DescriptorsTable
moved table fd pos = record table { fd_to_position = set table.fd_to_position fd pos }

open_is_not_closed : (o : Option Bool) → o ≡ some true → o ≢ some false
open_is_not_closed o a b = cc

module _ {h : Host} (k : IsSteady h) (s : Superblock) where
  pub table_or_exit-Ends :
      (table : DescriptorsTable) (f : File)
      → HasTable s table f.bytes
      → Ends h
          (table_or_exit s)
          f
          table
          (record f { pos = sizeof_superblock s + 7 * s.fs_info.descriptors_count })
  unfolding table_or_exit
  table_or_exit-Ends table f t =
      Ends-bind _ _
        (Ends-attempt (
          read_descriptors_table-Ends k s table f t.table_valid t.valid.info.descriptors_count
            t.table_there))
        (Ends-pure table _)

  pub save_table-Ends :
      (table : DescriptorsTable) (f : File)
      → IsValid s table
      → IsU16 s.fs_info.descriptors_count
      → Ends h (save_table table s) f tt (with_table s table f)
  unfolding save_table
  save_table-Ends table f v r =
      Ends-bind _ _ (Ends-attempt (write_descriptor_table-Ends k s table f v r)) (Ends-pure tt _)

  free_descriptor-Ends :
      (table : DescriptorsTable) (fd : ℕ) (b : Bool) (f : File)
      → get_elem? table.reserved_fd fd ≡ some b
      → Ends h
          (attempt (free_descriptor table fd))
          f
          (if b then some (fd, release table fd) else none)
          f
  unfolding attempt
  free_descriptor-Ends table fd true f e = record {
    at = λ t.
        (t, rw ((free_descriptor_lem table fd h (record { file = f; calls = t })).2 e, caught));
  }
  free_descriptor-Ends table fd false f e = record {
    at = λ t.
        (t, rw ((free_descriptor_lem table fd h (record { file = f; calls = t })).1 e, caught));
  }

  close_file-Ends :
      (table : DescriptorsTable) (fd : ℕ) (b : Bool) (f : File)
      → HasTable s table f.bytes
      → get_elem? table.reserved_fd fd ≡ some b
      → Ends h (close_file fd) f tt (with_table s (if b then release table fd else table) f)
  unfolding close_file
  close_file-Ends table fd true f t e =
      Ends-bind _ _ (open_fs-Ends k s f t.valid t.magic t.root t.superblock_there) (
        Ends-bind _ _ (table_or_exit-Ends table (record f { pos = sizeof_superblock s }) t) (
          Ends-bind _ _ (free_descriptor-Ends table fd true _ e) (
            save_table-Ends (release table fd) _ (release-IsValid s table fd t.table_valid)
              t.valid.info.descriptors_count)))
  close_file-Ends table fd false f t e =
      Ends-bind _ _ (open_fs-Ends k s f t.valid t.magic t.root t.superblock_there) (
        Ends-bind _ _ (table_or_exit-Ends table (record f { pos = sizeof_superblock s }) t) (
          Ends-bind _ _ (free_descriptor-Ends table fd false _ e)
            (save_table-Ends table _ t.table_valid t.valid.info.descriptors_count)))

  -- Under a host that fails no call, for a file that has a valid superblock with the magic number
  -- and a reserved root, and behind it a valid and consistent table: close_file of a descriptor
  -- below the size of the table writes the table with that descriptor released, or the same table
  -- if it is closed; the file has the superblock and that table again, and the table is
  -- consistent.
  pub close_file_lem :
      (table : DescriptorsTable) (fd : ℕ) (b : Bool) (f : File)
      → HasTable s table f.bytes
      → IsConsistent table
      → get_elem? table.reserved_fd fd ≡ some b
      → let new = if b then release table fd else table in
        Ends h (close_file fd) f tt (with_table s new f)
        × HasTable s new (with_table s new f).bytes
        × IsConsistent new
  close_file_lem table fd true f t c e =
      let (v, d) = release-IsConsistent s table fd t.table_valid c in
      (close_file-Ends table fd true f t e, with_table-HasTable s table (release table fd) f t v, d)
  close_file_lem table fd false f t c e =
      (close_file-Ends table fd false f t e, with_table-HasTable s table table f t t.table_valid, c)

  moved-IsValid :
      (table : DescriptorsTable) (fd pos : ℕ)
      → IsValid s table
      → pos < get_max_data_size_of_all_blocks s
      → IsValid s (moved table fd pos)
  unfolding get_max_data_size_of_all_blocks
  moved-IsValid table fd pos v l = record {
    reserved = v.reserved;
    inodes = v.inodes;
    positions = length-set table.fd_to_position fd pos ∙ v.positions;
    inode_range = v.inode_range;
    position_range = All-set IsU32 table.fd_to_position fd pos v.position_range (omega arith);
  }

  pub moved-IsConsistent :
      (table : DescriptorsTable) (fd pos : ℕ)
      → IsConsistent table
      → get_elem? table.reserved_fd fd ≡ some true
      → IsConsistent (moved table fd pos)
  moved-IsConsistent table fd pos c r = record {
    once = c.once;
    clean = λ i e.
        let ne : fd ≢ i = λ p. open_is_not_closed _ r (ap (get_elem? table.reserved_fd) p ∙ e) in
        let (a, b) = c.clean i e in (a, get_elem?-set_ne table.fd_to_position fd i pos ne ∙ b);
  }

  -- Under a host that fails no call, for a file that has a valid superblock with the magic number
  -- and a reserved root, and behind it a valid and consistent table: lseek_pos of an open
  -- descriptor to a position below the capacity of a file writes the table with that position for
  -- the descriptor and no other change; the file has the superblock and that table again, and the
  -- table is consistent.
  pub lseek_pos_lem :
      (table : DescriptorsTable) (fd pos old : ℕ) (f : File)
      → HasTable s table f.bytes
      → IsConsistent table
      → get_elem? table.reserved_fd fd ≡ some true
      → get_elem? table.fd_to_position fd ≡ some old
      → pos < get_max_data_size_of_all_blocks s
      → Ends h (lseek_pos fd pos) f tt (with_table s (moved table fd pos) f)
        × HasTable s (moved table fd pos) (with_table s (moved table fd pos) f).bytes
        × IsConsistent (moved table fd pos)
  unfolding lseek_pos
  lseek_pos_lem table fd pos old f t c e o l =
      let v = moved-IsValid table fd pos t.table_valid l in
      (
        Ends-bind _ _ (open_fs-Ends k s f t.valid t.magic t.root t.superblock_there) (
            Ends-bind _ _ (table_or_exit-Ends table (record f { pos = sizeof_superblock s }) t) (
              Ends-bind _ _ (Ends-element _ true _ e) (
                rw (lt→ltb pos (get_max_data_size_of_all_blocks s) l) (
                  Ends-bind _ _ (Ends-assign table.fd_to_position fd pos old _ o)
                    (save_table-Ends (moved table fd pos) _ v t.valid.info.descriptors_count))))),
        with_table-HasTable s table (moved table fd pos) f t v,
        moved-IsConsistent table fd pos c e,
      )
