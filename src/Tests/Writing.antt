-- ===== src/Tests/Writing.antt =====
-- Inode 5 of a fresh file system, open at descriptor 0, with an empty first block.
use ext.Base.{◌<◌, ◌≤◌, ◌≡◌, refl, arith, [], ◌∷◌, some, length, length-append, true}
use ext.Base.Image.{Bytes, write_at, read_at}
use ext.Base.Holds.{write_at-Holds}
use ext.Os.{File, ◌>>=◌, ◌>>◌}
use ext.Os.Ends.{Ends}
use ext.Superblock.{init_super_block}
use ext.Superblock.Store.{length-bytes_of_superblock}
use ext.Descriptors.Store.{length-bytes_of_table}
use ext.Inode.{Inode, calculate_offset, sizeof_inode}
use ext.Inode.Store as Inodes
use ext.Inode.Store.{bytes_of_inode, length-bytes_of_inode}
use ext.Block.{block_offset, max_size_of_data, bytes_of_block_info}
use ext.Block.Store.{file_block, length-bytes_of_block_info, bytes_of_data, reloaded}
use ext.Layout.{superblock, table, inode, block, write_at-other}
use ext.Commands.Descriptor.{lseek_pos}
use ext.Commands.Fresh.{fresh_superblock, fresh_superblock-FitsWords}
use ext.Commands.Keep.{moved}
use ext.Commands.OneBlock.{HasFile, data_bytes, HasFile-data}
use ext.Commands.ReadRest.{after_read_rest, read_rest_lem}
use ext.Commands.Transfer.{write_to_file, read_file}
use ext.Commands.WriteFile.{IsOpen, after_write_to_file, write_to_file_lem}
use ext.Commands.ReadOne.{after_read_file, read_file_lem}
use ext.Commands.WriteRead.{read_file-write_to_file}
use ext.Tests.Closing.{opened_file, opened_file-HasTable}
use ext.Tests.Hosts.{steady, steady-IsSteady}
use ext.Tests.Tables.{opened_table, opened_ok}

abbrev five : Inode
five = record {
  inode_info = record { id = 5; blocks_count = 1; is_file = true };
  block_ids = 5 ∷ 0 ∷ 0 ∷ 0 ∷ 0 ∷ 0 ∷ 0 ∷ 0 ∷ [];
}

five_fits : Inodes.IsValid fresh_superblock five
unfolding init_super_block
five_fits = record {
  id = omega arith;
  blocks_count = omega arith;
  slots = refl;
  small = omega arith;
  ids = omega arith;
}

abbrev empty_data : Bytes
empty_data = data_bytes fresh_superblock 5 5 0 []

length-empty_data : length empty_data ≡ 7
unfolding bytes_of_data
length-empty_data =
    let info = (file_block 5 5 0 []).block_info in
    omega (arith, length-append (bytes_of_block_info info) [], length-bytes_of_block_info info)

abbrev bytes_of_five : Bytes
bytes_of_five =
    write_at (calculate_offset fresh_superblock 5) (bytes_of_inode five)
      (write_at (block_offset fresh_superblock 5) empty_data opened_file.bytes)

abbrev file_of_five : File
file_of_five = record { bytes = bytes_of_five; pos = 0 }

sizes :
    (5 < fresh_superblock.fs_info.inodes_count)
    × (7 ≤ fresh_superblock.fs_info.block_size)
    × (0 < sizeof_inode fresh_superblock)
    × (3 ≤ max_size_of_data fresh_superblock)
unfolding init_super_block sizeof_inode max_size_of_data
sizes = omega arith

five_in_file : HasFile fresh_superblock opened_table bytes_of_five five 5 0 []
five_in_file =
    let z = sizes in
    let has = opened_file-HasTable in
    let n = length-bytes_of_inode fresh_superblock five five_fits in
    let d = length-empty_data in
    let m = length-bytes_of_superblock fresh_superblock has.valid in
    let l = length-bytes_of_table fresh_superblock opened_table has.table_valid in
    let kept = write_at-other fresh_superblock fresh_superblock-FitsWords in
    record {
      has = record {
        valid = has.valid;
        magic = has.magic;
        root = has.root;
        superblock_there =
            kept superblock (inode 5) _ _ _ tt z.0 (λ e. ground arith) (omega arith) (omega arith)
              (kept superblock (block 5) _ _ _ tt tt (λ e. ground arith) (omega arith) (omega arith)
                has.superblock_there);
        table_valid = has.table_valid;
        some_descriptor = has.some_descriptor;
        table_there =
            kept table (inode 5) _ _ _ tt z.0 (λ e. ground arith) (omega arith) (omega arith)
              (kept table (block 5) _ _ _ tt tt (λ e. ground arith) (omega arith) (omega arith)
                has.table_there);
      };
      valid = five_fits;
      known = z.0;
      inode_there =
          write_at-Holds _ (calculate_offset fresh_superblock 5) (bytes_of_inode five)
            (omega arith);
      some_block = omega arith;
      slot = refl;
      ranges = record {
        block_id = omega arith;
        inode_id = omega arith;
        records_count = omega arith;
        data_size = omega arith;
      };
      within = (omega arith, omega arith);
      block_there =
          kept (block 5) (inode 5) _ _ _ tt z.0 (λ e. ground arith) (omega arith) (omega arith)
            (write_at-Holds _ (block_offset fresh_superblock 5) empty_data (omega arith));
      fits = fresh_superblock-FitsWords;
      room = z.1;
    }

five-IsOpen : IsOpen opened_table 0 5 0
five-IsOpen = record {
  reserved = opened_ok.4.0;
  inode_there = opened_ok.4.1;
  position = opened_ok.5;
}

read_file-write_to_file_example :
    (f' : File) × Ends steady
      (do total ← write_to_file 0 (b'a' ∷ b'b' ∷ b'c' ∷ []); lseek_pos 0 0; read_file 0 3)
      file_of_five
      (b'a' ∷ b'b' ∷ b'c' ∷ [])
      f'
read_file-write_to_file_example =
    read_file-write_to_file steady-IsSteady fresh_superblock opened_table file_of_five five 5 0 []
      five_in_file opened_ok.1 0 0 b'a' (b'b' ∷ b'c' ∷ []) five-IsOpen sizes.3

abbrev abc : Bytes
abc = b'a' ∷ b'b' ∷ b'c' ∷ []

abbrev after_abc : File
after_abc =
    after_write_to_file steady-IsSteady fresh_superblock opened_table file_of_five five 5 0 []
      five_in_file 0 0 b'a' (b'b' ∷ b'c' ∷ []) five-IsOpen sizes.3

write_to_file_lem_example :
    Ends steady (write_to_file 0 abc) file_of_five (some 3) after_abc
    × HasFile fresh_superblock
        (moved opened_table 0 3)
        after_abc.bytes
        five
        5
        3
        (write_at 0 abc (reloaded fresh_superblock 0 []))
write_to_file_lem_example =
    write_to_file_lem steady-IsSteady fresh_superblock opened_table file_of_five five 5 0 []
      five_in_file 0 0 b'a' (b'b' ∷ b'c' ∷ []) five-IsOpen sizes.3

abbrev file_with_abc : File
file_with_abc = record {
  bytes =
      write_at (block_offset fresh_superblock 5) (data_bytes fresh_superblock 5 5 3 abc)
        bytes_of_five;
  pos = 0;
}

abc_in_file : HasFile fresh_superblock opened_table file_with_abc.bytes five 5 3 abc
abc_in_file =
    HasFile-data fresh_superblock opened_table bytes_of_five five 5 0 [] five_in_file 3 abc
      (record {
        block_id = omega arith;
        inode_id = omega arith;
        records_count = omega arith;
        data_size = omega arith;
      })
      (omega arith, sizes.3)

-- Two bytes of three.
abbrev after_ab : File
after_ab =
    after_read_file steady-IsSteady fresh_superblock opened_table file_with_abc five 5 3 abc
      abc_in_file 0 1 (omega arith) 0 five-IsOpen

read_file_lem_example :
    Ends steady (read_file 0 2) file_with_abc (read_at 0 2 abc) after_ab
    × HasFile fresh_superblock (moved opened_table 0 2) after_ab.bytes five 5 3 abc
read_file_lem_example =
    read_file_lem steady-IsSteady fresh_superblock opened_table file_with_abc five 5 3 abc
      abc_in_file 0 1 (omega arith) 0 five-IsOpen

three_inside : 3 < max_size_of_data fresh_superblock
unfolding max_size_of_data init_super_block
three_inside = omega arith

abbrev after_rest : File
after_rest =
    after_read_rest steady-IsSteady fresh_superblock opened_table file_with_abc five 5 3 abc
      abc_in_file three_inside 0 0 five-IsOpen 100 (omega arith) (omega arith)

-- 100 bytes are asked for, and there are 3.
read_rest_lem_example :
    Ends steady (read_file 0 100) file_with_abc (read_at 0 3 abc) after_rest
    × HasFile fresh_superblock (moved opened_table 0 3) after_rest.bytes five 5 3 abc
read_rest_lem_example =
    read_rest_lem steady-IsSteady fresh_superblock opened_table file_with_abc five 5 3 abc
      abc_in_file three_inside 0 0 five-IsOpen 100 (omega arith) (omega arith)
