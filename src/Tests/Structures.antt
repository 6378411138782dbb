-- ===== src/Tests/Structures.antt =====
-- The structures of the file system at concrete inputs.
use ext.Base.{◌≡◌, ◌≢◌, ◌+◌, ◌*◌, ◌≤◌, refl, arith, [], ◌∷◌, ◌++◌, length, replicate, true}
use ext.Base.Words.{IsU16}
use ext.Descriptors.{
  DescriptorsTable, init_descriptors_table, read_descriptors_table, write_descriptor_table,
}
use ext.Descriptors.Bounds.{init_descriptors_table-IsValid}
use ext.Descriptors.Store.{bytes_of_table}
use ext.Inode.{Inode, read_inode, write_inode, calculate_offset, sizeof_inode}
use ext.Inode.Store
use ext.Inode.Store.{bytes_of_inode}
use ext.Block.{
  read_block, write_block, block_offset, sizeof_block_record, bytes_of_block_info, max_size_of_data,
}
use ext.Block.Records.{bytes_of_records}
use ext.Block.Store.{directory, file_block, reloaded, bytes_of_data}
use ext.Tests.Places.{two_records, two_records-All}
use ext.Os.{◌>>◌}
use ext.Os.Ends.{Ends}
use ext.RoundTrip.{
  read_super_block-write_super_block, read_descriptors_table-write_descriptor_table,
  read_inode-write_inode, read_block-write_block-directory, read_block-write_block-file_block,
}
use ext.Base.Image.{write_at}
use ext.Superblock.Store.{bytes_of_superblock}
use ext.Superblock.{
  read_super_block, write_super_block, sizeof_superblock, init_super_block, reserve_inode,
  reserve_block, free_inode,
}
use ext.Superblock.Bounds.{init_super_block-IsValid}
use ext.Superblock.Masks.{Reserves, reserve_inode_lem, free_inode-reserve_inode}
use ext.Tests.Hosts.{steady, steady-IsSteady, empty_file}

reserve_inode_lem_example :
    let (id, s) = reserve_inode init_super_block in
    Reserves init_super_block.reserved_inodes_mask 128 id s.reserved_inodes_mask
    × (s ≡ record init_super_block { reserved_inodes_mask = s.reserved_inodes_mask })
unfolding init_super_block
reserve_inode_lem_example = reserve_inode_lem init_super_block init_super_block-IsValid

read_super_block-write_super_block_example :
    Ends steady
      (do write_super_block init_super_block; read_super_block)
      empty_file
      init_super_block
      (record {
        bytes = write_at 0 (bytes_of_superblock init_super_block) [];
        pos = sizeof_superblock init_super_block;
      })
read_super_block-write_super_block_example =
    read_super_block-write_super_block steady-IsSteady init_super_block empty_file
      init_super_block-IsValid

first_is_free : (reserve_inode init_super_block).0 ≢ init_super_block.fs_info.inodes_count
unfolding reserve_inode init_super_block ext.Superblock.first_free
first_is_free e = ground arith

free_inode-reserve_inode_example :
    Ends steady
      (free_inode (reserve_inode init_super_block).1 (reserve_inode init_super_block).0)
      empty_file
      ((reserve_inode init_super_block).0, init_super_block)
      empty_file
free_inode-reserve_inode_example =
    free_inode-reserve_inode steady empty_file init_super_block init_super_block-IsValid
      first_is_free

abbrev some_table : DescriptorsTable
some_table = init_descriptors_table init_super_block

read_descriptors_table-write_descriptor_table_example :
    Ends steady
      (do
        write_descriptor_table some_table init_super_block
        read_descriptors_table init_super_block)
      empty_file
      some_table
      (record {
        bytes = write_at (sizeof_superblock init_super_block) (bytes_of_table some_table) [];
        pos = sizeof_superblock init_super_block + 7 * init_super_block.fs_info.descriptors_count;
      })
unfolding init_super_block
read_descriptors_table-write_descriptor_table_example =
    read_descriptors_table-write_descriptor_table steady-IsSteady init_super_block some_table
      empty_file (init_descriptors_table-IsValid init_super_block) (omega arith) (omega arith)

abbrev some_inode : Inode
some_inode = record {
  inode_info = record { id = 3; blocks_count = 1; is_file = true };
  block_ids = 9 ∷ replicate 7 0;
}

some_inode-IsValid : Store.IsValid init_super_block some_inode
unfolding init_super_block
some_inode-IsValid = record {
  id = omega arith;
  blocks_count = omega arith;
  slots = refl;
  small = omega arith;
  ids = (
    omega arith,
    (
      omega arith,
      (omega arith, (omega arith, (omega arith, (omega arith, (omega arith, (omega arith, tt)))))),
    ),
  );
}

read_inode-write_inode_example :
    Ends steady
      (do write_inode some_inode init_super_block; read_inode 3 init_super_block)
      empty_file
      some_inode
      (record {
        bytes = write_at (calculate_offset init_super_block 3) (bytes_of_inode some_inode) [];
        pos = calculate_offset init_super_block 3 + sizeof_inode init_super_block;
      })
read_inode-write_inode_example =
    read_inode-write_inode steady-IsSteady init_super_block some_inode empty_file some_inode-IsValid

small_paths : IsU16 init_super_block.fs_info.max_path_len
unfolding init_super_block
small_paths = omega arith

read_block-write_block-directory_example :
    Ends steady
      (do
        write_block (directory init_super_block 4 0 two_records) init_super_block
        read_block 4 init_super_block)
      empty_file
      (directory init_super_block 4 0 two_records)
      (record {
        bytes =
            write_at
              (block_offset init_super_block 4)
              (bytes_of_block_info (directory init_super_block 4 0 two_records).block_info
                ++ bytes_of_records two_records)
              [];
        pos =
            block_offset init_super_block 4
            + (7 + length two_records * sizeof_block_record init_super_block);
      })
read_block-write_block-directory_example =
    read_block-write_block-directory steady-IsSteady init_super_block 4 0
      (record { inode_id = 0; path = b'.' ∷ replicate 15 0 })
      (record { inode_id = 0; path = b'.' ∷ b'.' ∷ replicate 14 0 } ∷ []) empty_file small_paths
      two_records-All
      (record {
        block_id = omega arith;
        inode_id = omega arith;
        records_count = omega arith;
        data_size = omega arith;
      })

three_bytes : 3 ≤ max_size_of_data init_super_block
unfolding init_super_block max_size_of_data
three_bytes = omega arith

read_block-write_block-file_block_example :
    Ends steady
      (do
        write_block (file_block 4 1 3 (1 ∷ 2 ∷ 3 ∷ 4 ∷ [])) init_super_block
        read_block 4 init_super_block)
      empty_file
      (file_block 4 1 3 (reloaded init_super_block 3 (1 ∷ 2 ∷ 3 ∷ 4 ∷ [])))
      (record {
        bytes =
            write_at
              (block_offset init_super_block 4)
              (bytes_of_block_info (file_block 4 1 3 (1 ∷ 2 ∷ 3 ∷ 4 ∷ [])).block_info
                ++ bytes_of_data init_super_block 3 (1 ∷ 2 ∷ 3 ∷ 4 ∷ []))
              [];
        pos = block_offset init_super_block 4 + (7 + 3);
      })
read_block-write_block-file_block_example =
    read_block-write_block-file_block steady-IsSteady init_super_block 4 1 3 (1 ∷ 2 ∷ 3 ∷ 4 ∷ [])
      empty_file (omega arith) three_bytes (omega arith)
      (record {
        block_id = omega arith;
        inode_id = omega arith;
        records_count = omega arith;
        data_size = omega arith;
      })
