-- ===== src/Tests/Runs.antt =====
-- Whole runs of the commands, from an empty file.
use ext.Base.{◌≡◌, refl, [], ◌∷◌}
use ext.Base.Image.{Bytes}
use ext.Os.{Host, moves, ok, M, Outcome, ◌>>=◌, ◌>>◌}
use ext.Commands.Init.{init_fs}
use ext.Commands.Create.{create_file, create_dir}
use ext.Commands.Descriptor.{open_file, lseek_pos}
use ext.Commands.Transfer.{write_to_file, read_file}
use ext.Commands.Listing.{ls}
use ext.Tests.Hosts.{empty_file}

abbrev pub quick : Host
quick = record { reply = λ t. moves 1000; rounds = 10 }

abbrev result : M Bytes → Outcome Bytes
result m = (m quick (record { file = empty_file; calls = 0 })).0

-- A directory, a file in it, and the listing of the directory.
abbrev listing : M Bytes
listing = do
  init_fs
  create_dir (b'/' ∷ b'd' ∷ [])
  create_file (b'/' ∷ b'd' ∷ b'/' ∷ b'a' ∷ [])
  ls (b'/' ∷ b'd' ∷ [])

-- Three bytes written to a file, of which the last two are read.
abbrev reading : M Bytes
reading = do
  init_fs
  create_file (b'/' ∷ b'a' ∷ [])
  fd ← open_file (b'/' ∷ b'a' ∷ [])
  n ← write_to_file 0 (1 ∷ 2 ∷ 3 ∷ [])
  lseek_pos 0 1
  read_file 0 5

-- ".", "..", and "a -- file", a line each; and the two bytes.
both_runs :
    (result listing
      ≡ ok (
          b'.' ∷ 10 ∷ b'.' ∷ b'.' ∷ 10 ∷ b'a' ∷ b' ' ∷ b'-' ∷ b'-' ∷ b' ' ∷ b'f' ∷ b'i' ∷ b'l'
          ∷ b'e' ∷ 10 ∷ []))
    × (result reading ≡ ok (2 ∷ 3 ∷ []))
unfolding create_dir ext.Methods.put_text ext.Methods.give_back ext.Methods.write_new
    ext.Methods.new_inode ext.Methods.dots_block ext.Methods.create_dir_helper
    ext.Methods.create_file_helper ext.Methods.find_record ext.Methods.find_in_block
    ext.Methods.get_inode_id_of_dir_rec ext.Methods.get_inode_id_of_dir ext.Methods.is_dir_exist
    ext.Methods.get_file_inode_id ext.Descriptors.init_descriptors_table
    ext.Descriptors.read_descriptors_table ext.Descriptors.write_descriptor_table
    ext.Descriptors.has_inode ext.Descriptors.reserve_descriptor ext.Descriptors.free_descriptor
    ext.Descriptors.sizeof_descriptors_table ext.Inode.sizeof_inode ext.Inode.calculate_offset
    ext.Inode.init_inode ext.Inode.bytes_of_inode_info ext.Inode.inode_info_of_bytes
    ext.Inode.read_inode ext.Inode.write_inode ext.Inode.sizeof_inodes_block
    ext.Block.max_size_of_data ext.Block.sizeof_block_record ext.Block.init_block_record
    ext.Block.init_block ext.Block.init_block_with_records ext.Block.read_block_record
    ext.Block.write_block_record ext.Block.read_records ext.Block.write_records
    ext.Block.bytes_of_block_info ext.Block.block_info_of_bytes ext.Block.block_offset
    ext.Block.read_contents ext.Block.read_block ext.Block.write_contents ext.Block.write_block
    ext.Block.get_max_records_count ext.Block.get_max_data_in_block
    ext.Block.get_max_data_size_of_all_blocks ext.Block.get_remain_data ext.Paths.strchr
    ext.Paths.strcmp_eq ext.Paths.parse_path ext.Paths.cut_slash ext.Paths.last_slash
    ext.Paths.split_path ext.Paths.parse_command ext.Os.pure ext.Os.fail ext.Os.exit ext.Os.fault
    ext.Os.hang ext.Os.continue ◌>>=◌ ext.Os.attempt ext.Os.element ext.Os.assign ext.Os.sys_open
    ext.Os.lseek ext.Os.read ext.Os.write ext.Superblock.sizeof_superblock
    ext.Superblock.init_super_block ext.Superblock.bytes_of_info ext.Superblock.info_of_bytes
    ext.Superblock.read_super_block ext.Superblock.write_super_block ext.Superblock.first_free
    ext.Superblock.reserve_inode ext.Superblock.free_inode ext.Superblock.reserve_block
    ext.Superblock.free_block ext.Utils.read_loop ext.Utils.read_while ext.Utils.write_loop
    ext.Utils.write_while ext.Utils.fill_loop ext.Utils.fill_while ext.Base.Image.read_at
    ext.Base.Image.write_at ext.Base.Words.byte_of_bool ext.Base.Words.bool_of_byte
    ext.Base.Words.bytes_of_bools ext.Base.Words.bools_of_bytes ext.Base.Words.bytes_of_u16s
    ext.Base.Words.u16s_of_bytes ext.Base.Words.bytes_of_u32s ext.Base.Words.u32s_of_bytes
    ext.Block.Records.bytes_of_records ext.Block.Store.bytes_of_data
    ext.Commands.Create.append_record ext.Commands.Create.link ext.Commands.Create.in_directory
    create_file ext.Commands.Descriptor.table_or_exit ext.Commands.Descriptor.save_table open_file
    ext.Commands.Descriptor.close_file lseek_pos ext.Commands.Opening.open_or_exit
    ext.Commands.Opening.read_with_magic ext.Commands.Opening.open_fs ext.Commands.Transfer.place_of
    ext.Commands.Transfer.block_or_exit ext.Commands.Transfer.inode_or_exit
    ext.Commands.Transfer.save_inode ext.Commands.Transfer.save_all ext.Commands.Transfer.extend
    ext.Commands.Transfer.block_to_write ext.Commands.Transfer.put_data
    ext.Commands.Transfer.write_blocks write_to_file ext.Commands.Transfer.get_data
    ext.Commands.Transfer.read_blocks read_file ext.Commands.Listing.c_string
    ext.Commands.Listing.list_records ls init_fs ext.Commands.Init.read_fs
both_runs = (refl, refl)
