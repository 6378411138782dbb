-- ===== src/Commands/Init.antt =====
-- FileSystem/interface/init.h
use ext.Base.{true, none, some}
use ext.Os.{M, pure, exit, attempt, ◌>>=◌, ◌>>◌}
use ext.Superblock.{init_super_block, write_super_block}
use ext.Descriptors.{init_descriptors_table, write_descriptor_table}
use ext.Methods.{create_dir_helper}
use ext.Commands.Opening.{open_or_exit, read_with_magic}

-- The result of create_dir_helper is not looked at.
unfoldable pub init_fs : M (Unit {0})
unfolding open_or_exit
init_fs = do
  open_or_exit true
  let superblock = init_super_block
  superblock_written ← attempt (write_super_block superblock)
  elim superblock_written [
    | none ↦ exit
    | some _ ↦ (do
      table_written ←
          attempt (write_descriptor_table (init_descriptors_table superblock) superblock)
      elim table_written [
        | none ↦ exit
        | some _ ↦ (do created ← create_dir_helper superblock 0 true; pure tt)
      ])
  ]

unfoldable pub read_fs : M (Unit {0})
unfolding read_with_magic
read_fs = do superblock ← read_with_magic; pure tt
