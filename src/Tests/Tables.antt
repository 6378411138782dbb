-- ===== src/Tests/Tables.antt =====
-- The descriptor table at concrete inputs: the empty table, and inode 5 opened in it.
use ext.Base.{◌≡◌, ◌<◌, refl, arith, none, some, false, get_elem?}
use ext.Os.{World, ok}
use ext.Superblock.{init_super_block}
use ext.Descriptors.{
  DescriptorsTable, init_descriptors_table, occupy, release, reserve_descriptor, free_descriptor,
}
use ext.Descriptors.Bounds.{IsValid, init_descriptors_table-IsValid}
use ext.Descriptors.Close.{Closed, free_descriptor-Closed, free_descriptor-reserve_descriptor}
use ext.Descriptors.Open.{
  IsConsistent, Opens, init_descriptors_table-IsConsistent, reserve_descriptor-IsConsistent,
  reserve_descriptor-root,
}
use ext.Tests.Hosts.{steady, empty_file}

abbrev pub empty_table : DescriptorsTable
empty_table = init_descriptors_table init_super_block

abbrev pub opened_table : DescriptorsTable
opened_table = occupy empty_table 0 5

abbrev world : World
world = record { file = empty_file; calls = 0 }

reserve-five : reserve_descriptor empty_table 5 ≡ some (0, opened_table)
unfolding reserve_descriptor init_descriptors_table init_super_block ext.Descriptors.has_inode
    ext.Superblock.first_free
reserve-five = refl

reserve_descriptor-IsConsistent_example :
    IsValid init_super_block opened_table
    × IsConsistent opened_table
    × (get_elem? empty_table.reserved_fd 0 ≡ some false)
    × (0 < init_super_block.fs_info.descriptors_count)
    × Opens opened_table 0 5
    × (get_elem? opened_table.fd_to_position 0 ≡ some 0)
reserve_descriptor-IsConsistent_example =
    reserve_descriptor-IsConsistent init_super_block empty_table 5 0 opened_table
      (init_descriptors_table-IsValid init_super_block) (omega arith)
      (init_descriptors_table-IsConsistent init_super_block) reserve-five

pub opened_ok :
    IsValid init_super_block opened_table
    × IsConsistent opened_table
    × (get_elem? empty_table.reserved_fd 0 ≡ some false)
    × (0 < init_super_block.fs_info.descriptors_count)
    × Opens opened_table 0 5
    × (get_elem? opened_table.fd_to_position 0 ≡ some 0)
opened_ok =
    reserve_descriptor-IsConsistent init_super_block empty_table 5 0 opened_table
      (init_descriptors_table-IsValid init_super_block) (omega arith)
      (init_descriptors_table-IsConsistent init_super_block) reserve-five

one_is_free : get_elem? opened_table.reserved_fd 1 ≡ some false
unfolding init_descriptors_table init_super_block
one_is_free = refl

reserve_descriptor-root_example : reserve_descriptor opened_table 0 ≡ none
reserve_descriptor-root_example = reserve_descriptor-root opened_table 1 opened_ok.1 one_is_free

free_descriptor-Closed_example :
    (table : DescriptorsTable) × (free_descriptor opened_table 0 steady world
      ≡ (ok (0, table), world))
    × Closed init_super_block opened_table 0 table
unfolding init_descriptors_table init_super_block
free_descriptor-Closed_example =
    free_descriptor-Closed init_super_block opened_table 0 steady world opened_ok.0 opened_ok.1

free_descriptor-reserve_descriptor_example :
    free_descriptor opened_table 0 steady world ≡ (ok (0, empty_table), world)
free_descriptor-reserve_descriptor_example =
    free_descriptor-reserve_descriptor empty_table 5 0 opened_table steady world
      (init_descriptors_table-IsConsistent init_super_block) reserve-five
