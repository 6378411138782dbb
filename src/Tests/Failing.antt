-- ===== src/Tests/Failing.antt =====
-- Hosts that fail calls.
use ext.Base.{ℕ, ◌<◌, ◌≡◌, ◌^◌, true, arith, []}
use ext.Os.{Host, World, error, ok}
use ext.Superblock.{Superblock, init_super_block}
use ext.Superblock.Bounds.{init_super_block-IsValid}
use ext.Os.Ensures.{Ensures}
use ext.Methods.{create_dir_helper, create_file_helper}
use ext.Methods.Failures.{AllOrNothing, create_dir_helper-AllOrNothing}
use ext.Methods.Returns.{create_file_helper_lem}

abbrev start : World
start = record { file = record { bytes = []; pos = 0 }; calls = 0 }

create_dir_helper-AllOrNothing_example :
    Ensures (AllOrNothing init_super_block) (create_dir_helper init_super_block 0 true)
create_dir_helper-AllOrNothing_example =
    create_dir_helper-AllOrNothing init_super_block 0 true init_super_block-IsValid

-- A host that fails every call.
abbrev broken : Host
broken = record { reply = λ t. error; rounds = 2 ^ 18 }

some_slots : 0 < init_super_block.fs_info.blocks_count_in_inode
unfolding init_super_block
some_slots = omega arith

create_file_helper_lem_example :
    (r : ℕ × Superblock) × ((create_file_helper init_super_block 0 broken start).0 ≡ ok r)
    × AllOrNothing init_super_block r
create_file_helper_lem_example =
    create_file_helper_lem init_super_block 0 broken start init_super_block-IsValid some_slots
      (omega arith)
