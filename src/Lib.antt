-- ===== src/Lib.antt =====
-- A file system in one file of the host (FileSystem/): the file holds a superblock, a table of open
-- descriptors, an array of inodes and an array of blocks, and every command of FileSystem/interface/
-- opens it, reads the structures it needs, changes them and writes them back.
--
-- Which file models which part:
--   Base, Base/*            lists, options and bytes; the image of a file (read_at, write_at)
--   Os, Os/*                open, lseek, read and write on one file; the monad of the program; what an
--                           action does if no call fails (Ends), and whatever happens (Ensures,
--                           Settles)
--   Utils, Utils/*          read_while and write_while (FileSystem/utils.c)
--   Paths, Paths/*          parse_path, split_path, parse_command (FileSystem/utils.c)
--   Superblock, Superblock/*    FileSystem/core/superblock.c and defines.h
--   Descriptors, Descriptors/*  FileSystem/core/descriptors_table.c
--   Inode, Inode/Store      FileSystem/core/inode.c
--   Block, Block/*          FileSystem/core/block.c
--   Layout                  where the parts are in the file
--   RoundTrip               each structure written and read back
--   Methods, Methods/*      FileSystem/core/methods.c; the walk along a path, a new directory or file
--   Commands/Opening, Init, Create, Listing, Descriptor, Transfer
--                           FileSystem/interface/init.h, create_dir.h, create_file.h, ls.h, open_file.h,
--                           close_file.h, lseek_pos.h, write_to_file.h, read_file.h
--   Commands/Fresh, FreshTable, Keep
--                           the file after init_fs; what close_file and lseek_pos leave in it
--   Commands/Reach, Opens   the way of a path to its directory, and open_file there
--   Commands/Entry, Makes, Created, Mkdir
--                           a directory with one more entry; create_dir and create_file
--   Commands/Machine        lists of close_file and lseek_pos as a machine on the table
--   Commands/OneBlock, WriteOne, WriteFile, ReadOne, ReadRest, WriteRead
--                           write_to_file and read_file inside the first block of a file
--   Fs                      the abstract file system: directories, files, and the walk along a path
--   Fs/Step, Run            the commands on it, and lists of them, beside the commands of the program
--   Fs/Represents, Path, Reach
--                           what it means that a file represents it; the walk in the file
--   Fs/Kept, Nodes, Taken, Writes, Grown, Placed, Made, Linked, Sizes
--                           what the writes of a command leave of the nodes, and what they add
--   Fs/Table, Opening, Making, Data, Transfer, Listing
--                           each command of the program against the abstract one
--   Fs/Full, Overfull       create_dir and create_file where nothing is free, or the directory is full
--   Fs/Fresh                the file after init_fs represents the empty file system
--   Session, Session/Keeps  the process around the commands: several files of the host, the standard
--                           input and what is printed
--   Client, Client/*        FileSystem/interface/client.h and main.c: Input has read_command_from_stdin
--                           and get_file_size (FileSystem/utils.c), Copy the commands that copy from or to
--                           a second file (write_to_file_from_file, read_file_to_file) and the totals
--                           that write_to_file and read_file print, Dispatch the commands with their
--                           arguments, Loop the loop and main
--   Client/Ends             the runs of the loop, as a relation without fuel
--   Client/Decimal, Words, Typed, Meaning, Script, Dialog
--                           the commands as they are typed, what each means, and the client on a list of
--                           them
--   Tests, Tests/*          runs on small inputs
--
-- The abstract file system. Fs/Step describes each command as a function on the directories, the files
-- and the descriptor table, which gives a reply, or none where the description stops: no free inode or
-- block, a full directory (the code goes on with released structs there, or makes an inode without an
-- entry), a descriptor beyond the table, a read through a closed one, no data or data that do not lie
-- in the first block of a file, an open directory that is read or written. A path is given by its names, with a slash before each.
--
-- How C is modelled. A struct behind a pointer is a record, and a function that changes it returns the
-- new one. A function that talks to the file is an action `M A`: it takes a host and the state of the
-- file, and ends with a result, with -1 (failed), by exit(EXIT_FAILURE) (exited), with undefined
-- behaviour (faulted), or not within its fuel (hung). Undefined behaviour is an access outside an
-- array, through a null pointer or to released memory, a division by 0, and a second release.
-- Numbers are natural numbers with the wrap-around of uint8_t, uint16_t, uint32_t and size_t written
-- out where the code can reach it. The structs in the file are little-endian and packed; a bool is a
-- byte, and every byte but 0 is true.
--
-- The host is a parameter: for each call it chooses an error or how many bytes the call may move, one
-- at least. IsSteady is a host that fails no call. malloc and calloc do not fail, close does not
-- matter, and messages on the standard error are left out.
--
-- Fuel. A transfer loop moves a byte in each round, except at the end of the file, so a host with
-- 2^18 rounds lets every transfer end that can: the largest is fd_to_position with 65535 entries of 4
-- bytes. The walk along a path takes two bytes of it in each step, and its fuel is the length of the
-- path and one more. The loops of write_to_file and read_file move a byte in each round, and their
-- fuel is the size.
--
-- The session. The process is an action `S A` over the files of the host by name, the rest of the
-- standard input, the command buffer and what was printed. A command opens a file and works on it
-- alone (on_file), so that the actions above are the commands of a session; file descriptors are
-- closed before the next open, or never matter again. The fuel of client counts the commands that it
-- reads: every round takes a byte of the input, or behind its end a byte of the buffer, which has 256,
-- so 257 for each byte of the input and the length of the buffer are enough.
--
-- Not modelled: the build files and the script that runs valgrind; the wording of what is printed (a
-- session lists what was said, with the numbers, names and data in it; a command that prints nothing adds
-- nothing, and ls without an entry an empty listing); the lines that ls has printed when one of its reads
-- then does not return; the contents of memory after undefined behaviour, where the model stops (faulted).
pub mod Base
pub mod Os
pub mod Utils
pub mod Superblock
pub mod Descriptors
pub mod Inode
pub mod Block
pub mod Layout
pub mod Methods
pub mod Paths
pub mod Commands
pub mod Session
pub mod Fs
pub mod Client
pub mod RoundTrip
pub mod Tests
