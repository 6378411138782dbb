-- ===== src/Commands.antt =====
-- FileSystem/interface: the commands, each of which opens the file of the file system, does its
-- work and closes it.
pub mod Opening
pub mod Init
pub mod Create
pub mod Listing
pub mod Descriptor
pub mod Transfer
pub mod Fresh
pub mod Keep
pub mod Reach
pub mod Opens
pub mod Entry
pub mod Makes
pub mod Created
pub mod Mkdir
pub mod OneBlock
pub mod WriteOne
pub mod WriteFile
pub mod ReadOne
pub mod ReadRest
pub mod WriteRead
pub mod Machine
pub mod FreshTable
