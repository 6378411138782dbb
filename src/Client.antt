-- ===== src/Client.antt =====
-- FileSystem/interface/client.h and main.c: the loop over the commands on the standard input.
pub mod Input
pub mod Copy
pub mod Dispatch
pub mod Keeps
pub mod Loop
pub mod Ends
pub mod Script
pub mod Decimal
pub mod Typed
pub mod Words
pub mod Meaning
pub mod Dialog
