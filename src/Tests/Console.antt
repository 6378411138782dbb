-- ===== src/Tests/Console.antt =====
-- Whole sessions of the client.
use ext.Base.{ℕ, ◌<◌, ◌≡◌, refl, List, [], ◌∷◌, none, All, arith}
use ext.Base.Image.{Bytes}
use ext.Os.{Host, moves, hung}
use ext.Session.{Session}
use ext.Client.Loop.{client}
use ext.Client.Script.{script, quit_line, SameEnd}
use ext.Client.Decimal.{decimal, IsPlain}
use ext.Client.Typed.{
  Command, make_fs, make_dir, write_fd, read_fd_to_size, seek_fd, without_argument, unknown,
  ls_verb, run_all, IsCommand,
}
use ext.Client.Dialog.{lines_of, client-run_all}
use ext.Client.Ends.{Runs, client-Runs}
use ext.Tests.Runs.{quick}

abbrev start : Bytes → Session
start text = record { files = []; stdin = text; buffer = none; printed = []; calls = 0 }

-- "read_fs" on a file that is not there.
abbrev read_missing : Session
read_missing = start (b'r' ∷ b'e' ∷ b'a' ∷ b'd' ∷ b'_' ∷ b'f' ∷ b's' ∷ 10 ∷ [])

read_missing_hangs : (client (b'x' ∷ []) quick read_missing).0 ≡ hung
unfolding client ext.Client.Input.read_command_from_stdin ext.Session.◌>>=◌ ext.Paths.parse_command
    ext.Client.Dispatch.handle ext.Session.on_file ext.Commands.Init.read_fs ext.Os.◌>>=◌
    ext.Os.attempt ext.Os.sys_open ext.Superblock.read_super_block ext.Os.lseek ext.Utils.read_while
    ext.Os.read ext.Base.Image.read_at ext.Session.print ext.Os.hang
read_missing_hangs = refl

client-Runs_example : Runs quick (b'x' ∷ []) read_missing (client (b'x' ∷ []) quick read_missing)
client-Runs_example = client-Runs quick (b'x' ∷ []) read_missing

-- "init", "mkdir /d", "write 3 ab", "read_to 3 x 70", "lseek 12 0", "ls" and "rm".
abbrev typed : List Command
typed =
    make_fs
    ∷ make_dir (b'/' ∷ b'd' ∷ [])
    ∷ write_fd 3 (b'a' ∷ b'b' ∷ [])
    ∷ read_fd_to_size 3 (b'x' ∷ []) 70
    ∷ seek_fd 12 0
    ∷ without_argument ls_verb
    ∷ unknown (b'r' ∷ b'm' ∷ [])
    ∷ []

typed_lines :
    lines_of typed
    ≡ (b'i' ∷ b'n' ∷ b'i' ∷ b't' ∷ [])
      ∷ (b'm' ∷ b'k' ∷ b'd' ∷ b'i' ∷ b'r' ∷ b' ' ∷ b'/' ∷ b'd' ∷ [])
      ∷ (b'w' ∷ b'r' ∷ b'i' ∷ b't' ∷ b'e' ∷ b' ' ∷ b'3' ∷ b' ' ∷ b'a' ∷ b'b' ∷ [])
      ∷ (b'r' ∷ b'e' ∷ b'a' ∷ b'd' ∷ b'_' ∷ b't' ∷ b'o' ∷ b' ' ∷ b'3' ∷ b' ' ∷ b'x' ∷ b' ' ∷ b'7'
          ∷ b'0' ∷ [])
      ∷ (b'l' ∷ b's' ∷ b'e' ∷ b'e' ∷ b'k' ∷ b' ' ∷ b'1' ∷ b'2' ∷ b' ' ∷ b'0' ∷ [])
      ∷ (b'l' ∷ b's' ∷ [])
      ∷ (b'r' ∷ b'm' ∷ [])
      ∷ []
unfolding lines_of decimal
typed_lines = refl

plain : (x : ℕ) → 32 < x → IsPlain x
plain x l = record {
  no_space = λ e. omega arith;
  no_newline = λ e. omega arith;
  no_nul = λ e. omega arith;
}

typed-IsCommand : All IsCommand typed
unfolding decimal
typed-IsCommand = (
  record { proper = tt; short = omega arith },
  (
    record {
      proper = (omega arith, (plain b'/' (omega arith), (plain b'd' (omega arith), tt)));
      short = omega arith;
    },
    (
      record {
        proper = (
          omega arith,
          (omega arith, (plain b'a' (omega arith), (plain b'b' (omega arith), tt))),
        );
        short = omega arith;
      },
      (
        record {
          proper = (omega arith, (omega arith, (plain b'x' (omega arith), tt)), omega arith);
          short = omega arith;
        },
        (
          record { proper = (omega arith, omega arith); short = omega arith },
          (
            record { proper = tt; short = omega arith },
            (
              record {
                proper = (
                  (omega arith, (plain b'r' (omega arith), (plain b'm' (omega arith), tt))),
                  ground arith,
                );
                short = omega arith;
              },
              tt,
            ),
          ),
        ),
      ),
    ),
  ),
)

client-run_all_example :
    let s = start (script (lines_of typed) (quit_line [])) in
    SameEnd (client (b'x' ∷ []) quick s) (run_all (b'x' ∷ []) typed quick s)
client-run_all_example =
    client-run_all quick (b'x' ∷ []) typed [] (start (script (lines_of typed) (quit_line []))) refl
      typed-IsCommand
