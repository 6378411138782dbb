-- ===== src/Fs/Run.antt =====
-- The commands one after the other, against the description of what they do.
use ext.Base.{◌≡◌, List, [], ◌∷◌, Option, none, some, All, subst}
use ext.Os.{Host, File, M, pure, IsSteady, ◌>>=◌}
use ext.Os.Ends.{Ends, Ends-pure, Ends-bind}
use ext.Fs.{Fs}
use ext.Fs.Transfer.{write_fd-Simulates, read_fd-Simulates}
use ext.Fs.Listing.{list_dir-Simulates}
use ext.Fs.Making.{make_dir-Simulates, make_file-Simulates}
use ext.Fs.Opening.{open_path-Simulates}
use ext.Fs.Represents.{Represents}
use ext.Fs.Sizes.{Keeps, step-Keeps, IsRequest, All-IsRequest-same}
use ext.Fs.Step.{
  Request, make_dir, make_file, open_path, list_dir, close_fd, seek_fd, write_fd, read_fd, perform,
  Reply, step,
}
use ext.Fs.Table.{Simulates, close_fd-Simulates, seek_fd-Simulates}

pub perform_all : List Request → M (List Reply)
perform_all [] = pure []
perform_all (c ∷ cs) = do reply ← perform c; replies ← perform_all cs; pure (reply ∷ replies)

-- The replies, and what is there at the end.
abbrev pub Outcome : Type 0
Outcome = Option (List Reply × Fs)

abbrev behind : Reply → Outcome → Outcome
behind reply none = none
behind reply (some (replies, last)) = some (reply ∷ replies, last)

unfoldable pub run : List Request → Fs → Outcome
run [] fs = some ([], fs)
run (c ∷ cs) fs = elim (step c fs) [ none ↦ none | some (reply, next) ↦ behind reply (run cs next) ]

module _ {h : Host} (k : IsSteady h) where
  -- X
  pub step-Simulates :
      (c : Request) (fs : Fs) (f : File)
      → Represents fs f.bytes
      → IsRequest fs.super c
      → Simulates h (perform c) f (step c fs)
  step-Simulates (make_dir names name) fs f r v = make_dir-Simulates k fs f r names name v
  step-Simulates (make_file names name) fs f r v = make_file-Simulates k fs f r names name v
  step-Simulates (open_path names name) fs f r v = open_path-Simulates k fs f r names name v
  step-Simulates (list_dir names) fs f r v = list_dir-Simulates k fs f r names v
  step-Simulates (close_fd fd) fs f r v = close_fd-Simulates k fs f r fd
  step-Simulates (seek_fd fd pos) fs f r v = seek_fd-Simulates k fs f r fd pos
  step-Simulates (write_fd fd bs) fs f r v = write_fd-Simulates k fs f r fd bs
  step-Simulates (read_fd fd size) fs f r v = read_fd-Simulates k fs f r fd size

  -- The commands end with the replies, and the file represents what is there at the end.
  abbrev Runs : List Request → File → Outcome → Type 0
  Runs cs f none = Unit {0}
  Runs cs f (some (replies, last)) =
      (g : File) × Ends h (perform_all cs) f replies g × Represents last g.bytes

  Runs-behind :
      (c : Request) (cs : List Request) (f g : File) (reply : Reply) (o : Outcome)
      → Ends h (perform c) f reply g
      → Runs cs g o
      → Runs (c ∷ cs) f (behind reply o)
  unfolding perform_all
  Runs-behind c cs f g reply none e rest = tt
  Runs-behind c cs f g reply (some (replies, last)) e (g', ends, r) =
      (g', Ends-bind _ _ e (Ends-bind _ _ ends (Ends-pure _ _)), r)

  step-Runs :
      (c : Request) (cs : List Request) (fs : Fs) (f : File) (o : Option (Reply × Fs))
      → All (IsRequest fs.super) cs
      → Keeps fs o
      → Simulates h (perform c) f o
      → ((next : Fs) (g : File)
          → Represents next g.bytes
          → All (IsRequest next.super) cs
          → Runs cs g (run cs next))
      → Runs (c ∷ cs) f (elim o [ none ↦ none | some (reply, next) ↦ behind reply (run cs next) ])
  step-Runs c cs fs f none v same e rest = tt
  step-Runs c cs fs f (some (reply, next)) v same (g, ends, r) rest =
      Runs-behind c cs f g reply (run cs next) ends
        (rest next g r (All-IsRequest-same fs.super next.super same cs v))

  run-Runs :
      (cs : List Request) (fs : Fs) (f : File)
      → Represents fs f.bytes
      → All (IsRequest fs.super) cs
      → Runs cs f (run cs fs)
  unfolding run perform_all
  run-Runs [] fs f r v = (f, Ends-pure [] f, r)
  run-Runs (c ∷ cs) fs f r v =
      step-Runs c cs fs f (step c fs) v.1 (step-Keeps fs c) (step-Simulates c fs f r v.0)
        (λ next g s w. run-Runs cs next g s w)

  -- Under a host that fails no call, for a file that represents an abstract file system (its
  -- superblock and descriptor table are there, and every directory and file has its inode and a
  -- block of its own there, with its entries or data; every entry leads to a directory or file,
  -- and the root is a directory): if the abstract file system runs a list of commands, the
  -- commands on the file end one after the other with the same replies, and the file represents
  -- the abstract file system at the end. The commands are create_dir, create_file and open_file of
  -- a path, ls of a path that ends with a slash, close_file, lseek_pos, write_to_file and
  -- read_file; a run is described as far as a new directory or file finds a free inode, a free
  -- block and room in its directory, a descriptor is below descriptors_count and, for a read,
  -- open, what is written through an open one has a byte and ends inside the first block of a
  -- file, and what is asked for in a read has a byte and lies inside the data of the first block,
  -- or the data end before the block does and the rest of them is read; the names of the paths
  -- have a byte, no slash and no NUL, and fit the arrays of the functions that split the paths.
  pub perform_all-run :
      (cs : List Request) (fs : Fs) (f : File) (replies : List Reply) (last : Fs)
      → Represents fs f.bytes
      → All (IsRequest fs.super) cs
      → run cs fs ≡ some (replies, last)
      → (g : File) × Ends h (perform_all cs) f replies g × Represents last g.bytes
  perform_all-run cs fs f replies last r v e = subst (Runs cs f) e (run-Runs cs fs f r v)
