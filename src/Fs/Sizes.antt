-- ===== src/Fs/Sizes.antt =====
-- No command changes the sizes of the file system: they are fixed by init.
use ext.Base.{
  ℕ, zero, suc, ◌+◌, ◌≡◌, refl, subst, Bool, true, false, List, [], ◌∷◌, Option, none, some, All,
  ◌<◌, length,
}
use ext.Base.Image.{Bytes}
use ext.Descriptors.{DescriptorsTable}
use ext.Superblock.{Superblock}
use ext.Methods.Names.{Entries}
use ext.Methods.Walk.{IsPathName}
use ext.Commands.Machine as Machine
use ext.Fs.{Node, folder, regular, Fs}
use ext.Fs.Reach.{IsPath}
use ext.Fs.Step.{
  Request, make_dir, make_file, open_path, list_dir, close_fd, seek_fd, write_fd, read_fd, Reply,
  in_table, opened, make_in, make_at, make_from, write_in, write_to, write_entry, read_in,
  read_from, read_entry, step,
}

-- A step keeps the sizes.
abbrev pub Keeps : Fs → Option (Reply × Fs) → Type 0
Keeps fs none = Unit {0}
Keeps fs (some (reply, next)) = fs.super.fs_info ≡ next.super.fs_info

module _ (fs : Fs) where
  in_table-Keeps : (c : Machine.Command) (inside : Bool) → Keeps fs (in_table c fs inside)
  in_table-Keeps c true = refl
  in_table-Keeps c false = tt

  opened-Keeps : (o : Option (ℕ × DescriptorsTable)) → Keeps fs (some (opened fs o))
  opened-Keeps none = refl
  opened-Keeps (some (fd, new)) = refl

  module _ (is_file : Bool) (name : Bytes) where
    make_in-Keeps :
        (parent pb : ℕ) (first : ℕ × Bytes) (others : Entries) (o : Option ℕ) (inside : Bool)
        (i b : Option ℕ)
        → Keeps fs (make_in is_file fs parent pb first others name o inside i b)
    make_in-Keeps parent pb first others (some inode) inside i b = refl
    make_in-Keeps parent pb first others none true (some id) (some b) = refl
    make_in-Keeps parent pb first others none true (some id) none = tt
    make_in-Keeps parent pb first others none true none b = tt
    make_in-Keeps parent pb first others none false i b = tt

    make_at-Keeps : (parent : ℕ) (o : Option Node) → Keeps fs (make_at is_file fs name parent o)
    make_at-Keeps parent none = refl
    make_at-Keeps parent (some (regular b n contents)) = refl
    make_at-Keeps parent (some (folder pb first others)) =
        make_in-Keeps parent pb first others _ _ _ _

    make_from-Keeps : (o : Option ℕ) → Keeps fs (make_from is_file fs name o)
    make_from-Keeps none = refl
    make_from-Keeps (some parent) = make_at-Keeps parent (fs.nodes parent)

  module _ (fd : ℕ) where
    write_in-Keeps :
        (i pos b n : ℕ) (contents bs : Bytes) (inside : Bool)
        → Keeps fs (write_in fs fd i pos b n contents bs inside)
    write_in-Keeps i pos b n contents bs true = refl
    write_in-Keeps i pos b n contents bs false = tt

    write_to-Keeps :
        (i pos : ℕ) (bs : Bytes) (o : Option Node) → Keeps fs (write_to fs fd i pos bs o)
    write_to-Keeps i pos [] o = tt
    write_to-Keeps i pos (c ∷ cs) none = tt
    write_to-Keeps i pos (c ∷ cs) (some (folder b first others)) = tt
    write_to-Keeps i pos (c ∷ cs) (some (regular b n contents)) =
        write_in-Keeps i pos b n contents (c ∷ cs) _

    write_entry-Keeps :
        (bs : Bytes) (a : Option Bool) (i pos : Option ℕ) → Keeps fs (write_entry fs fd bs a i pos)
    write_entry-Keeps bs none i pos = tt
    write_entry-Keeps bs (some false) i pos = refl
    write_entry-Keeps bs (some true) none pos = tt
    write_entry-Keeps bs (some true) (some i) none = tt
    write_entry-Keeps bs (some true) (some i) (some pos) = write_to-Keeps i pos bs (fs.nodes i)

    read_in-Keeps :
        (pos size n : ℕ) (contents : Bytes) (inside ends behind : Bool)
        → Keeps fs (read_in fs fd pos size n contents inside ends behind)
    read_in-Keeps pos size n contents true ends behind = refl
    read_in-Keeps pos size n contents false true false = refl
    read_in-Keeps pos size n contents false true true = tt
    read_in-Keeps pos size n contents false false behind = tt

    read_from-Keeps : (pos size : ℕ) (o : Option Node) → Keeps fs (read_from fs fd pos size o)
    read_from-Keeps pos zero o = tt
    read_from-Keeps pos (suc need) none = tt
    read_from-Keeps pos (suc need) (some (folder b first others)) = tt
    read_from-Keeps pos (suc need) (some (regular b n contents)) =
        read_in-Keeps pos (suc need) n contents _ _ _

    read_entry-Keeps :
        (size : ℕ) (a : Option Bool) (i pos : Option ℕ) → Keeps fs (read_entry fs fd size a i pos)
    read_entry-Keeps size none i pos = tt
    read_entry-Keeps size (some false) i pos = tt
    read_entry-Keeps size (some true) none pos = tt
    read_entry-Keeps size (some true) (some i) none = tt
    read_entry-Keeps size (some true) (some i) (some pos) = read_from-Keeps pos size (fs.nodes i)

  pub step-Keeps : (c : Request) → Keeps fs (step c fs)
  unfolding step
  step-Keeps (make_dir names name) = make_from-Keeps false name _
  step-Keeps (make_file names name) = make_from-Keeps true name _
  step-Keeps (open_path names name) = opened-Keeps _
  step-Keeps (list_dir names) = refl
  step-Keeps (close_fd fd) = in_table-Keeps (Machine.close fd) _
  step-Keeps (seek_fd fd pos) = in_table-Keeps (Machine.seek fd pos) _
  step-Keeps (write_fd fd bs) = write_entry-Keeps fd bs _ _ _
  step-Keeps (read_fd fd size) = read_entry-Keeps fd size _ _ _

-- What a request asks of its path.
abbrev pub IsRequest : Superblock → Request → Type 0
IsRequest s (make_dir names name) = IsPath s names name
IsRequest s (make_file names name) = IsPath s names name
IsRequest s (open_path names name) = IsPath s names name
IsRequest s (list_dir names) = All (IsPathName s) names
IsRequest s _ = Unit {0}

module _ (s t : Superblock) (e : s.fs_info ≡ t.fs_info) where
  IsPathName-same : (name : Bytes) → IsPathName s name → IsPathName t name
  IsPathName-same name v = record {
    some_byte = v.some_byte;
    named = v.named;
    text = v.text;
    short = subst (λ i. length name + 1 < i.max_path_len) e v.short;
  }

  All-same : (names : List Bytes) → All (IsPathName s) names → All (IsPathName t) names
  All-same [] a = tt
  All-same (name ∷ names) a = (IsPathName-same name a.0, All-same names a.1)

  IsPath-same : (names : List Bytes) (name : Bytes) → IsPath s names name → IsPath t names name
  IsPath-same names name v = record {
    parts = All-same names v.parts;
    last = IsPathName-same name v.last;
    short = v.short;
  }

  IsRequest-same : (c : Request) → IsRequest s c → IsRequest t c
  IsRequest-same (make_dir names name) v = IsPath-same names name v
  IsRequest-same (make_file names name) v = IsPath-same names name v
  IsRequest-same (open_path names name) v = IsPath-same names name v
  IsRequest-same (list_dir names) v = All-same names v
  IsRequest-same (close_fd fd) v = tt
  IsRequest-same (seek_fd fd pos) v = tt
  IsRequest-same (write_fd fd bs) v = tt
  IsRequest-same (read_fd fd size) v = tt

  pub All-IsRequest-same : (cs : List Request) → All (IsRequest s) cs → All (IsRequest t) cs
  All-IsRequest-same [] a = tt
  All-IsRequest-same (c ∷ cs) a = (IsRequest-same c a.0, All-IsRequest-same cs a.1)
