-- ===== src/Commands/Machine.antt =====
-- close_file and lseek_pos, one after the other, and the machine on the table alone that they are.
use ext.Base.{
  ℕ, zero, suc, ◌+◌, ◌*◌, ◌<◌, ◌≡◌, refl, Bool, true, false, List, [], ◌∷◌, Option, some, All,
  length, get_elem?, get_elem?-lt, ltb, ltb→lt, ◌⊎◌, arith, if◌then◌else◌, Bool-cases, inl, inr,
}
use ext.Os.{Host, File, M, pure, IsSteady, ◌>>◌}
use ext.Os.Ends.{Ends, Ends-pure, Ends-bind, Ends-element}
use ext.Superblock.{Superblock, sizeof_superblock}
use ext.Descriptors.{DescriptorsTable, release}
use ext.Descriptors.Open.{IsConsistent}
use ext.Block.{get_max_data_size_of_all_blocks}
use ext.Commands.Descriptor.{close_file, lseek_pos}
use ext.Commands.Fresh.{open_fs-Ends}
use ext.Commands.Keep.{
  HasTable, with_table, moved, table_or_exit-Ends, close_file_lem, lseek_pos_lem,
}

pub data Command : Type 0 where
  close : ℕ → Command
  seek : ℕ → ℕ → Command

-- The descriptor of a command.
abbrev pub descriptor : Command → ℕ
descriptor (close fd) = fd
descriptor (seek fd pos) = fd

abbrev pub perform : Command → M (Unit {0})
perform (close fd) = close_file fd
perform (seek fd pos) = lseek_pos fd pos

pub perform_all : List Command → M (Unit {0})
perform_all [] = pure tt
perform_all (c ∷ cs) = do perform c; perform_all cs

-- A command on the table: a closed descriptor and a position beyond a file's capacity change nothing.
abbrev pub in_table : ℕ → Command → DescriptorsTable → Option Bool → DescriptorsTable
in_table capacity (close fd) table (some true) = release table fd
in_table capacity (seek fd pos) table (some true) =
    if ltb pos capacity then moved table fd pos else table
in_table capacity c table _ = table

abbrev pub step : ℕ → Command → DescriptorsTable → DescriptorsTable
step capacity c table = in_table capacity c table (get_elem? table.reserved_fd (descriptor c))

pub steps : ℕ → List Command → DescriptorsTable → DescriptorsTable
steps capacity [] table = table
steps capacity (c ∷ cs) table = steps capacity cs (step capacity c table)

some_element :
    {A : Type 0} (xs : List A) (i : ℕ) → i < length xs → (a : A) × (get_elem? xs i ≡ some a)
some_element [] i l = absurd (omega arith)
some_element (x ∷ xs) zero l = (x, refl)
some_element (x ∷ xs) (suc i) l = some_element xs i (omega arith)

Ends-if_same :
    {A : Type 0} {h : Host} {m : M A} {f f' : File} {a : A} (b : Bool)
    → Ends h m f a f'
    → Ends h (if b then m else m) f a f'
Ends-if_same true e = e
Ends-if_same false e = e

module _ {h : Host} (k : IsSteady h) (s : Superblock) where
  abbrev capacity : ℕ
  capacity = get_max_data_size_of_all_blocks s

  -- What a command does to a file: it has the table afterwards, and nothing or the table is written.
  abbrev Does : M (Unit {0}) → File → DescriptorsTable → Type 0
  Does m f table =
      (f' : File) × Ends h m f tt f'
      × HasTable s table f'.bytes
      × IsConsistent table
      × ((f'.bytes ≡ f.bytes) ⊎ (f'.bytes ≡ (with_table s table f).bytes))

  -- lseek_pos reads the table and leaves it.
  idle :
      (fd pos : ℕ) (b : Bool) (table : DescriptorsTable) (f : File)
      → HasTable s table f.bytes
      → IsConsistent table
      → get_elem? table.reserved_fd fd ≡ some b
      → (b ≡ false) ⊎ (ltb pos capacity ≡ false)
      → Does (lseek_pos fd pos) f table
  unfolding lseek_pos
  idle fd pos b table f t c e o = (
    record f { pos = sizeof_superblock s + 7 * s.fs_info.descriptors_count },
    Ends-bind _ _ (open_fs-Ends k s f t.valid t.magic t.root t.superblock_there) (
        Ends-bind _ _ (table_or_exit-Ends k s table (record f { pos = sizeof_superblock s }) t) (
          Ends-bind _ _ (Ends-element _ b _ e) (elim o [
            | inl n ↦ rw n (Ends-pure tt _)
            | inr n ↦ rw n (Ends-if_same b (Ends-pure tt _))
          ]))),
    t,
    c,
    inl refl,
  )

  seek-Does :
      (fd pos : ℕ) (b : Bool) (table : DescriptorsTable) (f : File)
      → HasTable s table f.bytes
      → IsConsistent table
      → get_elem? table.reserved_fd fd ≡ some b
      → Does (lseek_pos fd pos) f (in_table capacity (seek fd pos) table (some b))
  seek-Does fd pos false table f t c e = idle fd pos false table f t c e (inl refl)
  seek-Does fd pos true table f t c e = elim (Bool-cases (ltb pos capacity)) [
    | inl l ↦
        let v = t.table_valid in
        let vr = v.reserved in
        let vp = v.positions in
        let n = get_elem?-lt table.reserved_fd fd true e in
        let (old, o) = some_element table.fd_to_position fd (omega arith) in
        let (ends, u, d) = lseek_pos_lem k s table fd pos old f t c e o (ltb→lt pos capacity l) in
        rw l (with_table s (moved table fd pos) f, ends, u, d, inr refl)
    | inr l ↦ rw l (idle fd pos true table f t c e (inr l))
  ]

  close-Does :
      (fd : ℕ) (b : Bool) (table : DescriptorsTable) (f : File)
      → HasTable s table f.bytes
      → IsConsistent table
      → get_elem? table.reserved_fd fd ≡ some b
      → Does (close_file fd) f (in_table capacity (close fd) table (some b))
  close-Does fd true table f t c e =
      let (ends, u, d) = close_file_lem k s table fd true f t c e in
      (with_table s (release table fd) f, ends, u, d, inr refl)
  close-Does fd false table f t c e =
      let (ends, u, d) = close_file_lem k s table fd false f t c e in
      (with_table s table f, ends, u, d, inr refl)

  pub perform-Does :
      (c : Command) (table : DescriptorsTable) (f : File)
      → HasTable s table f.bytes
      → IsConsistent table
      → descriptor c < s.fs_info.descriptors_count
      → Does (perform c) f (step capacity c table)
  perform-Does (close fd) table f t c l =
      let v = t.table_valid.reserved in
      let (b, e) = some_element table.reserved_fd fd (omega arith) in
      rw e (close-Does fd b table f t c e)
  perform-Does (seek fd pos) table f t c l =
      let v = t.table_valid.reserved in
      let (b, e) = some_element table.reserved_fd fd (omega arith) in
      rw e (seek-Does fd pos b table f t c e)

  -- Under a host that fails no call, for a file that has a valid superblock with the magic number,
  -- a reserved root and behind it a valid and consistent table: any list of close_file and
  -- lseek_pos on descriptors below descriptors_count ends, and the file then has the same
  -- superblock and the table that a machine on the table alone makes of the list, which releases
  -- an open descriptor, moves an open one to a position below the capacity of a file, and changes
  -- nothing in every other case; that table is valid and consistent.
  pub perform_all-steps :
      (cs : List Command) (table : DescriptorsTable) (f : File)
      → HasTable s table f.bytes
      → IsConsistent table
      → All (λ c. descriptor c < s.fs_info.descriptors_count) cs
      → (f' : File) × Ends h (perform_all cs) f tt f'
        × HasTable s (steps (get_max_data_size_of_all_blocks s) cs table) f'.bytes
        × IsConsistent (steps (get_max_data_size_of_all_blocks s) cs table)
  unfolding perform_all steps
  perform_all-steps [] table f t c l = (f, Ends-pure tt f, t, c)
  perform_all-steps (x ∷ cs) table f t c l =
      let (g, e, u, d, w) = perform-Does x table f t c l.0 in
      let (f', e', u', d') = perform_all-steps cs (step capacity x table) g u d l.1 in
      (f', Ends-bind _ _ e e', u', d')
