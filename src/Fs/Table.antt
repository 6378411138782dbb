-- ===== src/Fs/Table.antt =====
-- open_file, close_file and lseek_pos, against what they do to the nodes and the table.
use ext.Base.{
  ℕ, ◌≡◌, refl, sym, subst, Bool, true, false, [], ◌∷◌, Option, none, some, arith, inl, inr, ltb,
  ltb→lt, ◌⊎◌,
}
use ext.Base.Image.{Bytes}
use ext.Os.{Host, File, M, pure, IsSteady, ◌>>◌}
use ext.Os.Ends.{Ends, Ends-pure, Ends-bind}
use ext.Descriptors.{DescriptorsTable}
use ext.Descriptors.Bounds as Tables
use ext.Descriptors.Store.{bytes_of_table, length-bytes_of_table}
use ext.Layout.{table}
use ext.Commands.Keep.{with_table}
use ext.Commands.Machine as Machine
use ext.Fs.{Fs}
use ext.Fs.Kept.{Kept, Kept-refl, Kept-write, Represents-table}
use ext.Fs.Represents.{Represents}
use ext.Fs.Step.{close_fd, seek_fd, perform, Reply, nothing, capacity, step, in_table}

-- A step of the description, done by an action: the action ends with the reply, and the file then
-- represents what the step leaves. What the description leaves out is not spoken of.
abbrev pub Simulates : Host → M Reply → File → Option (Reply × Fs) → Type 0
Simulates h m f none = Unit {0}
Simulates h m f (some (reply, fs)) = (g : File) × Ends h m f reply g × Represents fs g.bytes

module _ (fs : Fs) (f : File) (r : Represents fs f.bytes) where
  with_table-Kept :
      (new : DescriptorsTable)
      → Tables.IsValid fs.super new
      → Kept fs.super (table ∷ []) f.bytes (with_table fs.super new f).bytes
  with_table-Kept new v =
      let n = length-bytes_of_table fs.super new v in
      Kept-write fs.super table f.bytes (bytes_of_table new) r.sizes.fits tt (omega arith)

  pub touched-Kept :
      (new : DescriptorsTable) (g : Bytes)
      → Tables.IsValid fs.super new
      → (g ≡ f.bytes) ⊎ (g ≡ (with_table fs.super new f).bytes)
      → Kept fs.super (table ∷ []) f.bytes g
  touched-Kept new g v (inl e) =
      subst (Kept fs.super (table ∷ []) f.bytes) (sym e) (Kept-refl fs.super (table ∷ []) f.bytes)
  touched-Kept new g v (inr e) =
      subst (Kept fs.super (table ∷ []) f.bytes) (sym e) (with_table-Kept new v)

module _ {h : Host} (k : IsSteady h) (fs : Fs) (f : File) (r : Represents fs f.bytes) where
  in_table-Simulates :
      (c : Machine.Command) (inside : Bool)
      → ltb (Machine.descriptor c) fs.super.fs_info.descriptors_count ≡ inside
      → Simulates h (do Machine.perform c; pure nothing) f (in_table c fs inside)
  in_table-Simulates c false e = tt
  in_table-Simulates c true e =
      let (g, ends, has, consistent, w) =
        Machine.perform-Does k fs.super c fs.table f r.has r.consistent
          (ltb→lt (Machine.descriptor c) fs.super.fs_info.descriptors_count e) in
      let new = Machine.step (capacity fs.super) c fs.table in
      (
        g,
        Ends-bind _ _ ends (Ends-pure nothing g),
        Represents-table fs f.bytes g.bytes new r has consistent
            (touched-Kept fs f r new g.bytes has.table_valid w),
      )

  pub close_fd-Simulates : (fd : ℕ) → Simulates h (perform (close_fd fd)) f (step (close_fd fd) fs)
  unfolding step
  close_fd-Simulates fd = in_table-Simulates (Machine.close fd) _ refl

  pub seek_fd-Simulates :
      (fd pos : ℕ) → Simulates h (perform (seek_fd fd pos)) f (step (seek_fd fd pos) fs)
  unfolding step
  seek_fd-Simulates fd pos = in_table-Simulates (Machine.seek fd pos) _ refl
