-- ===== src/Fs/Kept.antt =====
-- What a run of writes leaves of a file system: the parts of the file that it does not write.
use ext.Base.{
  ℕ, ◌+◌, ◌*◌, ◌≤◌, ◌≢◌, ap, arith, List, [], ◌∷◌, ◌++◌, length, length-append, length-map, All,
}
use ext.Base.Holds.{Holds}
use ext.Base.Image.{Bytes, write_at}
use ext.Superblock.{Superblock}
use ext.Superblock.Bounds as Blocks
use ext.Descriptors.{DescriptorsTable}
use ext.Descriptors.Open.{IsConsistent}
use ext.Inode.Store.{length-bytes_of_inode}
use ext.Block.{sizeof_block_record, bytes_of_block_info}
use ext.Block.Records.{bytes_of_records, length-bytes_of_records}
use ext.Block.Sizes.{data_fits}
use ext.Block.Store.{directory, file_block, bytes_of_data, length-bytes_of_block_info}
use ext.Layout.{FitsWords, Part, table, inode, block, IsPart, start, size, write_at-other}
use ext.Methods.Create.{entry}
use ext.Methods.Names.{records}
use ext.Commands.Keep.{HasTable}
use ext.Fs.{Node, block_of, Fs}
use ext.Fs.Represents.{
  Formed, folder_formed, regular_formed, IsNode, Sizes, Represents, inode_of, bytes_of_node, known,
  inode_of-IsValid,
}

-- Every part but those of `qs` has in `g` what it has in `f`.
pub record Kept (s : Superblock) (qs : List Part) (f g : Bytes) : Type 0 where
  pub keep :
      (p : Part) (bs : Bytes)
      → IsPart s p
      → All (λ q. p ≢ q) qs
      → length bs ≤ size s p
      → Holds f (start s p) bs
      → Holds g (start s p) bs

All-front : {A : Type 0} (P : A → Type 0) (xs ys : List A) → All P (xs ++ ys) → All P xs × All P ys
All-front P [] ys a = (tt, a)
All-front P (x ∷ xs) ys a = let (l, r) = All-front P xs ys a.1 in ((a.0, l), r)

module _ (s : Superblock) where
  pub Kept-refl : (qs : List Part) (f : Bytes) → Kept s qs f f
  Kept-refl qs f = record { keep = λ p bs a n l d. d }

  pub Kept-trans :
      (qs rs : List Part) (f g k : Bytes) → Kept s qs f g → Kept s rs g k → Kept s (qs ++ rs) f k
  Kept-trans qs rs f g k a b = record {
    keep = λ p bs i n l d.
        let (n1, n2) = All-front (λ q. p ≢ q) qs rs n in b.keep p bs i n2 l (a.keep p bs i n1 l d);
  }

  -- A write into one part.
  pub Kept-write :
      (q : Part) (f cs : Bytes)
      → FitsWords s
      → IsPart s q
      → length cs ≤ size s q
      → Kept s (q ∷ []) f (write_at (start s q) cs f)
  Kept-write q f cs fits known m = record {
    keep = λ p bs i n l d. write_at-other s fits p q f bs cs i known n.0 l m d;
  }

module _ (s : Superblock) (sizes : Sizes s) (valid : Blocks.IsValid s) where
  pub length-bytes_of_node :
      (i : ℕ) (nd : Node) → Formed s i nd → length (bytes_of_node s i nd) ≤ s.fs_info.block_size
  unfolding sizeof_block_record
  length-bytes_of_node i nd (folder_formed {b} {first} {others} ranges rs names fit) =
      let info = (directory s b i (records s (first ∷ others))).block_info in
      let a =
        length-append (bytes_of_block_info info) (bytes_of_records (records s (first ∷ others))) in
      let c = length-bytes_of_block_info info in
      let d = length-bytes_of_records s (records s (first ∷ others)) rs in
      let e = length-map (λ e. entry s e.0 e.1) (first ∷ others) in
      let m = ap (λ c. c * (2 + s.fs_info.max_path_len)) e in omega arith
  length-bytes_of_node i nd (regular_formed {b} {n} {contents} ranges l m) =
      let info = (file_block b i n contents).block_info in
      let a = length-append (bytes_of_block_info info) (bytes_of_data s n contents) in
      let c = length-bytes_of_block_info info in
      let e = sizes.enough in let d = data_fits s n contents valid.info (omega arith) in omega arith

  -- A node whose two parts are not written is there afterwards.
  pub IsNode-Kept :
      (qs : List Part) (f g : Bytes) (i : ℕ) (nd : Node)
      → Kept s qs f g
      → All (λ q. inode i ≢ q) qs
      → All (λ q. block (block_of nd) ≢ q) qs
      → IsNode s f i nd
      → IsNode s g i nd
  IsNode-Kept qs f g i nd kept a b there =
      let v = inode_of-IsValid s f i nd sizes valid there in
      let m = length-bytes_of_inode s (inode_of s i nd) v in
      record {
        inode_used = there.inode_used;
        block_used = there.block_used;
        formed = there.formed;
        inode_there =
            kept.keep (inode i) _ (known s f i nd sizes valid there) a (omega arith)
              there.inode_there;
        block_there =
            kept.keep (block (block_of nd)) _ tt b (length-bytes_of_node i nd there.formed)
              there.block_there;
      }

pub inode_is_not_table : (i : ℕ) → inode i ≢ table
inode_is_not_table i e = ground arith

pub block_is_not_table : (b : ℕ) → block b ≢ table
block_is_not_table b e = ground arith

-- Another table.
pub Represents-table :
    (fs : Fs) (f g : Bytes) (new : DescriptorsTable)
    → Represents fs f
    → HasTable fs.super new g
    → IsConsistent new
    → Kept fs.super (table ∷ []) f g
    → Represents (record fs { table = new }) g
Represents-table fs f g new r has consistent kept = record {
  sizes = r.sizes;
  has = has;
  consistent = consistent;
  sound = λ i nd e.
      IsNode-Kept fs.super r.sizes r.has.valid (table ∷ []) f g i nd kept (inode_is_not_table i, tt)
        (block_is_not_table (block_of nd), tt) (r.sound i nd e);
  alone = r.alone;
  closed = r.closed;
  root = r.root;
}
