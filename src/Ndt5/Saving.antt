-- ===== src/Ndt5/Saving.antt =====
-- `SaveData` of ndt5/ndt5.go, as a trace of operations on the file.
use ndt_server.Common.{ℕ, ◌+◌, ◌≡◌, List, [], ◌∷◌, Option, none, some, Bytes, Error, arith}
use ndt_server.Protocol.Transfer.{Target, uuid_to_file}

-- How `MkdirAll`, the opening of the file and `Encode` end.
pub record Disk : Type 0 where
  pub mkdir : Option Error
  pub create : Option Error
  pub encode : Option Error

-- In the directory that `path.Join` gives for the day of the record.
pub data FileOp (R : Type 0) : Type 0 where
  created : Bytes → Target → FileOp R
  encoded : R → FileOp R
  closed : FileOp R

module _ {R : Type 0} where
  abbrev after_create : Disk → Bytes → Bytes → R → Option Error → Option Error → List (FileOp R)
  after_create d dir uuid r (some e) encode = []
  after_create d dir uuid r none (some e) = created dir (uuid_to_file uuid) ∷ closed ∷ []
  after_create d dir uuid r none none = created dir (uuid_to_file uuid) ∷ encoded r ∷ closed ∷ []

  abbrev after_mkdir : Disk → Bytes → Bytes → R → Option Error → List (FileOp R)
  after_mkdir d dir uuid r (some e) = []
  after_mkdir d dir uuid r none = after_create d dir uuid r d.create d.encode

  -- `SaveData`, with the record's directory and UUID.
  unfoldable pub save_data : Disk → Bytes → Bytes → Option R → List (FileOp R)
  save_data d dir uuid none = []
  save_data d dir uuid (some r) = after_mkdir d dir uuid r d.mkdir

  unfoldable pub count_open : List (FileOp R) → ℕ
  count_open [] = 0
  count_open (created dir t ∷ ops) = 1 + count_open ops
  count_open (encoded r ∷ ops) = count_open ops
  count_open (closed ∷ ops) = count_open ops

  unfoldable pub count_closed : List (FileOp R) → ℕ
  count_closed [] = 0
  count_closed (created dir t ∷ ops) = count_closed ops
  count_closed (encoded r ∷ ops) = count_closed ops
  count_closed (closed ∷ ops) = 1 + count_closed ops

  -- A file that has been opened is closed, whether the record could be encoded or not.
  pub save_data_closes :
      (d : Disk) (dir uuid : Bytes) (r : Option R)
      → count_closed (save_data d dir uuid r) ≡ count_open (save_data d dir uuid r)
  unfolding save_data count_open count_closed
  save_data_closes d dir uuid r = ground arith
