-- ===== src/Ndt7/Results.antt =====
-- ndt7/results/file.go: the file of a result. What the system calls return is given; the operations
-- on the file are a trace.
pub mod Files
use ndt_server.Common.{
  Bool, true, false, List, [], ◌∷◌, ◌++◌, Option, none, some, Bytes, Error, codes, Result, ok, err,
  if◌then◌else◌,
}
use ndt_server.Ndt7.Spec.{SubtestKind, kind_string}

-- The time in the file's name, the directory that `path.Join` gives, and how the calls end:
-- `MkdirAll`, `OpenFile`, `NewWriterLevel`, `Marshal`, `Write` and the `Close` of the gzip writer.
pub record Disk : Type 0 where
  pub dir : Bytes
  pub timestamp : Bytes
  pub mkdir : Option Error
  pub open_file : Option Error
  pub gzip : Option Error
  pub marshal : Result Bytes
  pub write : Option Error
  pub close_gzip : Option Error

pub data FileOp : Type 0 where
  created : Bytes → FileOp
  written : Bytes → FileOp
  gzip_closed file_closed : FileOp

pub record File : Type 0 where
  pub name : Bytes
  pub is_gzip : Bool

unfoldable pub file_name : Disk → SubtestKind → Bytes → Bool → Bytes
file_name d what uuid compress =
    d.dir
    ++ (codes "/ndt7-"
        ++ (kind_string what
            ++ (codes "-"
                ++ (d.timestamp
                    ++ (codes "."
                        ++ (uuid ++ (codes ".json" ++ (if compress then codes ".gz" else []))))))))

abbrev with_gzip : Option Error → Bytes → Result File × List FileOp
with_gzip (some e) name = (err e, created name ∷ file_closed ∷ [])
with_gzip none name = (ok (record { name = name; is_gzip = true }), created name ∷ [])

unfoldable pub opened : Disk → Bytes → Bool → Option Error → Result File × List FileOp
opened d name compress (some e) = (err e, [])
opened d name false none = (ok (record { name = name; is_gzip = false }), created name ∷ [])
opened d name true none = with_gzip d.gzip name

abbrev in_dir : Disk → Bytes → Bool → Option Error → Result File × List FileOp
in_dir d name compress (some e) = (err e, [])
in_dir d name compress none = opened d name compress d.open_file

-- `newFile`, and `NewFile`, which only logs beside it.
unfoldable pub new_file : Disk → SubtestKind → Bytes → Bool → Result File × List FileOp
unfolding file_name opened
new_file d what uuid compress = in_dir d (file_name d what uuid compress) compress d.mkdir

abbrev write_bytes : Option Error → Bytes → Option Error × List FileOp
write_bytes (some e) b = (some e, [])
write_bytes none b = (none, written b ∷ [])

abbrev write_marshalled : Disk → Result Bytes → Option Error × List FileOp
write_marshalled d (err e) = (some e, [])
write_marshalled d (ok b) = write_bytes d.write b

-- `WriteResult`.
unfoldable pub write_result : Disk → Option Error × List FileOp
write_result d = write_marshalled d d.marshal

-- `Close`: the file is closed also when the gzip writer's `Close` fails.
unfoldable pub close : File → List FileOp
close f = if f.is_gzip then gzip_closed ∷ file_closed ∷ [] else file_closed ∷ []

abbrev written_to : Disk → Result File × List FileOp → List FileOp
written_to d (err e, ops) = ops
written_to d (ok f, ops) = ops ++ ((write_result d).1 ++ close f)

-- `writeResult` of ndt7/handler/handler.go.
unfoldable pub save_result : Disk → SubtestKind → Bytes → Bool → List FileOp
save_result d what uuid compress = written_to d (new_file d what uuid compress)
