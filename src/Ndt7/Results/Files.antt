-- ===== src/Ndt7/Results/Files.antt =====
-- What a result's file gets, and that it is closed (ndt7/results/file.go).
use ndt_server.Common.{
  ℕ, ◌+◌, ◌≡◌, Bool, true, false, List, [], ◌∷◌, none, Bytes, ok, if◌then◌else◌, arith,
}
use ndt_server.Ndt7.Results.{
  Disk, FileOp, created, written, gzip_closed, file_closed, file_name, opened, new_file,
  write_result, close, save_result,
}
use ndt_server.Ndt7.Spec.{SubtestKind}

unfoldable pub count_created : List FileOp → ℕ
count_created [] = 0
count_created (created n ∷ ops) = 1 + count_created ops
count_created (written b ∷ ops) = count_created ops
count_created (gzip_closed ∷ ops) = count_created ops
count_created (file_closed ∷ ops) = count_created ops

unfoldable pub count_closed : List FileOp → ℕ
count_closed [] = 0
count_closed (created n ∷ ops) = count_closed ops
count_closed (written b ∷ ops) = count_closed ops
count_closed (gzip_closed ∷ ops) = count_closed ops
count_closed (file_closed ∷ ops) = 1 + count_closed ops

-- Whichever call fails, a file that has been opened is closed once, and none is closed otherwise.
pub save_result_closes :
    (d : Disk) (what : SubtestKind) (uuid : Bytes) (compress : Bool)
    → count_closed (save_result d what uuid compress)
      ≡ count_created (save_result d what uuid compress)
unfolding count_created count_closed save_result new_file write_result close opened
save_result_closes d what uuid compress = ground arith

-- When every call succeeds, the file has the name that the kind, the time and the UUID give, and it
-- holds the marshalled result and nothing else when it is closed, the gzip writer first.
pub save_result_complete :
    (d : Disk) (what : SubtestKind) (uuid : Bytes) (compress : Bool) (b : Bytes)
    → d.mkdir ≡ none
    → d.open_file ≡ none
    → d.gzip ≡ none
    → d.marshal ≡ ok b
    → d.write ≡ none
    → save_result d what uuid compress
      ≡ created (file_name d what uuid compress)
        ∷ written b
        ∷ (if compress then gzip_closed ∷ file_closed ∷ [] else file_closed ∷ [])
unfolding save_result new_file write_result close opened
save_result_complete d what uuid true b m o g j w = rw (m, o, g, j, w)
save_result_complete d what uuid false b m o g j w = rw (m, o, j, w)
