-- ===== src/Program/Routes/Guarded.antt =====
-- Which requests reach a measurement, and through which access control (ndt-server.go).
use ndt_server.Common.{◌≡◌, ◌⊎◌, true, false, List, [], ◌∷◌, Option, some, Bytes, codes, ends_with}
use ndt_server.Ndt5.Panics.{is_in}
use ndt_server.Ndt7.Spec.{subtest_download, subtest_upload, download_url_path, upload_url_path}
use ndt_server.Program.Routes.{
  Flags, Handler, static_files, ndt5_channel, ndt7_subtest, health_check, Access, ndt5_path,
  access5, access7,
}

abbrev pub IsRoute : Bytes → Handler → List (Bytes × Handler) → Type 0
IsRoute q h [] = ⊥
IsRoute q h ((p, k) ∷ rs) = ((q ≡ p) × (h ≡ k)) ⊎ IsRoute q h rs

-- What the program relies on in an `http.ServeMux`: a request is given to a handler that is registered for its path,
-- or for a rooted subtree, by a pattern that ends in a slash.
pub record Mux : Type 0 where
  pub serves : List (Bytes × Handler) → Bytes → Option Handler
  pub registered :
      (rs : List (Bytes × Handler)) (path : Bytes) (h : Handler)
      → serves rs path ≡ some h
      → (q : Bytes) × IsRoute q h rs × ((q ≡ path) ⊎ (ends_with (codes "/") q ≡ true))

-- A measurement of either protocol.
abbrev pub IsMeasurement : Handler → Type 0
IsMeasurement (static_files d) = ⊥
IsMeasurement (ndt5_channel s) = Unit
IsMeasurement (ndt7_subtest k h) = Unit
IsMeasurement health_check = ⊥

-- The access control of a measurement: of its own protocol, with a token for its path; the uploads of ndt7 alone are not
-- limited.
abbrev pub IsGuardedBy : Flags → Bytes → Handler → Option Access → Type 0
IsGuardedBy f path (static_files d) a = ⊥
IsGuardedBy f path health_check a = ⊥
IsGuardedBy f path (ndt5_channel s) a =
    (a ≡ some (access5 f))
    × (path ≡ ndt5_path)
    × (is_in path (access5 f).token_paths ≡ true)
    × (is_in path (access5 f).tx_paths ≡ true)
IsGuardedBy f path (ndt7_subtest subtest_download h) a =
    (a ≡ some (access7 f))
    × (path ≡ download_url_path)
    × (is_in path (access7 f).token_paths ≡ true)
    × (is_in path (access7 f).tx_paths ≡ true)
IsGuardedBy f path (ndt7_subtest subtest_upload h) a =
    (a ≡ some (access7 f))
    × (path ≡ upload_url_path)
    × (is_in path (access7 f).token_paths ≡ true)
    × (is_in path (access7 f).tx_paths ≡ false)
