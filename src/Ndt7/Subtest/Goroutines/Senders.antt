-- ===== src/Ndt7/Subtest/Goroutines/Senders.antt =====
-- What the refinement relies on of a sender, and that both senders have it.
use ndt_server.Common.{◌≡◌, refl, ap, ◌∙◌, List, [], ◌∷◌, ◌++◌}
use ndt_server.Ndt7.Download
use ndt_server.Ndt7.Download.Rounds as DownloadRounds
use ndt_server.Ndt7.Download.Separate as DownloadSeparate
use ndt_server.Ndt7.Loop.{continue, map_step}
use ndt_server.Ndt7.Model.{ArchivalData, Params}
use ndt_server.Ndt7.Subtest.Goroutines.{Sender, download_sender, upload_sender}
use ndt_server.Ndt7.Subtest.Order.{with_client_of}
use ndt_server.Ndt7.Subtest.{Outside}
use ndt_server.Ndt7.Upload
use ndt_server.Ndt7.Upload.Rounds as UploadRounds
use ndt_server.Ndt7.Upload.Separate as UploadSeparate

-- One more turn is one more round, and the client's measurements are neither read nor written.
pub record IsSeparate {T S : Type 0} (x : Sender T S) : Type 0 where
  pub one_more :
      (ts : List T) (t : T) (d : ArchivalData) (u : S)
      → x.start ts d ≡ continue u
      → x.start (ts ++ t ∷ []) d ≡ x.round t u
  pub start_beside :
      (c d : ArchivalData) (ts : List T)
      → x.start ts (with_client_of c d)
        ≡ map_step (λ u. x.with_data (with_client_of c (x.data_of u)) u) (x.start ts d)
  pub round_beside :
      (c a : ArchivalData) (t : T) (v : S)
      → x.round t (x.with_data (with_client_of c a) v)
        ≡ map_step
            (λ u. x.with_data (with_client_of c (x.data_of u)) u)
            (x.round t (x.with_data a v))
  pub data_of-with_data : (a : ArchivalData) (v : S) → x.data_of (x.with_data a v) ≡ a

pub download_sender-IsSeparate :
    (p : Params) (o : Outside Download.Turn) → IsSeparate (download_sender p o)
download_sender-IsSeparate p o = record {
  one_more = DownloadRounds.start-snoc p o.begin o.finish o.prepared o.write_deadline;
  start_beside = λ c d ts.
      DownloadSeparate.start-in_state c.client_measurements p o.begin o.finish o.prepared
        o.write_deadline ts d;
  round_beside = λ c a t v.
      let ms = c.client_measurements in
      let u = record v { archival = a } in
      ap (Download.end_at o.finish) (DownloadSeparate.step-in_state ms p t u)
      ∙ DownloadSeparate.end_at-in_state ms p o.finish (Download.step p t u);
  data_of-with_data = λ a v. refl;
}

pub upload_sender-IsSeparate : (o : Outside Upload.Turn) → IsSeparate (upload_sender o)
upload_sender-IsSeparate o = record {
  one_more = UploadRounds.start-snoc o.begin o.finish o.write_deadline;
  start_beside = λ c d ts.
      UploadSeparate.start-in_state c.client_measurements o.begin o.finish o.write_deadline ts d;
  round_beside = λ c a t v.
      let ms = c.client_measurements in
      let u = record v { archival = a } in
      ap (Upload.end_at o.finish) (UploadSeparate.step-in_state ms t u)
      ∙ UploadSeparate.end_at-in_state ms o.finish (Upload.step t u);
  data_of-with_data = λ a v. refl;
}
