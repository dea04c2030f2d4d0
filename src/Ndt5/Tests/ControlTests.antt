-- ===== src/Ndt5/Tests/ControlTests.antt =====
-- Runs of the control channel of ndt5.
use ndt_server.Common.{[], ◌∷◌, some, ℤ, pos, whole_numbers}
use ndt_server.Ndt5.C2s.{throughput}
use ndt_server.Ndt5.Control.Whole.{whole}
use ndt_server.Ndt5.Control.Effects.{IsWhole, handle_control_channel-IsWhole}
use ndt_server.Ndt5.Control.Messages.{greeted}
use ndt_server.Ndt5.Control.Both.{download}
use ndt_server.Ndt5.S2c.Reports.{with_results}
use ndt_server.Protocol.Conn.{Conn, stream}
use ndt_server.Ndt5.Control.Upload.{uploaded, with_upload}
use ndt_server.Ndt5.Control.{handle_control_channel, Ndt5Result, no_result}
use ndt_server.Protocol.Kind.{encoding_string}
use ndt_server.Protocol.Messager.{tlv_messager, messager_encoding}
use ndt_server.Protocol.Tests.{codec, over_tcp}
use ndt_server.Ndt5.S2c
use ndt_server.Ndt5.Tests.{answering, server, polled, test_conn, no_fields}

handle_control_channel-IsWhole_example :
    IsWhole whole_numbers codec no_fields
      (λ b. b)
      (λ p e. p)
      server.duration
      (whole
        (handle_control_channel whole_numbers codec no_fields (λ b. b) (λ p e. p) server over_tcp))
handle_control_channel-IsWhole_example =
    handle_control_channel-IsWhole whole_numbers codec no_fields (λ b. b) (λ p e. p) server over_tcp

-- The record of the upload, and its throughput.
abbrev kbps : ℤ
kbps = throughput whole_numbers codec (pos 10000) (pos 10)

abbrev after_upload : Ndt5Result ℤ
after_upload =
    with_upload whole_numbers codec no_fields (λ b. b) (λ p e. p) server test_conn kbps
      (record (no_result whole_numbers codec no_fields (λ b. b) (λ p e. p)) {
        message_protocol = encoding_string (messager_encoding tlv_messager);
      })

-- With the download too, the client answers with the text 9.
abbrev after_uploading : Conn
after_uploading =
    uploaded whole_numbers codec no_fields (λ b. b) (λ p e. p) tlv_messager 3002 kbps
      (greeted whole_numbers codec no_fields (λ b. b) (λ p e. p) tlv_messager (pos 22) answering)

abbrev heard : Conn
heard =
    record (with_results whole_numbers codec no_fields tlv_messager 3003 polled (pos 10)
      after_uploading) { inbox = stream [] }

abbrev downloaded : S2c.ArchivalData ℤ
downloaded =
    download whole_numbers codec no_fields (λ b. b) (λ p e. p) server test_conn polled (57 ∷ [])

abbrev after_both : Ndt5Result ℤ
after_both = record after_upload { s2c = some downloaded }
