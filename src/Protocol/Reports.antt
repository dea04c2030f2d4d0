-- ===== src/Protocol/Reports.antt =====
-- `SendMetrics` sends a list of lines that a struct's fields determine.
use ndt_server.Common.{
  [], ◌∷◌, ◌++◌, ◌≡◌, refl, List, Option, none, some, Bytes, Error, codes, arith, map, length, take,
  replicate, ℕ, zero, suc, ◌<◌, ◌∙◌, ap, sym, append_assoc, append-nil, fun_ext,
}
use ndt_server.Protocol.Conn.{Conn}
use ndt_server.Protocol.Delivery.{
  Healthy, sent, payload, send_message-eq, write-Healthy, write-fails, write-passes,
}
use ndt_server.Protocol.Json.{Json}
use ndt_server.Protocol.Kind.{test_msg}
use ndt_server.Protocol.Messager.{Messager, send_message}
use ndt_server.Protocol.Metrics.{
  Value, number, text, stringer, structure, unhandled, Fields, end, field, Target, deref, line,
  and_then, send_fields, send_field, send_metrics, send_all,
}
use ndt_server.Protocol.Tlv.{tlv_frame}

-- The lines of a struct, the nested structs' in place, each name behind its path.
unfoldable mutual
  pub report : Fields → Bytes → List Bytes
  report end prefix = []
  report (field name v fs) prefix = report_value name v prefix ++ report fs prefix

  pub report_value : Bytes → Value → Bytes → List Bytes
  report_value name (number s) prefix = line prefix name s ∷ []
  report_value name (text s) prefix = line prefix name s ∷ []
  report_value name (stringer s) prefix = line prefix name s ∷ []
  report_value name (structure fs) prefix = report fs (prefix ++ (name ++ codes "."))
  report_value name unhandled prefix = []

module _ (J : Json) (m : Messager) where
  and_then_assoc :
      (r : Option Error × Conn) (f g : Conn → Option Error × Conn)
      → and_then J m (and_then J m r f) g ≡ and_then J m r (λ c. and_then J m (f c) g)
  and_then_assoc (none, c) f g = refl
  and_then_assoc (some e, c) f g = refl

  and_then-none : (r : Option Error × Conn) → and_then J m r (λ c. (none, c)) ≡ r
  and_then-none (none, c) = refl
  and_then-none (some e, c) = refl

  send_all-append :
      (xs ys : List Bytes) (c : Conn)
      → send_all J m (xs ++ ys) c ≡ and_then J m (send_all J m xs c) (send_all J m ys)
  send_all-append [] ys c = refl
  send_all-append (x ∷ xs) ys c =
      ap (and_then J m (send_message J m test_msg x c)) (fun_ext (send_all-append xs ys))
      ∙ sym (and_then_assoc (send_message J m test_msg x c) (send_all J m xs) (send_all J m ys))

  mutual
    unfolding send_fields send_field report report_value

    send_fields-eq :
        (fs : Fields) (prefix : Bytes) (c : Conn)
        → send_fields J m fs prefix c ≡ send_all J m (report fs prefix) c
    send_fields-eq end prefix c = refl
    send_fields-eq (field name v fs) prefix c =
        rw
          (
            send_all-append (report_value name v prefix) (report fs prefix) c,
            send_field-eq name v prefix c,
          )
          (ap (and_then J m (send_all J m (report_value name v prefix) c))
            (fun_ext (send_fields-eq fs prefix)))

    send_field-eq :
        (name : Bytes) (v : Value) (prefix : Bytes) (c : Conn)
        → send_field J m name v prefix c ≡ send_all J m (report_value name v prefix) c
    send_field-eq name (number s) prefix c = sym (and_then-none _)
    send_field-eq name (text s) prefix c = sym (and_then-none _)
    send_field-eq name (stringer s) prefix c = sym (and_then-none _)
    send_field-eq name (structure fs) prefix c = send_fields-eq fs (prefix ++ (name ++ codes ".")) c
    send_field-eq name unhandled prefix c = refl

  abbrev pub frame_of : Bytes → Bytes
  frame_of b = tlv_frame test_msg (payload J m b)

  abbrev pub with_sent : Conn → List Bytes → Conn
  with_sent c bs = record c { outbox = c.outbox ++ map frame_of bs }

  send_all-Healthy :
      (bs : List Bytes) (c : Conn) → Healthy c → send_all J m bs c ≡ (none, with_sent c bs)
  send_all-Healthy [] c h = rw (append-nil c.outbox)
  send_all-Healthy (b ∷ bs) c h = rw (
    send_message-eq J m test_msg b c,
    write-Healthy (frame_of b) c h,
    send_all-Healthy bs (sent c (frame_of b)) h,
    append_assoc c.outbox (frame_of b ∷ []) (map frame_of bs),
  )

  -- `k` writes succeed, and the next one fails.
  abbrev pub FailsAfter : ℕ → Error → Conn → List (Option Error) → Type 0
  FailsAfter k e c ws = c.write_faults ≡ replicate k none ++ some e ∷ ws

  send_all-fails :
      (bs : List Bytes) (k : ℕ) (e : Error) (ws : List (Option Error)) (c : Conn)
      → k < length bs
      → FailsAfter k e c ws
      → send_all J m bs c ≡ (some e, record (with_sent c (take k bs)) { write_faults = ws })
  send_all-fails [] k e ws c l h = elim l [ ]
  send_all-fails (b ∷ bs) zero e ws c l h =
      rw (send_message-eq J m test_msg b c, write-fails (frame_of b) e ws c h, append-nil c.outbox)
  send_all-fails (b ∷ bs) (suc k) e ws c l h =
      let later = replicate k none ++ some e ∷ ws in
      let d = record (sent c (frame_of b)) { write_faults = later } in
      rw (
        send_message-eq J m test_msg b c,
        write-passes (frame_of b) later c h,
        send_all-fails bs k e ws d (omega arith) refl,
        append_assoc c.outbox (frame_of b ∷ []) (map frame_of (take k bs)),
      )

  -- The whole of a struct's report is sent, one frame for each line in the order of the fields,
  -- if no write fails.
  pub send_metrics_complete :
      (t : Target) (prefix : Bytes) (c : Conn)
      → Healthy c
      → send_metrics J m t prefix c ≡ (none, with_sent c (report (deref t) prefix))
  unfolding send_metrics
  send_metrics_complete t prefix c h =
      send_fields-eq (deref t) prefix c ∙ send_all-Healthy (report (deref t) prefix) c h

  -- If the write after `k` frames fails, then exactly the first `k` lines have been sent, nothing
  -- is sent after the failure, and its error is returned.
  pub send_metrics_stops :
      (t : Target) (prefix : Bytes) (k : ℕ) (e : Error) (ws : List (Option Error)) (c : Conn)
      → k < length (report (deref t) prefix)
      → FailsAfter k e c ws
      → send_metrics J m t prefix c
        ≡ (some e, record (with_sent c (take k (report (deref t) prefix))) { write_faults = ws })
  unfolding send_metrics
  send_metrics_stops t prefix k e ws c l h =
      send_fields-eq (deref t) prefix c ∙ send_all-fails (report (deref t) prefix) k e ws c l h
