-- ===== src/Ndt7/Download/Record.antt =====
-- What the download sender writes into the archival data.
use ndt_server.Common.{
  ℕ, ◌≡◌, refl, List, [], ◌∷◌, ◌++◌, Option, Error, append_assoc, append-nil, sym, ap,
}
use ndt_server.Ndt7.Download.Rule.{start_inv}
use ndt_server.Ndt7.Download.{Wire, bulk, json, ping, closing, Turn, State, start}
use ndt_server.Ndt7.Loop.{left_by}
use ndt_server.Ndt7.Model.{Measurement, Params, ArchivalData}

-- The measurements among the messages.
abbrev pub jsons : List Wire → List Measurement
jsons [] = []
jsons (json m ∷ ws) = m ∷ jsons ws
jsons (w ∷ ws) = jsons ws

jsons-append : (xs ys : List Wire) → jsons (xs ++ ys) ≡ jsons xs ++ jsons ys
jsons-append [] ys = refl
jsons-append (json m ∷ xs) ys = ap (◌∷◌ m) (jsons-append xs ys)
jsons-append (bulk n ∷ xs) ys = jsons-append xs ys
jsons-append (ping ∷ xs) ys = jsons-append xs ys
jsons-append (closing ∷ xs) ys = jsons-append xs ys

-- `b` is `a` with the measurements `ms` appended to the server's, and possibly other times.
pub record Extends (a b : ArchivalData) (ms : List Measurement) : Type 0 where
  pub server : b.server_measurements ≡ a.server_measurements ++ ms
  pub client : b.client_measurements ≡ a.client_measurements
  pub same_uuid : b.uuid ≡ a.uuid
  pub from_client : b.client_metadata ≡ a.client_metadata
  pub from_server : b.server_metadata ≡ a.server_metadata

abbrev Saves : ArchivalData → State → Type 0
Saves d s = Extends d s.archival (jsons s.wire)

send-Saves :
    (d a : ArchivalData) (ws : List Wire) (w : Wire)
    → jsons (w ∷ []) ≡ []
    → Extends d a (jsons ws)
    → Extends d a (jsons (ws ++ w ∷ []))
send-Saves d a ws w e v = rw (jsons-append ws (w ∷ []), e, append-nil (jsons ws)) v

-- However the download ends, the sender has recorded exactly the measurements that it sent to the
-- client, in the order of sending, and has left the client's part and the metadata alone.
pub start-Extends :
    (p : Params) (begin finish : ℕ) (prepared deadline : Option Error) (ts : List Turn)
    (d : ArchivalData)
    → let s = left_by (start p begin finish prepared deadline ts d) in
      Extends d s.archival (jsons s.wire)
start-Extends p begin finish prepared deadline ts d =
    start_inv (Saves d)
      (record {
        counts = λ l s v. v;
        begins = λ t s v. record {
          server = v.server;
          client = v.client;
          same_uuid = v.same_uuid;
          from_client = v.from_client;
          from_server = v.from_server;
        };
        ends = λ t s v. record {
          server = v.server;
          client = v.client;
          same_uuid = v.same_uuid;
          from_client = v.from_client;
          from_server = v.from_server;
        };
        closes = λ s v. send-Saves d s.archival s.wire closing refl v;
        pings = λ s v. send-Saves d s.archival s.wire ping refl v;
        saves = λ m s v. record {
          server =
              rw (jsons-append s.wire (json m ∷ []), v.server)
                (append_assoc d.server_measurements (jsons s.wire) (m ∷ []));
          client = v.client;
          same_uuid = v.same_uuid;
          from_client = v.from_client;
          from_server = v.from_server;
        };
        fills = λ s v. send-Saves d s.archival s.wire (bulk s.bulk_message_size) refl v;
        doubles = λ s h k v. v;
      })
      p begin finish prepared deadline ts d
      (record {
        server = sym (append-nil d.server_measurements);
        client = refl;
        same_uuid = refl;
        from_client = refl;
        from_server = refl;
      })
