-- ===== src/Protocol/Metrics.antt =====
-- ndt5/protocol/messager.go: `SendMetrics`, over the values that package reflect shows of a struct.
use ndt_server.Common.{[], ◌∷◌, ◌++◌, List, Option, none, some, Bytes, Error, codes}
use ndt_server.Protocol.Conn.{Conn}
use ndt_server.Protocol.Json.{Json}
use ndt_server.Protocol.Kind.{test_msg}
use ndt_server.Protocol.Messager.{Messager, send_message}

-- A field's value, by the kinds that the code tells apart. `number` holds what `%v` prints of a
-- value of one of the listed integer kinds, `stringer` what `String()` gives for a struct that has
-- that method, and `unhandled` is of any other kind: a float, a bool, a pointer.
mutual
  pub data Value : Type 0 where
    number : Bytes → Value
    text : Bytes → Value
    stringer : Bytes → Value
    structure : Fields → Value
    unhandled : Value

  pub data Fields : Type 0 where
    end : Fields
    field : Bytes → Value → Fields → Fields

-- The argument of `SendMetrics`: a struct behind any number of pointers.
pub data Target : Type 0 where
  struct : Fields → Target
  pointer : Target → Target

unfoldable pub deref : Target → Fields
deref (struct fs) = fs
deref (pointer t) = deref t

-- `fmt.Sprintf("%s%s: %s\n", prefix, name, value)`.
abbrev pub line : Bytes → Bytes → Bytes → Bytes
line prefix name value = prefix ++ (name ++ (codes ": " ++ (value ++ (b'\n' ∷ []))))

module _ (J : Json) (m : Messager) where
  -- The rest of the loop is run only if the field was sent without error.
  abbrev pub and_then : Option Error × Conn → (Conn → Option Error × Conn) → Option Error × Conn
  and_then (some e, c) k = (some e, c)
  and_then (none, c) k = k c

  unfoldable mutual
    pub send_fields : Fields → Bytes → Conn → Option Error × Conn
    send_fields end prefix c = (none, c)
    send_fields (field name v fs) prefix c =
        and_then (send_field name v prefix c) (λ d. send_fields fs prefix d)

    pub send_field : Bytes → Value → Bytes → Conn → Option Error × Conn
    send_field name (number s) prefix c = send_message J m test_msg (line prefix name s) c
    send_field name (text s) prefix c = send_message J m test_msg (line prefix name s) c
    send_field name (stringer s) prefix c = send_message J m test_msg (line prefix name s) c
    send_field name (structure fs) prefix c = send_fields fs (prefix ++ (name ++ codes ".")) c
    send_field name unhandled prefix c = (none, c)

  unfoldable pub send_metrics : Target → Bytes → Conn → Option Error × Conn
  unfolding deref
  send_metrics t prefix c = send_fields (deref t) prefix c

  -- The reference: send the messages of a list in order, up to the first error.
  abbrev pub send_all : List Bytes → Conn → Option Error × Conn
  send_all [] c = (none, c)
  send_all (b ∷ bs) c = and_then (send_message J m test_msg b c) (send_all bs)
