-- ===== src/Protocol/Json.antt =====
-- What ndt5/protocol uses of encoding/json, which is not part of the program: an interface with
-- the documented behaviour that the program relies on.
use ndt_server.Common.{◌<◌, ◌≡◌, Option, none, some, Bytes, codes, Result, ok, All}

-- `JSONMessage`.
pub record JsonMessage : Type 0 where
  pub msg : Bytes
  pub tests : Bytes

abbrev pub IsAscii : Bytes → Type 0
IsAscii b = All (λ c. c < 128) b

pub record Json : Type 0 where
  -- `json.Marshal` of a `*JSONMessage`.
  pub marshal : JsonMessage → Bytes
  -- `json.Marshal` of a `*s2cResult`.
  pub marshal_s2c : Bytes → Bytes → Bytes → Bytes
  -- `json.Unmarshal` into a `**JSONMessage`: the literal `null` makes the inner pointer nil.
  pub unmarshal : Bytes → Result (Option JsonMessage)
  pub unmarshal-marshal :
      (m : JsonMessage) → IsAscii m.msg → IsAscii m.tests → unmarshal (marshal m) ≡ ok (some m)
  pub unmarshal_null : unmarshal (codes "null") ≡ ok none
