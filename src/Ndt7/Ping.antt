-- ===== src/Ndt7/Ping.antt =====
-- ndt7/ping/ping.go: the time of a ping, and the round trip time that its pong gives.
use ndt_server.Common.{
  ℕ, ◌+◌, ◌-◌, ◌%◌, ◌^◌, ◌<◌, ◌≡◌, Option, Bytes, Error, Result, ok, err, ℤ, pos, negsuc, pos_part,
  neg_part, format_int, ltb, if◌then◌else◌,
}

-- The int64 with the bits of `n`.
abbrev pub to_int64 : ℕ → ℤ
to_int64 n =
    if ltb (n % 2 ^ 64) (2 ^ 63) then pos (n % 2 ^ 64) else negsuc (2 ^ 64 - 1 - n % 2 ^ 64)

-- `a - b` of int64 values wraps around.
unfoldable pub sub_int64 : ℤ → ℤ → ℤ
sub_int64 a b = to_int64 (pos_part a + (2 ^ 64 - neg_part a) + (neg_part b + (2 ^ 64 - pos_part b)))

-- What the program uses of encoding/json: an int64 is written in decimal, and read back.
pub record IntJson : Type 0 where
  pub unmarshal_int : Bytes → Result ℤ
  pub unmarshal_int-format_int :
      (n : ℕ) → n < 2 ^ 63 → unmarshal_int (format_int (pos n)) ≡ ok (pos n)

-- `SendTicks` at a time, by how `WriteControl` ends: the ping's data, and the error, or nil.
unfoldable pub send_ticks : ℕ → Option Error → Bytes × Option Error
send_ticks now e = (format_int (pos now), e)

module _ (J : IntJson) where
  abbrev since : ℕ → Result ℤ → Result ℤ
  since now (err e) = err e
  since now (ok prev) = ok (sub_int64 (pos now) prev)

  -- `ParseTicks` at a time.
  unfoldable pub parse_ticks : ℕ → Bytes → Result ℤ
  parse_ticks now s = since now (J.unmarshal_int s)
