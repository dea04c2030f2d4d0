-- ===== src/Protocol/Streams.antt =====
-- Frames read from a TCP stream by `(*netConnection).ReadMessage`, which makes one `Read` for the
-- three bytes of the header and one for the contents.
use ndt_server.Common.{
  ℕ, zero, suc, ◌+◌, ◌-◌, ◌*◌, ◌/◌, ◌%◌, ◌≤◌, ◌<◌, true, ◌≢◌, [], ◌∷◌, ◌++◌, ◌≡◌, refl, List, Bytes,
  Result, ok, err, arith, length, replicate, take_prefix, drop_prefix, length-append,
  length-replicate, length-take, take-all, drop-all, subst,
}
use mathlib.Core.List.{append-nil}
use ndt_server.Protocol.Conn.{
  Chunk, arrives, Conn, stream, read_input, into_buffer, byte_at, net_read_message, keep_rest,
  read_message, fails, read_body, read_header,
}
use ndt_server.Protocol.Frames.{parse-frame}
use ndt_server.Protocol.Tlv.{expects, parse_tlv, read_tlv_message, tlv_frame, message}

abbrev pub header : ℕ → ℕ → Bytes
header m n = m % 256 ∷ n / 256 % 256 ∷ n % 256 ∷ []

-- What has arrived together is read in full by a read of its length.
pub read_input-exact :
    (b rest : Bytes) (s : List Chunk)
    → read_input (length b) (keep_rest (b ++ rest) s) ≡ (ok b, keep_rest rest s)
unfolding read_input
read_input-exact [] rest s = refl
read_input-exact (x ∷ b) rest s = rw (take_prefix b rest, drop_prefix b rest)

net_read-parts :
    (m n : ℕ) (s s1 s2 : List Chunk) (part : Bytes)
    → n < 65536
    → read_input 3 s ≡ (ok (header m n), s1)
    → read_input n s1 ≡ (ok part, s2)
    → net_read_message s ≡ (ok (header m n ++ into_buffer n part), s2)
unfolding net_read_message
net_read-parts m n s s1 s2 part h e f =
    let g : n / 256 % 256 * 256 + n % 256 ≡ n = omega arith in rw (e, g, f, g)

into_buffer-full : (b : Bytes) → into_buffer (length b) b ≡ b
into_buffer-full b = let e : length b - length b ≡ 0 = omega arith in rw e (append-nil b)

-- A frame that arrives whole, or as a header followed by all of its contents, is read as it was
-- written, and what follows it stays in the stream.
pub net_read-frame :
    (m : ℕ) (body rest : Bytes) (s : List Chunk)
    → length body < 65536
    → (net_read_message (arrives (tlv_frame m body ++ rest) ∷ s)
        ≡ (ok (tlv_frame m body), keep_rest rest s))
      × (net_read_message (arrives (header m (length body)) ∷ keep_rest (body ++ rest) s)
          ≡ (ok (tlv_frame m body), keep_rest rest s))
unfolding tlv_frame
net_read-frame m body rest s h = (
  subst
      (λ b.
        net_read_message (arrives (header m n ++ (body ++ rest)) ∷ s)
        ≡ (ok (header m n ++ b), keep_rest rest s))
      (into_buffer-full body)
      (net_read-parts m n _ _ _ body h (read_input-exact (header m n) (body ++ rest) s)
        (read_input-exact body rest s)),
  subst
      (λ b.
        net_read_message (arrives (header m n) ∷ keep_rest (body ++ rest) s)
        ≡ (ok (header m n ++ b), keep_rest rest s))
      (into_buffer-full body)
      (net_read-parts m n _ _ _ body h
        (read_input-exact (header m n) [] (keep_rest (body ++ rest) s))
        (read_input-exact body rest s)),
)
  where
    n : ℕ
    n = length body

read_input-short :
    (n : ℕ) (part : Bytes) (s : List Chunk)
    → part ≢ []
    → length part < n
    → read_input n (arrives part ∷ s) ≡ (ok part, s)
unfolding read_input
read_input-short zero part s ne h = absurd (omega arith)
read_input-short (suc n) part s ne h =
    rw (take-all (suc n) part (omega arith), drop-all (suc n) part (omega arith))

length-into_buffer : (n : ℕ) (b : Bytes) → length b ≤ n → length (into_buffer n b) ≡ n
length-into_buffer n b h =
    omega (
      arith,
      length-append b (replicate (n - length b) 0),
      length-replicate {A = ℕ} (n - length b) 0,
    )

-- When only a part of the announced contents has arrived at the second read, the message is
-- accepted all the same: the missing bytes are zeros, and no error is returned.
pub read_tlv-short_body :
    (ts : List ℕ) (m n : ℕ) (part : Bytes) (s : List Chunk) (c : Conn)
    → expects ts m ≡ true
    → m < 256
    → n < 65536
    → part ≢ []
    → length part < n
    → c.inbox ≡ stream (arrives (header m n) ∷ arrives part ∷ s)
    → (read_tlv_message ts c).0 ≡ message (part ++ replicate (n - length part) 0) m
unfolding read_tlv_message read_message
read_tlv-short_body ts m n part s c e k l ne h i =
    let r =
      net_read-parts m n _ _ _ part l (read_input-exact (header m n) [] (arrives part ∷ s))
        (read_input-short n part s ne h) in
    rw (i, r)
      (subst
        (λ k.
          parse_tlv ts (m % 256 ∷ k / 256 % 256 ∷ k % 256 ∷ into_buffer n part)
          ≡ message (into_buffer n part) m)
        full (unfold tlv_frame in parse-frame ts m (into_buffer n part) e k (omega (arith, full))))
  where
    full : length (into_buffer n part) ≡ n
    full = length-into_buffer n part (omega arith)

length-read_input : (k : ℕ) (s : List Chunk) (b : Bytes) → (read_input k s).0 ≡ ok b → length b ≤ k
unfolding read_input
length-read_input zero s b e = ground arith
length-read_input (suc k) [] b e = ground arith
length-read_input (suc k) (fails x ∷ s) b e = ground arith
length-read_input (suc k) (arrives x ∷ s) b e = ground (arith, length-take (suc k) x)

byte_at-append : (i : ℕ) (xs ys : Bytes) → i < length xs → byte_at i (xs ++ ys) ≡ byte_at i xs
byte_at-append i [] ys h = elim h [ ]
byte_at-append zero (x ∷ xs) ys h = refl
byte_at-append (suc i) (x ∷ xs) ys h = byte_at-append i xs ys (omega arith)

-- The frame that starts with `first` announces the length that it has.
abbrev Fits : Bytes → Type 0
Fits b = length b ≡ 3 + (byte_at 1 b * 256 + byte_at 2 b)

Fits-read_body :
    (first : Bytes) (r : Result Bytes × List Chunk) {b : Bytes} {s' : List Chunk}
    → length first ≡ 3
    → ((x : Bytes) → r.0 ≡ ok x → length x ≤ byte_at 1 first * 256 + byte_at 2 first)
    → read_body first r ≡ (ok b, s')
    → Fits b
unfolding read_body
Fits-read_body first (err e, s) l k h = ground arith
Fits-read_body first (ok x, s) {b} l k h =
    let n = byte_at 1 first * 256 + byte_at 2 first in
    let e : first ++ into_buffer n x ≡ b = ground arith in
    let body = into_buffer n x in
    subst Fits e (
      omega (
        arith,
        l,
        length-append first body,
        length-into_buffer n x (k x refl),
        byte_at-append 1 first body (omega arith),
        byte_at-append 2 first body (omega arith),
      ))

Fits-read_header :
    (r : Result Bytes × List Chunk) {b : Bytes} {s' : List Chunk}
    → ((x : Bytes) → r.0 ≡ ok x → length x ≤ 3)
    → read_header r ≡ (ok b, s')
    → Fits b
unfolding read_header
Fits-read_header (err e, s) k h = ground arith
Fits-read_header (ok x, s) k h =
    let first = into_buffer 3 x in
    let n = byte_at 1 first * 256 + byte_at 2 first in
    Fits-read_body first (read_input n s) (length-into_buffer 3 x (k x refl))
      (length-read_input n s) h

-- Over TCP the length of what is read always fits its header, whatever arrived.
pub length-net_read :
    (s : List Chunk) {b : Bytes} {s' : List Chunk}
    → net_read_message s ≡ (ok b, s')
    → length b ≡ 3 + (byte_at 1 b * 256 + byte_at 2 b)
unfolding net_read_message
length-net_read s e = Fits-read_header (read_input 3 s) (length-read_input 3 s) e
