-- ===== src/Ndt5/Meta/Bounds.antt =====
-- How many names and values the meta test records, and how long they are (ndt5/meta/meta.go).
use ndt_server.Common.{
  ℕ, zero, suc, ◌+◌, ◌≤◌, ◌≡◌, refl, ◌⊎◌, inl, inr, Bool, true, false, List, [], ◌∷◌, Option, none,
  some, Bytes, Error, length, length-append, length-take, All, All-append, arith,
}
use ndt_server.Ndt5.Meta.{
  cut, entry, add, split_colon, Run, State, received, next, loop, finished, without_error,
  after_loop, after_start, after_prepare, manage_test, max_client_messages,
}
use ndt_server.Ndt7.Model.{NameValue}
use ndt_server.Protocol.Conn.{Conn}
use ndt_server.Protocol.Json.{Json}
use ndt_server.Protocol.Kind.{test_prepare, test_start, test_msg, test_finalize}
use ndt_server.Protocol.Messager.{Messager, send_message, receive_message}

-- A name of at most 63 bytes and a value of at most 255.
abbrev pub IsShort : NameValue → Type 0
IsShort e = (length e.name ≤ 63) × (length e.value ≤ 255)

length-cut : (n : ℕ) (b : Bytes) → length (cut n b) ≤ n
unfolding cut
length-cut n b = ground (arith, length-take n b)

-- The results are short, at most one for each message counted, and at most 20 messages are counted.
pub record IsBounded (s : State) : Type 0 where
  pub short : All IsShort s.results
  pub each : length s.results ≤ s.count

module _ (trim_space : Bytes → Bytes) where
  entry-IsShort : (ab : Bytes × Bytes) → IsShort (entry trim_space ab)
  entry-IsShort (a, b) = (length-cut 63 (trim_space a), length-cut 255 (trim_space b))

  add-IsShort :
      (es : List NameValue) (o : Option (Bytes × Bytes))
      → All IsShort es
      → All IsShort (add trim_space es o)
  add-IsShort es none h = h
  add-IsShort es (some ab) h =
      All-append IsShort es (entry trim_space ab ∷ []) h (entry-IsShort ab, tt)

  length-add :
      (es : List NameValue) (o : Option (Bytes × Bytes))
      → length (add trim_space es o) ≤ length es + 1
  length-add es none = omega arith
  length-add es (some ab) = omega (arith, length-append es (entry trim_space ab ∷ []))

  module _ (J : Json) (m : Messager) where
    -- A round counts at most one message.
    abbrev Grows : State → State → Type 0
    Grows s s' = IsBounded s' × (s'.count ≤ s.count + 1)

    received_inv :
        (r : Option Bytes × Option Error × Conn) (s : State)
        → IsBounded s
        → Grows s (received trim_space J m r s).0
    unfolding received
    received_inv (b, some e, c) s v = (record { short = v.short; each = v.each }, omega arith)
    received_inv (none, none, c) s v = (record { short = v.short; each = v.each }, omega arith)
    received_inv (some [], none, c) s v = (record { short = v.short; each = v.each }, omega arith)
    received_inv (some (x ∷ b), none, c) s v =
        let o = split_colon (x ∷ b) in
        (
          record {
            short = add-IsShort s.results o v.short;
            each = omega (arith, v.each, length-add s.results o);
          },
          omega arith,
        )

    abbrev IsWithin : ℕ → State → Type 0
    IsWithin n s = IsBounded s × (s.count ≤ n)

    next_inv :
        (k n : ℕ) (ends : List Bool) (r : State × Bool) (f : State → State × List Bool)
        → IsWithin k r.0
        → ((s : State) → IsWithin k s → IsWithin n (f s).0)
        → k ≤ n
        → IsWithin n (next trim_space J m ends r f).0
    next_inv k n ends (s, false) f h g l = (h.0, omega (arith, h.1))
    next_inv k n ends (s, true) f h g l = g s h

    loop_inv :
        (n k : ℕ) (ends : List Bool) (s : State)
        → IsWithin k s
        → IsWithin (k + n) (loop trim_space J m n ends s).0
    unfolding loop
    loop_inv zero k ends s h = (h.0, omega (arith, h.1))
    loop_inv (suc n) k [] s h =
        let (v, g) = received_inv (receive_message J m test_msg s.conn) s h.0 in
        next_inv (k + 1) (k + suc n) []
          (received trim_space J m (receive_message J m test_msg s.conn) s)
          (loop trim_space J m n []) (v, omega (arith, g, h.1))
          (λ s' h'. let (w, l) = loop_inv n (k + 1) [] s' h' in (w, omega (arith, l))) (omega arith)
    loop_inv (suc n) k (true ∷ ends) s h = (h.0, omega (arith, h.1))
    loop_inv (suc n) k (false ∷ ends) s h =
        let (v, g) = received_inv (receive_message J m test_msg s.conn) s h.0 in
        next_inv (k + 1) (k + suc n) ends
          (received trim_space J m (receive_message J m test_msg s.conn) s)
          (loop trim_space J m n ends) (v, omega (arith, g, h.1))
          (λ s' h'. let (w, l) = loop_inv n (k + 1) ends s' h' in (w, omega (arith, l)))
          (omega arith)

    -- Every run either fails or gives results: with an error, counted once and no results, or without,
    -- and then the number of messages is observed once, there are at most 20, and each result is short.
    abbrev pub IsSound : Run → Type 0
    IsSound r =
        ((e : Error) × (r.error ≡ some e) × (r.results ≡ none) × (length r.errors_counted ≡ 1))
        ⊎ ((es : List NameValue) × (n : ℕ) × (r.error ≡ none)
            × (r.results ≡ some es)
            × (r.errors_counted ≡ [])
            × (r.values_observed ≡ n ∷ [])
            × (length es ≤ n)
            × (n ≤ 20)
            × All IsShort es)

    finished-IsSound :
        (s : State) (r : Option Error × Conn)
        → IsWithin 20 s
        → IsSound (finished trim_space J m s.results s.count r)
    finished-IsSound s (some e, c) h = inl (e, refl, refl, refl)
    finished-IsSound s (none, c) h =
        inr (s.results, s.count, refl, refl, refl, refl, h.0.each, h.1, h.0.short)

    without_error-IsSound :
        (o : Option Error) (s : State) → IsWithin 20 s → IsSound (without_error trim_space J m o s)
    without_error-IsSound (some e) s h = inl (e, refl, refl, refl)
    without_error-IsSound none s h = finished-IsSound s (send_message J m test_finalize [] s.conn) h

    after_loop-IsSound :
        (context_error : Error) (r : State × List Bool)
        → IsWithin 20 r.0
        → IsSound (after_loop trim_space J m context_error r)
    unfolding after_loop
    after_loop-IsSound context_error (s, true ∷ ends) h = inl (context_error, refl, refl, refl)
    after_loop-IsSound context_error (s, false ∷ ends) h = without_error-IsSound s.error s h
    after_loop-IsSound context_error (s, []) h = without_error-IsSound s.error s h

    after_start-IsSound :
        (context_error : Error) (ends : List Bool) (r : Option Error × Conn)
        → IsSound (after_start trim_space J m context_error ends r)
    after_start-IsSound context_error ends (some e, c) = inl (e, refl, refl, refl)
    after_start-IsSound context_error ends (none, c) =
        let s : State = record { count = 0; results = []; error = none; conn = c } in
        after_loop-IsSound context_error (loop trim_space J m max_client_messages ends s)
          (loop_inv 20 0 ends s (record { short = tt; each = omega arith }, omega arith))

    after_prepare-IsSound :
        (context_error : Error) (ends : List Bool) (r : Option Error × Conn)
        → IsSound (after_prepare trim_space J m context_error ends r)
    after_prepare-IsSound context_error ends (some e, c) = inl (e, refl, refl, refl)
    after_prepare-IsSound context_error ends (none, c) =
        after_start-IsSound context_error ends (send_message J m test_start [] c)

    -- Whatever the client sends, however the writes end and whenever the context ends: the meta test
    -- fails with one error counted and no results, or it returns at most 20 results, at most as many as
    -- the messages that it observes, with names of at most 63 bytes and values of at most 255.
    pub manage_test-IsSound :
        (context_error : Error) (ends : List Bool) (c : Conn)
        → IsSound (manage_test trim_space J m context_error ends c)
    unfolding manage_test
    manage_test-IsSound context_error ends c =
        after_prepare-IsSound context_error ends (send_message J m test_prepare [] c)
