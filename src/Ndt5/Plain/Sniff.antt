-- ===== src/Ndt5/Plain/Sniff.antt =====
-- Sniffing the first three bytes is not seen by the side that the connection is handed to (ndt5/plain/plain.go).
use ndt_server.Common.{
  ℕ, zero, suc, ◌-◌, ◌≤◌, ◌<◌, ◌≡◌, ◌≢◌, refl, sym, ap, ◌∙◌, inl, inr, List, [], ◌∷◌, ◌++◌,
  append_assoc, Option, none, some, Bytes, Error, codes, Result, ok, arith, length, length-append,
  length-take, take, drop, take-all, leb, leb→le, ◌⊎◌, equal, equal→eq, equal→ne, Bool-cases, Float,
}
use ndt_server.Ndt5.Control.{Server, handle_control_channel}
use ndt_server.Ndt5.Login.{plain_login}
use ndt_server.Ndt5.S2c.{Shown}
use ndt_server.Ndt5.Plain.{
  buffer_size, peek_onto, peek, ContextEnd, canceled, deadline_exceeded, Accepted, Effect,
  proxied_counted, fwd_closed, conn_closed, forwarded, kickoff, adapt_net_conn, timed_out, forward,
  all_controlled, kick_off, after_peek, sniff_then_handle,
}
use ndt_server.Protocol.Json.{Json}
use ndt_server.Protocol.Conn.{Chunk, arrives, fails, keep_rest, write_message}

-- What arrives, whatever parts it arrives in.
pub data Item : Type 0 where
  byte : ℕ → Item
  failure : Error → Item

abbrev pub bytes : Bytes → List Item
bytes [] = []
bytes (b ∷ bs) = byte b ∷ bytes bs

unfoldable pub items : List Chunk → List Item
items [] = []
items (arrives b ∷ s) = bytes b ++ items s
items (fails e ∷ s) = failure e ∷ items s

bytes-append : (a b : Bytes) → bytes (a ++ b) ≡ bytes a ++ bytes b
bytes-append [] b = refl
bytes-append (x ∷ a) b = ap (◌∷◌ (byte x)) (bytes-append a b)

items-keep_rest : (b : Bytes) (s : List Chunk) → items (keep_rest b s) ≡ bytes b ++ items s
unfolding items
items-keep_rest [] s = refl
items-keep_rest (x ∷ b) s = refl

take-drop : (n : ℕ) (b : Bytes) → take n b ++ drop n b ≡ b
take-drop zero b = refl
take-drop (suc n) [] = refl
take-drop (suc n) (x ∷ b) = ap (◌∷◌ x) (take-drop n b)

-- Only a full buffer leaves something behind.
take-short : (n : ℕ) (b : Bytes) → length (take n b) < n → take n b ≡ b
take-short n b h = take-all n b (omega (arith, length-take n b))

-- The three bytes that `Peek` needs, behind `buf`.
abbrev Leads : Bytes → List Chunk → ℕ → ℕ → ℕ → Type 0
Leads buf s x y z = (rest : List Item) × (bytes buf ++ items s ≡ byte x ∷ byte y ∷ byte z ∷ rest)

abbrev pub Peeked : List Item → Bytes → Result Bytes × List Chunk → Type 0
Peeked is lead o = (s : List Chunk) × (o ≡ (ok lead, s)) × (items s ≡ is)

take_three :
    (b : Bytes) (is rest : List Item) (x y z : ℕ)
    → 3 ≤ length b
    → bytes b ++ is ≡ byte x ∷ byte y ∷ byte z ∷ rest
    → take 3 b ≡ x ∷ y ∷ z ∷ []
take_three (a ∷ b ∷ c ∷ r) is rest x y z h e = ground arith
take_three [] is rest x y z h e = absurd (omega arith)
take_three (a ∷ []) is rest x y z h e = absurd (omega arith)
take_three (a ∷ b ∷ []) is rest x y z h e = absurd (omega arith)

-- Less than three bytes before the end or a failure.
too_short :
    (b : Bytes) (is : List Item) (x y z : ℕ) (rest : List Item)
    → length b < 3
    → (is ≡ []) ⊎ ((e : Error) × (js : List Item) × (is ≡ failure e ∷ js))
    → bytes b ++ is ≢ byte x ∷ byte y ∷ byte z ∷ rest
too_short [] is x y z rest h i e = ground arith
too_short (p ∷ []) is x y z rest h i e = ground arith
too_short (p ∷ q ∷ []) is x y z rest h i e = ground arith
too_short (p ∷ q ∷ r ∷ b) is x y z rest h i e = omega arith

filled_items :
    (n : ℕ) (buf b : Bytes) (is : List Item)
    → bytes (buf ++ take n b) ++ (bytes (drop n b) ++ is) ≡ bytes buf ++ (bytes b ++ is)
filled_items n buf b is =
    ap (λ l. l ++ (bytes (drop n b) ++ is)) (bytes-append buf (take n b))
    ∙ append_assoc (bytes buf) (bytes (take n b)) (bytes (drop n b) ++ is)
    ∙ ap (λ l. bytes buf ++ l)
        (sym (append_assoc (bytes (take n b)) (bytes (drop n b)) is)
          ∙ ap (λ l. l ++ is) (sym (bytes-append (take n b) (drop n b)) ∙ ap bytes (take-drop n b)))

peek_onto-Peeked :
    (buf : Bytes) (s : List Chunk) (x y z : ℕ) (rest : List Item)
    → length buf < 3
    → bytes buf ++ items s ≡ byte x ∷ byte y ∷ byte z ∷ rest
    → Peeked (bytes buf ++ items s) (x ∷ y ∷ z ∷ []) (peek_onto buf s)
unfolding peek_onto items
peek_onto-Peeked buf [] x y z rest h e = absurd (too_short buf [] x y z rest h (inl refl) e)
peek_onto-Peeked buf (fails f ∷ s) x y z rest h e =
    absurd (too_short buf _ x y z rest h (inr (f, items s, refl)) e)
peek_onto-Peeked buf (arrives b ∷ s) x y z rest h e =
    let n = buffer_size - length buf in
    let filled = buf ++ take n b in
    let i = filled_items n buf b (items s) in
    elim (Bool-cases (leb 3 (length filled))) [
      | inl t ↦
          rw (t, take_three filled _ rest x y z (leb→le 3 (length filled) t) (i ∙ e))
            (_, refl, items-keep_rest filled _ ∙ rw (items-keep_rest (drop n b) s) i)
      | inr f ↦
          let l : length filled < 3 = ground arith in
          let k : take n b ≡ b = take-short n b (omega (arith, l, length-append buf (take n b))) in
          let j : bytes filled ++ items s ≡ bytes buf ++ (bytes b ++ items s) =
            ap (λ l. l ++ items s) (bytes-append buf (take n b))
            ∙ append_assoc (bytes buf) (bytes (take n b)) (items s)
            ∙ ap (λ c. bytes buf ++ (bytes c ++ items s)) k in
          let (r, p, q) = peek_onto-Peeked filled s x y z rest l (j ∙ e) in rw f (r, p, q ∙ j)
    ]

-- Whatever parts the first three bytes arrive in, `Peek` finds them, and the next reads see the whole of
-- what arrives, in its order, those bytes included.
peek-Peeked :
    (s : List Chunk) (x y z : ℕ) (rest : List Item)
    → items s ≡ byte x ∷ byte y ∷ byte z ∷ rest
    → Peeked (items s) (x ∷ y ∷ z ∷ []) (peek s)
unfolding peek
peek-Peeked s x y z rest e = peek_onto-Peeked [] s x y z rest (omega arith) e

module _ (fl : Float) (J : Json) (shown : Shown fl.F) (trim_space : Bytes → Bytes)
    (panic_message : Bytes → Error → Bytes) where
  open fl use {F}

  -- The trace of an HTTP client, by how the dial ends.
  abbrev pub proxied : ContextEnd → Option Error → List Chunk → List (Effect F)
  proxied end none s =
      proxied_counted ∷ forwarded s ∷ timed_out end ++ fwd_closed ∷ conn_closed ∷ []
  proxied end (some e) s = proxied_counted ∷ conn_closed ∷ []

  proxied-forward :
      (end : ContextEnd) (d : Option Error) (s : List Chunk)
      → proxied_counted ∷ forward s end d ++ conn_closed ∷ [] ≡ proxied end d s
  unfolding forward
  proxied-forward canceled none s = refl
  proxied-forward deadline_exceeded none s = refl
  proxied-forward end (some e) s = refl

  -- The trace of a plain client.
  abbrev pub served : Server F → Accepted → List Chunk → List (Effect F)
  served server a s =
      all_controlled fl J shown trim_space panic_message (
        handle_control_channel fl J shown trim_space panic_message
          (record server { login_ceremony = plain_login J })
          (write_message kickoff (adapt_net_conn s a.write_faults)).1)
      ++ conn_closed ∷ []

  -- What is done with a client that sends three bytes or more depends on the first three alone, whatever parts they
  -- arrive in. If they are `GET`, the client is counted and, if the dial succeeds, the websocket server gets
  -- all that arrives, these bytes included, after which that connection is closed; a timeout is
  -- counted. Else the control channel runs with the plain login, over a connection on which all that
  -- arrives can be read. In both cases the client's connection is closed last.
  pub sniff_then_handle_cases :
      (server : Server F) (a : Accepted) (x y z : ℕ) (rest : List Item)
      → items a.input ≡ byte x ∷ byte y ∷ byte z ∷ rest
      → (s : List Chunk) × (items s ≡ items a.input)
        × (((x ∷ y ∷ z ∷ [] ≡ codes "GET")
              × (sniff_then_handle fl J shown trim_space panic_message server a
                  ≡ proxied a.context_end a.dialed s))
            ⊎ ((x ∷ y ∷ z ∷ [] ≢ codes "GET")
                × (sniff_then_handle fl J shown trim_space panic_message server a
                    ≡ served server a s)))
  unfolding sniff_then_handle after_peek kick_off
  sniff_then_handle_cases server a x y z rest e =
      let (s, p, q) = peek-Peeked a.input x y z rest e in
      (
        s,
        q,
        elim (Bool-cases (equal (x ∷ y ∷ z ∷ []) (codes "GET"))) [
          | inl t ↦ inl (
            equal→eq (x ∷ y ∷ z ∷ []) (codes "GET") t,
            rw (p, t) (proxied-forward a.context_end a.dialed s),
          )
          | inr f ↦ inr (equal→ne (x ∷ y ∷ z ∷ []) (codes "GET") f, rw (p, f) refl)
        ],
      )
