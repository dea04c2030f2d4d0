-- ===== src/Ndt5/Panics.antt =====
-- `panicMsgToErrType` of ndt5/ndt5.go: the label under which a panic is counted.
use ndt_server.Common.{◌==◌, Bool, false, ◌||◌, List, [], ◌∷◌, Bytes, codes, equal, if◌then◌else◌}

-- The words before the first space.
unfoldable pub first_word : Bytes → Bytes
first_word [] = []
first_word (x ∷ b) = let rest = first_word b in if x == b' ' then [] else x ∷ rest

abbrev pub okay_words : List Bytes
okay_words =
    codes "Login"
    ∷ codes "ParseInt"
    ∷ codes "SrvQueue"
    ∷ codes "MsgLoginVersion"
    ∷ codes "MsgLoginTests"
    ∷ codes "C2S"
    ∷ codes "S2C"
    ∷ codes "MsgResults"
    ∷ codes "MsgLogout"
    ∷ codes "META"
    ∷ []

abbrev pub is_in : Bytes → List Bytes → Bool
is_in b [] = false
is_in b (w ∷ ws) = equal b w || is_in b ws

unfoldable pub panic_msg_to_err_type : Bytes → Bytes
panic_msg_to_err_type msg =
    if is_in (first_word msg) okay_words then first_word msg else codes "panic"
