-- ===== src/Netpack/Handshake.antt =====
-- The opening handshake in lua-websocketnetpack.c: the HTTP header ends at the first empty line.
pub mod Search
use skynet_server.Common.{
  ℕ, zero, suc, ◌+◌, ◌-◌, Bool, true, false, ◌&&◌, Option, none, some, List, [], ◌∷◌, length, ltb,
  ◌==◌, if◌then◌else◌,
}
use skynet_server.Common.Bytes.{Bytes}
use skynet_server.Common.Int.{ℤ, pos, negsuc}

-- `0 == memcmp(haystack, needle, needle_length)`; the loop compares the first bytes once before.
unfoldable pub starts_with : Bytes → Bytes → Bool
starts_with haystack [] = true
starts_with [] (n ∷ needle) = false
starts_with (h ∷ haystack) (n ∷ needle) = (h == n) && starts_with haystack needle

-- The loop, with `rounds` positions left; `i` is the first of them.
unfoldable pub search_from : (rounds i : ℕ) → Bytes → Bytes → Option ℕ
unfolding starts_with
search_from zero i haystack needle = none
search_from (suc rounds) i [] needle = none
search_from (suc rounds) i (h ∷ haystack) needle =
    let later = search_from rounds (i + 1) haystack needle in
    if starts_with (h ∷ haystack) needle then some i else later

-- `none` is -1. The needle is not empty (`assert`).
unfoldable pub websocket_strnpos : Bytes → Bytes → Option ℕ
unfolding search_from
websocket_strnpos haystack needle =
    if ltb (length haystack) (length needle)
    then none
    else search_from (length haystack - length needle + 1) 0 haystack needle

-- "\r\n\r\n"
abbrev pub blank_line : Bytes
blank_line = 13 ∷ 10 ∷ 13 ∷ 10 ∷ []

-- The length of the header, the empty line included, or -1.
unfoldable pub get_http_header : Bytes → ℤ
unfolding websocket_strnpos
get_http_header buffer = elim (websocket_strnpos buffer blank_line) [
  | none ↦ negsuc 0
  | some n ↦ pos (n + 4)
]
