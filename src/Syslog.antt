-- ===== src/Syslog.antt =====
-- The logger that passes the messages of the framework on to syslog,
-- server/service-src/service_syslog.c.
mod Tests
use skynet_server.Common.{
  ℕ, zero, suc, ◌+◌, ◌/◌, ◌%◌, ◌≡◌, ◌≢◌, refl, ap, ◌∙◌, inl, inr, Bool, true, false, not, ◌||◌,
  Option, none, some, List, [], ◌∷◌, ◌++◌, arith, length, get_or, drop, ltb, ◌==◌, if◌then◌else◌,
  Bool-cases, Option-cases, ==_iff, sym,
}
use skynet_server.Common.Bytes.{Bytes, codes}

-- LOG_DEBUG and so on.
pub data Priority : Type 0 where
  log_debug log_info log_notice log_warning log_err : Priority

-- The switch: the priority that a letter stands for.
abbrev pub letter_priority : ℕ → Option Priority
letter_priority c =
    if c == b'D'
    then some log_debug
    else if c == b'I'
    then some log_info
    else if c == b'N'
    then some log_notice
    else if c == b'W'
    then some log_warning
    else if c == b'E'
    then some log_err
    else none

abbrev pub or_whole : Bytes → Priority → Option Priority → Priority × Bytes
or_whole msg priority none = (priority, msg)
or_whole msg priority (some p) = (p, drop 2 msg)

-- The priority of a message, which is `priority` where the message does not name one, and its text.
unfoldable pub check_msg : Bytes → Priority → Priority × Bytes
check_msg msg priority =
    if ltb (length msg) 2 || not (get_or msg 1 0 == b'|')
    then (priority, msg)
    else or_whole msg priority (letter_priority (get_or msg 0 0))

-- The text that `%s` prints: the bytes before the first 0, or all of them, as the framework ends each
-- message with a 0.
abbrev pub c_string : Bytes → Bytes
c_string [] = []
c_string (c ∷ text) = let rest = c_string text in if c == 0 then [] else c ∷ rest

-- `%08x`: eight digits of a number of 32 bits.
abbrev pub hex_digit : ℕ → ℕ
hex_digit d = if ltb d 10 then d + 48 else d + 87

abbrev pub hex_digits : ℕ → ℕ → Bytes → Bytes
hex_digits zero n digits = digits
hex_digits (suc k) n digits = hex_digits k (n / 16) (hex_digit (n % 16) ∷ digits)

-- What a message from `source` writes to syslog.
unfoldable pub cb : ℕ → Bytes → Priority × Bytes
unfolding check_msg
cb source msg =
    let checked = check_msg msg log_warning in
    (checked.0, codes "[:" ++ (hex_digits 8 source [] ++ (codes "] " ++ c_string checked.1)))

-- The calls of `syslog_init`: `openlog` with LOG_PID and LOG_LOCAL3, `skynet_callback`, and
-- `skynet_command` with "REG".
pub data StartCall : Type 0 where
  open_log : Bytes → StartCall
  set_callback : StartCall
  register : Bytes → StartCall

-- The calls, and whether the start fails.
unfoldable pub syslog_init : Bytes → List StartCall × Bool
syslog_init ident = (open_log ident ∷ set_callback ∷ register (codes ".logger") ∷ [], false)

-- The specification: the letter of each priority, and the line for a text.
abbrev pub letter : Priority → ℕ
letter log_debug = b'D'
letter log_info = b'I'
letter log_notice = b'N'
letter log_warning = b'W'
letter log_err = b'E'

abbrev pub line : ℕ → Bytes → Bytes
line source text = codes "[:" ++ (hex_digits 8 source [] ++ (codes "] " ++ c_string text))

-- The two kinds of message.
pub data View (source : ℕ) (msg : Bytes) : Type 0 where
  labelled :
      (p : Priority) (text : Bytes)
      → msg ≡ letter p ∷ b'|' ∷ text
      → cb source msg ≡ (p, line source text)
      → View source msg
  plain :
      ((p : Priority) (text : Bytes) → msg ≢ letter p ∷ b'|' ∷ text)
      → cb source msg ≡ (log_warning, line source msg)
      → View source msg

letter_priority-some : (c : ℕ) (p : Priority) → letter_priority c ≡ some p → c ≡ letter p
letter_priority-some c p h = ground arith

letter_priority-letter : (p : Priority) → letter_priority (letter p) ≡ some p
letter_priority-letter log_debug = refl
letter_priority-letter log_info = refl
letter_priority-letter log_notice = refl
letter_priority-letter log_warning = refl
letter_priority-letter log_err = refl

check_msg-cons :
    (c : ℕ) (text : Bytes) (priority : Priority) (o : Option Priority)
    → letter_priority c ≡ o
    → check_msg (c ∷ b'|' ∷ text) priority ≡ or_whole (c ∷ b'|' ∷ text) priority o
unfolding check_msg
check_msg-cons c text priority o e = ground (arith, e)

check_msg-bar :
    (c d : ℕ) (text : Bytes) (priority : Priority)
    → d ≢ b'|'
    → check_msg (c ∷ d ∷ text) priority ≡ (priority, c ∷ d ∷ text)
unfolding check_msg
check_msg-bar c d text priority h = ground (arith, h)

-- A message that consists of the letter of a priority, a bar and a text is logged with that priority,
-- as the text behind its source; every other message is logged whole, as a warning. A text ends at its
-- first byte 0.
pub cb-View : (source : ℕ) (msg : Bytes) → View source msg
unfolding cb
cb-View source [] = plain (λ p text e. absurd (cc)) (unfold check_msg in refl)
cb-View source (c ∷ []) = plain (λ p text e. absurd (cc)) (unfold check_msg in refl)
cb-View source (c ∷ d ∷ text) = elim (Bool-cases (d == b'|')) [
  | inl bar ↦ bar_View d ((==_iff d b'|').0 bar)
  | inr other ↦
      plain (λ p t e. absurd (ground (arith, other, e)))
        (ap by_check (check_msg-bar c d text log_warning (λ e. absurd (ground (arith, other, e)))))
]
  where
    by_check : Priority × Bytes → Priority × Bytes
    by_check r = (r.0, line source r.1)

    bar_View : (d : ℕ) → d ≡ b'|' → View source (c ∷ d ∷ text)
    bar_View d bar = elim (Option-cases (letter_priority c)) [
      | inr (p, named) ↦
          labelled p text
            (ap (λ x. x ∷ d ∷ text) (letter_priority-some c p named)
              ∙ ap (λ x. letter p ∷ x ∷ text) bar)
            (ap (λ x. cb source (c ∷ x ∷ text)) bar
              ∙ ap by_check (check_msg-cons c text log_warning (some p) named))
      | inl nameless ↦
          plain
            (λ p t e.
              let same : c ≡ letter p = cc in
              absurd (ground (arith, nameless, letter_priority-letter p, same)))
            (ap (λ x. cb source (c ∷ x ∷ text)) bar
              ∙ ap by_check (check_msg-cons c text log_warning none nameless)
              ∙ ap (λ x. (log_warning, line source (c ∷ x ∷ text))) (sym bar))
    ]
