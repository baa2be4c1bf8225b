-- ===== src/Logging/Stream.antt =====
-- include/server/logging/LogStream.h and LogMessage.h: the buffer of fixed size that a message is
-- written to, and how a message is finished and sent.
use server_dev_lib.Base.{
  ℕ, ◌+◌, ◌-◌, ◌<◌, ◌≤◌, ◌≡◌, refl, Bool, true, false, Option, none, some, List, [], ◌∷◌, ◌++◌, ltb,
  if◌then◌else◌, length, length-append, take, take_all, Bool-cases, inl, inr, sym, ap, ◌∙◌,
  length-take, take-append, append-nil, append_assoc, arith,
}

-- `LogStreamBuf`: `room` is `epptr() - pbase()`, `text` what stands between `pbase()` and `pptr()`.
pub record Stream : Type 0 where
  pub room : ℕ
  pub text : List ℕ

-- `LogStreamBuf(buf, len)`
unfoldable pub open_stream : ℕ → Stream
open_stream len = record { room = len - 2; text = [] }

-- One character: stored if there is room; otherwise `overflow` answers that it was, and stores nothing.
unfoldable pub put_char : ℕ → Stream → Stream
put_char ch s = if ltb (length s.text) s.room then record s { text = s.text ++ (ch ∷ []) } else s

-- `<<` of characters
unfoldable pub put : List ℕ → Stream → Stream
put [] s = s
put (ch ∷ chs) s = put chs (put_char ch s)

-- `pcount()`
unfoldable pub pcount : Stream → ℕ
pcount s = length s.text

take-append_full : (n : ℕ) (xs ys : List ℕ) → length xs ≡ n → take n (xs ++ ys) ≡ xs
take-append_full n xs ys e =
    let none_left : n - length xs ≡ 0 = omega arith in
    rw (take-append n xs ys, none_left, take_all n xs (omega arith)) (append-nil xs)

-- One character, where there is room and where there is none.
put_char_lem :
    (ch : ℕ) (s : Stream)
    → length s.text ≤ s.room
    → put_char ch s ≡ record s { text = take s.room (s.text ++ (ch ∷ [])) }
unfolding put_char
put_char_lem ch s fits = elim (Bool-cases (ltb (length s.text) s.room)) [
  | inl room ↦
      let longer : length (s.text ++ (ch ∷ [])) ≡ length s.text + 1 =
        length-append s.text (ch ∷ []) in
      let low : length s.text < s.room = ground arith in
      rw (room, take_all s.room (s.text ++ (ch ∷ [])) (omega (arith, longer))) refl
  | inr full ↦
      let at_end : length s.text ≡ s.room = ground arith in
      rw (full, take-append_full s.room s.text (ch ∷ []) at_end) refl
]

-- Cutting before more is appended makes no difference.
take-again : (n : ℕ) (xs ys : List ℕ) → take n (take n xs ++ ys) ≡ take n (xs ++ ys)
take-again ℕ.zero xs ys = refl
take-again (ℕ.suc n) [] ys = refl
take-again (ℕ.suc n) (x ∷ xs) ys = ap (◌∷◌ x) (take-again n xs ys)

-- Whatever is written to a stream that has not more than its room: the text is the front of all that
-- was written, as much as there is room for, and the rest is dropped.
pub put_lem :
    (chs : List ℕ) (s : Stream)
    → length s.text ≤ s.room
    → (put chs s).text ≡ take s.room (s.text ++ chs)
unfolding put
put_lem [] s fits = rw (append-nil s.text) (sym (take_all s.room s.text fits))
put_lem (ch ∷ chs) s fits =
    let front = take s.room (s.text ++ (ch ∷ [])) in
    let fits' : length front ≤ s.room = omega (arith, length-take s.room (s.text ++ (ch ∷ []))) in
    ap (λ q. (put chs q).text) (put_char_lem ch s fits)
    ∙ put_lem chs (record s { text = front }) fits'
    ∙ take-again s.room (s.text ++ (ch ∷ [])) chs
    ∙ ap (take s.room) (append_assoc s.text (ch ∷ []) chs)

-- What fits is stored whole.
pub put_whole :
    (chs : List ℕ) (s : Stream)
    → length s.text + length chs ≤ s.room
    → put chs s ≡ record s { text = s.text ++ chs }
unfolding put
put_whole [] s fits = rw (append-nil s.text) refl
put_whole (ch ∷ chs) s fits =
    let one = s.text ++ (ch ∷ []) in
    let longer : length one ≡ length s.text + 1 = length-append s.text (ch ∷ []) in
    let stored : put_char ch s ≡ record s { text = one } =
      put_char_lem ch s (omega arith)
      ∙ ap (λ t. record s { text = t }) (take_all s.room one (omega (arith, longer))) in
    ap (put chs) stored
    ∙ put_whole chs (record s { text = one }) (omega (arith, longer))
    ∙ ap (λ t. record s { text = t }) (append_assoc s.text (ch ∷ []) chs)

-- `LogLevel`
pub data LogLevel : Type 0 where
  info warn error fatal : LogLevel

abbrev pub is_fatal : LogLevel → Bool
is_fatal LogLevel.fatal = true
is_fatal _ = false

-- `LogMessage`: `data` is the stream of `_data` and its `_has_been_flushed`, none when the message has
-- been moved from.
pub record Message : Type 0 where
  pub level : LogLevel
  pub content : Option (Stream × Bool)

-- `Flush()`, with what the stack trace prints: the message that is handed to `_sendto`, and what is
-- left of this one.
unfoldable pub flush : List ℕ → Bool → Message → Option Message × Message
unfolding put
flush trace has_sendto m = elim m.content [
  | none ↦ (none, m)
  | some (s, flushed) ↦
      let s1 = put (10 ∷ []) s in
      let s2 = if is_fatal m.level then put trace s1 else s1 in
      if flushed
      then (none, m)
      else (if has_sendto
          then (some (record m { content = some (s2, true) }), record m { content = none })
          else (none, record m { content = some (s2, false) }))
]

-- A message that has not been flushed, with a receiver: it is sent, the stream it carries ends in a
-- newline exactly when there was room for one, and neither what was sent nor what is left is sent
-- again.
flush_once :
    (trace again : List ℕ) (level : LogLevel) (s : Stream)
    → is_fatal level ≡ false
    → length s.text ≤ s.room
    → let m : Message = record { level = level; content = some (s, false) } in
      (sent : Message) × (rest : Message) × (flush trace true m ≡ (some sent, rest))
      × (sent.content ≡ some (record s { text = take s.room (s.text ++ (10 ∷ [])) }, true))
      × (flush again true sent ≡ (none, sent))
      × (flush again true rest ≡ (none, rest))
unfolding flush
flush_once trace again level s plain fits =
    let sent : Message = record { level = level; content = some (put (10 ∷ []) s, true) } in
    (
      sent,
      record { level = level; content = none },
      rw plain refl,
      ap (λ t. some (t, true)) (put_char_lem 10 s fits),
      refl,
      refl,
    )
