-- ===== src/Reactor/Channel/Send.antt =====
-- What Channel.h sends: `NotifyWriteEvent` and `Write` as a queue of bytes.
use server_dev_lib.Base.{
  ℕ, ◌≡◌, refl, sym, ap, ◌∙◌, true, List, [], ◌∷◌, ◌++◌, append-nil, append_assoc, arith, ◌==◌,
  if◌then◌else◌, length, take, take-append-drop, Option-cases, inl, inr,
}
use server_dev_lib.Reactor.Channel.{
  Channel, Socket, Effect, disable_send, write, notify_write_event,
}

-- The application hands bytes over, or the loop finds the socket writable.
pub data Op : Type 0 where
  notify : List ℕ → Op
  writable : Op

-- The bytes that the callbacks report as sent.
unfoldable pub sent_bytes : List Effect → List ℕ
sent_bytes [] = []
sent_bytes (Effect.sent_cb n b ∷ es) = b ++ sent_bytes es
sent_bytes (e ∷ es) = sent_bytes es

-- The bytes that the application handed over.
abbrev pub handed : List Op → List ℕ
handed [] = []
handed (notify b ∷ ops) = b ++ handed ops
handed (writable ∷ ops) = handed ops

pub append_either : (xs ys : List ℕ) → (if length xs == 0 then ys ++ xs else xs ++ ys) ≡ xs ++ ys
append_either [] ys = append-nil ys
append_either (x ∷ xs) ys = ground arith

module _ {S : Type 0} (socket : Socket S) where
  unfoldable pub run : List Op → Channel → S → Channel × List ℕ
  run [] c s = (c, [])
  run (notify b ∷ ops) c s = run ops (notify_write_event b c).0 s
  run (writable ∷ ops) c s =
      let (c', s', es) = write socket true c s in
      let (c'', log) = run ops c' s' in (c'', sent_bytes es ++ log)

  notify-sending :
      (b : List ℕ) (c : Channel)
      → c.active ≡ true
      → ((notify_write_event b c).0.sending ≡ c.sending ++ b)
        × ((notify_write_event b c).0.active ≡ true)
  unfolding notify_write_event
  notify-sending b c on = ground (arith, append_either c.sending b)

  write-sending :
      (c : Channel) (s : S)
      → c.active ≡ true
      → let (c', s', es) = write socket true c s in
        (sent_bytes es ++ c'.sending ≡ c.sending) × (c'.active ≡ true)
  unfolding write sent_bytes disable_send
  write-sending c s on = elim (Option-cases (socket.write s c.sending).0) [
    | inl refused ↦ ground (arith, refused)
    | inr (sent, took) ↦
        ground (arith, took, take-append-drop sent c.sending, append-nil (take sent c.sending))
  ]

  -- On an active channel, over any sequence of `NotifyWriteEvent` and `Write` and whatever the socket
  -- takes or refuses: the bytes reported as sent, followed by those still buffered, are those that
  -- were buffered, followed by those handed over, in order.
  pub send_fifo :
      (ops : List Op) (c : Channel) (s : S)
      → c.active ≡ true
      → let (c', log) = run ops c s in log ++ c'.sending ≡ c.sending ++ handed ops
  unfolding run
  send_fifo [] c s on = sym (append-nil c.sending)
  send_fifo (notify b ∷ ops) c s on =
      let (queued, on') = notify-sending b c on in
      send_fifo ops (notify_write_event b c).0 s on' ∙ rw (queued, append_assoc c.sending) refl
  send_fifo (writable ∷ ops) c s on =
      let (c', s', es) = write socket true c s in
      let (kept, on') = write-sending c s on in
      append_assoc (sent_bytes es) (run ops c' s').1 (run ops c' s').0.sending
      ∙ ap (◌++◌ (sent_bytes es)) (send_fifo ops c' s' on')
      ∙ sym (append_assoc (sent_bytes es) c'.sending (handed ops))
      ∙ ap (λ q. q ++ handed ops) kept
