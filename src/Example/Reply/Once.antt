-- ===== src/Example/Reply/Once.antt =====
-- Each message of ReactorExample.cpp is answered once.
use server_dev_lib.Base.{
  ℕ, zero, suc, ◌-◌, ◌+◌, ◌≤◌, ◌≡◌, refl, sym, ap, ◌∙◌, subst, Bool, true, false, Option, none,
  some, List, [], ◌∷◌, ◌++◌, append-nil, append_assoc, ltb, length, if◌then◌else◌, arith,
  Bool-cases, Option-cases, inl, inr,
}
use server_dev_lib.Base.Map.{lookup, lookup-update_same, lookup-update_other}
use server_dev_lib.Base.Int.{ℤ, int_eq, eqb, eqb_iff}
use server_dev_lib.Reactor.Channel.{Channel, get_received_data, notify_write_event}
use server_dev_lib.Reactor.Notification.{ReadyState, Waiting, handle_ready_data}
use server_dev_lib.Reactor.Channel.Send.{append_either}
use server_dev_lib.Reactor.Notification.Pending.{times, count, IsDistinct, handle_counts}
use server_dev_lib.Reactor.Delivery.{
  Center, hand_on, handle_found, handle_copy, handle_ready, notify_response_ready,
}
use server_dev_lib.Reactor.Delivery.Handed.{IsKeyed}
use server_dev_lib.Reactor.Delivery.Refines.{handles, is_some, handle_ready-refines}
use server_dev_lib.Example.Reply.{get_request, reply, reply_all, answer, person_size}

-- The connection `k` has an active channel with `queue` to be sent.
record Sends (k : ℤ) (queue : List ℕ) (r : Center) : Type 0 where
  channel : Channel
  there : lookup k r.channels ≡ some channel
  on : channel.active ≡ true
  queued : channel.sending ≡ queue

received-sending :
    (c : Channel)
    → ((get_received_data c).1.sending ≡ c.sending) × ((get_received_data c).1.active ≡ c.active)
unfolding get_received_data
received-sending c = ground arith

hand_on-Sends :
    (k j : ℤ) (queue : List ℕ) (c : Channel) (r : Center)
    → lookup j r.channels ≡ some c
    → Sends k queue r
    → Sends k queue (hand_on j c r)
unfolding hand_on
hand_on-Sends k j queue c r found s = elim (Bool-cases (eqb j k)) [
  | inl same ↦
      let here : j ≡ k = (eqb_iff j k).0 same in
      let is_c : c ≡ s.channel = cc (rw here at found, s.there) in
      record {
        channel = (get_received_data c).1;
        there =
            ap (λ i. lookup k (hand_on i c r).channels) here
            ∙ lookup-update_same k (λ old. (get_received_data c).1) r.channels s.channel s.there;
        on = (received-sending c).1 ∙ ap (λ (d : Channel). d.active) is_c ∙ s.on;
        queued = (received-sending c).0 ∙ ap (λ (d : Channel). d.sending) is_c ∙ s.queued;
      }
  | inr other ↦ record {
    channel = s.channel;
    there = lookup-update_other j k (λ old. (get_received_data c).1) r.channels other ∙ s.there;
    on = s.on;
    queued = s.queued;
  }
]

handle_found-Sends :
    (k j : ℤ) (queue : List ℕ) (o : Option Channel) (state : ReadyState) (r : Center)
    → lookup j r.channels ≡ o
    → Sends k queue r
    → Sends k queue (handle_found j o state r)
unfolding handle_found
handle_found-Sends k j queue none state r found s = s
handle_found-Sends k j queue (some c) ReadyState.one r found s = s
handle_found-Sends k j queue (some c) ReadyState.more r found s =
    hand_on-Sends k j queue c r found s
handle_found-Sends k j queue (some c) ReadyState.more_plus r found s =
    hand_on-Sends k j queue c r found s

-- `HandleReadyData` leaves what is to be sent.
handle_copy-Sends :
    (copy : Waiting) (k : ℤ) (queue : List ℕ) (r : Center)
    → Sends k queue r
    → Sends k queue (handle_copy copy r)
unfolding handle_copy
handle_copy-Sends [] k queue r s = s
handle_copy-Sends ((j, state) ∷ copy) k queue r s =
    let o = lookup j r.channels in
    handle_copy-Sends copy k queue (handle_found j o state r)
      (handle_found-Sends k j queue o state r refl s)

abbrev repeated : ℕ → List ℕ → List ℕ
repeated zero text = []
repeated (suc n) text = text ++ repeated n text

written :
    (text : List ℕ) (c : Channel)
    → c.active ≡ true
    → ((notify_write_event text c).0.sending ≡ c.sending ++ text)
      × ((notify_write_event text c).0.active ≡ true)
unfolding notify_write_event
written text c on = ground (arith, append_either c.sending text)

response-same :
    (k : ℤ) (queue text : List ℕ) (r : Center)
    → Sends k queue r
    → Sends k (queue ++ text) (notify_response_ready k text r).0
unfolding notify_response_ready
response-same k queue text r s =
    let (sending, on) = written text s.channel s.on in
    let c' = (notify_write_event text s.channel).0 in
    rw (s.there, notify_response_ready)
      (record {
        channel = c';
        there = lookup-update_same k (λ old. c') r.channels s.channel s.there;
        on = on;
        queued = sending ∙ ap (λ q. q ++ text) s.queued;
      })

response-other :
    (k j : ℤ) (queue text : List ℕ) (r : Center)
    → eqb j k ≡ false
    → Sends k queue r
    → Sends k queue (notify_response_ready j text r).0
unfolding notify_response_ready
response-other k j queue text r other s = elim (Option-cases (lookup j r.channels)) [
  | inl absent ↦ rw (absent, notify_response_ready) s
  | inr (c, found) ↦
      let c' = (notify_write_event text c).0 in
      rw (found, notify_response_ready)
        (record {
          channel = s.channel;
          there = lookup-update_other j k (λ old. c') r.channels other ∙ s.there;
          on = s.on;
          queued = s.queued;
        })
]

response-Sends :
    (k j : ℤ) (queue text : List ℕ) (r : Center)
    → Sends k queue r
    → Sends k (if eqb j k then queue ++ text else queue) (notify_response_ready j text r).0
response-Sends k j queue text r s = elim (Bool-cases (eqb j k)) [
  | inl same ↦ rw same (
      subst (λ i. Sends k (queue ++ text) (notify_response_ready i text r).0)
        (sym ((eqb_iff j k).0 same)) (response-same k queue text r s))
  | inr other ↦ rw other (response-other k j queue text r other s)
]

-- Each text is long enough for the copy of `GetRequest`.
abbrev pub AllLong : List (ℤ × List ℕ) → Type 0
AllLong [] = Unit {0}
AllLong ((fd, data_bytes) ∷ tasks) = (person_size - 1 ≤ length data_bytes) × AllLong tasks

repeated-more :
    (b : Bool) (n : ℕ) (queue : List ℕ)
    → (if b then queue ++ reply else queue) ++ repeated n reply
      ≡ queue ++ repeated (if b then n + 1 else n) reply
repeated-more true n queue =
    append_assoc queue reply (repeated n reply)
    ∙ ap (λ m. queue ++ repeated m reply) (let e : suc n ≡ n + 1 = omega arith in e)
repeated-more false n queue = refl

reply_all-Sends :
    (tasks : List (ℤ × List ℕ)) (k : ℤ) (queue : List ℕ) (r : Center)
    → AllLong tasks
    → Sends k queue r
    → (r' : Center) × (reply_all tasks r ≡ some r')
      × Sends k (queue ++ repeated (times k (handles tasks)) reply) r'
unfolding reply_all handles times get_request
reply_all-Sends [] k queue r long s = (r, refl, rw (append-nil queue) s)
reply_all-Sends ((fd, data_bytes) ∷ tasks) k queue r (enough, long) s =
    let ok : ltb (length data_bytes) (person_size - 1) ≡ false = ground arith in
    let (r', result, s') =
      reply_all-Sends tasks k (if eqb fd k then queue ++ reply else queue)
        (notify_response_ready fd reply r).0 long (response-Sends k fd queue reply r s) in
    let n = times k (handles tasks) in
    (r', rw (ok, reply_all) result, subst (λ q. Sends k q r') (repeated-more (eqb fd k) n queue) s')

-- One pass of the loop, when every channel stands under its descriptor, every descriptor stands once in
-- the map of ready states, and each text that the pass hands to `GetRequest` is long enough for its
-- copy: the pass is done, and behind what an active connection had to send stands the answer, once, if
-- a notification of its data was pending, and nothing otherwise.
pub answers_once :
    (r : Center) (k : ℤ) (c : Channel)
    → IsKeyed r.channels
    → IsDistinct r.waiting
    → lookup k r.channels ≡ some c
    → c.active ≡ true
    → AllLong (handle_ready (record r { tasks = [] })).tasks
    → (r' : Center) × (c' : Channel) × (answer r ≡ some r')
      × (lookup k r'.channels ≡ some c')
      × (c'.active ≡ true)
      × (c'.sending
          ≡ (if ltb 0 (count (lookup k r.waiting)) then c.sending ++ reply else c.sending))
unfolding answer handle_ready handles
answers_once r k c keyed distinct found on long =
    let r0 : Center = record r { tasks = [] } in
    let r1 = handle_ready r0 in
    let s0 : Sends k c.sending r0 = record { channel = c; there = found; on = on; queued = refl } in
    let (r', result, s') =
      reply_all-Sends r1.tasks k c.sending r1 long
        (handle_copy-Sends r.waiting k c.sending r0 s0) in
    let has : ℤ → Bool = λ i. is_some (lookup i r.channels) in
    let fds = (handle_ready_data has r.waiting).0 in
    let tasks : handles r1.tasks ≡ fds = (handle_ready-refines r0 keyed).1 in
    let due = ltb 0 (count (lookup k r.waiting)) in
    let counted : times k fds ≡ (if due then 1 else 0) =
      (handle_counts has k r.waiting distinct).0 ∙ rw found refl in
    (
      r',
      s'.channel,
      result,
      s'.there,
      s'.on,
      s'.queued
          ∙ ap (λ fs. c.sending ++ repeated (times k fs) reply) tasks
          ∙ ap (λ n. c.sending ++ repeated n reply) counted
          ∙ ending due,
    )
  where
    ending :
        (b : Bool)
        → c.sending ++ repeated (if b then 1 else 0) reply
          ≡ (if b then c.sending ++ reply else c.sending)
    ending true = ap (λ t. c.sending ++ t) (append-nil reply)
    ending false = append-nil c.sending
