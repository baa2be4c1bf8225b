-- ===== src/Reactor/Delivery/Kept.antt =====
-- A pass of `HandleReadyData` keeps the bytes of every connection: what a channel no longer shows is in
-- a task.
use server_dev_lib.Base.{
  ℕ, ◌≡◌, refl, sym, ap, ◌∙◌, subst, Bool, true, false, ◌||◌, Option, none, some, List, [], ◌∷◌,
  ◌++◌, append-nil, take, take-take, min, arith, if◌then◌else◌, Bool-cases, inl, inr,
}
use server_dev_lib.Base.Map.{lookup, lookup-update_same, lookup-update_other}
use server_dev_lib.Base.Int.{ℤ, int_eq, eqb, eqb_iff}
use server_dev_lib.Reactor.Channel.{Channel, buf_size, get_received_data}
use server_dev_lib.Reactor.Notification.{ReadyState, Waiting}
use server_dev_lib.Reactor.Delivery.{Center, hand_on, handle_found, handle_copy, handle_ready}
use server_dev_lib.Reactor.Delivery.Handed.{
  IsKeyed, held_lem, bytes_for, bytes_for-append, held, get_received_data_twice,
  get_received_data-fd, store-IsKeyed,
}
use server_dev_lib.Reactor.Delivery.Due.{is_due_at, has_due, or_true}

-- The connection `k` had the channel `was`, and its tasks the bytes `front`. It has a channel whose bytes
-- and those of its tasks are the same in all; if `drained`, the channel has none of them, and
-- otherwise neither the channel nor the tasks have changed.
pub record Kept (was : Channel) (k : ℤ) (front : List ℕ) (drained : Bool) (r : Center)
    : Type 0 where
  pub keyed : IsKeyed r.channels
  pub channel : Channel
  pub there : lookup k r.channels ≡ some channel
  pub whole : bytes_for k r.tasks ++ held channel ≡ front ++ held was
  pub empty : drained ≡ true → held channel ≡ []
  pub fresh : drained ≡ false → (channel ≡ was) × (bytes_for k r.tasks ≡ front)

-- The pass comes to the connection itself.
hand_on-same :
    (k : ℤ) (front : List ℕ) {was : Channel} (drained : Bool) (c : Channel) (r : Center)
    → lookup k r.channels ≡ some c
    → Kept was k front drained r
    → Kept was k front true (hand_on k c r)
unfolding hand_on IsKeyed
hand_on-same k front drained c r found kept = record {
  keyed =
      store-IsKeyed k c (get_received_data c).1 r.channels found (get_received_data-fd c)
        kept.keyed;
  channel = (get_received_data c).1;
  there = lookup-update_same k (λ old. (get_received_data c).1) r.channels c found;
  whole =
      ap (λ b. bytes_for k (hand_on k c r).tasks ++ b) (get_received_data_twice c)
      ∙ append-nil (bytes_for k (hand_on k c r).tasks)
      ∙ bytes_for-append k c.fd (held c) r.tasks
      ∙ rw own refl
      ∙ ap (λ d. bytes_for k r.tasks ++ held d) (sym is_c)
      ∙ kept.whole;
  empty = λ e. get_received_data_twice c;
  fresh = λ e. absurd cc;
}
  where
    is_c : kept.channel ≡ c
    is_c = cc (kept.there, found)

    own : eqb c.fd k ≡ true
    own = (eqb_iff c.fd k).1 (kept.keyed k c found)

hand_on-other :
    (k j : ℤ) (front : List ℕ) {was : Channel} (drained : Bool) (c : Channel) (r : Center)
    → lookup j r.channels ≡ some c
    → eqb j k ≡ false
    → Kept was k front drained r
    → Kept was k front drained (hand_on j c r)
unfolding hand_on IsKeyed
hand_on-other k j front drained c r found other kept = record {
  keyed =
      store-IsKeyed j c (get_received_data c).1 r.channels found (get_received_data-fd c)
        kept.keyed;
  channel = kept.channel;
  there = lookup-update_other j k (λ old. (get_received_data c).1) r.channels other ∙ kept.there;
  whole =
      ap (λ b. b ++ held kept.channel)
        (bytes_for-append k c.fd (get_received_data c).0 r.tasks ∙ rw not_own refl)
      ∙ kept.whole;
  empty = kept.empty;
  fresh = λ e.
      let (same, left) = kept.fresh e in
      (same, bytes_for-append k c.fd (get_received_data c).0 r.tasks ∙ rw not_own left);
}
  where
    not_own : eqb c.fd k ≡ false
    not_own = ap (λ i. eqb i k) (kept.keyed j c found) ∙ other

hand_on-Kept :
    (k j : ℤ) (front : List ℕ) {was : Channel} (drained : Bool) (c : Channel) (r : Center)
    → lookup j r.channels ≡ some c
    → Kept was k front drained r
    → Kept was k front (eqb j k || drained) (hand_on j c r)
hand_on-Kept k j front {was} drained c r found kept = elim (Bool-cases (eqb j k)) [
  | inl same ↦
      let here : j ≡ k = (eqb_iff j k).0 same in
      rw same (
        subst (λ i. Kept was k front true (hand_on i c r)) (sym here)
          (hand_on-same k front drained c r (subst (λ i. lookup i r.channels ≡ some c) here found)
            kept))
  | inr other ↦ rw other (hand_on-other k j front drained c r found other kept)
]

handle_found-Kept :
    (k j : ℤ) (front : List ℕ) {was : Channel} (drained : Bool) (o : Option Channel)
    (state : ReadyState) (r : Center)
    → lookup j r.channels ≡ o
    → Kept was k front drained r
    → Kept was k front (is_due_at k (j, state) || drained) (handle_found j o state r)
unfolding handle_found
handle_found-Kept k j front drained none state r found kept = rw (not_due state) kept
  where
    other : eqb j k ≡ false
    other = elim (Bool-cases (eqb j k)) [
      | inl same ↦ absurd (
          let here : lookup k r.channels ≡ none =
            subst (λ i. lookup i r.channels ≡ none) ((eqb_iff j k).0 same) found in
          cc (here, kept.there))
      | inr different ↦ different
    ]

    not_due : (state : ReadyState) → is_due_at k (j, state) ≡ false
    not_due ReadyState.one = refl
    not_due ReadyState.more = other
    not_due ReadyState.more_plus = other
handle_found-Kept k j front drained (some c) ReadyState.one r found kept = kept
handle_found-Kept k j front drained (some c) ReadyState.more r found kept =
    hand_on-Kept k j front drained c r found kept
handle_found-Kept k j front drained (some c) ReadyState.more_plus r found kept =
    hand_on-Kept k j front drained c r found kept

handle_copy-Kept :
    (copy : Waiting) (k : ℤ) (front : List ℕ) {was : Channel} (drained : Bool) (r : Center)
    → Kept was k front drained r
    → Kept was k front (has_due k copy || drained) (handle_copy copy r)
unfolding handle_copy has_due
handle_copy-Kept [] k front drained r kept = kept
handle_copy-Kept ((j, state) ∷ copy) k front {was} drained r kept =
    let o = lookup j r.channels in
    let rest =
      handle_copy-Kept copy k front (is_due_at k (j, state) || drained) (handle_found j o state r)
        (handle_found-Kept k j front drained o state r refl kept) in
    subst (λ b. Kept was k front b (handle_copy copy (handle_found j o state r)))
      (regroup (is_due_at k (j, state)) (has_due k copy) drained) rest
  where
    regroup : (a b c : Bool) → b || (a || c) ≡ (a || b) || c
    regroup true true c = refl
    regroup true false c = refl
    regroup false b c = refl

start-Kept :
    (k : ℤ) (c : Channel) (r : Center) (drained : Bool)
    → IsKeyed r.channels
    → lookup k r.channels ≡ some c
    → (drained ≡ true → held c ≡ [])
    → Kept c k (bytes_for k r.tasks) drained r
start-Kept k c r drained keyed found empty = record {
  keyed = keyed;
  channel = c;
  there = found;
  whole = refl;
  empty = empty;
  fresh = λ e. (refl, refl);
}

all_handed :
    {k : ℤ} {front : List ℕ} {was : Channel} {r : Center}
    → Kept was k front true r
    → bytes_for k r.tasks ≡ front ++ held was
all_handed {k} {front} {was} {r} kept =
    sym (append-nil (bytes_for k r.tasks))
    ∙ ap (λ b. bytes_for k r.tasks ++ b) (sym (kept.empty refl))
    ∙ kept.whole

-- When an entry of the connection is not ONE, all that its channel would hand out is in the tasks.
pub handle_drains :
    (k : ℤ) (c : Channel) (r : Center)
    → IsKeyed r.channels
    → lookup k r.channels ≡ some c
    → has_due k r.waiting ≡ true
    → bytes_for k (handle_ready r).tasks ≡ bytes_for k r.tasks ++ held c
unfolding handle_ready
handle_drains k c r keyed found due =
    let kept =
      handle_copy-Kept r.waiting k (bytes_for k r.tasks) false r
        (start-Kept k c r false keyed found (λ e. absurd cc)) in
    all_handed
      (subst (λ b. Kept c k (bytes_for k r.tasks) (b || false) (handle_copy r.waiting r)) due kept)

-- A channel that would hand out nothing adds nothing to the tasks.
pub handle_idle :
    (k : ℤ) (c : Channel) (r : Center)
    → IsKeyed r.channels
    → lookup k r.channels ≡ some c
    → held c ≡ []
    → bytes_for k (handle_ready r).tasks ≡ bytes_for k r.tasks
unfolding handle_ready
handle_idle k c r keyed found nothing =
    let kept =
      handle_copy-Kept r.waiting k (bytes_for k r.tasks) true r
        (start-Kept k c r true keyed found (λ e. nothing)) in
    all_handed (
      subst (λ b. Kept c k (bytes_for k r.tasks) b (handle_copy r.waiting r))
        (or_true (has_due k r.waiting)) kept)
    ∙ ap (λ b. bytes_for k r.tasks ++ b) nothing
    ∙ append-nil (bytes_for k r.tasks)

-- What an active channel would hand out, by the bytes that are counted.
shows : (c : Channel) → c.active ≡ true → held c ≡ take buf_size (take c.received_count c.received)
shows c on =
    held_lem c on
    ∙ take-take c.received_count buf_size c.received
    ∙ ap (λ n. take n c.received)
        (let e : min c.received_count buf_size ≡ min buf_size c.received_count = ground arith in e)
    ∙ sym (take-take buf_size c.received_count c.received)

-- One pass of `HandleReadyData`, when every channel stands under its descriptor, on a connection whose
-- channel is active: if a notification of the connection is pending, its tasks get the first 128 of the
-- bytes that are counted, behind what they had and nothing else, and the channel would then hand out
-- nothing; otherwise its tasks have what they had, and the channel is as it was.
pub handle_hands :
    (k : ℤ) (c : Channel) (r : Center)
    → IsKeyed r.channels
    → lookup k r.channels ≡ some c
    → c.active ≡ true
    → let shown = take buf_size (take c.received_count c.received) in
      let due = has_due k r.waiting in
      (c' : Channel) × (lookup k (handle_ready r).channels ≡ some c')
      × (bytes_for k (handle_ready r).tasks ≡ bytes_for k r.tasks ++ (if due then shown else []))
      × (held c' ≡ (if due then [] else shown))
unfolding handle_ready
handle_hands k c r keyed found on =
    let kept =
      handle_copy-Kept r.waiting k (bytes_for k r.tasks) false r
        (start-Kept k c r false keyed found (λ e. absurd cc)) in
    elim (Bool-cases (has_due k r.waiting)) [
      | inl due ↦ rw due (
        kept.channel,
        kept.there,
        handle_drains k c r keyed found due ∙ ap (λ b. bytes_for k r.tasks ++ b) (shows c on),
        kept.empty (rw due refl),
      )
      | inr idle ↦ rw idle (
        kept.channel,
        kept.there,
        (kept.fresh (rw idle refl)).1 ∙ sym (append-nil (bytes_for k r.tasks)),
        ap held (kept.fresh (rw idle refl)).0 ∙ shows c on,
      )
    ]
