-- ===== src/Reactor/Delivery/Refines.antt =====
-- A pass of `HandleReadyData` with the channels and their bytes does what the pass over the ready states
-- alone does.
use server_dev_lib.Base.{
  ◌≡◌, refl, sym, ap, ◌∙◌, subst, Bool, true, false, Option, none, some, List, [], ◌∷◌, ◌++◌,
  append-nil, append_assoc, if◌then◌else◌, ℕ, ◌+◌, ◌-◌, ◌&&◌, ltb, arith,
}
use server_dev_lib.Base.Map.{lookup, update, lookup-update, map_option}
use server_dev_lib.Base.Int.{ℤ, int_eq, eqb}
use server_dev_lib.Reactor.Channel.{Channel, get_received_data}
use server_dev_lib.Reactor.Notification.{
  ReadyState, Waiting, lower, is_skipped, handle_entries, handle_ready_data,
}
use server_dev_lib.Reactor.Notification.Pending.{times, count, IsDistinct, handle_counts}
use server_dev_lib.Reactor.Delivery.{Center, hand_on, handle_found, handle_copy, handle_ready}
use server_dev_lib.Reactor.Delivery.Handed.{IsKeyed, store-IsKeyed, get_received_data-fd}

abbrev pub is_some : Option Channel → Bool
is_some none = false
is_some (some c) = true

-- The connections of the tasks, in order.
unfoldable pub handles : List (ℤ × List ℕ) → List ℤ
handles [] = []
handles ((fd, b) ∷ tasks) = fd ∷ handles tasks

handles-append :
    (fd : ℤ) (b : List ℕ) (tasks : List (ℤ × List ℕ))
    → handles (tasks ++ ((fd, b) ∷ [])) ≡ handles tasks ++ (fd ∷ [])
unfolding handles
handles-append fd b [] = refl
handles-append fd b ((j, d) ∷ tasks) = ap (◌∷◌ j) (handles-append fd b tasks)

is_some-update :
    (k j : ℤ) (f : Channel → Channel) (m : List (ℤ × Channel))
    → is_some (lookup k (update j f m)) ≡ is_some (lookup k m)
is_some-update k j f m = ap is_some (lookup-update j k f m) ∙ kept (eqb j k) (lookup k m)
  where
    kept : (b : Bool) (o : Option Channel) → is_some (if b then map_option f o else o) ≡ is_some o
    kept true none = refl
    kept true (some c) = refl
    kept false o = refl

-- `has` says which connections have a channel.
Agrees : (ℤ → Bool) → Center → Type 0
Agrees has r = (k : ℤ) → is_some (lookup k r.channels) ≡ has k

-- The center after a pass, and what the pass over the ready states says.
Refines : Center → Center → List ℤ × Waiting → Type 0
Refines r r' (fds, m) = (r'.waiting ≡ m) × (handles r'.tasks ≡ handles r.tasks ++ fds)

hand_on-Agrees :
    (has : ℤ → Bool) (fd : ℤ) (c : Channel) (r : Center)
    → Agrees has r
    → Agrees has (hand_on fd c r)
unfolding Agrees hand_on
hand_on-Agrees has fd c r agrees k =
    is_some-update k fd (λ old. (get_received_data c).1) r.channels ∙ agrees k

module _ (has : ℤ → Bool) (copy : Waiting) where
  -- The rest of the pass, from any center.
  RestRefines : Type 0
  RestRefines =
      (r : Center)
      → Agrees has r
      → IsKeyed r.channels
      → Refines r (handle_copy copy r) (handle_entries has copy r.waiting)

  -- What the pass over the ready states makes of an entry that is skipped or not.
  entry : ℤ → Waiting → Bool → List ℤ × Waiting
  entry fd m true = handle_entries has copy m
  entry fd m false =
      let (tasks, m') = handle_entries has copy (update fd lower m) in (fd ∷ tasks, m')

  handed-Refines :
      (fd : ℤ) (c : Channel) (r : Center)
      → RestRefines
      → Agrees has r
      → IsKeyed r.channels
      → lookup fd r.channels ≡ some c
      → Refines r (handle_copy copy (hand_on fd c r)) (entry fd r.waiting false)
  unfolding RestRefines Refines entry hand_on IsKeyed
  handed-Refines fd c r rest agrees keyed found =
      let (same_states, same_tasks) = rest (hand_on fd c r) (hand_on-Agrees has fd c r agrees) (
        store-IsKeyed fd c (get_received_data c).1 r.channels found (get_received_data-fd c)
          keyed) in
      let (fds, m') = handle_entries has copy (update fd lower r.waiting) in
      (
        same_states,
        same_tasks
            ∙ ap (λ hs. hs ++ fds) (handles-append c.fd (get_received_data c).0 r.tasks)
            ∙ append_assoc (handles r.tasks) (c.fd ∷ []) fds
            ∙ ap (λ i. handles r.tasks ++ (i ∷ fds)) (keyed fd c found),
      )

  has-found :
      (fd : ℤ) (o : Option Channel) (r : Center)
      → Agrees has r
      → lookup fd r.channels ≡ o
      → has fd ≡ is_some o
  unfolding Agrees
  has-found fd o r agrees found = sym (agrees fd) ∙ ap is_some found

  unless : Bool → Bool
  unless b = if b then false else true

  found-Refines :
      (fd : ℤ) (o : Option Channel) (state : ReadyState) (r : Center)
      → RestRefines
      → Agrees has r
      → IsKeyed r.channels
      → lookup fd r.channels ≡ o
      → Refines r
          (handle_copy copy (handle_found fd o state r))
          (entry fd r.waiting (is_skipped has (fd, state)))
  unfolding RestRefines handle_found is_skipped entry unless
  found-Refines fd none ReadyState.one r rest agrees keyed found = rest r agrees keyed
  found-Refines fd none ReadyState.more r rest agrees keyed found =
      subst (λ b. Refines r (handle_copy copy r) (entry fd r.waiting (unless b)))
        (sym (has-found fd none r agrees found)) (rest r agrees keyed)
  found-Refines fd none ReadyState.more_plus r rest agrees keyed found =
      subst (λ b. Refines r (handle_copy copy r) (entry fd r.waiting (unless b)))
        (sym (has-found fd none r agrees found)) (rest r agrees keyed)
  found-Refines fd (some c) ReadyState.one r rest agrees keyed found = rest r agrees keyed
  found-Refines fd (some c) ReadyState.more r rest agrees keyed found =
      subst (λ b. Refines r (handle_copy copy (hand_on fd c r)) (entry fd r.waiting (unless b)))
        (sym (has-found fd (some c) r agrees found)) (handed-Refines fd c r rest agrees keyed found)
  found-Refines fd (some c) ReadyState.more_plus r rest agrees keyed found =
      subst (λ b. Refines r (handle_copy copy (hand_on fd c r)) (entry fd r.waiting (unless b)))
        (sym (has-found fd (some c) r agrees found)) (handed-Refines fd c r rest agrees keyed found)

handle_copy-Refines : (has : ℤ → Bool) (copy : Waiting) → RestRefines has copy
unfolding RestRefines Refines handle_copy handle_entries entry
handle_copy-Refines has [] r agrees keyed = (refl, sym (append-nil (handles r.tasks)))
handle_copy-Refines has ((fd, state) ∷ copy) r agrees keyed =
    found-Refines has copy fd (lookup fd r.channels) state r (handle_copy-Refines has copy) agrees
      keyed refl

-- A pass of `HandleReadyData`, when every channel stands under its descriptor, is a pass over the ready
-- states alone, told which connections have a channel: it leaves the same states, and hands on the data
-- of the same connections in the same order, behind the tasks that were there.
pub handle_ready-refines :
    (r : Center)
    → IsKeyed r.channels
    → let (fds, m) = handle_ready_data (λ k. is_some (lookup k r.channels)) r.waiting in
      ((handle_ready r).waiting ≡ m) × (handles (handle_ready r).tasks ≡ handles r.tasks ++ fds)
unfolding handle_ready handle_ready_data RestRefines Refines Agrees
handle_ready-refines r keyed =
    handle_copy-Refines (λ k. is_some (lookup k r.channels)) r.waiting r (λ k. refl) keyed

times-append : (k : ℤ) (fds more : List ℤ) → times k (fds ++ more) ≡ times k fds + times k more
unfolding times
times-append k [] more = omega arith
times-append k (fd ∷ fds) more = ground (arith, times-append k fds more)

-- A pass of `HandleReadyData`, when every channel stands under its descriptor and every descriptor
-- stands once in the map of ready states: a connection that has a channel and a pending notification
-- gets exactly one more task, and has one notification less, of the two at most that a state stands
-- for; any other descriptor gets no task and has as many notifications as before.
pub handle_ready-counts :
    (k : ℤ) (r : Center)
    → IsKeyed r.channels
    → IsDistinct r.waiting
    → let before = count (lookup k r.waiting) in
      let due = is_some (lookup k r.channels) && ltb 0 before in
      (times k (handles (handle_ready r).tasks)
        ≡ (if due then times k (handles r.tasks) + 1 else times k (handles r.tasks)))
      × (count (lookup k (handle_ready r).waiting) ≡ (if due then before - 1 else before))
handle_ready-counts k r keyed distinct =
    let has : ℤ → Bool = λ j. is_some (lookup j r.channels) in
    let (fds, m) = handle_ready_data has r.waiting in
    let (states, tasks) = handle_ready-refines r keyed in
    let (once, left) = handle_counts has k r.waiting distinct in
    let due = is_some (lookup k r.channels) && ltb 0 (count (lookup k r.waiting)) in
    (
      ap (times k) tasks
          ∙ times-append k (handles r.tasks) fds
          ∙ ap (λ n. times k (handles r.tasks) + n) once
          ∙ either due (times k (handles r.tasks)),
      ap (λ w. count (lookup k w)) states ∙ left,
    )
  where
    either : (b : Bool) (n : ℕ) → n + (if b then 1 else 0) ≡ (if b then n + 1 else n)
    either true n = refl
    either false n = omega arith
