-- ===== src/Reactor/Delivery/Handed.antt =====
-- What the tasks have of a connection, and what its channel would hand out.
use server_dev_lib.Base.{
  ℕ, ◌≡◌, refl, sym, ap, ◌∙◌, subst, Bool, true, not, some, List, [], ◌∷◌, ◌++◌, append-nil,
  append_assoc, arith, ltb, if◌then◌else◌, Bool-cases, inl, inr,
}
use server_dev_lib.Base.Map.{lookup, update, lookup-update_same, lookup-update_other}
use server_dev_lib.Base.Int.{ℤ, int_eq, eqb, eqb_iff}
use server_dev_lib.Reactor.Channel.{Channel, substr, get_received_data}

-- The data of one handle, over all tasks in order.
unfoldable pub bytes_for : ℤ → List (ℤ × List ℕ) → List ℕ
bytes_for k [] = []
bytes_for k ((fd, b) ∷ tasks) = let rest = bytes_for k tasks in if eqb fd k then b ++ rest else rest

pub bytes_for-append :
    (k fd : ℤ) (b : List ℕ) (tasks : List (ℤ × List ℕ))
    → bytes_for k (tasks ++ ((fd, b) ∷ []))
      ≡ (if eqb fd k then bytes_for k tasks ++ b else bytes_for k tasks)
unfolding bytes_for
bytes_for-append k fd b [] = elim (Bool-cases (eqb fd k)) [
  | inl same ↦ rw same (append-nil b)
  | inr other ↦ rw other refl
]
bytes_for-append k fd b ((j, d) ∷ tasks) =
    ap (λ rest. if eqb j k then d ++ rest else rest) (bytes_for-append k fd b tasks)
    ∙ ground (arith, append_assoc d (bytes_for k tasks) b)

-- What a channel would hand out.
abbrev pub held : Channel → List ℕ
held c = (get_received_data c).0

handed_nothing : (c : Channel) → get_received_data c ≡ ([], c) → held (get_received_data c).1 ≡ []
handed_nothing c e = ap (λ g. held g.1) e ∙ ap (λ g. g.0) e

-- The two tests of `GetReceivedData`.
tried : Channel → Bool → Bool → List ℕ × Channel
tried c a n =
    if not a
    then ([], c)
    else (if n
        then ([], c)
        else (substr c.received c.received_count, record c { received_count = 0 }))

tried_lem : (c : Channel) → get_received_data c ≡ tried c c.active (ltb c.received_count 1)
unfolding get_received_data tried
tried_lem c = refl

-- `GetReceivedData` hands out what it has once.
pub get_received_data_twice : (c : Channel) → held (get_received_data c).1 ≡ []
unfolding tried
get_received_data_twice c = elim (Bool-cases c.active) [
  | inl on ↦
      let live : get_received_data c ≡ tried c true (ltb c.received_count 1) =
        tried_lem c ∙ ap (λ a. tried c a (ltb c.received_count 1)) on in
      elim (Bool-cases (ltb c.received_count 1)) [
        | inl none_yet ↦ handed_nothing c (live ∙ ap (tried c true) none_yet)
        | inr counted ↦
            let cleared : Channel = record c { received_count = 0 } in
            ap (λ g. held g.1) (live ∙ ap (tried c true) counted)
            ∙ ap (λ g. g.0) (tried_lem cleared ∙ ap (λ a. tried cleared a true) on)
      ]
  | inr off ↦ handed_nothing c (tried_lem c ∙ ap (λ a. tried c a (ltb c.received_count 1)) off)
]

-- An active channel hands out all that it shows.
pub held_lem : (c : Channel) → c.active ≡ true → held c ≡ substr c.received c.received_count
unfolding tried
held_lem c on =
    ap (λ g. g.0) (tried_lem c ∙ ap (λ a. tried c a (ltb c.received_count 1)) on)
    ∙ elim (Bool-cases (ltb c.received_count 1)) [
      | inl none_yet ↦
          let zero : 0 ≡ c.received_count = ground arith in
          ap (λ n. (tried c true n).0) none_yet ∙ ap (substr c.received) zero
      | inr counted ↦ ap (λ n. (tried c true n).0) counted
    ]

pub get_received_data-fd : (c : Channel) → (get_received_data c).1.fd ≡ c.fd
unfolding get_received_data
get_received_data-fd c = ground arith

-- Every channel stands under its own descriptor.
unfoldable pub IsKeyed : List (ℤ × Channel) → Type 0
IsKeyed m = (j : ℤ) (c : Channel) → lookup j m ≡ some c → c.fd ≡ j

pub no_channels-IsKeyed : IsKeyed []
unfolding IsKeyed lookup
no_channels-IsKeyed j c e = absurd cc

pub add-IsKeyed :
    (fd : ℤ) (c : Channel) (m : List (ℤ × Channel)) → c.fd ≡ fd → IsKeyed m → IsKeyed ((fd, c) ∷ m)
unfolding IsKeyed lookup
add-IsKeyed fd c m own keyed j d e = elim (Bool-cases (eqb fd j)) [
  | inl same ↦
      let stored : some c ≡ some d = sym (ap (λ b. if b then some c else lookup j m) same) ∙ e in
      let d_is : c ≡ d = cc stored in sym (ap (λ x. x.fd) d_is) ∙ own ∙ (eqb_iff fd j).0 same
  | inr other ↦ keyed j d (sym (ap (λ b. if b then some c else lookup j m) other) ∙ e)
]

pub store-IsKeyed :
    (j : ℤ) (c c' : Channel) (m : List (ℤ × Channel))
    → lookup j m ≡ some c
    → c'.fd ≡ c.fd
    → IsKeyed m
    → IsKeyed (update j (λ old. c') m)
unfolding IsKeyed
store-IsKeyed j c c' m found same_fd keyed i d e = elim (Bool-cases (eqb j i)) [
  | inl same ↦
      let here : j ≡ i = (eqb_iff j i).0 same in
      let there : lookup i m ≡ some c = subst (λ n. lookup n m ≡ some c) here found in
      let stored : some c' ≡ some d =
        sym (lookup-update_same i (λ old. c') m c there)
        ∙ ap (λ n. lookup i (update n (λ old. c') m)) (sym here)
        ∙ e in
      let d_is : c' ≡ d = cc stored in sym (ap (λ x. x.fd) d_is) ∙ same_fd ∙ keyed j c found ∙ here
  | inr other ↦ keyed i d (sym (lookup-update_other j i (λ old. c') m other) ∙ e)
]
