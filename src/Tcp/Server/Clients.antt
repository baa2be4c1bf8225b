-- ===== src/Tcp/Server/Clients.antt =====
-- The accepted descriptors of TcpServer.h: which are known, and that each is closed once.
use server_dev_lib.Base.{
  ◌≡◌, refl, ap, ◌∙◌, Bool, true, false, List, [], ◌∷◌, ◌++◌, ◌||◌, ◌&&◌, if◌then◌else◌, arith,
  Bool-cases, inl, inr,
}
use server_dev_lib.Base.Int.{ℤ, is_positive, eqb, eqb_iff}
use server_dev_lib.Tcp.Server.{Server, Call, accept, member, insert, remove, close_client}

pub member-insert : (k j : ℤ) (js : List ℤ) → member j (insert k js) ≡ eqb k j || member j js
unfolding insert member
member-insert k j js = ground (arith, eqb_iff k j)

pub member-remove :
    (k j : ℤ) (js : List ℤ) → member j (remove k js) ≡ (if eqb k j then false else member j js)
unfolding remove member
member-remove k j [] = ground arith
member-remove k j (i ∷ js) =
    ground (arith, eqb_iff i k, eqb_iff i j, eqb_iff k j, member-remove k j js)

close_known :
    (k j : ℤ) (s : Server)
    → member k s.all_accepted ≡ true
    → let (closed, s2) = close_client k s in
      (closed ≡ true)
      × (s2.calls ≡ s.calls ++ (Call.close k ∷ []))
      × (close_client k s2 ≡ (false, s2))
      × (member j s2.all_accepted ≡ (if eqb k j then false else member j s.all_accepted))
unfolding close_client
close_known k j s known =
    let gone : member k (remove k s.all_accepted) ≡ false =
      ground (arith, eqb_iff k k, member-remove k k s.all_accepted) in
    rw known (refl, refl, rw gone refl, member-remove k j s.all_accepted)

accept_known :
    (k j : ℤ) (s : Server)
    → s.access ≡ true
    → ((accept k s).1.access ≡ true)
      × (member j (accept k s).1.all_accepted
          ≡ (is_positive k && eqb k j) || member j s.all_accepted)
      × ((accept k s).1.calls ≡ s.calls)
unfolding accept
accept_known k j s working = elim (Bool-cases (is_positive k)) [
  | inl good ↦ rw (working, good) (refl, member-insert k j s.all_accepted, refl)
  | inr bad ↦ rw (working, bad) (refl, refl, refl)
]

-- After `Accept` on a server at work, where the system returns a positive descriptor, `CloseCilent` of
-- this descriptor closes it and says so; a second one closes nothing; and every other descriptor is as
-- well known as before.
accept_then_close :
    (k j : ℤ) (s : Server)
    → s.access ≡ true
    → is_positive k ≡ true
    → let s1 = (accept k s).1 in
      let (closed, s2) = close_client k s1 in
      (closed ≡ true)
      × (s2.calls ≡ s.calls ++ (Call.close k ∷ []))
      × (close_client k s2 ≡ (false, s2))
      × (member j s2.all_accepted ≡ (if eqb k j then false else member j s.all_accepted))
accept_then_close k j s working good =
    let (working1, known, same) = accept_known k k s working in
    let (working2, others, same2) = accept_known k j s working in
    let here : member k (accept k s).1.all_accepted ≡ true =
      ground (arith, known, good, eqb_iff k k) in
    let (closed, calls, once, rest) = close_known k j (accept k s).1 here in
    (
      closed,
      calls ∙ ap (λ cs. cs ++ (Call.close k ∷ [])) same,
      once,
      rest ∙ ground (arith, others, good),
    )

-- Descriptors that a server accepts, one after another.
unfoldable pub accept_all : List ℤ → Server → Server
unfolding accept
accept_all [] s = s
accept_all (k ∷ ks) s = accept_all ks (accept k s).1

regroup :
    (k j : ℤ) (before more : Bool)
    → ((is_positive k && eqb k j) || before) || (is_positive j && more)
      ≡ before || (is_positive j && (eqb k j || more))
regroup k j before more = elim (Bool-cases (eqb k j)) [
  | inl same ↦ rw ((eqb_iff k j).0 same) (ground (arith, eqb_iff j j))
  | inr other ↦ rw other (ground arith)
]

-- Whatever a server at work accepts, it knows exactly the descriptors that it knew and those positive
-- ones that the system returned.
accept_all_lem :
    (j : ℤ) (ks : List ℤ) (s : Server)
    → s.access ≡ true
    → member j (accept_all ks s).all_accepted
      ≡ member j s.all_accepted || (is_positive j && member j ks)
unfolding accept_all member
accept_all_lem j [] s working = ground arith
accept_all_lem j (k ∷ ks) s working =
    let (working1, known, same) = accept_known k j s working in
    accept_all_lem j ks (accept k s).1 working1
    ∙ rw known (regroup k j (member j s.all_accepted) (member j ks))
