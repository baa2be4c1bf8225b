-- ===== src/Example/Gather/Accepted.antt =====
-- The connections that TcpServerExample.cpp accepts, and what it makes of them.
use server_dev_lib.Base.{
  ℕ, zero, suc, ◌≤◌, ◌≡◌, refl, sym, ap, ◌∙◌, true, false, none, some, List, [], ◌∷◌, length, take,
  if◌then◌else◌, Bool-cases, inl, inr, arith,
}
use server_dev_lib.Base.Map.{map_option}
use server_dev_lib.Base.Int.{ℤ, pos, negsuc, is_negative, is_positive, eqb}
use server_dev_lib.Tcp.Server.{Server, Call, create, init, reuse_address, bind, listen, accept}
use server_dev_lib.Example.Gather.{Results, address, set_up, gather, add_first, serve}

-- The results of `::accept` that are descriptors.
unfoldable pub descriptors : List ℤ → List ℤ
descriptors [] = []
descriptors (r ∷ rs) = if is_negative r then descriptors rs else r ∷ descriptors rs

descriptors-failed :
    (r : ℤ) (rs : List ℤ) → is_negative r ≡ true → descriptors (r ∷ rs) ≡ descriptors rs
unfolding descriptors
descriptors-failed r rs failed = rw failed refl

descriptors-found :
    (r : ℤ) (rs : List ℤ) → is_negative r ≡ false → descriptors (r ∷ rs) ≡ r ∷ descriptors rs
unfolding descriptors
descriptors-found r rs fine = rw fine refl

accept-open :
    (r : ℤ) (s : Server)
    → s.access ≡ true
    → ((accept r s).0 ≡ r) × ((accept r s).1.access ≡ true) × ((accept r s).1.calls ≡ s.calls)
unfolding accept
accept-open r s open_now = ground arith

-- The loop that is still to find `suc n` connections, at a result that is none, and at one that is.
gather-failed :
    (n : ℕ) (r : ℤ) (results : List ℤ) (s : Server)
    → s.access ≡ true
    → is_negative r ≡ true
    → gather (suc n) (r ∷ results) s ≡ gather (suc n) results (accept r s).1
unfolding gather
gather-failed n r results s open_now failed = rw ((accept-open r s open_now).0, failed) refl

gather-found :
    (n : ℕ) (r : ℤ) (results : List ℤ) (s : Server)
    → s.access ≡ true
    → is_negative r ≡ false
    → gather (suc n) (r ∷ results) s ≡ map_option (add_first r) (gather n results (accept r s).1)
unfolding gather
gather-found n r results s open_now fine = rw ((accept-open r s open_now).0, fine) refl

-- On a server that was initialised, from results with at least as many descriptors as connections are
-- wanted: the loop ends with the first descriptors, in order, and the server still takes connections and
-- has made no further call.
gather_takes :
    (n : ℕ) (results : List ℤ) (s : Server)
    → s.access ≡ true
    → n ≤ length (descriptors results)
    → (s' : Server) × (gather n results s ≡ some (take n (descriptors results), s'))
      × (s'.access ≡ true)
      × (s'.calls ≡ s.calls)
gather_takes zero results s open_now enough = (s, (unfold gather in refl), open_now, refl)
gather_takes (suc n) [] s open_now enough = absurd (unfold descriptors in omega arith)
gather_takes (suc n) (r ∷ results) s open_now enough =
    let (_, still, kept) = accept-open r s open_now in
    elim (Bool-cases (is_negative r)) [
      | inl failed ↦
          let same = descriptors-failed r results failed in
          let (s', rest, on, same_calls) =
            gather_takes (suc n) results (accept r s).1 still (rw same at enough) in
          (
            s',
            gather-failed n r results s open_now failed
                ∙ rest
                ∙ ap (λ fds. some (take (suc n) fds, s')) (sym same),
            on,
            same_calls ∙ kept,
          )
      | inr fine ↦
          let more = descriptors-found r results fine in
          let fewer : suc n ≤ suc (length (descriptors results)) = rw more at enough in
          let (s', rest, on, same_calls) =
            gather_takes n results (accept r s).1 still (omega arith) in
          (
            s',
            gather-found n r results s open_now fine
                ∙ ap (map_option (add_first r)) rest
                ∙ ap (λ fds. some (take (suc n) fds, s')) (sym more),
            on,
            same_calls ∙ kept,
          )
    ]

accept-shut : (r : ℤ) (s : Server) → s.access ≡ false → accept r s ≡ (negsuc 0, s)
unfolding accept
accept-shut r s shut = simp shut refl

-- On a server that was not initialised the loop never ends, whatever `::accept` would give.
gather_hangs :
    (n : ℕ) (results : List ℤ) (s : Server) → s.access ≡ false → gather (suc n) results s ≡ none
unfolding gather
gather_hangs n [] s shut = refl
gather_hangs n (r ∷ results) s shut = rw (accept-shut r s shut) (gather_hangs n results s shut)

-- What `main` has set up when the socket is not zero and the address was converted.
set_up-calls :
    (port family : ℕ) (r : Results)
    → eqb r.socket (pos 0) ≡ false
    → is_positive r.converted ≡ true
    → ((set_up family r (create port family)).access ≡ true)
      × ((set_up family r (create port family)).calls
          ≡ Call.set_reuse r.socket (pos 1)
            ∷ Call.call_bind r.socket (address family r)
            ∷ Call.call_listen r.socket 512
            ∷ [])
unfolding set_up init reuse_address bind listen create
set_up-calls port family r some_socket converted = ground arith

-- The server of the example, where `socket` does not give zero, the address can be converted, and
-- `accept` gives at least ten descriptors: whatever `setsockopt`, `bind` and `listen` return, the address
-- was set to be reused, bound and listened on, in that order and once each, the server still takes
-- connections, and the loop ends with the first ten descriptors in the order in which they came.
pub serves_ten :
    (port family : ℕ) (r : Results) (results : List ℤ)
    → eqb r.socket (pos 0) ≡ false
    → is_positive r.converted ≡ true
    → 10 ≤ length (descriptors results)
    → (s' : Server) × (serve family r results (create port family)
        ≡ some (take 10 (descriptors results), s'))
      × (s'.access ≡ true)
      × (s'.calls
          ≡ Call.set_reuse r.socket (pos 1)
            ∷ Call.call_bind r.socket (address family r)
            ∷ Call.call_listen r.socket 512
            ∷ [])
unfolding serve
serves_ten port family r results some_socket converted enough =
    let (open_now, made) = set_up-calls port family r some_socket converted in
    let (s', taken, still, same) =
      gather_takes 10 results (set_up family r (create port family)) open_now enough in
    (s', taken, still, same ∙ made)
