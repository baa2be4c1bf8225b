-- ===== src/Tcp/Server/Once.antt =====
-- The accepted descriptors of TcpServer.h over a server's life: `Shutdown` closes each of those that it
-- still knows once.
use server_dev_lib.Base.{
  ℕ, ◌+◌, ◌≡◌, refl, sym, ap, ◌∙◌, Bool, true, false, List, [], ◌∷◌, ◌++◌, ◌||◌, ◌&&◌,
  if◌then◌else◌, map, arith, Bool-cases, inl, inr,
}
use server_dev_lib.Base.Int.{ℤ, is_positive, eqb, eqb_iff}
use server_dev_lib.Tcp.Server.{Server, Call, accept, member, insert, remove, close_client, shutdown}
use server_dev_lib.Tcp.Server.Clients.{member-insert, member-remove}

-- `Accept()` with what `::accept` returns, or `CloseCilent(fd)`
pub data Op : Type 0 where
  accepts closes_client : ℤ → Op

unfoldable pub serve_op : Op → Server → Server
unfolding accept close_client
serve_op (Op.accepts k) s = (accept k s).1
serve_op (Op.closes_client k) s = (close_client k s).1

unfoldable pub serve_ops : List Op → Server → Server
unfolding serve_op
serve_ops [] s = s
serve_ops (op ∷ ops) s = serve_ops ops (serve_op op s)

-- Whether the last that happened to the descriptor is that it was accepted, and not closed.
unfoldable pub is_open : ℤ → Bool → List Op → Bool
is_open j now [] = now
is_open j now (Op.accepts k ∷ ops) = is_open j ((is_positive k && eqb k j) || now) ops
is_open j now (Op.closes_client k ∷ ops) = is_open j (if eqb k j then false else now) ops

-- How often a descriptor is closed.
unfoldable pub closings : ℤ → List Call → ℕ
closings j [] = 0
closings j (Call.close k ∷ cs) = if eqb k j then closings j cs + 1 else closings j cs
closings j (c ∷ cs) = closings j cs

abbrev one_if : Bool → ℕ
one_if b = if b then 1 else 0

-- Each descriptor stands in the list once.
unfoldable IsOnce : List ℤ → Type 0
IsOnce js = (j : ℤ) → closings j (map Call.close js) ≡ one_if (member j js)

none-IsOnce : IsOnce []
unfolding IsOnce closings member
none-IsOnce j = refl

insert-IsOnce : (k : ℤ) (js : List ℤ) → IsOnce js → IsOnce (insert k js)
unfolding IsOnce insert closings member
insert-IsOnce k js once j = ground (arith, once j, eqb_iff k j)

closings-remove :
    (k j : ℤ) (js : List ℤ)
    → closings j (map Call.close (remove k js))
      ≡ (if eqb k j then 0 else closings j (map Call.close js))
unfolding remove closings
closings-remove k j [] = ground arith
closings-remove k j (i ∷ js) =
    ground (arith, eqb_iff i k, eqb_iff i j, eqb_iff k j, closings-remove k j js)

remove-IsOnce : (k : ℤ) (js : List ℤ) → IsOnce js → IsOnce (remove k js)
unfolding IsOnce
remove-IsOnce k js once j = ground (arith, closings-remove k j js, member-remove k j js, once j)

-- A server at work that was told to save its descriptors.
record AtWork (first : ℤ) (s : Server) : Type 0 where
  working : s.access ≡ true
  saving : s.save_all_connection ≡ true
  same_fd : s.fd ≡ first
  once : IsOnce s.all_accepted

not_known :
    (k : ℤ) (js : List ℤ) → member k js ≡ false → (j : ℤ) → eqb k j ≡ true → member j js ≡ false
not_known k js gone j same = ap (λ i. member i js) (sym ((eqb_iff k j).0 same)) ∙ gone

accept-AtWork :
    (first k : ℤ) (b : Bool) (s : Server)
    → is_positive k ≡ b
    → AtWork first s
    → AtWork first (accept k s).1
unfolding accept
accept-AtWork first k true s good v =
    rw (v.working, accept, good)
      (record {
        working = refl;
        saving = v.saving;
        same_fd = v.same_fd;
        once = insert-IsOnce k s.all_accepted v.once;
      })
accept-AtWork first k false s bad v =
    rw (v.working, accept, bad)
      (record { working = refl; saving = v.saving; same_fd = v.same_fd; once = v.once })

close-AtWork :
    (first k : ℤ) (b : Bool) (s : Server)
    → member k s.all_accepted ≡ b
    → AtWork first s
    → AtWork first (close_client k s).1
unfolding close_client
close-AtWork first k true s known v =
    rw (known, close_client)
      (record {
        working = v.working;
        saving = v.saving;
        same_fd = v.same_fd;
        once = remove-IsOnce k s.all_accepted v.once;
      })
close-AtWork first k false s gone v = rw (gone, close_client) v

op-AtWork : (first : ℤ) (op : Op) (s : Server) → AtWork first s → AtWork first (serve_op op s)
unfolding serve_op
op-AtWork first (Op.accepts k) s v = accept-AtWork first k (is_positive k) s refl v
op-AtWork first (Op.closes_client k) s v = close-AtWork first k (member k s.all_accepted) s refl v

op-known :
    (op : Op) (ops : List Op) (s : Server) (j : ℤ)
    → s.access ≡ true
    → is_open j (member j (serve_op op s).all_accepted) ops
      ≡ is_open j (member j s.all_accepted) (op ∷ ops)
unfolding serve_op accept close_client is_open
op-known (Op.accepts k) ops s j working =
    ap (λ b. is_open j b ops)
      (elim (Bool-cases (is_positive k)) [
        | inl good ↦ rw (working, good) (member-insert k j s.all_accepted)
        | inr bad ↦ rw (working, bad) refl
      ])
op-known (Op.closes_client k) ops s j working =
    ap (λ b. is_open j b ops)
      (elim (Bool-cases (member k s.all_accepted)) [
        | inl known ↦ rw (known, serve_op, close_client) (member-remove k j s.all_accepted)
        | inr gone ↦
            rw (gone, serve_op, close_client) (ground (arith, not_known k s.all_accepted gone j))
      ])

ops-AtWork :
    (first : ℤ) (ops : List Op) (s : Server) (j : ℤ)
    → AtWork first s
    → AtWork first (serve_ops ops s)
      × (member j (serve_ops ops s).all_accepted ≡ is_open j (member j s.all_accepted) ops)
unfolding serve_ops is_open
ops-AtWork first [] s j v = (v, refl)
ops-AtWork first (op ∷ ops) s j v =
    let (v', known) = ops-AtWork first ops (serve_op op s) j (op-AtWork first op s v) in
    (v', known ∙ op-known op ops s j v.working)

shutdown-calls :
    (first : ℤ) (s : Server)
    → AtWork first s
    → (shutdown s).calls ≡ s.calls ++ (Call.close first ∷ map Call.close s.all_accepted)
unfolding shutdown
shutdown-calls first s v = rw (v.working, v.saving, v.same_fd) refl

shutdown-forgets :
    (s : Server) (j : ℤ) → s.access ≡ true → close_client j (shutdown s) ≡ (false, shutdown s)
unfolding shutdown close_client member
shutdown-forgets s j working = rw working refl

-- A server at work without accepted descriptors, that was told to save them, over any sequence of
-- `Accept` and `CloseCilent`, whatever `::accept` returns, and then `Shutdown`: it closes its own
-- descriptor and then each positive descriptor that was accepted and not closed since then, exactly
-- once, and no other; a `CloseCilent` behind it closes none.
pub shutdown_closes :
    (s : Server) (ops : List Op) (j : ℤ)
    → s.access ≡ true
    → s.save_all_connection ≡ true
    → s.all_accepted ≡ []
    → let s1 = serve_ops ops s in
      (cs : List Call) × ((shutdown s1).calls ≡ s1.calls ++ (Call.close s.fd ∷ cs))
      × (closings j cs ≡ (if is_open j false ops then 1 else 0))
      × (close_client j (shutdown s1) ≡ (false, shutdown s1))
unfolding IsOnce member
shutdown_closes s ops j working saving none_yet =
    let start : AtWork s.fd s = record {
      working = working;
      saving = saving;
      same_fd = refl;
      once = rw none_yet none-IsOnce;
    } in
    let s1 = serve_ops ops s in
    let (v, known) = ops-AtWork s.fd ops s j start in
    (
      map Call.close s1.all_accepted,
      shutdown-calls s.fd s1 v,
      v.once j ∙ ap one_if (known ∙ ap (λ js. is_open j (member j js) ops) none_yet),
      shutdown-forgets s1 j v.working,
    )
