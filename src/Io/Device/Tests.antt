-- ===== src/Io/Device/Tests.antt =====
-- Tests of IODevice.h on concrete devices, and the theorems at inputs that meet their hypotheses.
use server_dev_lib.Base.{
  ℕ, ◌≡◌, refl, Bool, true, false, some, List, [], ◌∷◌, ◌++◌, min, arith, take, drop, length,
  length-take, take-append-drop, replicate, copy_at,
}
use server_dev_lib.Io.Device.{
  IoDevice, Mode, Driver, buf_size, init, set_open_mode, has_read_mode, fill, fill_room, peek, read,
}
use server_dev_lib.Io.Device.Ring.{IsValid, ring_slice, contents}
use server_dev_lib.Io.Device.Fill.{IsHonest, fill_lem}
use server_dev_lib.Io.Device.Read.{read_fifo}

-- A source that hands out a list, as much as is asked for, and one that always fails.
abbrev list_driver : Bool → Driver (List ℕ)
list_driver sequential = record {
  is_sequential = sequential;
  read_data = λ s n. record { stored = take n s; ret = length (take n s); rest = drop n s };
  write_data = λ s block. (length block, s ++ block);
}

list_driver-IsHonest : (b : Bool) → IsHonest (list_driver b) (λ s. s)
list_driver-IsHonest b = record {
  counts = λ s n. refl;
  fits = λ s n. omega (arith, length-take n s);
  flows = λ s n. take-append-drop n s;
}

abbrev block : List ℕ
block = replicate buf_size 46

-- No bytes at index 0; six bytes that go round the end; a full buffer.
abbrev fresh : IoDevice
fresh = record { mode = Mode.rw; is_open = true; head = 0; tail = 0; size = 0; buf = block }

abbrev wrapped : IoDevice
wrapped = record {
  mode = Mode.rw;
  is_open = true;
  head = 1020;
  tail = 2;
  size = 6;
  buf = copy_at (copy_at block 1020 (1 ∷ 2 ∷ 3 ∷ 4 ∷ [])) 0 (5 ∷ 6 ∷ []);
}

abbrev full : IoDevice
full = record { mode = Mode.rw; is_open = true; head = 7; tail = 7; size = 1024; buf = block }

wrapped-IsValid : IsValid wrapped
unfolding copy_at
wrapped-IsValid = record {
  block = refl;
  head_in = omega arith;
  size_in = omega arith;
  tail_at = omega arith;
}

contents-wrapped : contents wrapped ≡ 1 ∷ 2 ∷ 3 ∷ 4 ∷ 5 ∷ 6 ∷ []
unfolding ring_slice copy_at
contents-wrapped = refl

peek_runs :
    peek false wrapped (some (0 ∷ 0 ∷ 0 ∷ 0 ∷ 0 ∷ 0 ∷ [])) 5
    ≡ (5, some (1 ∷ 2 ∷ 3 ∷ 4 ∷ 5 ∷ 0 ∷ []))
unfolding peek copy_at
peek_runs = refl

modes_run :
    (has_read_mode (set_open_mode Mode.w init) ≡ false)
    × ((set_open_mode Mode.none_mode init).is_open ≡ false)
    × (init.is_open ≡ true)
unfolding has_read_mode set_open_mode init
modes_run = (refl, refl, refl)

fill_lem_example :
    let (d', s') = fill (list_driver false) wrapped (7 ∷ 8 ∷ []) in
    IsValid d' × (contents d' ++ s' ≡ contents wrapped ++ (7 ∷ 8 ∷ [])) × (d'.mode ≡ Mode.rw)
fill_lem_example = fill_lem (list_driver-IsHonest false) wrapped (7 ∷ 8 ∷ []) wrapped-IsValid

read_fifo_example :
    let (got, m, d', s') =
      read (list_driver false) wrapped (7 ∷ 8 ∷ []) (some (0 ∷ 0 ∷ 0 ∷ [])) 3 in
    (got ≡ min 3 (fill (list_driver false) wrapped (7 ∷ 8 ∷ [])).0.size)
    × (m ≡ some (copy_at (0 ∷ 0 ∷ 0 ∷ []) 0 (take got (contents wrapped ++ (7 ∷ 8 ∷ [])))))
    × (contents d' ++ s' ≡ drop got (contents wrapped ++ (7 ∷ 8 ∷ [])))
    × IsValid d'
unfolding has_read_mode fill fill_room
read_fifo_example =
    read_fifo (list_driver-IsHonest false) wrapped (7 ∷ 8 ∷ []) (0 ∷ 0 ∷ 0 ∷ []) 3 wrapped-IsValid
      refl refl (omega arith) (omega arith)
