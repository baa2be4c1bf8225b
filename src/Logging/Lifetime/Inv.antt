-- ===== src/Logging/Lifetime/Inv.antt =====
-- What holds of the objects of LogMessage.h and their `Data`, and what keeps it.
use server_dev_lib.Base.{ℕ, ◌+◌, ◌≤◌, ◌≡◌, ◌≢◌, false, Option, none, some, ◌==◌, arith}
use server_dev_lib.Logging.Lifetime.{World, construct, hand_over, set}

-- A `Data` that an object points to was not deleted, and no other object points to it.
pub record Inv (w : World) : Type 0 where
  pub valid : (i d : ℕ) → w.object i ≡ some (some d) → w.store d ≢ none
  pub unique : (i j d : ℕ) → w.object i ≡ some (some d) → w.object j ≡ some (some d) → i ≡ j
  pub fresh : (i : ℕ) → w.objects ≤ i → w.object i ≡ none
  pub unused : (d : ℕ) → w.allocated ≤ d → (w.store d ≡ none) × (w.sent d ≡ 0)
  pub counted : (d : ℕ) → (w.sent d ≤ 1) × (w.store d ≡ some false → w.sent d ≡ 0)

pub construct-Inv : (w : World) → Inv w → Inv (construct w)
unfolding construct
construct-Inv w v = record {
  valid = λ i d h. ground (arith, v.valid i d, v.fresh i);
  unique = λ i j d h k.
      ground
        (arith, v.unique i j d, v.valid i w.allocated, v.valid j w.allocated, v.unused w.allocated);
  fresh = λ i h. ground (arith, v.fresh i);
  unused = λ d h. ground (arith, v.unused d);
  counted = λ d. ground (arith, v.counted d, v.unused d);
}

abbrev pub moved : World → ℕ → Option ℕ → World
moved w j held = record w {
  object = set (set w.object j (some none)) w.objects (some held);
  objects = w.objects + 1;
}

pub moved-Inv :
    (w : World) (j : ℕ) (held : Option ℕ) → w.object j ≡ some held → Inv w → Inv (moved w j held)
moved-Inv w j held at v = record {
  valid = λ i d h. ground (arith, v.valid i d, v.valid j d);
  unique = λ a b d h k. ground (arith, v.unique a b d, v.unique a j d, v.unique b j d, v.fresh j);
  fresh = λ i h. ground (arith, v.fresh i, v.fresh j);
  unused = v.unused;
  counted = v.counted;
}

pub assigned-Inv :
    (w : World) (i j : ℕ) (old held : Option ℕ)
    → w.object i ≡ some old
    → w.object j ≡ some held
    → (i == j) ≡ false
    → Inv w
    → Inv (record w { object = set (set w.object i (some held)) j (some none) })
assigned-Inv w i j old held at_i at_j other v = record {
  valid = λ a d h. ground (arith, v.valid a d, v.valid j d);
  unique = λ a b d h k. ground (arith, v.unique a b d, v.unique a j d, v.unique b j d);
  fresh = λ a h. ground (arith, v.fresh a, v.fresh i, v.fresh j);
  unused = v.unused;
  counted = v.counted;
}

pub hand_over-Inv :
    (w : World) (i d : ℕ)
    → w.object i ≡ some (some d)
    → w.store d ≡ some false
    → Inv w
    → Inv (hand_over w i d)
unfolding hand_over
hand_over-Inv w i d at kept v = record {
  valid = λ a e h. ground (arith, v.valid a e);
  unique = λ a b e h k. ground (arith, v.unique a b e, v.unique a i e, v.unique b i e, v.fresh i);
  fresh = λ a h. ground (arith, v.fresh a, v.fresh i);
  unused = λ e h. ground (arith, v.unused e);
  counted = λ e. ground (arith, v.counted e);
}

pub ended-Inv : (w : World) (i : ℕ) → Inv w → Inv (record w { object = set w.object i none })
ended-Inv w i v = record {
  valid = λ a d h. ground (arith, v.valid a d);
  unique = λ a b d h k. ground (arith, v.unique a b d);
  fresh = λ a h. ground (arith, v.fresh a);
  unused = v.unused;
  counted = v.counted;
}

pub deleted-Inv :
    (w : World) (i d : ℕ)
    → w.object i ≡ some (some d)
    → Inv w
    → Inv (record w { object = set w.object i none; store = set w.store d none })
deleted-Inv w i d at v = record {
  valid = λ a e h. ground (arith, v.valid a e, v.unique a i e);
  unique = λ a b e h k. ground (arith, v.unique a b e);
  fresh = λ a h. ground (arith, v.fresh a);
  unused = λ e h. ground (arith, v.unused e);
  counted = λ e. ground (arith, v.counted e);
}
