-- ===== src/Logging/LogFile.antt =====
-- include/server/logging/LogFile.h: the log file and its rotation. The disk is an association list; the
-- name that `InitFileName` makes is an argument, and `FileName` says what it is.
use server_dev_lib.Base.{
  ℕ, ◌+◌, ◌≤◌, ◌<◌, ◌≡◌, refl, ◌∙◌, subst, Bool, true, false, Option, none, some, List, [], ◌++◌,
  ltb, if◌then◌else◌, length, length-append, arith, Bool-cases, inl, inr,
}
use server_dev_lib.Base.Map.{
  lookup, emplace, update, or_else, lookup-emplace, lookup-update, list_eq, list_beq, list_beq_iff,
}

-- `filename` stands for the open `_file`.
pub record LogFile : Type 0 where
  pub filename : List ℕ
  pub total_size : ℕ
  pub disk : List (List ℕ × List ℕ)

-- `InitFileName()`, which opens for appending: none is the exception when that fails.
unfoldable pub init_file_name : List ℕ → Bool → LogFile → Option LogFile
init_file_name name opened f =
    if opened then some (record f { filename = name; disk = emplace name [] f.disk }) else none

-- `Rotate()`
unfoldable pub rotate : List ℕ → Bool → LogFile → Option LogFile
unfolding init_file_name
rotate name opened f = elim (init_file_name name opened f) [
  | none ↦ none
  | some g ↦ some (record g { total_size = 0 })
]

-- `_file.write(str, n)`, which throws when it fails.
unfoldable pub append_file : Bool → List ℕ → LogFile → Option LogFile
append_file wrote str f =
    if wrote
    then some (record f {
      total_size = f.total_size + length str;
      disk = update f.filename (λ old. old ++ str) f.disk;
    })
    else none

-- `Flush(str, n)`, where `per_file_size` is `GlobalConfig._per_file_size`.
unfoldable pub flush : ℕ → List ℕ → Bool → Bool → List ℕ → LogFile → Option LogFile
unfolding rotate append_file
flush per_file_size name opened wrote str f =
    if ltb per_file_size f.total_size
    then (elim (rotate name opened f) [ none ↦ none | some g ↦ append_file wrote str g ])
    else append_file wrote str f

-- What stands in a file.
unfoldable pub content : List ℕ → LogFile → List ℕ
content k f = or_else (lookup k f.disk) []

-- No file has more than the limit and one message, and `_total_size` counts the open file.
pub record IsBounded (limit longest : ℕ) (f : LogFile) : Type 0 where
  pub exists : (b : List ℕ) × (lookup f.filename f.disk ≡ some b)
  pub counted : length (content f.filename f) ≤ f.total_size
  pub open_bound : f.total_size ≤ limit + longest
  pub bound : (k : List ℕ) → length (content k f) ≤ limit + longest

-- A file at the start of `append_file`.
record IsReady (limit longest : ℕ) (f : LogFile) : Type 0 where
  exists : (b : List ℕ) × (lookup f.filename f.disk ≡ some b)
  counted : length (content f.filename f) ≤ f.total_size
  room : f.total_size ≤ limit
  bound : (k : List ℕ) → length (content k f) ≤ limit + longest

lookup-own :
    (k str b : List ℕ) (m : List (List ℕ × List ℕ))
    → lookup k m ≡ some b
    → lookup k (update k (λ old. old ++ str) m) ≡ some (b ++ str)
lookup-own k str b m there =
    ground (arith, there, list_beq_iff k k, lookup-update k k (λ old. old ++ str) m)

lookup-other :
    (k j str : List ℕ) (m : List (List ℕ × List ℕ))
    → list_beq k j ≡ false
    → lookup j (update k (λ old. old ++ str) m) ≡ lookup j m
lookup-other k j str m other = lookup-update k j (λ old. old ++ str) m ∙ rw other refl

append_file-IsBounded :
    (limit longest : ℕ) (str : List ℕ) (f : LogFile)
    → length str ≤ longest
    → IsReady limit longest f
    → (f' : LogFile) × (append_file true str f ≡ some f') × IsBounded limit longest f'
unfolding append_file content
append_file-IsBounded limit longest str f short r =
    let (b, there) = r.exists in
    let grown = update f.filename (λ old. old ++ str) f.disk in
    (
      record f {
        total_size = f.total_size + length str;
        disk = update f.filename (λ old. old ++ str) f.disk;
      },
      refl,
      record {
        exists = (b ++ str, lookup-own f.filename str b f.disk there);
        counted = rw (lookup-own f.filename str b f.disk there) (
            omega (
              arith,
              length-append b str,
              subst (λ o. length (or_else o []) ≤ f.total_size) there r.counted,
            ));
        open_bound = omega (arith, r.room, short);
        bound = λ k. elim (Bool-cases (list_beq f.filename k)) [
          | inl same ↦
              subst (λ j. length (or_else (lookup j grown) []) ≤ limit + longest)
                ((list_beq_iff f.filename k).0 same)
                (rw (lookup-own f.filename str b f.disk there) (
                  omega (
                    arith,
                    r.room,
                    short,
                    length-append b str,
                    subst (λ o. length (or_else o []) ≤ f.total_size) there r.counted,
                  )))
          | inr other ↦ rw (lookup-other f.filename k str f.disk other) (r.bound k)
        ];
      },
    )

abbrev rotated : List ℕ → LogFile → LogFile
rotated name f = record { filename = name; total_size = 0; disk = emplace name [] f.disk }

rotated-IsReady :
    (limit longest : ℕ) (name : List ℕ) (f : LogFile)
    → lookup name f.disk ≡ none
    → ((k : List ℕ) → length (content k f) ≤ limit + longest)
    → IsReady limit longest (rotated name f)
unfolding content
rotated-IsReady limit longest name f fresh bound = record {
  exists = ([], own);
  counted = rw own (omega arith);
  room = omega arith;
  bound = λ k. elim (Bool-cases (list_beq name k)) [
    | inl same ↦ rw (lookup-emplace name k [] f.disk, same, fresh) (omega arith)
    | inr other ↦ rw (lookup-emplace name k [] f.disk, other) (bound k)
  ];
}
  where
    own : lookup name (emplace name [] f.disk) ≡ some []
    own = ground (arith, fresh, list_beq_iff name name, lookup-emplace name name [] f.disk)

-- One `Flush` of a message no longer than `longest`, which can open and write: it succeeds and keeps
-- every file within the limit and one message, if the name that a rotation would take is new.
pub flush-IsBounded :
    (limit longest : ℕ) (name str : List ℕ) (f : LogFile)
    → length str ≤ longest
    → lookup name f.disk ≡ none
    → IsBounded limit longest f
    → (f' : LogFile) × (flush limit name true true str f ≡ some f') × IsBounded limit longest f'
unfolding flush
flush-IsBounded limit longest name str f short fresh v =
    elim (Bool-cases (ltb limit f.total_size)) [
      | inl over ↦
          let (f', e, v') =
            append_file-IsBounded limit longest str (rotated name f) short
              (rotated-IsReady limit longest name f fresh v.bound) in
          (f', rw over e, v')
      | inr below ↦
          let ready : IsReady limit longest f = record {
            exists = v.exists;
            counted = v.counted;
            room = ground arith;
            bound = v.bound;
          } in
          let (f', e, v') = append_file-IsBounded limit longest str f short ready in
          (f', rw below e, v')
    ]

-- A rotation within the second in which the open file was made finds the name of that file: the file
-- goes on growing, past the limit, and the count starts at 0 again.
rotate_same_second :
    (limit : ℕ) (str old : List ℕ) (f : LogFile)
    → limit < f.total_size
    → lookup f.filename f.disk ≡ some old
    → (f' : LogFile) × (flush limit f.filename true true str f ≡ some f')
      × (content f.filename f' ≡ old ++ str)
      × (f'.total_size ≡ length str)
unfolding flush content
rotate_same_second limit str old f over there =
    let kept : lookup f.filename (emplace f.filename [] f.disk) ≡ some old = ground (
      arith,
      there,
      list_beq_iff f.filename f.filename,
      lookup-emplace f.filename f.filename [] f.disk,
    ) in
    let full : ltb limit f.total_size ≡ true = ground arith in
    (
      record f {
        total_size = 0 + length str;
        disk = update f.filename (λ b. b ++ str) (emplace f.filename [] f.disk);
      },
      rw full refl,
      rw (lookup-own f.filename str old (emplace f.filename [] f.disk) kept) refl,
      omega arith,
    )
