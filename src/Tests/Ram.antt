-- ===== src/Tests/Ram.antt =====
-- A kernel that keeps a file in memory, moves at most two bytes at a time and interrupts its first
-- calls. It satisfies what src/os_posix.c relies on.
use Prim.Native.Nat.{min, max}
use libspill.Base.{
  ℕ, zero, suc, ◌+◌, ◌-◌, ◌≤◌, ◌<◌, ◌≡◌, refl, List, [], ◌∷◌, arith, ltb, if◌then◌else◌, length,
  get_or, ap, ◌∙◌,
}
use libspill.Alloc.Shape.{in_range}
use libspill.Os.{Os, IsPosix, Moved, moved, Got, got, Done, success, eintr}

pub record Ram : Type 0 where
  pub at : ℕ → ℕ
  pub end : ℕ
  pub interrupts : ℕ

abbrev pub byte_of : Ram → ℕ → ℕ
byte_of f x = if ltb x f.end then f.at x else 0

-- the bytes of the file from `off` on, `n` of them
abbrev pub slice : Ram → ℕ → ℕ → List ℕ
slice f zero off = []
slice f (suc n) off = byte_of f off ∷ slice f n (off + 1)

-- by the interrupts that are still to come
abbrev pub try_pwrite : ℕ → Ram → List ℕ → ℕ → Ram × Moved
try_pwrite (suc n) f bs off = (record f { interrupts = n }, Moved.failed eintr)
try_pwrite zero f bs off =
    let k = min 2 (length bs) in
    (
      record {
        at = λ x. if in_range off k x then get_or bs (x - off) 0 else byte_of f x;
        end = max f.end (off + k);
        interrupts = 0;
      },
      moved k,
    )

abbrev pub try_pread : ℕ → Ram → ℕ → ℕ → Ram × Got
try_pread (suc k) f n off = (record f { interrupts = k }, Got.failed eintr)
try_pread zero f n off = (f, got (slice f (min 2 (min n (f.end - off))) off))

abbrev pub ram : Os
ram = record {
  File = Ram;
  byte_at = byte_of;
  size = λ f. f.end;
  patience = λ f. f.interrupts;
  pwrite = λ f. try_pwrite f.interrupts f;
  pread = λ f. try_pread f.interrupts f;
  ftruncate = λ f n. (record f { end = n; at = byte_of f }, success);
  fstat = λ f. (f, success);
  zero_range =
      λ f off len. (record f { at = λ x. if in_range off len x then 0 else f.at x }, success);
}

pwrite_moved :
    (i : ℕ) (f f' : Ram) (bs : List ℕ) (off k : ℕ)
    → f.interrupts ≡ i
    → try_pwrite i f bs off ≡ (f', moved k)
    → (k ≤ length bs)
      × ((x : ℕ) → byte_of f' x ≡ (if in_range off k x then get_or bs (x - off) 0 else byte_of f x))
      × (f'.interrupts ≤ f.interrupts)
pwrite_moved (suc i) f f' bs off k e q =
    let r : Moved.failed eintr ≡ moved k = ap (λ (p : Ram × Moved). p.1) q in absurd cc
pwrite_moved zero f f' bs off k e q =
    let a = ap (λ (p : Ram × Moved). p.0) q in
    let r : moved (min 2 (length bs)) ≡ moved k = ap (λ (p : Ram × Moved). p.1) q in
    let b : min 2 (length bs) ≡ k = cc in
    rw (← a, ← b) (omega arith, (λ x. ground arith), omega arith)

pwrite_failed :
    (i : ℕ) (f f' : Ram) (bs : List ℕ) (off c : ℕ)
    → f.interrupts ≡ i
    → try_pwrite i f bs off ≡ (f', Moved.failed c)
    → ((x : ℕ) → byte_of f' x ≡ byte_of f x)
      × (f'.interrupts ≤ f.interrupts)
      × (c ≡ eintr → f'.interrupts < f.interrupts)
pwrite_failed (suc i) f f' bs off c e q =
    let a = ap (λ (p : Ram × Moved). p.0) q in
    rw (← a) ((λ x. refl), omega (arith, e), λ w. omega (arith, e))
pwrite_failed zero f f' bs off c e q =
    let r : moved (min 2 (length bs)) ≡ Moved.failed c = ap (λ (p : Ram × Moved). p.1) q in
    absurd cc

pwrite_size :
    (i : ℕ) (f f' : Ram) (bs : List ℕ) (off k : ℕ)
    → try_pwrite i f bs off ≡ (f', moved k)
    → (f.end ≤ f'.end) × (0 < k → off + k ≤ f'.end)
pwrite_size (suc i) f f' bs off k q =
    let r : Moved.failed eintr ≡ moved k = ap (λ (p : Ram × Moved). p.1) q in absurd cc
pwrite_size zero f f' bs off k q =
    let a = ap (λ (p : Ram × Moved). p.0) q in
    let r : moved (min 2 (length bs)) ≡ moved k = ap (λ (p : Ram × Moved). p.1) q in
    let b : min 2 (length bs) ≡ k = cc in rw (← a, ← b) (omega arith, λ l. omega arith)

pwrite_failed_size :
    (i : ℕ) (f f' : Ram) (bs : List ℕ) (off c : ℕ)
    → try_pwrite i f bs off ≡ (f', Moved.failed c)
    → f'.end ≡ f.end
pwrite_failed_size (suc i) f f' bs off c q =
    let a = ap (λ (p : Ram × Moved). p.0) q in rw (← a) refl
pwrite_failed_size zero f f' bs off c q =
    let r : moved (min 2 (length bs)) ≡ Moved.failed c = ap (λ (p : Ram × Moved). p.1) q in
    absurd cc

length-slice : (f : Ram) (n off : ℕ) → length (slice f n off) ≡ n
length-slice f zero off = refl
length-slice f (suc n) off = omega (arith, length-slice f n (off + 1))

get_or-slice : (f : Ram) (n off i : ℕ) → i < n → get_or (slice f n off) i 0 ≡ byte_of f (off + i)
get_or-slice f zero off i l = absurd (omega arith)
get_or-slice f (suc n) off zero l = let z : off ≡ off + 0 = omega arith in ap (byte_of f) z
get_or-slice f (suc n) off (suc i) l =
    let z : off + 1 + i ≡ off + suc i = omega arith in
    get_or-slice f n (off + 1) i (omega arith) ∙ ap (byte_of f) z

pread_got :
    (i : ℕ) (f f' : Ram) (n off : ℕ) (bs : List ℕ)
    → f.interrupts ≡ i
    → try_pread i f n off ≡ (f', got bs)
    → (length bs ≤ n)
      × ((i : ℕ) → i < length bs → get_or bs i 0 ≡ byte_of f (off + i))
      × ((x : ℕ) → byte_of f' x ≡ byte_of f x)
      × (f'.interrupts ≤ f.interrupts)
pread_got (suc i) f f' n off bs e q =
    let r : Got.failed eintr ≡ got bs = ap (λ (p : Ram × Got). p.1) q in absurd cc
pread_got zero f f' n off bs e q =
    let a = ap (λ (p : Ram × Got). p.0) q in
    let m = min 2 (min n (f.end - off)) in
    let r : got (slice f m off) ≡ got bs = ap (λ (p : Ram × Got). p.1) q in
    let b : slice f m off ≡ bs = cc in
    let len = length-slice f m off in
    rw (← a, ← b)
      (
        omega (arith, len),
        (λ j l. get_or-slice f m off j (omega (arith, len, l))),
        (λ x. refl),
        omega arith,
      )

pread_failed :
    (i : ℕ) (f f' : Ram) (n off c : ℕ)
    → f.interrupts ≡ i
    → try_pread i f n off ≡ (f', Got.failed c)
    → ((x : ℕ) → byte_of f' x ≡ byte_of f x)
      × (f'.interrupts ≤ f.interrupts)
      × (c ≡ eintr → f'.interrupts < f.interrupts)
pread_failed (suc i) f f' n off c e q =
    let a = ap (λ (p : Ram × Got). p.0) q in
    rw (← a) ((λ x. refl), omega (arith, e), λ w. omega (arith, e))
pread_failed zero f f' n off c e q =
    let m = min 2 (min n (f.end - off)) in
    let r : got (slice f m off) ≡ Got.failed c = ap (λ (p : Ram × Got). p.1) q in absurd cc

pub ram-IsPosix : IsPosix ram
ram-IsPosix = record {
  pwrite_moved = λ f f' bs off k q. pwrite_moved f.interrupts f f' bs off k refl q;
  pwrite_failed = λ f f' bs off c q. pwrite_failed f.interrupts f f' bs off c refl q;
  pwrite_size = λ f f' bs off k q. pwrite_size f.interrupts f f' bs off k q;
  pwrite_failed_size = λ f f' bs off c q. pwrite_failed_size f.interrupts f f' bs off c q;
  pread_got = λ f f' n off bs q. pread_got f.interrupts f f' n off bs refl q;
  pread_failed = λ f f' n off c q. pread_failed f.interrupts f f' n off c refl q;
  past_end = λ f x l. ground (arith, l);
  ftruncate_success =
      λ f f' n q. let a = ap (λ (p : Ram × Done). p.0) q in rw (← a) (refl, λ x. refl);
  ftruncate_failed =
      λ f f' n e q. let r : success ≡ Done.failed e = ap (λ (p : Ram × Done). p.1) q in absurd cc;
  fstat_same = λ f. ((λ x. refl), refl);
  zero_range_success =
      λ f f' off len l q x. let a = ap (λ (p : Ram × Done). p.0) q in rw (← a) (ground (arith, l));
  zero_range_size = λ f f' off len r q. let a = ap (λ (p : Ram × Done). p.0) q in rw (← a) refl;
  zero_range_outside = λ f f' off len r q x o.
      let a = ap (λ (p : Ram × Done). p.0) q in rw (← a) (ground (arith, o));
}
