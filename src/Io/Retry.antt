-- ===== src/Io/Retry.antt =====
-- The retry loops of `rw_all` are all-or-nothing: a transfer that reports success moved every byte
-- to its place and touched no other, and enough fuel always gives a report.
use libspill.Base.{
  ℕ, zero, suc, ◌+◌, ◌-◌, ◌≤◌, ◌<◌, ◌≡◌, refl, inl, inr, false, Option, none, some, List, [], ◌∷◌,
  ◌++◌, arith, ◌==◌, ==_iff, Bool-cases, length, take, drop, get_or, length-drop, length-append,
  ltb, ap, ◌∙◌,
}
use libspill.Alloc.Shape.{in_range}
use libspill.Status.{Status, done, errno, Result, ok, fail}
use libspill.Os.{Os, IsPosix, Moved, moved, eintr, enospc, overlay}
use libspill.Io.{after_pwrite, pwrite_all, prepend, ls_pwrite_all}

pub get_or-drop : (k : ℕ) (bs : List ℕ) (i d : ℕ) → get_or (drop k bs) i d ≡ get_or bs (k + i) d
get_or-drop zero bs i d = let e : 0 + i ≡ i = omega arith in rw e
get_or-drop (suc k) [] i d = refl
get_or-drop (suc k) (b ∷ bs) i d =
    let e : suc k + i ≡ suc (k + i) = omega arith in rw e (get_or-drop k bs i d)

pub get_or-take : (k : ℕ) (bs : List ℕ) (i d : ℕ) → i < k → get_or (take k bs) i d ≡ get_or bs i d
get_or-take zero bs i d h = elim h [ ]
get_or-take (suc k) [] i d h = refl
get_or-take (suc k) (b ∷ bs) zero d h = refl
get_or-take (suc k) (b ∷ bs) (suc i) d h = get_or-take k bs i d (omega arith)

pub get_or-append_left :
    (xs ys : List ℕ) (i d : ℕ) → i < length xs → get_or (xs ++ ys) i d ≡ get_or xs i d
get_or-append_left [] ys i d h = absurd (omega arith)
get_or-append_left (x ∷ xs) ys zero d h = refl
get_or-append_left (x ∷ xs) ys (suc i) d h = get_or-append_left xs ys i d (omega arith)

pub get_or-append_right :
    (xs ys : List ℕ) (i j d : ℕ) → length xs + j ≡ i → get_or (xs ++ ys) i d ≡ get_or ys j d
get_or-append_right [] ys i j d h = let e : i ≡ j = omega arith in rw e
get_or-append_right (x ∷ xs) ys zero j d h = absurd (omega arith)
get_or-append_right (x ∷ xs) ys (suc i) j d h = get_or-append_right xs ys i j d (omega arith)

module _ (os : Os) (posix : IsPosix os) where
  -- What a write of `bs` at `off` promises, by its report.
  pub record Wrote (f : os.File) (bs : List ℕ) (off : ℕ) (f' : os.File) (st : Status) : Type 0 where
    pub outside : (x : ℕ) → in_range off (length bs) x ≡ false → os.byte_at f' x ≡ os.byte_at f x
    pub inside : st ≡ done → (x : ℕ) → os.byte_at f' x ≡ overlay bs off (os.byte_at f) x

  abbrev Writes : (os.File → List ℕ → ℕ → os.File × Option Status) → Type 0
  Writes loop =
      (f : os.File) (bs : List ℕ) (off : ℕ) (f' : os.File) (st : Status)
      → loop f bs off ≡ (f', some st)
      → Wrote f bs off f' st

  after_pwrite-Wrote :
      (loop : os.File → List ℕ → ℕ → os.File × Option Status)
      → Writes loop
      → (f : os.File) (b : ℕ) (bs : List ℕ) (off : ℕ) (r : os.File × Moved) (f' : os.File)
        (st : Status)
      → os.pwrite f (b ∷ bs) off ≡ r
      → after_pwrite os loop (b ∷ bs) off r ≡ (f', some st)
      → Wrote f (b ∷ bs) off f' st
  unfolding after_pwrite
  after_pwrite-Wrote loop h f b bs off (g, Moved.failed e) f' st call eq =
      let (same, _, _) = posix.pwrite_failed f g (b ∷ bs) off e call in
      elim (Bool-cases (e == eintr)) [
        | inl again ↦
            let w = h g (b ∷ bs) off f' st (rw (again, after_pwrite) at eq) in
            record {
              outside = λ x o. w.outside x o ∙ same x;
              inside = λ d x. ground (arith, w.inside d x, same x);
            }
        | inr error ↦
            let q = rw (error, after_pwrite) at eq in
            let e1 : g ≡ f' = ap (λ (p : os.File × Option Status). p.0) q in
            let e2 : some (errno e) ≡ some st = ap (λ (p : os.File × Option Status). p.1) q in
            record { outside = λ x o. rw (← e1) (same x); inside = λ d x. cc }
      ]
  after_pwrite-Wrote loop h f b bs off (g, moved zero) f' st call eq =
      let (_, bytes, _) = posix.pwrite_moved f g (b ∷ bs) off 0 call in
      let e1 : g ≡ f' = ap (λ (p : os.File × Option Status). p.0) eq in
      let e2 : some (errno enospc) ≡ some st = ap (λ (p : os.File × Option Status). p.1) eq in
      record { outside = λ x o. rw (← e1) (ground (arith, bytes x)); inside = λ d x. cc }
  after_pwrite-Wrote loop h f b bs off (g, moved (suc k)) f' st call eq =
      let (fits, bytes, _) = posix.pwrite_moved f g (b ∷ bs) off (suc k) call in
      let w = h g (drop (suc k) (b ∷ bs)) (off + suc k) f' st eq in
      let len = length-drop (suc k) (b ∷ bs) in
      record {
        outside = λ x o. ground (arith, w.outside x, bytes x, len, fits);
        inside = λ d x. ground (
          arith,
          w.inside d x,
          bytes x,
          len,
          fits,
          get_or-drop (suc k) (b ∷ bs) (x - (off + suc k)) 0,
        );
      }

  -- Whatever `pwrite_all` reports, no byte outside the range changes; if it reports success, the
  -- range holds the buffer.
  pub pwrite_all-Wrote :
      (fuel : ℕ) (f : os.File) (bs : List ℕ) (off : ℕ) (f' : os.File) (st : Status)
      → pwrite_all os fuel f bs off ≡ (f', some st)
      → Wrote f bs off f' st
  unfolding pwrite_all
  pwrite_all-Wrote fuel f [] off f' st e =
      let e1 : f ≡ f' = ap (λ (p : os.File × Option Status). p.0) e in
      record { outside = λ x o. rw (← e1) refl; inside = λ d x. rw (← e1) (ground arith) }
  pwrite_all-Wrote zero f (b ∷ bs) off f' st e =
      let e2 : none ≡ some st = ap (λ (p : os.File × Option Status). p.1) e in cc
  pwrite_all-Wrote (suc fuel) f (b ∷ bs) off f' st e =
      after_pwrite-Wrote (pwrite_all os fuel) (pwrite_all-Wrote fuel) f b bs off
        (os.pwrite f (b ∷ bs) off) f' st refl e

  abbrev Reports : ℕ → (os.File → List ℕ → ℕ → os.File × Option Status) → Type 0
  Reports fuel loop =
      (f : os.File) (bs : List ℕ) (off : ℕ)
      → length bs + os.patience f ≤ fuel
      → (st : Status) × ((loop f bs off).1 ≡ some st)

  after_pwrite-Reports :
      (fuel : ℕ) (loop : os.File → List ℕ → ℕ → os.File × Option Status)
      → Reports fuel loop
      → (f : os.File) (b : ℕ) (bs : List ℕ) (off : ℕ) (r : os.File × Moved)
      → os.pwrite f (b ∷ bs) off ≡ r
      → length (b ∷ bs) + os.patience f ≤ suc fuel
      → (st : Status) × ((after_pwrite os loop (b ∷ bs) off r).1 ≡ some st)
  unfolding after_pwrite
  after_pwrite-Reports fuel loop h f b bs off (g, Moved.failed e) call l =
      let (_, less, intr) = posix.pwrite_failed f g (b ∷ bs) off e call in
      elim (Bool-cases (e == eintr)) [
        | inl again ↦
            let i = intr ((==_iff e eintr).0 again) in
            let (st, q) = h g (b ∷ bs) off (omega (arith, l, i)) in (st, rw (again, after_pwrite) q)
        | inr error ↦ (errno e, rw (error, after_pwrite) refl)
      ]
  after_pwrite-Reports fuel loop h f b bs off (g, moved zero) call l = (errno enospc, refl)
  after_pwrite-Reports fuel loop h f b bs off (g, moved (suc k)) call l =
      let (fits, _, less) = posix.pwrite_moved f g (b ∷ bs) off (suc k) call in
      h g (drop (suc k) (b ∷ bs)) (off + suc k)
        (omega (arith, length-drop (suc k) (b ∷ bs), fits, less, l))

  -- The loop ends: fuel for one call for each byte and each interruption is enough.
  pub pwrite_all-Reports :
      (fuel : ℕ) (f : os.File) (bs : List ℕ) (off : ℕ)
      → length bs + os.patience f ≤ fuel
      → (st : Status) × ((pwrite_all os fuel f bs off).1 ≡ some st)
  unfolding pwrite_all
  pwrite_all-Reports fuel f [] off l = (done, refl)
  pwrite_all-Reports zero f (b ∷ bs) off l = absurd (omega (arith, l))
  pwrite_all-Reports (suc fuel) f (b ∷ bs) off l =
      after_pwrite-Reports fuel (pwrite_all os fuel) (pwrite_all-Reports fuel) f b bs off
        (os.pwrite f (b ∷ bs) off) refl l

  -- What a read of `n` bytes at `off` promises, by its report.
  pub record ReadBack (f : os.File) (n off : ℕ) (f' : os.File) (r : Result (List ℕ)) : Type 0 where
    pub same : (x : ℕ) → os.byte_at f' x ≡ os.byte_at f x
    pub bytes :
        (bs : List ℕ)
        → r ≡ ok bs
        → (length bs ≡ n) × ((i : ℕ) → i < n → get_or bs i 0 ≡ os.byte_at f (off + i))

  abbrev pub Reads : (os.File → ℕ → ℕ → os.File × Option (Result (List ℕ))) → Type 0
  Reads loop =
      (f : os.File) (n off : ℕ) (f' : os.File) (r : Result (List ℕ))
      → loop f n off ≡ (f', some r)
      → ReadBack f n off f' r

  pub prepend-ReadBack :
      (f g : os.File) (n off : ℕ) (bs : List ℕ) (p : os.File × Option (Result (List ℕ)))
      (f' : os.File) (r : Result (List ℕ))
      → ((x : ℕ) → os.byte_at g x ≡ os.byte_at f x)
      → length bs ≤ n
      → ((i : ℕ) → i < length bs → get_or bs i 0 ≡ os.byte_at f (off + i))
      → ((f' : os.File) (r : Result (List ℕ))
          → p ≡ (f', some r)
          → ReadBack g (n - length bs) (off + length bs) f' r)
      → prepend os bs p ≡ (f', some r)
      → ReadBack f n off f' r
  prepend-ReadBack f g n off bs (f1, none) f' r same l front h e =
      let e2 : none ≡ some r = ap (λ (p : os.File × Option (Result (List ℕ))). p.1) e in cc
  prepend-ReadBack f g n off bs (f1, some (fail st)) f' r same l front h e =
      let w = h f1 (fail st) refl in
      let e1 : f1 ≡ f' = ap (λ (p : os.File × Option (Result (List ℕ))). p.0) e in
      let e2 : some (fail st) ≡ some r = ap (λ (p : os.File × Option (Result (List ℕ))). p.1) e in
      record { same = λ x. rw (← e1) (w.same x ∙ same x); bytes = λ cs q. cc }
  prepend-ReadBack f g n off bs (f1, some (ok cs)) f' r same l front h e =
      let w = h f1 (ok cs) refl in
      let (len, back) = w.bytes cs refl in
      let e1 : f1 ≡ f' = ap (λ (p : os.File × Option (Result (List ℕ))). p.0) e in
      let e2 : some (ok (bs ++ cs)) ≡ some r =
        ap (λ (p : os.File × Option (Result (List ℕ))). p.1) e in
      record {
        same = λ x. rw (← e1) (w.same x ∙ same x);
        bytes = λ ds q.
            let all : bs ++ cs ≡ ds = cc in
            rw (← all) (omega (arith, length-append bs cs, len, l), λ i h. joined i h len back);
      }
    where
      joined :
          (i : ℕ)
          → i < n
          → length cs ≡ n - length bs
          → ((j : ℕ) → j < n - length bs → get_or cs j 0 ≡ os.byte_at g (off + length bs + j))
          → get_or (bs ++ cs) i 0 ≡ os.byte_at f (off + i)
      joined i h len back = elim (Bool-cases (ltb i (length bs))) [
        | inl early ↦ get_or-append_left bs cs i 0 (ground arith) ∙ front i (ground arith)
        | inr late ↦
            let j = i - length bs in
            let at : off + length bs + j ≡ off + i = ground arith in
            get_or-append_right bs cs i j 0 (ground arith)
            ∙ back j (ground arith)
            ∙ same (off + length bs + j)
            ∙ ap (os.byte_at f) at
      ]

  -- On a POSIX kernel `ls_pwrite_all` always ends with a status. Whatever the status, no byte outside
  -- the range changed; if it is success, the range holds the buffer.
  pub ls_pwrite_all-Wrote :
      (f : os.File) (bs : List ℕ) (off : ℕ)
      → (st : Status) × ((ls_pwrite_all os f bs off).1 ≡ some st)
        × Wrote f bs off (ls_pwrite_all os f bs off).0 st
  unfolding ls_pwrite_all
  ls_pwrite_all-Wrote f bs off =
      let fuel = length bs + os.patience f in
      let (st, e) = pwrite_all-Reports fuel f bs off (omega arith) in
      (
        st,
        e,
        pwrite_all-Wrote fuel f bs off (pwrite_all os fuel f bs off).0 st
            (λ i. ((pwrite_all os fuel f bs off).0, e i)),
      )
