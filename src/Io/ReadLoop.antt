-- ===== src/Io/ReadLoop.antt =====
-- The reading loop of `rw_all`, and reading back what the writing loop wrote.
use libspill.Base.{
  sym, ℕ, zero, suc, ◌+◌, ◌-◌, ◌≤◌, ◌<◌, ◌≡◌, refl, inl, inr, Option, none, some, List, [], ◌∷◌,
  arith, ◌==◌, ==_iff, Bool-cases, length, get_or, ap, ◌∙◌,
}
use libspill.Status.{done, errno, Result, ok, fail}
use libspill.Os.{Os, IsPosix, Got, got, eintr, eio, overlay}
use libspill.Io.{Status, pwrite_all, prepend, after_pread, pread_all, ls_pwrite_all, ls_pread_all}
use libspill.Io.Retry.{ReadBack, Reads, prepend-ReadBack, pwrite_all-Wrote}

pub list_ext :
    (xs ys : List ℕ)
    → length xs ≡ length ys
    → ((i : ℕ) → i < length ys → get_or xs i 0 ≡ get_or ys i 0)
    → xs ≡ ys
list_ext [] [] e h = refl
list_ext [] (y ∷ ys) e h = absurd (omega arith)
list_ext (x ∷ xs) [] e h = absurd (omega arith)
list_ext (x ∷ xs) (y ∷ ys) e h =
    let first : x ≡ y = h 0 (omega arith) in
    let rest = list_ext xs ys (omega arith) (λ i l. h (suc i) (omega arith)) in cc

module _ (os : Os) (posix : IsPosix os) where
  Answer : Type 0
  Answer = os.File × Option (Result (List ℕ))

  after_pread-ReadBack :
      (loop : os.File → ℕ → ℕ → os.File × Option (Result (List ℕ)))
      → Reads os posix loop
      → (f : os.File) (n off : ℕ) (p : os.File × Got) (f' : os.File) (r : Result (List ℕ))
      → os.pread f n off ≡ p
      → after_pread os loop n off p ≡ (f', some r)
      → ReadBack os posix f n off f' r
  unfolding after_pread
  after_pread-ReadBack loop h f n off (g, Got.failed e) f' r call eq =
      let (same, _, _) = posix.pread_failed f g n off e call in
      elim (Bool-cases (e == eintr)) [
        | inl again ↦
            let w = h g n off f' r (rw (again, after_pread) at eq) in
            record {
              same = λ x. w.same x ∙ same x;
              bytes = λ bs q. ((w.bytes bs q).0, λ i l. (w.bytes bs q).1 i l ∙ same (off + i));
            }
        | inr error ↦
            let q = rw (error, after_pread) at eq in
            let e1 : g ≡ f' = ap (λ (p : os.File × Option (Result (List ℕ))). p.0) q in
            let e2 : some (fail (errno e)) ≡ some r =
              ap (λ (p : os.File × Option (Result (List ℕ))). p.1) q in
            record { same = λ x. rw (← e1) (same x); bytes = λ bs q. cc }
      ]
  after_pread-ReadBack loop h f n off (g, got []) f' r call eq =
      let (_, _, same, _) = posix.pread_got f g n off [] call in
      let e1 : g ≡ f' = ap (λ (p : os.File × Option (Result (List ℕ))). p.0) eq in
      let e2 : some (fail (errno eio)) ≡ some r =
        ap (λ (p : os.File × Option (Result (List ℕ))). p.1) eq in
      record { same = λ x. rw (← e1) (same x); bytes = λ bs q. cc }
  after_pread-ReadBack loop h f n off (g, got (b ∷ bs)) f' r call eq =
      let (l, front, same, _) = posix.pread_got f g n off (b ∷ bs) call in
      prepend-ReadBack os posix f g n off (b ∷ bs)
        (loop g (n - length (b ∷ bs)) (off + length (b ∷ bs))) f' r same l front
        (λ f1 r1 q. h g (n - length (b ∷ bs)) (off + length (b ∷ bs)) f1 r1 q) eq

  -- A read never changes the file; if it reports success, it returns the bytes of the range.
  pub pread_all-ReadBack :
      (fuel : ℕ) (f : os.File) (n off : ℕ) (f' : os.File) (r : Result (List ℕ))
      → pread_all os fuel f n off ≡ (f', some r)
      → ReadBack os posix f n off f' r
  unfolding pread_all
  pread_all-ReadBack fuel f zero off f' r e =
      let e1 : f ≡ f' = ap (λ (p : os.File × Option (Result (List ℕ))). p.0) e in
      let e2 : some (ok []) ≡ some r = ap (λ (p : os.File × Option (Result (List ℕ))). p.1) e in
      record {
        same = λ x. rw (← e1) refl;
        bytes = λ bs q. let z : [] ≡ bs = cc in rw (← z) (refl, λ i l. absurd (omega arith));
      }
  pread_all-ReadBack zero f (suc n) off f' r e =
      let e2 : none ≡ some r = ap (λ (p : os.File × Option (Result (List ℕ))). p.1) e in cc
  pread_all-ReadBack (suc fuel) f (suc n) off f' r e =
      after_pread-ReadBack (pread_all os fuel) (pread_all-ReadBack fuel) f (suc n) off
        (os.pread f (suc n) off) f' r refl e

  prepend-Reports :
      (bs : List ℕ) (p : os.File × Option (Result (List ℕ)))
      → (r : Result (List ℕ)) × (p.1 ≡ some r)
      → (r : Result (List ℕ)) × ((prepend os bs p).1 ≡ some r)
  prepend-Reports bs (f, none) (r, e) = cc
  prepend-Reports bs (f, some (ok cs)) h = (_, refl)
  prepend-Reports bs (f, some (fail e)) h = (_, refl)

  after_pread-Reports :
      (fuel : ℕ) (loop : os.File → ℕ → ℕ → os.File × Option (Result (List ℕ)))
      → ((f : os.File) (n off : ℕ)
          → n + os.patience f ≤ fuel
          → (r : Result (List ℕ)) × ((loop f n off).1 ≡ some r))
      → (f : os.File) (n off : ℕ) (p : os.File × Got) → os.pread f n off ≡ p
      → n + os.patience f ≤ suc fuel
      → (r : Result (List ℕ)) × ((after_pread os loop n off p).1 ≡ some r)
  unfolding after_pread
  after_pread-Reports fuel loop h f n off (g, Got.failed e) call l =
      let (_, less, intr) = posix.pread_failed f g n off e call in
      elim (Bool-cases (e == eintr)) [
        | inl again ↦
            let i = intr ((==_iff e eintr).0 again) in
            let (r, q) = h g n off (omega (arith, l, i)) in (r, rw (again, after_pread) q)
        | inr error ↦ (fail (errno e), rw (error, after_pread) refl)
      ]
  after_pread-Reports fuel loop h f n off (g, got []) call l = (fail (errno eio), refl)
  after_pread-Reports fuel loop h f n off (g, got (b ∷ bs)) call l =
      let (fits, _, _, less) = posix.pread_got f g n off (b ∷ bs) call in
      prepend-Reports (b ∷ bs) _
        (h g (n - length (b ∷ bs)) (off + length (b ∷ bs)) (omega (arith, fits, less, l)))

  pub pread_all-Reports :
      (fuel : ℕ) (f : os.File) (n off : ℕ)
      → n + os.patience f ≤ fuel
      → (r : Result (List ℕ)) × ((pread_all os fuel f n off).1 ≡ some r)
  unfolding pread_all
  pread_all-Reports fuel f zero off l = (ok [], refl)
  pread_all-Reports zero f (suc n) off l = absurd (omega (arith, l))
  pread_all-Reports (suc fuel) f (suc n) off l =
      after_pread-Reports fuel (pread_all os fuel) (pread_all-Reports fuel) f (suc n) off
        (os.pread f (suc n) off) refl l

  prepend-errno :
      (bs : List ℕ) (p : os.File × Option (Result (List ℕ)))
      → ((e : Status) → p.1 ≡ some (fail e) → (c : ℕ) × (e ≡ errno c))
      → (e : Status) → (prepend os bs p).1 ≡ some (fail e)
      → (c : ℕ) × (e ≡ errno c)
  prepend-errno bs (f, none) h e q = absurd cc
  prepend-errno bs (f, some (ok cs)) h e q = absurd cc
  prepend-errno bs (f, some (fail d)) h e q = h e q

  after_pread-errno :
      (loop : os.File → ℕ → ℕ → os.File × Option (Result (List ℕ)))
      → ((f : os.File) (n off : ℕ) (e : Status)
          → (loop f n off).1 ≡ some (fail e)
          → (c : ℕ) × (e ≡ errno c))
      → (n off : ℕ) (p : os.File × Got) (e : Status)
      → (after_pread os loop n off p).1 ≡ some (fail e)
      → (c : ℕ) × (e ≡ errno c)
  unfolding after_pread
  after_pread-errno loop h n off (g, Got.failed d) e q = elim (Bool-cases (d == eintr)) [
    | inl again ↦ h g n off e (rw (again, after_pread) at q)
    | inr error ↦
        let z : some (fail (errno d)) ≡ some (fail e) = rw (error, after_pread) at q in
        let same : errno d ≡ e = cc in (d, sym same)
  ]
  after_pread-errno loop h n off (g, got []) e q = (eio, cc)
  after_pread-errno loop h n off (g, got (b ∷ bs)) e q =
      prepend-errno (b ∷ bs) (loop g (n - length (b ∷ bs)) (off + length (b ∷ bs)))
        (h g (n - length (b ∷ bs)) (off + length (b ∷ bs))) e q

  -- A read fails only with an error of the kernel, or EIO at the end of the file.
  pub pread_all-errno :
      (fuel : ℕ) (f : os.File) (n off : ℕ) (e : Status)
      → (pread_all os fuel f n off).1 ≡ some (fail e)
      → (c : ℕ) × (e ≡ errno c)
  unfolding pread_all
  pread_all-errno fuel f zero off e q = absurd cc
  pread_all-errno zero f (suc n) off e q = absurd cc
  pread_all-errno (suc fuel) f (suc n) off e q =
      after_pread-errno (pread_all os fuel) (pread_all-errno fuel) (suc n) off
        (os.pread f (suc n) off) e q

  -- A buffer that was written with success reads back as it was.
  pub pread_all-pwrite_all :
      (fuel fuel' : ℕ) (f f1 f2 : os.File) (bs cs : List ℕ) (off : ℕ)
      → pwrite_all os fuel f bs off ≡ (f1, some done)
      → pread_all os fuel' f1 (length bs) off ≡ (f2, some (ok cs))
      → cs ≡ bs
  pread_all-pwrite_all fuel fuel' f f1 f2 bs cs off w r =
      let a = pwrite_all-Wrote os posix fuel f bs off f1 done w in
      let (len, at) = (pread_all-ReadBack fuel' f1 (length bs) off f2 (ok cs) r).bytes cs refl in
      list_ext cs bs len (λ i l. at i l ∙ a.inside refl (off + i) ∙ here i l)
    where
      here : (i : ℕ) → i < length bs → overlay bs off (os.byte_at f) (off + i) ≡ get_or bs i 0
      here i l = let e : off + i - off ≡ i = omega arith in ground (arith, e)

  -- On a POSIX kernel `ls_pread_all` always ends with a result. Whatever the result, no byte of the
  -- file changed; if it is success, the bytes returned are as many as were asked for and those of the
  -- range.
  pub ls_pread_all-ReadBack :
      (f : os.File) (n off : ℕ)
      → (r : Result (List ℕ)) × ((ls_pread_all os f n off).1 ≡ some r)
        × ReadBack os posix f n off (ls_pread_all os f n off).0 r
  unfolding ls_pread_all
  ls_pread_all-ReadBack f n off =
      let fuel = n + os.patience f in
      let (r, e) = pread_all-Reports fuel f n off (omega arith) in
      (
        r,
        e,
        pread_all-ReadBack fuel f n off (pread_all os fuel f n off).0 r
            (λ i. ((pread_all os fuel f n off).0, e i)),
      )

  -- If `ls_pwrite_all` reports success and then `ls_pread_all` of the same range does, the bytes read
  -- are the buffer that was written.
  pub ls_pread_all-ls_pwrite_all :
      (f f1 f2 : os.File) (bs cs : List ℕ) (off : ℕ)
      → ls_pwrite_all os f bs off ≡ (f1, some done)
      → ls_pread_all os f1 (length bs) off ≡ (f2, some (ok cs))
      → cs ≡ bs
  unfolding ls_pwrite_all ls_pread_all
  ls_pread_all-ls_pwrite_all f f1 f2 bs cs off w r = pread_all-pwrite_all _ _ f f1 f2 bs cs off w r
