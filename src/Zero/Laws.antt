-- ===== src/Zero/Laws.antt =====
-- A range that `zero_range` reports as done reads as zeros, and nothing else changed.
use Prim.Native.Nat.{min}
use libspill.Base.{
  ◌^◌, +₆₄-eq, -₆₄-eq, ℕ, zero, suc, ◌+◌, ◌-◌, ◌≤◌, ◌<◌, ◌≡◌, refl, ◌⊎◌, inl, inr, Bool, true,
  false, Option, none, some, [], ◌∷◌, arith, leb, if◌then◌else◌, ◌==◌, Bool-cases, get_or,
  replicate, length-replicate, ap, sym, ◌∙◌,
}
use libspill.Alloc.Shape.{in_range}
use libspill.Status.{Status, done, errno, no_memory}
use libspill.Os.{Os, IsPosix, Done, success}
use libspill.Io.{ls_pwrite_all}
use libspill.Scatter.Write.{and_then-done, written}
use libspill.Zero.Reach.{zero_range-reach}
use libspill.Zero.{
  inside_file, zero_chunks, slow_zero, extend_file, after_zeroing, after_fstat, zero_range, chunk,
}

get_or-zeros : (n i : ℕ) → get_or {A = ℕ} (replicate n 0) i 0 ≡ 0
get_or-zeros zero i = refl
get_or-zeros (suc n) zero = refl
get_or-zeros (suc n) (suc i) = get_or-zeros n i

inside_file-fits : (end off len : ℕ) → off < end → off + inside_file end off len ≤ end
unfolding inside_file
inside_file-fits end off len p = ground arith

pub inside_file-le : (end off len : ℕ) → inside_file end off len ≤ len
unfolding inside_file
inside_file-le end off len = ground arith

inside_file-within : (end off len : ℕ) → 0 < inside_file end off len → off < end
unfolding inside_file
inside_file-within end off len = ground arith

module _ (os : Os) (posix : IsPosix os) where
  record Zeroes (f : os.File) (off len : ℕ) (f' : os.File) : Type 0 where
    outside : (x : ℕ) → in_range off len x ≡ false → os.byte_at f' x ≡ os.byte_at f x
    zeros : (x : ℕ) → in_range off len x ≡ true → os.byte_at f' x ≡ 0

  zero_chunks-Zeroed :
      (size fuel : ℕ) (f : os.File) (off len : ℕ) (f' : os.File)
      → zero_chunks os size fuel f off len ≡ (f', some done)
      → Zeroes f off len f'
  unfolding zero_chunks
  zero_chunks-Zeroed size fuel f off zero f' e =
      let a : f ≡ f' = ap (λ (p : os.File × Option Status). p.0) e in
      rw (← a) (record { outside = λ x q. refl; zeros = λ x q. absurd (ground arith) })
  zero_chunks-Zeroed size zero f off (suc len) f' e =
      let q : none ≡ some done = ap (λ (p : os.File × Option Status). p.1) e in cc
  zero_chunks-Zeroed size (suc fuel) f off (suc len) f' e =
      let k = min size (suc len) in
      let (g, w, rest) =
        and_then-done os posix (ls_pwrite_all os f (replicate k 0) off)
          (λ h. zero_chunks os size fuel h (off + k) (suc len - k)) f' e in
      let a = written os posix f (replicate k 0) off g w in
      let r = zero_chunks-Zeroed size fuel g (off + k) (suc len - k) f' rest in
      let n = length-replicate {A = ℕ} k 0 in
      record {
        outside = λ x q. r.outside x (ground (arith, q)) ∙ a.outside x (ground (arith, q, n));
        zeros = λ x q. elim (Bool-cases (leb (off + k) x)) [
          | inl late ↦ r.zeros x (ground (arith, q, late))
          | inr early ↦
              r.outside x (ground (arith, early))
              ∙ a.inside refl x
              ∙ ground (arith, n, q, early, get_or-zeros k (x - off))
        ];
      }

  extend_file-same :
      (f : os.File) (end off len : ℕ) (f' : os.File)
      → 0 < len
      → off + len < 2 ^ 64
      → extend_file os f end off len ≡ (f', some done)
      → ((x : ℕ) → in_range (off + len - 1) 1 x ≡ false → os.byte_at f' x ≡ os.byte_at f x)
        × ((off + len ≤ end) × ((x : ℕ) → os.byte_at f' x ≡ os.byte_at f x)
            ⊎ (os.byte_at f' (off + len - 1) ≡ 0))
  unfolding extend_file
  extend_file-same f end off len f' p b e0 =
      let sum = +₆₄-eq off len b in
      let last = -₆₄-eq (off + len) 1 b (omega arith) in
      let e : (if leb (off + len) end
            then (f, some done)
            else ls_pwrite_all os f (0 ∷ []) (off + len - 1))
          ≡ (f', some done) =
        rw (sum, last) at e0 in
      elim (Bool-cases (leb (off + len) end)) [
        | inl fits ↦
            let a : f ≡ f' = ap (λ (p : os.File × Option Status). p.0) (rw fits at e) in
            rw (← a) (λ x q. refl, inl (ground arith, λ x. refl))
        | inr short ↦
            let w = written os posix f (0 ∷ []) (off + len - 1) f' (rw short at e) in
            let z : off + len - 1 - (off + len - 1) ≡ 0 = omega arith in
            (w.outside, inr (w.inside refl (off + len - 1) ∙ rw z (ground arith)))
      ]

  -- What the zeroing primitive left, for `inside` bytes of the range, and the extension after it.
  extend_file-Zeroed :
      (f g : os.File) (off inside : ℕ) (len : ℕ) (f' : os.File)
      → 0 < len
      → off + len < 2 ^ 64
      → inside ≡ inside_file (os.size f) off len
      → ((x : ℕ) → in_range off inside x ≡ false → os.byte_at g x ≡ os.byte_at f x)
      → ((x : ℕ) → in_range off inside x ≡ true → os.byte_at g x ≡ 0)
      → extend_file os g (os.size f) off len ≡ (f', some done)
      → Zeroes f off len f'
  unfolding inside_file
  extend_file-Zeroed f g off inside len f' p b n out zs e =
      let past = posix.past_end f in
      let step = extend_file-same g (os.size f) off len f' p b e in
      record {
        outside = λ x q. step.0 x (ground (arith, q)) ∙ out x (ground (arith, q, n));
        zeros = λ x q. elim step.1 [
          | inl both ↦ both.1 x ∙ zs x (ground (arith, q, n, both.0))
          | inr last ↦ elim (Bool-cases (x == (off + len - 1))) [
            | inl here ↦ let at : x ≡ off + len - 1 = ground (arith, here) in rw at last
            | inr there ↦
                step.0 x (ground (arith, q, there)) ∙ elim (Bool-cases (in_range off inside x)) [
                  | inl i ↦ zs x i
                  | inr o ↦ out x o ∙ past x (ground (arith, q, n, o))
                ]
          ]
        ];
      }

  after_zeroing-Zeroed :
      (buffer : Bool) (f : os.File) (off len : ℕ) (f' : os.File) (r : os.File × Done)
      → 0 < len
      → off + len < 2 ^ 64
      → os.zero_range f off (inside_file (os.size f) off len) ≡ r
      → off < os.size f
      → after_zeroing os buffer (os.size f) off len r ≡ (f', some done)
      → Zeroes f off len f'
  unfolding after_zeroing slow_zero
  after_zeroing-Zeroed buffer f off len f' (g, success) p b z n e =
      let fits : off + inside_file (os.size f) off len ≤ os.size f =
        inside_file-fits (os.size f) off len n in
      let zs = posix.zero_range_success f g off (inside_file (os.size f) off len) fits z in
      extend_file-Zeroed f g off (inside_file (os.size f) off len) len f' p b refl
        (λ x q. zs x ∙ rw q refl) (λ x q. zs x ∙ rw q refl) e
  after_zeroing-Zeroed true f off len f' (g, Done.failed c) p b z n e =
      let r = zero_chunks-Zeroed chunk len g off len f' e in
      let out =
        posix.zero_range_outside f g off (inside_file (os.size f) off len) (Done.failed c) z in
      let bound : inside_file (os.size f) off len ≤ len = inside_file-le (os.size f) off len in
      record { outside = λ x q. r.outside x q ∙ out x (ground (arith, q, bound)); zeros = r.zeros }
  after_zeroing-Zeroed false f off len f' (g, Done.failed c) p b z n e =
      let q : some no_memory ≡ some done = ap (λ (p : os.File × Option Status). p.1) e in cc

  after_fstat-Zeroed :
      (buffer : Bool) (f : os.File) (off len : ℕ) (f' : os.File) (r : os.File × Done)
      → 0 < len
      → off + len < 2 ^ 64
      → os.fstat f ≡ r
      → after_fstat os buffer off len r ≡ (f', some done)
      → Zeroes f off len f'
  unfolding after_fstat
  after_fstat-Zeroed buffer f off len f' (g, Done.failed c) p b s e =
      let q : some (errno c) ≡ some done = ap (λ (p : os.File × Option Status). p.1) e in cc
  after_fstat-Zeroed buffer f off len f' (g, success) p b s e =
      let same : (x : ℕ) → os.byte_at g x ≡ os.byte_at f x =
        λ x. ap (λ (p : os.File × Done). os.byte_at p.0 x) (sym s) ∙ (posix.fstat_same f).0 x in
      let z : Zeroes g off len f' = elim (Bool-cases (inside_file (os.size g) off len == 0)) [
        | inl none_inside ↦
            let i : 0 ≡ inside_file (os.size g) off len = ground (arith, none_inside) in
            extend_file-Zeroed g g off 0 len f' p b i (λ x q. refl)
              (λ x q. absurd (ground (arith, q))) (rw none_inside at e)
        | inr some_inside ↦
            let n : off < os.size g =
              inside_file-within (os.size g) off len (ground (arith, some_inside)) in
            after_zeroing-Zeroed buffer g off len f'
              (os.zero_range g off (inside_file (os.size g) off len)) p b refl n
              (rw some_inside at e)
      ] in
      record { outside = λ x q. z.outside x q ∙ same x; zeros = z.zeros }

  zero_range-Zeroes :
      (buffer : Bool) (f : os.File) (off len : ℕ) (f' : os.File)
      → off + len < 2 ^ 64
      → zero_range os buffer f off len ≡ (f', some done)
      → Zeroes f off len f'
  unfolding zero_range
  zero_range-Zeroes buffer f off zero f' b e =
      let a : f ≡ f' = ap (λ (p : os.File × Option Status). p.0) e in
      rw (← a) (record { outside = λ x q. refl; zeros = λ x q. absurd (ground (arith, q)) })
  zero_range-Zeroes buffer f off (suc len) f' b e =
      after_fstat-Zeroed buffer f off (suc len) f' (os.fstat f) (omega arith) b refl e

  -- What a range is after it was zeroed: its bytes are zeros that can be read, and nothing else
  -- changed.
  pub record Zeroed (f : os.File) (off len : ℕ) (f' : os.File) : Type 0 where
    pub outside : (x : ℕ) → in_range off len x ≡ false → os.byte_at f' x ≡ os.byte_at f x
    pub zeros : (x : ℕ) → in_range off len x ≡ true → os.byte_at f' x ≡ 0
    pub longer : os.size f ≤ os.size f'
    pub reach : 0 < len → off + len ≤ os.size f'

  -- For a range that ends at a 64-bit offset: when `zero_range` reports success, every byte of the
  -- range reads as zero and can be read, since the file, which is no shorter than before, reaches to
  -- the end of the range, and every byte outside it is what it was, wherever the file ended, and
  -- whichever of the zeroing primitive, the buffered writes and the extension of the file did it.
  pub zero_range-Zeroed :
      (buffer : Bool) (f : os.File) (off len : ℕ) (f' : os.File)
      → off + len < 2 ^ 64
      → zero_range os buffer f off len ≡ (f', some done)
      → Zeroed f off len f'
  zero_range-Zeroed buffer f off len f' b e =
      let z = zero_range-Zeroes buffer f off len f' b e in
      let r = zero_range-reach os posix buffer f off len f' b e in
      record { outside = z.outside; zeros = z.zeros; longer = r.0; reach = r.1 }
