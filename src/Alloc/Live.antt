-- ===== src/Alloc/Live.antt =====
-- `ls_alloc_live` of src/alloc.c against a count of the bytes themselves.
use libspill.Base.{
  ℕ, zero, suc, ◌+◌, ◌-◌, ◌^◌, ◌≤◌, ◌<◌, ◌≡◌, refl, Bool, true, false, List, [], ◌∷◌, arith,
  if◌then◌else◌, +₆₄-eq, -₆₄-eq,
}
use libspill.Alloc.{Hole, Alloc, super_size, hole_bytes, alloc_live}
use libspill.Alloc.Shape.{IsCoalesced, in_holes, in_holes-low, IsCoalesced-lt}
use libspill.Alloc.Insert.{IsSound, is_free}

-- the number of offsets in `[from, from + n)` for which `p` fails
pub count_not : (ℕ → Bool) → ℕ → ℕ → ℕ
count_not p from zero = 0
count_not p from (suc n) = (if p from then 0 else 1) + count_not p (suc from) n

total : List Hole → ℕ
total [] = 0
total (h ∷ t) = h.len + total t

count_not-split :
    (p : ℕ → Bool) (n from mid m k : ℕ)
    → from + n ≡ mid
    → n + m ≡ k
    → count_not p from k ≡ count_not p from n + count_not p mid m
unfolding count_not
count_not-split p zero from mid m k e q =
    let e' : mid ≡ from = omega arith in let q' : k ≡ m = omega arith in rw (e', q') (omega arith)
count_not-split p (suc n) from mid m zero e q = absurd (omega arith)
count_not-split p (suc n) from mid m (suc k) e q =
    omega (arith, count_not-split p n (suc from) mid m k (omega arith) (omega arith))

count_not-none :
    (p : ℕ → Bool) (n from : ℕ)
    → ((x : ℕ) → from ≤ x → x < from + n → p x ≡ true)
    → count_not p from n ≡ 0
unfolding count_not
count_not-none p zero from h = refl
count_not-none p (suc n) from h =
    ground (arith, h from, count_not-none p n (suc from) (λ x a b. h x (omega arith) (omega arith)))

count_not-all :
    (p : ℕ → Bool) (n from : ℕ)
    → ((x : ℕ) → from ≤ x → x < from + n → p x ≡ false)
    → count_not p from n ≡ n
unfolding count_not
count_not-all p zero from h = refl
count_not-all p (suc n) from h =
    ground (arith, h from, count_not-all p n (suc from) (λ x a b. h x (omega arith) (omega arith)))

count_not-ext :
    (p q : ℕ → Bool) (n from : ℕ)
    → ((x : ℕ) → from ≤ x → x < from + n → p x ≡ q x)
    → count_not p from n ≡ count_not q from n
unfolding count_not
count_not-ext p q zero from h = refl
count_not-ext p q (suc n) from h =
    ground
      (arith, h from, count_not-ext p q n (suc from) (λ x a b. h x (omega arith) (omega arith)))

-- Between two offsets, the bytes outside the holes and the bytes of the holes are all the bytes.
count_not-total :
    (lo : ℕ) (fl : List Hole) (hi n : ℕ)
    → IsCoalesced lo fl hi
    → lo + 1 + n ≡ hi
    → count_not (in_holes fl) (lo + 1) n + total fl ≡ n
unfolding total
count_not-total lo [] hi n w e =
    omega (arith, count_not-all (in_holes []) n (lo + 1) (λ x a b. refl))
count_not-total lo (h ∷ t) hi n w e =
    let end = h.foff + h.len in
    let below = IsCoalesced-lt end t hi w.2 in
    let p = in_holes (h ∷ t) in
    let before = h.foff - (lo + 1) in
    let after = hi - end - 1 in
    let rest = count_not-total end t hi after w.2 (omega arith) in
    let outer =
      count_not-split p before (lo + 1) h.foff (n - before) n (omega arith) (omega arith) in
    let inner =
      count_not-split p h.len h.foff end (n - before - h.len) (n - before) refl (omega arith) in
    let tail = count_not-split p 1 end (end + 1) after (n - before - h.len) refl (omega arith) in
    let c1 =
      count_not-all p before (lo + 1) (λ x a b. ground (arith, in_holes-low end t hi x w.2)) in
    let c2 = count_not-none p h.len h.foff (λ x a b. ground arith) in
    let c3 = count_not-all p 1 end (λ x a b. ground (arith, in_holes-low end t hi x w.2)) in
    let c4 = count_not-ext p (in_holes t) after (end + 1) (λ x a b. ground arith) in
    omega (arith, rest, outer, inner, tail, c1, c2, c3, c4)

total-lt : (lo : ℕ) (fl : List Hole) (hi : ℕ) → IsCoalesced lo fl hi → lo + total fl < hi
unfolding total
total-lt lo [] hi w = omega arith
total-lt lo (h ∷ t) hi w = omega (arith, total-lt (h.foff + h.len) t hi w.2)

hole_bytes-total :
    (fl : List Hole) (sum : ℕ) → sum + total fl < 2 ^ 64 → hole_bytes fl sum ≡ sum + total fl
unfolding hole_bytes total
hole_bytes-total [] sum b = omega arith
hole_bytes-total (h ∷ t) sum b =
    let e = +₆₄-eq sum h.len (omega arith) in
    rw e (omega (arith, hole_bytes-total t (sum + h.len) (omega arith)))

-- On a sound free list `ls_alloc_live` is the number of bytes between the superblock and the end of
-- the file that are not free.
pub alloc_live-count :
    (s : Alloc)
    → IsSound s
    → alloc_live s ≡ count_not (is_free s) super_size (s.file_end - super_size)
unfolding alloc_live
alloc_live-count s v =
    let below = IsCoalesced-lt _ s.fl s.file_end v.sorted in
    let fits = total-lt _ s.fl s.file_end v.sorted in
    let n = s.file_end - super_size in
    let all = count_not-total (super_size - 1) s.fl s.file_end n v.sorted (omega arith) in
    let same = count_not-ext (is_free s) (in_holes s.fl) n super_size (λ x a b. ground arith) in
    rw
      (
        hole_bytes-total s.fl 0 (omega (arith, v.word)),
        -₆₄-eq s.file_end super_size v.word (omega arith),
      )
      (omega (arith, -₆₄-eq n (0 + total s.fl) (omega (arith, v.word)) (omega arith)))
