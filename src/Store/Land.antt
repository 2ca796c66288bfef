-- ===== src/Store/Land.antt =====
-- src/store.c, `ls_scatter` with LS_OP_WRITE: a write to the place of a record of a well-formed store.
use libspill.Base.{
  ℕ, zero, suc, ◌+◌, ◌-◌, ◌≤◌, ◌≡◌, ◌≢◌, refl, inl, inr, true, false, Option, none, some, List, [],
  ◌∷◌, ◌++◌, arith, ltb, leb, if◌then◌else◌, Bool-cases, length, length-append, length-take,
  length-drop, take, drop, get_or, ap, sym, ◌∙◌,
}
use libspill.Alloc.{Extent}
use libspill.Alloc.Shape.{in_range, in_holes}
use libspill.Toc.{Rec}
use libspill.Status.{Status, done, errno}
use libspill.Os.{Os, IsPosix, eio}
use libspill.Io.{ls_pwrite_all}
use libspill.Io.Retry.{get_or-append_left, get_or-append_right, get_or-drop}
use libspill.Scatter.{copy_in, scatter_out, scatter_write}
use libspill.Scatter.Write.{logical, scatter_out-Scattered}
use libspill.Scatter.Touch.{scatter_out-Touches}
use libspill.Zero.Ends.{Ends, and_then-Ends, ls_pwrite_all-Ends}
use libspill.Extents.{Space}
use libspill.Extents.Holding.{Holding, Fits, content}
use Prim.Native.Nat.{min}

pub length-copy_in :
    (off : ℕ) (bs mem : List ℕ)
    → off + length bs ≤ length mem
    → length (copy_in off bs mem) ≡ length mem
unfolding copy_in
length-copy_in off bs mem l =
    let a = length-append (take off mem) (bs ++ drop (off + length bs) mem) in
    let b = length-append bs (drop (off + length bs) mem) in
    omega (arith, a, b, length-take off mem, length-drop (off + length bs) mem, l)

pub get_or-copy_in :
    (off : ℕ) (bs mem : List ℕ) (p : ℕ)
    → off + length bs ≤ length mem
    → get_or (copy_in off bs mem) p 0
      ≡ (if in_range off (length bs) p then get_or bs (p - off) 0 else get_or mem p 0)
unfolding copy_in
get_or-copy_in zero bs mem p l =
    let z0 : 0 + length bs ≡ length bs = omega arith in
    elim (Bool-cases (ltb p (length bs))) [
      | inl here ↦
          let z : p - 0 ≡ p = omega arith in
          let yes_in : in_range 0 (length bs) p ≡ true = ground (arith, here) in
          rw (yes_in, z, z0)
            (get_or-append_left bs (drop (length bs) mem) p 0 (ground (arith, here)))
      | inr past ↦
          let out : in_range 0 (length bs) p ≡ false = ground (arith, past) in
          let e : length bs + (p - length bs) ≡ p = ground (arith, past) in
          rw (out, z0)
            (get_or-append_right bs (drop (length bs) mem) p (p - length bs) 0 e
              ∙ get_or-drop (length bs) mem (p - length bs) 0
              ∙ ap (λ i. get_or mem i 0) e)
    ]
get_or-copy_in (suc off) bs [] p l = absurd (omega arith)
get_or-copy_in (suc off) bs (x ∷ mem) zero l = ground arith
get_or-copy_in (suc off) bs (x ∷ mem) (suc p) l =
    let e : suc off + length bs ≡ suc (off + length bs) = omega arith in
    let i : in_range (suc off) (length bs) (suc p) ≡ in_range off (length bs) p = ground arith in
    let d : suc p - suc off ≡ p - off = omega arith in
    rw (i, e, d) (get_or-copy_in off bs mem p (omega (arith, l)))

pub Fits-eq :
    (o o' : Option (List ℕ)) (n : ℕ) (ext : List Extent) → o ≡ o' → Fits o n ext → Fits o' n ext
Fits-eq o o' n ext e f = rw (← e) f

module _ (os : Os) (posix : IsPosix os) where
  scatter_out-Ends :
      (f : os.File) (ext : List Extent) (base pos : ℕ) (bs : List ℕ)
      → Ends os posix (scatter_out os f ext base pos bs)
  unfolding scatter_out
  scatter_out-Ends f [] base pos [] = (done, refl)
  scatter_out-Ends f [] base pos (b ∷ bs) = (errno eio, refl)
  scatter_out-Ends f (e ∷ es) base pos [] = (done, refl)
  scatter_out-Ends f (e ∷ es) base pos (b ∷ bs) =
      let k = min (base + e.len - pos) (length (b ∷ bs)) in
      elim (Bool-cases (leb (base + e.len) pos)) [
        | inl past ↦ rw past (scatter_out-Ends f es (base + e.len) pos (b ∷ bs))
        | inr here ↦ rw here (
            and_then-Ends os posix (ls_pwrite_all os f (take k (b ∷ bs)) (e.foff + (pos - base)))
              (λ g. scatter_out os g es (base + e.len) (pos + k) (drop k (b ∷ bs)))
              (ls_pwrite_all-Ends os posix f (take k (b ∷ bs)) (e.foff + (pos - base)))
              (λ g. scatter_out-Ends g es (base + e.len) (pos + k) (drop k (b ∷ bs))))
      ]

  -- How the transfer ends: whatever the status, the record holds its place, and nothing but the
  -- range of the record changed; on success the range holds the buffer.
  pub record Lands (sp : Space os) (r : Rec) (off : ℕ) (bs : List ℕ)
      (res : os.File × Option (List ℕ) × Option Status) : Type 0 where
    pub status : Status
    pub reported : res.2 ≡ some status
    pub holding : Holding os posix (record sp { file = res.0 }) (record r { mem = res.1 })
    pub outside : (x : ℕ) → in_holes r.ext x ≡ false → os.byte_at res.0 x ≡ os.byte_at sp.file x
    pub others :
        (p : ℕ)
        → in_range off (length bs) p ≡ false
        → content res.1 r.ext (os.byte_at res.0) p ≡ content r.mem r.ext (os.byte_at sp.file) p
    pub inside :
        status ≡ done
        → (p : ℕ) → in_range off (length bs) p ≡ true
        → content res.1 r.ext (os.byte_at res.0) p ≡ get_or bs (p - off) 0
    pub resident : r.mem ≢ none → res.1 ≢ none

  module _ (sp : Space os) (r : Rec) (off : ℕ) (h : Holding os posix sp r) where
    copied-Lands :
        (bs m : List ℕ)
        → r.mem ≡ some m
        → off + length bs ≤ r.size
        → Lands sp r off bs (sp.file, some (copy_in off bs m), some done)
    unfolding content
    copied-Lands bs m e l =
        let fits : Fits (some m) r.size r.ext = Fits-eq r.mem (some m) r.size r.ext e h.fits in
        let n : off + length bs ≤ length m = omega (arith, l, fits.0) in
        let len = length-copy_in off bs m n in
        let old : (p : ℕ) → content r.mem r.ext (os.byte_at sp.file) p ≡ get_or m p 0 =
          λ p. ap (λ o. content o r.ext (os.byte_at sp.file) p) e in
        record {
          status = done;
          reported = refl;
          holding = record {
            apart = h.apart;
            used = h.used;
            total = h.total;
            slots = h.slots;
            tail = h.tail;
            fits = (
              omega (arith, len, fits.0),
              λ p q.
                  let out : in_range off (length bs) p ≡ false = ground (arith, q, l) in
                  get_or-copy_in off bs m p n ∙ rw out (fits.1 p q),
            );
          };
          outside = λ x o. refl;
          others = λ p o. get_or-copy_in off bs m p n ∙ rw o (sym (old p));
          inside = λ d p i. get_or-copy_in off bs m p n ∙ rw i refl;
          resident = λ z q. cc;
        }

    scattered-Lands :
        (bs : List ℕ)
        → r.mem ≡ none
        → off + length bs ≤ r.size
        → let w = scatter_out os sp.file r.ext 0 off bs in Lands sp r off bs (w.0, none, w.1)
    unfolding content
    scattered-Lands bs e l =
        let w = scatter_out os sp.file r.ext 0 off bs in
        let (st, q) = scatter_out-Ends sp.file r.ext 0 off bs in
        let t = scatter_out-Touches os posix sp.file r.ext 0 off bs (inr (omega arith)) h.apart in
        let fits : Fits none r.size r.ext = Fits-eq r.mem none r.size r.ext e h.fits in
        let old : (p : ℕ)
            → content r.mem r.ext (os.byte_at sp.file) p ≡ logical r.ext (os.byte_at sp.file) p =
          λ p. ap (λ o. content o r.ext (os.byte_at sp.file) p) e in
        record {
          status = st;
          reported = q;
          holding = record {
            apart = h.apart;
            used = h.used;
            total = h.total;
            slots = h.slots;
            tail = λ p b. t.others p (ground (arith, b, l)) ∙ h.tail p b;
            fits = fits;
          };
          outside = t.outside;
          others = λ p o. t.others p (ground (arith, o)) ∙ sym (old p);
          inside = λ d p i.
              let ok : w ≡ (w.0, some done) = λ k. (w.0, (q ∙ ap some d) k) in
              let s =
                scatter_out-Scattered os posix sp.file r.ext 0 off bs w.0 (inr (omega arith))
                  h.apart ok in
              s.inside p (ground (arith, i, l, fits)) ∙ ground (arith, i);
          resident = λ z. absurd (z e);
        }

    place-Lands :
        (o : Option (List ℕ)) (b : ℕ) (bs : List ℕ)
        → r.mem ≡ o
        → off + length (b ∷ bs) ≤ r.size
        → Lands sp r off
            (b ∷ bs)
            (scatter_write os sp.file (record { mem = o; ext = r.ext }) off (b ∷ bs))
    unfolding scatter_write
    place-Lands none b bs e l = scattered-Lands (b ∷ bs) e l
    place-Lands (some m) b bs e l = copied-Lands (b ∷ bs) m e l

    pub scatter_write-Lands :
        (bs : List ℕ)
        → off + length bs ≤ r.size
        → Lands sp r off bs (scatter_write os sp.file (record { mem = r.mem; ext = r.ext }) off bs)
    unfolding scatter_write
    scatter_write-Lands [] l = record {
      status = done;
      reported = refl;
      holding = record {
        apart = h.apart;
        used = h.used;
        total = h.total;
        slots = h.slots;
        tail = h.tail;
        fits = h.fits;
      };
      outside = λ x o. refl;
      others = λ p o. refl;
      inside = λ d p i. absurd (ground arith);
      resident = λ z. z;
    }
    scatter_write-Lands (b ∷ bs) l = place-Lands r.mem b bs refl l
