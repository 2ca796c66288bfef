-- ===== src/Store/Fetch.antt =====
-- src/store.c, `ls_scatter` with LS_OP_READ: a read from the place of a record of a well-formed store.
use Prim.Native.Nat.{min}
use libspill.Base.{
  ℕ, zero, suc, ◌+◌, ◌-◌, ◌≤◌, ◌<◌, ◌≡◌, refl, inl, inr, Option, none, some, List, [], ◌∷◌, ◌++◌,
  arith, leb, Bool-cases, length, length-take, length-drop, take, drop, get_or, ap, sym, ◌∙◌,
}
use libspill.Alloc.{Extent}
use libspill.Toc.{Rec}
use libspill.Status.{Status, errno, Result, ok, fail}
use libspill.Os.{Os, IsPosix, eio}
use libspill.Io.{ls_pread_all, prepend}
use libspill.Io.Retry.{get_or-drop, get_or-take}
use libspill.Io.ReadLoop.{ls_pread_all-ReadBack, pread_all-errno}
use libspill.Scatter.{and_append, scatter_in, scatter_read}
use libspill.Scatter.Write.{logical}
use libspill.Scatter.Read.{scatter_in-Gathered}
use libspill.Extents.{Space}
use libspill.Extents.Holding.{Holding, Fits, content}
use libspill.Store.Land.{Fits-eq}

module _ (os : Os) (posix : IsPosix os) where
  -- A read ends, and leaves the file as it is.
  pub record Answers (f : os.File) (res : os.File × Option (Result (List ℕ))) : Type 0 where
    pub answer : Result (List ℕ)
    pub reported : res.1 ≡ some answer
    pub same : (x : ℕ) → os.byte_at res.0 x ≡ os.byte_at f x
    pub error : (e : Status) → answer ≡ fail e → (c : ℕ) × (e ≡ errno c)

  prepend-Answers :
      (f : os.File) (bs : List ℕ) (res : os.File × Option (Result (List ℕ)))
      → Answers f res
      → Answers f (prepend os bs res)
  prepend-Answers f bs (g, none) a = absurd (let e = a.reported in cc)
  prepend-Answers f bs (g, some (ok cs)) a = record {
    answer = ok (bs ++ cs);
    reported = refl;
    same = a.same;
    error = λ d q. absurd cc;
  }
  prepend-Answers f bs (g, some (fail e)) a = record {
    answer = fail e;
    reported = refl;
    same = a.same;
    error = λ d q. a.error d (let z = a.reported in cc);
  }

  and_append-Answers :
      (f : os.File) (res : os.File × Option (Result (List ℕ)))
      (k : os.File → os.File × Option (Result (List ℕ)))
      → Answers f res
      → ((g : os.File) → Answers g (k g))
      → Answers f (and_append os res k)
  and_append-Answers f (g, none) k a b = absurd (let e = a.reported in cc)
  and_append-Answers f (g, some (fail e)) k a b = record {
    answer = fail e;
    reported = refl;
    same = a.same;
    error = λ d q. a.error d (let z = a.reported in cc);
  }
  and_append-Answers f (g, some (ok bs)) k a b =
      let w = b g in
      prepend-Answers f bs (k g) (record {
        answer = w.answer;
        reported = w.reported;
        same = λ x. w.same x ∙ a.same x;
        error = w.error;
      })

  pub ls_pread_all-Answers : (f : os.File) (n off : ℕ) → Answers f (ls_pread_all os f n off)
  unfolding ls_pread_all
  ls_pread_all-Answers f n off =
      let (r, e, w) = ls_pread_all-ReadBack os posix f n off in
      record {
        answer = r;
        reported = e;
        same = w.same;
        error = λ d q. pread_all-errno os posix (n + os.patience f) f n off d (e ∙ ap some q);
      }

  scatter_in-Answers :
      (f : os.File) (ext : List Extent) (base pos n : ℕ)
      → Answers f (scatter_in os f ext base pos n)
  unfolding scatter_in
  scatter_in-Answers f [] base pos zero = record {
    answer = ok [];
    reported = refl;
    same = λ x. refl;
    error = λ d q. absurd cc;
  }
  scatter_in-Answers f [] base pos (suc n) = record {
    answer = fail (errno eio);
    reported = refl;
    same = λ x. refl;
    error = λ d q. (eio, cc);
  }
  scatter_in-Answers f (e ∷ es) base pos zero = record {
    answer = ok [];
    reported = refl;
    same = λ x. refl;
    error = λ d q. absurd cc;
  }
  scatter_in-Answers f (e ∷ es) base pos (suc n) =
      let k = min (base + e.len - pos) (suc n) in
      elim (Bool-cases (leb (base + e.len) pos)) [
        | inl past ↦ rw past (scatter_in-Answers f es (base + e.len) pos (suc n))
        | inr here ↦ rw here (
            and_append-Answers f (ls_pread_all os f k (e.foff + (pos - base)))
              (λ g. scatter_in os g es (base + e.len) (pos + k) (suc n - k))
              (ls_pread_all-Answers f k (e.foff + (pos - base)))
              (λ g. scatter_in-Answers g es (base + e.len) (pos + k) (suc n - k)))
      ]

  -- How a read from the record's place ends.
  pub record Fetches (sp : Space os) (r : Rec) (off n : ℕ)
      (res : os.File × Option (Result (List ℕ))) : Type 0 where
    pub answers : Answers sp.file res
    pub bytes :
        (bs : List ℕ)
        → answers.answer ≡ ok bs
        → (length bs ≡ n)
          × ((i : ℕ) → i < n → get_or bs i 0 ≡ content r.mem r.ext (os.byte_at sp.file) (off + i))

  module _ (sp : Space os) (r : Rec) (off n : ℕ) (h : Holding os posix sp r)
      (l : off + suc n ≤ r.size) where
    place-Fetches :
        (o : Option (List ℕ))
        → r.mem ≡ o
        → Fetches sp r off
            (suc n)
            (scatter_read os sp.file (record { mem = o; ext = r.ext }) off (suc n))
    unfolding scatter_read content
    place-Fetches none e =
        let w = scatter_in-Answers sp.file r.ext 0 off (suc n) in
        record {
          answers = w;
          bytes = λ bs q.
              let res = scatter_in os sp.file r.ext 0 off (suc n) in
              let eq : res ≡ (res.0, some (ok bs)) = λ i. (res.0, (w.reported ∙ ap some q) i) in
              let g =
                scatter_in-Gathered os posix sp.file r.ext 0 off (suc n) res.0 bs
                  (inr (omega arith)) eq in
              let at : off - 0 ≡ off = omega arith in
              (
                g.len,
                λ i b.
                    g.bytes i b
                    ∙ ap (λ z. logical r.ext (os.byte_at sp.file) (z + i)) at
                    ∙ ap (λ o. content o r.ext (os.byte_at sp.file) (off + i)) (sym e),
              );
        }
    place-Fetches (some m) e =
        let f : Fits (some m) r.size r.ext = Fits-eq r.mem (some m) r.size r.ext e h.fits in
        let got = take (suc n) (drop off m) in
        let a = length-take (suc n) (drop off m) in
        let b = length-drop off m in
        let len : length got ≡ suc n = omega (arith, a, b, f.0, l) in
        record {
          answers = record {
            answer = ok got;
            reported = refl;
            same = λ x. refl;
            error = λ d q. absurd cc;
          };
          bytes = λ bs q.
              let same : got ≡ bs = cc in
              (
                ap length (sym same) ∙ len,
                λ i c.
                    ap (λ z. get_or z i 0) (sym same)
                    ∙ get_or-take (suc n) (drop off m) i 0 c
                    ∙ get_or-drop off m i 0
                    ∙ ap (λ o. content o r.ext (os.byte_at sp.file) (off + i)) (sym e),
              );
        }

  pub scatter_read-Fetches :
      (sp : Space os) (r : Rec) (off n : ℕ)
      → Holding os posix sp r
      → off + n ≤ r.size
      → Fetches sp r off n (scatter_read os sp.file (record { mem = r.mem; ext = r.ext }) off n)
  unfolding scatter_read
  scatter_read-Fetches sp r off zero h l = record {
    answers = record {
      answer = ok [];
      reported = refl;
      same = λ x. refl;
      error = λ d q. absurd cc;
    };
    bytes = λ bs q. let same : [] ≡ bs = cc in (rw (← same) refl, λ i b. absurd (omega arith));
  }
  scatter_read-Fetches sp r off (suc n) h l = place-Fetches sp r off n h l r.mem refl
