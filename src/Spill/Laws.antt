-- ===== src/Spill/Laws.antt =====
-- src/store.c, `spill`: what it does to the record and to the rest of the file.
use Prim.Native.Nat.{min}
use libspill.Base.{
  Option-cases, ltb, ℕ, zero, suc, ◌+◌, ◌-◌, ◌^◌, ◌≤◌, ◌≡◌, ◌≢◌, refl, inl, inr, true, false,
  Option, none, some, List, [], ◌∷◌, arith, leb, Bool-cases, length, take, drop, get_or,
  length-drop, length-take, ap, sym, ◌∙◌,
}
use libspill.Scatter.Touch.{Touches, scatter_out-Touches, drop-past}
use libspill.Extents.Holding.{
  content, Holding, Moves, Moves-trans, Moves-none, Extends-Moves, logical-past, Fits,
}
use libspill.Alloc.{Extent}
use libspill.Toc.{Rec, key_eq}
use libspill.Spill.Lru.{has_key, are_distinct, are_distinct-lru_drop, lru_drop-others}
use libspill.Status.{Status, done}
use libspill.Os.{Os, IsPosix}
use libspill.Io.{ls_pwrite_all, pwrite_all}
use libspill.Io.Retry.{get_or-take}
use libspill.Scatter.{and_then, scatter_out}
use libspill.Scatter.Write.{logical, capacity, scatter_out-Scattered}
use libspill.Zero.Ends.{Ends, and_then-Ends, ls_pwrite_all-Ends}
use libspill.Alloc.Insert.{IsSound}
use libspill.Extents.{Space, ensure_extents}
use libspill.Extents.Push.{Grows-Extends}
use libspill.Extents.Grows.{Ensures, grown, ensure_extents-Ensures}
use libspill.Extents.Grows as Grows
use libspill.Spill.{
  Tier, lru_drop, release, spill_out, spill, spill_mem, after_ensure, after_spill_out,
}

module _ (os : Os) (posix : IsPosix os) where
  and_then-ext :
      (r : os.File × Option Status) (k m : os.File → os.File × Option Status)
      → ((f : os.File) → k f ≡ m f)
      → and_then os r k ≡ and_then os r m
  and_then-ext (f, some done) k m e = e f
  and_then-ext (f, some c) k m e = refl
  and_then-ext (f, none) k m e = refl

  spill_out-nil : (f : os.File) (ext : List Extent) → spill_out os f ext [] ≡ (f, some done)
  unfolding spill_out
  spill_out-nil f [] = refl
  spill_out-nil f (e ∷ es) = refl

  scatter_out-nil :
      (f : os.File) (ext : List Extent) (base pos : ℕ)
      → scatter_out os f ext base pos [] ≡ (f, some done)
  unfolding scatter_out
  scatter_out-nil f [] base pos = refl
  scatter_out-nil f (e ∷ es) base pos = refl

  nothing_out :
      (f : os.File) (es : List Extent) (bs : List ℕ) (off : ℕ)
      → and_then os (ls_pwrite_all os f [] off) (λ g. spill_out os g es bs) ≡ spill_out os f es bs
  unfolding ls_pwrite_all pwrite_all
  nothing_out f es bs off = elim (os.patience f) [ zero ↦ refl | suc n ↦ refl ]

  -- Where the bytes fit, the loop of `spill` is the loop of `ls_scatter`.
  spill_out-scatter_out :
      (f : os.File) (ext : List Extent) (pos : ℕ) (bs : List ℕ)
      → length bs ≤ capacity ext
      → spill_out os f ext bs ≡ scatter_out os f ext pos pos bs
  unfolding spill_out scatter_out capacity
  spill_out-scatter_out f [] pos [] l = refl
  spill_out-scatter_out f [] pos (b ∷ bs) l = absurd (omega arith)
  spill_out-scatter_out f (e ∷ es) pos [] l = refl
  spill_out-scatter_out f (e ∷ es) pos (b ∷ bs) l =
      let n = length (b ∷ bs) in
      let len : pos + e.len - pos ≡ e.len = omega arith in
      let at : e.foff + (pos - pos) ≡ e.foff = omega arith in
      elim (Bool-cases (leb (pos + e.len) pos)) [
        | inl empty ↦
            let k0 : min e.len n ≡ 0 = ground (arith, empty) in
            let base : pos + e.len ≡ pos = ground (arith, empty) in
            rw (empty, k0, base)
              (nothing_out f es (b ∷ bs) e.foff
                ∙ spill_out-scatter_out f es pos (b ∷ bs) (ground (arith, empty, l)))
        | inr some_bytes ↦
            rw (some_bytes, len, at)
              (and_then-ext (ls_pwrite_all os f (take (min e.len n) (b ∷ bs)) e.foff) _ _ (λ g.
                elim (Bool-cases (leb n e.len)) [
                  | inl last ↦
                      let d = drop-past (min e.len n) (b ∷ bs) (ground (arith, last)) in
                      rw d (
                        spill_out-nil g es
                        ∙ sym (scatter_out-nil g es (pos + e.len) (pos + min e.len n)))
                  | inr more ↦
                      let k : min e.len n ≡ e.len = ground (arith, more) in
                      let m : length (drop e.len (b ∷ bs)) ≡ n - e.len =
                        length-drop e.len (b ∷ bs) in
                      rw k (
                        spill_out-scatter_out g es (pos + e.len) (drop e.len (b ∷ bs))
                          (omega (arith, m, l)))
                ]))
      ]

  content-mem :
      (o : Option (List ℕ)) (m : List ℕ) (ext : List Extent) (f : ℕ → ℕ) (p : ℕ)
      → o ≡ some m
      → content o ext f p ≡ get_or m p 0
  content-mem o m ext f p e = ap (λ z. content z ext f p) e ∙ (unfold content in refl)

  spill_out-Ends :
      (f : os.File) (ext : List Extent) (bs : List ℕ) → Ends os posix (spill_out os f ext bs)
  unfolding spill_out
  spill_out-Ends f [] bs = (done, refl)
  spill_out-Ends f (e ∷ es) [] = (done, refl)
  spill_out-Ends f (e ∷ es) (b ∷ bs) =
      let k = min e.len (length (b ∷ bs)) in
      and_then-Ends os posix (ls_pwrite_all os f (take k (b ∷ bs)) e.foff)
        (λ g. spill_out os g es (drop k (b ∷ bs)))
        (ls_pwrite_all-Ends os posix f (take k (b ∷ bs)) e.foff)
        (λ g. spill_out-Ends g es (drop k (b ∷ bs)))

  -- The loop of `spill` on a record that holds its extents: whatever its status, the record still
  -- holds them and keeps its buffer; on success the extents hold the record's bytes.
  spill_out-Moves :
      (s : Space os) (r : Rec) (m : List ℕ)
      → IsSound s.alloc
      → s.alloc.teardown ≡ false
      → Holding os posix s r
      → r.mem ≡ some m
      → r.size ≤ length m
      → r.size ≤ capacity r.ext
      → Moves os posix s r (record s { file = (spill_out os s.file r.ext (take r.size m)).0 }) r
  spill_out-Moves s r m v live h e l c =
      let bs = take r.size m in
      let n : length bs ≡ r.size = omega (arith, length-take r.size m, l) in
      let same = spill_out-scatter_out s.file r.ext 0 bs (omega (arith, n, c)) in
      let t : Touches os posix s.file r.ext 0 0 (length bs) (spill_out os s.file r.ext bs).0 =
        rw same (scatter_out-Touches os posix s.file r.ext 0 0 bs (inr (omega arith)) h.apart) in
      record {
        sound = v;
        live = live;
        holding = record {
          apart = h.apart;
          used = h.used;
          total = h.total;
          slots = h.slots;
          tail = λ p q. t.others p (ground (arith, n, q)) ∙ h.tail p q;
          fits = h.fits;
        };
        others = refl;
        from = λ x i. ground (arith, i);
        in_use = λ x u. u;
        same = λ x u o. t.outside x o;
        reads = λ p.
            content-mem r.mem m r.ext (os.byte_at (spill_out os s.file r.ext bs).0) p e
            ∙ sym (content-mem r.mem m r.ext (os.byte_at s.file) p e);
      }

  -- On success the buffer can go.
  spill_out-done :
      (s : Space os) (r : Rec) (m : List ℕ) (f : os.File)
      → IsSound s.alloc
      → s.alloc.teardown ≡ false
      → Holding os posix s r
      → r.mem ≡ some m
      → (r.size ≤ length m) × ((p : ℕ) → r.size ≤ p → get_or m p 0 ≡ 0)
      → r.size ≤ capacity r.ext
      → spill_out os s.file r.ext (take r.size m) ≡ (f, some done)
      → Moves os posix s r (record s { file = f }) (record r { mem = none })
  spill_out-done s r m f v live h e l c q =
      let bs = take r.size m in
      let n : length bs ≡ r.size = omega (arith, length-take r.size m, l.0) in
      let same = spill_out-scatter_out s.file r.ext 0 bs (omega (arith, n, c)) in
      let w =
        scatter_out-Scattered os posix s.file r.ext 0 0 bs f (inr (omega arith)) h.apart
          (sym same ∙ q) in
      let stays : (p : ℕ) → r.size ≤ p → logical r.ext (os.byte_at f) p ≡ 0 = λ p b.
        elim (Bool-cases (ltb p (capacity r.ext))) [
          | inr past ↦ logical-past r.ext (os.byte_at f) p (ground (arith, past))
          | inl here ↦ w.inside p (ground (arith, here)) ∙ ground (arith, n, b, h.tail p b)
        ] in
      let at : (p : ℕ) → logical r.ext (os.byte_at f) p ≡ get_or m p 0 = λ p.
        elim (Bool-cases (ltb p r.size)) [
          | inl here ↦
              w.inside p (ground (arith, here, c))
              ∙ ground (arith, n, here, get_or-take r.size m p 0 (ground (arith, here)))
          | inr past ↦ stays p (ground (arith, past)) ∙ sym (l.1 p (ground (arith, past)))
        ] in
      let spilled : (p : ℕ) → content none r.ext (os.byte_at f) p ≡ get_or m p 0 =
        λ p. unfold content in at p in
      record {
        sound = v;
        live = live;
        holding = record {
          apart = h.apart;
          used = h.used;
          total = h.total;
          slots = h.slots;
          tail = stays;
          fits = c;
        };
        others = refl;
        from = λ x i. ground (arith, i);
        in_use = λ x u. u;
        same = λ x u o. w.outside x o;
        reads = λ p. spilled p ∙ sym (content-mem r.mem m r.ext (os.byte_at s.file) p e);
      }

  -- How `spill` ends.
  pub record Spills (s : Space os) (t : Tier) (r : Rec)
      (res : Space os × Tier × Rec × Option Status) : Type 0 where
    pub status : Status
    pub reported : res.3 ≡ some status
    pub moves : Moves os posix s r res.0 res.2
    pub spilled : status ≡ done → res.2.mem ≡ none
    pub dropped : status ≡ done → r.mem ≢ none → res.1.lru ≡ lru_drop r.key t.lru
    pub off :
        status ≡ done
        → r.mem ≢ none
        → are_distinct t.lru ≡ true
        → (has_key r.key res.1.lru ≡ false)
          × ((j : List ℕ) → key_eq r.key j ≡ false → has_key j res.1.lru ≡ has_key j t.lru)
    pub released :
        (m : List ℕ) (x : ℕ)
        → status ≡ done
        → r.mem ≡ some m
        → t.resident ≡ x + length m
        → res.1.resident ≡ x
    pub kept : status ≢ done → (res.1 ≡ t) × (res.2.mem ≡ r.mem)
    pub end : res.0.alloc.file_end ≤ s.alloc.file_end + (r.size + 4096)

  after_spill_out-Spills :
      (s u : Space os) (t : Tier) (r q : Rec) (m : List ℕ) (cap : ℕ) (w : os.File × Option Status)
      → Moves os posix s r u q
      → u.alloc.file_end ≤ s.alloc.file_end + (r.size + 4096)
      → Ends os posix w
      → Moves os posix u q (record u { file = w.0 }) q
      → (w.1 ≡ some done → Moves os posix u q (record u { file = w.0 }) (record q { mem = none }))
      → q.mem ≡ r.mem
      → r.mem ≡ some m
      → cap ≡ length m
      → Spills s t r (after_spill_out os u t q cap w)
  unfolding release
  after_spill_out-Spills s u t r q m cap (f, none) a b (st, e) k d same mem len = absurd cc
  after_spill_out-Spills s u t r q m cap (f, some done) a b e k d same mem len = record {
    status = done;
    reported = refl;
    moves =
        Moves-trans os posix s u (record u { file = f }) r q (record q { mem = none }) a (d refl);
    spilled = λ z. refl;
    dropped = λ z n. ap (λ (x : Rec). lru_drop x.key t.lru) a.others;
    off = λ z n apart.
        let k : q.key ≡ r.key = ap (λ (x : Rec). x.key) a.others in
        rw k (
          (are_distinct-lru_drop r.key t.lru apart).1,
          λ j miss. lru_drop-others r.key j t.lru miss,
        );
    released = λ m' x z e' sum.
        let both : some m' ≡ some m = sym e' ∙ mem in
        let same_len : length m' ≡ length m = ap length cc in ground (arith, len, same_len, sum);
    kept = λ n. absurd (n refl);
    end = b;
  }
  after_spill_out-Spills s u t r q m cap (f, some st) a b e k d same mem len = record {
    status = st;
    reported = refl;
    moves = Moves-trans os posix s u (record u { file = f }) r q q a k;
    spilled = λ z. cc;
    dropped = λ z n. absurd cc;
    off = λ z n apart. absurd cc;
    released = λ m' x z. absurd cc;
    kept = λ n. (refl, same);
    end = b;
  }

  -- `none` and a buffer that fits
  Fits-some :
      (o : Option (List ℕ)) (m : List ℕ) (n : ℕ) (ext : List Extent)
      → o ≡ some m
      → Fits o n ext
      → (n ≤ length m) × ((p : ℕ) → n ≤ p → get_or m p 0 ≡ 0)
  Fits-some none m n ext e f = absurd cc
  Fits-some (some b) m n ext e f = let same : b ≡ m = cc in rw (← same) f

  after_ensure-Spills :
      (s : Space os) (t : Tier) (r : Rec) (m : List ℕ) (res : Space os × Rec × Option Status)
      → Holding os posix s r
      → r.mem ≡ some m
      → Ensures os posix s r r.size res
      → Spills s t r (after_ensure os t m res)
  unfolding after_ensure
  after_ensure-Spills s t r m (u, q, some done) h e (grown new ok enough g end) =
      let a = Extends-Moves os posix s u r q new h (Grows-Extends os posix s u r q new g) in
      let size : q.size ≡ r.size = ap (λ (z : Rec). z.size) a.others in
      let mem : q.mem ≡ some m = ap (λ (z : Rec). z.mem) g.others ∙ e in
      let fits = Fits-some q.mem m q.size q.ext mem a.holding.fits in
      let cap : q.size ≤ capacity q.ext = omega (arith, a.holding.total, enough, size) in
      let w = spill_out os u.file q.ext (take q.size m) in
      after_spill_out-Spills s u t r q m (length m) w a (ground (arith, end))
        (spill_out-Ends u.file q.ext (take q.size m))
        (spill_out-Moves u q m a.sound a.live a.holding mem fits.0 cap)
        (λ d. spill_out-done u q m w.0 a.sound a.live a.holding mem fits cap (λ i. (w.0, d i)))
        (ap (λ (z : Rec). z.mem) g.others) e refl
  after_ensure-Spills s t r m (u, q, some c) h e (grown new ok enough g end) = absurd cc
  after_ensure-Spills s t r m (u, q, none) h e (grown new ok enough g end) = absurd cc
  after_ensure-Spills s t r m (u, q, some done) h e (Grows.stopped new st ok n g end) =
      absurd (n cc)
  after_ensure-Spills s t r m (u, q, some c) h e (Grows.stopped new st ok n g end) = record {
    status = c;
    reported = refl;
    moves = Extends-Moves os posix s u r q new h g;
    spilled = λ z. absurd (n cc);
    dropped = λ z k. absurd (n cc);
    off = λ z k apart. absurd (n cc);
    released = λ m' x z. absurd (n cc);
    kept = λ k. (refl, ap (λ (z : Rec). z.mem) g.others);
    end = ground (arith, end);
  }
  after_ensure-Spills s t r m (u, q, none) h e (Grows.stopped new st ok n g end) = absurd cc

  -- For a record of at most 2 ^ 62 bytes that holds its place (its extents are in use and apart, its
  -- capacity is theirs, its bytes past its size are zero, and its size fits its place), on a sound
  -- free list outside of teardown, with the end of the file at most 2 ^ 62, and on a POSIX kernel:
  -- `spill` ends with a status. Whatever the status, the record still holds its place, reads as before
  -- at every offset and differs in nothing but its place; no byte in use outside its extents changed,
  -- what was in use still is, the free list is sound, and the file has grown by at most the record's
  -- size and 4096 bytes. On success the record is not resident; if it was, it is off an LRU list
  -- without repetition, on which every other record stays, and `resident` is less by its buffer, if
  -- that was counted in it; on an error the tier and the record's buffer are as before.
  pub spill-Spills :
      (s : Space os) (t : Tier) (r : Rec)
      → Holding os posix s r
      → r.size ≤ 2 ^ 62
      → IsSound s.alloc
      → s.alloc.teardown ≡ false
      → s.alloc.file_end ≤ 2 ^ 62
      → Spills s t r (spill os s t r)
  unfolding spill spill_mem
  spill-Spills s t r h b v live end = elim (Option-cases r.mem) [
    | inl gone ↦
        let e : spill os s t r ≡ (s, t, r, some done) = λ i. spill_mem os (gone i) s t r in
        rw e (record {
          status = done;
          reported = refl;
          moves = Moves-none os posix s r v live h;
          spilled = λ z. gone;
          dropped = λ z n. absurd (n gone);
          off = λ z n apart. absurd (n gone);
          released = λ m x z e. absurd (let q : none ≡ some m = sym gone ∙ e in cc);
          kept = λ n. absurd (n refl);
          end = omega arith;
        })
    | inr (m, resident) ↦
        let e : spill os s t r ≡ after_ensure os t m (ensure_extents os r.size s r) =
          λ i. spill_mem os (resident i) s t r in
        rw e (
          after_ensure-Spills s t r m (ensure_extents os r.size s r) h resident
            (ensure_extents-Ensures os posix r.size s r v live b end))
  ]
