-- ===== src/Extents/Holding.antt =====
-- A record and the part of the store that it stands in: its extents are its own, and it reads as
-- zeros past its size. What an operation that only moves the record's bytes around may do.
use libspill.Base.{
  ℕ, ◌+◌, ◌-◌, ◌≤◌, ◌≡◌, refl, inl, inr, true, false, ◌||◌, Option, none, some, List, [], ◌∷◌, ◌++◌,
  arith, ltb, if◌then◌else◌, Bool-cases, length, get_or, ap, sym, ◌∙◌,
}
use libspill.Alloc.{Extent}
use libspill.Alloc.Shape.{in_holes}
use libspill.Alloc.Insert.{IsSound, is_free}
use libspill.Toc.{Rec}
use libspill.Os.{Os, IsPosix}
use libspill.Scatter.Write.{logical, capacity, Separate}
use libspill.Scatter.Touch.{logical-same}
use libspill.Extents.{Space}
use libspill.Extents.Push.{Extends}
use libspill.Extents.Grows.{in_holes-append, capacity-append, Separate-append}

-- the byte of a record at `p`, in memory or in the file `m`
unfoldable pub content : Option (List ℕ) → List Extent → (ℕ → ℕ) → ℕ → ℕ
content none ext m p = logical ext m p
content (some b) ext m p = get_or b p 0

-- Where a record's bytes are, there is room for its size, and zeros past it.
abbrev pub Fits : Option (List ℕ) → ℕ → List Extent → Type 0
Fits none size ext = size ≤ capacity ext
Fits (some b) size ext = (size ≤ length b) × ((p : ℕ) → size ≤ p → get_or b p 0 ≡ 0)

logical-append :
    (a b : List Extent) (m : ℕ → ℕ) (p : ℕ)
    → logical (a ++ b) m p
      ≡ (if ltb p (capacity a) then logical a m p else logical b m (p - capacity a))
unfolding logical capacity
logical-append [] b m p = let z : p - 0 ≡ p = omega arith in rw z (ground arith)
logical-append (e ∷ a) b m p = elim (Bool-cases (ltb p e.len)) [
  | inl here ↦ let l : ltb p (e.len + capacity a) ≡ true = ground (arith, here) in rw (here, l) refl
  | inr there ↦
      let z : p - e.len - capacity a ≡ p - (e.len + capacity a) = omega arith in
      let l : ltb (p - e.len) (capacity a) ≡ ltb p (e.len + capacity a) = ground (arith, there) in
      rw there (logical-append a b m (p - e.len) ∙ rw (z, l) refl)
]

pub logical-past : (es : List Extent) (m : ℕ → ℕ) (p : ℕ) → capacity es ≤ p → logical es m p ≡ 0
unfolding logical capacity
logical-past [] m p l = refl
logical-past (e ∷ es) m p l =
    let there : ltb p e.len ≡ false = ground (arith, l) in
    rw there (logical-past es m (p - e.len) (omega (arith, l)))

logical-zeros :
    (es : List Extent) (m : ℕ → ℕ) (p : ℕ)
    → ((x : ℕ) → in_holes es x ≡ true → m x ≡ 0)
    → logical es m p ≡ 0
unfolding logical
logical-zeros [] m p h = refl
logical-zeros (e ∷ es) m p h = elim (Bool-cases (ltb p e.len)) [
  | inl here ↦ rw here (h (e.foff + p) (ground arith))
  | inr there ↦ rw there (logical-zeros es m (p - e.len) (λ x q. h x (ground (arith, q))))
]

module _ (os : Os) (posix : IsPosix os) where
  pub record Holding (s : Space os) (r : Rec) : Type 0 where
    pub apart : Separate r.ext
    pub used : (x : ℕ) → in_holes r.ext x ≡ true → is_free s.alloc x ≡ false
    pub total : r.ext_total ≡ capacity r.ext
    pub slots : length r.ext ≤ r.ncap
    pub tail : (p : ℕ) → r.size ≤ p → logical r.ext (os.byte_at s.file) p ≡ 0
    pub fits : Fits r.mem r.size r.ext

  -- The record's bytes may have moved: no byte of another record is touched, and it reads as before.
  pub record Moves (s : Space os) (r : Rec) (s' : Space os) (r' : Rec) : Type 0 where
    pub sound : IsSound s'.alloc
    pub live : s'.alloc.teardown ≡ false
    pub holding : Holding s' r'
    pub others :
        r' ≡ record r { ext = r'.ext; ncap = r'.ncap; ext_total = r'.ext_total; mem = r'.mem }
    pub from : (x : ℕ) → in_holes r'.ext x ≡ true → in_holes r.ext x || is_free s.alloc x ≡ true
    pub in_use : (x : ℕ) → is_free s.alloc x ≡ false → is_free s'.alloc x ≡ false
    pub same :
        (x : ℕ)
        → is_free s.alloc x ≡ false
        → in_holes r.ext x ≡ false
        → os.byte_at s'.file x ≡ os.byte_at s.file x
    pub reads :
        (p : ℕ)
        → content r'.mem r'.ext (os.byte_at s'.file) p ≡ content r.mem r.ext (os.byte_at s.file) p

  -- New extents of zeros do not show.
  Extends-logical :
      (s s' : Space os) (r r' : Rec) (new : List Extent)
      → Holding s r
      → Extends os posix s r s' r' new
      → (p : ℕ) → logical r'.ext (os.byte_at s'.file) p ≡ logical r.ext (os.byte_at s.file) p
  Extends-logical s s' r r' new h e p =
      let old =
        logical-same r.ext (os.byte_at s.file) (os.byte_at s'.file) p
          (λ x i. e.same x (h.used x i)) in
      ap (λ l. logical l (os.byte_at s'.file) p) e.ext
      ∙ logical-append r.ext new (os.byte_at s'.file) p
      ∙ elim (Bool-cases (ltb p (capacity r.ext))) [
        | inl here ↦ rw here old
        | inr there ↦ rw there (
            logical-zeros new (os.byte_at s'.file) (p - capacity r.ext) e.zeros
            ∙ sym (logical-past r.ext (os.byte_at s.file) p (ground (arith, there))))
      ]

  Fits-more : (m : Option (List ℕ)) (n : ℕ) (a b : List Extent) → Fits m n a → Fits m n (a ++ b)
  Fits-more none n a b f = omega (arith, f, capacity-append a b)
  Fits-more (some m) n a b f = f

  content-same :
      (m : Option (List ℕ)) (a b : List Extent) (f g : ℕ → ℕ) (p : ℕ)
      → logical b g p ≡ logical a f p
      → content m b g p ≡ content m a f p
  unfolding content
  content-same none a b f g p e = e
  content-same (some m) a b f g p e = refl

  pub Extends-Moves :
      (s s' : Space os) (r r' : Rec) (new : List Extent)
      → Holding s r
      → Extends os posix s r s' r' new
      → Moves s r s' r'
  Extends-Moves s s' r r' new h e =
      let both = in_holes-append r.ext new in
      let reads = Extends-logical s s' r r' new h e in
      let size : r'.size ≡ r.size = ap (λ (z : Rec). z.size) e.others in
      let mem : r'.mem ≡ r.mem = ap (λ (z : Rec). z.mem) e.others in
      let covers : (x : ℕ) → in_holes r'.ext x ≡ in_holes r.ext x || in_holes new x =
        λ x. ap (λ l. in_holes l x) e.ext ∙ both x in
      record {
        sound = e.sound;
        live = e.live;
        holding = record {
          apart = rw e.ext (
              Separate-append r.ext new h.apart e.apart
                (λ x i. ground (arith, h.used x i, e.was_free x)));
          used = λ x i. elim (Bool-cases (in_holes new x)) [
            | inl late ↦ e.not_free x late
            | inr early ↦ e.in_use x (h.used x (ground (arith, covers x, i, early)))
          ];
          total =
              e.total ∙ omega (arith, h.total, capacity-append r.ext new) ∙ ap capacity (sym e.ext);
          slots = e.slots h.slots;
          tail = λ p l. reads p ∙ h.tail p (omega (arith, l, size));
          fits = rw (mem, size, e.ext) (Fits-more r.mem r.size r.ext new h.fits);
        };
        others =
            e.others
            ∙ ap (λ m. record r { ext = r'.ext; ncap = r'.ncap; ext_total = r'.ext_total; mem = m })
                (sym mem);
        from = λ x i. ground (arith, covers x, i, e.was_free x);
        in_use = e.in_use;
        same = λ x u i. e.same x u;
        reads = λ p.
            ap (λ m. content m r'.ext (os.byte_at s'.file) p) mem
            ∙ content-same r.mem r.ext r'.ext (os.byte_at s.file) (os.byte_at s'.file) p (reads p);
      }

  pub Moves-none :
      (s : Space os) (r : Rec)
      → IsSound s.alloc
      → s.alloc.teardown ≡ false
      → Holding s r
      → Moves s r s r
  Moves-none s r v live h = record {
    sound = v;
    live = live;
    holding = h;
    others = refl;
    from = λ x i. ground (arith, i);
    in_use = λ x u. u;
    same = λ x u i. refl;
    reads = λ p. refl;
  }

  pub Moves-trans : (s t u : Space os) (r q w : Rec) → Moves s r t q → Moves t q u w → Moves s r u w
  Moves-trans s t u r q w a b =
      let back : (x : ℕ) → is_free t.alloc x ≡ true → is_free s.alloc x ≡ true = λ x i.
        elim (Bool-cases (is_free s.alloc x)) [
          | inl f ↦ f
          | inr n ↦ let z = a.in_use x n in absurd (cc)
        ] in
      record {
        sound = b.sound;
        live = b.live;
        holding = b.holding;
        others =
            b.others
            ∙ ap
                (λ (z : Rec). record z {
                  ext = w.ext;
                  ncap = w.ncap;
                  ext_total = w.ext_total;
                  mem = w.mem;
                })
                a.others;
        from = λ x i. elim (Bool-cases (in_holes q.ext x)) [
          | inl mine ↦ a.from x mine
          | inr new ↦ ground (arith, b.from x i, new, back x)
        ];
        in_use = λ x i. b.in_use x (a.in_use x i);
        same = λ x i o.
            let n : in_holes q.ext x ≡ false = ground (arith, a.from x, i, o) in
            b.same x (a.in_use x i) n ∙ a.same x i o;
        reads = λ p. b.reads p ∙ a.reads p;
      }
