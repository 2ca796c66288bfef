-- ===== src/Store/Ensure.antt =====
-- src/store.c: what `ensure_cap` leaves of a well-formed store.
pub mod Cap
use libspill.Base.{
  ℕ, zero, suc, ◌+◌, ◌-◌, ◌*◌, ◌^◌, ◌≤◌, ◌<◌, ◌≡◌, ◌≢◌, refl, ◌⊎◌, inl, inr, Bool, true, false,
  ◌&&◌, ◌||◌, Option, none, some, List, [], ◌∷◌, ◌++◌, arith, ltb, leb, ◌==◌, if◌then◌else◌,
  Bool-cases, Option-cases, length, replicate, get_or, ap, sym, ◌∙◌,
}
use libspill.Alloc.{Extent}
use libspill.Alloc.Insert.{IsSound}
use libspill.Alloc.Shape.{in_holes}
use libspill.Toc.{Rec, toc_find, toc_write}
use libspill.Toc.Chain.{key_eq_refl}
use libspill.Status.{Status, done}
use libspill.Os.{Os, IsPosix}
use libspill.Scatter.Write.{capacity}
use libspill.Extents.{Space, ensure_extents, asked}
use libspill.Extents.Push.{Grows, Extends, Grows-Extends}
use libspill.Extents.Grows.{Ensures, grown, ensure_extents-Ensures}
use libspill.Extents.Grows as Grows
use libspill.Extents.Holding.{Holding, Moves, Extends-Moves, content, Fits}
use libspill.Spill.{Tier, spill, lru_touch}
use libspill.Spill.Laws.{Spills, spill-Spills}
use libspill.Store.{Store, put}
use libspill.Store.Capacity.{with_spill, spill_rec, with_extents, then_extents, mem_bytes, mem_cap}
use libspill.Store.Invariant.{IsStore, SameView, SameView-refl, SameView-trans, rec_size}
use libspill.Store.Replace.{Replaced, Moves-SameView}
use libspill.Store.Listed.{IsTier, IsTier-same, IsTier-drop, IsTier-touch}

-- There is room for `need` bytes where the record's bytes are.
abbrev pub Room : Option (List ℕ) → List Extent → ℕ → Type 0
Room none ext need = need ≤ capacity ext
Room (some m) ext need = need ≤ length m

module _ (os : Os) (posix : IsPosix os) where
  -- How `ensure_cap` ends for the record `r`.
  pub record Ensured (s : Store os) (r : Rec) (need : ℕ) (res : Store os × Rec × Option Status)
      : Type 0 where
    pub status : Status
    pub reported : res.2 ≡ some status
    pub store : IsStore os posix res.0
    pub tier : IsTier os res.0
    pub view : (j : List ℕ) → SameView os posix s res.0 j
    pub found : toc_find res.0.table res.1.key ≡ some res.1
    pub others : res.1 ≡ record r {
      ext = res.1.ext;
      ncap = res.1.ncap;
      ext_total = res.1.ext_total;
      mem = res.1.mem;
    }
    pub room : status ≡ done → Room res.1.mem res.1.ext need
    pub backed :
        status ≡ done
        → r.mem ≡ none
        → r.ext ≡ []
        → (x : ℕ) → in_holes res.1.ext x ≡ true
        → x < os.size res.0.space.file

  -- A first change that shows nothing, and then the rest.
  pub Ensured-after :
      (s t : Store os) (r q : Rec) (need : ℕ) (res : Store os × Rec × Option Status)
      → ((j : List ℕ) → SameView os posix s t j)
      → q ≡ record r { ext = q.ext; ncap = q.ncap; ext_total = q.ext_total; mem = q.mem }
      → (r.mem ≡ none → r.ext ≡ [] → (q.mem ≡ none) × (q.ext ≡ []))
      → Ensured t q need res
      → Ensured s r need res
  Ensured-after s t r q need res v o bare e = record {
    backed = λ d a b. let c = bare a b in e.backed d c.0 c.1;
    status = e.status;
    reported = e.reported;
    store = e.store;
    tier = e.tier;
    view = λ j. SameView-trans os posix s t res.0 j (v j) (e.view j);
    found = e.found;
    others =
        e.others
        ∙ ap
            (λ (z : Rec). record z {
              ext = res.1.ext;
              ncap = res.1.ncap;
              ext_total = res.1.ext_total;
              mem = res.1.mem;
            })
            o;
    room = e.room;
  }

  Room-none :
      (o : Option (List ℕ)) (ext : List Extent) (need : ℕ)
      → o ≡ none
      → need ≤ capacity ext
      → Room o ext need
  Room-none none ext need e l = l
  Room-none (some m) ext need e l = absurd cc

  module _ (s : Store os) (r : Rec) (need : ℕ) (v : IsStore os posix s) (t : IsTier os s)
      (found : toc_find s.table r.key ≡ some r) where
    extents-Ensured :
        (sp : Space os) (r' : Rec) (st : Status) (new : List Extent)
        → r.mem ≡ none
        → Extends os posix s.space r sp r' new
        → (st ≡ done → need ≤ r'.ext_total)
        → (st ≡ done → (x : ℕ) → in_holes new x ≡ true → x < os.size sp.file)
        → Ensured s r need (put os (record s { space = sp }) r', r', some st)
    extents-Ensured sp r' st new gone x enough reach =
        let m = Extends-Moves os posix s.space sp r r' new (v.holding r.key r found) x in
        let u = put os (record s { space = sp }) r' in
        let p = Moves-SameView os posix s u r r' v found refl m in
        let k : r'.key ≡ r.key = ap (λ (z : Rec). z.key) m.others in
        let mem : r'.mem ≡ r.mem = ap (λ (z : Rec). z.mem) x.others in
        record {
          status = st;
          reported = refl;
          store = p.0.store;
          tier = IsTier-same os posix s u r r' t p.0 k found refl (λ there z. there (sym mem ∙ z));
          view = p.1;
          found = p.0.here;
          others = m.others;
          backed = λ d a b p i.
              let all : r'.ext ≡ new = x.ext ∙ ap (λ z. z ++ new) b in
              reach d p (ap (λ z. in_holes z p) (sym all) ∙ i);
          room = λ d.
              Room-none r'.mem r'.ext need (mem ∙ gone) (omega (arith, enough d, m.holding.total));
        }

    with_extents-Ensured :
        (res : Space os × Rec × Option Status)
        → r.mem ≡ none
        → Ensures os posix s.space r need res
        → Ensured s r need (with_extents os s res)
    with_extents-Ensured (sp, r', none) gone (grown new ok enough g end) = absurd cc
    with_extents-Ensured (sp, r', some st) gone (grown new ok enough g end) =
        extents-Ensured sp r' st new gone (Grows-Extends os posix s.space sp r r' new g)
          (λ d. enough) (λ d. g.backed)
    with_extents-Ensured (sp, r', none) gone (Grows.stopped new c ok n g end) = absurd cc
    with_extents-Ensured (sp, r', some st) gone (Grows.stopped new c ok n g end) =
        extents-Ensured sp r' st new gone g (λ d. absurd (n cc)) (λ d. absurd (n cc))

    pub ensure_extents-Ensured :
        r.mem ≡ none
        → need ≤ 2 ^ 62
        → s.space.alloc.file_end ≤ 2 ^ 62
        → Ensured s r need (with_extents os s (ensure_extents os need s.space r))
    ensure_extents-Ensured gone small end =
        with_extents-Ensured (ensure_extents os need s.space r) gone
          (ensure_extents-Ensures os posix need s.space r v.sound v.live small end)

  after_spill-Ensured :
      (s : Store os) (r : Rec) (need : ℕ) (res : Space os × Tier × Rec × Option Status)
      → IsStore os posix s
      → IsTier os s
      → toc_find s.table r.key ≡ some r
      → r.mem ≢ none
      → need ≤ 2 ^ 62
      → s.space.alloc.file_end + (r.size + 4096) ≤ 2 ^ 62
      → Spills os posix s.space s.tier r res
      → Ensured s r need (then_extents os need (with_spill os s res))
  after_spill-Ensured s r need (sp, ti, r', none) v t found there small end w =
      absurd (let e = w.reported in cc)
  after_spill-Ensured s r need (sp, ti, r', some done) v t found there small end w =
      let u = put os (record s { space = sp; tier = ti }) r' in
      let p = Moves-SameView os posix s u r r' v found refl w.moves in
      let k : r'.key ≡ r.key = ap (λ (z : Rec). z.key) w.moves.others in
      let d : w.status ≡ done = let e = w.reported in cc in
      let tier = IsTier-drop os posix s u r r' t p.0 k found (w.dropped d there) in
      Ensured-after s u r r' need (with_extents os u (ensure_extents os need sp r')) p.1
        w.moves.others (λ a b. absurd (there a))
        (ensure_extents-Ensured u r' need p.0.store tier p.0.here (w.spilled d) small
          (omega (arith, end, w.end)))
  after_spill-Ensured s r need (sp, ti, r', some st) v t found there small end w =
      let u = put os (record s { space = sp; tier = ti }) r' in
      let p = Moves-SameView os posix s u r r' v found refl w.moves in
      let k : r'.key ≡ r.key = ap (λ (z : Rec). z.key) w.moves.others in
      let n : w.status ≢ done = λ d. let e = w.reported in cc in
      let kept = w.kept n in
      record {
        status = st;
        reported = refl;
        store = p.0.store;
        tier =
            IsTier-same os posix s u r r' t p.0 k found (ap (λ (z : Tier). z.lru) kept.0)
              (λ here gone. here (sym kept.1 ∙ gone));
        view = p.1;
        found = p.0.here;
        others = w.moves.others;
        room = λ d. absurd cc;
        backed = λ d. absurd cc;
      }

  -- a resident record is spilled, and gets extents
  pub spill_then-Ensured :
      (s : Store os) (r : Rec) (need : ℕ)
      → IsStore os posix s
      → IsTier os s
      → toc_find s.table r.key ≡ some r
      → r.mem ≢ none
      → need ≤ 2 ^ 62
      → s.space.alloc.file_end + (r.size + 4096) ≤ 2 ^ 62
      → Ensured s r need (then_extents os need (spill_rec os s r))
  unfolding spill_rec
  spill_then-Ensured s r need v t found there small end =
      after_spill-Ensured s r need (spill os s.space s.tier r) v t found there small end (
        spill-Spills os posix s.space s.tier r (v.holding r.key r found) (omega (arith, end))
          v.sound v.live (omega (arith, end)))
