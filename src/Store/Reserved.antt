-- ===== src/Store/Reserved.antt =====
-- src/store.c: what `ls_reserve` leaves of a well-formed store.
use libspill.Base.{
  ◌<◌, true, [], ℕ, ◌≡◌, ◌≢◌, refl, false, Option, none, some, List, arith, ap, sym, ◌∙◌,
}
use libspill.Alloc.Shape.{in_holes}
use libspill.Toc.{Rec, key_eq, toc_find}
use libspill.Status.{Status, done, no_memory}
use libspill.Os.{Os, IsPosix}
use libspill.Store.{Store, put, find_or_insert}
use libspill.Store.Transfer.{stretched}
use libspill.Store.Keys.{after_reserve, reserve_in}
use libspill.Store.Invariant.{
  IsStore, SameView, SameView-trans, Updates, rec_size, rec_attr, rec_byte,
}
use libspill.Store.Replace.{Updates-Replaced}
use libspill.Store.Listed.{IsTier, IsTier-same}
use libspill.Store.Insert.{
  size_of, SameBytes, SameBytes-trans, SameView-SameBytes, Found, found, find_or_insert-Found,
}
use libspill.Store.Ensure.{Ensured}
use libspill.Store.Ensure.Cap.{ensure_cap-Ensured}
use libspill.Store.Capacity.{ensure_cap}
use libspill.Store.Begin.{
  max_size, Unchanged, ls_report-Unchanged, CanWrite, Found-IsReady, Fits-stretch,
}

module _ (os : Os) (posix : IsPosix os) where
  -- A reservation changes nothing but the size of one record.
  pub record Reserves (s : Store os) (key : List ℕ) (n : ℕ) (res : Store os × Option Status)
      : Type 0 where
    pub status : Status
    pub reported : res.1 ≡ some status
    pub store : IsStore os posix res.0
    pub tier : IsTier os res.0
    pub others : (j : List ℕ) → key_eq key j ≡ false → SameView os posix s res.0 j
    pub attr : rec_attr (toc_find res.0.table key) ≡ rec_attr (toc_find s.table key)
    pub bytes :
        (p : ℕ)
        → rec_byte (toc_find res.0.table key) (os.byte_at res.0.space.file) p
          ≡ rec_byte (toc_find s.table key) (os.byte_at s.space.file) p
    pub size :
        status ≡ done
        → rec_size (toc_find res.0.table key) ≡ some (max_size (size_of (toc_find s.table key)) n)
    pub backed :
        status ≡ done
        → toc_find s.table key ≡ none
        → (r : Rec) → toc_find res.0.table key ≡ some r
        → (x : ℕ) → in_holes r.ext x ≡ true
        → x < os.size res.0.space.file

  Unchanged-Reserves :
      (s u : Store os) (key : List ℕ) (n : ℕ) (st : Status)
      → st ≢ done
      → Unchanged os posix s u key
      → Reserves s key n (u, some st)
  Unchanged-Reserves s u key n st stays w = record {
    status = st;
    reported = refl;
    store = w.store;
    tier = w.tier;
    others = w.others;
    attr = w.mine.attr;
    bytes = w.mine.bytes;
    size = λ d. absurd (stays d);
    backed = λ d. absurd (stays d);
  }

  after_reserve-Reserves :
      (s t : Store os) (key : List ℕ) (r : Rec) (n : ℕ) (res : Store os × Rec × Option Status)
      → r.key ≡ key
      → SameBytes os posix s t key
      → ((j : List ℕ) → key_eq key j ≡ false → SameView os posix s t j)
      → (toc_find s.table key ≡ none → (r.mem ≡ none) × (r.ext ≡ []))
      → Ensured os posix t r n res
      → Reserves s key n (after_reserve os key n res)
  unfolding rec_size rec_attr rec_byte size_of
  after_reserve-Reserves s t key r n (u, q, none) k mine others bare e =
      absurd (let z = e.reported in cc)
  after_reserve-Reserves s t key r n (u, q, some done) k mine others bare e =
      let d : e.status ≡ done = let z = e.reported in cc in
      let q_key : q.key ≡ key = ap (λ (z : Rec). z.key) e.others ∙ k in
      let r' = stretched os q n in
      let w = put os u r' in
      let h = e.store.holding q.key q e.found in
      let up : Updates os posix u.space q w.space r' = record {
        sound = e.store.sound;
        live = e.store.live;
        holding = record {
          apart = h.apart;
          used = h.used;
          total = h.total;
          slots = h.slots;
          tail = λ p l. h.tail p (ground (arith, l));
          fits = Fits-stretch q.mem q.size n q.ext h.fits (e.room d);
        };
        key = refl;
        from = λ x i. ground (arith, i);
        in_use = λ x i. i;
        same = λ x i o. refl;
      } in
      let p = Updates-Replaced os posix u w q r' e.store e.found refl up in
      let same =
        SameBytes-trans os posix s t u key mine
          (SameView-SameBytes os posix t u key (e.view key)) in
      let old : toc_find u.table key ≡ some q = ap (toc_find u.table) (sym q_key) ∙ e.found in
      let new : toc_find w.table key ≡ some r' = ap (toc_find w.table) (sym q_key) ∙ p.here in
      record {
        status = done;
        reported = refl;
        store = p.store;
        tier = IsTier-same os posix u w q r' e.tier p refl e.found refl (λ m. m);
        others = λ j miss.
            SameView-trans os posix s u w j
              (SameView-trans os posix s t u j (others j miss) (e.view j))
              (p.others j (ap (λ z. key_eq z j) q_key ∙ miss));
        attr = ap rec_attr new ∙ sym (ap rec_attr old) ∙ same.attr;
        bytes = λ x.
            ap (λ o. rec_byte o (os.byte_at u.space.file) x) new
            ∙ sym (ap (λ o. rec_byte o (os.byte_at u.space.file) x) old)
            ∙ same.bytes x;
        backed = λ z there g found x i.
            let c = bare there in
            let both : some r' ≡ some g = sym new ∙ found in
            let same_rec : r' ≡ g = cc in
            let ext : q.ext ≡ g.ext = ap (λ (z : Rec). z.ext) same_rec in
            e.backed d c.0 c.1 x (ap (λ es. in_holes es x) ext ∙ i);
        size =
            λ z. ap rec_size new ∙ ap (λ m. some (max_size m n)) (sym (ap size_of old) ∙ same.size);
      }
  after_reserve-Reserves s t key r n (u, q, some st) k mine others bare e =
      Unchanged-Reserves s _ key n st (λ d. cc)
        (ls_report-Unchanged os posix s u st key key 0 0 "reserve" (record {
          store = e.store;
          tier = e.tier;
          mine =
              SameBytes-trans os posix s t u key mine
                (SameView-SameBytes os posix t u key (e.view key));
          others = λ j miss. SameView-trans os posix s t u j (others j miss) (e.view j);
        }))

  reserve_in-Reserves :
      (limit : ℕ) (s : Store os) (key : List ℕ) (n : ℕ) (res : Store os × Option Rec)
      → CanWrite os posix limit n s
      → Found os posix s key res
      → Reserves s key n (reserve_in os key n res)
  unfolding reserve_in
  reserve_in-Reserves limit s key n (t, none) y (found r e k f v l sp ti mine others new) =
      absurd cc
  reserve_in-Reserves limit s key n (t, some q) y (Found.refused e v l view) = absurd cc
  reserve_in-Reserves limit s key n (t, none) y (Found.refused e v l view) =
      Unchanged-Reserves s t key n no_memory (λ d. cc)
        (record {
          store = v;
          tier = l;
          mine = SameView-SameBytes os posix s t key (view key);
          others = λ j miss. view j;
        })
  reserve_in-Reserves limit s key n (t, some q) y (found r e k f v l sp ti mine others new) =
      let same : r ≡ q = cc in
      let ready = Found-IsReady os posix limit n s t key y v l sp ti mine others in
      rw (← same) (
        after_reserve-Reserves s t key r n (ensure_cap os t r n) k mine others new
          (ensure_cap-Ensured os posix limit t r n y.small ready.0 f y.reach ready.1))

  -- In a store where a write that ends at `nbytes` may start, on a POSIX kernel: a reservation, after
  -- its guards, ends with a status. Whatever the status, the store is well formed, every other key
  -- shows the same size, attribute and bytes, and the key shows the same attribute and bytes. On
  -- success its size is the larger of the old one and `nbytes`, and if there was no record under the
  -- key, the extents of the new one lie inside the file, so that they can be read.
  pub reserve_in-find_or_insert :
      (limit : ℕ) (s : Store os) (key : List ℕ) (n : ℕ)
      → CanWrite os posix limit n s
      → Reserves s key n (reserve_in os key n (find_or_insert os s key))
  reserve_in-find_or_insert limit s key n y =
      reserve_in-Reserves limit s key n (find_or_insert os s key) y
        (find_or_insert-Found os posix s key y.store y.tier)
