-- ===== src/Store/Write.antt =====
-- src/store.c: a write to a record, as a caller sees it.
use Prim.Native.String.{String}
use libspill.Base.{
  ℕ, ◌+◌, ◌-◌, ◌≤◌, ◌≡◌, ◌≢◌, refl, inl, inr, true, false, Option, none, some, List, arith, ltb,
  if◌then◌else◌, Bool-cases, length, take, [], ◌∷◌, get_or, ap, sym, ◌∙◌, ◌&&◌, ◌+₆₄◌, +₆₄-eq,
}
use libspill.Alloc.Shape.{in_range}
use libspill.Toc.{key_eq, key_ok, toc_find}
use libspill.Status.{Status, done, inval}
use libspill.Os.{Os, IsPosix}
use libspill.Scatter.{Place, scatter_write}
use libspill.Store.{Store, is_done, ls_report, put, place_of, unpin}
use libspill.Store.Transfer.{
  Start, started, with_file, finish, end_write, transfer_write, rw_write_bytes, rw_write, no_buffer,
}
use libspill.Store.Invariant.{
  IsStore, SameView, SameView-trans, Updates, rec_size, rec_attr, rec_byte,
}
use libspill.Store.Replace.{Updates-Replaced}
use libspill.Store.Listed.{IsTier, IsTier-same}
use libspill.Store.Insert.{size_of}
use libspill.Store.Begin.{
  max_size, Pinned, Begins, begun, stayed, Unchanged, CanWrite, begin_write-Begins,
}
use libspill.Store.Land.{Lands, scatter_write-Lands}

take-all : (bs : List ℕ) → take (length bs) bs ≡ bs
take-all [] = refl
take-all (b ∷ bs) = ap (λ t. b ∷ t) (take-all bs)

module _ (os : Os) (posix : IsPosix os) where
  -- What a write of `bs` at `off` does to the map from keys to bytes.
  pub record Overwrites (s : Store os) (key : List ℕ) (off : ℕ) (bs : List ℕ) (st : Status)
      (u : Store os) : Type 0 where
    pub store : IsStore os posix u
    pub tier : IsTier os u
    pub others : (j : List ℕ) → key_eq key j ≡ false → SameView os posix s u j
    pub attr : rec_attr (toc_find u.table key) ≡ rec_attr (toc_find s.table key)
    pub beside :
        (p : ℕ)
        → in_range off (length bs) p ≡ false
        → rec_byte (toc_find u.table key) (os.byte_at u.space.file) p
          ≡ rec_byte (toc_find s.table key) (os.byte_at s.space.file) p
    pub size :
        st ≡ done
        → rec_size (toc_find u.table key)
          ≡ some (max_size (size_of (toc_find s.table key)) (off + length bs))
    pub inside :
        st ≡ done
        → (p : ℕ) → in_range off (length bs) p ≡ true
        → rec_byte (toc_find u.table key) (os.byte_at u.space.file) p ≡ get_or bs (p - off) 0

  pub record Wrote (s : Store os) (key : List ℕ) (off : ℕ) (bs : List ℕ)
      (res : Store os × Option Status) : Type 0 where
    pub status : Status
    pub reported : res.1 ≡ some status
    pub overwrites : Overwrites s key off bs status res.0

  pub ls_report-Overwrites :
      (s u : Store os) (key : List ℕ) (off : ℕ) (bs : List ℕ) (st e : Status) (k : List ℕ)
      (at n : ℕ) (msg : String)
      → Overwrites s key off bs st u
      → Overwrites s key off bs st (ls_report os u e k at n msg)
  unfolding ls_report
  ls_report-Overwrites s u key off bs st e k at n msg w =
      elim (Bool-cases (u.opts.log && (if is_done e then false else true))) [
        | inr quiet ↦ rw quiet w
        | inl told ↦ rw told (record {
          store = record {
            table = w.store.table;
            sound = w.store.sound;
            live = w.store.live;
            holding = w.store.holding;
            disjoint = w.store.disjoint;
          };
          tier = record { apart = w.tier.apart; resident = w.tier.resident };
          others = λ j miss.
              let v = w.others j miss in record { size = v.size; attr = v.attr; bytes = v.bytes };
          attr = w.attr;
          beside = w.beside;
          size = w.size;
          inside = w.inside;
        })
      ]

  -- nothing was written
  pub Unchanged-Overwrites :
      (s u : Store os) (key : List ℕ) (off : ℕ) (bs : List ℕ) (st : Status)
      → st ≢ done
      → Unchanged os posix s u key
      → Overwrites s key off bs st u
  Unchanged-Overwrites s u key off bs st n w = record {
    store = w.store;
    tier = w.tier;
    others = w.others;
    attr = w.mine.attr;
    beside = λ p o. w.mine.bytes p;
    size = λ d. absurd (n d);
    inside = λ d. absurd (n d);
  }

  -- The pinned record is unpinned after the transfer.
  pub unpin-Overwrites :
      (s u : Store os) (key : List ℕ) (off : ℕ) (bs : List ℕ) (p : Place) (f : os.File)
      (mem : Option (List ℕ)) (o : Option Status) (w : Pinned os posix s u key (off + length bs) p)
      (l : Lands os posix u.space w.rec off bs (f, mem, o))
      → Overwrites s key off bs l.status (unpin os (with_file os u f) key mem)
  unfolding unpin rec_size rec_attr rec_byte
  unpin-Overwrites s u key off bs p f mem o w l =
      let r = w.rec in
      let r' = record r { mem = mem; busy = r.busy - 1 } in
      let t = put os (with_file os u f) r' in
      let at : toc_find u.table key ≡ some r = ap (toc_find u.table) (sym w.rec_key) ∙ w.found in
      let up : Updates os posix u.space r t.space r' = record {
        sound = w.store.sound;
        live = w.store.live;
        holding = record {
          apart = l.holding.apart;
          used = l.holding.used;
          total = l.holding.total;
          slots = l.holding.slots;
          tail = l.holding.tail;
          fits = l.holding.fits;
        };
        key = refl;
        from = λ x i. ground (arith, i);
        in_use = λ x i. i;
        same = λ x i out. l.outside x out;
      } in
      let q = Updates-Replaced os posix u t r r' w.store w.found refl up in
      let here : toc_find t.table key ≡ some r' = ap (toc_find t.table) (sym w.rec_key) ∙ q.here in
      rw (at, unpin)
        (record {
          store = q.store;
          tier = IsTier-same os posix u t r r' w.tier q refl w.found refl l.resident;
          others = λ j miss.
              SameView-trans os posix s u t j (w.others j miss)
                (q.others j (ap (λ z. key_eq z j) w.rec_key ∙ miss));
          attr = ap rec_attr here ∙ w.attr;
          beside = λ x out. ap (λ z. rec_byte z (os.byte_at f) x) here ∙ l.others x out ∙ w.bytes x;
          size = λ d. ap rec_size here ∙ ap some w.size;
          inside = λ d x i. ap (λ z. rec_byte z (os.byte_at f) x) here ∙ l.inside d x i;
        })

  end_write-Wrote :
      (s u : Store os) (key : List ℕ) (off : ℕ) (bs : List ℕ) (msg : String) (p : Place)
      (res : os.File × Option (List ℕ) × Option Status)
      (w : Pinned os posix s u key (off + length bs) p)
      → Lands os posix u.space w.rec off bs res
      → Wrote s key off bs (end_write os key off (length bs) msg u res)
  unfolding finish
  end_write-Wrote s u key off bs msg p (f, mem, none) w l = absurd (let e = l.reported in cc)
  end_write-Wrote s u key off bs msg p (f, mem, some st) w l =
      let same : l.status ≡ st = let e = l.reported in cc in
      let a = unpin-Overwrites s u key off bs p f mem (some st) w l in
      let b =
        ls_report-Overwrites s (unpin os (with_file os u f) key mem) key off bs l.status l.status
          key off (length bs) msg a in
      record { status = st; reported = refl; overwrites = rw (← same) b }

  pub transfer_write-Wrote :
      (s : Store os) (key : List ℕ) (off : ℕ) (bs : List ℕ) (msg : String) (res : Store os × Start)
      → Begins os posix s key (off + length bs) res
      → Wrote s key off bs (transfer_write os key off bs msg res)
  unfolding transfer_write
  transfer_write-Wrote s key off bs msg (u, Start.refused e) (stayed c q n w) =
      let same : c ≡ e = cc in
      record {
        status = e;
        reported = refl;
        overwrites = Unchanged-Overwrites s u key off bs e (λ d. n (same ∙ d)) w;
      }
  transfer_write-Wrote s key off bs msg (u, Start.refused e) (begun p q w) = absurd cc
  transfer_write-Wrote s key off bs msg (u, started p) (stayed c q n w) = absurd cc
  transfer_write-Wrote s key off bs msg (u, Start.spent) (begun p q w) = absurd cc
  transfer_write-Wrote s key off bs msg (u, Start.spent) (stayed c q n w) = absurd cc
  transfer_write-Wrote s key off bs msg (u, started p') (begun p q w) =
      let same : p ≡ p' = cc in
      let place : p' ≡ place_of os w.rec = sym same ∙ w.place in
      let h = w.store.holding w.rec.key w.rec w.found in
      let l : off + length bs ≤ w.rec.size = ground (arith, w.size) in
      rw place (
        end_write-Wrote s u key off bs msg p
          (scatter_write os u.space.file (place_of os w.rec) off bs) w
          (scatter_write-Lands os posix u.space w.rec off h bs l))

  rw_write_bytes-Wrote :
      (limit : ℕ) (s : Store os) (key : List ℕ) (off : ℕ) (bs : List ℕ)
      → CanWrite os posix limit (off + length bs) s
      → Wrote s key off bs (rw_write_bytes os s key off bs)
  unfolding rw_write_bytes
  rw_write_bytes-Wrote limit s key off bs y =
      let sum = +₆₄-eq off (length bs) (omega (arith, y.reach)) in
      let fits : ltb (off +₆₄ length bs) off ≡ false = ground (arith, sum) in
      let msg : String = "reserving space for write" in
      let b =
        begin_write-Begins os posix limit s key off (length bs) off (length bs) msg
          (off + length bs) y in
      let w = transfer_write-Wrote s key off bs "write" _ b in rw (fits, sum) w

  -- What a call does: a key that is not one is refused before the store is touched.
  pub data Writes (s : Store os) (key : List ℕ) (off : ℕ) (bs : List ℕ)
      (res : Store os × Option Status) : Type 0 where
    invalid : key_ok (some key) ≡ false → res ≡ (s, some inval) → Writes s key off bs res
    wrote :
        (st : Status)
        → key_ok (some key) ≡ true
        → res.1 ≡ some st
        → Overwrites s key off bs st res.0
        → Writes s key off bs res

  -- A store is a map from keys to bytes, and a write is an update of the map. For a well-formed store
  -- (the table is, the free list is sound and not in teardown, records hold their places, apart from
  -- each other, and read as zeros past their size; the LRU list has no repetition and only resident
  -- records) whose records have at most `limit` bytes, with `limit` and the end of the range at most 2
  -- ^ 62 and room for spilling every record below 2 ^ 62, and on a POSIX kernel: `ls_rw` for a write
  -- of a buffer under a key that is not null answers LS_ERR_INVAL and leaves the store as it is, if
  -- the key is empty or too long; for any other key it ends with a status. Whatever the status, the
  -- store is well formed, every other key shows the same size, attribute and bytes, and the key shows
  -- its old attribute and, outside the range, its old bytes. On success its size is the larger of the
  -- old one and the end of the range, and the range reads as the buffer.
  pub rw_write-Overwrites :
      (limit : ℕ) (s : Store os) (key : List ℕ) (off : ℕ) (bs : List ℕ)
      → CanWrite os posix limit (off + length bs) s
      → Writes s key off bs (rw_write os s (some key) off (length bs) (some bs))
  unfolding rw_write
  rw_write-Overwrites limit s key off bs y =
      let no_null : no_buffer (length bs) true ≡ false = ground arith in
      let whole : take (length bs) bs ≡ bs = take-all bs in
      elim (Bool-cases (key_ok (some key))) [
        | inr bad ↦ rw (bad, rw_write) (invalid bad refl)
        | inl good ↦
            let w = rw_write_bytes-Wrote limit s key off bs y in
            rw (good, no_null, whole) (wrote w.status good w.reported w.overwrites)
      ]
