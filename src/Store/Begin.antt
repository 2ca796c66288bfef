-- ===== src/Store/Begin.antt =====
-- src/store.c: the part of a write under `toc_lk`, which ends with a pinned record.
use Prim.Native.String.{String}
use libspill.Base.{
  ℕ, ◌+◌, ◌*◌, ◌^◌, ◌≤◌, ◌<◌, ◌≡◌, ◌≢◌, refl, ◌⊎◌, inl, inr, true, false, ◌&&◌, Option, none, some,
  List, arith, ltb, if◌then◌else◌, Bool-cases, Option-cases, length, ap, sym, ◌∙◌,
}
use libspill.Alloc.{Extent}
use libspill.Toc.{Rec, key_eq, toc_find, toc_write}
use libspill.Toc.Chain.{key_eq_iff}
use libspill.Status.{Status, done, no_memory, wrong_mode}
use libspill.Os.{Os, IsPosix}
use libspill.Options.{is_shared}
use libspill.Scatter.{Place}
use libspill.Extents.{Space}
use libspill.Extents.Holding.{Holding, Fits, content}
use libspill.Spill.{lru_touch}
use libspill.Store.{Store, ls_report, is_done, touched, pin, place_of, find_or_insert}
use libspill.Store.Capacity.{ensure_cap}
use libspill.Store.Transfer.{
  Start, started, stretched, after_cap, with_capacity, frozen, is_short, begin_write,
}
use libspill.Store.Invariant.{
  IsStore, SameView, SameView-refl, SameView-trans, Updates, rec_size, rec_attr, rec_byte,
}
use libspill.Store.Replace.{Updates-Replaced}
use libspill.Store.Listed.{IsTier, IsTier-same, IsTier-touch}
use libspill.Store.Insert.{
  size_of, SameBytes, SameBytes-trans, SameView-SameBytes, Found, found, find_or_insert-Found,
}
use libspill.Store.Evict.{Bounded}
use libspill.Store.Evict.Loop.{IsReady}
use libspill.Store.Ensure.{Room, Ensured}
use libspill.Store.Ensure.Cap.{ensure_cap-Ensured}

-- `if (hi > size) size = hi`
abbrev pub max_size : ℕ → ℕ → ℕ
max_size size hi = if ltb size hi then hi else size

pub Fits-stretch :
    (o : Option (List ℕ)) (size hi : ℕ) (ext : List Extent)
    → Fits o size ext
    → Room o ext hi
    → Fits o (max_size size hi) ext
Fits-stretch none size hi ext f l = ground (arith, f, l)
Fits-stretch (some m) size hi ext f l = (ground (arith, f.0, l), λ p q. f.1 p (ground (arith, q)))

module _ (os : Os) (posix : IsPosix os) where
  -- A well-formed store in which a caller sees what it saw.
  pub record Unchanged (s u : Store os) (key : List ℕ) : Type 0 where
    pub store : IsStore os posix u
    pub tier : IsTier os u
    pub mine : SameBytes os posix s u key
    pub others : (j : List ℕ) → key_eq key j ≡ false → SameView os posix s u j

  pub ls_report-Unchanged :
      (s u : Store os) (e : Status) (k key : List ℕ) (off n : ℕ) (msg : String)
      → Unchanged s u key
      → Unchanged s (ls_report os u e k off n msg) key
  unfolding ls_report
  ls_report-Unchanged s u e k key off n msg w =
      elim (Bool-cases (u.opts.log && (if is_done e then false else true))) [
        | inr quiet ↦ rw quiet w
        | inl told ↦ rw told (record {
          store = record {
            table = w.store.table;
            sound = w.store.sound;
            live = w.store.live;
            holding = w.store.holding;
            disjoint = w.store.disjoint;
          };
          tier = record { apart = w.tier.apart; resident = w.tier.resident };
          mine = record { size = w.mine.size; attr = w.mine.attr; bytes = w.mine.bytes };
          others = λ j miss.
              let v = w.others j miss in record { size = v.size; attr = v.attr; bytes = v.bytes };
        })
      ]

  -- The record under `key` is pinned, has room up to `hi`, and shows its old bytes.
  pub record Pinned (s u : Store os) (key : List ℕ) (hi : ℕ) (p : Place) : Type 0 where
    pub store : IsStore os posix u
    pub tier : IsTier os u
    pub rec : Rec
    pub rec_key : rec.key ≡ key
    pub found : toc_find u.table rec.key ≡ some rec
    pub place : p ≡ place_of os rec
    pub busy : 0 < rec.busy
    pub size : rec.size ≡ max_size (size_of (toc_find s.table key)) hi
    pub attr : rec.attr ≡ rec_attr (toc_find s.table key)
    pub bytes :
        (x : ℕ)
        → content rec.mem rec.ext (os.byte_at u.space.file) x
          ≡ rec_byte (toc_find s.table key) (os.byte_at s.space.file) x
    pub others : (j : List ℕ) → key_eq key j ≡ false → SameView os posix s u j

  pub data Begins (s : Store os) (key : List ℕ) (hi : ℕ) (res : Store os × Start) : Type 0 where
    begun : (p : Place) → res.1 ≡ started p → Pinned s res.0 key hi p → Begins s key hi res
    stayed :
        (e : Status)
        → res.1 ≡ Start.refused e
        → e ≢ done
        → Unchanged s res.0 key
        → Begins s key hi res

  touched-same :
      (t : Store os) (r : Rec)
      → ((touched os t r).space ≡ t.space)
        × ((touched os t r).table ≡ t.table)
        × (((touched os t r).tier.lru ≡ t.tier.lru)
            ⊎ ((touched os t r).tier.lru ≡ lru_touch r.key t.tier.lru) × (r.mem ≢ none))
  touched-same t r = elim (Option-cases r.mem) [
    | inl e ↦ rw e (refl, refl, inl refl)
    | inr (m, e) ↦ rw e (refl, refl, inr (refl, λ z. cc))
  ]

  -- A record with the same bytes, in the same place, that has at least the size.
  stretch-Updates :
      (sp : Space os) (r : Rec) (hi : ℕ)
      → Holding os posix sp r
      → Room r.mem r.ext hi
      → Holding os posix sp (record (stretched os r hi) { busy = r.busy + 1 })
  stretch-Updates sp r hi h room = record {
    apart = h.apart;
    used = h.used;
    total = h.total;
    slots = h.slots;
    tail = λ p l. h.tail p (ground (arith, l));
    fits = Fits-stretch r.mem r.size hi r.ext h.fits room;
  }

  pub pin-Pinned :
      (s t : Store os) (key : List ℕ) (r : Rec) (hi : ℕ)
      → IsStore os posix t
      → IsTier os t
      → toc_find t.table r.key ≡ some r
      → r.key ≡ key
      → Room r.mem r.ext hi
      → SameBytes os posix s t key
      → ((j : List ℕ) → key_eq key j ≡ false → SameView os posix s t j)
      → Pinned s (pin os t (stretched os r hi)).0 key hi (pin os t (stretched os r hi)).1
  unfolding pin size_of rec_attr rec_byte
  pin-Pinned s t key r hi v l there k room mine others =
      let q = stretched os r hi in
      let r' = record q { busy = r.busy + 1 } in
      let u = (pin os t q).0 in
      let same = touched-same t q in
      let h' = stretch-Updates t.space r hi (v.holding r.key r there) room in
      let up : Updates os posix t.space r t.space r' = record {
        sound = v.sound;
        live = v.live;
        holding = h';
        key = refl;
        from = λ x i. ground (arith, i);
        in_use = λ x i. i;
        same = λ x i o. refl;
      } in
      let p =
        Updates-Replaced os posix t u r r' v there (ap (λ z. toc_write z r') same.1)
          (rw same.0 up) in
      let at : toc_find t.table key ≡ some r = ap (toc_find t.table) (sym k) ∙ there in
      record {
        store = p.store;
        tier = elim same.2 [
          | inl stay ↦ IsTier-same os posix t u r r' l p refl there stay (λ m. m)
          | inr (move, m) ↦ IsTier-touch os posix t u r r' l p refl there move m
        ];
        rec = r';
        rec_key = k;
        found = p.here;
        place = refl;
        busy = omega arith;
        size = ap (λ z. max_size z hi) (ap size_of (sym at) ∙ mine.size);
        attr = ap rec_attr (sym at) ∙ mine.attr;
        bytes = λ x.
            ap (λ (z : Space os). content r.mem r.ext (os.byte_at z.file) x) same.0
            ∙ ap (λ o. rec_byte o (os.byte_at t.space.file) x) (sym at)
            ∙ mine.bytes x;
        others = λ j miss.
            SameView-trans os posix s t u j (others j miss)
              (p.others j (ap (λ z. key_eq z j) k ∙ miss));
      }

  after_cap-Begins :
      (s t : Store os) (key : List ℕ) (off n : ℕ) (msg : String) (r : Rec) (hi : ℕ)
      (res : Store os × Rec × Option Status)
      → r.key ≡ key
      → SameBytes os posix s t key
      → ((j : List ℕ) → key_eq key j ≡ false → SameView os posix s t j)
      → Ensured os posix t r hi res
      → Begins s key hi (after_cap os key off n msg hi res)
  unfolding after_cap
  after_cap-Begins s t key off n msg r hi (u, q, none) k mine others e =
      absurd (let z = e.reported in cc)
  after_cap-Begins s t key off n msg r hi (u, q, some done) k mine others e =
      let d : e.status ≡ done = let z = e.reported in cc in
      let q_key : q.key ≡ key = ap (λ (z : Rec). z.key) e.others ∙ k in
      begun (pin os u (stretched os q hi)).1 refl (
        pin-Pinned s u key q hi e.store e.tier e.found q_key (e.room d)
          (SameBytes-trans os posix s t u key mine
            (SameView-SameBytes os posix t u key (e.view key)))
          (λ j miss. SameView-trans os posix s t u j (others j miss) (e.view j)))
  after_cap-Begins s t key off n msg r hi (u, q, some st) k mine others e =
      stayed st refl (λ d. cc)
        (ls_report-Unchanged s u st key key off n msg (record {
          store = e.store;
          tier = e.tier;
          mine =
              SameBytes-trans os posix s t u key mine
                (SameView-SameBytes os posix t u key (e.view key));
          others = λ j miss. SameView-trans os posix s t u j (others j miss) (e.view j);
        }))

  -- what the start of a write relies on
  pub record CanWrite (limit hi : ℕ) (s : Store os) : Type 0 where
    pub store : IsStore os posix s
    pub tier : IsTier os s
    pub bounded : Bounded os posix limit s
    pub small : limit ≤ 2 ^ 62
    pub reach : hi ≤ 2 ^ 62
    pub end : s.space.alloc.file_end + (length s.tier.lru + 1) * (limit + 4096) ≤ 2 ^ 62

  Bounded-found :
      (limit : ℕ) (s t : Store os) (key : List ℕ)
      → Bounded os posix limit s
      → SameBytes os posix s t key
      → ((j : List ℕ) → key_eq key j ≡ false → SameView os posix s t j)
      → Bounded os posix limit t
  unfolding size_of rec_size
  Bounded-found limit s t key b mine others j n e = elim (Bool-cases (key_eq key j)) [
    | inr miss ↦ b j n (sym (others j miss).size ∙ e)
    | inl hit ↦
        let same : key ≡ j = (key_eq_iff key j).0 hit in
        let e' : rec_size (toc_find t.table key) ≡ some n =
          ap (λ z. rec_size (toc_find t.table z)) same ∙ e in
        let size = size_of-some (toc_find t.table key) n e' in
        elim (Option-cases (toc_find s.table key)) [
          | inl gone ↦
              let z : size_of (toc_find s.table key) ≡ 0 = ap size_of gone in
              omega (arith, size, z, mine.size)
          | inr (r, there) ↦
              let z : size_of (toc_find s.table key) ≡ r.size = ap size_of there in
              let l = b key r.size (ap rec_size there) in omega (arith, size, z, mine.size, l)
        ]
  ]
    where
      size_of-some : (o : Option Rec) (m : ℕ) → rec_size o ≡ some m → size_of o ≡ m
      size_of-some none m q = absurd cc
      size_of-some (some r) m q = cc

  -- A store with the same place for its records and the same tier may be spilled as well.
  pub Found-IsReady :
      (limit hi : ℕ) (s t : Store os) (key : List ℕ)
      → CanWrite limit hi s
      → IsStore os posix t
      → IsTier os t
      → t.space ≡ s.space
      → t.tier ≡ s.tier
      → SameBytes os posix s t key
      → ((j : List ℕ) → key_eq key j ≡ false → SameView os posix s t j)
      → IsReady os posix limit t
        × (t.space.alloc.file_end + (length t.tier.lru + 1) * (limit + 4096) ≤ 2 ^ 62)
  Found-IsReady limit hi s t key y v l sp ti mine others =
      let end : t.space.alloc.file_end + (length t.tier.lru + 1) * (limit + 4096) ≤ 2 ^ 62 =
        rw (sp, ti) y.end in
      let rounds : (length t.tier.lru + 1) * (limit + 4096)
          ≡ length t.tier.lru * (limit + 4096) + (limit + 4096) =
        grind arith in
      (
        record {
          store = v;
          tier = l;
          bounded = Bounded-found limit s t key y.bounded mine others;
          end = omega (arith, end, rounds);
        },
        end,
      )

  pub with_capacity-Begins :
      (limit : ℕ) (s : Store os) (key : List ℕ) (off n : ℕ) (msg : String) (hi : ℕ)
      (res : Store os × Option Rec)
      → CanWrite limit hi s
      → Found os posix s key res
      → Begins s key hi (with_capacity os key off n msg hi res)
  unfolding with_capacity
  with_capacity-Begins limit s key off n msg hi (t, none) y
        (found r e k f v l sp ti mine others new) =
      absurd cc
  with_capacity-Begins limit s key off n msg hi (t, some q) y (Found.refused e v l view) = absurd cc
  with_capacity-Begins limit s key off n msg hi (t, none) y (Found.refused e v l view) =
      stayed no_memory refl (λ d. cc)
        (record {
          store = v;
          tier = l;
          mine = SameView-SameBytes os posix s t key (view key);
          others = λ j miss. view j;
        })
  with_capacity-Begins limit s key off n msg hi (t, some q) y
        (found r e k f v l sp ti mine others new) =
      let same : r ≡ q = cc in
      let ready = Found-IsReady limit hi s t key y v l sp ti mine others in
      rw (← same) (
        after_cap-Begins s t key off n msg r hi (ensure_cap os t r hi) k mine others
          (ensure_cap-Ensured os posix limit t r hi y.small ready.0 f y.reach ready.1))

  pub begin_write-Begins :
      (limit : ℕ) (s : Store os) (key : List ℕ) (off n off' n' : ℕ) (msg : String) (hi : ℕ)
      → CanWrite limit hi s
      → Begins s key hi (begin_write os key off n off' n' msg hi s)
  unfolding begin_write
  begin_write-Begins limit s key off n off' n' msg hi y =
      elim (Bool-cases (is_shared s.opts.parallel && is_short os (toc_find s.table key) hi)) [
        | inr free ↦ rw free (
            with_capacity-Begins limit s key off' n' msg hi (find_or_insert os s key) y
              (find_or_insert-Found os posix s key y.store y.tier))
        | inl stuck ↦ rw stuck (
            stayed wrong_mode refl (λ d. cc)
              (ls_report-Unchanged s s wrong_mode key key off n (frozen os) (record {
                store = y.store;
                tier = y.tier;
                mine = SameView-SameBytes os posix s s key (SameView-refl os posix s key);
                others = λ j miss. SameView-refl os posix s j;
              })))
      ]
