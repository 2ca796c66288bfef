-- ===== src/Store/Ensure/Cap.antt =====
-- src/store.c: the memory tier in `ensure_cap`, and all of it.
use libspill.Base.{
  sym, ℕ, zero, suc, ◌+◌, ◌-◌, ◌*◌, ◌^◌, ◌≤◌, ◌≡◌, refl, inl, inr, Bool, true, false, ◌&&◌, Option,
  none, some, List, [], ◌∷◌, ◌++◌, arith, ltb, leb, ◌==◌, if◌then◌else◌, Bool-cases, Option-cases,
  length, replicate, length-replicate, length-append, get_or, ap, ◌∙◌, ◌+₆₄◌, ◌-₆₄◌,
}
use libspill.Alloc.{Extent, granted}
use libspill.Alloc.Insert.{IsSound}
use libspill.Alloc.Shape.{in_holes}
use libspill.Toc.{Rec, toc_find}
use libspill.Toc.Chain.{key_eq_refl}
use libspill.Status.{done}
use libspill.Os.{Os, IsPosix}
use libspill.Scatter.Write.{logical, capacity}
use libspill.Extents.{Space, asked}
use libspill.Extents.Holding.{Holding, Moves, content, Fits}
use libspill.Store.{Store}
use libspill.Store.Capacity.{
  mem_bytes, mem_cap, is_resident, grow_mem, make_room, try_memory, in_memory, or_extents,
  ensure_cap,
}
use libspill.Store.Invariant.{IsStore, SameView-refl, rec_size}
use libspill.Store.Replace.{Moves-SameView}
use libspill.Store.Listed.{IsTier, IsTier-touch}
use libspill.Store.Evict.{Evicted, Evicted-none, is_held}
use libspill.Store.Evict.Loop.{IsReady, evict_to-Evicts}
use libspill.Store.Ensure.{Room, Ensured, Ensured-after, ensure_extents-Ensured, spill_then-Ensured}

get_or-zeros : (n p : ℕ) → get_or {A = ℕ} (replicate n 0) p 0 ≡ 0
get_or-zeros zero p = refl
get_or-zeros (suc n) zero = refl
get_or-zeros (suc n) (suc p) = get_or-zeros n p

-- new zeros at the end of a buffer do not show
get_or-padded : (m : List ℕ) (n p : ℕ) → get_or (m ++ replicate n 0) p 0 ≡ get_or m p 0
get_or-padded [] n p = get_or-zeros n p
get_or-padded (b ∷ m) n zero = refl
get_or-padded (b ∷ m) n (suc p) = get_or-padded m n p

none_listed : (es : List Extent) (n : ℕ) → length es ≤ n → n ≡ 0 → es ≡ []
none_listed [] n l z = refl
none_listed (e ∷ es) n l z = absurd (omega arith)

module _ (os : Os) (posix : IsPosix os) where
  -- the buffer of a record that has no extents
  grown_content :
      (o : Option (List ℕ)) (ext : List Extent) (size n : ℕ) (f : ℕ → ℕ)
      → ext ≡ []
      → Fits o size ext
      → let m = elim o as (λ x. List ℕ) [ none ↦ [] | some b ↦ b ] in
        Fits (some (m ++ replicate n 0)) size ext
        × ((p : ℕ) → content (some (m ++ replicate n 0)) ext f p ≡ content o ext f p)
  unfolding content capacity logical
  grown_content none ext size n f e l =
      let z : size ≡ 0 = let c : capacity ext ≡ 0 = rw e refl in omega (arith, c, l) in
      ((omega (arith, z), λ p q. get_or-zeros n p), λ p. rw e (get_or-zeros n p))
  grown_content (some m) ext size n f e l = (
    (
      let k = length-append m (replicate n 0) in omega (arith, k, l.0),
      λ p q. get_or-padded m n p ∙ l.1 p q,
    ),
    λ p. get_or-padded m n p,
  )

  grow_mem-Moves :
      (s : Space os) (r : Rec) (n : ℕ)
      → IsSound s.alloc
      → s.alloc.teardown ≡ false
      → Holding os posix s r
      → r.ncap ≡ 0
      → Moves os posix s r (asked os s) (record r { mem = some (mem_bytes os r ++ replicate n 0) })
  grow_mem-Moves s r n v live h z =
      let bare = none_listed r.ext r.ncap h.slots z in
      let g = grown_content r.mem r.ext r.size n (os.byte_at s.file) bare h.fits in
      record {
        sound = record { sorted = v.sorted; word = v.word };
        live = live;
        holding = record {
          apart = h.apart;
          used = h.used;
          total = h.total;
          slots = h.slots;
          tail = h.tail;
          fits = g.0;
        };
        others = refl;
        from = λ x i. ground (arith, i);
        in_use = λ x u. u;
        same = λ x u o. refl;
        reads = g.1;
      }

  grow_mem-Ensured :
      (s : Store os) (r : Rec) (need : ℕ)
      → IsStore os posix s
      → IsTier os s
      → toc_find s.table r.key ≡ some r
      → r.ncap ≡ 0
      → Ensured os posix s r need ((grow_mem os s r need).0, (grow_mem os s r need).1, some done)
  unfolding grow_mem
  grow_mem-Ensured s r need v t found z =
      let n = need - mem_cap os r in
      let m = grow_mem-Moves s.space r n v.sound v.live (v.holding r.key r found) z in
      let r' = record r { mem = some (mem_bytes os r ++ replicate n 0) } in
      let u = (grow_mem os s r need).0 in
      let p = Moves-SameView os posix s u r r' v found refl m in
      let len : length (mem_bytes os r) ≡ mem_cap os r = mem_len r.mem in
      record {
        status = done;
        reported = refl;
        store = p.0.store;
        tier = IsTier-touch os posix s u r r' t p.0 refl found refl (λ e. cc);
        view = p.1;
        found = p.0.here;
        others = refl;
        backed = λ d a b x i.
            absurd (let z : in_holes [] x ≡ true = ap (λ es. in_holes es x) (sym b) ∙ i in cc);
        room = λ d.
            let l = length-append (mem_bytes os r) (replicate n 0) in
            let k = length-replicate {A = ℕ} n 0 in omega (arith, l, k, len);
      }
    where
      mem_len :
          (o : Option (List ℕ))
          → length (elim o as (λ x. List ℕ) [ none ↦ [] | some b ↦ b ])
            ≡ elim o as (λ x. ℕ) [ none ↦ 0 | some b ↦ length b ]
      mem_len none = refl
      mem_len (some b) = refl

  -- The memory tier took the record, or records were spilled in vain.
  data Tried (limit rounds : ℕ) (s : Store os) (r : Rec) (need : ℕ) (res : Store os × Option Rec)
      : Type 0 where
    took :
        (r' : Rec)
        → res.1 ≡ some r'
        → Ensured os posix s r need (res.0, r', some done)
        → Tried limit rounds s r need res
    left :
        res.1 ≡ none
        → Evicted os posix limit rounds (some r.key) s res.0
        → Tried limit rounds s r need res

  asked-Evicted :
      (limit rounds : ℕ) (keep : Option (List ℕ)) (s t : Store os)
      → Evicted os posix limit rounds keep s t
      → Evicted os posix limit rounds keep s (record t { space = asked os t.space })
  asked-Evicted limit rounds keep s t e = record {
    store = record {
      table = e.store.table;
      sound = record { sorted = e.store.sound.sorted; word = e.store.sound.word };
      live = e.store.live;
      holding = λ key r f.
          let h = e.store.holding key r f in
          record {
            apart = h.apart;
            used = h.used;
            total = h.total;
            slots = h.slots;
            tail = h.tail;
            fits = h.fits;
          };
      disjoint = e.store.disjoint;
    };
    counted = e.counted;
    tier = record { apart = e.tier.apart; resident = e.tier.resident };
    view = λ j. let w = e.view j in record { size = w.size; attr = w.attr; bytes = w.bytes };
    end = e.end;
    pinned = e.pinned;
  }

  kept-is_held : (r : Rec) → is_held os (some r.key) r ≡ true
  kept-is_held r = let e = key_eq_refl r.key in ground (arith, e)

  try_memory-Tried :
      (limit rounds : ℕ) (s t : Store os) (r : Rec) (need : ℕ)
      → Evicted os posix limit rounds (some r.key) s t
      → toc_find s.table r.key ≡ some r
      → r.ncap ≡ 0
      → Tried limit rounds s r need (try_memory os t r need)
  unfolding try_memory
  try_memory-Tried limit rounds s t r need e found z =
      elim (Bool-cases (leb (t.tier.resident -₆₄ mem_cap os r +₆₄ need) t.opts.memory_budget)) [
        | inr over ↦ rw over (left refl e)
        | inl within ↦ elim (Bool-cases (granted t.space.alloc.grants)) [
          | inr refused ↦
              rw (within, refused) (left refl (asked-Evicted limit rounds (some r.key) s t e))
          | inl given ↦
              let here = e.pinned r found (kept-is_held r) in
              rw (within, given)
                (took (grow_mem os t r need).1 refl (
                  Ensured-after os posix s t r r need _ e.view refl (λ a b. (a, b))
                    (grow_mem-Ensured t r need e.store e.tier here z)))
        ]
      ]

  module _ (limit : ℕ) (s : Store os) (r : Rec) (need : ℕ) (small : limit ≤ 2 ^ 62)
      (y : IsReady os posix limit s) where
    make_room-Evicted :
        Evicted os posix limit (length s.tier.lru) (some r.key) s (make_room os s r need)
    unfolding make_room
    make_room-Evicted =
        let over = ltb s.opts.memory_budget (s.tier.resident -₆₄ mem_cap os r +₆₄ need) in
        let budget = s.opts.memory_budget -₆₄ need +₆₄ mem_cap os r in
        elim (Bool-cases over) [
          | inr fits ↦
              rw fits
                (Evicted-none os posix limit (length s.tier.lru) (some r.key) s y.store y.tier)
          | inl full ↦
              rw full ((evict_to-Evicts os posix s budget limit (some r.key) small y).evicted)
        ]

    in_memory-Tried :
        toc_find s.table r.key ≡ some r
        → Tried limit (length s.tier.lru) s r need (in_memory os s r need)
    unfolding in_memory
    in_memory-Tried found =
        let none_left =
          Evicted-none os posix limit (length s.tier.lru) (some r.key) s y.store y.tier in
        elim (Bool-cases
          (ltb 0 s.opts.memory_budget && r.ncap == 0 && leb need s.opts.memory_budget)) [
            | inr outside ↦ rw outside (left refl none_left)
            | inl inside ↦
                let z : r.ncap ≡ 0 = ground (arith, inside) in
                rw inside (
                  try_memory-Tried limit (length s.tier.lru) s (make_room os s r need) r need
                    make_room-Evicted found z)
          ]

    or_extents-Ensured :
        (res : Store os × Option Rec)
        → toc_find s.table r.key ≡ some r
        → need ≤ 2 ^ 62
        → s.space.alloc.file_end + (length s.tier.lru + 1) * (limit + 4096) ≤ 2 ^ 62
        → r.size ≤ limit
        → Tried limit (length s.tier.lru) s r need res
        → Ensured os posix s r need (or_extents os need r res)
    or_extents-Ensured (t, some r') found l end b (took q e k) =
        let same : q ≡ r' = cc in rw (← same) k
    or_extents-Ensured (t, none) found l end b (took q e k) = absurd cc
    or_extents-Ensured (t, some r') found l end b (left e k) = absurd cc
    or_extents-Ensured (t, none) found l end b (left e k) =
        let here = k.pinned r found (kept-is_held r) in
        let n : (length s.tier.lru + 1) * (limit + 4096)
            ≡ length s.tier.lru * (limit + 4096) + (limit + 4096) =
          grind arith in
        elim (Option-cases r.mem) [
          | inl gone ↦
              let out : is_resident os r ≡ false =
                ap (λ o. elim o as (λ x. Bool) [ none ↦ false | some m ↦ true ]) gone in
              rw out (
                Ensured-after os posix s t r r need _ k.view refl (λ a b. (a, b))
                  (ensure_extents-Ensured os posix t r need k.store k.tier here gone l
                    (omega (arith, end, k.end, n))))
          | inr (m, there) ↦
              let mine : is_resident os r ≡ true =
                ap (λ o. elim o as (λ x. Bool) [ none ↦ false | some b ↦ true ]) there in
              rw mine (
                Ensured-after os posix s t r r need _ k.view refl (λ a b. (a, b))
                  (spill_then-Ensured os posix t r need k.store k.tier here (λ z. cc) l
                    (omega (arith, end, k.end, n, b))))
        ]

    -- For a well-formed store whose records have at most `limit` bytes, with `limit` and the request at
    -- most 2 ^ 62 and room for spilling every record below 2 ^ 62, a record of its table, and on a POSIX
    -- kernel: `ensure_cap` ends with a status. Whatever the status, the store is well formed, every key
    -- shows the same size, attribute and bytes, and the record that is returned stands in the table and
    -- differs from the old one in nothing but its place. On success its place, the buffer or the
    -- extents, has room for the request.
    pub ensure_cap-Ensured :
        toc_find s.table r.key ≡ some r
        → need ≤ 2 ^ 62
        → s.space.alloc.file_end + (length s.tier.lru + 1) * (limit + 4096) ≤ 2 ^ 62
        → Ensured os posix s r need (ensure_cap os s r need)
    unfolding ensure_cap rec_size
    ensure_cap-Ensured found l end =
        let b : r.size ≤ limit = y.bounded r.key r.size (ap rec_size found) in
        let rest =
          or_extents-Ensured (in_memory os s r need) found l end b (in_memory-Tried found) in
        elim (Bool-cases
          (if is_resident os r then leb need (mem_cap os r) else leb need r.ext_total)) [
            | inr short ↦ rw short rest
            | inl ready ↦ rw ready (record {
              status = done;
              reported = refl;
              store = y.store;
              tier = y.tier;
              view = SameView-refl os posix s;
              found = found;
              others = refl;
              backed = λ d a b x i.
                  absurd
                    (let z : in_holes [] x ≡ true = ap (λ es. in_holes es x) (sym b) ∙ i in cc);
              room = λ d. has_room r.mem r.ext (y.store.holding r.key r found).total ready;
            })
          ]
      where
        has_room :
            (o : Option (List ℕ)) (ext : List Extent)
            → r.ext_total ≡ capacity ext
            → (if elim o as (λ x. Bool) [ none ↦ false | some m ↦ true ]
                then leb need (elim o as (λ x. ℕ) [ none ↦ 0 | some m ↦ length m ])
                else leb need r.ext_total)
              ≡ true
            → Room o ext need
        has_room none ext t h = ground (arith, h, t)
        has_room (some m) ext t h = ground (arith, h)
