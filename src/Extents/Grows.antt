-- ===== src/Extents/Grows.antt =====
-- `ensure_extents` of src/store.c, all rounds.
use libspill.Base.{
  if◌then◌else◌, leb, ℕ, zero, suc, ◌+◌, ◌^◌, ◌≤◌, ◌<◌, ◌≡◌, refl, ◌≢◌, ◌⊎◌, inl, inr, false, ◌||◌,
  Option, none, some, List, [], ◌∷◌, ◌++◌, arith, ltb, Bool-cases, length, length-append, ap, sym,
  ◌∙◌, true,
}
use mathlib.Core.List.{append_assoc, append-nil}
use libspill.Alloc.{Extent}
use libspill.Alloc.Shape.{in_holes}
use libspill.Alloc.Insert.{IsSound}
use libspill.Toc.{Rec}
use libspill.Status.{Status, done}
use libspill.Os.{Os, IsPosix}
use libspill.Scatter.Write.{Separate, capacity}
use libspill.Extents.{Space, add_space, and_loop, ensure_loop, ensure_extents, max_extents}
use libspill.Extents.Push.{
  Grows, Extends, Grows-Extends, Keeps, Round, added, failed, round_of, add_space-RoundOf,
}

pub in_holes-append :
    (a b : List Extent) (x : ℕ) → in_holes (a ++ b) x ≡ in_holes a x || in_holes b x
in_holes-append [] b x = refl
in_holes-append (e ∷ a) b x = ground (arith, in_holes-append a b x)

pub capacity-append : (a b : List Extent) → capacity (a ++ b) ≡ capacity a + capacity b
unfolding capacity
capacity-append [] b = omega arith
capacity-append (e ∷ a) b = omega (arith, capacity-append a b)

pub Separate-append :
    (a b : List Extent)
    → Separate a
    → Separate b
    → ((x : ℕ) → in_holes a x ≡ true → in_holes b x ≡ false)
    → Separate (a ++ b)
Separate-append [] b v w d = w
Separate-append (e ∷ a) b v w d = (
  λ x q. in_holes-append a b x ∙ ground (arith, v.0 x q, d x, q),
  Separate-append a b v.1 w (λ x q. d x (ground (arith, q))),
)

module _ (os : Os) (posix : IsPosix os) where
  Grows-none :
      (s : Space os) (r : Rec)
      → IsSound s.alloc
      → s.alloc.teardown ≡ false
      → Grows os posix s r s r []
  Grows-none s r v live = record {
    sound = v;
    live = live;
    ext = sym (append-nil r.ext);
    apart = tt;
    others = refl;
    total = unfold capacity in omega arith;
    slots = λ l. l;
    was_free = λ x q. absurd cc;
    held = λ x. ground arith;
    zeros = λ x q. absurd cc;
    outside = λ x q. refl;
    longer = omega arith;
    backed = λ x q. absurd cc;
  }

  Grows-trans :
      (s t u : Space os) (r q w : Rec) (a b : List Extent)
      → Grows os posix s r t q a
      → Grows os posix t q u w b
      → Grows os posix s r u w (a ++ b)
  Grows-trans s t u r q w a b g h =
      let both = in_holes-append a b in
      record {
        sound = h.sound;
        live = h.live;
        ext = h.ext ∙ ap (λ l. l ++ b) g.ext ∙ append_assoc r.ext a b;
        others =
            h.others
            ∙ ap (λ (z : Rec). record z { ext = w.ext; ncap = w.ncap; ext_total = w.ext_total })
                g.others;
        total = omega (arith, g.total, h.total, capacity-append a b);
        slots = λ l. h.slots (g.slots l);
        apart =
            Separate-append a b g.apart h.apart (λ x q. ground (arith, q, h.was_free x, g.held x));
        was_free = λ x i. ground (arith, both x, i, g.was_free x, h.was_free x, g.held x);
        held = λ x. h.held x ∙ ground (arith, both x, g.held x);
        zeros = λ x i. elim (Bool-cases (in_holes b x)) [
          | inl late ↦ h.zeros x late
          | inr early ↦ h.outside x early ∙ g.zeros x (ground (arith, both x, i, early))
        ];
        outside = λ x i.
            h.outside x (ground (arith, both x, i)) ∙ g.outside x (ground (arith, both x, i));
        longer = omega (arith, g.longer, h.longer);
        backed = λ x i. elim (Bool-cases (in_holes b x)) [
          | inl late ↦ h.backed x late
          | inr early ↦
              let l = g.backed x (ground (arith, both x, i, early)) in omega (arith, l, h.longer)
        ];
      }

  Extends-after :
      (s t u : Space os) (r q w : Rec) (a b : List Extent)
      → Grows os posix s r t q a
      → Extends os posix t q u w b
      → Extends os posix s r u w (a ++ b)
  Extends-after s t u r q w a b g h =
      let both = in_holes-append a b in
      let k = Grows-Extends os posix s t r q a g in
      record {
        sound = h.sound;
        live = h.live;
        ext = h.ext ∙ ap (λ l. l ++ b) g.ext ∙ append_assoc r.ext a b;
        others =
            h.others
            ∙ ap (λ (z : Rec). record z { ext = w.ext; ncap = w.ncap; ext_total = w.ext_total })
                g.others;
        total = omega (arith, g.total, h.total, capacity-append a b);
        slots = λ l. h.slots (g.slots l);
        apart =
            Separate-append a b g.apart h.apart (λ x q. ground (arith, q, h.was_free x, g.held x));
        was_free = λ x i. ground (arith, both x, i, g.was_free x, h.was_free x, g.held x);
        not_free = λ x i. elim (Bool-cases (in_holes b x)) [
          | inl late ↦ h.not_free x late
          | inr early ↦ h.in_use x (k.not_free x (ground (arith, both x, i, early)))
        ];
        in_use = λ x i. h.in_use x (k.in_use x i);
        zeros = λ x i. elim (Bool-cases (in_holes b x)) [
          | inl late ↦ h.zeros x late
          | inr early ↦
              let a_x : in_holes a x ≡ true = ground (arith, both x, i, early) in
              h.same x (k.not_free x a_x) ∙ g.zeros x a_x
        ];
        same = λ x i. h.same x (k.in_use x i) ∙ k.same x i;
      }

  Extends-none : (s t : Space os) (r : Rec) → Keeps os posix s t → Extends os posix s r t r []
  Extends-none s t r k = record {
    sound = k.sound;
    live = k.live;
    ext = sym (append-nil r.ext);
    apart = tt;
    others = refl;
    total = unfold capacity in omega arith;
    slots = λ l. l;
    was_free = λ x q. absurd cc;
    not_free = λ x q. absurd cc;
    in_use = k.in_use;
    zeros = λ x q. absurd cc;
    same = k.same;
  }

  -- what the end of the file may move up by
  abbrev pub cost : Rec → ℕ → ℕ
  cost r need = if leb need r.ext_total then 0 else need + 4096

  -- How `ensure_extents` ends.
  pub data Ensures (s : Space os) (r : Rec) (need : ℕ) (res : Space os × Rec × Option Status)
      : Type 0 where
    grown :
        (new : List Extent)
        → res.2 ≡ some done
        → need ≤ res.1.ext_total
        → Grows os posix s r res.0 res.1 new
        → res.0.alloc.file_end ≤ s.alloc.file_end + cost r need
        → Ensures s r need res
    stopped :
        (new : List Extent) (st : Status)
        → res.2 ≡ some st
        → st ≢ done
        → Extends os posix s r res.0 res.1 new
        → res.0.alloc.file_end ≤ s.alloc.file_end + cost r need
        → Ensures s r need res

  Ensures-later :
      (s t : Space os) (r q : Rec) (need : ℕ) (a : List Extent)
      (res : Space os × Rec × Option Status)
      → Grows os posix s r t q a
      → t.alloc.file_end + cost q need ≤ s.alloc.file_end + cost r need
      → Ensures t q need res
      → Ensures s r need res
  Ensures-later s t r q need a res g l (grown new ok enough h end) =
      grown (a ++ new) ok enough (Grows-trans s t res.0 r q res.1 a new g h) (omega (arith, end, l))
  Ensures-later s t r q need a res g l (stopped new st e n k end) =
      stopped (a ++ new) st e n (Extends-after s t res.0 r q res.1 a new g k)
        (omega (arith, end, l))

  and_loop-Ensures :
      (s : Space os) (r : Rec) (need end : ℕ) (e : Extent)
      (loop : Space os → Rec → Space os × Rec × Option Status)
      (res : Space os × Rec × Option Status)
      → Round os posix s end r e res
      → end ≤ s.alloc.file_end + cost r need
      → ((t : Space os) (q : Rec)
          → Grows os posix s r t q (e ∷ [])
          → q.ext_total ≡ r.ext_total + e.len
          → t.alloc.file_end ≡ end
          → (t.alloc.file_end + cost q need ≤ s.alloc.file_end + cost r need)
            × Ensures t q need (loop t q))
      → Ensures s r need (and_loop os loop res)
  and_loop-Ensures s r need end e loop (t, q, some done) (added ok g total l) b next =
      let n = next t q g total l in Ensures-later s t r q need (e ∷ []) (loop t q) g n.0 n.1
  and_loop-Ensures s r need end e loop (t, q, some st) (added ok g total l) b next = absurd cc
  and_loop-Ensures s r need end e loop (t, q, none) (added ok g total l) b next = absurd cc
  and_loop-Ensures s r need end e loop (t, q, some done) (failed st c n old k l) b next =
      absurd (n cc)
  and_loop-Ensures s r need end e loop (t, q, some c) (failed st f n old k l) b next =
      stopped [] st f n (rw old (Extends-none s t r k)) (omega (arith, l, b))
  and_loop-Ensures s r need end e loop (t, q, none) (failed st f n old k l) b next = absurd cc

  ensure_loop-Ensures :
      (need fuel : ℕ) (s : Space os) (r : Rec)
      → IsSound s.alloc
      → s.alloc.teardown ≡ false
      → need ≤ 2 ^ 62
      → ((need ≤ r.ext_total)
          ⊎ (s.alloc.file_end ≤ 2 ^ 62) × (0 < fuel) × (max_extents ≤ fuel + length r.ext))
      → Ensures s r need (ensure_loop os need fuel s r)
  unfolding ensure_loop
  ensure_loop-Ensures need zero s r v live l m =
      let full : ltb r.ext_total need ≡ false = ground (arith, m) in
      rw full (grown [] refl (ground (arith, full)) (Grows-none s r v live) (omega arith))
  ensure_loop-Ensures need (suc fuel) s r v live l m = elim (Bool-cases (ltb r.ext_total need)) [
    | inr full ↦
        rw full (grown [] refl (ground (arith, full)) (Grows-none s r v live) (omega arith))
    | inl short ↦
        let b : s.alloc.file_end ≤ 2 ^ 62 = ground (arith, m, short) in
        let room : max_extents ≤ suc fuel + length r.ext = ground (arith, m, short) in
        let deficit_cost : cost r need ≡ need + 4096 = ground (arith, short) in
        rw short (elim (add_space-RoundOf os posix s r need v live (ground (arith, short)) l b) [
          | round_of a e o round ↦
              and_loop-Ensures s r need a.file_end e (ensure_loop os need fuel)
                (add_space os s r need) round (omega (arith, o.spent, deficit_cost))
                (λ t q g total end.
                  let more : length q.ext ≡ length r.ext + 1 =
                    ap length g.ext ∙ length-append r.ext (e ∷ []) in
                  elim o.enough [
                    | inl covers ↦
                        let full : need ≤ q.ext_total = ground (arith, total, short, covers) in
                        let free : cost q need ≡ 0 = ground (arith, full) in
                        (
                          omega (arith, end, o.spent, free, deficit_cost),
                          ensure_loop-Ensures need fuel t q g.sound g.live l (inl full),
                        )
                    | inr part ↦
                        let at_most : cost q need ≤ need + 4096 = ground arith in
                        (
                          omega (arith, end, part.1, at_most, deficit_cost),
                          ensure_loop-Ensures need fuel t q g.sound g.live l (
                              inr (
                                omega (arith, end, part.1, b),
                                omega (arith, part.0, room),
                                omega (arith, more, room),
                              )),
                        )
                  ])
        ])
  ]

  -- On a sound free list outside of teardown, for a request and an end of file of at most 2 ^ 62, and
  -- on a POSIX kernel: `ensure_extents` ends within eight rounds with a status. On success the extents
  -- cover the request; they are the old ones and then new ones, pairwise disjoint, whose bytes were
  -- free, are now in use, lie inside the file and read as zeros, and no other byte of the file or of
  -- the free space changed. On an error the free list is sound and every byte that was in use still
  -- is.
  pub ensure_extents-Ensures :
      (need : ℕ) (s : Space os) (r : Rec)
      → IsSound s.alloc
      → s.alloc.teardown ≡ false
      → need ≤ 2 ^ 62
      → s.alloc.file_end ≤ 2 ^ 62
      → Ensures s r need (ensure_extents os need s r)
  unfolding ensure_extents
  ensure_extents-Ensures need s r v live l b =
      ensure_loop-Ensures need max_extents s r v live l (inr (b, omega arith, omega arith))
