-- ===== src/Extents/Push.antt =====
-- One round of the growing of a record: zeroing the extent, and putting it on the list.
use libspill.Base.{
  ◌+₆₄◌, ap, ℕ, ◌+◌, ◌-◌, ◌^◌, ◌≤◌, ◌<◌, ◌≡◌, refl, ◌≢◌, inl, inr, Bool, true, false, not, ◌&&◌,
  Option, none, some, List, [], ◌∷◌, ◌++◌, arith, ◌==◌, Bool-cases, zero, suc, length,
  length-append, +₆₄-eq, ◌∙◌,
}
use libspill.Alloc.{Extent, Alloc, granted, later_grants, free_extents}
use libspill.Alloc.Shape.{in_range, in_holes}
use libspill.Alloc.Insert.{IsSound, is_free}
use libspill.Alloc.Handout.{Takes}
use libspill.Alloc.Release.{Holds, AtLeast, free_extents-Frees}
use libspill.Toc.{Rec}
use libspill.TocFile.{next_cap}
use libspill.Status.{Status, done, no_memory}
use libspill.Os.{Os, IsPosix, Done, success}
use libspill.Zero.{zero_range}
use libspill.Scatter.Write.{Separate, capacity}
use libspill.Zero.Laws.{Zeroed, zero_range-Zeroed}
use libspill.Zero.Outside.{zero_range-outside}
use libspill.Zero.Ends.{Ends, zero_range-Ends}
use libspill.Extents.{
  Space, asked, ext_retire, array_of, ext_push, after_cut, cut_file, settle, give_all_back,
  give_back, after_push, after_zero, add_space, obtain,
}
use libspill.Extents.Obtain.{Obtains, obtain-Obtains}
use libspill.Alloc.Take.{round_up-bounds}

-- An extent that was handed out lies inside the file.
Takes-in_file : (s : Alloc) (e : Extent) (t : Alloc) → Takes s e t → e.foff + e.len ≤ t.file_end
Takes-in_file s e t k = ground (arith, k.free (e.foff + e.len - 1), k.nonempty)

next_cap-lt : (n : ℕ) → n < next_cap n
next_cap-lt zero = omega arith
next_cap-lt (suc n) = ground arith

module _ (os : Os) (posix : IsPosix os) where
  -- Only the answers to requests for memory and the retired arrays differ.
  pub record SameSpace (s t : Space os) : Type 0 where
    pub file : t.file ≡ s.file
    pub fl : t.alloc.fl ≡ s.alloc.fl
    pub end : t.alloc.file_end ≡ s.alloc.file_end
    pub live : t.alloc.teardown ≡ s.alloc.teardown

  ext_retire-SameSpace :
      (s : Space os) (old : Option (List Extent)) → SameSpace s (ext_retire os s old).0
  unfolding ext_retire
  ext_retire-SameSpace s none = record { file = refl; fl = refl; end = refl; live = refl }
  ext_retire-SameSpace s (some old) = elim (Bool-cases (length s.retired == s.retcap)) [
    | inl full ↦ elim (Bool-cases (granted s.alloc.grants)) [
      | inl g ↦ rw (full, g) (record { file = refl; fl = refl; end = refl; live = refl })
      | inr g ↦ rw (full, g) (record { file = refl; fl = refl; end = refl; live = refl })
    ]
    | inr roomy ↦ rw roomy (record { file = refl; fl = refl; end = refl; live = refl })
  ]

  pub data Pushes (s : Space os) (r : Rec) (e : Extent) (res : Space os × Rec × Bool) : Type 0 where
    pushed :
        res.2 ≡ true
        → SameSpace s res.0
        → res.1.ext ≡ r.ext ++ e ∷ []
        → res.1.ext_total ≡ r.ext_total
        → res.1 ≡ record r { ext = res.1.ext; ncap = res.1.ncap }
        → (length r.ext ≤ r.ncap → length res.1.ext ≤ res.1.ncap)
        → Pushes s r e res
    refused : res.2 ≡ false → SameSpace s res.0 → res.1 ≡ r → Pushes s r e res

  pub ext_push-Pushes : (s : Space os) (r : Rec) (e : Extent) → Pushes s r e (ext_push os s r e)
  unfolding ext_push
  ext_push-Pushes s r e = elim (Bool-cases (length r.ext == r.ncap)) [
    | inr roomy ↦ rw roomy (
        pushed refl (record { file = refl; fl = refl; end = refl; live = refl }) refl refl refl
          (λ l. ground (arith, length-append r.ext (e ∷ []), roomy, l)))
    | inl full ↦ elim (Bool-cases (granted s.alloc.grants)) [
      | inr g ↦
          rw (full, g)
            (refused refl (record { file = refl; fl = refl; end = refl; live = refl }) refl)
      | inl g ↦
          let k = ext_retire-SameSpace (asked os s) (array_of os r) in
          let k' : SameSpace s (ext_retire os (asked os s) (array_of os r)).0 = record {
            file = k.file;
            fl = k.fl;
            end = k.end;
            live = k.live;
          } in
          elim (Bool-cases (ext_retire os (asked os s) (array_of os r)).1) [
            | inl ok ↦
                rw (full, g, ok)
                  (pushed refl k' refl refl refl (λ l.
                    ground (arith, length-append r.ext (e ∷ []), full, l, next_cap-lt r.ncap)))
            | inr no_room ↦ rw (full, g, no_room) (refused refl k' refl)
          ]
    ]
  ]

  -- The record grew by the extents `new`: formerly free space that now reads as zeros.
  pub record Grows (s : Space os) (r : Rec) (s' : Space os) (r' : Rec) (new : List Extent)
      : Type 0 where
    pub sound : IsSound s'.alloc
    pub live : s'.alloc.teardown ≡ false
    pub ext : r'.ext ≡ r.ext ++ new
    pub apart : Separate new
    pub others : r' ≡ record r { ext = r'.ext; ncap = r'.ncap; ext_total = r'.ext_total }
    pub total : r'.ext_total ≡ r.ext_total + capacity new
    pub slots : length r.ext ≤ r.ncap → length r'.ext ≤ r'.ncap
    pub was_free : (x : ℕ) → in_holes new x ≡ true → is_free s.alloc x ≡ true
    pub held : (x : ℕ) → is_free s'.alloc x ≡ is_free s.alloc x && not (in_holes new x)
    pub zeros : (x : ℕ) → in_holes new x ≡ true → os.byte_at s'.file x ≡ 0
    pub outside : (x : ℕ) → in_holes new x ≡ false → os.byte_at s'.file x ≡ os.byte_at s.file x
    pub longer : os.size s.file ≤ os.size s'.file
    pub backed : (x : ℕ) → in_holes new x ≡ true → x < os.size s'.file

  -- After an error the free list is sound, and what was in use still is, with its bytes.
  pub record Keeps (s s' : Space os) : Type 0 where
    pub sound : IsSound s'.alloc
    pub live : s'.alloc.teardown ≡ false
    pub in_use : (x : ℕ) → is_free s.alloc x ≡ false → is_free s'.alloc x ≡ false
    pub same : (x : ℕ) → is_free s.alloc x ≡ false → os.byte_at s'.file x ≡ os.byte_at s.file x

  -- The record grew by `new`, formerly free space that now reads as zeros; what was in use still is,
  -- with its bytes. So an attempt ends, however it ends.
  pub record Extends (s : Space os) (r : Rec) (s' : Space os) (r' : Rec) (new : List Extent)
      : Type 0 where
    pub sound : IsSound s'.alloc
    pub live : s'.alloc.teardown ≡ false
    pub ext : r'.ext ≡ r.ext ++ new
    pub apart : Separate new
    pub others : r' ≡ record r { ext = r'.ext; ncap = r'.ncap; ext_total = r'.ext_total }
    pub total : r'.ext_total ≡ r.ext_total + capacity new
    pub slots : length r.ext ≤ r.ncap → length r'.ext ≤ r'.ncap
    pub was_free : (x : ℕ) → in_holes new x ≡ true → is_free s.alloc x ≡ true
    pub not_free : (x : ℕ) → in_holes new x ≡ true → is_free s'.alloc x ≡ false
    pub in_use : (x : ℕ) → is_free s.alloc x ≡ false → is_free s'.alloc x ≡ false
    pub zeros : (x : ℕ) → in_holes new x ≡ true → os.byte_at s'.file x ≡ 0
    pub same : (x : ℕ) → is_free s.alloc x ≡ false → os.byte_at s'.file x ≡ os.byte_at s.file x

  pub Grows-Extends :
      (s t : Space os) (r q : Rec) (new : List Extent) → Grows s r t q new → Extends s r t q new
  Grows-Extends s t r q new g = record {
    sound = g.sound;
    live = g.live;
    ext = g.ext;
    apart = g.apart;
    others = g.others;
    total = g.total;
    slots = g.slots;
    was_free = g.was_free;
    not_free = λ x i. g.held x ∙ ground (arith, i);
    in_use = λ x i. g.held x ∙ ground (arith, i);
    zeros = g.zeros;
    same = λ x i. g.outside x (ground (arith, g.was_free x, i));
  }

  pub data Round (s : Space os) (end : ℕ) (r : Rec) (e : Extent)
      (res : Space os × Rec × Option Status) : Type 0 where
    added :
        res.2 ≡ some done
        → Grows s r res.0 res.1 (e ∷ [])
        → res.1.ext_total ≡ r.ext_total + e.len
        → res.0.alloc.file_end ≡ end
        → Round s end r e res
    failed :
        (st : Status)
        → res.2 ≡ some st
        → st ≢ done
        → res.1 ≡ r
        → Keeps s res.0
        → res.0.alloc.file_end ≤ end
        → Round s end r e res

  SameSpace-IsSound : (t u : Space os) → SameSpace t u → IsSound t.alloc → IsSound u.alloc
  SameSpace-IsSound t u same v = record {
    sorted = rw (same.fl, same.end) v.sorted;
    word = omega (arith, same.end, v.word);
  }

  SameSpace-is_free :
      (t u : Space os) → SameSpace t u → (x : ℕ) → is_free u.alloc x ≡ is_free t.alloc x
  SameSpace-is_free t u same x = rw (same.fl, same.end) refl

  -- A cut at or behind `n` leaves what lies before it.
  after_cut-same :
      (n m : ℕ) (errors : List (ℕ × ℕ)) (f : os.File) (r : os.File × Done) (x : ℕ)
      → os.ftruncate f m ≡ r
      → n ≤ m
      → x < n
      → os.byte_at (after_cut os m errors r).0 x ≡ os.byte_at f x
  after_cut-same n m errors f (g, success) x e h l =
      (posix.ftruncate_success f g m e).1 x ∙ ground (arith, h, l)
  after_cut-same n m errors f (g, Done.failed c) x e h l = (posix.ftruncate_failed f g m c e).1 x

  pub cut_file-same :
      (n : ℕ) (cuts : List ℕ) (f : os.File) (errors : List (ℕ × ℕ)) (x : ℕ)
      → AtLeast n cuts
      → x < n
      → os.byte_at (cut_file os cuts f errors).0 x ≡ os.byte_at f x
  unfolding cut_file
  cut_file-same n [] f errors x h l = refl
  cut_file-same n (m ∷ older) f errors x h l =
      let (g, told) = cut_file os older f errors in
      after_cut-same n m told g (os.ftruncate g m) x refl h.0 l
      ∙ cut_file-same n older f errors x h.1 l

  give_back-Keeps :
      (s t u : Space os) (e : Extent)
      → Takes s.alloc e t.alloc
      → t.alloc.teardown ≡ false
      → SameSpace t u
      → ((x : ℕ) → in_range e.foff e.len x ≡ false → os.byte_at t.file x ≡ os.byte_at s.file x)
      → Keeps s (give_back os u e) × ((give_back os u e).alloc.file_end ≤ t.alloc.file_end)
  give_back-Keeps s t u e k live same file =
      let a : Alloc = record u.alloc { cuts = [] } in
      let v0 = SameSpace-IsSound t u same k.sound in
      let v : IsSound a = record { sorted = v0.sorted; word = v0.word } in
      let free = SameSpace-is_free t u same in
      let h : Holds a e = record {
        data_area = k.data_area;
        nonempty = k.nonempty;
        not_free = λ x q. free x ∙ ground (arith, k.free x, q);
      } in
      let f = free_extents-Frees a (e ∷ []) v (same.live ∙ live) (h, tt, tt) in
      let b = free_extents a (e ∷ []) in
      let in_use : (x : ℕ) → is_free s.alloc x ≡ false → is_free b x ≡ false =
        λ x q. ground (arith, f.only x, free x, k.free x, k.was_free x, q) in
      unfold give_all_back settle in
      (
        record {
          sound = record { sorted = f.sound.sorted; word = f.sound.word };
          live = f.live ∙ (same.live ∙ live);
          in_use = in_use;
          same = λ x q.
              cut_file-same b.file_end b.cuts u.file u.cut_errors x (f.cuts tt)
                (ground (arith, in_use x q))
              ∙ ap (λ (g : os.File). os.byte_at g x) same.file
              ∙ file x (ground (arith, k.was_free x, q));
        },
        omega (arith, f.shorter, same.end),
      )

  after_push-Round :
      (s t : Space os) (r : Rec) (e : Extent) (res : Space os × Rec × Bool)
      → Takes s.alloc e t.alloc
      → t.alloc.teardown ≡ false
      → Zeroed os posix s.file e.foff e.len t.file
      → r.ext_total + e.len < 2 ^ 64
      → Pushes t r e res
      → Round s t.alloc.file_end r e (after_push os e res)
  after_push-Round s t r e (u, q, true) k live z b (pushed ok same ext total others slots) =
      let sum = +₆₄-eq q.ext_total e.len (omega (arith, total)) in
      let free = SameSpace-is_free t u same in
      added refl
        (record {
          sound = SameSpace-IsSound t u same k.sound;
          live = same.live ∙ live;
          ext = ext;
          apart = ((λ x q. refl), tt);
          others = ap (λ (z : Rec). record z { ext_total = q.ext_total +₆₄ e.len }) others;
          total = unfold capacity in omega (arith, sum, total);
          slots = slots;
          was_free = λ x i. k.was_free x (ground (arith, i));
          held = λ x. free x ∙ ground (arith, k.free x);
          zeros = λ x i. rw same.file (z.zeros x (ground (arith, i)));
          outside = λ x i. rw same.file (z.outside x (ground (arith, i)));
          longer = rw same.file z.longer;
          backed = λ x i. rw same.file (ground (arith, i, z.reach k.nonempty));
        })
        (omega (arith, sum, total)) same.end
  after_push-Round s t r e (u, q, true) k live z b (refused no_room same old) = absurd cc
  after_push-Round s t r e (u, q, false) k live z b (pushed ok same ext total others slots) =
      absurd cc
  after_push-Round s t r e (u, q, false) k live z b (refused no_room same old) =
      let b = give_back-Keeps s t u e k live same z.outside in
      failed no_memory refl (λ c. cc) old b.0 b.1

  after_zero-Round :
      (s t : Space os) (r : Rec) (e : Extent) (zr : os.File × Option Status)
      → Takes s.alloc e t.alloc
      → t.alloc.teardown ≡ false
      → (zr.1 ≡ some done → Zeroed os posix s.file e.foff e.len zr.0)
      → ((x : ℕ) → in_range e.foff e.len x ≡ false → os.byte_at zr.0 x ≡ os.byte_at s.file x)
      → r.ext_total + e.len < 2 ^ 64
      → Ends os posix zr
      → Round s t.alloc.file_end r e (after_zero os t r e zr)
  unfolding after_zero
  after_zero-Round s t r e (f, none) k live z out b (st, q) = absurd cc
  after_zero-Round s t r e (f, some done) k live z out b ends =
      let w = record t { file = f } in
      after_push-Round s w r e (ext_push os w r e) k live (z refl) b (ext_push-Pushes w r e)
  after_zero-Round s t r e (f, some st) k live z out b ends =
      let w = record t { file = f } in
      let back =
        give_back-Keeps s w w e k live (record { file = refl; fl = refl; end = refl; live = refl })
          out in
      failed st refl (λ c. cc) refl back.0 back.1

  pub data RoundOf (s : Space os) (r : Rec) (need : ℕ) (res : Space os × Rec × Option Status)
      : Type 0 where
    round_of :
        (a : Alloc) (e : Extent)
        → Obtains s.alloc (length r.ext) (need - r.ext_total) a e
        → Round s a.file_end r e res
        → RoundOf s r need res

  pub add_space-RoundOf :
      (s : Space os) (r : Rec) (need : ℕ)
      → IsSound s.alloc
      → s.alloc.teardown ≡ false
      → r.ext_total < need
      → need ≤ 2 ^ 62
      → s.alloc.file_end ≤ 2 ^ 62
      → RoundOf s r need (add_space os s r need)
  unfolding add_space
  add_space-RoundOf s r need v live p l b =
      let deficit = need - r.ext_total in
      let o = obtain-Obtains s.alloc (length r.ext) deficit v (omega arith) (omega arith) b in
      let a = (obtain s.alloc (length r.ext) deficit).0 in
      let e = (obtain s.alloc (length r.ext) deficit).1 in
      let bound = round_up-bounds deficit (omega arith) in
      let t : Space os = record s { alloc = a; buffers = later_grants s.buffers } in
      let zr = zero_range os (granted s.buffers) s.file e.foff e.len in
      let inside : e.foff + e.len < 2 ^ 64 =
        omega (arith, Takes-in_file s.alloc e a o.takes, o.takes.sound.word) in
      round_of a e o (
        after_zero-Round s t r e zr o.takes (o.live ∙ live)
          (λ d.
            zero_range-Zeroed os posix (granted s.buffers) s.file e.foff e.len zr.0 inside
              (λ i. (zr.0, d i)))
          (λ x q. zero_range-outside os posix (granted s.buffers) s.file e.foff e.len x inside q)
          (ground (arith, o.size, bound))
          (zero_range-Ends os posix (granted s.buffers) s.file e.foff e.len))
