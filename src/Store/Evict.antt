-- ===== src/Store/Evict.antt =====
-- src/store.c: what `ls_evict_to` leaves of a well-formed store.
pub mod Loop
use libspill.Base.{
  ℕ, zero, suc, ◌+◌, ◌-◌, ◌*◌, ◌^◌, ◌≤◌, ◌<◌, ◌≡◌, ◌≢◌, refl, ◌⊎◌, inl, inr, Bool, true, false,
  ◌||◌, Option, none, some, List, [], ◌∷◌, arith, ltb, leb, if◌then◌else◌, Bool-cases, Option-cases,
  length, ap, sym, ◌∙◌,
}
use libspill.Toc.{Rec, key_eq, toc_find}
use libspill.Toc.Chain.{key_eq_iff, key_eq_refl}
use libspill.Status.{Status, done}
use libspill.Os.{Os, IsPosix}
use libspill.Extents.{Space}
use libspill.Spill.{Tier, spill, lru_drop}
use libspill.Spill.Laws.{Spills, spill-Spills}
use libspill.Spill.Lru.{
  has_key, are_distinct, has_key-lru_drop, are_distinct-lru_drop, length-lru_drop,
}
use libspill.Store.{Store, put}
use libspill.Store.Capacity.{
  is_kept, evictable, victim, with_spill, spill_rec, and_evict, evict_one, evict_loop, evict_to,
}
use libspill.Store.Invariant.{
  IsStore, SameView, SameView-refl, SameView-trans, rec_size, toc_find-key,
}
use libspill.Store.Listed.{rec_mem, mem_here, mem_before, IsTier, IsTier-same, IsTier-drop}
use libspill.Store.Counted.{Counted, listed_bytes, listed_bytes-agree, listed_bytes-lru_drop}
use libspill.Store.Replace.{Replaced, Moves-SameView}

module _ (os : Os) where
  -- the record may not be evicted
  abbrev pub is_held : Option (List ℕ) → Rec → Bool
  is_held keep r = is_kept os keep r.key || ltb 0 r.busy

  pub record IsVictim (s : Store os) (keep : Option (List ℕ)) (keys : List (List ℕ)) (r : Rec)
      : Type 0 where
    pub listed : has_key r.key keys ≡ true
    pub found : toc_find s.table r.key ≡ some r
    pub loose : is_held keep r ≡ false

  evictable-IsVictim :
      (s : Store os) (keep : Option (List ℕ)) (key : List ℕ) (keys : List (List ℕ)) (r : Rec)
      → evictable os s keep key ≡ some r
      → IsVictim s keep (key ∷ keys) r
  unfolding evictable has_key
  evictable-IsVictim s keep key keys r e = elim (Option-cases (toc_find s.table key)) [
    | inl gone ↦ let no : none ≡ some r = rw (gone, evictable) at e in absurd cc
    | inr (q, there) ↦
        let t : (if is_kept os keep key || ltb 0 q.busy then none else some q) ≡ some r =
          rw (there, evictable) at e in
        let q_key : q.key ≡ key = toc_find-key s.table key q there in
        elim (Bool-cases (is_kept os keep key || ltb 0 q.busy)) [
          | inl held ↦ let no : none ≡ some r = rw held at t in absurd cc
          | inr loose ↦
              let yes : some q ≡ some r = rw loose at t in
              let same : q ≡ r = cc in
              rw (← same) (record {
                listed = ground (arith, (key_eq_iff key q.key).1 (sym q_key));
                found = ap (toc_find s.table) q_key ∙ there;
                loose = ap (λ k. is_kept os keep k || ltb 0 q.busy) q_key ∙ loose;
              })
        ]
  ]

  pub victim-IsVictim :
      (s : Store os) (keep : Option (List ℕ)) (keys : List (List ℕ)) (r : Rec)
      → victim os s keep keys ≡ some r
      → IsVictim s keep keys r
  unfolding victim has_key
  victim-IsVictim s keep [] r e = absurd cc
  victim-IsVictim s keep (key ∷ keys) r e = elim (Option-cases (victim os s keep keys)) [
    | inl none_later ↦ evictable-IsVictim s keep key keys r (rw none_later at e)
    | inr (q, later) ↦
        let e' : some q ≡ some r = rw later at e in
        let w = victim-IsVictim s keep keys r (later ∙ e') in
        record { listed = ground (arith, w.listed); found = w.found; loose = w.loose }
  ]

  evictable-none :
      (s : Store os) (keep : Option (List ℕ)) (r : Rec)
      → toc_find s.table r.key ≡ some r
      → evictable os s keep r.key ≡ none
      → is_held keep r ≡ true
  unfolding evictable
  evictable-none s keep r f e =
      let e' : (if is_held keep r then none else some r) ≡ none = rw (f, evictable) at e in
      elim (Bool-cases (is_held keep r)) [
        | inl held ↦ held
        | inr loose ↦ let z : some r ≡ none = rw loose at e' in absurd cc
      ]

  -- every record of the list is pinned or to be kept
  abbrev pub AllHeld : Store os → Option (List ℕ) → List (List ℕ) → Type 0
  AllHeld s keep keys =
      (r : Rec)
      → has_key r.key keys ≡ true
      → toc_find s.table r.key ≡ some r
      → is_held keep r ≡ true

  pub victim-none :
      (s : Store os) (keep : Option (List ℕ)) (keys : List (List ℕ))
      → victim os s keep keys ≡ none
      → AllHeld s keep keys
  unfolding victim has_key
  victim-none s keep [] e r i f = absurd cc
  victim-none s keep (key ∷ keys) e r i f = elim (Option-cases (victim os s keep keys)) [
    | inr (q, later) ↦ let z : some q ≡ none = rw later at e in absurd cc
    | inl none_later ↦
        let last : evictable os s keep key ≡ none = rw none_later at e in
        elim (Bool-cases (key_eq key r.key)) [
          | inl hit ↦
              let same : key ≡ r.key = (key_eq_iff key r.key).0 hit in
              evictable-none s keep r f (ap (evictable os s keep) (sym same) ∙ last)
          | inr miss ↦ victim-none s keep keys none_later r (ground (arith, i, miss)) f
        ]
  ]

  module _ (posix : IsPosix os) where
    -- no record has more than `limit` bytes
    abbrev pub Bounded : ℕ → Store os → Type 0
    Bounded limit s = (j : List ℕ) (n : ℕ) → rec_size (toc_find s.table j) ≡ some n → n ≤ limit

    -- Records were spilled, and only such as could be; `rounds` is how many at most.
    pub record Evicted (limit rounds : ℕ) (keep : Option (List ℕ)) (s u : Store os) : Type 0 where
      pub store : IsStore os posix u
      pub tier : IsTier os u
      pub view : (j : List ℕ) → SameView os posix s u j
      pub counted : Counted os s → Counted os u
      pub end : u.space.alloc.file_end ≤ s.space.alloc.file_end + rounds * (limit + 4096)
      pub pinned :
          (r : Rec)
          → toc_find s.table r.key ≡ some r
          → is_held keep r ≡ true
          → toc_find u.table r.key ≡ some r

    pub Evicted-none :
        (limit rounds : ℕ) (keep : Option (List ℕ)) (s : Store os)
        → IsStore os posix s
        → IsTier os s
        → Evicted limit rounds keep s s
    Evicted-none limit rounds keep s v t = record {
      store = v;
      tier = t;
      view = SameView-refl os posix s;
      counted = λ c. c;
      end = omega arith;
      pinned = λ r f h. f;
    }

    pub Evicted-trans :
        (limit a b : ℕ) (keep : Option (List ℕ)) (s t u : Store os)
        → Evicted limit a keep s t
        → Evicted limit b keep t u
        → Evicted limit (a + b) keep s u
    Evicted-trans limit a b keep s t u x y = record {
      store = y.store;
      tier = y.tier;
      view = λ j. SameView-trans os posix s t u j (x.view j) (y.view j);
      counted = λ c. y.counted (x.counted c);
      end =
          let d : (a + b) * (limit + 4096) ≡ a * (limit + 4096) + b * (limit + 4096) =
            grind arith in
          omega (arith, x.end, y.end, d);
      pinned = λ r f h. y.pinned r (x.pinned r f h) h;
    }

    pub Bounded-view :
        (limit : ℕ) (s u : Store os)
        → ((j : List ℕ) → SameView os posix s u j)
        → Bounded limit s
        → Bounded limit u
    Bounded-view limit s u v b j n e = b j n (sym ((v j).size) ∙ e)

    pub done-cases : (st : Status) → (st ≡ done) ⊎ (st ≢ done)
    done-cases done = inl refl
    done-cases st = inr (λ c. cc)

    -- One record of the LRU list is spilled, or the attempt fails.
    pub record SpillsOne (limit : ℕ) (keep : Option (List ℕ)) (s : Store os)
        (res : Store os × Rec × Option Status) : Type 0 where
      pub status : Status
      pub reported : res.2 ≡ some status
      pub evicted : Evicted limit 1 keep s res.0
      pub shorter : status ≡ done → length res.0.tier.lru + 1 ≡ length s.tier.lru

    module _ (limit : ℕ) (keep : Option (List ℕ)) (s : Store os) (r : Rec) (v : IsStore os posix s)
        (t : IsTier os s) (victim_r : IsVictim s keep s.tier.lru r)
        (bounded : Bounded limit s) where
      tier_after :
          (u : Store os) (r' : Rec) (st : Status)
          → Replaced os posix s u r'
          → r'.key ≡ r.key
          → (st ≡ done → u.tier.lru ≡ lru_drop r.key s.tier.lru)
          → (st ≢ done → (u.tier ≡ s.tier) × (r'.mem ≡ r.mem))
          → IsTier os u
      tier_after u r' st p k d n = elim (done-cases st) [
        | inl went ↦ IsTier-drop os posix s u r r' t p k victim_r.found (d went)
        | inr stays ↦
            IsTier-same os posix s u r r' t p k victim_r.found
              (ap (λ (z : Tier). z.lru) (n stays).0) (λ there gone. there (sym (n stays).1 ∙ gone))
      ]

      pinned_after :
          (u : Store os) (r' q : Rec)
          → Replaced os posix s u r'
          → r'.key ≡ r.key
          → toc_find s.table q.key ≡ some q
          → is_held keep q ≡ true
          → toc_find u.table q.key ≡ some q
      pinned_after u r' q p k f held = elim (Bool-cases (key_eq r'.key q.key)) [
        | inr miss ↦ p.elsewhere q.key miss ∙ f
        | inl hit ↦
            let same : r.key ≡ q.key = sym k ∙ (key_eq_iff r'.key q.key).0 hit in
            let both : some r ≡ some q = sym victim_r.found ∙ ap (toc_find s.table) same ∙ f in
            let r_q : r ≡ q = cc in
            let no : is_held keep q ≡ false = ap (is_held keep) (sym r_q) ∙ victim_r.loose in
            absurd cc
      ]

      resident_after :
          (u : Store os) (r' : Rec) (st : Status)
          → Replaced os posix s u r'
          → r'.key ≡ r.key
          → (st ≡ done → u.tier.lru ≡ lru_drop r.key s.tier.lru)
          → (st ≢ done → (u.tier ≡ s.tier) × (r'.mem ≡ r.mem))
          → ((m : List ℕ) (x : ℕ)
              → st ≡ done
              → r.mem ≡ some m
              → s.tier.resident ≡ x + length m
              → u.tier.resident ≡ x)
          → Counted os s
          → Counted os u
      unfolding rec_mem
      resident_after u r' st p k d n away c =
          let f = toc_find s.table in
          let g = toc_find u.table in
          let elsewhere : (j : List ℕ) → key_eq r.key j ≡ false → rec_mem (g j) ≡ rec_mem (f j) =
            λ j miss. ap rec_mem (p.elsewhere j (ap (λ z. key_eq z j) k ∙ miss)) in
          elim (done-cases st) [
            | inl went ↦ elim (Option-cases r.mem) [
              | inl gone ↦
                  absurd (t.resident r.key victim_r.listed (ap rec_mem victim_r.found ∙ gone))
              | inr (m, e) ↦
                  away m (listed_bytes g (lru_drop r.key s.tier.lru)) went e (
                    c
                    ∙ listed_bytes-lru_drop f g r.key m s.tier.lru t.apart victim_r.listed
                        (ap rec_mem victim_r.found ∙ e) elsewhere)
                  ∙ ap (listed_bytes g) (sym (d went))
            ]
            | inr stays ↦
                let (same, mem) = n stays in
                let here : (j : List ℕ) → rec_mem (g j) ≡ rec_mem (f j) = λ j.
                  elim (Bool-cases (key_eq r'.key j)) [
                    | inl hit ↦
                        mem_here os posix s u r r' t p k victim_r.found j hit
                        ∙ mem
                        ∙ sym (mem_before os posix s u r r' t p k victim_r.found j hit)
                    | inr miss ↦ ap rec_mem (p.elsewhere j miss)
                  ] in
                ap (λ (z : Tier). z.resident) same
                ∙ c
                ∙ sym (listed_bytes-agree f g s.tier.lru (λ j i. here j))
                ∙ ap (λ (z : Tier). listed_bytes g z.lru) (sym same)
          ]

      pub with_spill-SpillsOne :
          (res : Space os × Tier × Rec × Option Status)
          → Spills os posix s.space s.tier r res
          → SpillsOne limit keep s (with_spill os s res)
      unfolding rec_size rec_mem
      with_spill-SpillsOne (sp, ti, r', st) w =
          let u = put os (record s { space = sp; tier = ti }) r' in
          let p = Moves-SameView os posix s u r r' v victim_r.found refl w.moves in
          let k : r'.key ≡ r.key = ap (λ (z : Rec). z.key) w.moves.others in
          let b : r.size ≤ limit = bounded r.key r.size (ap rec_size victim_r.found) in
          let there : r.mem ≢ none =
            λ e. t.resident r.key victim_r.listed (ap rec_mem victim_r.found ∙ e) in
          let d = λ (z : w.status ≡ done). w.dropped z there in
          record {
            status = w.status;
            reported = w.reported;
            evicted = record {
              store = p.0.store;
              tier = tier_after u r' w.status p.0 k d w.kept;
              view = p.1;
              counted = resident_after u r' w.status p.0 k d w.kept w.released;
              end = omega (arith, w.end, b);
              pinned = λ q f h. pinned_after u r' q p.0 k f h;
            };
            shorter = λ z.
                ap (λ l. length l + 1) (d z) ∙ length-lru_drop r.key s.tier.lru victim_r.listed;
          }
