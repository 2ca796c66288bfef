-- ===== src/TocFile/Fields.antt =====
-- One record of the table of contents, written and read back.
use libspill.Base.{
  none, suc, sym, zero, suc, none, sym, ℕ, ◌+◌, ◌*◌, ◌^◌, ◌≤◌, ◌<◌, ◌≡◌, refl, inl, inr, Bool,
  false, ◌||◌, some, List, [], ◌∷◌, ◌++◌, arith, ltb, if◌then◌else◌, ◌==◌, length, take, drop,
  length-append, ◌+₆₄◌, +₆₄-eq, Bool-cases, ap, ◌∙◌,
}
use mathlib.Core.List.{append_assoc}
use libspill.Alloc.{Extent, super_size}
use libspill.Codec.{put32, put64}
use libspill.Codec.Laws.{get32-put32, get64-put64, length-put_bytes}
use libspill.Toc.{Rec, Table, key_max, attr_max, toc_insert, toc_write, fresh_rec}
use libspill.Status.{ok}
use libspill.TocFile.{
  put_extents, put_rec, c_string, add_extent, next_cap, load_extents, load_fields, load_inserted,
  load_one,
}

pub drop-append : (a b : List ℕ) → drop (length a) (a ++ b) ≡ b
drop-append [] b = refl
drop-append (x ∷ a) b = drop-append a b

pub take-append : (a b : List ℕ) → take (length a) (a ++ b) ≡ a
take-append [] b = refl
take-append (x ∷ a) b = ap (λ t. x ∷ t) (take-append a b)

-- no byte of a key is the NUL that ends it
abbrev pub NoNul : List ℕ → Type 0
NoNul [] = Unit {0}
NoNul (b ∷ bs) = (0 < b) × NoNul bs

pub c_string-eq : (k : List ℕ) → NoNul k → c_string k ≡ k
unfolding c_string
c_string-eq [] h = refl
c_string-eq (b ∷ bs) h = ground (arith, c_string-eq bs h.1)

-- Every extent lies between the superblock and the end of the file.
abbrev pub InFile : ℕ → List Extent → Type 0
InFile file_end [] = Unit {0}
InFile file_end (e ∷ es) = (super_size ≤ e.foff) × (e.foff + e.len ≤ file_end) × InFile file_end es

-- A record that the file format can hold.
pub record Storable (file_end : ℕ) (r : Rec) : Type 0 where
  pub key_some : 0 < length r.key
  pub key_short : length r.key ≤ key_max
  pub key_text : NoNul r.key
  pub size_word : r.size < 2 ^ 64
  pub attr_short : length r.attr ≤ attr_max
  pub few : length r.ext < 2 ^ 32
  pub in_file : InFile file_end r.ext

-- What the reader makes of the extents, starting from the record `q`.
unfoldable pub reload : List Extent → Rec → Rec
reload [] q = q
reload (x ∷ es) q =
    reload es (add_extent q x (if length q.ext == q.ncap then next_cap q.ncap else q.ncap))

-- the capacity after `n` more extents, where `used` slots of `cap` are taken
abbrev pub slots_for : ℕ → ℕ → ℕ → ℕ
slots_for used zero cap = cap
slots_for used (suc n) cap = slots_for (suc used) n (if used == cap then next_cap cap else cap)

-- the lengths of the extents added up in 64 bits, from `sum` on
abbrev pub total_len : ℕ → List Extent → ℕ
total_len sum [] = sum
total_len sum (e ∷ es) = total_len (sum +₆₄ e.len) es

-- The record as another process finds it: its key, size, attribute and extents are the same, with
-- nothing in memory, mapped or busy.
unfoldable pub persisted : Rec → Rec
persisted r = record {
  key = r.key;
  size = r.size;
  mem = none;
  busy = 0;
  attr = r.attr;
  map = none;
  ext = r.ext;
  ncap = slots_for 0 (length r.ext) 0;
  ext_total = total_len 0 r.ext;
}

append_nil : (es : List Extent) → es ++ [] ≡ es
append_nil [] = refl
append_nil (e ∷ es) = ap (λ z. e ∷ z) (append_nil es)

reload-eq :
    (es : List Extent) (q : Rec)
    → reload es q ≡ record q {
      ext = q.ext ++ es;
      ncap = slots_for (length q.ext) (length es) q.ncap;
      ext_total = total_len q.ext_total es;
    }
unfolding reload add_extent
reload-eq [] q = ap (λ z. record q { ext = z }) (sym (append_nil q.ext))
reload-eq (x ∷ es) q =
    let cap = if length q.ext == q.ncap then next_cap q.ncap else q.ncap in
    let one : length (q.ext ++ x ∷ []) ≡ suc (length q.ext) =
      omega (arith, length-append q.ext (x ∷ [])) in
    reload-eq es (add_extent q x cap)
    ∙ ap
        (λ z. record q {
          ext = z;
          ncap = slots_for (length (q.ext ++ x ∷ [])) (length es) cap;
          ext_total = total_len (q.ext_total +₆₄ x.len) es;
        })
        (append_assoc q.ext (x ∷ []) es)
    ∙ ap
        (λ z. record q {
          ext = q.ext ++ x ∷ es;
          ncap = slots_for z (length es) cap;
          ext_total = total_len (q.ext_total +₆₄ x.len) es;
        })
        one

-- From a new record, the reader makes what is persistent.
pub reload-persisted :
    (r : Rec)
    → reload r.ext (record (fresh_rec r.key) { size = r.size; attr = r.attr }) ≡ persisted r
unfolding persisted
reload-persisted r = reload-eq r.ext (record (fresh_rec r.key) { size = r.size; attr = r.attr })

pub length-put64 : (v : ℕ) → length (put64 v) ≡ 8
unfolding put64
length-put64 v = length-put_bytes 8 v

pub length-put32 : (v : ℕ) → length (put32 v) ≡ 4
unfolding put32
length-put32 v = length-put_bytes 4 v

pub length-put_extents : (es : List Extent) → length (put_extents es) ≡ length es * 16
unfolding put_extents
length-put_extents [] = refl
length-put_extents (e ∷ es) = omega (
  arith,
  length-append (put64 e.foff) (put64 e.len ++ put_extents es),
  length-append (put64 e.len) (put_extents es),
  length-put64 e.foff,
  length-put64 e.len,
  length-put_extents es,
)

load_extents-put :
    (file_end : ℕ) (es : List Extent) (rest : List ℕ) (q : Rec)
    → file_end < 2 ^ 64
    → InFile file_end es
    → load_extents file_end (length es) (put_extents es ++ rest) q [] ≡ ok (rest, reload es q, [])
unfolding load_extents put_extents reload
load_extents-put file_end [] rest q b h = refl
load_extents-put file_end (e ∷ es) rest q b h =
    let tail = put_extents es ++ rest in
    let shape : (put64 e.foff ++ (put64 e.len ++ put_extents es)) ++ rest
        ≡ put64 e.foff ++ (put64 e.len ++ tail) =
      append_assoc (put64 e.foff) (put64 e.len ++ put_extents es) rest
      ∙ ap (λ t. put64 e.foff ++ t) (append_assoc (put64 e.len) (put_extents es) rest) in
    let (f, f') = get64-put64 e.foff (put64 e.len ++ tail) (omega arith) in
    let (l, l') = get64-put64 e.len tail (omega arith) in
    let sum = +₆₄-eq e.foff e.len (omega arith) in
    let low : ltb e.foff super_size ≡ false = ground arith in
    let high : ltb file_end (e.foff +₆₄ e.len) ≡ false = ground (arith, sum) in
    rw (shape, f, f', l, l', low, high)
      (elim (Bool-cases (length q.ext == q.ncap)) [
        | inl full ↦
            rw full (load_extents-put file_end es rest (add_extent q e (next_cap q.ncap)) b h.2)
        | inr roomy ↦ rw roomy (load_extents-put file_end es rest (add_extent q e q.ncap) b h.2)
      ])

-- Two appends at the front of a field's bytes, regrouped.
regroup : (a b c : List ℕ) → (a ++ b) ++ c ≡ a ++ (b ++ c)
regroup a b c = append_assoc a b c

fields_of : Rec → List ℕ → List ℕ
fields_of r rest =
    put64 r.size
    ++ (put32 (length r.attr) ++ (r.attr ++ (put32 (length r.ext) ++ (put_extents r.ext ++ rest))))

put_rec-fields :
    (r : Rec) (rest : List ℕ)
    → put_rec r ++ rest ≡ put32 (length r.key) ++ (r.key ++ fields_of r rest)
unfolding put_rec fields_of
put_rec-fields r rest = simp append_assoc

load_extents-of :
    (file_end : ℕ) (r q : Rec) (rest : List ℕ) (gs : List Bool)
    → file_end < 2 ^ 64
    → InFile file_end r.ext
    → gs ≡ []
    → load_extents file_end (length r.ext) (put_extents r.ext ++ rest) q gs
      ≡ ok (rest, reload r.ext q, [])
load_extents-of file_end r q rest gs b h g = rw g (load_extents-put file_end r.ext rest q b h)

load_fields-put :
    (file_end : ℕ) (t : Table) (q r : Rec) (rest : List ℕ)
    → file_end < 2 ^ 64
    → Storable file_end r
    → t.grants ≡ []
    → load_fields file_end t q (fields_of r rest)
      ≡ ok (
        toc_write
            (record t { grants = [] })
            (reload r.ext (record q { size = r.size; attr = r.attr })),
        rest,
      )
unfolding load_fields fields_of
load_fields-put file_end t q r rest b s g =
    let exts = put_extents r.ext ++ rest in
    let w3 = put32 (length r.ext) ++ exts in
    let w2 = r.attr ++ w3 in
    let w1 = put32 (length r.attr) ++ w2 in
    let (f, f') = get64-put64 r.size w1 s.size_word in
    let (a, a') = get32-put32 (length r.attr) w2 (omega (arith, s.attr_short)) in
    let (n, n') = get32-put32 (length r.ext) exts s.few in
    let l1 : ltb (length w1) 4 ≡ false =
      ground (arith, length-append (put32 (length r.attr)) w2, length-put32 (length r.attr)) in
    let l2 : (ltb attr_max (length r.attr) || ltb (length w2) (length r.attr + 4)) ≡ false =
      ground (
        arith,
        s.attr_short,
        length-append r.attr w3,
        length-append (put32 (length r.ext)) exts,
        length-put32 (length r.ext),
      ) in
    let l3 : ltb (length exts) (length r.ext * 16) ≡ false =
      ground (arith, length-append (put_extents r.ext) rest, length-put_extents r.ext) in
    let e =
      load_extents-of file_end r (record q { size = r.size; attr = r.attr }) rest t.grants b
        s.in_file g in
    rw (f, f', a, a', take-append, drop-append, n, n', l1, l2, l3, e) refl

pub load_one-put :
    (file_end : ℕ) (t : Table) (r q : Rec) (rest : List ℕ)
    → file_end < 2 ^ 64
    → Storable file_end r
    → (toc_insert t r.key).1 ≡ some q
    → (toc_insert t r.key).0.grants ≡ []
    → load_one file_end t (put_rec r ++ rest)
      ≡ ok (
        toc_write
            (record (toc_insert t r.key).0 { grants = [] })
            (reload r.ext (record q { size = r.size; attr = r.attr })),
        rest,
      )
unfolding load_one load_inserted
load_one-put file_end t r q rest b s i g =
    let w2 = fields_of r rest in
    let w1 = r.key ++ w2 in
    let (k, k') = get32-put32 (length r.key) w1 (omega (arith, s.key_short)) in
    let fields : 8 ≤ length w2 =
      unfold fields_of in omega (arith, length-append (put64 r.size) _, length-put64 r.size) in
    let l1 : ltb (length (put32 (length r.key) ++ w1)) 4 ≡ false =
      ground (arith, length-append (put32 (length r.key)) w1, length-put32 (length r.key)) in
    let l2 : (length r.key == 0
          || (ltb key_max (length r.key) || ltb (length w1) (length r.key + 8)))
        ≡ false =
      ground (arith, s.key_some, s.key_short, length-append r.key w2) in
    rw (put_rec-fields, k, k', l1, l2, take-append, drop-append, c_string-eq r.key s.key_text, i)
      (load_fields-put file_end (toc_insert t r.key).0 q r rest b s g)
