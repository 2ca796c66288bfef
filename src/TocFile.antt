-- ===== src/TocFile.antt =====
-- src/open.c, `toc_serialise` and `toc_load`: the table of contents as bytes. The cursor `w` of
-- the reader is the list of the bytes from it to `end`.
pub mod Fields
pub mod RoundTrip
use libspill.Base.{
  ℕ, zero, suc, ◌+◌, ◌-◌, ◌*◌, Bool, true, false, ◌||◌, Option, none, some, List, [], ◌∷◌, ◌++◌,
  ltb, leb, if◌then◌else◌, ◌==◌, length, take, drop, ◌+₆₄◌,
}
use libspill.Alloc.{Hole, Extent, super_size, granted, later_grants}
use libspill.Codec.{put32, put64, get32, get64}
use libspill.Toc.{Rec, Table, key_max, attr_max, toc_insert, toc_write}
use libspill.Status.{Status, corrupt, no_memory, Result, ok, fail, ◌>>=◌, ◌>>◌, refuse_if}

unfoldable pub put_extents : List Extent → List ℕ
put_extents [] = []
put_extents (e ∷ es) = put64 e.foff ++ (put64 e.len ++ put_extents es)

-- the body of the writing loop, for one record
unfoldable pub put_rec : Rec → List ℕ
put_rec r =
    put32 (length r.key)
    ++ (r.key
        ++ (put64 r.size
            ++ (put32 (length r.attr) ++ (r.attr ++ (put32 (length r.ext) ++ put_extents r.ext)))))

unfoldable pub put_chain : List Rec → List ℕ
put_chain [] = []
put_chain (r ∷ c) = put_rec r ++ put_chain c

unfoldable pub put_tab : List (List Rec) → List ℕ
put_tab [] = []
put_tab (c ∷ cs) = put_chain c ++ put_tab cs

-- The size that is asked for first is that of the bytes written.
unfoldable pub toc_serialise : Table → Result (List ℕ)
toc_serialise t =
    refuse_if (if granted t.grants then false else true) no_memory (ok (put_tab t.tab))

-- `strdup` of the bytes read and a NUL: the key ends at the first NUL
unfoldable pub c_string : List ℕ → List ℕ
c_string [] = []
c_string (b ∷ bs) = if b == 0 then [] else b ∷ c_string bs

-- `r->ext[r->next++] = x; r->ext_total += x.len`, after room was made
unfoldable pub add_extent : Rec → Extent → ℕ → Rec
add_extent r x cap = record r {
  ext = r.ext ++ x ∷ [];
  ncap = cap;
  ext_total = r.ext_total +₆₄ x.len;
}

abbrev pub next_cap : ℕ → ℕ
next_cap ncap = if ncap == 0 then 4 else ncap * 2

-- the loop over the `ne` extents of a record
unfoldable pub load_extents : ℕ → ℕ → List ℕ → Rec → List Bool → Result (List ℕ × Rec × List Bool)
load_extents file_end zero w r grants = ok (w, r, grants)
load_extents file_end (suc ne) w r grants =
    let x : Extent = record { foff = get64 w; len = get64 (drop 8 w) } in
    let w' = drop 8 (drop 8 w) in
    let kept = load_extents file_end ne w' (add_extent r x r.ncap) grants in
    let grown =
      load_extents file_end ne w' (add_extent r x (next_cap r.ncap)) (later_grants grants) in
    if ltb x.foff super_size || ltb file_end (x.foff +₆₄ x.len)
    then fail corrupt
    else (if length r.ext == r.ncap
        then (if granted grants then grown else fail no_memory)
        else kept)

-- the fields of a record after its key; `r` is the record that `ls_toc_insert` made, in `t`
unfoldable pub load_fields : ℕ → Table → Rec → List ℕ → Result (Table × List ℕ)
unfolding load_extents
load_fields file_end t r w0 =
    let w1 = drop 8 w0 in
    let attrlen = get32 w1 in
    let w2 = drop 4 w1 in
    let w3 = drop attrlen w2 in
    let ne = get32 w3 in
    let w4 = drop 4 w3 in
    refuse_if (ltb (length w1) 4) corrupt (
      refuse_if (ltb attr_max attrlen || ltb (length w2) (attrlen + 4)) corrupt (
        refuse_if (ltb (length w4) (ne * 16)) corrupt (
          load_extents file_end ne w4 (record r { size = get64 w0; attr = take attrlen w2 })
            t.grants
          >>= λ l. ok (toc_write (record t { grants = l.2 }) l.1, l.0))))

-- what follows the insertion, by its outcome
unfoldable pub load_inserted : ℕ → Table → Option Rec → List ℕ → Result (Table × List ℕ)
load_inserted file_end t none w0 = fail no_memory
load_inserted file_end t (some r) w0 = load_fields file_end t r w0

-- the body of the reading loop
unfoldable pub load_one : ℕ → Table → List ℕ → Result (Table × List ℕ)
load_one file_end t w =
    let kl = get32 w in
    let w1 = drop 4 w in
    let inserted = toc_insert t (c_string (take kl w1)) in
    refuse_if (ltb (length w) 4) corrupt (
      refuse_if (kl == 0 || (ltb key_max kl || ltb (length w1) (kl + 8))) corrupt
        (load_inserted file_end inserted.0 inserted.1 (drop kl w1)))

unfoldable pub toc_load : ℕ → Table → List ℕ → ℕ → Result Table
toc_load file_end t w zero = ok t
toc_load file_end t w (suc count) = load_one file_end t w >>= λ l. toc_load file_end l.0 l.1 count
