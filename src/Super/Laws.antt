-- ===== src/Super/Laws.antt =====
-- src/open.c: the superblock that a close writes is the one that the next open reads.
use libspill.Base.{
  ℕ, ◌+◌, ◌-◌, ◌^◌, ◌≤◌, ◌<◌, ◌≡◌, refl, true, false, List, ◌++◌, arith, ltb, length, take, drop,
  replicate, ◌||◌, if◌then◌else◌, ◌==◌,
}
use libspill.Codec.{put_bytes, put32, put64, get32, get64, crc32_of}
use libspill.Codec.Laws.{get32-put32, get64-put64}
use libspill.Toc.{key_eq}
use libspill.Toc.Chain.{key_eq_iff}
use libspill.Status.{ok}
use libspill.Super.{magic, super_bytes, toc_len, read_super}

-- a superblock whose fields are known
read_super-fields :
    (fsize : ℕ) (sb : List ℕ) (file_end nrec crc len : ℕ)
    → take 8 sb ≡ magic
    → get32 (drop 8 sb) ≡ 2
    → get64 (drop 16 sb) ≡ file_end
    → get64 (drop 24 sb) ≡ nrec
    → get64 (drop 32 sb) ≡ file_end
    → get32 (drop 40 sb) ≡ crc
    → get64 (drop 48 sb) ≡ len
    → 4096 ≤ file_end
    → file_end + len ≤ fsize
    → read_super fsize sb
      ≡ ok (record {
        toc_off = file_end;
        toc_n = nrec;
        fend = file_end;
        crc = crc;
        tlen = toc_len (fsize - file_end) len;
      })
unfolding read_super
read_super-fields fsize sb file_end nrec crc len name version off count end sum size lo hi =
    let named : key_eq (take 8 sb) magic ≡ true = (key_eq_iff (take 8 sb) magic).1 name in
    let inside : (ltb file_end 4096 || ltb fsize file_end) ≡ false = ground (arith, lo, hi) in
    let fits : ltb (fsize - file_end) (toc_len (fsize - file_end) len) ≡ false =
      ground (arith, hi) in
    rw (named, version, off, count, end, sum, size, inside, fits) refl

-- For an end of the file, a record count and a length of the table of contents of 64 bits, a
-- checksum of 32 bits, an end of the file past the superblock, and a file that holds the table of
-- contents behind that end: what `ls_open` reads from the superblock that `ls_close` makes are these
-- numbers, the length included, except that a length of zero is taken for the rest of the file.
pub read_super-super_bytes :
    (fsize file_end nrec : ℕ) (tb : List ℕ)
    → file_end < 2 ^ 64
    → nrec < 2 ^ 64
    → length tb < 2 ^ 64
    → crc32_of tb < 2 ^ 32
    → 4096 ≤ file_end
    → file_end + length tb ≤ fsize
    → read_super fsize (super_bytes file_end nrec tb)
      ≡ ok (record {
        toc_off = file_end;
        toc_n = nrec;
        fend = file_end;
        crc = crc32_of tb;
        tlen = if length tb == 0 then fsize - file_end else length tb;
      })
unfolding super_bytes put32 put64 put_bytes
read_super-super_bytes fsize file_end nrec tb e n t c lo hi =
    let sb = super_bytes file_end nrec tb in
    let z7 = replicate {A = ℕ} 4040 0 in
    let z6 = put64 (length tb) ++ z7 in
    let z5 = put32 (crc32_of tb) ++ (replicate 4 0 ++ z6) in
    let z4 = put64 file_end ++ z5 in
    let z3 = put64 nrec ++ z4 in
    let z2 = put64 file_end ++ z3 in
    let version : get32 (drop 8 sb) ≡ 2 = (get32-put32 2 (put32 0 ++ z2) (omega arith)).0 in
    let off : get64 (drop 16 sb) ≡ file_end = (get64-put64 file_end z3 e).0 in
    let count : get64 (drop 24 sb) ≡ nrec = (get64-put64 nrec z4 n).0 in
    let end : get64 (drop 32 sb) ≡ file_end = (get64-put64 file_end z5 e).0 in
    let crc : get32 (drop 40 sb) ≡ crc32_of tb =
      (get32-put32 (crc32_of tb) (replicate 4 0 ++ z6) c).0 in
    let len : get64 (drop 48 sb) ≡ length tb = (get64-put64 (length tb) z7 t).0 in
    read_super-fields fsize sb file_end nrec (crc32_of tb) (length tb) refl version off count end
      crc len lo hi
