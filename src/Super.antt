-- ===== src/Super.antt =====
-- src/open.c: the superblock, as `ls_close` writes it and `ls_open` reads it.
pub mod Laws
use libspill.Base.{
  ℕ, ◌+◌, ◌-◌, Bool, true, false, ◌||◌, not, List, [], ◌∷◌, ◌++◌, ltb, if◌then◌else◌, ◌==◌, length,
  take, drop, replicate,
}
use libspill.Alloc.{super_size}
use libspill.Codec.{put32, put64, get32, get64, crc32_of}
use libspill.Toc.{key_eq}
use libspill.Status.{Status, corrupt, Result, ok, fail}

-- "LIBSPILL"
abbrev pub magic : List ℕ
magic = 76 ∷ 73 ∷ 66 ∷ 83 ∷ 80 ∷ 73 ∷ 76 ∷ 76 ∷ []

abbrev pub fmt_version : ℕ
fmt_version = 2

-- from the end of the file, the number of records and the table of contents
unfoldable pub super_bytes : ℕ → ℕ → List ℕ → List ℕ
super_bytes file_end nrec tb =
    magic
    ++ (put32 fmt_version
        ++ (put32 0
            ++ (put64 file_end
                ++ (put64 nrec
                    ++ (put64 file_end
                        ++ (put32 (crc32_of tb)
                            ++ (replicate 4 0 ++ (put64 (length tb) ++ replicate 4040 0))))))))

pub record Super : Type 0 where
  pub toc_off : ℕ
  pub toc_n : ℕ
  pub fend : ℕ
  pub crc : ℕ
  pub tlen : ℕ

-- a length of zero stands for the rest of the file
abbrev pub toc_len : ℕ → ℕ → ℕ
toc_len rest tlen = if tlen == 0 then rest else tlen

-- the checks of the superblock of a file of `fsize` bytes
unfoldable pub read_super : ℕ → List ℕ → Result Super
read_super fsize sb =
    let toc_off = get64 (drop 16 sb) in
    let tlen = toc_len (fsize - toc_off) (get64 (drop 48 sb)) in
    if not (key_eq (take 8 sb) magic) || not (get32 (drop 8 sb) == fmt_version)
    then fail corrupt
    else if ltb toc_off super_size || ltb fsize toc_off
    then fail corrupt
    else if ltb (fsize - toc_off) tlen
    then fail corrupt
    else ok (record {
      toc_off = toc_off;
      toc_n = get64 (drop 24 sb);
      fend = get64 (drop 32 sb);
      crc = get32 (drop 40 sb);
      tlen = tlen;
    })
