-- ===== src/Tests/Files.antt =====
-- Writes and reads of a file in memory: src/store.c on concrete data.
use libspill.Base.{ℕ, ◌+₆₄◌, ◌≡◌, refl, inr, true, none, some, List, [], ◌∷◌, arith}
use libspill.Alloc.{Extent}
use libspill.Status.{Status, done, Result, ok}
use libspill.Io.{ls_pwrite_all, ls_pread_all, pwrite_all, after_pwrite, pread_all, after_pread}
use libspill.Io.Retry.{Wrote, ReadBack, ls_pwrite_all-Wrote}
use libspill.Io.ReadLoop.{ls_pread_all-ReadBack, ls_pread_all-ls_pwrite_all}
use libspill.Scatter.{Place, scatter_out, scatter_in, scatter_write, scatter_read}
use libspill.Scatter.Write.{Scattered, Separate, scatter_out-Scattered}
use libspill.Scatter.Read.{Gathered, scatter_in-Gathered}
use libspill.Scatter.RoundTrip.{scatter_read-scatter_write}
use libspill.Zero.{zero_range, inside_file, extend_file, after_zeroing, after_fstat}
use libspill.Zero.Laws.{Zeroed, zero_range-Zeroed}
use libspill.Tests.Ram.{Ram, ram, ram-IsPosix}

-- an empty file, with one interrupted call to come
abbrev blank : Ram
blank = record { at = λ x. 0; end = 0; interrupts = 1 }

abbrev text : List ℕ
text = 104 ∷ 101 ∷ 108 ∷ 108 ∷ 111 ∷ []

ls_pwrite_all-Wrote_example :
    (st : Status) × ((ls_pwrite_all ram blank text 10).1 ≡ some st)
    × Wrote ram ram-IsPosix blank text 10 (ls_pwrite_all ram blank text 10).0 st
ls_pwrite_all-Wrote_example = ls_pwrite_all-Wrote ram ram-IsPosix blank text 10

abbrev filled : Ram
filled = (ls_pwrite_all ram blank text 10).0

ls_pread_all-ReadBack_example :
    (r : Result (List ℕ)) × ((ls_pread_all ram filled 5 10).1 ≡ some r)
    × ReadBack ram ram-IsPosix filled 5 10 (ls_pread_all ram filled 5 10).0 r
ls_pread_all-ReadBack_example = ls_pread_all-ReadBack ram ram-IsPosix filled 5 10

wrote_text : ls_pwrite_all ram blank text 10 ≡ (filled, some done)
unfolding ls_pwrite_all pwrite_all after_pwrite
wrote_text = refl

read_text : ls_pread_all ram filled 5 10 ≡ ((ls_pread_all ram filled 5 10).0, some (ok text))
unfolding ls_pread_all pread_all after_pread ls_pwrite_all pwrite_all after_pwrite
read_text = refl

ls_pread_all-ls_pwrite_all_example : text ≡ text
ls_pread_all-ls_pwrite_all_example =
    ls_pread_all-ls_pwrite_all ram ram-IsPosix blank filled (ls_pread_all ram filled 5 10).0 text
      text 10 wrote_text read_text

-- two extents in reverse order in the file
abbrev extents : List Extent
extents = record { foff = 20; len = 3 } ∷ record { foff = 10; len = 4 } ∷ []

extents-Separate : Separate extents
extents-Separate = ((λ x q. ground (arith, q)), ((λ x q. refl), tt))

abbrev spread : Ram
spread = (scatter_out ram blank extents 0 1 text).0

spread-text : scatter_out ram blank extents 0 1 text ≡ (spread, some done)
unfolding scatter_out ls_pwrite_all pwrite_all after_pwrite
spread-text = refl

scatter_out-Scattered_example : Scattered ram ram-IsPosix blank extents 0 1 text spread
scatter_out-Scattered_example =
    scatter_out-Scattered ram ram-IsPosix blank extents 0 1 text spread (inr (omega arith))
      extents-Separate spread-text

gathered_text :
    scatter_in ram spread extents 0 1 5 ≡ ((scatter_in ram spread extents 0 1 5).0, some (ok text))
unfolding scatter_in scatter_out ls_pwrite_all pwrite_all after_pwrite ls_pread_all pread_all
    after_pread
gathered_text = refl

scatter_in-Gathered_example :
    Gathered ram ram-IsPosix spread extents 1 5 (scatter_in ram spread extents 0 1 5).0 text
scatter_in-Gathered_example =
    scatter_in-Gathered ram ram-IsPosix spread extents 0 1 5 (scatter_in ram spread extents 0 1 5).0
      text (inr (omega arith)) gathered_text

abbrev place : Place
place = record { mem = none; ext = extents }

abbrev after_write : Ram
after_write = (scatter_write ram blank place 1 text).0

write_place : scatter_write ram blank place 1 text ≡ (after_write, none, some done)
unfolding scatter_write scatter_out ls_pwrite_all pwrite_all after_pwrite
write_place = refl

read_place :
    scatter_read ram after_write place 1 5
    ≡ ((scatter_read ram after_write place 1 5).0, some (ok text))
unfolding scatter_read scatter_write scatter_in scatter_out ls_pwrite_all pwrite_all after_pwrite
    ls_pread_all pread_all after_pread
read_place = refl

scatter_read-scatter_write_example : text ≡ text
scatter_read-scatter_write_example =
    scatter_read-scatter_write ram ram-IsPosix blank after_write
      (scatter_read ram after_write place 1 5).0 place 1 text text none extents-Separate write_place
      read_place

-- a range across the end of the file
abbrev zeroed : Ram
zeroed = (zero_range ram true filled 12 10).0

zeroed_range : zero_range ram true filled 12 10 ≡ (zeroed, some done)
unfolding zero_range after_fstat after_zeroing inside_file extend_file ls_pwrite_all pwrite_all
    after_pwrite ◌+₆₄◌
zeroed_range = refl

zero_range-Zeroed_example : Zeroed ram ram-IsPosix filled 12 10 zeroed
zero_range-Zeroed_example =
    zero_range-Zeroed ram ram-IsPosix true filled 12 10 zeroed (omega arith) zeroed_range
