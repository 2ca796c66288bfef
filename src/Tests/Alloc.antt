-- ===== src/Tests/Alloc.antt =====
-- A store with two holes: src/alloc.c and the rebuild of src/open.c on concrete data.
use libspill.Base.{◌+◌, ◌-◌, ◌≡◌, refl, inl, inr, false, ◌+₆₄◌, [], ◌∷◌, arith}
use libspill.Alloc.{
  Extent, Alloc, super_size, fl_insert, alloc_best, alloc_largest, alloc_tail, free_extents,
  alloc_live, round_up,
}
use libspill.Alloc.Insert.{IsSound, Inserts, is_free, fl_insert-Inserts}
use libspill.Alloc.Handout.{
  BestFit, LargestFit, Takes, alloc_best-BestFit, alloc_largest-LargestFit, alloc_tail-Takes,
}
use libspill.Alloc.Release.{Frees, HoldsAll, free_extents-Frees, free_extents-Takes}
use libspill.Alloc.Live.{count_not, alloc_live-count}

-- pages 2 and 4 to 5 are free, the file has ten pages
abbrev two_holes : Alloc
two_holes = record {
  fl = record { foff = 8192; len = 4096 } ∷ record { foff = 16384; len = 8192 } ∷ [];
  flcap = 16;
  file_end = 40960;
  teardown = false;
  grants = [];
  cuts = [];
}

two_holes-IsSound : IsSound two_holes
two_holes-IsSound = record {
  sorted = (omega arith, omega arith, (omega arith, omega arith, omega arith));
  word = omega arith;
}

-- page 3 joins the holes on both of its sides
fl_insert-Inserts_example : Inserts two_holes 12288 4096 (fl_insert two_holes 12288 4096)
fl_insert-Inserts_example =
    fl_insert-Inserts two_holes 12288 4096 two_holes-IsSound (omega arith) (omega arith)
      (inl (omega arith), (inr (omega arith), tt))

alloc_best-BestFit_example : BestFit two_holes 5000 (alloc_best two_holes 5000)
alloc_best-BestFit_example = alloc_best-BestFit two_holes 5000 two_holes-IsSound

alloc_largest-LargestFit_example : LargestFit two_holes 4096 (alloc_largest two_holes 4096)
alloc_largest-LargestFit_example = alloc_largest-LargestFit two_holes 4096 two_holes-IsSound

alloc_tail-Takes_example :
    Takes two_holes (alloc_tail two_holes 100).1 (alloc_tail two_holes 100).0
    × ((alloc_tail two_holes 100).1.len ≡ round_up 100)
    × ((alloc_tail two_holes 100).0.file_end ≡ two_holes.file_end + round_up 100)
unfolding round_up ◌+₆₄◌
alloc_tail-Takes_example =
    alloc_tail-Takes two_holes 100 two_holes-IsSound (omega arith) (omega arith)

abbrev page3 : Extent
page3 = record { foff = 12288; len = 4096 }

abbrev page6 : Extent
page6 = record { foff = 24576; len = 4096 }

two_pages-HoldsAll : HoldsAll two_holes (page3 ∷ page6 ∷ [])
two_pages-HoldsAll = (
  record { data_area = omega arith; nonempty = omega arith; not_free = λ x q. ground (arith, q) },
  ((λ x q. ground (arith, q)), tt),
  (
    record { data_area = omega arith; nonempty = omega arith; not_free = λ x q. ground (arith, q) },
    tt,
    tt,
  ),
)

free_extents-Frees_example :
    Frees two_holes (page3 ∷ page6 ∷ []) (free_extents two_holes (page3 ∷ page6 ∷ []))
free_extents-Frees_example =
    free_extents-Frees two_holes (page3 ∷ page6 ∷ []) two_holes-IsSound refl two_pages-HoldsAll

abbrev grown : Alloc
grown = record two_holes { file_end = 45056 }

abbrev page10 : Extent
page10 = record { foff = 40960; len = 4096 }

page10-Takes : Takes two_holes page10 grown
page10-Takes = record {
  sound = record {
    sorted = (omega arith, omega arith, (omega arith, omega arith, omega arith));
    word = omega arith;
  };
  data_area = omega arith;
  nonempty = omega arith;
  was_free = λ x q. ground (arith, q);
  free = λ x. ground arith;
}

free_extents-Takes_example :
    is_free (free_extents grown (page10 ∷ [])) 41000 ≡ is_free two_holes 41000
free_extents-Takes_example = free_extents-Takes two_holes grown page10 page10-Takes refl refl 41000

alloc_live-count_example :
    alloc_live two_holes
    ≡ count_not (is_free two_holes) super_size (two_holes.file_end - super_size)
alloc_live-count_example = alloc_live-count two_holes two_holes-IsSound
